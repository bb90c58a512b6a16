-- ===== src/Examples/Node.antt =====
-- Examples for the node of pkg/dht: its search, its requests and its replies.
use keet_agent.Prelude.{
  ℕ, zero, suc, All, Bool, true, false, List, [], ◌∷◌, Option, none, some, bytes_eq, if◌then◌else◌,
  ◌==◌, ◌≡◌, inr, refl, ap, subst, arith,
}
use keet_agent.Bytes.{Bytes}
use mathlib.Core.Option.{some-injective}
use keet_agent.Dht.Routing.{
  Contact, RoutingTable, common_prefix_length, add_contact, update_bucket, find_contact,
}
use keet_agent.Dht.Routing.Buckets.{IsTable}
use keet_agent.Dht.Routing.Closest.{HasId}
use keet_agent.Dht.Registry.{SwarmRegistry, is_registered, get_peers}
use keet_agent.Dht.Registry.Peers.{Distinct}
use keet_agent.Dht.Registry.Topics.{is_registered_nil}
use keet_agent.Dht.Rpc.{Message, blank, zeros, msg_announce, msg_lookup}
use keet_agent.Dht.Rpc.RoundTrip.{IsContact, IsMessage}
use keet_agent.Dht.HostPort.{has_byte, join_host_port, itoa, IsHost}
use keet_agent.Dht.Search.{has_id, Search, iterative_find_node, nearest_20, to_query}
use keet_agent.Dht.Search.Ending.{Names, Exists, iterative_find_node_ends}
use keet_agent.Dht.Search.Results.{Answered, iterative_find_node_lem}
use keet_agent.Dht.Node.{Addr, DhtNode, host_or_all, handle_request, add_sender}
use keet_agent.Dht.Node.Peers.{by_ip, by_ip, elsewhere, handle_request-leave, lookup-announced}
use keet_agent.Dht.Node.Requests.{CanAnswer, with_tx_id}
use keet_agent.Dht.Dispatcher.{Dispatcher}
use keet_agent.Dht.Dispatcher.Exchange.{exchange, exchange_lem}
use keet_agent.Dht.Swarm.{Answers, SwarmNode, searched, lookup}
use keet_agent.Dht.Swarm.Peers.{IsUnion, lookup_lem}
use keet_agent.Examples.Dht.{id_of, contact, table, table-HasId, id_128, id_64, id_3}

-- 128 knows 64 and 3, 64 knows 128, and 3 does not answer.
abbrev ask : Bytes → Option (List Contact)
ask id =
    if bytes_eq id (id_of 128)
    then some (contact 64 ∷ contact 3 ∷ [])
    else if bytes_eq id (id_of 64)
    then some (contact 128 ∷ [])
    else none

abbrev all : List Bytes
all = id_of 128 ∷ id_of 64 ∷ id_of 3 ∷ []

asked :
    (P : Contact → Type 0) (first second : Bool) (cs : List Contact)
    → P (contact 128)
    → P (contact 64)
    → P (contact 3)
    → (if first
        then some (contact 64 ∷ contact 3 ∷ [])
        else if second
        then some (contact 128 ∷ [])
        else none)
      ≡ some cs
    → All P cs
asked P true second cs p q r e =
    subst (All P) (some-injective (contact 64 ∷ contact 3 ∷ []) cs e) (q, (r, tt))
asked P false true cs p q r e = subst (All P) (some-injective (contact 128 ∷ []) cs e) (p, tt)
asked P false false cs p q r e = cc

ask-Names : (P : Contact → Type 0) → P (contact 128) → P (contact 64) → P (contact 3) → Names ask P
ask-Names P p q r id cs e = asked P (bytes_eq id (id_of 128)) (bytes_eq id (id_of 64)) cs p q r e

contact_128-Exists : Exists all (contact 128)
unfolding has_id bytes_eq
contact_128-Exists = refl

contact_64-Exists : Exists all (contact 64)
unfolding has_id bytes_eq
contact_64-Exists = refl

contact_3-Exists : Exists all (contact 3)
unfolding has_id bytes_eq
contact_3-Exists = refl

table-Exists : (i : ℕ) → All (Exists all) (table.buckets i)
table-Exists zero = (contact_128-Exists, tt)
table-Exists (suc zero) = (contact_64-Exists, tt)
table-Exists (suc (suc i)) = tt

table-IsTable : IsTable table
unfolding common_prefix_length find_contact bytes_eq
table-IsTable zero = record {
  bounded = omega arith;
  distinct = (refl, tt);
  placed = ((refl, refl), tt);
}
table-IsTable (suc zero) = record {
  bounded = omega arith;
  distinct = (refl, tt);
  placed = ((refl, refl), tt);
}
table-IsTable (suc (suc i)) = record { bounded = omega arith; distinct = tt; placed = tt }

iterative_find_node_lem_example :
    (result : List Contact) × (after : RoutingTable) × (iterative_find_node ask 4 table (id_of 3)
      ≡ some (result, after))
    × Answered ask table (id_of 3) result
iterative_find_node_lem_example =
    iterative_find_node_lem ask all
      (ask-Names (Exists all) contact_128-Exists contact_64-Exists contact_3-Exists)
      (ask-Names HasId id_128 id_64 id_3) table (id_of 3) id_3 table-IsTable table-Exists
      table-HasId 4 (omega arith)

-- "10.0.0.7", and the UDP address of the host with a port.
abbrev ip : Bytes
ip = 49 ∷ 48 ∷ 46 ∷ 48 ∷ 46 ∷ 48 ∷ 46 ∷ 55 ∷ []

abbrev topic : Bytes
topic = id_of 200

abbrev from_port : ℕ → Addr
from_port p = record { udp_ip = some ip; text = join_host_port ip (itoa p) }

abbrev announcement : ℕ → Message
announcement port = record (blank (1 ∷ 2 ∷ 3 ∷ 4 ∷ []) msg_announce (id_of 128)) {
  topic = topic;
  port = port;
}

abbrev question : Message
question = record (blank (5 ∷ 6 ∷ 7 ∷ 8 ∷ []) msg_lookup (id_of 64)) { topic = topic }

abbrev known_peer : Bytes
known_peer = join_host_port ip (itoa 81)

abbrev peers : SwarmRegistry
peers = record { swarms = λ t. if bytes_eq t topic then some (known_peer ∷ []) else none }

abbrev node : DhtNode
node = record { local_id = zeros; routing = table; local_registry = peers }

other_topic : bytes_eq (id_of 3) topic ≡ false
unfolding bytes_eq
other_topic = refl

handle_request-leave_example :
    let after = (handle_request node (announcement 0) (from_port 9000)).0.local_registry in
    (get_peers after topic
      ≡ elsewhere (host_or_all (join_host_port ip (itoa 9000))) (get_peers peers topic))
    × (get_peers after (id_of 3) ≡ get_peers peers (id_of 3))
handle_request-leave_example =
    handle_request-leave node (announcement 0) (from_port 9000) (id_of 3) refl refl other_topic

lookup-announced_example :
    (r : Message) × ((handle_request
        (handle_request node (announcement 80) (from_port 9000)).0
        question
        (from_port 9001)).1
      ≡ some r)
    × (is_registered r.peers (join_host_port ip (itoa 80)) ≡ true)
lookup-announced_example =
    lookup-announced node (announcement 80) question (from_port 9000) (from_port 9001) ip
      (by_ip refl) refl refl refl refl

ip-IsHost : IsHost ip
unfolding has_byte
ip-IsHost = (refl, refl)

abbrev caller : Dispatcher
caller = record { node = record node { local_id = id_of 64 }; pending = λ tx_id. none }

abbrev callee : Dispatcher
callee = record { node = node; pending = λ tx_id. none }

question-IsMessage : IsMessage question
question-IsMessage = record {
  tx_size = refl;
  sender_size = refl;
  target_size = refl;
  topic_size = refl;
  port_range = omega arith;
  contact_count = omega arith;
  peer_count = omega arith;
  contact_sizes = tt;
  peer_sizes = tt;
}

question-contacts :
    (i : ℕ) → All IsContact ((add_sender node question (from_port 9001)).routing.buckets i)
unfolding add_contact update_bucket find_contact common_prefix_length bytes_eq join_host_port itoa
question-contacts zero = ((refl, (omega arith, omega arith)), tt)
question-contacts (suc zero) = ((refl, (omega arith, omega arith)), tt)
question-contacts (suc (suc i)) = let far : (suc (suc i) == 1) ≡ false = ground arith in rw far tt

node-CanAnswer : CanAnswer node question (from_port 9001)
unfolding get_peers bytes_eq join_host_port itoa
node-CanAnswer = record {
  id_size = refl;
  contact_sizes = question-contacts;
  peer_sizes = ((omega arith, omega arith), tt);
  peer_count = omega arith;
}

exchange_lem_example :
    let done = exchange 7 caller callee question (from_port 9001) (from_port 9000) in
    let handled = handle_request node question (from_port 9001) in
    (r : Message) × (handled.1 ≡ some r)
    × (done.response ≡ some (with_tx_id (5 ∷ 6 ∷ 7 ∷ 8 ∷ []) r))
    × (done.callee ≡ record callee { node = handled.0 })
    × (done.caller.node ≡ caller.node)
    × ((id : Bytes)
        → done.caller.pending id ≡ (if bytes_eq id (5 ∷ 6 ∷ 7 ∷ 8 ∷ []) then none else none))
exchange_lem_example =
    exchange_lem 7 caller callee question (from_port 9001) (from_port 9000) question-IsMessage
      (inr (inr (inr refl))) node-CanAnswer

-- The search finds 128 and 64, and 128 answers the lookup.
abbrev answers : Answers
answers = record {
  find_node = ask;
  lookup = λ c. if bytes_eq c.id (id_of 128) then some (known_peer ∷ (57 ∷ []) ∷ []) else none;
}

abbrev swarm_node : SwarmNode
swarm_node = record { node = node; p2p_port = 8080; announces = []; transport_addr = none }

known_peer-Distinct : Distinct (get_peers peers topic)
unfolding get_peers bytes_eq
known_peer-Distinct = (is_registered_nil known_peer, tt)

abbrev end_of_search :
    (t : Search) × (iterative_find_node ask 4 table topic ≡ some (nearest_20 t, t.routing))
    × (to_query t ≡ [])
end_of_search =
    iterative_find_node_ends ask all
      (ask-Names (Exists all) contact_128-Exists contact_64-Exists contact_3-Exists) table topic
      table-Exists 4 (omega arith)

lookup_lem_example :
    (result : List Bytes) × (lookup 4 answers swarm_node topic
      ≡ some (
        record swarm_node { node = record node { routing = (end_of_search.0).routing } },
        result,
      ))
    × IsUnion answers (nearest_20 (end_of_search.0)) (get_peers peers topic) result
lookup_lem_example =
    lookup_lem 4 answers swarm_node
      (record swarm_node { node = record node { routing = (end_of_search.0).routing } }) topic
      (nearest_20 (end_of_search.0)) (ap (searched swarm_node) end_of_search.1) known_peer-Distinct
