-- ===== src/Dht/Swarm.antt =====
-- pkg/dht/dht.go, Announce, Lookup and Leave: what a node does for its own user.
-- What the contacts answer to the search and to lookups is a parameter; the replies to announcements are
-- not looked at, and an address that cannot be resolved gets none. The requests are in the order of the
-- contacts; the periodic announcement is the entry of its topic in announces.
pub mod Peers
pub mod Membership
use keet_agent.Prelude.{
  ℕ, zero, suc, Bool, true, false, List, [], ◌∷◌, ◌++◌, Option, none, some, ◌==◌, if◌then◌else◌,
  bytes_eq, replicate, map,
}
use keet_agent.Bytes.{Bytes}
use keet_agent.Dht.HostPort.{join_host_port, itoa}
use keet_agent.Dht.Registry.{SwarmRegistry, is_registered, register_peer, get_peers, clear_swarm}
use keet_agent.Dht.Routing.{Contact, RoutingTable}
use keet_agent.Dht.Rpc.{Message, blank, msg_announce}
use keet_agent.Dht.Search.{has_id, iterative_find_node}
use keet_agent.Dht.Node.{DhtNode}

-- The answers to FIND_NODE and to LOOKUP, `none` for an error, by the contact.
pub record Answers : Type 0 where
  pub find_node : Bytes → Option (List Contact)
  pub lookup : Contact → Option (List Bytes)

pub record SwarmNode : Type 0 where
  pub node : DhtNode
  pub p2p_port : ℕ
  pub announces : List Bytes
  -- transport.Addr().String(), unless the transport is UDP.
  pub transport_addr : Option Bytes

abbrev pub loopback : Bytes
loopback = 49 ∷ 50 ∷ 55 ∷ 46 ∷ 48 ∷ 46 ∷ 48 ∷ 46 ∷ 49 ∷ []

abbrev pub announced_port : SwarmNode → ℕ → ℕ
announced_port s port = if port == 0 then s.p2p_port else port

abbrev pub local_addr : Option Bytes → ℕ → Bytes
local_addr none port = join_host_port loopback (itoa port)
local_addr (some addr) port = addr

-- A request to each contact; the transaction ID is random.
abbrev pub announce_request : DhtNode → Bytes → ℕ → Bytes → Message
announce_request n topic port tx_id = record (blank tx_id msg_announce n.local_id) {
  topic = topic;
  port = port;
}

abbrev pub start_reannounce : Bytes → List Bytes → List Bytes
start_reannounce topic announces =
    if has_id announces topic then announces else announces ++ (topic ∷ [])

-- delete(n.announces, topic)
pub stop_reannounce : Bytes → List Bytes → List Bytes
stop_reannounce topic [] = []
stop_reannounce topic (t ∷ ts) =
    let rest = stop_reannounce topic ts in if bytes_eq t topic then rest else t ∷ rest

abbrev pub with_registry : SwarmNode → SwarmRegistry → SwarmNode
with_registry s r = record s { node = record s.node { local_registry = r } }

abbrev pub with_routing : SwarmNode → RoutingTable → SwarmNode
with_routing s rt = record s { node = record s.node { routing = rt } }

-- iterativeFindNode on the node's table: the node after it, and the contacts.
abbrev pub searched :
    SwarmNode → Option (List Contact × RoutingTable) → Option (SwarmNode × List Contact)
searched s none = none
searched s (some (closest, rt)) = some (with_routing s rt, closest)

abbrev pub search : ℕ → Answers → SwarmNode → Bytes → Option (SwarmNode × List Contact)
search fuel net s topic = searched s (iterative_find_node net.find_node fuel s.node.routing topic)

-- The node, and the requests it sends.
abbrev pub announce_to :
    Bytes
    → ℕ
    → Bytes
    → Option (SwarmNode × List Contact)
    → Option (SwarmNode × List (Contact × Message))
announce_to topic port tx_id none = none
announce_to topic port tx_id (some (s, closest)) = some (
  record s { announces = start_reannounce topic s.announces },
  map (λ (c : Contact). (c, announce_request s.node topic port tx_id)) closest,
)

pub announce :
    ℕ → Answers → SwarmNode → Bytes → ℕ → Bytes → Option (SwarmNode × List (Contact × Message))
announce fuel net s topic port tx_id =
    let p = announced_port s port in
    let registered =
      (register_peer s.node.local_registry topic (local_addr s.transport_addr p)).0 in
    announce_to topic p tx_id (search fuel net (with_registry s registered) topic)

-- peerSet[peer] = true, in the order of insertion.
pub add_peers : List Bytes → List Bytes → List Bytes
add_peers set [] = set
add_peers set (p ∷ ps) = add_peers (if is_registered set p then set else set ++ (p ∷ [])) ps

abbrev pub add_answer : List Bytes → Option (List Bytes) → List Bytes
add_answer set none = set
add_answer set (some ps) = add_peers set ps

pub ask_peers : Answers → List Bytes → List Contact → List Bytes
unfolding add_peers
ask_peers net set [] = set
ask_peers net set (c ∷ cs) = ask_peers net (add_answer set (net.lookup c)) cs

abbrev pub peers_of : Answers → SwarmNode → Bytes → List Contact → List Bytes
peers_of net s topic [] = get_peers s.node.local_registry topic
peers_of net s topic (c ∷ cs) =
    add_peers (ask_peers net [] (c ∷ cs)) (get_peers s.node.local_registry topic)

abbrev pub looked_up :
    Answers → Bytes → Option (SwarmNode × List Contact) → Option (SwarmNode × List Bytes)
looked_up net topic none = none
looked_up net topic (some (s, closest)) = some (s, peers_of net s topic closest)

pub lookup : ℕ → Answers → SwarmNode → Bytes → Option (SwarmNode × List Bytes)
unfolding ask_peers
lookup fuel net s topic = looked_up net topic (search fuel net s topic)

abbrev pub leave_to :
    Bytes
    → Bytes
    → Option (SwarmNode × List Contact)
    → Option (SwarmNode × List (Contact × Message))
leave_to topic tx_id none = none
leave_to topic tx_id (some (s, closest)) = some (
  with_registry s (clear_swarm s.node.local_registry topic),
  map (λ (c : Contact). (c, announce_request s.node topic 0 tx_id)) closest,
)

pub leave : ℕ → Answers → SwarmNode → Bytes → Bytes → Option (SwarmNode × List (Contact × Message))
unfolding stop_reannounce
leave fuel net s topic tx_id =
    leave_to topic tx_id
      (search fuel net (record s { announces = stop_reannounce topic s.announces }) topic)
