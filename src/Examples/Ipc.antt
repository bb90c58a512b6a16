-- ===== src/Examples/Ipc.antt =====
-- Examples for pkg/ipc/socket.go.
use keet_agent.Prelude.{
  true, not, ◌&&◌, List, [], ◌∷◌, ◌++◌, replicate, none, some, bytes_eq, contains, if◌then◌else◌,
  ◌≡◌, refl, arith,
}
use keet_agent.Bytes.{Bytes}
use keet_agent.Encoding.Base64
use keet_agent.Encoding.Hex
use keet_agent.Db.Bolt.{
  swarm_repository, block_repository, put_block, register_swarm, get_active_swarms,
}
use keet_agent.Hypercore.Storage.{complete}
use keet_agent.Hypercore.Storage.Refinement.{holding}
use keet_agent.Dht.Registry.{new_swarm_registry}
use keet_agent.Dht.Routing.{Contact, RoutingTable, collect, sort_contacts, find_closest_peers}
use keet_agent.Dht.Bootstrap.{Ping, topic_keys, bootstrapped, start}
use keet_agent.Dht.Bootstrap.Restart.{Requested}
use keet_agent.Dht.Rpc.{Message}
use keet_agent.Dht.Search.{has_id, iterative_find_node, search_loop, next_queries}
use keet_agent.Dht.Swarm.{SwarmNode}
use keet_agent.Dht.Topic.{IsHash, resolve_topic_key}
use keet_agent.Ipc.Client.{
  number, Request, block_data, refused, unauthorized, ClientSwarms, Gateway, Environment,
  ClientServices, Handled, Transcript, is_empty, join_command, execute, handle_client,
}
use keet_agent.Ipc.Client.Access.{handle_client-whitelist}
use keet_agent.Ipc.Client.Blocks.{
  append_request, get_request, IsSmooth, appends, indices, handle_client-appends,
}
use keet_agent.Ipc.Client.Restart.{join_swarm-start}
use keet_agent.Ipc.Client.Swarms.{Joined, execute-join_swarm}
use keet_agent.Examples.Db.{
  Memory, memory, memory-IsBbolt, opened, or_same, paths_eq, names, remove,
}

abbrev zero_sum : Bytes → Bytes
zero_sum m = replicate 32 0

zero_sum-IsHash : IsHash zero_sum
zero_sum-IsHash = record { size = λ m. refl; bytes = λ m. omega arith }

abbrev pub services : ClientServices Memory Memory
services = record {
  swarm_repo = swarm_repository memory;
  block_repo = block_repository memory;
  sum256 = zero_sum;
  json_keys = λ _. none;
}

-- Nobody answers.
abbrev pub smooth : Environment
smooth = record {
  data_write = complete;
  index_write = complete;
  net = record { find_node = λ _. none; lookup = λ _. none };
  fuel = 1;
  tx_id = [];
  is_sent = true;
}

abbrev table : RoutingTable
table = record { local_id = []; buckets = λ _. [] }

abbrev node : SwarmNode
node = record {
  node = record { local_id = []; routing = table; local_registry = new_swarm_registry };
  p2p_port = 8080;
  announces = [];
  transport_addr = none;
}

abbrev reg : ClientSwarms
reg = record { registry = new_swarm_registry; p2p_port = 8080 }

abbrev pub gateway : Gateway Memory Memory
gateway = record {
  node = some node;
  reg = some reg;
  store = some (holding ((1 ∷ []) ∷ []));
  swarms = some opened;
  blocks = some opened;
}

abbrev join : Request
join = record (append_request [] []) { command = join_command; peer_key = 80 ∷ []; topic = 97 ∷ [] }

execute-join_swarm_example :
    (h : Handled Memory Memory) × (t : ClientSwarms) × (execute services smooth gateway join
      ≡ some h)
    × Joined services gateway smooth reg node (replicate 32 0) join [] h t
unfolding resolve_topic_key iterative_find_node search_loop next_queries find_closest_peers collect
    sort_contacts
execute-join_swarm_example =
    execute-join_swarm services smooth gateway join reg node (replicate 32 0) [] [] table table refl
      refl refl refl refl refl

-- A client that is not on the whitelist.
handle_client-whitelist_example :
    handle_client services ((81 ∷ []) ∷ []) gateway ((smooth, join) ∷ []) ≡ (
      if not (is_empty (join.peer_key)) && contains ((81 ∷ []) ∷ []) (join.peer_key)
      then handle_client services [] gateway ((smooth, join) ∷ [])
      else some (record {
        gateway = gateway;
        responses = refused join_command unauthorized ∷ [];
        events = [];
      }))
handle_client-whitelist_example =
    handle_client-whitelist services (81 ∷ []) [] gateway smooth join []

smooth-IsSmooth : IsSmooth smooth
smooth-IsSmooth = record { data_complete = refl; index_complete = refl; sent = refl }

-- Two blocks are appended, and the second is read.
abbrev two_blocks : List Bytes
two_blocks = (2 ∷ 3 ∷ []) ∷ (4 ∷ []) ∷ []

handle_client-appends_example :
    (o : Transcript Memory Memory) × (handle_client services [] gateway
        (appends smooth [] two_blocks (smooth, get_request [] (number 2)))
      ≡ some o)
    × (o.gateway.store ≡ some (holding ((1 ∷ []) ∷ two_blocks)))
    × (o.responses ≡ indices 1 two_blocks ++ (block_data (Base64.encode_to_string (4 ∷ [])) ∷ []))
handle_client-appends_example =
    handle_client-appends services smooth gateway ((1 ∷ []) ∷ []) two_blocks [] (4 ∷ []) 2
      smooth-IsSmooth ((omega arith, (omega arith, tt)), ((omega arith, tt), tt)) refl refl

abbrev with_block : Memory
with_block = or_same opened (put_block memory opened (102 ∷ []) 1 (2 ∷ 3 ∷ []) [])

-- The topic of the join above is announced by a node that is started with the database, though its
-- bootstrap node is silent.
abbrev joined_swarms : Memory
joined_swarms =
    or_same opened (register_swarm memory opened (Hex.encode_to_string (replicate 32 0)) (97 ∷ []))

abbrev silent : Ping
silent = record { addr = 98 ∷ []; answer = none }

join_swarm-start_example :
    (h : Handled Memory Memory) × (t : SwarmNode) × (sent : List (Contact × Message))
    × (started : SwarmNode) × (nearest : List Contact) × (execute services smooth gateway join
        ≡ some h)
    × (h.gateway.swarms ≡ some joined_swarms)
    × (start 1
          (λ _. smooth.net)
          []
          node
          (silent ∷ [])
          (some (Hex.encode_to_string (replicate 32 0) ∷ []))
        ≡ some (t, sent))
    × (bootstrapped 1 (λ _. smooth.net) node (silent ∷ []) ≡ some (started, nearest))
    × (has_id t.announces (replicate 32 0) ≡ true)
    × Requested
        (λ _. smooth.net)
        1
        []
        started
        (topic_keys (Hex.encode_to_string (replicate 32 0) ∷ []))
        (replicate 32 0)
        sent
unfolding resolve_topic_key iterative_find_node search_loop next_queries find_closest_peers collect
    sort_contacts register_swarm get_active_swarms or_same paths_eq names remove bytes_eq
join_swarm-start_example =
    join_swarm-start services memory memory-IsBbolt refl zero_sum-IsHash smooth gateway join reg
      node (replicate 32 0) [] [] table table opened joined_swarms []
      (Hex.encode_to_string (replicate 32 0) ∷ []) (λ _. smooth.net) [] 1 [] node (silent ∷ []) refl
      refl refl refl refl refl refl refl refl refl (λ target id cs e. cc) (omega arith) (λ i. tt)
      ((λ id e. cc), tt)
