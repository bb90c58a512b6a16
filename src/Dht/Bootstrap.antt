-- ===== src/Dht/Bootstrap.antt =====
-- pkg/dht/dht.go: Start, rehydrateSwarms and Stop.
-- The answers to the pings are in the order in which they arrive, `none` for an address that is not
-- resolved or does not answer. What the contacts answer depends on the target of the search, so that the
-- answers are given by it. The goroutines of rehydrateSwarms run one behind the other here, one of their
-- interleavings. `none` for a whole call is a search that has not ended within its rounds.
pub mod Restart
use keet_agent.Prelude.{ℕ, List, [], ◌∷◌, ◌++◌, length, Option, none, some, ◌==◌, if◌then◌else◌}
use keet_agent.Bytes.{Bytes}
use keet_agent.Encoding.Hex.{decode_string}
use keet_agent.Dht.Registry.{SwarmRegistry, register_peer}
use keet_agent.Dht.Routing.{Contact, RoutingTable, add_contact}
use keet_agent.Dht.Rpc.{Message}
use keet_agent.Dht.Swarm.{Answers, SwarmNode, with_registry, with_routing, search, announce, lookup}

-- A bootstrap node: its address, and the sender of its answer.
pub record Ping : Type 0 where
  pub addr : Bytes
  pub answer : Option Bytes

abbrev pub add_pinged : RoutingTable → Bytes → Option Bytes → RoutingTable
add_pinged rt addr none = rt
add_pinged rt addr (some id) = add_contact rt (record { id = id; addr = addr })

pub add_answers : RoutingTable → List Ping → RoutingTable
add_answers rt [] = rt
add_answers rt (p ∷ ps) = add_answers (add_pinged rt p.addr p.answer) ps

-- The keys of the stored topics: hex of 32 bytes, the others being skipped.
abbrev key_or_skip : Option Bytes → List Bytes → List Bytes
key_or_skip none rest = rest
key_or_skip (some key) rest = if length key == 32 then key ∷ rest else rest

pub topic_keys : List Bytes → List Bytes
topic_keys [] = []
topic_keys (k ∷ ks) = key_or_skip (decode_string k) (topic_keys ks)

pub register_all : SwarmRegistry → Bytes → List Bytes → SwarmRegistry
register_all r topic [] = r
register_all r topic (p ∷ ps) = register_all (register_peer r topic p).0 topic ps

-- A node, and the announcements that it has sent.
abbrev pub Run : Type 0
Run = Option (SwarmNode × List (Contact × Message))

abbrev pub with_found : Bytes → List (Contact × Message) → Option (SwarmNode × List Bytes) → Run
with_found topic sent none = none
with_found topic sent (some (s, peers)) =
    some (with_registry s (register_all s.node.local_registry topic peers), sent)

abbrev pub then_lookup : ℕ → Answers → Bytes → Run → Run
then_lookup fuel net topic none = none
then_lookup fuel net topic (some (s, sent)) = with_found topic sent (lookup fuel net s topic)

-- What the contacts answer in a search for a target.
abbrev pub Nets : Type 0
Nets = Bytes → Answers

-- The goroutine of a topic.
pub rehydrate_swarm : ℕ → Nets → Bytes → SwarmNode → Bytes → Run
unfolding register_all
rehydrate_swarm fuel nets tx_id s topic =
    then_lookup fuel (nets topic) topic (announce fuel (nets topic) s topic 0 tx_id)

abbrev pub sent_before : List (Contact × Message) → Run → Run
sent_before sent none = none
sent_before sent (some (s, more)) = some (s, sent ++ more)

pub rehydrate_all : ℕ → Nets → Bytes → SwarmNode → List Bytes → Run
unfolding rehydrate_swarm
rehydrate_all fuel nets tx_id s [] = some (s, [])
rehydrate_all fuel nets tx_id s (k ∷ ks) = elim (rehydrate_swarm fuel nets tx_id s k) [
  | none ↦ none
  | some (s', sent) ↦ sent_before sent (rehydrate_all fuel nets tx_id s' ks)
]

-- `none` where there is no repository or it fails.
abbrev pub rehydrate_swarms : ℕ → Nets → Bytes → Option (List Bytes) → SwarmNode → Run
rehydrate_swarms fuel nets tx_id none s = some (s, [])
rehydrate_swarms fuel nets tx_id (some active) s =
    rehydrate_all fuel nets tx_id s (topic_keys active)

abbrev pub then_rehydrate :
    ℕ → Nets → Bytes → Option (List Bytes) → Option (SwarmNode × List Contact) → Run
then_rehydrate fuel nets tx_id active none = none
then_rehydrate fuel nets tx_id active (some (s, closest)) =
    rehydrate_swarms fuel nets tx_id active s

abbrev pub bootstrapped : ℕ → Nets → SwarmNode → List Ping → Option (SwarmNode × List Contact)
bootstrapped fuel nets s [] = some (s, [])
bootstrapped fuel nets s (p ∷ ps) =
    search fuel (nets s.node.local_id) (with_routing s (add_answers s.node.routing (p ∷ ps)))
      s.node.local_id

pub start : ℕ → Nets → Bytes → SwarmNode → List Ping → Option (List Bytes) → Run
unfolding add_answers topic_keys rehydrate_all
start fuel nets tx_id s pings active =
    then_rehydrate fuel nets tx_id active (bootstrapped fuel nets s pings)

pub stop : SwarmNode → SwarmNode
stop s = record s { announces = [] }
