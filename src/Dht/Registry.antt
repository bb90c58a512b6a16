-- ===== src/Dht/Registry.antt =====
-- pkg/dht/registry.go: which peers are registered for which topic. The mutex makes each method one
-- step; the callback of RegisterPeer is called behind it and is modelled as the event it is called with.
pub mod Peers
pub mod Topics
use keet_agent.Prelude.{
  Bool, true, false, List, [], ◌∷◌, ◌++◌, Option, none, some, if◌then◌else◌, bytes_eq,
}
use keet_agent.Bytes.{Bytes}

-- map[[32]byte][]string
pub record SwarmRegistry : Type 0 where
  pub swarms : Bytes → Option (List Bytes)

abbrev pub new_swarm_registry : SwarmRegistry
new_swarm_registry = record { swarms = λ _. none }

-- m[k] = v, and delete(m, k) for no value.
abbrev pub put :
    (Bytes → Option (List Bytes)) → Bytes → Option (List Bytes) → Bytes → Option (List Bytes)
put m k v j = if bytes_eq j k then v else m j

-- Reading a missing key gives the nil slice.
abbrev pub peers_or_nil : Option (List Bytes) → List Bytes
peers_or_nil none = []
peers_or_nil (some ps) = ps

pub is_registered : List Bytes → Bytes → Bool
is_registered [] peer = false
is_registered (p ∷ ps) peer = if bytes_eq p peer then true else is_registered ps peer

-- The registry, and the call of OnRegisterPeer.
pub register_peer : SwarmRegistry → Bytes → Bytes → SwarmRegistry × Option (Bytes × Bytes)
register_peer r topic peer =
    let peers = peers_or_nil (r.swarms topic) in
    if is_registered peers peer
    then (r, none)
    else (record { swarms = put r.swarms topic (some (peers ++ (peer ∷ []))) }, some (topic, peer))

-- append(peers[:i], peers[i+1:]...) at the first hit.
pub remove_first : Bytes → List Bytes → List Bytes
remove_first peer [] = []
remove_first peer (p ∷ ps) = if bytes_eq p peer then ps else p ∷ remove_first peer ps

pub unregister_peer : SwarmRegistry → Bytes → Bytes → SwarmRegistry
unfolding remove_first
unregister_peer r topic peer = elim (r.swarms topic) [
  | none ↦ r
  | some peers ↦ record { swarms = put r.swarms topic (some (remove_first peer peers)) }
]

-- The copy that a caller gets.
unfoldable pub get_peers : SwarmRegistry → Bytes → List Bytes
get_peers r topic = peers_or_nil (r.swarms topic)

pub clear_swarm : SwarmRegistry → Bytes → SwarmRegistry
clear_swarm r topic = record { swarms = put r.swarms topic none }
