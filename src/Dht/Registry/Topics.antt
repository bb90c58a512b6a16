-- ===== src/Dht/Registry/Topics.antt =====
-- The swarm of each topic after a call of the registry (pkg/dht/registry.go).
use keet_agent.Prelude.{
  true, false, ◌||◌, List, [], ◌∷◌, ◌++◌, none, some, if◌then◌else◌, bytes_eq, bytes_eq→eq,
  bytes_eq_refl, ◌≡◌, refl, ap, ◌∙◌, arith, Bool-cases, inl, inr,
}
use keet_agent.Bytes.{Bytes}
use keet_agent.Dht.Registry.{
  SwarmRegistry, peers_or_nil, register_peer, is_registered, remove_first, unregister_peer,
  get_peers, clear_swarm,
}
use keet_agent.Dht.Registry.Peers.{is_registered-append}

pub get_peers-unregister_peer :
    (r : SwarmRegistry) (topic peer : Bytes)
    → get_peers (unregister_peer r topic peer) topic ≡ remove_first peer (get_peers r topic)
unfolding get_peers unregister_peer remove_first
get_peers-unregister_peer r topic peer = ground (arith, bytes_eq_refl topic)

pub get_peers-unregister_other :
    (r : SwarmRegistry) (topic peer other : Bytes)
    → bytes_eq other topic ≡ false
    → get_peers (unregister_peer r topic peer) other ≡ get_peers r other
unfolding get_peers unregister_peer
get_peers-unregister_other r topic peer other n = ground arith

pub get_peers-register_other :
    (r : SwarmRegistry) (topic peer other : Bytes)
    → bytes_eq other topic ≡ false
    → get_peers (register_peer r topic peer).0 other ≡ get_peers r other
unfolding get_peers register_peer
get_peers-register_other r topic peer other n = ground arith

-- Cutting a peer out behind others.
pub remove_first-append :
    (kept ps : List Bytes) (peer : Bytes)
    → is_registered kept peer ≡ false
    → remove_first peer (kept ++ (peer ∷ ps)) ≡ kept ++ ps
unfolding remove_first is_registered
remove_first-append [] ps peer h = rw (bytes_eq_refl peer) refl
remove_first-append (k ∷ ks) ps peer h = ground (arith, remove_first-append ks ps peer)

pub register_peer-registered :
    (r : SwarmRegistry) (topic peer : Bytes)
    → is_registered (get_peers (register_peer r topic peer).0 topic) peer ≡ true
unfolding get_peers register_peer
register_peer-registered r topic peer = ground (
  arith,
  is_registered-append (peers_or_nil (r.swarms topic)) peer peer,
  bytes_eq_refl peer,
  bytes_eq_refl topic,
)

pub is_registered_nil : (peer : Bytes) → is_registered [] peer ≡ false
unfolding is_registered
is_registered_nil peer = refl

pub is_registered_cons :
    (p : Bytes) (ps : List Bytes) (peer : Bytes)
    → is_registered (p ∷ ps) peer ≡ (if bytes_eq p peer then true else is_registered ps peer)
unfolding is_registered
is_registered_cons p ps peer = refl

pub get_peers-clear_swarm_self :
    (r : SwarmRegistry) (topic : Bytes) → get_peers (clear_swarm r topic) topic ≡ []
unfolding get_peers clear_swarm
get_peers-clear_swarm_self r topic = ground (arith, bytes_eq_refl topic)

pub get_peers-clear_swarm_other :
    (r : SwarmRegistry) (topic other : Bytes)
    → bytes_eq other topic ≡ false
    → get_peers (clear_swarm r topic) other ≡ get_peers r other
unfolding get_peers clear_swarm
get_peers-clear_swarm_other r topic other n = ground arith

pub is_registered-register_peer :
    (r : SwarmRegistry) (topic peer q : Bytes)
    → is_registered (get_peers (register_peer r topic peer).0 topic) q
      ≡ (is_registered (get_peers r topic) q || bytes_eq peer q)
unfolding get_peers register_peer
is_registered-register_peer r topic peer q =
    let old = peers_or_nil (r.swarms topic) in
    elim (Bool-cases (is_registered old peer)) [
      | inl there ↦ elim (Bool-cases (bytes_eq peer q)) [
        | inl same ↦
            rw
              (
                there,
                same,
                ← ap (λ (x : Bytes). is_registered old x) (bytes_eq→eq peer q same),
                there,
              )
              refl
        | inr apart ↦ rw (there, apart) (ground arith)
      ]
      | inr new ↦ rw (new, bytes_eq_refl topic) (is_registered-append old peer q ∙ ground arith)
    ]

-- The callback of RegisterPeer is called for a peer that was not registered.
pub register_peer-callback :
    (r : SwarmRegistry) (topic peer : Bytes)
    → (register_peer r topic peer).1
      ≡ (if is_registered (get_peers r topic) peer then none else some (topic, peer))
unfolding get_peers register_peer
register_peer-callback r topic peer = ground arith
