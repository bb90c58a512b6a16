-- ===== src/Dht/Registry/Peers.antt =====
-- Sequences of calls of the swarm registry (pkg/dht/registry.go), and the effect of each call.
use keet_agent.Prelude.{
  true, false, List, [], ◌∷◌, ◌++◌, none, some, if◌then◌else◌, bytes_eq, bytes_eq→eq, bytes_eq_refl,
  bytes_eq_sym, ◌≡◌, refl, arith,
}
use keet_agent.Bytes.{Bytes}
use keet_agent.Dht.Registry.{
  SwarmRegistry, new_swarm_registry, peers_or_nil, is_registered, register_peer, remove_first,
  unregister_peer, get_peers, clear_swarm,
}

abbrev pub Distinct : List Bytes → Type 0
Distinct [] = Unit {0}
Distinct (p ∷ ps) = (is_registered ps p ≡ false) × Distinct ps

pub is_registered-append :
    (ps : List Bytes) (q peer : Bytes)
    → is_registered (ps ++ (q ∷ [])) peer
      ≡ (if is_registered ps peer then true else bytes_eq q peer)
unfolding is_registered
is_registered-append [] q peer = ground arith
is_registered-append (p ∷ ps) q peer = ground (arith, is_registered-append ps q peer)

pub Distinct-append :
    (ps : List Bytes) (q : Bytes)
    → is_registered ps q ≡ false
    → Distinct ps
    → Distinct (ps ++ (q ∷ []))
unfolding is_registered
Distinct-append [] q h d = (refl, tt)
Distinct-append (p ∷ ps) q h (fresh, d) = (
  ground (arith, is_registered-append ps q p, bytes_eq_sym p q),
  Distinct-append ps q (ground arith) d,
)

is_registered-remove_other :
    (ps : List Bytes) (peer q : Bytes)
    → is_registered ps q ≡ false
    → is_registered (remove_first peer ps) q ≡ false
unfolding is_registered remove_first
is_registered-remove_other [] peer q h = refl
is_registered-remove_other (p ∷ ps) peer q h = ground (arith, is_registered-remove_other ps peer q)

Distinct-remove : (ps : List Bytes) (peer : Bytes) → Distinct ps → Distinct (remove_first peer ps)
unfolding remove_first
Distinct-remove [] peer d = tt
Distinct-remove (p ∷ ps) peer (fresh, d) =
    ground (arith, Distinct-remove ps peer d, is_registered-remove_other ps peer p fresh)

is_registered-remove_self :
    (ps : List Bytes) (peer : Bytes)
    → Distinct ps
    → is_registered (remove_first peer ps) peer ≡ false
unfolding is_registered remove_first
is_registered-remove_self [] peer d = refl
is_registered-remove_self (p ∷ ps) peer (fresh, d) =
    ground (arith, is_registered-remove_self ps peer d, bytes_eq→eq p peer, fresh)

-- Calls of the registry, in the order of the mutex.
pub data Call : Type 0 where
  register unregister : Bytes → Bytes → Call
  clear : Bytes → Call

step : SwarmRegistry → Call → SwarmRegistry
step r (register topic peer) = (register_peer r topic peer).0
step r (unregister topic peer) = unregister_peer r topic peer
step r (clear topic) = clear_swarm r topic

pub run : SwarmRegistry → List Call → SwarmRegistry
run r [] = r
run r (c ∷ cs) = run (step r c) cs

abbrev pub IsSwarms : SwarmRegistry → Type 0
IsSwarms r = (topic : Bytes) → Distinct (get_peers r topic)

step-IsSwarms : (r : SwarmRegistry) (c : Call) → IsSwarms r → IsSwarms (step r c)
unfolding step register_peer unregister_peer clear_swarm get_peers
step-IsSwarms r (register t peer) h topic =
    ground (arith, h topic, h t, Distinct-append (peers_or_nil (r.swarms t)) peer)
step-IsSwarms r (unregister t peer) h topic =
    ground (arith, h topic, h t, Distinct-remove (peers_or_nil (r.swarms t)) peer)
step-IsSwarms r (clear t) h topic = ground (arith, h topic)

run-IsSwarms : (r : SwarmRegistry) (cs : List Call) → IsSwarms r → IsSwarms (run r cs)
unfolding run
run-IsSwarms r [] h = h
run-IsSwarms r (c ∷ cs) h = run-IsSwarms (step r c) cs (step-IsSwarms r c h)

-- After any calls no swarm holds a peer twice.
pub run-new-IsSwarms : (cs : List Call) → IsSwarms (run new_swarm_registry cs)
run-new-IsSwarms cs = run-IsSwarms new_swarm_registry cs (unfold get_peers in λ topic. tt)

-- Registering: the peer is then in the swarm, the callback is called exactly when it was not before,
-- and no other swarm changes.
register_peer_lem :
    (r : SwarmRegistry) (topic peer other : Bytes)
    → bytes_eq other topic ≡ false
    → (is_registered (get_peers (register_peer r topic peer).0 topic) peer ≡ true)
      × ((register_peer r topic peer).1
          ≡ (if is_registered (get_peers r topic) peer then none else some (topic, peer)))
      × (get_peers (register_peer r topic peer).0 other ≡ get_peers r other)
unfolding register_peer get_peers
register_peer_lem r topic peer other h = (
  ground (
    arith,
    is_registered-append (peers_or_nil (r.swarms topic)) peer peer,
    bytes_eq_refl peer,
    bytes_eq_refl topic,
  ),
  ground arith,
  ground arith,
)

-- Removing: in a registry that its calls built, the peer is then in the swarm no longer, and no other
-- swarm changes.
unregister_peer_lem :
    (r : SwarmRegistry) (topic peer other : Bytes)
    → IsSwarms r
    → bytes_eq other topic ≡ false
    → (is_registered (get_peers (unregister_peer r topic peer) topic) peer ≡ false)
      × (get_peers (unregister_peer r topic peer) other ≡ get_peers r other)
unfolding unregister_peer get_peers
unregister_peer_lem r topic peer other h k = (
  unfold is_registered in
      ground (
        arith,
        h topic,
        is_registered-remove_self (peers_or_nil (r.swarms topic)) peer (h topic),
        bytes_eq_refl topic,
      ),
  ground arith,
)
