-- ===== src/Dht/Swarm/Peers.antt =====
-- The peers that Lookup (pkg/dht/dht.go) returns.
use keet_agent.Prelude.{
  ℕ, Bool, false, ◌||◌, List, [], ◌∷◌, ◌++◌, Option, none, some, if◌then◌else◌, bytes_eq,
  bytes_eq→eq, ◌≡◌, ap, ◌∙◌, arith, Bool-cases, inl, inr,
}
use keet_agent.Bytes.{Bytes}
use keet_agent.Dht.Registry.{is_registered, get_peers}
use keet_agent.Dht.Registry.Peers.{Distinct, Distinct-append, is_registered-append}
use keet_agent.Dht.Registry.Topics.{is_registered_nil, is_registered_cons}
use keet_agent.Dht.Routing.{Contact}
use keet_agent.Dht.Swarm.{
  Answers, SwarmNode, search, add_peers, add_answer, ask_peers, peers_of, looked_up, lookup,
}

is_registered-add_peer :
    (set : List Bytes) (p q : Bytes)
    → is_registered (if is_registered set p then set else set ++ (p ∷ [])) q
      ≡ (is_registered set q || bytes_eq p q)
is_registered-add_peer set p q = elim (Bool-cases (is_registered set p)) [
  | inl old ↦ elim (Bool-cases (bytes_eq p q)) [
    | inl same ↦
        let e : is_registered set p ≡ is_registered set q =
          ap (λ (x : Bytes). is_registered set x) (bytes_eq→eq p q same) in
        rw (old, same) (ground (arith, e, old))
    | inr other ↦ rw (old, other) (ground arith)
  ]
  | inr new ↦ rw new (is_registered-append set p q ∙ ground arith)
]

is_registered-add_peers :
    (set ps : List Bytes) (q : Bytes)
    → is_registered (add_peers set ps) q ≡ (is_registered set q || is_registered ps q)
unfolding add_peers
is_registered-add_peers set [] q = rw (is_registered_nil q) (ground arith)
is_registered-add_peers set (p ∷ ps) q =
    is_registered-add_peers (if is_registered set p then set else set ++ (p ∷ [])) ps q
    ∙ rw (is_registered-add_peer set p q, is_registered_cons p ps q) (ground arith)

Distinct-add_peers : (set ps : List Bytes) → Distinct set → Distinct (add_peers set ps)
unfolding add_peers
Distinct-add_peers set [] d = d
Distinct-add_peers set (p ∷ ps) d = elim (Bool-cases (is_registered set p)) [
  | inl old ↦ rw old (Distinct-add_peers set ps d)
  | inr new ↦ rw new (Distinct-add_peers (set ++ (p ∷ [])) ps (Distinct-append set p new d))
]

abbrev pub answers_with : Bytes → Option (List Bytes) → Bool
answers_with q none = false
answers_with q (some ps) = is_registered ps q

-- Whether one of the contacts answers the lookup with the peer.
pub offered : Answers → List Contact → Bytes → Bool
offered net [] q = false
offered net (c ∷ cs) q = answers_with q (net.lookup c) || offered net cs q

is_registered-add_answer :
    (set : List Bytes) (answer : Option (List Bytes)) (q : Bytes)
    → is_registered (add_answer set answer) q ≡ (is_registered set q || answers_with q answer)
is_registered-add_answer set none q = ground arith
is_registered-add_answer set (some ps) q = is_registered-add_peers set ps q

Distinct-add_answer :
    (set : List Bytes) (answer : Option (List Bytes))
    → Distinct set
    → Distinct (add_answer set answer)
Distinct-add_answer set none d = d
Distinct-add_answer set (some ps) d = Distinct-add_peers set ps d

is_registered-ask_peers :
    (net : Answers) (set : List Bytes) (cs : List Contact) (q : Bytes)
    → is_registered (ask_peers net set cs) q ≡ (is_registered set q || offered net cs q)
unfolding ask_peers offered
is_registered-ask_peers net set [] q = ground arith
is_registered-ask_peers net set (c ∷ cs) q =
    is_registered-ask_peers net (add_answer set (net.lookup c)) cs q
    ∙ rw (is_registered-add_answer set (net.lookup c) q) (ground arith)

Distinct-ask_peers :
    (net : Answers) (set : List Bytes) (cs : List Contact)
    → Distinct set
    → Distinct (ask_peers net set cs)
unfolding ask_peers
Distinct-ask_peers net set [] d = d
Distinct-ask_peers net set (c ∷ cs) d =
    Distinct-ask_peers net (add_answer set (net.lookup c)) cs
      (Distinct-add_answer set (net.lookup c) d)

peers_of-members :
    (net : Answers) (s : SwarmNode) (topic : Bytes) (closest : List Contact) (q : Bytes)
    → is_registered (peers_of net s topic closest) q
      ≡ (is_registered (get_peers s.node.local_registry topic) q || offered net closest q)
unfolding offered
peers_of-members net s topic [] q = ground arith
peers_of-members net s topic (c ∷ cs) q =
    is_registered-add_peers (ask_peers net [] (c ∷ cs)) (get_peers s.node.local_registry topic) q
    ∙ rw (is_registered-ask_peers net [] (c ∷ cs) q, is_registered_nil q) (ground arith)

peers_of-Distinct :
    (net : Answers) (s : SwarmNode) (topic : Bytes) (closest : List Contact)
    → Distinct (get_peers s.node.local_registry topic)
    → Distinct (peers_of net s topic closest)
peers_of-Distinct net s topic [] d = d
peers_of-Distinct net s topic (c ∷ cs) d =
    Distinct-add_peers (ask_peers net [] (c ∷ cs)) (get_peers s.node.local_registry topic)
      (Distinct-ask_peers net [] (c ∷ cs) tt)

-- What Lookup returns, where the search ends with the node t and the contacts.
pub lookup-members :
    (fuel : ℕ) (net : Answers) (s t : SwarmNode) (topic : Bytes) (closest : List Contact)
    → search fuel net s topic ≡ some (t, closest)
    → (result : List Bytes) × (lookup fuel net s topic ≡ some (t, result))
      × ((q : Bytes)
          → is_registered result q
            ≡ (is_registered (get_peers t.node.local_registry topic) q || offered net closest q))
unfolding lookup
lookup-members fuel net s t topic closest e =
    (peers_of net t topic closest, ap (looked_up net topic) e, peers_of-members net t topic closest)

-- Each peer is listed once, and is one of the registry or of an answer.
pub record IsUnion (net : Answers) (closest : List Contact) (local result : List Bytes)
    : Type 0 where
  pub distinct : Distinct result
  pub members :
      (q : Bytes) → is_registered result q ≡ (is_registered local q || offered net closest q)

-- Where the search ends with the node t and the contacts, Lookup returns each peer that the registry of t
-- has for the topic, or that one of the contacts answers with, once and no other, if the registry has no
-- peer of the topic twice.
pub lookup_lem :
    (fuel : ℕ) (net : Answers) (s t : SwarmNode) (topic : Bytes) (closest : List Contact)
    → search fuel net s topic ≡ some (t, closest)
    → Distinct (get_peers t.node.local_registry topic)
    → (result : List Bytes) × (lookup fuel net s topic ≡ some (t, result))
      × IsUnion net closest (get_peers t.node.local_registry topic) result
unfolding lookup
lookup_lem fuel net s t topic closest e d = (
  peers_of net t topic closest,
  ap (looked_up net topic) e,
  record {
    distinct = peers_of-Distinct net t topic closest d;
    members = peers_of-members net t topic closest;
  },
)
