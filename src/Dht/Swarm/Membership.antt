-- ===== src/Dht/Swarm/Membership.antt =====
-- Announce and Leave (pkg/dht/dht.go) as the node and the contacts see them.
use keet_agent.Prelude.{
  ℕ, true, false, ◌||◌, List, [], ◌∷◌, some, bytes_eq, bytes_eq_refl, map, ◌≡◌, refl, sym, ap, ◌∙◌,
  arith, Bool-cases, Option-cases, inl, inr,
}
use keet_agent.Bytes.{Bytes}
use mathlib.Core.Option.{some-injective}
use keet_agent.Dht.Registry.{is_registered, register_peer, get_peers, clear_swarm}
use keet_agent.Dht.Registry.Topics.{
  register_peer-registered, is_registered-register_peer, get_peers-register_other,
  get_peers-clear_swarm_self, get_peers-clear_swarm_other,
}
use keet_agent.Dht.Routing.{Contact, RoutingTable}
use keet_agent.Dht.Rpc.{Message}
use keet_agent.Dht.Search.{has_id, iterative_find_node}
use keet_agent.Dht.Search.Ending.{has_id-append}
use keet_agent.Dht.Swarm.{
  Answers, SwarmNode, announced_port, local_addr, announce_request, start_reannounce,
  stop_reannounce, with_registry, with_routing, announce, leave,
}

pub has_id-start_reannounce :
    (topic : Bytes) (ts : List Bytes) → has_id (start_reannounce topic ts) topic ≡ true
unfolding has_id
has_id-start_reannounce topic ts = elim (Bool-cases (has_id ts topic)) [
  | inl old ↦ rw old old
  | inr new ↦ rw new (has_id-append ts (topic ∷ []) topic ∙ ground (arith, bytes_eq_refl topic))
]

has_id-stop_reannounce :
    (topic : Bytes) (ts : List Bytes) → has_id (stop_reannounce topic ts) topic ≡ false
unfolding has_id stop_reannounce
has_id-stop_reannounce topic [] = refl
has_id-stop_reannounce topic (t ∷ ts) = ground (arith, has_id-stop_reannounce topic ts)

-- An announcement to each contact.
abbrev pub requests_to : SwarmNode → Bytes → ℕ → Bytes → List Contact → List (Contact × Message)
requests_to s topic port tx_id closest =
    map (λ (c : Contact). (c, announce_request s.node topic port tx_id)) closest

pub record Announced (s t : SwarmNode) (topic : Bytes) (port : ℕ) (tx_id : Bytes)
    (closest : List Contact) (sent : List (Contact × Message)) : Type 0 where
  pub registered :
      is_registered (get_peers t.node.local_registry topic) (local_addr s.transport_addr port)
      ≡ true
  pub repeated : has_id t.announces topic ≡ true
  pub requested : sent ≡ requests_to s topic port tx_id closest

pub record Left (s u : SwarmNode) (topic : Bytes) (tx_id : Bytes) (closest : List Contact)
    (sent : List (Contact × Message)) : Type 0 where
  pub emptied : get_peers u.node.local_registry topic ≡ []
  pub silent : has_id u.announces topic ≡ false
  pub requested : sent ≡ requests_to s topic 0 tx_id closest
  pub others :
      (other : Bytes)
      → bytes_eq other topic ≡ false
      → get_peers u.node.local_registry other ≡ get_peers s.node.local_registry other

-- When the search of Announce ends, the node has its own address in the swarm of the topic and the other
-- swarms as they were, the topic is announced from then on, and each contact of the search is sent an
-- announcement with the given port, or with that of SetP2PPort if it is 0.
pub announce_lem :
    (fuel : ℕ) (net : Answers) (s : SwarmNode) (topic tx_id : Bytes) (port : ℕ)
    (closest : List Contact) (rt : RoutingTable)
    → iterative_find_node net.find_node fuel s.node.routing topic ≡ some (closest, rt)
    → (t : SwarmNode) × (sent : List (Contact × Message)) × (announce fuel net s topic port tx_id
        ≡ some (t, sent))
      × (t.node.routing ≡ rt)
      × ((other : Bytes)
          → bytes_eq other topic ≡ false
          → get_peers t.node.local_registry other ≡ get_peers s.node.local_registry other)
      × Announced s t topic (announced_port s port) tx_id closest sent
unfolding announce
announce_lem fuel net s topic tx_id port closest rt e =
    let p = announced_port s port in
    let own = local_addr s.transport_addr p in
    let registered : SwarmNode =
      with_routing (with_registry s (register_peer s.node.local_registry topic own).0) rt in
    (
      record registered { announces = start_reannounce topic s.announces },
      requests_to s topic p tx_id closest,
      rw e refl,
      refl,
      get_peers-register_other s.node.local_registry topic own,
      record {
        registered = register_peer-registered s.node.local_registry topic own;
        repeated = has_id-start_reannounce topic s.announces;
        requested = refl;
      },
    )

-- When the search of Leave ends, the swarm of the topic is empty and the other swarms are as they were,
-- the topic is announced no longer, and each contact of the search is sent an announcement with port 0.
pub leave_lem :
    (fuel : ℕ) (net : Answers) (s : SwarmNode) (topic tx_id : Bytes) (closest : List Contact)
    (rt : RoutingTable)
    → iterative_find_node net.find_node fuel s.node.routing topic ≡ some (closest, rt)
    → (u : SwarmNode) × (sent : List (Contact × Message)) × (leave fuel net s topic tx_id
        ≡ some (u, sent))
      × Left s u topic tx_id closest sent
unfolding leave
leave_lem fuel net s topic tx_id closest rt e =
    let r = s.node.local_registry in
    (
      with_registry (with_routing (record s { announces = stop_reannounce topic s.announces }) rt)
          (clear_swarm r topic),
      requests_to s topic 0 tx_id closest,
      rw e refl,
      record {
        emptied = get_peers-clear_swarm_self r topic;
        silent = has_id-stop_reannounce topic s.announces;
        requested = refl;
        others = get_peers-clear_swarm_other r topic;
      },
    )

-- The swarm of the topic behind Announce.
pub announce-members :
    (fuel : ℕ) (net : Answers) (s : SwarmNode) (topic tx_id : Bytes) (port : ℕ)
    (closest : List Contact) (rt : RoutingTable)
    → iterative_find_node net.find_node fuel s.node.routing topic ≡ some (closest, rt)
    → (t : SwarmNode) × (sent : List (Contact × Message)) × (announce fuel net s topic port tx_id
        ≡ some (t, sent))
      × (t.node.routing ≡ rt)
      × ((q : Bytes)
          → is_registered (get_peers t.node.local_registry topic) q ≡ (
              is_registered (get_peers s.node.local_registry topic) q
              || bytes_eq (local_addr s.transport_addr (announced_port s port)) q))
unfolding announce
announce-members fuel net s topic tx_id port closest rt e =
    let p = announced_port s port in
    let own = local_addr s.transport_addr p in
    let registered : SwarmNode =
      with_routing (with_registry s (register_peer s.node.local_registry topic own).0) rt in
    (
      record registered { announces = start_reannounce topic s.announces },
      requests_to s topic p tx_id closest,
      rw e refl,
      refl,
      is_registered-register_peer s.node.local_registry topic own,
    )

-- The topics that the node announces, behind Announce.
pub announce-announces :
    (fuel : ℕ) (net : Answers) (s t : SwarmNode) (topic tx_id : Bytes) (port : ℕ)
    (sent : List (Contact × Message))
    → announce fuel net s topic port tx_id ≡ some (t, sent)
    → t.announces ≡ start_reannounce topic s.announces
unfolding announce
announce-announces fuel net s t topic tx_id port sent e =
    elim (Option-cases (iterative_find_node net.find_node fuel s.node.routing topic)) [
      | inl stuck ↦ absurd (ground (arith, stuck))
      | inr ((closest, rt), ended) ↦ ground (arith, ended)
    ]

pub has_id-start_reannounce_other :
    (topic other : Bytes) (ts : List Bytes)
    → has_id ts other ≡ true
    → has_id (start_reannounce topic ts) other ≡ true
has_id-start_reannounce_other topic other ts h = elim (Bool-cases (has_id ts topic)) [
  | inl old ↦ rw old h
  | inr new ↦ rw new (has_id-append ts (topic ∷ []) other ∙ ground (arith, h))
]

-- What Announce sends.
pub announce-sent :
    (fuel : ℕ) (net : Answers) (s t : SwarmNode) (topic tx_id : Bytes) (port : ℕ)
    (closest : List Contact) (rt : RoutingTable) (sent : List (Contact × Message))
    → iterative_find_node net.find_node fuel s.node.routing topic ≡ some (closest, rt)
    → announce fuel net s topic port tx_id ≡ some (t, sent)
    → sent ≡ requests_to s topic (announced_port s port) tx_id closest
announce-sent fuel net s t topic tx_id port closest rt sent found e =
    let (u, others, done, _, _, a) = announce_lem fuel net s topic tx_id port closest rt found in
    ap (λ (p : SwarmNode × List (Contact × Message)). p.1)
      (some-injective (t, sent) (u, others) (sym e ∙ done))
    ∙ a.requested
