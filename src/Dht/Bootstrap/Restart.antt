-- ===== src/Dht/Bootstrap/Restart.antt =====
-- Start (pkg/dht/dht.go): which topics a node announces again.
use keet_agent.Prelude.{
  ℕ, ◌<◌, true, List, [], ◌∷◌, ◌++◌, length, All, Option, none, some, bytes_eq, bytes_eq→eq,
  bytes_eq_refl, contains, ◌≡◌, refl, sym, ap, subst, ◌∙◌, map, append_assoc, arith, Bool-cases,
  Option-cases, inl, inr,
}
use keet_agent.Bytes.{Bytes}
use keet_agent.Encoding.Hex.{encode_to_string, decode_string, decode_string-encode_to_string}
use keet_agent.Dht.Routing.{Contact, RoutingTable, add_contact}
use keet_agent.Dht.Rpc.{Message, msg_announce, zeros}
use keet_agent.Dht.Search.{has_id, iterative_find_node}
use keet_agent.Dht.Search.Ending.{Names, Exists}
use keet_agent.Dht.Search.Table.{Within, add_contact-Within, iterative_find_node-Within}
use keet_agent.Dht.Swarm.{SwarmNode, with_registry, with_routing, searched, search}
use keet_agent.Dht.Swarm.Membership.{
  announce-members, announce-announces, announce-sent, has_id-start_reannounce,
  has_id-start_reannounce_other,
}
use keet_agent.Dht.Swarm.Peers.{lookup-members}
use keet_agent.Dht.Bootstrap.{
  Nets, Ping, add_answers, key_or_skip, topic_keys, register_all, rehydrate_swarm, rehydrate_all,
  bootstrapped, start,
}

-- The sender of an answer has one of the IDs.
abbrev pub IsPing : List Bytes → Ping → Type 0
IsPing all p = (id : Bytes) → p.answer ≡ some id → has_id all id ≡ true

add_answers-Within :
    (all : List Bytes) (rt : RoutingTable) (ps : List Ping)
    → Within all rt
    → All (IsPing all) ps
    → Within all (add_answers rt ps)
unfolding add_answers
add_answers-Within all rt [] w h = w
add_answers-Within all rt (p ∷ ps) w (k, hs) = elim (Option-cases p.answer) [
  | inl silent ↦ rw silent (add_answers-Within all rt ps w hs)
  | inr (id, said) ↦ rw said (
      add_answers-Within all (add_contact rt (record { id = id; addr = p.addr })) ps
        (add_contact-Within all rt (record { id = id; addr = p.addr }) w (k id said)) hs)
]

has_id-key_or_skip :
    (d : Option Bytes) (rest : List Bytes) (key : Bytes)
    → has_id rest key ≡ true
    → has_id (key_or_skip d rest) key ≡ true
unfolding has_id
has_id-key_or_skip none rest key h = h
has_id-key_or_skip (some k) rest key h = ground arith

-- The key of a stored topic is one of the keys.
has_id-topic_keys :
    (active : List Bytes) (key : Bytes)
    → length key ≡ 32
    → All (λ b. b < 256) key
    → contains active (encode_to_string key) ≡ true
    → has_id (topic_keys active) key ≡ true
unfolding topic_keys contains has_id
has_id-topic_keys [] key full bytes h = cc
has_id-topic_keys (k ∷ ks) key full bytes h =
    elim (Bool-cases (bytes_eq k (encode_to_string key))) [
      | inl here ↦
          let same : k ≡ encode_to_string key = bytes_eq→eq k (encode_to_string key) here in
          rw (same, decode_string-encode_to_string key bytes, full)
            (ground (arith, bytes_eq_refl key))
      | inr other ↦
          has_id-key_or_skip (decode_string k) (topic_keys ks) key
            (has_id-topic_keys ks key full bytes (rw other at h))
    ]

of_has_id :
    (P : Bytes → Type 0) (ks : List Bytes) (key : Bytes) → All P ks → has_id ks key ≡ true → P key
unfolding has_id
of_has_id P [] key a h = cc
of_has_id P (k ∷ ks) key (p, ps) h = elim (Bool-cases (bytes_eq k key)) [
  | inl here ↦ subst P (bytes_eq→eq k key here) p
  | inr other ↦ of_has_id P ks key ps (rw other at h)
]

-- The announcement of a topic that a node with the ID and the port sends.
abbrev pub announcement : Bytes → ℕ → Bytes → Bytes → Message
announcement local_id port tx_id topic = record {
  tx_id = tx_id;
  kind = msg_announce;
  sender_id = local_id;
  target = zeros;
  contacts = [];
  topic = topic;
  port = port;
  peers = [];
}

-- Among what is sent for the keys: behind what is sent for the keys in front, an announcement to each of the
-- contacts that the search for the key finds at the node that the keys in front leave.
pub record Requested (nets : Nets) (fuel : ℕ) (tx_id : Bytes) (s : SwarmNode) (ks : List Bytes)
    (key : Bytes) (sent : List (Contact × Message)) : Type 0 where
  pub before : List Bytes
  pub behind : List Bytes
  pub split : ks ≡ before ++ (key ∷ behind)
  pub at : SwarmNode
  pub sent_before : List (Contact × Message)
  pub reached : rehydrate_all fuel nets tx_id s before ≡ some (at, sent_before)
  pub closest : List Contact
  pub table : RoutingTable
  pub found :
      iterative_find_node (nets key).find_node fuel at.node.routing key ≡ some (closest, table)
  pub others : List (Contact × Message)
  pub requested :
      sent
      ≡ sent_before
        ++ (map (λ (c : Contact). (c, announcement at.node.local_id at.p2p_port tx_id key)) closest
            ++ others)

module _ (nets : Nets) (all : List Bytes)
    (heard : (target : Bytes) → Names (nets target).find_node (Exists all)) (fuel : ℕ)
    (enough : length all < fuel) (tx_id : Bytes) where
  -- A run that ends, at a node that still announces what it announced.
  record Ended (s : SwarmNode) (r : Option (SwarmNode × List (Contact × Message))) : Type 0 where
    node : SwarmNode
    sent : List (Contact × Message)
    ended : r ≡ some (node, sent)
    within : Within all node.node.routing
    kept : (o : Bytes) → has_id s.announces o ≡ true → has_id node.announces o ≡ true

  rehydrate_swarm-Ended :
      (s : SwarmNode) (k : Bytes)
      → Within all s.node.routing
      → (e : Ended s (rehydrate_swarm fuel nets tx_id s k)) × (has_id e.node.announces k ≡ true)
        × ((closest : List Contact) × (table : RoutingTable) × (iterative_find_node
                (nets k).find_node
                fuel
                s.node.routing
                k
              ≡ some (closest, table))
            × (e.sent
                ≡ map
                    (λ (c : Contact). (c, announcement s.node.local_id s.p2p_port tx_id k))
                    closest))
  unfolding rehydrate_swarm
  rehydrate_swarm-Ended s k w =
      let (closest, rt, first, w1) =
        iterative_find_node-Within (nets k).find_node all (heard k) s.node.routing k fuel w
          enough in
      let (t, sent, done, routing, _) =
        announce-members fuel (nets k) s k tx_id 0 closest rt first in
      let (contacts, rt', second, w2) =
        iterative_find_node-Within (nets k).find_node all (heard k) rt k fuel w1 enough in
      let found : search fuel (nets k) t k ≡ some (with_routing t rt', contacts) =
        rw (routing, second) refl in
      let (peers, looked, _) =
        lookup-members fuel (nets k) t (with_routing t rt') k contacts found in
      let again = announce-announces fuel (nets k) s t k tx_id 0 sent done in
      (
        record {
          node = with_registry (with_routing t rt') (register_all t.node.local_registry k peers);
          sent = sent;
          ended = rw (done, looked) refl;
          within = w2;
          kept = λ o h. rw again (has_id-start_reannounce_other k o s.announces h);
        },
        rw again (has_id-start_reannounce k s.announces),
        (closest, rt, first, announce-sent fuel (nets k) s t k tx_id 0 closest rt sent first done),
      )

  abbrev Announced : SwarmNode → Bytes → Type 0
  Announced s k = has_id s.announces k ≡ true

  All-Announced :
      (s t : SwarmNode) (ks : List Bytes)
      → ((o : Bytes) → Announced s o → Announced t o)
      → All (Announced s) ks
      → All (Announced t) ks
  All-Announced s t [] f a = tt
  All-Announced s t (k ∷ ks) f (p, ps) = (f k p, All-Announced s t ks f ps)

  Requested-later :
      (s : SwarmNode) (k key : Bytes) (ks : List Bytes) (more : List (Contact × Message))
      (first : Ended s (rehydrate_swarm fuel nets tx_id s k))
      → Requested nets fuel tx_id first.node ks key more
      → Requested nets fuel tx_id s (k ∷ ks) key (first.sent ++ more)
  unfolding rehydrate_all
  Requested-later s k key ks more first r = record {
    before = k ∷ r.before;
    behind = r.behind;
    split = ap (◌∷◌ k) r.split;
    at = r.at;
    sent_before = first.sent ++ r.sent_before;
    reached = rw (rehydrate_all, first.ended, r.reached) refl;
    closest = r.closest;
    table = r.table;
    found = r.found;
    others = r.others;
    requested =
        ap (◌++◌ first.sent) r.requested
        ∙ sym (
            append_assoc first.sent r.sent_before (
              map (λ (c : Contact). (c, announcement r.at.node.local_id r.at.p2p_port tx_id key))
                r.closest
              ++ r.others));
  }

  rehydrate_all-Ended :
      (s : SwarmNode) (ks : List Bytes)
      → Within all s.node.routing
      → (e : Ended s (rehydrate_all fuel nets tx_id s ks)) × All (Announced e.node) ks
        × ((key : Bytes) → has_id ks key ≡ true → Requested nets fuel tx_id s ks key e.sent)
  unfolding rehydrate_all has_id
  rehydrate_all-Ended s [] w =
      (record { node = s; sent = []; ended = refl; within = w; kept = λ o h. h }, tt, λ key h. cc)
  rehydrate_all-Ended s (k ∷ ks) w =
      let (first, now, (closest, table, found, sent)) = rehydrate_swarm-Ended s k w in
      let (rest, later, requests) = rehydrate_all-Ended first.node ks first.within in
      (
        record {
          node = rest.node;
          sent = first.sent ++ rest.sent;
          ended = rw (rehydrate_all, first.ended, rest.ended) refl;
          within = rest.within;
          kept = λ o h. rest.kept o (first.kept o h);
        },
        (rest.kept k now, later),
        λ key h. elim (Bool-cases (bytes_eq k key)) [
          | inl here ↦
              subst
                (λ (x : Bytes). Requested nets fuel tx_id s (k ∷ ks) x (first.sent ++ rest.sent))
                (bytes_eq→eq k key here)
                (record {
                  before = [];
                  behind = ks;
                  split = refl;
                  at = s;
                  sent_before = [];
                  reached = refl;
                  closest = closest;
                  table = table;
                  found = found;
                  others = rest.sent;
                  requested = ap (λ (xs : List (Contact × Message)). xs ++ rest.sent) sent;
                })
          | inr other ↦ Requested-later s k key ks rest.sent first (requests key (rw other at h))
        ],
      )

  bootstrapped-Within :
      (s : SwarmNode) (pings : List Ping)
      → Within all s.node.routing
      → All (IsPing all) pings
      → (t : SwarmNode) × (closest : List Contact) × (bootstrapped fuel nets s pings
          ≡ some (t, closest))
        × Within all t.node.routing
  bootstrapped-Within s [] w h = (s, [], refl, w)
  bootstrapped-Within s (p ∷ ps) w h =
      let rt = add_answers s.node.routing (p ∷ ps) in
      let (closest, rt', ended, w') =
        iterative_find_node-Within (nets s.node.local_id).find_node all (heard s.node.local_id) rt
          s.node.local_id fuel (add_answers-Within all s.node.routing (p ∷ ps) w h) enough in
      (with_routing (with_routing s rt) rt', closest, ap (searched (with_routing s rt)) ended, w')

  -- Where every contact that the table, a bootstrap node or an answer names has one of finitely many IDs,
  -- Start ends within one round more than there are IDs for each search. Every topic whose key, of 32 bytes,
  -- the repository lists in hex is one that the node announces from then on, and is announced to each contact
  -- that the search for the key finds.
  pub start-announces :
      (s : SwarmNode) (pings : List Ping) (active : List Bytes)
      → Within all s.node.routing
      → All (IsPing all) pings
      → (t : SwarmNode) × (sent : List (Contact × Message)) × (started : SwarmNode)
        × (nearest : List Contact) × (start fuel nets tx_id s pings (some active) ≡ some (t, sent))
        × (bootstrapped fuel nets s pings ≡ some (started, nearest))
        × ((key : Bytes)
            → length key ≡ 32
            → All (λ b. b < 256) key
            → contains active (encode_to_string key) ≡ true
            → (has_id t.announces key ≡ true)
              × Requested nets fuel tx_id started (topic_keys active) key sent)
  unfolding start
  start-announces s pings active w h =
      let (u, closest, ended, w') = bootstrapped-Within s pings w h in
      let (e, again, requests) = rehydrate_all-Ended u (topic_keys active) w' in
      (
        e.node,
        e.sent,
        u,
        closest,
        rw ended e.ended,
        ended,
        λ key full bytes listed.
            let there = has_id-topic_keys active key full bytes listed in
            (of_has_id (Announced e.node) (topic_keys active) key again there, requests key there),
      )
