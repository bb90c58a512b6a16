-- ===== src/Dht/Search/Results.antt =====
-- What iterativeFindNode (pkg/dht/dht.go) returns.
use keet_agent.Prelude.{
  ℕ, zero, suc, ◌≤◌, true, List, [], ◌∷◌, ◌++◌, length, All, Option, some, ltb, bytes_eq,
  bytes_eq→eq, bytes_eq_refl, ◌||◌, refl, ◌≡◌, sym, ap, subst, ◌∙◌, arith, Bool-cases, inl, inr,
  length-take, ◌<◌, drop, take-append-drop, append-nil,
}
use keet_agent.Bytes.{Bytes}
use keet_agent.Dht.Routing.{Contact, RoutingTable, find_closest_peers}
use keet_agent.Dht.Search.Complete.{
  Heard, IsComplete, query_round-IsComplete, sort_closest-IsComplete,
}
use keet_agent.Dht.Routing.Closest.{HasId, Sorted, sort_contacts-All, sort_contacts-Sorted}
use keet_agent.Dht.Routing.Distance.{IsId}
use mathlib.Core.Option.{some-injective}
use keet_agent.Dht.Routing.Contacts.{DistinctIds}
use keet_agent.Dht.Routing.Buckets.{IsTable}
use keet_agent.Dht.Routing.Known.{All-mono, find_closest_peers-All, find_closest_peers-Distinct}
use keet_agent.Dht.Search.{
  has_id, Search, ids, next_queries, query_round, unless_done, sort_closest, to_query, search_loop,
  first_search, search_result, nearest_20, iterative_find_node,
}
use keet_agent.Dht.Search.Ending.{
  search_loop_ends, unseen-le_length, Names, take_results-All, Contacts-cases, unless_done_more,
  Exists,
}
use keet_agent.Dht.Search.Invariant.{
  is_answer, Marked, IsSearch, All-zip, query_round-IsSearch, sort_closest-IsSearch,
}

module _ (ask : Bytes → Option (List Contact)) where
  -- A property that sorting and a round keep holds where the loop ends, which is at sorted contacts.
  pub search_loop_rule :
      (P : Search → Type 0) (target : Bytes)
      → ((s : Search) → P s → P (sort_closest target s))
      → ((s : Search) → P s → P (query_round ask s (to_query s)))
      → (fuel : ℕ) (s t : Search) → P s
      → search_loop ask fuel target s ≡ some t
      → P t × (to_query t ≡ []) × ((u : Search) × P u × (sort_closest target u ≡ t))
  unfolding search_loop
  search_loop_rule P target sorts rounds zero s t p e = ground arith
  search_loop_rule P target sorts rounds (suc fuel) s t p e =
      let sorted : Search = sort_closest target s in
      let next : Search = query_round ask sorted (to_query sorted) in
      elim (Contacts-cases (to_query sorted)) [
        | inl over ↦
            let same : sorted ≡ t = some-injective sorted t (
              sym (
                ap (λ (cs : List Contact). unless_done cs sorted (search_loop ask fuel target next))
                  over)
              ∙ e) in
            (
              subst P same (sorts s p),
              subst (λ (u : Search). to_query u ≡ []) same over,
              (s, p, same),
            )
        | inr (c, cs, more) ↦
            search_loop_rule P target sorts rounds fuel next t (rounds sorted (sorts s p)) (
              sym (
                unless_done_more c cs (to_query sorted) sorted (search_loop ask fuel target next)
                  more)
              ∙ e)
      ]

-- Without a contact to query, all are marked.
next_queries-none :
    (q : List Bytes) (cs : List Contact)
    → next_queries 3 q cs ≡ []
    → All (λ (c : Contact). has_id q c.id ≡ true) cs
unfolding next_queries
next_queries-none q [] e = tt
next_queries-none q (c ∷ cs) e = elim (Bool-cases (has_id q c.id)) [
  | inl seen ↦ (seen, next_queries-none q cs (rw seen at e))
  | inr new ↦ ground arith
]

-- The contacts of a finished search: those of the first ones that answer, and those that answer of all that
-- one of them names, but for the node itself.
pub record Spread (ask : Bytes → Option (List Contact)) (rt : RoutingTable) (target : Bytes)
    (found : List Contact) : Type 0 where
  pub started :
      (id : Bytes)
      → has_id (ids (find_closest_peers rt target 20)) id ≡ true
      → is_answer (ask id) ≡ true
      → has_id (ids found) id ≡ true
  pub closed :
      (id : Bytes) (cs : List Contact)
      → has_id (ids found) id ≡ true
      → ask id ≡ some cs
      → All
          (λ (c : Contact).
            is_answer (ask c.id) ≡ true
            → (bytes_eq c.id rt.local_id || has_id (ids found) c.id) ≡ true)
          cs

-- At most 20 contacts: the first ones of all that the search found, which are distinct, nearest first, and
-- have answered; all of them if they are fewer.
pub record Answered (ask : Bytes → Option (List Contact)) (rt : RoutingTable) (target : Bytes)
    (result : List Contact) : Type 0 where
  pub others : List Contact
  pub size : length result ≤ 20
  pub cut : length result < 20 → others ≡ []
  pub distinct : DistinctIds (result ++ others)
  pub sorted : Sorted target (result ++ others)
  pub answered : All (λ (c : Contact). is_answer (ask c.id) ≡ true) (result ++ others)
  pub spread : Spread ask rt target (result ++ others)

abbrev Keeps : (Bytes → Option (List Contact)) → RoutingTable → Bytes → Search → Type 0
Keeps ask rt target s =
    IsSearch ask [] s
    × All HasId s.closest
    × IsComplete ask rt.local_id (ids (find_closest_peers rt target 20)) [] s

query_round-Keeps :
    (ask : Bytes → Option (List Contact)) (rt : RoutingTable) (target : Bytes)
    → Names ask HasId
    → (s : Search) → Keeps ask rt target s
    → Keeps ask rt target (query_round ask s (to_query s))
query_round-Keeps ask rt target heard s (h, a, k) = (
  query_round-IsSearch ask s h,
  take_results-All ask HasId heard (record s { queried = s.queried ++ ids (to_query s) })
      (to_query s) a,
  query_round-IsComplete ask rt.local_id (ids (find_closest_peers rt target 20)) s k,
)

of_ids :
    (q : List Bytes) (cs : List Contact) (id : Bytes)
    → All (λ (c : Contact). has_id q c.id ≡ true) cs
    → has_id (ids cs) id ≡ true
    → has_id q id ≡ true
unfolding has_id
of_ids q [] id a h = cc
of_ids q (c ∷ cs) id (p, ps) h = elim (Bool-cases (bytes_eq c.id id)) [
  | inl here ↦ subst (λ (x : Bytes). has_id q x ≡ true) (bytes_eq→eq c.id id here) p
  | inr other ↦ of_ids q cs id ps (rw other at h)
]

Heard-kept :
    (ask : Bytes → Option (List Contact)) (local : Bytes) (first : List Bytes) (t : Search)
    (cs : List Contact)
    → IsComplete ask local first [] t
    → All (Heard local t.known) cs
    → All
        (λ (c : Contact).
          is_answer (ask c.id) ≡ true → (bytes_eq c.id local || has_id (ids t.closest) c.id) ≡ true)
        cs
Heard-kept ask local first t [] k h = tt
Heard-kept ask local first t (c ∷ cs) k (h, hs) = (
  λ says. elim (Bool-cases (bytes_eq c.id local)) [
    | inl own ↦ rw own refl
    | inr other ↦ rw other (ground (arith, k.kept c.id (rw other at h), says))
  ],
  Heard-kept ask local first t cs k hs,
)

ended-Spread :
    (ask : Bytes → Option (List Contact)) (rt : RoutingTable) (target : Bytes) (t : Search)
    → All (λ (c : Contact). has_id t.queried c.id ≡ true) t.closest
    → IsComplete ask rt.local_id (ids (find_closest_peers rt target 20)) [] t
    → Spread ask rt target t.closest
unfolding has_id
ended-Spread ask rt target t asked k =
    let first = ids (find_closest_peers rt target 20) in
    record {
      started = λ id h says. ground (arith, k.kept id (k.started id h), says);
      closed = λ id cs h e.
          Heard-kept ask rt.local_id first t cs k
            (k.closed id cs (of_ids t.queried t.closest id asked h) refl e);
    }

search_loop-Answered :
    (ask : Bytes → Option (List Contact)) (rt : RoutingTable) (target : Bytes)
    → IsId target
    → Names ask HasId
    → (fuel : ℕ) (s t : Search) → Keeps ask rt target s
    → search_loop ask fuel target s ≡ some t
    → DistinctIds t.closest
      × Sorted target t.closest
      × All (λ (c : Contact). is_answer (ask c.id) ≡ true) t.closest
      × Spread ask rt target t.closest
unfolding has_id
search_loop-Answered ask rt target long heard fuel s t h e =
    let first = ids (find_closest_peers rt target 20) in
    let ((ended, _, complete), none_left, (u, (_, sized, _), same)) =
      search_loop_rule ask (Keeps ask rt target) target
        (λ v k. (
          sort_closest-IsSearch ask target v (k.0),
          sort_contacts-All HasId target v.closest (k.1),
          sort_closest-IsComplete ask rt.local_id first target v (k.2),
        ))
        (query_round-Keeps ask rt target heard) fuel s t h e in
    let asked = next_queries-none t.queried t.closest none_left in
    (
      ended.distinct,
      subst (λ (v : Search). Sorted target v.closest) same
          (sort_contacts-Sorted target u.closest long sized),
      All-zip (λ (c : Contact). has_id t.queried c.id ≡ true) (Marked ask t.queried [])
          (λ (c : Contact). is_answer (ask c.id) ≡ true) t.closest (λ c q m. m q) asked
          ended.marked,
      ended-Spread ask rt target t asked complete,
    )

nearest_20-Answered :
    (ask : Bytes → Option (List Contact)) (rt : RoutingTable) (target : Bytes) (t : Search)
    → DistinctIds t.closest
    → Sorted target t.closest
    → All (λ (c : Contact). is_answer (ask c.id) ≡ true) t.closest
    → Spread ask rt target t.closest
    → Answered ask rt target (nearest_20 t)
nearest_20-Answered ask rt target t d s a p = elim (Bool-cases (ltb 20 (length t.closest))) [
  | inl long ↦ rw long (record {
    others = drop 20 t.closest;
    size = omega (arith, length-take 20 t.closest);
    cut = λ few. absurd (ground (arith, length-take 20 t.closest, long, few));
    distinct = rw (take-append-drop 20 t.closest) d;
    sorted = rw (take-append-drop 20 t.closest) s;
    answered = rw (take-append-drop 20 t.closest) a;
    spread = rw (take-append-drop 20 t.closest) p;
  })
  | inr short ↦ rw short (record {
    others = [];
    size = ground arith;
    cut = λ few. refl;
    distinct = rw (append-nil t.closest) d;
    sorted = rw (append-nil t.closest) s;
    answered = rw (append-nil t.closest) a;
    spread = rw (append-nil t.closest) p;
  })
]

ids-listed : (cs : List Contact) → All (Exists (ids cs)) cs
unfolding has_id
ids-listed [] = tt
ids-listed (c ∷ cs) = (
  ground (arith, bytes_eq_refl c.id),
  All-mono (Exists (ids cs)) (Exists (c.id ∷ ids cs)) cs (λ d h. ground arith) (ids-listed cs),
)

new-Marked : (ask : Bytes → Option (List Contact)) (cs : List Contact) → All (Marked ask [] []) cs
unfolding has_id
new-Marked ask [] = tt
new-Marked ask (c ∷ cs) = (λ q. ground arith, new-Marked ask cs)

-- For a target of 32 bytes and a table as AddContact keeps it, where every contact that the table or an
-- answer names has an ID of 32 bytes out of a finite list, iterativeFindNode returns, within one round
-- more than there are IDs, the first 20 contacts, or all if they are fewer, of a list of contacts with
-- distinct IDs that have all answered their query, sorted by XOR distance to the target. In the list are
-- those of the 20 contacts of the table nearest to the target that answer and, with a contact, those that
-- it names and that answer, but for the node itself.
pub iterative_find_node_lem :
    (ask : Bytes → Option (List Contact)) (all : List Bytes)
    → Names ask (Exists all)
    → Names ask HasId
    → (rt : RoutingTable) (target : Bytes) → IsId target
    → IsTable rt
    → ((i : ℕ) → All (Exists all) (rt.buckets i))
    → ((i : ℕ) → All HasId (rt.buckets i))
    → (fuel : ℕ) → length all < fuel
    → (result : List Contact) × (table : RoutingTable) × (iterative_find_node ask fuel rt target
        ≡ some (result, table))
      × Answered ask rt target result
unfolding iterative_find_node has_id
iterative_find_node_lem ask all heard sized rt target long h known ids_sized fuel enough =
    let s : Search = first_search rt target in
    let candidates : All (Exists all) s.closest =
      find_closest_peers-All (Exists all) rt target 20 known in
    let (t, run, _) =
      search_loop_ends ask all heard fuel target s candidates
        (omega (arith, unseen-le_length [] all)) in
    let start : IsSearch ask [] s = record {
      distinct = find_closest_peers-Distinct rt h target 20;
      listed = ids-listed s.closest;
      known = λ id q. ground arith;
      marked = new-Marked ask s.closest;
    } in
    let sizes : All HasId s.closest = find_closest_peers-All HasId rt target 20 ids_sized in
    let complete : IsComplete ask rt.local_id (ids (find_closest_peers rt target 20)) [] s =
      record {
        own = refl;
        started = λ id k. k;
        kept = λ id k. rw k refl;
        closed = λ id cs q p e. cc;
      } in
    let (d, o, a, p) =
      search_loop-Answered ask rt target long sized fuel s t (start, sizes, complete) run in
    (nearest_20 t, t.routing, ap search_result run, nearest_20-Answered ask rt target t d o a p)
