-- ===== src/Dht/Search/Ending.antt =====
-- iterativeFindNode (pkg/dht/dht.go) where the IDs that exist are finitely many.
use keet_agent.Prelude.{
  ℕ, zero, suc, ◌+◌, ◌≤◌, ◌<◌, Bool, true, false, ◌||◌, List, [], ◌∷◌, ◌++◌, length, All, Option,
  some, if◌then◌else◌, bytes_eq, bytes_eq→eq, bytes_eq_refl, ◌⊎◌, ◌≡◌, refl, sym, ap, subst, ◌∙◌,
  arith, Bool-cases, Option-cases, inl, inr,
}
use keet_agent.Bytes.{Bytes}
use keet_agent.Dht.Routing.{Contact, RoutingTable, add_contact}
use keet_agent.Dht.Routing.Closest.{sort_contacts-All}
use keet_agent.Dht.Routing.Contacts.{All-remove_contact, All-append}
use keet_agent.Dht.Routing.Known.{find_closest_peers-All}
use keet_agent.Dht.Search.{
  has_id, Search, ids, next_queries, merge_contact, merge_contacts, take_result, take_results,
  query_round, unless_done, sort_closest, to_query, search_loop, first_search, search_result,
  nearest_20, iterative_find_node,
}

pub has_id-append :
    (xs ys : List Bytes) (id : Bytes) → has_id (xs ++ ys) id ≡ (has_id xs id || has_id ys id)
unfolding has_id
has_id-append [] ys id = refl
has_id-append (x ∷ xs) ys id = ground (arith, has_id-append xs ys id)

-- How many of some IDs have not been queried.
pub unseen : List Bytes → List Bytes → ℕ
unseen queried [] = 0
unseen queried (x ∷ xs) =
    let rest = unseen queried xs in if has_id queried x then rest else rest + 1

unseen-le : (q more xs : List Bytes) → unseen (q ++ more) xs ≤ unseen q xs
unfolding unseen
unseen-le q more [] = omega arith
unseen-le q more (x ∷ xs) = ground (arith, unseen-le q more xs, has_id-append q more x)

unseen-lt :
    (q more xs : List Bytes) (id : Bytes)
    → has_id xs id ≡ true
    → has_id q id ≡ false
    → has_id more id ≡ true
    → unseen (q ++ more) xs < unseen q xs
unfolding unseen has_id
unseen-lt q more [] id i f n = cc
unseen-lt q more (x ∷ xs) id i f n = elim (Bool-cases (bytes_eq x id)) [
  | inl e ↦
      let same : x ≡ id = bytes_eq→eq x id e in
      let fresh : has_id q x ≡ false = ap (λ (y : Bytes). has_id q y) same ∙ f in
      let now : has_id (q ++ more) x ≡ true =
        ap (λ (y : Bytes). has_id (q ++ more) y) same ∙ has_id-append q more id ∙ ground arith in
      rw (fresh, now) (omega (arith, unseen-le q more xs))
  | inr e ↦ ground (arith, unseen-lt q more xs id, unseen-le q more xs, has_id-append q more x)
]

pub unseen-le_length : (q xs : List Bytes) → unseen q xs ≤ length xs
unfolding unseen
unseen-le_length q [] = omega arith
unseen-le_length q (x ∷ xs) = ground (arith, unseen-le_length q xs)

module _ {κ} (P : Contact → Type κ) where
  pub next_queries-All :
      (n : ℕ) (q : List Bytes) (cs : List Contact) → All P cs → All P (next_queries n q cs)
  unfolding next_queries
  next_queries-All zero q cs h = tt
  next_queries-All (suc n) q [] h = tt
  next_queries-All (suc n) q (c ∷ cs) (p, ps) = elim (Bool-cases (has_id q c.id)) [
    | inl seen ↦ rw seen (next_queries-All (suc n) q cs ps)
    | inr new ↦ rw new (p, next_queries-All n q cs ps)
  ]

next_queries-new :
    (n : ℕ) (q : List Bytes) (cs : List Contact)
    → All (λ (c : Contact). has_id q c.id ≡ false) (next_queries n q cs)
unfolding next_queries
next_queries-new zero q cs = tt
next_queries-new (suc n) q [] = tt
next_queries-new (suc n) q (c ∷ cs) = elim (Bool-cases (has_id q c.id)) [
  | inl seen ↦ rw seen (next_queries-new (suc n) q cs)
  | inr new ↦ rw new (new, next_queries-new n q cs)
]

-- A contact with one of the IDs.
abbrev pub Exists : List Bytes → Contact → Type 0
Exists all c = has_id all c.id ≡ true

module _ (P : Contact → Type 0) where
  merge_contact-All :
      (s : Search) (c : Contact) → All P s.closest → P c → All P (merge_contact s c).closest
  unfolding merge_contact
  merge_contact-All s c h k = elim (Bool-cases (bytes_eq c.id s.routing.local_id)) [
    | inl own ↦ rw own h
    | inr a ↦ elim (Bool-cases (has_id s.known c.id)) [
      | inl old ↦ rw (a, old) h
      | inr new ↦ rw (a, new) (All-append P s.closest c h k)
    ]
  ]

  merge_contacts-All :
      (s : Search) (cs : List Contact)
      → All P s.closest
      → All P cs
      → All P (merge_contacts s cs).closest
  unfolding merge_contacts
  merge_contacts-All s [] h k = h
  merge_contacts-All s (c ∷ cs) h (k, ks) =
      merge_contacts-All (merge_contact s c) cs (merge_contact-All s c h k) ks

merge_contact-queried : (s : Search) (c : Contact) → (merge_contact s c).queried ≡ s.queried
unfolding merge_contact
merge_contact-queried s c = elim (Bool-cases (bytes_eq c.id s.routing.local_id)) [
  | inl own ↦ rw own refl
  | inr a ↦ elim (Bool-cases (has_id s.known c.id)) [
    | inl old ↦ rw (a, old) refl
    | inr new ↦ rw (a, new) refl
  ]
]

merge_contacts-queried :
    (s : Search) (cs : List Contact) → (merge_contacts s cs).queried ≡ s.queried
unfolding merge_contacts
merge_contacts-queried s [] = refl
merge_contacts-queried s (c ∷ cs) =
    merge_contacts-queried (merge_contact s c) cs ∙ merge_contact-queried s c

-- Every contact that an answer names.
abbrev pub Names : (Bytes → Option (List Contact)) → (Contact → Type 0) → Type 0
Names ask P = (id : Bytes) (cs : List Contact) → ask id ≡ some cs → All P cs

module _ (ask : Bytes → Option (List Contact)) (P : Contact → Type 0) (heard : Names ask P) where
  take_result-All :
      (s : Search) (c : Contact) → All P s.closest → All P (take_result s c (ask c.id)).closest
  unfolding take_result
  take_result-All s c h = elim (Option-cases (ask c.id)) [
    | inl failed ↦ rw failed (All-remove_contact P s.closest c.id h)
    | inr (cs, e) ↦ rw e (
        merge_contacts-All P (record s { routing = add_contact s.routing c }) cs h
          (heard c.id cs e))
  ]

  pub take_results-All :
      (s : Search) (cs : List Contact) → All P s.closest → All P (take_results ask s cs).closest
  unfolding take_results
  take_results-All s [] h = h
  take_results-All s (c ∷ cs) h =
      take_results-All (take_result s c (ask c.id)) cs (take_result-All s c h)

module _ (ask : Bytes → Option (List Contact)) where
  take_result-queried :
      (s : Search) (c : Contact) → (take_result s c (ask c.id)).queried ≡ s.queried
  unfolding take_result
  take_result-queried s c = elim (Option-cases (ask c.id)) [
    | inl failed ↦ rw failed refl
    | inr (cs, e) ↦
        rw e (merge_contacts-queried (record s { routing = add_contact s.routing c }) cs)
  ]

  take_results-queried :
      (s : Search) (cs : List Contact) → (take_results ask s cs).queried ≡ s.queried
  unfolding take_results
  take_results-queried s [] = refl
  take_results-queried s (c ∷ cs) =
      take_results-queried (take_result s c (ask c.id)) cs ∙ take_result-queried s c

pub Contacts-cases :
    (cs : List Contact) → (cs ≡ []) ⊎ ((c : Contact) × (ds : List Contact) × (cs ≡ c ∷ ds))
Contacts-cases [] = inl refl
Contacts-cases (c ∷ cs) = inr (c, cs, refl)

pub unless_done_more :
    (c : Contact) (cs found : List Contact) (s : Search) (next : Option Search)
    → found ≡ c ∷ cs
    → unless_done found s next ≡ next
unless_done_more c cs found s next e = ap (λ (ds : List Contact). unless_done ds s next) e

-- A query marks a contact that was not marked.
unseen-to_query :
    (all : List Bytes) (s : Search) (c : Contact) (cs : List Contact)
    → All (Exists all) s.closest
    → to_query s ≡ c ∷ cs
    → unseen (s.queried ++ ids (to_query s)) all < unseen s.queried all
unfolding has_id
unseen-to_query all s c cs h e =
    let (there, _) =
      subst (λ (ds : List Contact). All (Exists all) ds) e
        (next_queries-All (Exists all) 3 s.queried s.closest h) in
    let (new, _) =
      subst (λ (ds : List Contact). All (λ (d : Contact). has_id s.queried d.id ≡ false) ds) e
        (next_queries-new 3 s.queried s.closest) in
    rw e (
      unseen-lt s.queried (c.id ∷ ids cs) all c.id there new
        (ap (λ (b : Bool). b || has_id (ids cs) c.id) (bytes_eq_refl c.id)))

module _ (ask : Bytes → Option (List Contact)) (all : List Bytes)
    (heard : Names ask (Exists all)) where
  pub search_loop_ends :
      (fuel : ℕ) (target : Bytes) (s : Search)
      → All (Exists all) s.closest
      → unseen s.queried all < fuel
      → (t : Search) × (search_loop ask fuel target s ≡ some t) × (to_query t ≡ [])
  unfolding search_loop
  search_loop_ends zero target s h f = ground arith
  search_loop_ends (suc fuel) target s h f =
      let sorted : Search = sort_closest target s in
      let near : All (Exists all) sorted.closest =
        sort_contacts-All (Exists all) target s.closest h in
      elim (Contacts-cases (to_query sorted)) [
        | inl over ↦ (sorted, rw over refl, over)
        | inr (c, cs, e) ↦
            let next : Search = query_round ask sorted (to_query sorted) in
            let asked : next.queried ≡ s.queried ++ ids (to_query sorted) =
              take_results-queried ask
                (record sorted { queried = s.queried ++ ids (to_query sorted) })
                (to_query sorted) in
            let fewer : unseen next.queried all < unseen s.queried all =
              subst (λ (q : List Bytes). unseen q all < unseen s.queried all) (sym asked)
                (unseen-to_query all sorted c cs near e) in
            let close : All (Exists all) next.closest =
              take_results-All ask (Exists all) heard
                (record sorted { queried = s.queried ++ ids (to_query sorted) }) (to_query sorted)
                near in
            let (t, run, done) =
              search_loop_ends fuel target next close (omega (arith, fewer, f)) in
            (
              t,
              unless_done_more c cs (to_query sorted) sorted (search_loop ask fuel target next) e
                  ∙ run,
              done,
            )
      ]

-- Where every contact that the table or an answer names has one of finitely many IDs, the search ends
-- within one round more than there are IDs, with no contact left to query.
pub iterative_find_node_ends :
    (ask : Bytes → Option (List Contact)) (all : List Bytes)
    → Names ask (Exists all)
    → (rt : RoutingTable) (target : Bytes) → ((i : ℕ) → All (Exists all) (rt.buckets i))
    → (fuel : ℕ) → length all < fuel
    → (t : Search) × (iterative_find_node ask fuel rt target ≡ some (nearest_20 t, t.routing))
      × (to_query t ≡ [])
unfolding iterative_find_node
iterative_find_node_ends ask all heard rt target known fuel enough =
    let s : Search = first_search rt target in
    let candidates = find_closest_peers-All (Exists all) rt target 20 known in
    let (t, run, done) =
      search_loop_ends ask all heard fuel target s candidates
        (omega (arith, unseen-le_length [] all)) in
    (t, ap search_result run, done)
