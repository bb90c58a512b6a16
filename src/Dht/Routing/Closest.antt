-- ===== src/Dht/Routing/Closest.antt =====
-- FindClosestPeers (pkg/dht/routing.go) against an independent description of its result.
use keet_agent.Prelude.{
  ℕ, zero, suc, ◌+◌, ◌≤◌, min, List, [], ◌∷◌, ◌++◌, length, drop, ltb, ◌≡◌, sym, subst, arith, All,
  Bool-cases, inl, inr, length-take, take-append-drop, append-nil,
}
use keet_agent.Bytes.{Bytes}
use keet_agent.Dht.Routing.{
  Contact, RoutingTable, collect, is_nearer, insert_sorted, sort_contacts, find_closest_peers,
}
use keet_agent.Dht.Routing.Distance.{IsId, distance, is_nearer-distance}
use mathlib.Core.List.{Perm}
use mathlib.Core.List.Perm

abbrev pub HasId : Contact → Type 0
HasId c = IsId c.id

-- No contact is farther from the target than a later one.
abbrev pub Sorted : Bytes → List Contact → Type 0
Sorted target [] = Unit {0}
Sorted target (c ∷ cs) =
    All (λ (d : Contact). distance c.id target ≤ distance d.id target) cs × Sorted target cs

insert_sorted-perm :
    (target : Bytes) (c : Contact) (cs : List Contact) → Perm (c ∷ cs) (insert_sorted target c cs)
unfolding insert_sorted
insert_sorted-perm target c [] = Perm.refl (c ∷ [])
insert_sorted-perm target c (d ∷ ds) = elim (Bool-cases (is_nearer target d c)) [
  | inl later ↦
      simp later (Perm.trans (Perm.swap d c ds) (Perm.cons d (insert_sorted-perm target c ds)))
  | inr here ↦ simp here (Perm.refl (c ∷ d ∷ ds))
]

sort_contacts-perm : (target : Bytes) (cs : List Contact) → Perm cs (sort_contacts target cs)
unfolding sort_contacts
sort_contacts-perm target [] = Perm.nil
sort_contacts-perm target (c ∷ cs) =
    Perm.trans (Perm.cons c (sort_contacts-perm target cs))
      (insert_sorted-perm target c (sort_contacts target cs))

module _ {κ} (P : Contact → Type κ) where
  insert_sorted-All :
      (target : Bytes) (c : Contact) (cs : List Contact)
      → P c
      → All P cs
      → All P (insert_sorted target c cs)
  unfolding insert_sorted
  insert_sorted-All target c [] p a = (p, tt)
  insert_sorted-All target c (d ∷ ds) p (q, qs) = elim (Bool-cases (is_nearer target d c)) [
    | inl later ↦ simp later (q, insert_sorted-All target c ds p qs)
    | inr here ↦ simp here (p, (q, qs))
  ]

  pub sort_contacts-All :
      (target : Bytes) (cs : List Contact) → All P cs → All P (sort_contacts target cs)
  unfolding sort_contacts
  sort_contacts-All target [] a = tt
  sort_contacts-All target (c ∷ cs) (p, ps) =
      insert_sorted-All target c (sort_contacts target cs) p (sort_contacts-All target cs ps)

  pub append-All : (cs ds : List Contact) → All P cs → All P ds → All P (cs ++ ds)
  append-All [] ds a b = b
  append-All (c ∷ cs) ds (p, ps) b = (p, append-All cs ds ps b)

  pub collect-All :
      (n i : ℕ) (buckets : ℕ → List Contact)
      → ((j : ℕ) → All P (buckets j))
      → All P (collect n i buckets)
  unfolding collect
  collect-All zero i buckets h = tt
  collect-All (suc n) i buckets h =
      append-All (buckets i) (collect n (i + 1) buckets) (h i) (collect-All n (i + 1) buckets h)

Farther-trans :
    (target : Bytes) (m n : ℕ) (cs : List Contact)
    → m ≤ n
    → All (λ (d : Contact). n ≤ distance d.id target) cs
    → All (λ (d : Contact). m ≤ distance d.id target) cs
Farther-trans target m n [] h a = tt
Farther-trans target m n (c ∷ cs) h (p, ps) = (omega arith, Farther-trans target m n cs h ps)

insert_sorted-Sorted :
    (target : Bytes) (c : Contact) (cs : List Contact)
    → IsId target
    → HasId c
    → All HasId cs
    → Sorted target cs
    → Sorted target (insert_sorted target c cs)
unfolding insert_sorted
insert_sorted-Sorted target c [] ht hc a s = (tt, tt)
insert_sorted-Sorted target c (d ∷ ds) ht hc (hd, hds) (first, s) =
    let order = is_nearer-distance target d c hd hc ht in
    elim (Bool-cases (is_nearer target d c)) [
      | inl later ↦ simp later (
        insert_sorted-All (λ (e : Contact). distance d.id target ≤ distance e.id target) target c ds
            (ground arith) first,
        insert_sorted-Sorted target c ds ht hc hds s,
      )
      | inr here ↦
          let before : distance c.id target ≤ distance d.id target = ground arith in
          simp here (
            (
              before,
              Farther-trans target (distance c.id target) (distance d.id target) ds before first,
            ),
            (first, s),
          )
    ]

pub sort_contacts-Sorted :
    (target : Bytes) (cs : List Contact)
    → IsId target
    → All HasId cs
    → Sorted target (sort_contacts target cs)
unfolding sort_contacts
sort_contacts-Sorted target [] ht a = tt
sort_contacts-Sorted target (c ∷ cs) ht (h, hs) =
    insert_sorted-Sorted target c (sort_contacts target cs) ht h
      (sort_contacts-All HasId target cs hs) (sort_contacts-Sorted target cs ht hs)

-- The result, with the contacts left out behind it.
pub record Nearest (rt : RoutingTable) (target : Bytes) (count : ℕ) (result : List Contact)
    : Type 0 where
  pub others : List Contact
  pub known : Perm (collect 256 0 rt.buckets) (result ++ others)
  pub sorted : Sorted target (result ++ others)
  pub size : length result ≡ min count (length (result ++ others))

-- Where all IDs are 32 bytes, FindClosestPeers returns count of the known contacts, or all of them if
-- there are fewer, nearest first, and no contact left out is nearer than a returned one.
pub find_closest_peers_lem :
    (rt : RoutingTable) (target : Bytes) (count : ℕ)
    → IsId target
    → ((i : ℕ) → All HasId (rt.buckets i))
    → Nearest rt target count (find_closest_peers rt target count)
unfolding find_closest_peers
find_closest_peers_lem rt target count ht h =
    let all = collect 256 0 rt.buckets in
    let results = sort_contacts target all in
    let perm : Perm all results = sort_contacts-perm target all in
    let sorted : Sorted target results =
      sort_contacts-Sorted target all ht (collect-All HasId 256 0 rt.buckets h) in
    elim (Bool-cases (ltb count (length results))) [
      | inl more ↦
          let whole = sym (take-append-drop count results) in
          simp more (record {
            others = drop count results;
            known = subst (Perm all) whole perm;
            sorted = subst (Sorted target) whole sorted;
            size = rw (sym whole) (length-take count results);
          })
      | inr fewer ↦
          let whole = sym (append-nil results) in
          simp fewer (record {
            others = [];
            known = subst (Perm all) whole perm;
            sorted = subst (Sorted target) whole sorted;
            size = rw (sym whole) (ground arith);
          })
    ]
