-- ===== src/Dht/Routing/Known.antt =====
-- The contacts that FindClosestPeers (pkg/dht/routing.go) takes from a table.
use keet_agent.Prelude.{
  ℕ, zero, suc, ◌+◌, ◌≤◌, false, List, [], ◌∷◌, ◌++◌, length, length-take, take, ltb, if◌then◌else◌,
  none, some, leb, ◌==◌, bytes_eq, bytes_eq→eq, ◌≡◌, refl, ap, subst, arith, All, Bool-cases,
  Option-cases, inl, inr,
}
use keet_agent.Bytes.{Bytes}
use keet_agent.Dht.Routing.{
  Contact, RoutingTable, common_prefix_length, find_contact, remove_contact, evict_first,
  bucket_size, update_found, update_bucket, add_contact, collect, find_closest_peers, sort_contacts,
}
use keet_agent.Dht.Routing.Contacts.{DistinctIds, All-remove_contact, All-append, All-evict}
use mathlib.Core.Option.{some-injective}
use keet_agent.Dht.Routing.Distinct.{sort_contacts-Distinct, All-absent}
use keet_agent.Dht.Routing.Buckets.{IsTable}
use keet_agent.Dht.Routing.Closest.{append-All, collect-All, sort_contacts-All}

pub All-mono :
    (P Q : Contact → Type 0) (cs : List Contact) → ((c : Contact) → P c → Q c) → All P cs → All Q cs
All-mono P Q [] f a = tt
All-mono P Q (c ∷ cs) f (p, ps) = (f c p, All-mono P Q cs f ps)

take-All : (P : Contact → Type 0) (n : ℕ) (cs : List Contact) → All P cs → All P (take n cs)
take-All P zero cs h = tt
take-All P (suc n) [] h = tt
take-All P (suc n) (c ∷ cs) (p, ps) = (p, take-All P n cs ps)

find_contact-take :
    (n : ℕ) (cs : List Contact) (q : Bytes)
    → find_contact q cs ≡ none
    → find_contact q (take n cs) ≡ none
unfolding find_contact
find_contact-take zero cs q h = refl
find_contact-take (suc n) [] q h = refl
find_contact-take (suc n) (c ∷ cs) q h = ground (arith, find_contact-take n cs q)

take-Distinct : (n : ℕ) (cs : List Contact) → DistinctIds cs → DistinctIds (take n cs)
take-Distinct zero cs d = tt
take-Distinct (suc n) [] d = tt
take-Distinct (suc n) (c ∷ cs) (new, d) = (find_contact-take n cs c.id new, take-Distinct n cs d)

abbrev first : ℕ → List Contact → List Contact
first n cs = if ltb n (length cs) then take n cs else cs

first-All : (P : Contact → Type 0) (n : ℕ) (cs : List Contact) → All P cs → All P (first n cs)
first-All P n cs h = elim (Bool-cases (ltb n (length cs))) [
  | inl more ↦ rw more (take-All P n cs h)
  | inr whole ↦ rw whole h
]

first-Distinct : (n : ℕ) (cs : List Contact) → DistinctIds cs → DistinctIds (first n cs)
first-Distinct n cs d = elim (Bool-cases (ltb n (length cs))) [
  | inl more ↦ rw more (take-Distinct n cs d)
  | inr whole ↦ rw whole d
]

find_contact-append_none :
    (cs ds : List Contact) (q : Bytes)
    → find_contact q cs ≡ none
    → find_contact q ds ≡ none
    → find_contact q (cs ++ ds) ≡ none
unfolding find_contact
find_contact-append_none [] ds q h k = k
find_contact-append_none (c ∷ cs) ds q h k = ground (arith, find_contact-append_none cs ds q)

append-Distinct :
    (cs ds : List Contact)
    → DistinctIds cs
    → DistinctIds ds
    → All (λ (c : Contact). find_contact c.id ds ≡ none) cs
    → DistinctIds (cs ++ ds)
append-Distinct [] ds d e a = e
append-Distinct (c ∷ cs) ds (new, d) e (h, hs) =
    (find_contact-append_none cs ds c.id new h, append-Distinct cs ds d e hs)

module _ (rt : RoutingTable) (table : IsTable rt) where
  abbrev From : ℕ → Contact → Type 0
  From i c = i ≤ common_prefix_length rt.local_id c.id

  bucket-From : (i : ℕ) → All (From i) (rt.buckets i)
  bucket-From i =
      let h = table i in
      All-mono
        (λ (c : Contact).
          (common_prefix_length rt.local_id c.id ≡ i) × (bytes_eq c.id rt.local_id ≡ false))
        (From i) (rt.buckets i) (λ c p. omega (arith, p.0)) h.placed

  collect-From : (n i : ℕ) → All (From i) (collect n i rt.buckets)
  unfolding collect
  collect-From zero i = tt
  collect-From (suc n) i =
      append-All (From i) (rt.buckets i) (collect n (i + 1) rt.buckets) (bucket-From i) (
        All-mono (From (i + 1)) (From i) (collect n (i + 1) rt.buckets) (λ c p. omega arith)
          (collect-From n (i + 1)))

  -- No later bucket has an ID of the bucket.
  bucket-absent :
      (i : ℕ) (ds : List Contact)
      → All (From (i + 1)) ds
      → All (λ (c : Contact). find_contact c.id ds ≡ none) (rt.buckets i)
  bucket-absent i ds a =
      let h = table i in
      All-mono
        (λ (c : Contact).
          (common_prefix_length rt.local_id c.id ≡ i) × (bytes_eq c.id rt.local_id ≡ false))
        (λ (c : Contact). find_contact c.id ds ≡ none) (rt.buckets i)
        (λ c p. All-absent ds c.id (
          All-mono (From (i + 1)) (λ (d : Contact). bytes_eq d.id c.id ≡ false) ds
            (λ d q. elim (Bool-cases (bytes_eq d.id c.id)) [
              | inl same ↦ absurd (
                  omega (
                    arith,
                    p.0,
                    q,
                    ap (λ (x : Bytes). common_prefix_length rt.local_id x)
                        (bytes_eq→eq d.id c.id same),
                  ))
              | inr other ↦ other
            ])
            a))
        h.placed

  collect-Distinct : (n i : ℕ) → DistinctIds (collect n i rt.buckets)
  unfolding collect
  collect-Distinct zero i = tt
  collect-Distinct (suc n) i =
      let h = table i in
      append-Distinct (rt.buckets i) (collect n (i + 1) rt.buckets) h.distinct
        (collect-Distinct n (i + 1))
        (bucket-absent i (collect n (i + 1) rt.buckets) (collect-From n (i + 1)))

  pub find_closest_peers-Distinct :
      (target : Bytes) (count : ℕ) → DistinctIds (find_closest_peers rt target count)
  unfolding find_closest_peers
  find_closest_peers-Distinct target count =
      first-Distinct count (sort_contacts target (collect 256 0 rt.buckets))
        (sort_contacts-Distinct target (collect 256 0 rt.buckets) (collect-Distinct 256 0))

pub find_closest_peers-All :
    (P : Contact → Type 0) (rt : RoutingTable) (target : Bytes) (count : ℕ)
    → ((i : ℕ) → All P (rt.buckets i))
    → All P (find_closest_peers rt target count)
unfolding find_closest_peers
find_closest_peers-All P rt target count h =
    first-All P count (sort_contacts target (collect 256 0 rt.buckets))
      (sort_contacts-All P target (collect 256 0 rt.buckets) (collect-All P 256 0 rt.buckets h))

length-first : (n : ℕ) (cs : List Contact) → length (first n cs) ≤ n
length-first n cs = elim (Bool-cases (ltb n (length cs))) [
  | inl more ↦ rw more (omega (arith, length-take n cs))
  | inr whole ↦ rw whole (ground arith)
]

pub length-find_closest_peers :
    (rt : RoutingTable) (target : Bytes) (count : ℕ)
    → length (find_closest_peers rt target count) ≤ count
unfolding find_closest_peers
length-find_closest_peers rt target count =
    length-first count (sort_contacts target (collect 256 0 rt.buckets))

-- A property of the IDs that a table keeps when a contact is added.
module _ (P : Bytes → Type 0) where
  abbrev HasP : Contact → Type 0
  HasP c = P c.id

  find_contact-HasP :
      (bucket : List Contact) (id : Bytes) (existing : Contact)
      → All HasP bucket
      → find_contact id bucket ≡ some existing
      → HasP existing
  unfolding find_contact
  find_contact-HasP [] id existing a e = cc
  find_contact-HasP (c ∷ cs) id existing (p, ps) e = elim (Bool-cases (bytes_eq c.id id)) [
    | inl here ↦ subst HasP (some-injective c existing (rw here at e)) p
    | inr other ↦ find_contact-HasP cs id existing ps (rw other at e)
  ]

  update_bucket-HasP :
      (bucket : List Contact) (c : Contact)
      → All HasP bucket
      → P c.id
      → All HasP (update_bucket bucket c)
  unfolding update_bucket update_found
  update_bucket-HasP bucket c a p = elim (Option-cases (find_contact c.id bucket)) [
    | inl absent ↦ rw absent (
        All-append HasP (if leb bucket_size (length bucket) then evict_first bucket else bucket) c
          (elim (Bool-cases (leb bucket_size (length bucket))) [
            | inl full ↦ rw full (All-evict HasP bucket a)
            | inr room ↦ rw room a
          ])
          p)
    | inr (existing, here) ↦
        let q : P existing.id = find_contact-HasP bucket c.id existing a here in
        rw here (
          All-append HasP (remove_contact c.id bucket)
            (if bytes_eq c.addr [] then existing else record existing { addr = c.addr })
            (All-remove_contact HasP bucket c.id a)
            (elim (Bool-cases (bytes_eq c.addr [])) [ inl keep ↦ rw keep q | inr new ↦ rw new q ]))
  ]

  pub add_contact-All :
      (rt : RoutingTable) (c : Contact)
      → ((i : ℕ) → All (λ (d : Contact). P d.id) (rt.buckets i))
      → P c.id
      → (i : ℕ) → All (λ (d : Contact). P d.id) ((add_contact rt c).buckets i)
  unfolding add_contact
  add_contact-All rt c a p i =
      let idx = common_prefix_length rt.local_id c.id in
      elim (Bool-cases (bytes_eq c.id rt.local_id)) [
        | inl own ↦ rw own (a i)
        | inr other ↦ elim (Bool-cases (i == idx)) [
          | inl here ↦ rw (other, here) (update_bucket-HasP (rt.buckets idx) c (a idx) p)
          | inr apart ↦ rw (other, apart) (a i)
        ]
      ]
