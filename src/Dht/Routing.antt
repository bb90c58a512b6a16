-- ===== src/Dht/Routing.antt =====
-- pkg/dht/routing.go: the buckets of known contacts and the search for the closest ones.
-- The array of 256 buckets is a function of the index. The mutex makes each method one step. sort.Slice
-- is modelled by an insertion sort: its result is the sorted order that the distances determine. A
-- negative count, at which the source panics, is left out by the type of `count`.
pub mod Contacts
pub mod Distinct
pub mod Buckets
pub mod Distance
pub mod Closest
pub mod Known
use keet_agent.Prelude.{
  ℕ, zero, suc, ◌+◌, ◌-◌, ◌^◌, bit_and, bit_xor, Bool, true, false, List, [], ◌∷◌, ◌++◌, length,
  take, get_elem?, Option, none, some, ltb, leb, ◌==◌, if◌then◌else◌, bytes_eq,
}
use keet_agent.Bytes.{Bytes}

-- An ID is 32 bytes.
pub record Contact : Type 0 where
  pub id : Bytes
  pub addr : Bytes

pub record RoutingTable : Type 0 where
  pub local_id : Bytes
  pub buckets : ℕ → List Contact

pub new_routing_table : Bytes → RoutingTable
new_routing_table local_id = record { local_id = local_id; buckets = λ _. [] }

-- for b := 7; b >= 0; b-- over the bits of a byte that is not 0, on the count b + 1; it counts the
-- zeros in front.
leading_zeros : ℕ → ℕ → ℕ → ℕ
leading_zeros zero xor cpl = cpl
leading_zeros (suc b) xor cpl =
    let next = leading_zeros b xor (cpl + 1) in if bit_and xor (2 ^ b) == 0 then next else cpl

-- for i := 0; i < 32; i++ over the two IDs.
prefix_loop : Bytes → Bytes → ℕ → ℕ
unfolding leading_zeros
prefix_loop [] ys cpl = cpl
prefix_loop (x ∷ xs) [] cpl = cpl
prefix_loop (x ∷ xs) (y ∷ ys) cpl =
    let next = prefix_loop xs ys (cpl + 8) in
    if bit_xor x y == 0 then next else leading_zeros 8 (bit_xor x y) cpl

unfoldable pub common_prefix_length : Bytes → Bytes → ℕ
unfolding prefix_loop
common_prefix_length id1 id2 = let cpl = prefix_loop id1 id2 0 in if ltb 255 cpl then 255 else cpl

-- The contact of an ID in a bucket, and the bucket without it (the first one, if there were several).
unfoldable pub find_contact : Bytes → List Contact → Option Contact
find_contact id [] = none
find_contact id (c ∷ cs) = if bytes_eq c.id id then some c else find_contact id cs

unfoldable pub remove_contact : Bytes → List Contact → List Contact
remove_contact id [] = []
remove_contact id (c ∷ cs) = if bytes_eq c.id id then cs else c ∷ remove_contact id cs

-- bucket[1:]
abbrev pub evict_first : List Contact → List Contact
evict_first [] = []
evict_first (c ∷ cs) = cs

abbrev pub bucket_size : ℕ
bucket_size = 20

-- The two cases of AddContact: the contact is in the bucket already, or it is not.
pub update_found : List Contact → Contact → Option Contact → List Contact
unfolding remove_contact
update_found bucket c (some existing) =
    remove_contact c.id bucket
    ++ ((if bytes_eq c.addr [] then existing else record existing { addr = c.addr }) ∷ [])
update_found bucket c none =
    (if leb bucket_size (length bucket) then evict_first bucket else bucket) ++ (c ∷ [])

-- The bucket that AddContact writes back.
unfoldable pub update_bucket : List Contact → Contact → List Contact
unfolding find_contact update_found
update_bucket bucket c = update_found bucket c (find_contact c.id bucket)

unfoldable pub add_contact : RoutingTable → Contact → RoutingTable
unfolding common_prefix_length
add_contact rt c =
    let idx = common_prefix_length rt.local_id c.id in
    if bytes_eq c.id rt.local_id then rt else record rt {
      buckets = λ i. if i == idx then update_bucket (rt.buckets idx) c else rt.buckets i;
    }

-- for _, bucket := range rt.buckets, from bucket i on, n of them.
unfoldable pub collect : ℕ → ℕ → (ℕ → List Contact) → List Contact
collect zero i buckets = []
collect (suc n) i buckets = buckets i ++ collect n (i + 1) buckets

pub xor_distance : Bytes → Bytes → Bytes
xor_distance [] ys = []
xor_distance (x ∷ xs) [] = []
xor_distance (x ∷ xs) (y ∷ ys) = bit_xor x y ∷ xor_distance xs ys

-- The three results -1, 0 and 1.
pub data Compared : Type 0 where
  nearer same farther : Compared

pub compare_distance : Bytes → Bytes → Compared
compare_distance [] ys = same
compare_distance (x ∷ xs) [] = same
compare_distance (x ∷ xs) (y ∷ ys) =
    if ltb x y then nearer else if ltb y x then farther else compare_distance xs ys

-- The order that sort.Slice is given: compareDistance(d1, d2) < 0.
pub is_nearer : Bytes → Contact → Contact → Bool
unfolding compare_distance xor_distance
is_nearer target a b =
    elim (compare_distance (xor_distance a.id target) (xor_distance b.id target)) [
      | nearer ↦ true
      | _ ↦ false
    ]

unfoldable pub insert_sorted : Bytes → Contact → List Contact → List Contact
insert_sorted target c [] = c ∷ []
insert_sorted target c (d ∷ ds) =
    let rest = d ∷ insert_sorted target c ds in if is_nearer target d c then rest else c ∷ d ∷ ds

unfoldable pub sort_contacts : Bytes → List Contact → List Contact
unfolding insert_sorted
sort_contacts target [] = []
sort_contacts target (c ∷ cs) = insert_sorted target c (sort_contacts target cs)

-- The first test of the source, for no contacts, returns nil, which is the empty list as well.
unfoldable pub find_closest_peers : RoutingTable → Bytes → ℕ → List Contact
unfolding collect sort_contacts
find_closest_peers rt target count =
    let results = sort_contacts target (collect 256 0 rt.buckets) in
    if ltb count (length results) then take count results else results
