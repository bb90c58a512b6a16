-- ===== src/Dht/Routing/Buckets.antt =====
-- AddContact (pkg/dht/routing.go) on a bucket and on the table.
use keet_agent.Prelude.{
  ℕ, ◌+◌, ◌≤◌, true, false, List, [], ◌∷◌, ◌++◌, length, none, some, leb, ◌==◌, if◌then◌else◌,
  bytes_eq, ◌≡◌, refl, sym, ap, subst, ◌∙◌, arith, All, length-append, Bool-cases, Option-cases,
  inl, inr,
}
use keet_agent.Bytes.{Bytes}
use keet_agent.Dht.Routing.{
  Contact, RoutingTable, new_routing_table, common_prefix_length, find_contact, remove_contact,
  evict_first, bucket_size, update_found, update_bucket, add_contact,
}
use keet_agent.Dht.Routing.Contacts.{
  DistinctIds, find_contact-append_other, DistinctIds-append, find_contact-remove_other,
  find_contact-remove_self, DistinctIds-remove, length-remove_contact, find_contact-eq_some,
  All-remove_contact, All-append, All-evict, find_contact-evict, DistinctIds-evict, length-evict,
}

-- A contact stands in the bucket of the prefix it shares with the local ID, and is not the local node.
abbrev pub Placed : Bytes → ℕ → Contact → Type 0
Placed local_id i c = (common_prefix_length local_id c.id ≡ i) × (bytes_eq c.id local_id ≡ false)

pub record IsBucket (local_id : Bytes) (i : ℕ) (bucket : List Contact) : Type 0 where
  pub bounded : length bucket ≤ bucket_size
  pub distinct : DistinctIds bucket
  pub placed : All (Placed local_id i) bucket

-- The bucket that AddContact writes back is what it keeps of the old one, and then one contact.
record Split (P : Contact → Type 0) (bucket : List Contact) (c : Contact) : Type 0 where
  kept : List Contact
  last : Contact
  split : update_bucket bucket c ≡ kept ++ (last ∷ [])
  same_id : last.id ≡ c.id
  room : length kept + 1 ≤ bucket_size
  absent : find_contact c.id kept ≡ none
  kept_distinct : DistinctIds kept
  kept_all : All P bucket → All P kept

update_bucket-absent :
    (bucket : List Contact) (c : Contact)
    → find_contact c.id bucket ≡ none
    → update_bucket bucket c
      ≡ (if leb bucket_size (length bucket) then evict_first bucket else bucket) ++ (c ∷ [])
unfolding update_bucket update_found
update_bucket-absent bucket c h = ap (update_found bucket c) h

update_bucket-found :
    (bucket : List Contact) (c e : Contact)
    → find_contact c.id bucket ≡ some e
    → update_bucket bucket c
      ≡ remove_contact c.id bucket
        ++ ((if bytes_eq c.addr [] then e else record e { addr = c.addr }) ∷ [])
unfolding update_bucket update_found
update_bucket-found bucket c e h = ap (update_found bucket c) h

update_bucket-Split :
    (P : Contact → Type 0) (bucket : List Contact) (c : Contact)
    → length bucket ≤ bucket_size
    → DistinctIds bucket
    → Split P bucket c
update_bucket-Split P bucket c bound d = elim (Option-cases (find_contact c.id bucket)) [
  | inl absent ↦ elim (Bool-cases (leb bucket_size (length bucket))) [
    | inl full ↦ record {
      kept = evict_first bucket;
      last = c;
      split = update_bucket-absent bucket c absent ∙ simp full refl;
      same_id = refl;
      room = ground (arith, length-evict bucket);
      absent = find_contact-evict bucket c.id absent;
      kept_distinct = DistinctIds-evict bucket d;
      kept_all = λ a. All-evict P bucket a;
    }
    | inr free ↦ record {
      kept = bucket;
      last = c;
      split = update_bucket-absent bucket c absent ∙ simp free refl;
      same_id = refl;
      room = ground arith;
      absent = absent;
      kept_distinct = d;
      kept_all = λ a. a;
    }
  ]
  | inr (e, found) ↦ record {
    kept = remove_contact c.id bucket;
    last = if bytes_eq c.addr [] then e else record e { addr = c.addr };
    split = update_bucket-found bucket c e found;
    same_id = elim (Bool-cases (bytes_eq c.addr [])) [
      | inl h ↦ simp h (find_contact-eq_some bucket c.id e found)
      | inr h ↦ simp h (find_contact-eq_some bucket c.id e found)
    ];
    room = omega (arith, length-remove_contact bucket c.id e found);
    absent = find_contact-remove_self bucket c.id d;
    kept_distinct = DistinctIds-remove bucket c.id d;
    kept_all = λ a. All-remove_contact P bucket c.id a;
  }
]

update_bucket-IsBucket :
    (local_id : Bytes) (i : ℕ) (bucket : List Contact) (c : Contact)
    → Placed local_id i c
    → IsBucket local_id i bucket
    → IsBucket local_id i (update_bucket bucket c)
update_bucket-IsBucket local_id i bucket c p h =
    let s = update_bucket-Split (Placed local_id i) bucket c h.bounded h.distinct in
    subst (IsBucket local_id i) (sym s.split) (record {
      bounded = omega (arith, length-append s.kept (s.last ∷ []), s.room);
      distinct =
          DistinctIds-append s.kept s.last
            (ap (λ (q : Bytes). find_contact q s.kept) s.same_id ∙ s.absent) s.kept_distinct;
      placed = All-append (Placed local_id i) s.kept s.last (s.kept_all h.placed) (
          subst
            (λ (q : Bytes). (common_prefix_length local_id q ≡ i) × (bytes_eq q local_id ≡ false))
            (sym s.same_id) p);
    })

abbrev pub IsTable : RoutingTable → Type 0
IsTable rt = (i : ℕ) → IsBucket rt.local_id i (rt.buckets i)

add_contact-own :
    (rt : RoutingTable) (c : Contact) → bytes_eq c.id rt.local_id ≡ true → add_contact rt c ≡ rt
unfolding add_contact
add_contact-own rt c own = simp own refl

add_contact-other :
    (rt : RoutingTable) (c : Contact)
    → bytes_eq c.id rt.local_id ≡ false
    → add_contact rt c ≡ record {
      local_id = rt.local_id;
      buckets = λ i.
          if i == common_prefix_length rt.local_id c.id
          then update_bucket (rt.buckets (common_prefix_length rt.local_id c.id)) c
          else rt.buckets i;
    }
unfolding add_contact
add_contact-other rt c other = simp other refl

add_contact-IsTable : (rt : RoutingTable) (c : Contact) → IsTable rt → IsTable (add_contact rt c)
add_contact-IsTable rt c h i =
    let idx = common_prefix_length rt.local_id c.id in
    elim (Bool-cases (bytes_eq c.id rt.local_id)) [
      | inl own ↦
          subst (λ (t : RoutingTable). IsBucket t.local_id i (t.buckets i))
            (sym (add_contact-own rt c own)) (h i)
      | inr other ↦
          subst (λ (t : RoutingTable). IsBucket t.local_id i (t.buckets i))
            (sym (add_contact-other rt c other))
            (elim (Bool-cases (i == idx)) [
              | inl here ↦
                  let e : i ≡ idx = ground arith in
                  simp here (
                    subst (λ (j : ℕ). IsBucket rt.local_id j (update_bucket (rt.buckets idx) c))
                      (sym e)
                      (update_bucket-IsBucket rt.local_id idx (rt.buckets idx) c (refl, other)
                        (h idx)))
              | inr there ↦ simp there (h i)
            ])
    ]

abbrev pub add_contacts : RoutingTable → List Contact → RoutingTable
add_contacts rt [] = rt
add_contacts rt (c ∷ cs) = add_contacts (add_contact rt c) cs

add_contacts-IsTable :
    (rt : RoutingTable) (cs : List Contact) → IsTable rt → IsTable (add_contacts rt cs)
add_contacts-IsTable rt [] h = h
add_contacts-IsTable rt (c ∷ cs) h =
    add_contacts-IsTable (add_contact rt c) cs (add_contact-IsTable rt c h)

-- After any sequence of AddContact on a new table, every bucket holds at most 20 contacts with distinct
-- IDs, each in the bucket of the prefix it shares with the local ID, and never the local ID.
pub add_contacts-new-IsTable :
    (local_id : Bytes) (cs : List Contact) → IsTable (add_contacts (new_routing_table local_id) cs)
unfolding new_routing_table
add_contacts-new-IsTable local_id cs =
    add_contacts-IsTable (new_routing_table local_id) cs
      (λ i. record { bounded = omega arith; distinct = tt; placed = tt })

-- A contact other than the added one is found in the bucket as before, unless the bucket is full, does
-- not know the added contact, and the other one is its oldest.
find_contact-update_bucket :
    (bucket : List Contact) (c : Contact) (q : Bytes)
    → bytes_eq c.id q ≡ false
    → find_contact q (update_bucket bucket c) ≡ (elim (find_contact c.id bucket) [
      | some e ↦ find_contact q bucket
      | none ↦
          find_contact q (if leb bucket_size (length bucket) then evict_first bucket else bucket)
    ])
find_contact-update_bucket bucket c q other = elim (Option-cases (find_contact c.id bucket)) [
  | inl absent ↦ rw (update_bucket-absent bucket c absent) (
      simp absent (
        find_contact-append_other
          (if leb bucket_size (length bucket) then evict_first bucket else bucket) q c other))
  | inr (e, found) ↦
      let last = if bytes_eq c.addr [] then e else record e { addr = c.addr } in
      let same : last.id ≡ c.id = elim (Bool-cases (bytes_eq c.addr [])) [
        | inl h ↦ simp h (find_contact-eq_some bucket c.id e found)
        | inr h ↦ simp h (find_contact-eq_some bucket c.id e found)
      ] in
      rw (update_bucket-found bucket c e found) (
        simp found (
          find_contact-append_other (remove_contact c.id bucket) q last
            (ap (λ (i : Bytes). bytes_eq i q) same ∙ other)
          ∙ find_contact-remove_other bucket c.id q other))
]
