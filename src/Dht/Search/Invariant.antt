-- ===== src/Dht/Search/Invariant.antt =====
-- The state of iterativeFindNode (pkg/dht/dht.go) between the rounds.
use keet_agent.Prelude.{
  Bool, true, false, ◌||◌, List, [], ◌∷◌, ◌++◌, All, Option, none, some, bytes_eq, bytes_eq→eq,
  bytes_eq_refl, bytes_eq_sym, ◌≡◌, ap, subst, ◌∙◌, arith, Bool-cases, Option-cases, inl, inr,
}
use keet_agent.Bytes.{Bytes}
use keet_agent.Dht.Routing.{Contact, add_contact, remove_contact}
use keet_agent.Dht.Routing.Closest.{sort_contacts-All}
use keet_agent.Dht.Routing.Contacts.{
  DistinctIds, DistinctIds-append, All-remove_contact, All-append,
}
use keet_agent.Dht.Routing.Distinct.{
  sort_contacts-Distinct, remove_contact-Distinct, remove_contact-others, All-absent,
}
use keet_agent.Dht.Routing.Known.{All-mono}
use keet_agent.Dht.Search.{
  has_id, Search, ids, merge_contact, merge_contacts, take_result, take_results, query_round,
  sort_closest, to_query,
}
use keet_agent.Dht.Search.Ending.{has_id-append, next_queries-All, Exists}

abbrev pub is_answer : Option (List Contact) → Bool
is_answer none = false
is_answer (some cs) = true

-- A marked contact has answered, unless its result is still to be taken.
abbrev pub Marked : (Bytes → Option (List Contact)) → List Bytes → List Bytes → Contact → Type 0
Marked ask queried pending c =
    has_id queried c.id ≡ true → (has_id pending c.id || is_answer (ask c.id)) ≡ true

pub record IsSearch (ask : Bytes → Option (List Contact)) (pending : List Bytes) (s : Search)
    : Type 0 where
  pub distinct : DistinctIds s.closest
  pub listed : All (Exists s.known) s.closest
  pub known : (id : Bytes) → has_id s.queried id ≡ true → has_id s.known id ≡ true
  pub marked : All (Marked ask s.queried pending) s.closest

listed_other :
    (known : List Bytes) (id : Bytes) (c : Contact)
    → has_id known id ≡ false
    → has_id known c.id ≡ true
    → bytes_eq c.id id ≡ false
listed_other known id c f h = elim (Bool-cases (bytes_eq c.id id)) [
  | inl e ↦
      let same : has_id known c.id ≡ has_id known id =
        ap (λ (q : Bytes). has_id known q) (bytes_eq→eq c.id id e) in
      ground (arith, same)
  | inr n ↦ n
]

Exists-append : (known more : List Bytes) (c : Contact) → Exists known c → Exists (known ++ more) c
Exists-append known more c h = has_id-append known more c.id ∙ ground arith

has_id-last : (known : List Bytes) (id : Bytes) → has_id (known ++ (id ∷ [])) id ≡ true
unfolding has_id
has_id-last known id = has_id-append known (id ∷ []) id ∙ ground (arith, bytes_eq_refl id)

module _ (ask : Bytes → Option (List Contact)) (pending : List Bytes) where
  merge_new-IsSearch :
      (s : Search) (c : Contact)
      → has_id s.known c.id ≡ false
      → IsSearch ask pending s
      → IsSearch ask pending
          (record s { known = s.known ++ (c.id ∷ []); closest = s.closest ++ (c ∷ []) })
  merge_new-IsSearch s c new h = record {
    distinct =
        DistinctIds-append s.closest c
          (All-absent s.closest c.id (
            All-mono (Exists s.known) (λ (d : Contact). bytes_eq d.id c.id ≡ false) s.closest
              (λ d k. listed_other s.known c.id d new k) h.listed))
          h.distinct;
    listed =
        All-append (Exists (s.known ++ (c.id ∷ []))) s.closest c
          (All-mono (Exists s.known) (Exists (s.known ++ (c.id ∷ []))) s.closest
            (λ d k. Exists-append s.known (c.id ∷ []) d k) h.listed)
          (has_id-last s.known c.id);
    known = λ id k. has_id-append s.known (c.id ∷ []) id ∙ ground (arith, h.known id k);
    marked =
        All-append (Marked ask s.queried pending) s.closest c h.marked
          (λ k. ground (arith, h.known c.id k));
  }

  merge_contact-IsSearch :
      (s : Search) (c : Contact) → IsSearch ask pending s → IsSearch ask pending (merge_contact s c)
  unfolding merge_contact
  merge_contact-IsSearch s c h = elim (Bool-cases (bytes_eq c.id s.routing.local_id)) [
    | inl own ↦ rw own h
    | inr a ↦ elim (Bool-cases (has_id s.known c.id)) [
      | inl old ↦ rw (a, old) h
      | inr new ↦ rw (a, new) (merge_new-IsSearch s c new h)
    ]
  ]

  merge_contacts-IsSearch :
      (s : Search) (cs : List Contact)
      → IsSearch ask pending s
      → IsSearch ask pending (merge_contacts s cs)
  unfolding merge_contacts
  merge_contacts-IsSearch s [] h = h
  merge_contacts-IsSearch s (c ∷ cs) h =
      merge_contacts-IsSearch (merge_contact s c) cs (merge_contact-IsSearch s c h)

pub All-zip :
    (P Q R : Contact → Type 0) (cs : List Contact)
    → ((c : Contact) → P c → Q c → R c)
    → All P cs
    → All Q cs
    → All R cs
All-zip P Q R [] f a b = tt
All-zip P Q R (c ∷ cs) f (p, ps) (q, qs) = (f c p q, All-zip P Q R cs f ps qs)

module _ (ask : Bytes → Option (List Contact)) where
  -- The result of another contact leaves a mark as it is.
  Marked-other :
      (queried pending : List Bytes) (id : Bytes) (c : Contact)
      → bytes_eq c.id id ≡ false
      → Marked ask queried (id ∷ pending) c
      → Marked ask queried pending c
  unfolding has_id
  Marked-other queried pending id c n m = λ q. ground (arith, m q, bytes_eq_sym c.id id)

  Marked-answered :
      (queried pending : List Bytes) (id : Bytes) (answer : List Contact)
      → ask id ≡ some answer
      → (c : Contact) → Marked ask queried (id ∷ pending) c
      → Marked ask queried pending c
  unfolding has_id
  Marked-answered queried pending id answer e c m = elim (Bool-cases (bytes_eq id c.id)) [
    | inl here ↦ λ q.
        let same : is_answer (ask c.id) ≡ true =
          subst (λ (x : Bytes). is_answer (ask x) ≡ true) (bytes_eq→eq id c.id here)
            (ap is_answer e) in
        rw same (ground arith)
    | inr other ↦ λ q. ground (arith, m q)
  ]

  take_failed-IsSearch :
      (pending : List Bytes) (s : Search) (c : Contact)
      → IsSearch ask (c.id ∷ pending) s
      → IsSearch ask pending (record s { closest = remove_contact c.id s.closest })
  take_failed-IsSearch pending s c h = record {
    distinct = remove_contact-Distinct s.closest c.id h.distinct;
    listed = All-remove_contact (Exists s.known) s.closest c.id h.listed;
    known = h.known;
    marked =
        All-zip (λ (d : Contact). bytes_eq d.id c.id ≡ false)
          (Marked ask s.queried (c.id ∷ pending)) (Marked ask s.queried pending)
          (remove_contact c.id s.closest) (λ d n m. Marked-other s.queried pending c.id d n m)
          (remove_contact-others s.closest c.id h.distinct)
          (All-remove_contact (Marked ask s.queried (c.id ∷ pending)) s.closest c.id h.marked);
  }

  take_result-IsSearch :
      (pending : List Bytes) (s : Search) (c : Contact)
      → IsSearch ask (c.id ∷ pending) s
      → IsSearch ask pending (take_result s c (ask c.id))
  unfolding take_result
  take_result-IsSearch pending s c h = elim (Option-cases (ask c.id)) [
    | inl failed ↦ rw failed (take_failed-IsSearch pending s c h)
    | inr (answer, e) ↦ rw e (
        merge_contacts-IsSearch ask pending (record s { routing = add_contact s.routing c }) answer
          (record {
            distinct = h.distinct;
            listed = h.listed;
            known = h.known;
            marked =
                All-mono (Marked ask s.queried (c.id ∷ pending)) (Marked ask s.queried pending)
                  s.closest (Marked-answered s.queried pending c.id answer e) h.marked;
          }))
  ]

  take_results-IsSearch :
      (s : Search) (cs : List Contact)
      → IsSearch ask (ids cs) s
      → IsSearch ask [] (take_results ask s cs)
  unfolding take_results
  take_results-IsSearch s [] h = h
  take_results-IsSearch s (c ∷ cs) h =
      take_results-IsSearch (take_result s c (ask c.id)) cs (take_result-IsSearch (ids cs) s c h)

  ids-Exists :
      (known : List Bytes) (cs : List Contact) (id : Bytes)
      → All (Exists known) cs
      → has_id (ids cs) id ≡ true
      → has_id known id ≡ true
  unfolding has_id
  ids-Exists known [] id h i = ground arith
  ids-Exists known (c ∷ cs) id (h, hs) i = elim (Bool-cases (bytes_eq c.id id)) [
    | inl here ↦ subst (λ (q : Bytes). has_id known q ≡ true) (bytes_eq→eq c.id id here) h
    | inr other ↦ ids-Exists known cs id hs (ground arith)
  ]

  pub query_round-IsSearch :
      (s : Search) → IsSearch ask [] s → IsSearch ask [] (query_round ask s (to_query s))
  unfolding has_id
  query_round-IsSearch s h =
      let asked = to_query s in
      take_results-IsSearch (record s { queried = s.queried ++ ids asked }) asked
        (record {
          distinct = h.distinct;
          listed = h.listed;
          known = λ id q. elim (Bool-cases (has_id s.queried id)) [
            | inl before ↦ h.known id before
            | inr new ↦
                ids-Exists s.known asked id
                  (next_queries-All (Exists s.known) 3 s.queried s.closest h.listed)
                  (ground (arith, has_id-append s.queried (ids asked) id))
          ];
          marked =
              All-mono (Marked ask s.queried []) (Marked ask (s.queried ++ ids asked) (ids asked))
                s.closest (λ c m q. ground (arith, has_id-append s.queried (ids asked) c.id, m))
                h.marked;
        })

  pub sort_closest-IsSearch :
      (target : Bytes) (s : Search) → IsSearch ask [] s → IsSearch ask [] (sort_closest target s)
  sort_closest-IsSearch target s h = record {
    distinct = sort_contacts-Distinct target s.closest h.distinct;
    listed = sort_contacts-All (Exists s.known) target s.closest h.listed;
    known = h.known;
    marked = sort_contacts-All (Marked ask s.queried []) target s.closest h.marked;
  }
