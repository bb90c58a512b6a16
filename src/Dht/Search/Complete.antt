-- ===== src/Dht/Search/Complete.antt =====
-- What iterativeFindNode (pkg/dht/dht.go) has heard of, and what of it is kept.
use keet_agent.Prelude.{
  Bool, true, false, not, ◌||◌, List, [], ◌∷◌, ◌++◌, All, Option, none, some, bytes_eq, bytes_eq→eq,
  bytes_eq_refl, ◌≡◌, refl, sym, ap, subst, ◌∙◌, arith, Bool-cases, Option-cases, inl, inr,
}
use keet_agent.Bytes.{Bytes}
use mathlib.Core.Option.{some-injective}
use keet_agent.Dht.Routing.{
  Contact, RoutingTable, add_contact, remove_contact, is_nearer, insert_sorted, sort_contacts,
}
use keet_agent.Dht.Routing.Known.{All-mono}
use keet_agent.Dht.Search.{
  has_id, Search, ids, merge_contact, merge_contacts, take_result, take_results, query_round,
  sort_closest, to_query,
}
use keet_agent.Dht.Search.Ending.{has_id-append}
use keet_agent.Dht.Search.Invariant.{is_answer}

-- A contact of an answer that is the node itself or has been heard of.
abbrev pub Heard : Bytes → List Bytes → Contact → Type 0
Heard local known c = (bytes_eq c.id local || has_id known c.id) ≡ true

-- Between the rounds: the first contacts and all that an answer named are known, and those of the known that
-- answer are kept.
pub record IsComplete (ask : Bytes → Option (List Contact)) (local : Bytes)
    (first pending : List Bytes) (s : Search) : Type 0 where
  pub own : s.routing.local_id ≡ local
  pub started : (id : Bytes) → has_id first id ≡ true → has_id s.known id ≡ true
  pub kept :
      (id : Bytes)
      → has_id s.known id ≡ true
      → (has_id (ids s.closest) id || not (is_answer (ask id))) ≡ true
  pub closed :
      (id : Bytes) (cs : List Contact)
      → has_id s.queried id ≡ true
      → has_id pending id ≡ false
      → ask id ≡ some cs
      → All (Heard local s.known) cs

has_id-ids_append :
    (cs ds : List Contact) (id : Bytes)
    → has_id (ids (cs ++ ds)) id ≡ (has_id (ids cs) id || has_id (ids ds) id)
unfolding has_id
has_id-ids_append [] ds id = refl
has_id-ids_append (c ∷ cs) ds id = ground (arith, has_id-ids_append cs ds id)

has_id-remove_contact :
    (cs : List Contact) (gone id : Bytes)
    → bytes_eq gone id ≡ false
    → has_id (ids (remove_contact gone cs)) id ≡ has_id (ids cs) id
unfolding has_id remove_contact
has_id-remove_contact [] gone id n = refl
has_id-remove_contact (c ∷ cs) gone id n = elim (Bool-cases (bytes_eq c.id gone)) [
  | inl here ↦
      let apart : bytes_eq c.id id ≡ false =
        subst (λ (x : Bytes). bytes_eq x id ≡ false) (sym (bytes_eq→eq c.id gone here)) n in
      rw (here, apart) refl
  | inr other ↦
      rw other (ap (λ (b : Bool). bytes_eq c.id id || b) (has_id-remove_contact cs gone id n))
]

has_id-insert_sorted :
    (target : Bytes) (c : Contact) (cs : List Contact) (id : Bytes)
    → has_id (ids (insert_sorted target c cs)) id ≡ (bytes_eq c.id id || has_id (ids cs) id)
unfolding has_id insert_sorted
has_id-insert_sorted target c [] id = refl
has_id-insert_sorted target c (d ∷ ds) id = elim (Bool-cases (is_nearer target d c)) [
  | inl nearer ↦ rw nearer (ground (arith, has_id-insert_sorted target c ds id))
  | inr further ↦ rw further refl
]

pub has_id-sort_contacts :
    (target : Bytes) (cs : List Contact) (id : Bytes)
    → has_id (ids (sort_contacts target cs)) id ≡ has_id (ids cs) id
unfolding has_id sort_contacts
has_id-sort_contacts target [] id = refl
has_id-sort_contacts target (c ∷ cs) id =
    has_id-insert_sorted target c (sort_contacts target cs) id
    ∙ ap (λ (b : Bool). bytes_eq c.id id || b) (has_id-sort_contacts target cs id)

Heard-mono :
    (local : Bytes) (known more : List Bytes) (c : Contact)
    → ((id : Bytes) → has_id known id ≡ true → has_id more id ≡ true)
    → Heard local known c
    → Heard local more c
Heard-mono local known more c f h = elim (Bool-cases (bytes_eq c.id local)) [
  | inl own ↦ rw own refl
  | inr other ↦ rw other (f c.id (rw other at h))
]

-- What merging leaves: nothing that was known is forgotten, and the rest of IsComplete stands.
record Merged (ask : Bytes → Option (List Contact)) (s t : Search) : Type 0 where
  routing : t.routing ≡ s.routing
  queried : t.queried ≡ s.queried
  known : (id : Bytes) → has_id s.known id ≡ true → has_id t.known id ≡ true
  kept :
      ((id : Bytes)
        → has_id s.known id ≡ true
        → (has_id (ids s.closest) id || not (is_answer (ask id))) ≡ true)
      → (id : Bytes) → has_id t.known id ≡ true
      → (has_id (ids t.closest) id || not (is_answer (ask id))) ≡ true

local_id-add_contact : (rt : RoutingTable) (c : Contact) → (add_contact rt c).local_id ≡ rt.local_id
unfolding add_contact
local_id-add_contact rt c = elim (Bool-cases (bytes_eq c.id rt.local_id)) [
  | inl own ↦ rw own refl
  | inr other ↦ rw other refl
]

module _ (ask : Bytes → Option (List Contact)) where
  merge_contact-Merged : (s : Search) (c : Contact) → Merged ask s (merge_contact s c)
  unfolding merge_contact has_id
  merge_contact-Merged s c = elim (Bool-cases (bytes_eq c.id s.routing.local_id)) [
    | inl own ↦ rw own (record { routing = refl; queried = refl; known = λ id h. h; kept = λ k. k })
    | inr a ↦ elim (Bool-cases (has_id s.known c.id)) [
      | inl old ↦
          rw (a, old) (record { routing = refl; queried = refl; known = λ id h. h; kept = λ k. k })
      | inr new ↦
          rw (a, new)
            (record {
              routing = refl;
              queried = refl;
              known = λ id h. has_id-append s.known (c.id ∷ []) id ∙ ground (arith, h);
              kept = λ k id h. elim (Bool-cases (has_id s.known id)) [
                | inl before ↦ ground (arith, has_id-ids_append s.closest (c ∷ []) id, k id before)
                | inr fresh ↦ ground (
                  arith,
                  has_id-ids_append s.closest (c ∷ []) id,
                  has_id-append s.known (c.id ∷ []) id,
                  h,
                )
              ];
            })
    ]
  ]

  merge_contact-Heard :
      (s : Search) (c : Contact) → Heard s.routing.local_id (merge_contact s c).known c
  unfolding merge_contact has_id
  merge_contact-Heard s c = elim (Bool-cases (bytes_eq c.id s.routing.local_id)) [
    | inl own ↦ rw own refl
    | inr a ↦ elim (Bool-cases (has_id s.known c.id)) [
      | inl old ↦ rw (a, old) old
      | inr new ↦
          rw (a, new) (has_id-append s.known (c.id ∷ []) c.id ∙ ground (arith, bytes_eq_refl c.id))
    ]
  ]

  merge_contacts-Merged :
      (s : Search) (cs : List Contact)
      → Merged ask s (merge_contacts s cs)
        × All (Heard s.routing.local_id (merge_contacts s cs).known) cs
  unfolding merge_contacts
  merge_contacts-Merged s [] =
      (record { routing = refl; queried = refl; known = λ id h. h; kept = λ k. k }, tt)
  merge_contacts-Merged s (c ∷ cs) =
      let first = merge_contact-Merged s c in
      let (rest, heard) = merge_contacts-Merged (merge_contact s c) cs in
      (
        record {
          routing = rest.routing ∙ first.routing;
          queried = rest.queried ∙ first.queried;
          known = λ id h. rest.known id (first.known id h);
          kept = λ k. rest.kept (first.kept k);
        },
        (
          Heard-mono s.routing.local_id (merge_contact s c).known
              (merge_contacts (merge_contact s c) cs).known c rest.known (merge_contact-Heard s c),
          subst (λ (l : Bytes). All (Heard l (merge_contacts (merge_contact s c) cs).known) cs)
              (ap (λ (r : RoutingTable). r.local_id) first.routing) heard,
        ),
      )

  module _ (local : Bytes) (first : List Bytes) where
    take_failed-IsComplete :
        (pending : List Bytes) (s : Search) (c : Contact)
        → ask c.id ≡ none
        → IsComplete ask local first (c.id ∷ pending) s
        → IsComplete ask local first pending (record s { closest = remove_contact c.id s.closest })
    unfolding has_id
    take_failed-IsComplete pending s c failed h = record {
      own = h.own;
      started = h.started;
      kept = λ id k. elim (Bool-cases (bytes_eq c.id id)) [
        | inl here ↦
            let silent : is_answer (ask id) ≡ false =
              subst (λ (x : Bytes). is_answer (ask x) ≡ false) (bytes_eq→eq c.id id here)
                (ap is_answer failed) in
            rw silent (ground arith)
        | inr other ↦ rw (has_id-remove_contact s.closest c.id id other) (h.kept id k)
      ];
      closed = λ id cs q p e. elim (Bool-cases (bytes_eq c.id id)) [
        | inl here ↦ absurd (cc (e, failed, bytes_eq→eq c.id id here))
        | inr other ↦ h.closed id cs q (rw other p) e
      ];
    }

    take_answer-IsComplete :
        (pending : List Bytes) (s : Search) (c : Contact) (answer : List Contact)
        → ask c.id ≡ some answer
        → IsComplete ask local first (c.id ∷ pending) s
        → IsComplete ask local first pending
            (merge_contacts (record s { routing = add_contact s.routing c }) answer)
    unfolding has_id
    take_answer-IsComplete pending s c answer e h =
        let u : Search = record s { routing = add_contact s.routing c } in
        let (m, heard) = merge_contacts-Merged u answer in
        let same : u.routing.local_id ≡ local = local_id-add_contact s.routing c ∙ h.own in
        record {
          own = ap (λ (r : RoutingTable). r.local_id) m.routing ∙ same;
          started = λ id k. m.known id (h.started id k);
          kept = m.kept h.kept;
          closed = λ id cs q p named.
              let before : has_id s.queried id ≡ true =
                ap (λ (qs : List Bytes). has_id qs id) (sym m.queried) ∙ q in
              elim (Bool-cases (bytes_eq c.id id)) [
                | inl here ↦
                    let told : answer ≡ cs =
                      some-injective answer cs
                        (sym e ∙ ap ask (bytes_eq→eq c.id id here) ∙ named) in
                    subst
                      (λ (ds : List Contact). All (Heard local (merge_contacts u answer).known) ds)
                      told
                      (subst (λ (l : Bytes). All (Heard l (merge_contacts u answer).known) answer)
                        same heard)
                | inr other ↦
                    All-mono (Heard local s.known) (Heard local (merge_contacts u answer).known) cs
                      (λ d k. Heard-mono local s.known (merge_contacts u answer).known d m.known k)
                      (h.closed id cs before (rw other p) named)
              ];
        }

    take_results-IsComplete :
        (s : Search) (cs : List Contact)
        → IsComplete ask local first (ids cs) s
        → IsComplete ask local first [] (take_results ask s cs)
    unfolding take_results take_result
    take_results-IsComplete s [] h = h
    take_results-IsComplete s (c ∷ cs) h =
        take_results-IsComplete (take_result s c (ask c.id)) cs (elim (Option-cases (ask c.id)) [
          | inl failed ↦ rw failed (take_failed-IsComplete (ids cs) s c failed h)
          | inr (answer, e) ↦ rw e (take_answer-IsComplete (ids cs) s c answer e h)
        ])

    pub query_round-IsComplete :
        (s : Search)
        → IsComplete ask local first [] s
        → IsComplete ask local first [] (query_round ask s (to_query s))
    unfolding has_id
    query_round-IsComplete s h =
        take_results-IsComplete (record s { queried = s.queried ++ ids (to_query s) }) (to_query s)
          (record {
            own = h.own;
            started = h.started;
            kept = h.kept;
            closed = λ id cs q p e.
                h.closed id cs (ground (arith, has_id-append s.queried (ids (to_query s)) id, q, p))
                  refl e;
          })

    pub sort_closest-IsComplete :
        (target : Bytes) (s : Search)
        → IsComplete ask local first [] s
        → IsComplete ask local first [] (sort_closest target s)
    sort_closest-IsComplete target s h = record {
      own = h.own;
      started = h.started;
      kept = λ id k. rw (has_id-sort_contacts target s.closest id) (h.kept id k);
      closed = h.closed;
    }
