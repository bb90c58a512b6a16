-- ===== src/Dht/Search/Table.antt =====
-- What iterativeFindNode (pkg/dht/dht.go) leaves in the routing table.
use keet_agent.Prelude.{
  ℕ, ◌<◌, true, List, [], ◌∷◌, ◌++◌, length, All, Option, some, bytes_eq, ◌≡◌, refl, ap, ◌∙◌, arith,
  Bool-cases, Option-cases, inl, inr,
}
use keet_agent.Bytes.{Bytes}
use keet_agent.Dht.Routing.{Contact, RoutingTable, add_contact}
use keet_agent.Dht.Routing.Closest.{sort_contacts-All}
use keet_agent.Dht.Routing.Known.{find_closest_peers-All, add_contact-All}
use keet_agent.Dht.Search.{
  has_id, Search, ids, merge_contact, merge_contacts, take_result, take_results, query_round,
  to_query, first_search, search_result, nearest_20, iterative_find_node,
}
use keet_agent.Dht.Search.Ending.{
  Names, Exists, take_results-All, next_queries-All, unseen-le_length, search_loop_ends,
}
use keet_agent.Dht.Search.Results.{search_loop_rule}

-- Every contact of the table has one of the IDs.
abbrev pub Within : List Bytes → RoutingTable → Type 0
Within all rt = (i : ℕ) → All (Exists all) (rt.buckets i)

pub add_contact-Within :
    (all : List Bytes) (rt : RoutingTable) (c : Contact)
    → Within all rt
    → Exists all c
    → Within all (add_contact rt c)
add_contact-Within all rt c w h = add_contact-All (λ (id : Bytes). has_id all id ≡ true) rt c w h

merge_contact-routing : (s : Search) (c : Contact) → (merge_contact s c).routing ≡ s.routing
unfolding merge_contact
merge_contact-routing s c = elim (Bool-cases (bytes_eq c.id s.routing.local_id)) [
  | inl own ↦ rw own refl
  | inr a ↦ elim (Bool-cases (has_id s.known c.id)) [
    | inl old ↦ rw (a, old) refl
    | inr new ↦ rw (a, new) refl
  ]
]

merge_contacts-routing :
    (s : Search) (cs : List Contact) → (merge_contacts s cs).routing ≡ s.routing
unfolding merge_contacts
merge_contacts-routing s [] = refl
merge_contacts-routing s (c ∷ cs) =
    merge_contacts-routing (merge_contact s c) cs ∙ merge_contact-routing s c

module _ (ask : Bytes → Option (List Contact)) (all : List Bytes) where
  take_result-Within :
      (s : Search) (c : Contact)
      → Within all s.routing
      → Exists all c
      → Within all (take_result s c (ask c.id)).routing
  unfolding take_result
  take_result-Within s c w h = elim (Option-cases (ask c.id)) [
    | inl failed ↦ rw failed w
    | inr (cs, e) ↦
        rw (e, merge_contacts-routing (record s { routing = add_contact s.routing c }) cs)
          (add_contact-Within all s.routing c w h)
  ]

  take_results-Within :
      (s : Search) (cs : List Contact)
      → Within all s.routing
      → All (Exists all) cs
      → Within all (take_results ask s cs).routing
  unfolding take_results
  take_results-Within s [] w h = w
  take_results-Within s (c ∷ cs) w (h, hs) =
      take_results-Within (take_result s c (ask c.id)) cs (take_result-Within s c w h) hs

  module _ (heard : Names ask (Exists all)) where
    abbrev Keeps : Search → Type 0
    Keeps s = All (Exists all) s.closest × Within all s.routing

    query_round-Keeps : (s : Search) → Keeps s → Keeps (query_round ask s (to_query s))
    query_round-Keeps s (near, w) =
        let marked : Search = record s { queried = s.queried ++ ids (to_query s) } in
        (
          take_results-All ask (Exists all) heard marked (to_query s) near,
          take_results-Within marked (to_query s) w
              (next_queries-All (Exists all) 3 s.queried s.closest near),
        )

    -- The search ends and leaves a table of the same IDs.
    pub iterative_find_node-Within :
        (rt : RoutingTable) (target : Bytes) (fuel : ℕ)
        → Within all rt
        → length all < fuel
        → (closest : List Contact) × (rt' : RoutingTable) × (iterative_find_node ask fuel rt target
            ≡ some (closest, rt'))
          × Within all rt'
    unfolding iterative_find_node
    iterative_find_node-Within rt target fuel w enough =
        let s : Search = first_search rt target in
        let near : All (Exists all) s.closest =
          find_closest_peers-All (Exists all) rt target 20 w in
        let (t, run, done) =
          search_loop_ends ask all heard fuel target s near
            (omega (arith, unseen-le_length [] all)) in
        let (kept, none_left, sorted) =
          search_loop_rule ask Keeps target
            (λ v k. (sort_contacts-All (Exists all) target v.closest k.0, k.1)) query_round-Keeps
            fuel s t (near, w) run in
        (nearest_20 t, t.routing, ap search_result run, kept.1)
