-- ===== src/Dht/Search.antt =====
-- pkg/dht/dht.go, iterativeFindNode: the search for the contacts nearest to a target.
-- What a query of a contact comes back with is a parameter, `none` for a failed resolution, an error or a
-- timeout; a contact is queried once at most, so that it is given by the ID. The results of a round
-- are taken in the order of the queries, one of the orders of arrival. The maps are lists of IDs.
pub mod Complete
pub mod Ending
pub mod Invariant
pub mod Results
pub mod Table
use keet_agent.Prelude.{
  ℕ, zero, suc, Bool, true, false, ◌||◌, List, [], ◌∷◌, ◌++◌, length, take, Option, none, some, ltb,
  if◌then◌else◌, bytes_eq,
}
use keet_agent.Bytes.{Bytes}
use keet_agent.Dht.Routing.{
  Contact, RoutingTable, add_contact, remove_contact, sort_contacts, find_closest_peers,
}

-- Membership in queried, and in the keys of closestMap.
unfoldable pub has_id : List Bytes → Bytes → Bool
has_id [] id = false
has_id (x ∷ xs) id = bytes_eq x id || has_id xs id

pub record Search : Type 0 where
  pub routing : RoutingTable
  pub closest : List Contact
  pub queried : List Bytes
  pub known : List Bytes

abbrev pub ids : List Contact → List Bytes
ids [] = []
ids (c ∷ cs) = c.id ∷ ids cs

-- The first n contacts that have not been queried.
unfoldable pub next_queries : ℕ → List Bytes → List Contact → List Contact
unfolding has_id
next_queries zero queried cs = []
next_queries (suc n) queried [] = []
next_queries (suc n) queried (c ∷ cs) =
    let skip = next_queries (suc n) queried cs in
    let rest = next_queries n queried cs in if has_id queried c.id then skip else c ∷ rest

-- for _, nc := range res.contacts
pub merge_contact : Search → Contact → Search
unfolding has_id
merge_contact s nc =
    if bytes_eq nc.id s.routing.local_id
    then s
    else if has_id s.known nc.id
    then s
    else record s { known = s.known ++ (nc.id ∷ []); closest = s.closest ++ (nc ∷ []) }

pub merge_contacts : Search → List Contact → Search
unfolding merge_contact
merge_contacts s [] = s
merge_contacts s (nc ∷ ncs) = merge_contacts (merge_contact s nc) ncs

-- The result of one query.
pub take_result : Search → Contact → Option (List Contact) → Search
unfolding merge_contacts
take_result s c none = record s { closest = remove_contact c.id s.closest }
take_result s c (some contacts) =
    merge_contacts (record s { routing = add_contact s.routing c }) contacts

-- A round with nothing to query is the last one.
abbrev pub unless_done : List Contact → Search → Option Search → Option Search
unless_done [] s next = some s
unless_done (c ∷ cs) s next = next

abbrev pub sort_closest : Bytes → Search → Search
sort_closest target s = record s { closest = sort_contacts target s.closest }

abbrev pub to_query : Search → List Contact
to_query s = next_queries 3 s.queried s.closest

abbrev pub first_search : RoutingTable → Bytes → Search
first_search rt target =
    let candidates = find_closest_peers rt target 20 in
    record { routing = rt; closest = candidates; queried = []; known = ids candidates }

abbrev pub nearest_20 : Search → List Contact
nearest_20 s = if ltb 20 (length s.closest) then take 20 s.closest else s.closest

-- The contacts, and the routing table with the contacts that answered.
abbrev pub search_result : Option Search → Option (List Contact × RoutingTable)
search_result none = none
search_result (some s) = some (nearest_20 s, s.routing)

module _ (ask : Bytes → Option (List Contact)) where
  pub take_results : Search → List Contact → Search
  unfolding take_result
  take_results s [] = s
  take_results s (c ∷ cs) = take_results (take_result s c (ask c.id)) cs

  abbrev pub query_round : Search → List Contact → Search
  query_round s cs = take_results (record s { queried = s.queried ++ ids cs }) cs

  -- The loop of rounds; `none` where the number of rounds is used up.
  unfoldable pub search_loop : ℕ → Bytes → Search → Option Search
  unfolding take_results next_queries
  search_loop zero target s = none
  search_loop (suc fuel) target s =
      let sorted = sort_closest target s in
      let next = search_loop fuel target (query_round sorted (to_query sorted)) in
      unless_done (to_query sorted) sorted next

  unfoldable pub iterative_find_node :
      ℕ → RoutingTable → Bytes → Option (List Contact × RoutingTable)
  unfolding search_loop
  iterative_find_node fuel rt target =
      search_result (search_loop fuel target (first_search rt target))
