-- ===== src/Dht/Routing/Distinct.antt =====
-- The sorting and the removal of contacts (pkg/dht/routing.go) where their IDs are distinct.
use keet_agent.Prelude.{
  false, List, [], ◌∷◌, none, bytes_eq, bytes_eq→eq, bytes_eq_sym, ◌≡◌, refl, subst, arith, All,
  Bool-cases, inl, inr,
}
use keet_agent.Bytes.{Bytes}
use keet_agent.Dht.Routing.{
  Contact, find_contact, remove_contact, is_nearer, insert_sorted, sort_contacts,
}
use keet_agent.Dht.Routing.Contacts.{DistinctIds, find_contact-remove_none}

-- Sorting keeps the IDs apart.
insert_sorted-absent :
    (target : Bytes) (c : Contact) (cs : List Contact) (q : Bytes)
    → bytes_eq c.id q ≡ false
    → find_contact q cs ≡ none
    → find_contact q (insert_sorted target c cs) ≡ none
unfolding insert_sorted find_contact
insert_sorted-absent target c [] q a h = ground arith
insert_sorted-absent target c (d ∷ ds) q a h = ground (arith, insert_sorted-absent target c ds q a)

insert_sorted-Distinct :
    (target : Bytes) (c : Contact) (cs : List Contact)
    → find_contact c.id cs ≡ none
    → DistinctIds cs
    → DistinctIds (insert_sorted target c cs)
unfolding insert_sorted find_contact
insert_sorted-Distinct target c [] h d = (refl, tt)
insert_sorted-Distinct target c (e ∷ es) h (new, d) = elim (Bool-cases (is_nearer target e c)) [
  | inl later ↦ rw later (
    insert_sorted-absent target c es e.id (ground (arith, bytes_eq_sym c.id e.id)) new,
    insert_sorted-Distinct target c es (ground arith) d,
  )
  | inr here ↦ rw here (h, (new, d))
]

sort_contacts-absent :
    (target : Bytes) (cs : List Contact) (q : Bytes)
    → find_contact q cs ≡ none
    → find_contact q (sort_contacts target cs) ≡ none
unfolding sort_contacts find_contact
sort_contacts-absent target [] q h = refl
sort_contacts-absent target (c ∷ cs) q h =
    insert_sorted-absent target c (sort_contacts target cs) q (ground arith)
      (sort_contacts-absent target cs q (ground arith))

pub sort_contacts-Distinct :
    (target : Bytes) (cs : List Contact) → DistinctIds cs → DistinctIds (sort_contacts target cs)
unfolding sort_contacts
sort_contacts-Distinct target [] d = tt
sort_contacts-Distinct target (c ∷ cs) (new, d) =
    insert_sorted-Distinct target c (sort_contacts target cs)
      (sort_contacts-absent target cs c.id new) (sort_contacts-Distinct target cs d)

pub remove_contact-Distinct :
    (cs : List Contact) (id : Bytes) → DistinctIds cs → DistinctIds (remove_contact id cs)
unfolding remove_contact
remove_contact-Distinct [] id d = tt
remove_contact-Distinct (c ∷ cs) id (new, d) = elim (Bool-cases (bytes_eq c.id id)) [
  | inl here ↦ rw here d
  | inr other ↦ rw other (find_contact-remove_none cs id c.id new, remove_contact-Distinct cs id d)
]

absent-All :
    (cs : List Contact) (id : Bytes)
    → find_contact id cs ≡ none
    → All (λ (c : Contact). bytes_eq c.id id ≡ false) cs
unfolding find_contact
absent-All [] id h = tt
absent-All (c ∷ cs) id h = (ground arith, absent-All cs id (ground arith))

-- The contacts left after a removal have other IDs.
pub remove_contact-others :
    (cs : List Contact) (id : Bytes)
    → DistinctIds cs
    → All (λ (c : Contact). bytes_eq c.id id ≡ false) (remove_contact id cs)
unfolding remove_contact
remove_contact-others [] id d = tt
remove_contact-others (c ∷ cs) id (new, d) = elim (Bool-cases (bytes_eq c.id id)) [
  | inl here ↦ rw here (
      absent-All cs id
        (subst (λ (q : Bytes). find_contact q cs ≡ none) (bytes_eq→eq c.id id here) new))
  | inr other ↦ rw other (other, remove_contact-others cs id d)
]

pub All-absent :
    (cs : List Contact) (id : Bytes)
    → All (λ (c : Contact). bytes_eq c.id id ≡ false) cs
    → find_contact id cs ≡ none
unfolding find_contact
All-absent [] id h = refl
All-absent (c ∷ cs) id (h, hs) = ground (arith, All-absent cs id hs)
