-- ===== src/Dht/Routing/Contacts.antt =====
-- The operations of AddContact (pkg/dht/routing.go) on the list of a bucket: finding, removing, evicting.
use keet_agent.Prelude.{
  ◌+◌, ◌<◌, false, List, [], ◌∷◌, ◌++◌, length, none, some, if◌then◌else◌, bytes_eq, bytes_eq→eq,
  bytes_eq_sym, ◌≡◌, refl, arith, All,
}
use keet_agent.Bytes.{Bytes}
use keet_agent.Dht.Routing.{Contact, find_contact, remove_contact, evict_first}

abbrev pub DistinctIds : List Contact → Type 0
DistinctIds [] = Unit {0}
DistinctIds (c ∷ cs) = (find_contact c.id cs ≡ none) × DistinctIds cs

find_contact-append :
    (cs : List Contact) (q : Bytes) (c : Contact)
    → find_contact q cs ≡ none
    → find_contact q (cs ++ (c ∷ [])) ≡ (if bytes_eq c.id q then some c else none)
unfolding find_contact
find_contact-append [] q c h = refl
find_contact-append (d ∷ ds) q c h = ground (arith, find_contact-append ds q c)

pub find_contact-append_other :
    (cs : List Contact) (q : Bytes) (c : Contact)
    → bytes_eq c.id q ≡ false
    → find_contact q (cs ++ (c ∷ [])) ≡ find_contact q cs
unfolding find_contact
find_contact-append_other [] q c h = ground arith
find_contact-append_other (d ∷ ds) q c h = ground (arith, find_contact-append_other ds q c h)

pub DistinctIds-append :
    (cs : List Contact) (c : Contact)
    → find_contact c.id cs ≡ none
    → DistinctIds cs
    → DistinctIds (cs ++ (c ∷ []))
unfolding find_contact
DistinctIds-append [] c h d = (refl, tt)
DistinctIds-append (e ∷ es) c h (fresh, d) = (
  ground (arith, find_contact-append es e.id c fresh, bytes_eq_sym c.id e.id),
  DistinctIds-append es c (ground arith) d,
)

pub find_contact-remove_other :
    (cs : List Contact) (id q : Bytes)
    → bytes_eq id q ≡ false
    → find_contact q (remove_contact id cs) ≡ find_contact q cs
unfolding find_contact remove_contact
find_contact-remove_other [] id q h = refl
find_contact-remove_other (c ∷ cs) id q h =
    ground (arith, find_contact-remove_other cs id q h, bytes_eq→eq c.id id)

pub find_contact-remove_none :
    (cs : List Contact) (id q : Bytes)
    → find_contact q cs ≡ none
    → find_contact q (remove_contact id cs) ≡ none
unfolding find_contact remove_contact
find_contact-remove_none [] id q h = refl
find_contact-remove_none (c ∷ cs) id q h = ground (arith, find_contact-remove_none cs id q)

pub find_contact-remove_self :
    (cs : List Contact) (id : Bytes)
    → DistinctIds cs
    → find_contact id (remove_contact id cs) ≡ none
unfolding find_contact remove_contact
find_contact-remove_self [] id d = refl
find_contact-remove_self (c ∷ cs) id (fresh, d) =
    ground (arith, find_contact-remove_self cs id d, bytes_eq→eq c.id id, fresh)

pub DistinctIds-remove :
    (cs : List Contact) (id : Bytes) → DistinctIds cs → DistinctIds (remove_contact id cs)
unfolding remove_contact
DistinctIds-remove [] id d = tt
DistinctIds-remove (c ∷ cs) id (fresh, d) =
    ground (arith, DistinctIds-remove cs id d, find_contact-remove_none cs id c.id fresh)

pub length-remove_contact :
    (cs : List Contact) (id : Bytes) (e : Contact)
    → find_contact id cs ≡ some e
    → length (remove_contact id cs) + 1 ≡ length cs
unfolding find_contact remove_contact
length-remove_contact [] id e h = cc
length-remove_contact (c ∷ cs) id e h = ground (arith, length-remove_contact cs id e)

pub find_contact-eq_some :
    (cs : List Contact) (id : Bytes) (e : Contact) → find_contact id cs ≡ some e → e.id ≡ id
unfolding find_contact
find_contact-eq_some [] id e h = cc
find_contact-eq_some (c ∷ cs) id e h =
    ground (arith, find_contact-eq_some cs id e, bytes_eq→eq c.id id)

module _ (P : Contact → Type 0) where
  pub All-remove_contact :
      (cs : List Contact) (id : Bytes) → All P cs → All P (remove_contact id cs)
  unfolding remove_contact
  All-remove_contact [] id a = tt
  All-remove_contact (c ∷ cs) id (p, ps) = ground (arith, All-remove_contact cs id ps)

  pub All-append : (cs : List Contact) (c : Contact) → All P cs → P c → All P (cs ++ (c ∷ []))
  All-append [] c a p = (p, tt)
  All-append (d ∷ ds) c (q, qs) p = (q, All-append ds c qs p)

  pub All-evict : (cs : List Contact) → All P cs → All P (evict_first cs)
  All-evict [] a = tt
  All-evict (c ∷ cs) (p, ps) = ps

pub find_contact-evict :
    (cs : List Contact) (id : Bytes)
    → find_contact id cs ≡ none
    → find_contact id (evict_first cs) ≡ none
unfolding find_contact
find_contact-evict [] id h = h
find_contact-evict (c ∷ cs) id h = ground arith

pub DistinctIds-evict : (cs : List Contact) → DistinctIds cs → DistinctIds (evict_first cs)
DistinctIds-evict [] d = tt
DistinctIds-evict (c ∷ cs) (fresh, d) = d

pub length-evict : (cs : List Contact) → 0 < length cs → length (evict_first cs) + 1 ≡ length cs
length-evict [] h = absurd (omega arith)
length-evict (c ∷ cs) h = omega arith
