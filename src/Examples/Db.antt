-- ===== src/Examples/Db.antt =====
-- Examples for pkg/db: a database in memory that meets what bbolt documents.
use keet_agent.Prelude.{
  Bool, true, false, ◌&&◌, ◌||◌, List, [], ◌∷◌, ◌++◌, Option, none, some, bytes_eq, bytes_eq→eq,
  bytes_eq_refl, bytes_eq_sym, contains, if◌then◌else◌, ◌≡◌, ◌≢◌, refl, subst, arith, Bool-cases,
  inl, inr,
}
use keet_agent.Prelude.Result.{Result, ok, err, panic}
use mathlib.Core.Option.{some-injective}
use keet_agent.Bytes.{Bytes}
use keet_agent.Db.Repository.{DbError}
use keet_agent.Db.Bolt.{
  Bbolt, IsBbolt, swarms_bucket, blocks_bucket, register_swarm, unregister_swarm, put_block,
  get_active_swarms,
}
use keet_agent.Db.Bolt.Blocks.{Stored, get_block-put_block}
use keet_agent.Db.Bolt.Swarms.{
  SwarmCall, register, unregister, run_calls, is_active, get_active_swarms-run_calls,
}

unfoldable pub paths_eq : List Bytes → List Bytes → Bool
paths_eq [] [] = true
paths_eq [] (y ∷ ys) = false
paths_eq (x ∷ xs) [] = false
paths_eq (x ∷ xs) (y ∷ ys) = bytes_eq x y && paths_eq xs ys

paths_eq→eq : (p q : List Bytes) → paths_eq p q ≡ true → p ≡ q
unfolding paths_eq
paths_eq→eq [] [] h = refl
paths_eq→eq [] (y ∷ ys) h = cc
paths_eq→eq (x ∷ xs) [] h = cc
paths_eq→eq (x ∷ xs) (y ∷ ys) h = ground (arith, paths_eq→eq xs ys, bytes_eq→eq x y)

paths_eq_refl : (p : List Bytes) → paths_eq p p ≡ true
unfolding paths_eq
paths_eq_refl [] = refl
paths_eq_refl (x ∷ xs) = ground (arith, bytes_eq_refl x, paths_eq_refl xs)

paths_eq-apart : (q p : List Bytes) → q ≢ p → paths_eq q p ≡ false
paths_eq-apart q p apart = elim (Bool-cases (paths_eq q p)) [
  | inl same ↦ absurd (apart (paths_eq→eq q p same))
  | inr other ↦ other
]

-- A bucket as an association list.
abbrev pub Cells : Type 0
Cells = List (Bytes × Bytes)

pub find : Cells → Bytes → Option Bytes
find [] j = none
find ((k, v) ∷ cs) j = if bytes_eq j k then some v else find cs j

unfoldable pub remove : Bytes → Cells → Cells
remove k [] = []
remove k ((l, v) ∷ cs) = let rest = remove k cs in if bytes_eq l k then rest else (l, v) ∷ rest

unfoldable pub names : Cells → List Bytes
names [] = []
names ((k, v) ∷ cs) = k ∷ names cs

contains-remove :
    (k j : Bytes) (cs : Cells)
    → contains (names (remove k cs)) j ≡ (if bytes_eq j k then false else contains (names cs) j)
unfolding names remove contains
contains-remove k j [] = ground arith
contains-remove k j ((l, v) ∷ cs) = ground (
  arith,
  contains-remove k j cs,
  bytes_eq→eq l k,
  bytes_eq→eq l j,
  bytes_eq→eq j k,
  bytes_eq_sym l j,
  bytes_eq_refl k,
  bytes_eq_refl l,
)

pub record Memory : Type 0 where
  pub there : List Bytes → Bool
  pub cells : List Bytes → Cells

abbrev pub write_cells : Memory → List Bytes → Cells → Memory
write_cells d p c = record d { cells = λ q. if paths_eq q p then c else d.cells q }

abbrev pub memory : Bbolt Memory
memory = record {
  has_bucket = λ d p. d.there p;
  create_bucket = λ d p n.
      some (record d { there = λ q. if paths_eq q (p ++ (n ∷ [])) then true else d.there q });
  get = λ d p k. find (d.cells p) k;
  put = λ d p k v. some (write_cells d p ((k, v) ∷ remove k (d.cells p)));
  delete = λ d p k. some (write_cells d p (remove k (d.cells p)));
  keys = λ d p. names (d.cells p);
}

find-remove : (k j : Bytes) (cs : Cells) → bytes_eq j k ≡ false → find (remove k cs) j ≡ find cs j
unfolding find remove
find-remove k j [] n = refl
find-remove k j ((l, v) ∷ cs) n =
    ground (arith, find-remove k j cs, bytes_eq→eq j l, bytes_eq→eq l k, bytes_eq_refl l)

-- The state behind a call that succeeds.
after : (P : Memory → Type 0) (d d' : Memory) → some d ≡ some d' → P d → P d'
after P d d' e h = subst P (some-injective d d' e) h

cells_self : (d : Memory) (p : List Bytes) (c : Cells) → (write_cells d p c).cells p ≡ c
cells_self d p c = rw (paths_eq_refl p) refl

cells_other :
    (d : Memory) (p q : List Bytes) (c : Cells) → q ≢ p → (write_cells d p c).cells q ≡ d.cells q
cells_other d p q c apart = rw (paths_eq-apart q p apart) refl

pub memory-IsBbolt : IsBbolt memory
unfolding find names contains
memory-IsBbolt = record {
  get-put = λ d d' p k v j e.
      after (λ x. find (x.cells p) j ≡ (if bytes_eq j k then some v else find (d.cells p) j))
        (write_cells d p ((k, v) ∷ remove k (d.cells p))) d' e
        (rw (cells_self d p ((k, v) ∷ remove k (d.cells p)))
          (ground (arith, find-remove k j (d.cells p))));
  get-put_other = λ d d' p q k v j e apart.
      after (λ x. find (x.cells q) j ≡ find (d.cells q) j)
        (write_cells d p ((k, v) ∷ remove k (d.cells p))) d' e
        (rw (cells_other d p q ((k, v) ∷ remove k (d.cells p)) apart) refl);
  has_bucket-put = λ d d' p q k v e.
      after (λ x. x.there q ≡ d.there q) (write_cells d p ((k, v) ∷ remove k (d.cells p))) d' e
        refl;
  get-create_bucket = λ d d' p q n j e.
      after (λ x. find (x.cells q) j ≡ find (d.cells q) j)
        (record d { there = λ s. if paths_eq s (p ++ (n ∷ [])) then true else d.there s }) d' e
        refl;
  has_bucket-create_bucket = λ d d' p n e.
      after (λ x. x.there (p ++ (n ∷ [])) ≡ true)
        (record d { there = λ s. if paths_eq s (p ++ (n ∷ [])) then true else d.there s }) d' e
        (rw (paths_eq_refl (p ++ (n ∷ []))) refl);
  has_bucket-create_other = λ d d' p q n e apart.
      after (λ x. x.there q ≡ d.there q)
        (record d { there = λ s. if paths_eq s (p ++ (n ∷ [])) then true else d.there s }) d' e
        (rw (paths_eq-apart q (p ++ (n ∷ [])) apart) refl);
  keys-put = λ d d' p k v j e.
      after
        (λ x.
          contains (names (x.cells p)) j
          ≡ (if bytes_eq j k then true else contains (names (d.cells p)) j))
        (write_cells d p ((k, v) ∷ remove k (d.cells p))) d' e
        (rw (cells_self d p ((k, v) ∷ remove k (d.cells p)))
          (ground (arith, contains-remove k j (d.cells p), bytes_eq_sym k j)));
  keys-delete = λ d d' p k j e.
      after
        (λ x.
          contains (names (x.cells p)) j
          ≡ (if bytes_eq j k then false else contains (names (d.cells p)) j))
        (write_cells d p (remove k (d.cells p))) d' e
        (rw (cells_self d p (remove k (d.cells p))) (contains-remove k j (d.cells p)));
  has_bucket-delete = λ d d' p q k e.
      after (λ x. x.there q ≡ d.there q) (write_cells d p (remove k (d.cells p))) d' e refl;
}

-- A database with its two buckets.
abbrev pub opened : Memory
opened = record {
  there = λ q. paths_eq q (swarms_bucket ∷ []) || paths_eq q (blocks_bucket ∷ []);
  cells = λ _. [];
}

unfoldable pub or_same : Memory → Result DbError Memory → Memory
or_same d (ok d') = d'
or_same d (err e) = d
or_same d panic = d

abbrev with_block : Memory
with_block = or_same opened (put_block memory opened (7 ∷ []) 3 (1 ∷ 2 ∷ []) (9 ∷ []))

get_block-put_block_example :
    Stored memory memory-IsBbolt opened with_block (7 ∷ []) 3 (1 ∷ 2 ∷ []) (9 ∷ [])
unfolding put_block or_same paths_eq bytes_eq
get_block-put_block_example =
    get_block-put_block memory memory-IsBbolt opened with_block (7 ∷ []) 3 (1 ∷ 2 ∷ []) (9 ∷ [])
      (omega arith) (omega arith) (omega arith) refl

-- Two swarms are registered, and one is left again.
abbrev calls : List SwarmCall
calls = register (5 ∷ []) (1 ∷ []) ∷ register (6 ∷ []) (2 ∷ []) ∷ unregister (5 ∷ []) ∷ []

abbrev with_swarms : Memory
with_swarms = or_same opened (run_calls memory opened calls)

get_active_swarms-run_calls_example :
    contains ((6 ∷ []) ∷ []) (5 ∷ []) ≡ is_active (5 ∷ []) (contains [] (5 ∷ [])) calls
unfolding run_calls register_swarm unregister_swarm get_active_swarms or_same paths_eq names remove
    bytes_eq
get_active_swarms-run_calls_example =
    get_active_swarms-run_calls memory memory-IsBbolt opened with_swarms calls [] ((6 ∷ []) ∷ [])
      (5 ∷ []) refl refl refl
