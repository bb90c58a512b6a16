-- ===== src/Hypercore/Storage/Faults.antt =====
-- Append and Get (pkg/hypercore/storage.go) after a write that failed part-way.
use keet_agent.Prelude.{
  ℕ, ◌+◌, ◌-◌, List, [], ◌∷◌, ◌++◌, length, take, get_elem?, some, ◌≡◌, refl, arith, append_assoc,
  length-append, drop-append,
}
use keet_agent.Prelude.Result.{ok}
use keet_agent.Bytes.{Bytes}
use keet_agent.Hypercore.Storage.{
  complete, short, write_file, append_index, append, read_at, read_entry, get,
}
use keet_agent.Hypercore.Storage.Refinement.{concat, layout, holding, length-layout}

get_elem?-last :
    {A : Type 0} (xs : List A) (x : A) → get_elem? (xs ++ (x ∷ [])) (length xs) ≡ some x
get_elem?-last [] x = refl
get_elem?-last (y ∷ xs) x = get_elem?-last xs x

read_behind :
    (pre x rest : Bytes) (n : ℕ)
    → length (x ++ rest) ≡ length x + length rest
    → n ≡ length rest
    → read_at (pre ++ (x ++ rest)) (record { offset = length pre; length = n })
      ≡ ok (take n (x ++ rest))
unfolding read_at
read_behind pre x rest n e h =
    let width : length pre + n - length pre ≡ n = omega arith in
    rw (width, drop-append pre (x ++ rest)) (ground (arith, length-append pre (x ++ rest)))

-- After a data write that failed with `n` of its bytes in the file, the next block is stored behind
-- those bytes but indexed in front of them: Append reports success, and Get returns as many bytes
-- as the block has, the first of them from the write that failed.
pub get-append-short :
    (bs : List Bytes) (b b' : Bytes) (n : ℕ)
    → let s = (append (holding bs) b (short n) complete).0 in
      let t = append s b' complete complete in
      (t.1 ≡ ok tt) × (get t.0 (length bs) ≡ ok (take (length b') (take n b ++ b')))
unfolding append append_index get write_file
get-append-short bs b b' n = (
  refl,
  rw (← length-layout 0 bs) (
      rw
        (
          get_elem?-last (layout 0 bs) (record { offset = length (concat bs); length = length b' }),
          append_assoc (concat bs) (take n b) b',
        )
        (unfold read_entry in
          read_behind (concat bs) (take n b) b' (length b') (length-append (take n b) b') refl)),
)
