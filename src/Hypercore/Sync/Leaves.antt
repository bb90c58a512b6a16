-- ===== src/Hypercore/Sync/Leaves.antt =====
-- The leaves that the session reads from a storage (pkg/hypercore/sync.go).
use keet_agent.Prelude.{
  ℕ, ◌+◌, List, [], ◌∷◌, ◌++◌, length, ◌≡◌, refl, sym, ap, ap₂, ◌∙◌, append_assoc, append-nil,
  length-append,
}
use keet_agent.Prelude.Result.{ok}
use keet_agent.Bytes.{Bytes}
use keet_agent.Hypercore.Storage.{get, len}
use keet_agent.Hypercore.Storage.Refinement.{holding, block_at, get-holding, length-layout}
use keet_agent.Hypercore.Sync.{read_leaves, read_leaves_or_nil}

pub block_at-append :
    (pre : List Bytes) (b : Bytes) (rest : List Bytes)
    → block_at (pre ++ (b ∷ rest)) (length pre) ≡ ok b
block_at-append [] b rest = refl
block_at-append (p ∷ pre) b rest = block_at-append pre b rest

pub get-middle :
    (pre : List Bytes) (b : Bytes) (rest : List Bytes)
    → get (holding (pre ++ (b ∷ rest))) (length pre) ≡ ok b
get-middle pre b rest = get-holding (pre ++ (b ∷ rest)) (length pre) ∙ block_at-append pre b rest

pub len-holding : (bs : List Bytes) → len (holding bs) ≡ length bs
unfolding len
len-holding bs = length-layout 0 bs

-- The next index, with the block moved to the front part.
shift : (pre : List Bytes) (b : Bytes) → length (pre ++ (b ∷ [])) ≡ length pre + 1
shift pre b = length-append pre (b ∷ [])

read_leaves-middle :
    (pre bs rest : List Bytes)
    → read_leaves (holding (pre ++ (bs ++ rest))) (length bs) (length pre) ≡ ok bs
unfolding read_leaves
read_leaves-middle pre [] rest = refl
read_leaves-middle pre (b ∷ bs) rest =
    let next : read_leaves (holding (pre ++ (b ∷ (bs ++ rest)))) (length bs) (length pre + 1)
        ≡ ok bs =
      ap₂ (λ (x : List Bytes) (i : ℕ). read_leaves (holding x) (length bs) i)
        (sym (append_assoc pre (b ∷ []) (bs ++ rest))) (sym (shift pre b))
      ∙ read_leaves-middle (pre ++ (b ∷ [])) bs rest in
    rw (get-middle pre b (bs ++ rest), next) refl

read_leaves_or_nil-middle :
    (pre bs rest : List Bytes)
    → read_leaves_or_nil (holding (pre ++ (bs ++ rest))) (length bs) (length pre) ≡ bs
unfolding read_leaves_or_nil
read_leaves_or_nil-middle pre [] rest = refl
read_leaves_or_nil-middle pre (b ∷ bs) rest =
    let next : read_leaves_or_nil (holding (pre ++ (b ∷ (bs ++ rest)))) (length bs) (length pre + 1)
        ≡ bs =
      ap₂ (λ (x : List Bytes) (i : ℕ). read_leaves_or_nil (holding x) (length bs) i)
        (sym (append_assoc pre (b ∷ []) (bs ++ rest))) (sym (shift pre b))
      ∙ read_leaves_or_nil-middle (pre ++ (b ∷ [])) bs rest in
    rw (get-middle pre b (bs ++ rest), next) refl

-- All blocks, and the blocks up to one of them.
pub read_leaves-holding : (bs : List Bytes) → read_leaves (holding bs) (length bs) 0 ≡ ok bs
read_leaves-holding bs =
    ap (λ (x : List Bytes). read_leaves (holding x) (length bs) 0) (sym (append-nil bs))
    ∙ read_leaves-middle [] bs []

pub read_leaves_or_nil-holding :
    (bs rest : List Bytes) → read_leaves_or_nil (holding (bs ++ rest)) (length bs) 0 ≡ bs
read_leaves_or_nil-holding bs rest = read_leaves_or_nil-middle [] bs rest
