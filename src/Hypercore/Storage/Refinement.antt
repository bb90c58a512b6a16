-- ===== src/Hypercore/Storage/Refinement.antt =====
-- The storage of pkg/hypercore/storage.go and its abstract view, the list of the blocks.
use keet_agent.Prelude.{
  ℕ, zero, suc, ◌+◌, ◌-◌, ◌^◌, ◌≤◌, ◌<◌, List, [], ◌∷◌, ◌++◌, take, length, get_elem?, ◌≡◌, refl,
  sym, ap, ◌∙◌, arith, append_assoc, append-nil, length-append, take-append, drop-append,
}
use keet_agent.Prelude.Result.{Result, ok, err}
use keet_agent.Bytes.{Bytes}
use keet_agent.Bytes.Laws.{get_uint-put_uint}
use native.Mathlib.Nat.{zero-add}
use keet_agent.Hypercore.Storage.{
  IndexEntry, Storage, StorageError, index_out_of_bounds, write_data_failed, write_index_failed,
  WriteOutcome, complete, short, write_file, encode_entry, read_index, new_storage, append_index,
  append, read_at, read_entry, get, len,
}

abbrev pub concat : List Bytes → Bytes
concat [] = []
concat (b ∷ bs) = b ++ concat bs

-- The entries of blocks that are laid out one behind the other from `offset` on.
abbrev pub layout : ℕ → List Bytes → List IndexEntry
layout offset [] = []
layout offset (b ∷ bs) =
    record { offset = offset; length = length b } ∷ layout (offset + length b) bs

abbrev pub encode_entries : List IndexEntry → Bytes
encode_entries [] = []
encode_entries (e ∷ es) = encode_entry e ++ encode_entries es

-- The storage of a list of blocks: the abstraction of the refinement.
abbrev pub holding : List Bytes → Storage
holding bs = record {
  data_log = concat bs;
  index_log = encode_entries (layout 0 bs);
  entries = layout 0 bs;
  data_size = length (concat bs);
}

concat-append : (bs : List Bytes) (b : Bytes) → concat (bs ++ (b ∷ [])) ≡ concat bs ++ b
concat-append [] b = append-nil b
concat-append (x ∷ bs) b = ap (◌++◌ x) (concat-append bs b) ∙ sym (append_assoc x (concat bs) b)

layout-append :
    (o : ℕ) (bs : List Bytes) (b : Bytes)
    → layout o (bs ++ (b ∷ []))
      ≡ layout o bs ++ (record { offset = o + length (concat bs); length = length b } ∷ [])
layout-append o [] b = ap (λ (n : ℕ). record { offset = n; length = length b } ∷ []) (omega arith)
layout-append o (x ∷ bs) b = ap (◌∷◌ (record { offset = o; length = length x })) (
    layout-append (o + length x) bs b
    ∙ ap (λ (n : ℕ). layout (o + length x) bs ++ (record { offset = n; length = length b } ∷ []))
        (omega (arith, length-append x (concat bs))))

encode_entries-append :
    (es : List IndexEntry) (e : IndexEntry)
    → encode_entries (es ++ (e ∷ [])) ≡ encode_entries es ++ encode_entry e
encode_entries-append [] e = append-nil (encode_entry e)
encode_entries-append (x ∷ es) e =
    ap (◌++◌ (encode_entry x)) (encode_entries-append es e)
    ∙ sym (append_assoc (encode_entry x) (encode_entries es) (encode_entry e))

-- Append, where both writes are complete, adds the block at the end of the list.
pub append-holding :
    (bs : List Bytes) (b : Bytes)
    → append (holding bs) b complete complete ≡ (holding (bs ++ (b ∷ [])), ok tt)
unfolding append append_index write_file
append-holding bs b =
    rw
      (
        concat-append bs b,
        layout-append 0 bs b,
        encode_entries-append (layout 0 bs)
            (record { offset = 0 + length (concat bs); length = length b }),
        length-append (concat bs) b,
        zero-add,
      )
      refl

-- What an index finds in a list of blocks.
abbrev pub block_at : List Bytes → ℕ → Result StorageError Bytes
block_at [] i = err index_out_of_bounds
block_at (b ∷ bs) zero = ok b
block_at (b ∷ bs) (suc i) = block_at bs i

read_at-append :
    (pre b rest : Bytes)
    → read_at (pre ++ (b ++ rest)) (record { offset = length pre; length = length b }) ≡ ok b
unfolding read_at
read_at-append pre b rest =
    let width : length pre + length b - length pre ≡ length b = omega arith in
    rw (width, drop-append pre (b ++ rest), take-append b rest)
      (ground (arith, length-append pre (b ++ rest), length-append b rest))

read_entry-layout :
    (pre : Bytes) (bs : List Bytes) (junk : Bytes) (i : ℕ)
    → read_entry (pre ++ (concat bs ++ junk)) (get_elem? (layout (length pre) bs) i) ≡ block_at bs i
unfolding read_entry
read_entry-layout pre [] junk i = refl
read_entry-layout pre (b ∷ bs) junk zero =
    rw (append_assoc b (concat bs) junk) (read_at-append pre b (concat bs ++ junk))
read_entry-layout pre (b ∷ bs) junk (suc i) =
    rw
      (
        append_assoc b (concat bs) junk,
        ← append_assoc pre b (concat bs ++ junk),
        ← length-append pre b,
      )
      (read_entry-layout (pre ++ b) bs junk i)

-- Get does not see bytes behind the blocks of data.log, or anything of index.log and of the size.
get-junk :
    (bs : List Bytes) (junk index_log : Bytes) (size i : ℕ)
    → get
        (record {
          data_log = concat bs ++ junk;
          index_log = index_log;
          entries = layout 0 bs;
          data_size = size;
        })
        i
      ≡ block_at bs i
unfolding get
get-junk bs junk index_log size i = read_entry-layout [] bs junk i

-- Get returns the block of its index, and an error past the last one.
pub get-holding : (bs : List Bytes) (i : ℕ) → get (holding bs) i ≡ block_at bs i
unfolding get
get-holding bs i =
    ap (λ (f : Bytes). read_entry f (get_elem? (layout 0 bs) i)) (sym (append-nil (concat bs)))
    ∙ read_entry-layout [] bs [] i

-- A failed write of Append is an error and leaves every block readable as before.
pub append-short_data :
    (bs : List Bytes) (b : Bytes) (n : ℕ) (w : WriteOutcome)
    → (s : Storage) × (append (holding bs) b (short n) w ≡ (s, err write_data_failed))
      × ((i : ℕ) → get s i ≡ block_at bs i)
unfolding append write_file
append-short_data bs b n w = (
  record (holding bs) { data_log = concat bs ++ take n b },
  refl,
  λ i. get-junk bs (take n b) (holding bs).index_log (length (concat bs)) i,
)

pub append-short_index :
    (bs : List Bytes) (b : Bytes) (n : ℕ)
    → (s : Storage) × (append (holding bs) b complete (short n) ≡ (s, err write_index_failed))
      × ((i : ℕ) → get s i ≡ block_at bs i)
unfolding append append_index write_file
append-short_index bs b n =
    let s = (append (holding bs) b complete (short n)).0 in
    (s, refl, λ i. get-junk bs b s.index_log s.data_size i)

pub length-layout : (o : ℕ) (bs : List Bytes) → length (layout o bs) ≡ length bs
length-layout o [] = refl
length-layout o (b ∷ bs) = ap suc (length-layout (o + length b) bs)

-- An index log that is read back: every number fits its 8 bytes.
read_index-layout :
    (bs : List Bytes) (o fuel : ℕ)
    → o + length (concat bs) < 2 ^ 64
    → length (encode_entries (layout o bs)) ≤ fuel
    → read_index fuel (encode_entries (layout o bs)) ≡ layout o bs
unfolding read_index
read_index-layout [] o zero h enough = refl
read_index-layout [] o (suc fuel) h enough = refl
read_index-layout (b ∷ bs) o zero h enough = absurd (omega arith)
read_index-layout (b ∷ bs) o (suc fuel) h enough =
    let h' : o + length b + length (concat bs) < 2 ^ 64 =
      omega (arith, length-append b (concat bs)) in
    ground (
      arith,
      get_uint-put_uint 8 o (omega arith),
      get_uint-put_uint 8 (length b) (omega arith),
      read_index-layout bs (o + length b) fuel h' (omega arith),
    )

-- Opening the files of a storage again gives the storage, as long as the data fits 64-bit offsets.
new_storage-holding :
    (bs : List Bytes)
    → length (concat bs) < 2 ^ 63
    → new_storage (holding bs).data_log (holding bs).index_log ≡ holding bs
unfolding new_storage
new_storage-holding bs h =
    rw (read_index-layout bs 0 (length (encode_entries (layout 0 bs))) (omega arith) (omega arith))
      refl

-- Appends one after the other, each with complete writes.
pub append_all : Storage → List Bytes → Storage
append_all s [] = s
append_all s (b ∷ bs) = append_all (append s b complete complete).0 bs

append_all-holding : (bs more : List Bytes) → append_all (holding bs) more ≡ holding (bs ++ more)
unfolding append_all
append_all-holding bs [] = rw (append-nil bs) refl
append_all-holding bs (b ∷ more) =
    rw (append-holding bs b)
      (append_all-holding (bs ++ (b ∷ [])) more ∙ ap holding (append_assoc bs (b ∷ []) more))

-- The contract of a storage: blocks that were appended to an empty directory, the last of them
-- before the files are closed and opened again, are found under their numbers and nothing else is.
pub get-reopened :
    (bs : List Bytes) (i : ℕ)
    → length (concat bs) < 2 ^ 63
    → let s = append_all (new_storage [] []) bs in
      (get (new_storage s.data_log s.index_log) i ≡ block_at bs i)
      × (len (new_storage s.data_log s.index_log) ≡ length bs)
unfolding len
get-reopened bs i h =
    let start : new_storage [] [] ≡ holding [] = unfold new_storage read_index in refl in
    rw (start, append_all-holding [] bs)
      (rw (new_storage-holding bs h) (get-holding bs i, length-layout 0 bs))
