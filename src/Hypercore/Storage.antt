-- ===== src/Hypercore/Storage.antt =====
-- pkg/hypercore/storage.go: blocks in data.log, their offsets and lengths in index.log.
-- Both files are written at their end: NewStorage seeks data.log to its end and has read index.log up
-- to it. What a write does is given with the call: it is complete, or it fails after `n` bytes. Errors
-- of opening, of stat and of reading the index end NewStorage before there is a storage; they, and
-- Close, are not modelled. The mutex makes each method one step.
pub mod Refinement
pub mod Faults
use keet_agent.Prelude.{
  ℕ, zero, suc, ◌+◌, ◌*◌, ◌%◌, ◌^◌, Bool, true, false, ◌||◌, List, [], ◌∷◌, ◌++◌, length, take,
  drop, slice, get_elem?, Option, none, some, ltb, leb, ◌==◌, if◌then◌else◌,
}
use keet_agent.Prelude.Result.{Result, ok, err, panic}
use keet_agent.Bytes.{Bytes, put_uint, get_uint}

pub record IndexEntry : Type 0 where
  pub offset : ℕ
  pub length : ℕ

pub record Storage : Type 0 where
  pub data_log : Bytes
  pub index_log : Bytes
  pub entries : List IndexEntry
  pub data_size : ℕ

pub data StorageError : Type 0 where
  write_data_failed write_index_failed index_out_of_bounds read_data_failed : StorageError

pub data WriteOutcome : Type 0 where
  complete : WriteOutcome
  short : ℕ → WriteOutcome

-- The file after a write at its end.
pub write_file : Bytes → Bytes → WriteOutcome → Bytes
write_file f b complete = f ++ b
write_file f b (short n) = f ++ take n b

abbrev pub encode_entry : IndexEntry → Bytes
encode_entry e = put_uint 8 e.offset ++ put_uint 8 e.length

-- The loop of NewStorage over index.log; it stops where fewer than 16 bytes are left. A round takes 16
-- bytes, so a number of rounds that is the file's length is enough.
pub read_index : ℕ → Bytes → List IndexEntry
read_index zero f = []
read_index (suc fuel) f =
    let rest = read_index fuel (drop 16 f) in
    if ltb (length f) 16
    then []
    else record { offset = get_uint 0 (slice f 0 8); length = get_uint 0 (slice f 8 16) } ∷ rest

pub new_storage : Bytes → Bytes → Storage
new_storage data_log index_log = record {
  data_log = data_log;
  index_log = index_log;
  entries = read_index (length index_log) index_log;
  data_size = length data_log;
}

-- The index write of Append, behind a complete data write.
pub append_index : Storage → IndexEntry → WriteOutcome → Storage × Result StorageError (Unit {0})
append_index s e complete = (
  record s {
    index_log = write_file s.index_log (encode_entry e) complete;
    entries = s.entries ++ (e ∷ []);
  },
  ok tt,
)
append_index s e (short n) = (
  record s { index_log = write_file s.index_log (encode_entry e) (short n) },
  err write_index_failed,
)

-- When the data write fails, dataSize stays as it was though bytes may have reached the file.
pub append :
    Storage → Bytes → WriteOutcome → WriteOutcome → Storage × Result StorageError (Unit {0})
append s block complete index_write =
    append_index
      (record s {
        data_log = write_file s.data_log block complete;
        data_size = s.data_size + length block;
      })
      (record { offset = s.data_size; length = length block }) index_write
append s block (short n) index_write =
    (record s { data_log = write_file s.data_log block (short n) }, err write_data_failed)

-- ReadAt returns an error unless the whole buffer is filled. The making of the buffer, which panics for a
-- length that no memory holds, as a corrupt entry may have, is left out: Append writes the length of a block.
pub read_at : Bytes → IndexEntry → Result StorageError Bytes
read_at f e =
    if leb (e.offset + e.length) (length f) || e.length == 0
    then ok (slice f e.offset (e.offset + e.length))
    else err read_data_failed

-- if index >= uint64(len(s.entries)), and the read behind it.
pub read_entry : Bytes → Option IndexEntry → Result StorageError Bytes
read_entry f none = err index_out_of_bounds
read_entry f (some e) = read_at f e

pub get : Storage → ℕ → Result StorageError Bytes
unfolding read_entry
get s index = read_entry s.data_log (get_elem? s.entries index)

unfoldable pub len : Storage → ℕ
len s = length s.entries
