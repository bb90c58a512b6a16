-- ===== src/Hypercore/Sync.antt =====
-- pkg/hypercore/sync.go: the replication of a feed with one peer, and pkg/hypercore/crypto.go.
-- The Ed25519 keys, the hash function, zlib and the database are parameters. A session returns the frames
-- that it writes; the connection may refuse to take them all, and a write of the storage may fail: both
-- are given with each frame that is read. The list of the frames that are read ends with io.EOF. Logging,
-- the deadlines and the context are left out. A failing PutBlock is only logged by the source.
pub mod Frames
pub mod Opening
pub mod Leaves
pub mod Authentic
pub mod Prefix
pub mod Replication
use keet_agent.Prelude.{
  ℕ, zero, suc, ◌+◌, ◌-◌, ◌%◌, ◌^◌, min, Bool, true, false, ◌||◌, List, [], ◌∷◌, ◌++◌, length, take,
  replicate, Option, none, some, ltb, ◌==◌, if◌then◌else◌, bytes_eq, not,
}
use keet_agent.Prelude.Result.{Result, ok, err, panic, ◌>>=◌}
use keet_agent.Bytes.{Bytes, put_uint, ReadError, read_full, read_uint}
use keet_agent.Hypercore.Wire.{
  Handshake, Have, Want, Request, Data, WireError, max_message_size, encode_handshake,
  decode_handshake, encode_have, decode_have, encode_want, decode_want, encode_request,
  decode_request, encode_data, decode_data,
}
use keet_agent.Hypercore.Storage.{Storage, StorageError, WriteOutcome, append, get, len}
use keet_agent.Hypercore.Merkle.{MerkleError, compute_root_hash}
use keet_agent.Hypercore.Extension.{has_extension, negotiate_extensions}

-- What the session uses and does not implement: BLAKE2b, VerifySignature with the remote key, SignRootHash
-- with the local key, zlib, and GetBlock of the repository for the feed, if there is a repository.
pub record Services : Type 0 where
  pub sum256 : Bytes → Bytes
  pub verify : Bytes → Bytes → Bool
  pub sign : Bytes → Bytes
  pub compress : Bytes → Option Bytes
  pub decompress : Bytes → Option Bytes
  pub get_block : Option (ℕ → Option (Bytes × Bytes))

-- A block that was appended, as PutBlock and OnAppendBlock are called with it.
pub record Appended : Type 0 where
  pub index : ℕ
  pub value : Bytes
  pub signature : Bytes

pub record SyncSession : Type 0 where
  pub storage : Storage
  pub feed_key : Bytes
  pub deflate_active : Bool
  pub appended : List Appended

pub data SyncError : Type 0 where
  decoding : WireError → SyncError
  local_block : StorageError → SyncError
  root_hash : MerkleError → SyncError
  append_failed : StorageError → SyncError
  decompress_failed verification_failed write_failed unsupported_protocol frame_too_large :
      SyncError
  read_failed : ReadError → SyncError

abbrev pub map_err {ℓ} :
    {A : Type ℓ} {E : Type 0} → (E → SyncError) → Result E A → Result SyncError A
map_err f (ok a) = ok a
map_err f (err e) = err (f e)
map_err f panic = panic

-- writeFrame and readFrame on the bytes of the connection.
pub write_frame : Bytes → Bytes
write_frame payload = put_uint 4 (length payload % 2 ^ 32) ++ payload

pub read_frame : Bytes → Result SyncError (Bytes × Bytes)
read_frame r = do
  (n, r') ← map_err read_failed (read_uint 4 r)
  if ltb max_message_size n then err frame_too_large else map_err read_failed (read_full n r')

-- "hypercore/v10" and "deflate"
abbrev pub protocol_name : Bytes
protocol_name = 104 ∷ 121 ∷ 112 ∷ 101 ∷ 114 ∷ 99 ∷ 111 ∷ 114 ∷ 101 ∷ 47 ∷ 118 ∷ 49 ∷ 48 ∷ []

abbrev pub deflate : Bytes
deflate = 100 ∷ 101 ∷ 102 ∷ 108 ∷ 97 ∷ 116 ∷ 101 ∷ []

abbrev pub local_handshake : SyncSession → Handshake
local_handshake s = record { protocol = protocol_name; key = s.feed_key; extensions = deflate ∷ [] }

-- Run, once the other side's handshake is read: the session goes on with the negotiated extensions.
abbrev pub agree : SyncSession → Handshake → Result SyncError SyncSession
agree s remote =
    if bytes_eq remote.protocol protocol_name
    then ok (record s {
      deflate_active =
          s.deflate_active
          || has_extension (negotiate_extensions (deflate ∷ []) remote.extensions) deflate;
    })
    else err unsupported_protocol

pub accept_handshake : SyncSession → Bytes → Result SyncError SyncSession
accept_handshake s frame = map_err decoding (decode_handshake frame) >>= agree s

-- What Run writes behind the handshake, and NotifyHave.
pub notify_have : ℕ → Bytes
notify_have n = encode_have (record { start = 0; len = n })

opening_frames : SyncSession → List Bytes
opening_frames s =
    let local_len = len s.storage in
    notify_have local_len ∷ encode_want (record { start = local_len; len = 1000000 }) ∷ []

-- The blocks from an index on, n of them.
pub read_leaves : Storage → ℕ → ℕ → Result StorageError (List Bytes)
read_leaves s zero i = ok []
read_leaves s (suc n) i = do value ← get s i; rest ← read_leaves s n (i + 1); ok (value ∷ rest)

-- The same with nil for a block that cannot be read.
abbrev pub value_or_nil : Result StorageError Bytes → Bytes
value_or_nil (ok value) = value
value_or_nil (err e) = []
value_or_nil panic = []

pub read_leaves_or_nil : Storage → ℕ → ℕ → List Bytes
read_leaves_or_nil s zero i = []
read_leaves_or_nil s (suc n) i = value_or_nil (get s i) ∷ read_leaves_or_nil s n (i + 1)

-- rootHash, _ := ComputeRootHash(leaves)
abbrev pub root_or_zero : Result MerkleError Bytes → Bytes
root_or_zero (ok root) = root
root_or_zero (err e) = replicate 32 0
root_or_zero panic = replicate 32 0

module _ (sv : Services) where
  -- The value and the signature that are sent for an index, unless there is no such block.
  abbrev pub repository_block : ℕ → Option (Bytes × Bytes)
  repository_block index = elim (sv.get_block) [ none ↦ none | some lookup ↦ lookup index ]

  abbrev pub signed_locally : Storage → ℕ → Result StorageError Bytes → Option (Bytes × Bytes)
  signed_locally s index (ok value) = some (
    value,
    sv.sign (root_or_zero (compute_root_hash sv.sum256 (read_leaves_or_nil s (index + 1) 0))),
  )
  signed_locally s index (err e) = none
  signed_locally s index panic = none

  abbrev pub or_storage : Storage → ℕ → Option (Bytes × Bytes) → Option (Bytes × Bytes)
  or_storage s index (some found) = some found
  or_storage s index none = signed_locally s index (get s index)

  pub block_to_send : Storage → ℕ → Option (Bytes × Bytes)
  block_to_send s index = or_storage s index (repository_block index)

  abbrev pub compressed : Bytes → Option Bytes → Bytes
  compressed value (some z) = 1 ∷ z
  compressed value none = value

  -- valToSend
  unfoldable pub wrap_value : Bool → Bytes → Bytes
  wrap_value deflate_active value =
      if deflate_active
      then (if ltb 10 (length value) then compressed value (sv.compress value) else 0 ∷ value)
      else value

  abbrev pub data_frame : Bool → ℕ → Option (Bytes × Bytes) → List Bytes
  data_frame deflate_active index none = []
  data_frame deflate_active index (some (value, signature)) =
      encode_data
        (record { index = index; value = wrap_value deflate_active value; signature = signature })
      ∷ []

  -- sendBlockData, up to the write.
  pub send_block_data : SyncSession → ℕ → List Bytes
  unfolding block_to_send wrap_value
  send_block_data s index = data_frame s.deflate_active index (block_to_send s.storage index)

  -- for i := …; …; i++ over n indices.
  pub send_blocks : SyncSession → ℕ → ℕ → List Bytes
  unfolding send_block_data
  send_blocks s zero i = []
  send_blocks s (suc n) i = send_block_data s i ++ send_blocks s n (i + 1)

  abbrev pub inflated : Option Bytes → Result SyncError Bytes
  inflated (some value) = ok value
  inflated none = err decompress_failed

  pub unwrap_value : Bool → Bytes → Result SyncError Bytes
  unwrap_value false value = ok value
  unwrap_value true [] = ok []
  unwrap_value true (flag ∷ rest) =
      if flag == 1
      then inflated (sv.decompress rest)
      else if flag == 0
      then ok rest
      else ok (flag ∷ rest)

  -- The block with the ones before it has the root that the signature is of.
  pub check_block : Storage → Bytes → Bytes → Result SyncError (Unit {0})
  check_block s value signature = do
    leaves ← map_err local_block (read_leaves s (len s) 0)
    root ← map_err root_hash (compute_root_hash sv.sum256 (leaves ++ (value ∷ [])))
    if sv.verify root signature then ok tt else err verification_failed

abbrev pub requests : ℕ → ℕ → List Bytes
requests zero i = []
requests (suc n) i = encode_request (record { index = i }) ∷ requests n (i + 1)

-- What handling a frame leaves: the session, the frames to write, and whether the loop goes on.
pub record Reply : Type 0 where
  pub session : SyncSession
  pub frames : List Bytes
  pub result : Result SyncError (Unit {0})

abbrev pub stay : SyncSession → List Bytes → Reply
stay s frames = record { session = s; frames = frames; result = ok tt }

abbrev pub fail : SyncSession → Result SyncError (Unit {0}) → Reply
fail s e = record { session = s; frames = []; result = e }

-- The end of the case of Data: what Append left and returned.
abbrev pub after_append : SyncSession → Appended → Storage × Result StorageError (Unit {0}) → Reply
after_append s a (storage, ok u) =
    stay (record s { storage = storage; appended = s.appended ++ (a ∷ []) }) []
after_append s a (storage, err e) = fail (record s { storage = storage }) (err (append_failed e))
after_append s a (storage, panic) = fail (record s { storage = storage }) panic

abbrev pub append_checked :
    SyncSession → Appended → Result SyncError (Unit {0}) → WriteOutcome → WriteOutcome → Reply
append_checked s a (ok u) data_write index_write =
    after_append s a (append s.storage a.value data_write index_write)
append_checked s a (err e) data_write index_write = fail s (err e)
append_checked s a panic data_write index_write = fail s panic

module _ (sv : Services) where
  abbrev pub receive_value :
      SyncSession → ℕ → Bytes → Result SyncError Bytes → WriteOutcome → WriteOutcome → Reply
  receive_value s index signature (err e) data_write index_write = fail s (err e)
  receive_value s index signature panic data_write index_write = fail s panic
  receive_value s index signature (ok value) data_write index_write =
      if index == len s.storage
      then append_checked s (record { index = index; value = value; signature = signature })
          (check_block sv s.storage value signature) data_write index_write
      else stay s []

  abbrev pub handle_have : SyncSession → Result WireError Have → Reply
  handle_have s (ok m) = stay s (requests (m.len - len s.storage) (len s.storage))
  handle_have s (err e) = fail s (err (decoding e))
  handle_have s panic = fail s panic

  abbrev pub handle_want : SyncSession → Result WireError Want → Reply
  handle_want s (ok m) =
      stay s (send_blocks sv s (min ((m.start + m.len) % 2 ^ 64) (len s.storage) - m.start) m.start)
  handle_want s (err e) = fail s (err (decoding e))
  handle_want s panic = fail s panic

  abbrev pub handle_request : SyncSession → Result WireError Request → Reply
  handle_request s (ok m) = stay s (send_block_data sv s m.index)
  handle_request s (err e) = fail s (err (decoding e))
  handle_request s panic = fail s panic

  abbrev pub handle_data : SyncSession → Result WireError Data → WriteOutcome → WriteOutcome → Reply
  handle_data s (ok m) data_write index_write =
      receive_value s m.index m.signature (unwrap_value sv s.deflate_active m.value) data_write
        index_write
  handle_data s (err e) data_write index_write = fail s (err (decoding e))
  handle_data s panic data_write index_write = fail s panic

  -- The switch of readLoop; a frame of no bytes and one of another type are skipped.
  pub handle_frame : SyncSession → Bytes → WriteOutcome → WriteOutcome → Reply
  handle_frame s [] data_write index_write = stay s []
  handle_frame s (t ∷ b) data_write index_write =
      if t == 2
      then handle_have s (decode_have (t ∷ b))
      else if t == 3
      then handle_want s (decode_want (t ∷ b))
      else if t == 4
      then handle_request s (decode_request (t ∷ b))
      else if t == 5
      then handle_data s (decode_data (t ∷ b)) data_write index_write
      else stay s []

-- A frame that is read, what the writes to the storage do, and after how many frames the connection
-- fails, if it does.
pub record Turn : Type 0 where
  pub frame : Bytes
  pub data_write : WriteOutcome
  pub index_write : WriteOutcome
  pub accepted : Option ℕ

abbrev pub cut_off : Option ℕ → Reply → Reply
cut_off none r = r
cut_off (some k) r =
    if ltb k (length r.frames)
    then record r { frames = take k r.frames; result = err write_failed }
    else r

-- An error ends the loop; `rest` is what the loop does behind the turn.
abbrev pub go_on : Result SyncError (Unit {0}) → Reply → Reply → Reply
go_on (ok u) r rest = record rest { frames = r.frames ++ rest.frames }
go_on (err e) r rest = r
go_on panic r rest = r

module _ (sv : Services) where
  pub take_turn : SyncSession → Turn → Reply
  unfolding handle_frame
  take_turn s t = cut_off t.accepted (handle_frame sv s t.frame t.data_write t.index_write)

  pub read_loop : SyncSession → List Turn → Reply
  unfolding take_turn
  read_loop s [] = stay s []
  read_loop s (t ∷ ts) =
      let r = take_turn s t in let rest = read_loop r.session ts in go_on r.result r rest
