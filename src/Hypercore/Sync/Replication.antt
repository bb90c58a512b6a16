-- ===== src/Hypercore/Sync/Replication.antt =====
-- Two sessions (pkg/hypercore/sync.go): one asks for the blocks that the other announces.
use keet_agent.Prelude.{
  ℕ, ◌+◌, ◌-◌, ◌<◌, ◌^◌, Bool, true, false, List, [], ◌∷◌, ◌++◌, map, length, All, none, some, ltb,
  ◌==◌, ◌≡◌, ◌≢◌, refl, sym, ap, ap₂, subst, ◌∙◌, arith, append_assoc, append-nil, length-append,
  Bool-cases, inl, inr,
}
use keet_agent.Prelude.Result.{ok}
use keet_agent.Bytes.{Bytes}
use keet_agent.Hypercore.Wire.{Data, encode_data, encode_request, encode_have}
use keet_agent.Hypercore.Wire.RoundTrip.{
  FitsLimit, decode_data-encode_data, decode_have-encode_have, decode_request-encode_request,
}
use keet_agent.Hypercore.Storage.{Storage, complete, len}
use keet_agent.Hypercore.Storage.Refinement.{holding, append-holding}
use keet_agent.Hypercore.Merkle.{compute_root_hash}
use keet_agent.Hypercore.Merkle.Tree.{compute_root_hash-tree}
use keet_agent.Hypercore.Sync.{
  Services, SyncSession, read_leaves_or_nil, root_or_zero, block_to_send, wrap_value, data_frame,
  send_block_data, unwrap_value, check_block, requests, stay, handle_have, handle_request,
  handle_data, handle_frame, notify_have, Turn, take_turn, read_loop,
}
use keet_agent.Hypercore.Sync.Leaves.{
  get-middle, len-holding, read_leaves-holding, read_leaves_or_nil-holding,
}

-- What the two sides have of each other: one hash function, the key that the signatures verify under,
-- and a decompressor that undoes the compressor. The announcing side has no repository.
pub record IsPair (a b : Services) : Type 0 where
  pub same_sum : a.sum256 ≡ b.sum256
  pub signatures : (root : Bytes) → b.verify root (a.sign root) ≡ true
  pub compresses : (v : Bytes) → (z : Bytes) × (a.compress v ≡ some z) × (b.decompress z ≡ some v)
  pub no_repository : a.get_block ≡ none

-- A session reads frames with every write complete.
abbrev pub turns : List Bytes → List Turn
turns fs =
    map
      (λ (f : Bytes). record {
        frame = f;
        data_write = complete;
        index_write = complete;
        accepted = none;
      })
      fs

unwrap_value-wrap_value :
    (a b : Services) (d : Bool) (v : Bytes)
    → IsPair a b
    → unwrap_value b d (wrap_value a d v) ≡ ok v
unfolding unwrap_value wrap_value
unwrap_value-wrap_value a b false v p = refl
unwrap_value-wrap_value a b true v p = elim (Bool-cases (ltb 10 (length v))) [
  | inl long ↦ let (z, packed, unpacked) = p.compresses v in rw (long, packed) (rw unpacked refl)
  | inr short_ ↦ rw short_ refl
]

handle_frame-data :
    (sv : Services) (s : SyncSession) (m : Data)
    → m.index < 2 ^ 64
    → FitsLimit m.value
    → FitsLimit m.signature
    → handle_frame sv s (encode_data m) complete complete
      ≡ handle_data sv s (ok m) complete complete
unfolding handle_frame encode_data
handle_frame-data sv s m hi hv hg =
    ap (λ r. handle_data sv s r complete complete) (decode_data-encode_data m hi hv hg)

handle_frame-request :
    (sv : Services) (s : SyncSession) (i : ℕ)
    → i < 2 ^ 64
    → handle_frame sv s (encode_request (record { index = i })) complete complete
      ≡ stay s (send_block_data sv s i)
unfolding handle_frame encode_request
handle_frame-request sv s i h =
    ap (λ r. handle_request sv s r) (decode_request-encode_request (record { index = i }) h)

handle_frame-have :
    (sv : Services) (s : SyncSession) (n : ℕ)
    → n < 2 ^ 64
    → handle_frame sv s (notify_have n) complete complete
      ≡ stay s (requests (n - len s.storage) (len s.storage))
unfolding handle_frame notify_have encode_have
handle_frame-have sv s n h =
    ap (λ r. handle_have sv s r)
      (decode_have-encode_have (record { start = 0; len = n }) (omega arith) h)

-- The signature that a session sends with a block.
root_of : Services → List Bytes → Bytes
root_of sv bs = root_or_zero (compute_root_hash sv.sum256 bs)

ends-nonempty : (pre : List Bytes) (v : Bytes) → (pre ++ (v ∷ [])) ≢ []
ends-nonempty [] v = λ e. cc
ends-nonempty (p ∷ pre) v = λ e. cc

root_of-ok :
    (sv : Services) (pre : List Bytes) (v : Bytes)
    → compute_root_hash sv.sum256 (pre ++ (v ∷ [])) ≡ ok (root_of sv (pre ++ (v ∷ [])))
unfolding root_of
root_of-ok sv pre v =
    let (t, hashed, _) = compute_root_hash-tree sv.sum256 (pre ++ (v ∷ [])) (ends-nonempty pre v) in
    rw hashed refl

abbrev block_message : Services → Bool → List Bytes → Bytes → Data
block_message a d pre v = record {
  index = length pre;
  value = wrap_value a d v;
  signature = a.sign (root_of a (pre ++ (v ∷ [])));
}

block_to_send-middle :
    (a : Services) (pre : List Bytes) (v : Bytes) (rest : List Bytes)
    → a.get_block ≡ none
    → block_to_send a (holding (pre ++ (v ∷ rest))) (length pre)
      ≡ some (v, a.sign (root_of a (pre ++ (v ∷ []))))
unfolding block_to_send root_of
block_to_send-middle a pre v rest h =
    let leaves : read_leaves_or_nil (holding (pre ++ (v ∷ rest))) (length pre + 1) 0
        ≡ pre ++ (v ∷ []) =
      ap₂ (λ (x : List Bytes) (n : ℕ). read_leaves_or_nil (holding x) n 0)
        (sym (append_assoc pre (v ∷ []) rest)) (sym (length-append pre (v ∷ [])))
      ∙ read_leaves_or_nil-holding (pre ++ (v ∷ [])) rest in
    rw (h, get-middle pre v rest, leaves) refl

-- What goes over the wire for the blocks behind the first ones.
block_frames : Services → Bool → List Bytes → List Bytes → List Bytes
block_frames a d pre [] = []
block_frames a d pre (v ∷ rest) =
    encode_data (block_message a d pre v) ∷ block_frames a d (pre ++ (v ∷ [])) rest

-- The announcing side answers every request with the block, and keeps its state.
serves :
    (a : Services) (s : SyncSession) (pre rest : List Bytes)
    → a.get_block ≡ none
    → s.storage ≡ holding (pre ++ rest)
    → length (pre ++ rest) < 2 ^ 64
    → read_loop a s (turns (requests (length rest) (length pre)))
      ≡ stay s (block_frames a s.deflate_active pre rest)
unfolding read_loop take_turn block_frames
serves a s pre [] h e small = refl
serves a s pre (v ∷ rest) h e small =
    let split = length-append pre (v ∷ rest) in
    let moved : s.storage ≡ holding ((pre ++ (v ∷ [])) ++ rest) =
      e ∙ ap holding (sym (append_assoc pre (v ∷ []) rest)) in
    let sent : send_block_data a s (length pre)
        ≡ encode_data (block_message a s.deflate_active pre v) ∷ [] =
      unfold send_block_data in
      ap (data_frame a s.deflate_active (length pre)) (
        ap (λ (t : Storage). block_to_send a t (length pre)) e
        ∙ block_to_send-middle a pre v rest h) in
    let later : read_loop a s (turns (requests (length rest) (length pre + 1)))
        ≡ stay s (block_frames a s.deflate_active (pre ++ (v ∷ [])) rest) =
      ap (λ (n : ℕ). read_loop a s (turns (requests (length rest) n)))
        (sym (length-append pre (v ∷ [])))
      ∙ serves a s (pre ++ (v ∷ [])) rest h moved (
          subst (λ (n : ℕ). n < 2 ^ 64) (ap length (sym (append_assoc pre (v ∷ []) rest))) small) in
    rw (handle_frame-request a s (length pre) (omega arith), sent, later) refl

check_block-signed :
    (a b : Services) (pre : List Bytes) (v : Bytes)
    → IsPair a b
    → check_block b (holding pre) v (a.sign (root_of a (pre ++ (v ∷ [])))) ≡ ok tt
unfolding check_block
check_block-signed a b pre v p =
    let same : root_of a (pre ++ (v ∷ [])) ≡ root_of b (pre ++ (v ∷ [])) =
      unfold root_of in
      ap (λ (f : Bytes → Bytes). root_or_zero (compute_root_hash f (pre ++ (v ∷ [])))) p.same_sum in
    rw (len-holding pre, read_leaves-holding pre, root_of-ok b pre v, same)
      (rw (p.signatures (root_of b (pre ++ (v ∷ [])))) refl)

-- The values and the signatures that are sent keep the limit of the reader.
abbrev pub FitsBlock : Services → Bool → Bytes → Type 0
FitsBlock a d v = FitsLimit (wrap_value a d v) × ((root : Bytes) → FitsLimit (a.sign root))

-- The asking side appends every block.
follows :
    (a b : Services) (s : SyncSession) (pre rest : List Bytes)
    → IsPair a b
    → s.storage ≡ holding pre
    → length (pre ++ rest) < 2 ^ 64
    → All (FitsBlock a s.deflate_active) rest
    → let r = read_loop b s (turns (block_frames a s.deflate_active pre rest)) in
      (r.result ≡ ok tt) × (r.session.storage ≡ holding (pre ++ rest))
unfolding read_loop take_turn block_frames
follows a b s pre [] p e small fits = (refl, e ∙ ap holding (sym (append-nil pre)))
follows a b s pre (v ∷ rest) p e small ((fv, fg), fits) =
    let split = length-append pre (v ∷ rest) in
    let m = block_message a s.deflate_active pre v in
    let s' : SyncSession = record s {
      storage = holding (pre ++ (v ∷ []));
      appended =
          s.appended ++ (record { index = length pre; value = v; signature = m.signature } ∷ []);
    } in
    let here : length pre == len s.storage ≡ true = rw (e, len-holding pre) (ground arith) in
    let handled : handle_frame b s (encode_data m) complete complete ≡ stay s' [] =
      rw
        (
          handle_frame-data b s m (omega arith) fv (fg (root_of a (pre ++ (v ∷ [])))),
          unwrap_value-wrap_value a b s.deflate_active v p,
          here,
          e,
          check_block-signed a b pre v p,
          append-holding pre v,
        )
        refl in
    rw (handled, ← append_assoc pre (v ∷ []) rest)
      (follows a b s' (pre ++ (v ∷ [])) rest p refl
        (subst (λ (n : ℕ). n < 2 ^ 64) (ap length (sym (append_assoc pre (v ∷ []) rest))) small)
        fits)

-- A session that holds a beginning of the other's feed and hears of its length asks for the missing
-- blocks; once the other, which has no block repository, has answered and the answers are read, both hold
-- the same feed. The connection and the writes to the storage do not fail, both have the same deflate flag,
-- decompression undoes compression, the keys belong together, the feed has less than 2 ^ 64 blocks, and the
-- frames keep their limits.
pub replicated :
    (a b : Services) (server follower : SyncSession) (pre rest : List Bytes)
    → IsPair a b
    → server.storage ≡ holding (pre ++ rest)
    → follower.storage ≡ holding pre
    → server.deflate_active ≡ follower.deflate_active
    → length (pre ++ rest) < 2 ^ 64
    → All (FitsBlock a follower.deflate_active) rest
    → let asked =
        (handle_frame b follower (notify_have (length (pre ++ rest))) complete complete).frames in
      let answers = (read_loop a server (turns asked)).frames in
      let r = read_loop b follower (turns answers) in
      (r.result ≡ ok tt) × (r.session.storage ≡ holding (pre ++ rest))
replicated a b server follower pre rest p ea eb d small fits =
    let missing : length (pre ++ rest) - len follower.storage ≡ length rest =
      rw (eb, len-holding pre) (omega (arith, length-append pre rest)) in
    let known : len follower.storage ≡ length pre = rw (eb, len-holding pre) refl in
    rw
      (
        handle_frame-have b follower (length (pre ++ rest)) small,
        missing,
        known,
        serves a server pre rest p.no_repository ea small,
        d,
      )
      (follows a b follower pre rest p eb small fits)
