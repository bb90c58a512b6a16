-- ===== src/Network/Protobuf/Messages/FieldLists.antt =====
-- The fields that a message marshals to, as a list, and what the appends of the source make of them.
use keet_agent.Prelude.{
  ℕ, zero, suc, ◌^◌, ◌≤◌, ◌<◌, Bool, true, false, not, List, [], ◌∷◌, ◌++◌, map, length, ltb,
  if◌then◌else◌, bytes_eq, ◌≡◌, refl, sym, ap, ◌∙◌, arith, All, append_assoc, append-nil,
}
use keet_agent.Prelude.Result.{ok, err}
use keet_agent.Bytes.{Bytes}
use keet_agent.Network.Protobuf.{
  max_protobuf_frame_length, too_long, encode_bytes, encode_string, encode_uint64, encode_bool,
}
use keet_agent.Network.Protobuf.Fields.{
  Field, varint, bytes, encode_field, encode_fields, FitsField, Update, apply_field, apply_fields,
}
use keet_agent.Network.Protobuf.Messages.{append_if, append_extensions}

-- A slice is shorter than 2 ^ 62 bytes.
abbrev pub IsSized : Bytes → Type 0
IsSized b = length b < 2 ^ 62

-- A field that is left out when it is empty, and one that is written when a flag is set.
abbrev pub opt : ℕ → Bytes → List Field
opt n [] = []
opt n (x ∷ xs) = bytes n (x ∷ xs) ∷ []

abbrev pub flag : ℕ → Bool → List Field
flag n true = varint n 1 ∷ []
flag n false = []

pub append_if-opt :
    (n : ℕ) (b buf : Bytes)
    → append_if (ltb 0 (length b)) (encode_bytes n b) buf ≡ buf ++ encode_fields (opt n b)
append_if-opt n [] buf = sym (append-nil buf)
append_if-opt n (x ∷ xs) buf = ground (arith, append-nil (encode_bytes n (x ∷ xs)))

pub append_if-opt_string :
    (n : ℕ) (b buf : Bytes)
    → append_if (not (bytes_eq b [])) (encode_string n b) buf ≡ buf ++ encode_fields (opt n b)
unfolding encode_string bytes_eq
append_if-opt_string n [] buf = sym (append-nil buf)
append_if-opt_string n (x ∷ xs) buf = ap (◌++◌ buf) (sym (append-nil (encode_bytes n (x ∷ xs))))

pub append_if-flag :
    (n : ℕ) (c : Bool) (buf : Bytes)
    → append_if c (encode_bool n c) buf ≡ buf ++ encode_fields (flag n c)
unfolding encode_bool
append_if-flag n true buf = ap (◌++◌ buf) (sym (append-nil (encode_uint64 n 1)))
append_if-flag n false buf = sym (append-nil buf)

pub append_extensions-map :
    (exts : List Bytes) (buf : Bytes)
    → append_extensions exts buf ≡ buf ++ encode_fields (map (bytes 3) exts)
unfolding append_extensions encode_string
append_extensions-map [] buf = sym (append-nil buf)
append_extensions-map (ext ∷ exts) buf =
    append_extensions-map exts (buf ++ encode_bytes 3 ext)
    ∙ append_assoc buf (encode_bytes 3 ext) (encode_fields (map (bytes 3) exts))

pub encode_fields-append :
    (xs ys : List Field) → encode_fields (xs ++ ys) ≡ encode_fields xs ++ encode_fields ys
encode_fields-append [] ys = refl
encode_fields-append (x ∷ xs) ys =
    ap (◌++◌ (encode_field x)) (encode_fields-append xs ys)
    ∙ sym (append_assoc (encode_field x) (encode_fields xs) (encode_fields ys))

pub All-append :
    (xs ys : List Field) → All FitsField xs → All FitsField ys → All FitsField (xs ++ ys)
All-append [] ys h k = k
All-append (x ∷ xs) ys (h, hs) k = (h, All-append xs ys hs k)

pub opt-All : (n : ℕ) (b : Bytes) → n < 2 ^ 60 → IsSized b → All FitsField (opt n b)
opt-All n [] h k = tt
opt-All n (x ∷ xs) h k = (omega arith, tt)

pub flag-All : (n : ℕ) (c : Bool) → n < 2 ^ 60 → All FitsField (flag n c)
flag-All n true h = (omega arith, tt)
flag-All n false h = tt

pub map-All : (exts : List Bytes) → All IsSized exts → All FitsField (map (bytes 3) exts)
map-All [] h = tt
map-All (ext ∷ exts) (h, hs) = (omega arith, map-All exts hs)

module _ {S : Type 0} (u : Update S) where
  pub apply_fields-append :
      (xs ys : List Field) (s : S)
      → apply_fields u (xs ++ ys) s ≡ apply_fields u ys (apply_fields u xs s)
  apply_fields-append [] ys s = refl
  apply_fields-append (x ∷ xs) ys s = apply_fields-append xs ys (apply_field u x s)

-- A counter that is left out when it is 0.
abbrev pub nonzero : ℕ → ℕ → List Field
nonzero n zero = []
nonzero n (suc v) = varint n (suc v) ∷ []

pub append_if-nonzero :
    (n v : ℕ) (buf : Bytes)
    → append_if (ltb 0 v) (encode_uint64 n v) buf ≡ buf ++ encode_fields (nonzero n v)
append_if-nonzero n zero buf = sym (append-nil buf)
append_if-nonzero n (suc v) buf = ground (arith, append-nil (encode_uint64 n (suc v)))

pub nonzero-All : (n v : ℕ) → n < 2 ^ 60 → v < 2 ^ 64 → All FitsField (nonzero n v)
nonzero-All n zero h k = tt
nonzero-All n (suc v) h k = (omega arith, tt)

-- A frame that keeps the limit is returned.
pub within_limit :
    (buf whole : Bytes)
    → buf ≡ whole
    → length whole ≤ max_protobuf_frame_length
    → (if ltb max_protobuf_frame_length (length buf) then err too_long else ok buf) ≡ ok whole
within_limit buf whole e small = rw e (ground arith)
