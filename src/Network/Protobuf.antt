-- ===== src/Network/Protobuf.antt =====
-- pkg/network/protobuf.go, the field level: varints, tags and the loop over the fields of a frame.
pub mod Varint
pub mod Fields
pub mod Ending
pub mod Panic
pub mod Messages
use keet_agent.Prelude.{
  ℕ, zero, suc, ◌+◌, ◌*◌, ◌/◌, ◌%◌, ◌^◌, ◌≤◌, ◌<◌, bit_and, bit_or, Bool, true, false, ◌&&◌, ◌||◌,
  List, [], ◌∷◌, ◌++◌, length, drop, slice, ltb, leb, ◌==◌, if◌then◌else◌, arith,
}
use keet_agent.Prelude.Order.{lt_wf}
use keet_agent.Prelude.Result.{Result, ok, err, panic, ◌>>=◌}
use keet_agent.Bytes.{Bytes}
use mathlib.Core.Logic.{dite}
use mathlib.Core.WellFounded.{Acc}
use native.Mathlib.Decide.{dec_le}

abbrev pub max_protobuf_frame_length : ℕ
max_protobuf_frame_length = 8 * 1024 * 1024

pub data ProtoError : Type 0 where
  varint_overflow unexpected_eof frame_too_large truncated_field unsupported_wire_type too_long :
      ProtoError
  -- No error of the source: the model's loop ran out of rounds. It is never returned (Fields).
  out_of_fuel : ProtoError

abbrev varint_shrinks : (v : ℕ) → 128 ≤ v → v / 128 < v
varint_shrinks v h = omega arith

-- for val >= 0x80 { buf = append(buf, byte(val|0x80)); val >>= 7 }; append(buf, byte(val))
pub encode_varint_loop : (val : ℕ) → Acc ◌<◌ val → Bytes
encode_varint_loop val (Acc.intro _ smaller) =
    dite (dec_le 0x80 val)
      (λ more.
        (bit_or val 0x80 % 256)
        ∷ encode_varint_loop (val / 128) (smaller (val / 128) (varint_shrinks val more)))
      (λ _. (val % 256) ∷ [])

unfoldable pub encode_varint : ℕ → Bytes
unfolding encode_varint_loop lt_wf dec_le
encode_varint val = encode_varint_loop val (lt_wf.apply val)

-- for i, b := range data: `i` and `shift` are the loop's variables, `val` what it has so far. The
-- `uint64` shift drops the bits from 64 on.
pub decode_varint_loop : Bytes → ℕ → ℕ → ℕ → Result ProtoError (ℕ × ℕ)
decode_varint_loop [] i val shift = err unexpected_eof
decode_varint_loop (b ∷ bs) i val shift =
    let val' = bit_or val (bit_and b 0x7f * 2 ^ shift % 2 ^ 64) in
    let next = decode_varint_loop bs (i + 1) val' (shift + 7) in
    if bit_and b 0x80 == 0
    then ok (val', i + 1)
    else if leb 64 (shift + 7)
    then err varint_overflow
    else next

-- The number and how many bytes it took.
unfoldable pub decode_varint : Bytes → Result ProtoError (ℕ × ℕ)
unfolding decode_varint_loop
decode_varint data' = decode_varint_loop data' 0 0 0

unfoldable pub encode_tag : ℕ → ℕ → Bytes
encode_tag field_number wire_type = encode_varint (bit_or (field_number * 8) wire_type)

unfoldable pub encode_bytes : ℕ → Bytes → Bytes
encode_bytes field_number val = encode_tag field_number 2 ++ (encode_varint (length val) ++ val)

pub encode_string : ℕ → Bytes → Bytes
encode_string field_number val = encode_bytes field_number val

unfoldable pub encode_uint64 : ℕ → ℕ → Bytes
encode_uint64 field_number val = encode_tag field_number 0 ++ encode_varint val

pub encode_bool : ℕ → Bool → Bytes
encode_bool field_number val = encode_uint64 field_number (if val then 1 else 0)

-- What a call with a receiver leaves: its error, if any, and the receiver as far as it was written.
abbrev pub Outcome : Type 0 → Type 0
Outcome S = Result ProtoError (Unit {0}) × S

-- handleField func(fieldNum int, wireType int, value []byte, varintVal uint64) error, a closure
-- over the receiver.
abbrev pub Handler : Type 0 → Type 0
Handler S = ℕ → ℕ → Bytes → ℕ → S → Outcome S

-- data[lo:hi] for a 64-bit pattern `hi`. Go panics at a negative bound and at lo > hi.
pub go_slice : Bytes → ℕ → ℕ → Result ProtoError Bytes
go_slice d lo hi =
    if leb (2 ^ 63) hi || (ltb hi lo || ltb (length d) hi) then panic else ok (slice d lo hi)

-- The value of a length-delimited field that begins at `offset`, and the offset behind it. The sum
-- offset+int(length) is a 64-bit pattern, negative from 2 ^ 63 on.
pub take_field : Bytes → ℕ → ℕ → Result ProtoError (Bytes × ℕ)
take_field d offset len =
    let end = (offset + len) % 2 ^ 64 in
    if ltb end (2 ^ 63) && ltb (length d) end
    then err truncated_field
    else go_slice d offset end >>= λ val. ok (val, end)

module _ {S : Type 0} (handle_field : Handler S) where
  -- Go on from what the handler left, or stop at its error.
  abbrev continue : Outcome S → (S → Outcome S) → Outcome S
  continue (ok _, s) k = k s
  continue (err e, s) k = (err e, s)
  continue (panic, s) k = (panic, s)

  -- An error of the loop itself leaves the receiver as it is.
  abbrev or_stop : {A : Type 0} → Result ProtoError A → S → (A → Outcome S) → Outcome S
  or_stop (ok a) s k = k a
  or_stop (err e) s k = (err e, s)
  or_stop panic s k = (panic, s)

  -- The field behind a tag. `next` is the rest of the loop, from an offset on.
  pub read_field : Bytes → ℕ → ℕ → S → (ℕ → S → Outcome S) → Outcome S
  read_field d tag offset s next =
      let field_num = tag / 8 in
      let wire_type = bit_and tag 0x7 in
      if wire_type == 0
      then or_stop (decode_varint (drop offset d)) s
          (λ (val, n). continue (handle_field field_num wire_type [] val s) (next (offset + n)))
      else if wire_type == 2
      then or_stop (decode_varint (drop offset d)) s (λ (len, n).
        or_stop (take_field d (offset + n) len) s
          (λ (val, end). continue (handle_field field_num wire_type val 0 s) (next end)))
      else (err unsupported_wire_type, s)

  pub read_round : Bytes → ℕ → S → (ℕ → S → Outcome S) → Outcome S
  read_round d offset s next =
      or_stop (decode_varint (drop offset d)) s (λ (tag, n). read_field d tag (offset + n) s next)

  -- for offset < len(data). Every round moves `offset` on, so `length data` rounds are enough.
  pub fields_loop : ℕ → Bytes → ℕ → S → Outcome S
  fields_loop zero d offset s = if ltb offset (length d) then (err out_of_fuel, s) else (ok tt, s)
  fields_loop (suc fuel) d offset s =
      let round = read_round d offset s (λ o s'. fields_loop fuel d o s') in
      if ltb offset (length d) then round else (ok tt, s)

  pub unmarshal_fields : Bytes → S → Outcome S
  unmarshal_fields d s =
      if ltb max_protobuf_frame_length (length d)
      then (err frame_too_large, s)
      else fields_loop (length d) d 0 s
