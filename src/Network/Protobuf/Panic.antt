-- ===== src/Network/Protobuf/Panic.antt =====
-- Length-delimited fields (pkg/network/protobuf.go): the bound offset+int(length) is computed in int64.
use keet_agent.Prelude.{
  ℕ, zero, suc, ◌+◌, ◌-◌, ◌*◌, ◌^◌, ◌≤◌, ◌<◌, ◌++◌, length, ◌≡◌, ◌↔◌, refl, arith, ◌∙◌,
  length-append,
}
use keet_agent.Prelude.Bits.{and_seven}
use keet_agent.Prelude.Result.{panic}
use keet_agent.Bytes.{Bytes}
use keet_agent.Network.Protobuf.{
  max_protobuf_frame_length, encode_varint, encode_tag, Outcome, go_slice, take_field, read_field,
  read_round, fields_loop, unmarshal_fields,
}
use keet_agent.Network.Protobuf.Varint.{decode_varint-encode_varint, decode_varint_takes}
use keet_agent.Network.Protobuf.Fields.{Update, assign, tag_value, behind}

-- Inside a frame of legal size, reading a field of any uint64 length panics exactly when the end
-- of the field does not fit an int64.
take_field_panics :
    (d : Bytes) (offset len : ℕ)
    → offset ≤ length d
    → length d ≤ max_protobuf_frame_length
    → len < 2 ^ 64
    → (take_field d offset len ≡ panic) ↔ (2 ^ 63 ≤ offset + len)
unfolding take_field go_slice
take_field_panics d offset len inside small h = (ground arith, ground arith)

module _ {S : Type 0} (u : Update S) where
  first_round :
      (fuel : ℕ) (d : Bytes) (s : S)
      → 0 < fuel
      → 0 < length d
      → fields_loop (assign u) fuel d 0 s
        ≡ read_round (assign u) d 0 s (fields_loop (assign u) (fuel - 1) d)
  unfolding fields_loop
  first_round zero d s h k = absurd (omega arith)
  first_round (suc fuel) d s h k = let e : suc fuel - 1 ≡ fuel = omega arith in rw e (ground arith)

  panic_round :
      (d : Bytes) (f len : ℕ) (payload : Bytes) (s : S) (next : ℕ → S → Outcome S)
      → f < 2 ^ 60
      → len < 2 ^ 64
      → d ≡ encode_tag f 2 ++ (encode_varint len ++ payload)
      → take_field d (length (encode_tag f 2) + length (encode_varint len)) len ≡ panic
      → read_round (assign u) d 0 s next ≡ (panic, s)
  unfolding read_round
  panic_round d f len payload s next hf hi e bad =
      let tail = encode_varint len ++ payload in
      rw (e ∙ refl, tag_value f 2 tail hf (omega arith))
        (unfold read_field in
          ground (
            arith,
            and_seven (f * 8 + 2),
            behind d 0 (encode_tag f 2) tail e,
            decode_varint-encode_varint len payload hi,
          ))

-- A frame of legal size whose first field announces 2 ^ 63 bytes or more crashes the decoder, for
-- every message and every payload behind the length.
pub unmarshal_huge_length :
    {S : Type 0} (u : Update S) (f len : ℕ) (payload : Bytes) (s : S)
    → f < 2 ^ 60
    → 2 ^ 63 ≤ len
    → len < 2 ^ 64
    → length (encode_tag f 2 ++ (encode_varint len ++ payload)) ≤ max_protobuf_frame_length
    → unmarshal_fields (assign u) (encode_tag f 2 ++ (encode_varint len ++ payload)) s ≡ (panic, s)
unfolding unmarshal_fields
unmarshal_huge_length u f len payload s hf lo hi small =
    let tag = encode_tag f 2 in
    let num = encode_varint len in
    let d = tag ++ (num ++ payload) in
    let size = length-append tag (num ++ payload) in
    let size' = length-append num payload in
    let (_, pos, within, _) =
      decode_varint_takes d (f * 8 + 2) (length tag)
        (tag_value f 2 (num ++ payload) hf (omega arith)) in
    let bad : take_field d (length tag + length num) len ≡ panic =
      (take_field_panics d (length tag + length num) len (omega arith) small hi).1 (omega arith) in
    ground (
      arith,
      first_round u (length d) d s (omega arith) (omega arith),
      panic_round u d f len payload s (fields_loop (assign u) (length d - 1) d) hf hi refl bad,
    )
