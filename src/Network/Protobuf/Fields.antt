-- ===== src/Network/Protobuf/Fields.antt =====
-- unmarshalFields (pkg/network/protobuf.go) on a frame of encoded fields.
use keet_agent.Prelude.{
  ℕ, zero, suc, ◌+◌, ◌-◌, ◌*◌, ◌%◌, ◌^◌, ◌≤◌, ◌<◌, List, [], ◌∷◌, ◌++◌, length, drop, ltb, ◌≡◌,
  refl, sym, arith, ap, ◌∙◌, All, append_assoc, length-append, length-drop, drop-append, drop-add,
  take-append, true,
}
use keet_agent.Prelude.Bits.{or_tag, and_seven}
use keet_agent.Prelude.Result.{ok}
use keet_agent.Bytes.{Bytes}
use keet_agent.Network.Protobuf.{
  max_protobuf_frame_length, encode_varint, decode_varint, encode_tag, encode_bytes, encode_uint64,
  Outcome, Handler, go_slice, take_field, read_field, read_round, fields_loop, unmarshal_fields,
}
use native.Mathlib.Nat.{mod-eq_of_lt}
use keet_agent.Network.Protobuf.Varint.{decode_varint-encode_varint, decode_varint_takes}

-- A field as a handler sees it.
pub data Field : Type 0 where
  varint : ℕ → ℕ → Field
  bytes : ℕ → Bytes → Field

abbrev pub encode_field : Field → Bytes
encode_field (varint f v) = encode_uint64 f v
encode_field (bytes f b) = encode_bytes f b

abbrev pub encode_fields : List Field → Bytes
encode_fields [] = []
encode_fields (x ∷ xs) = encode_field x ++ encode_fields xs

-- The field number leaves room for the wire type, and the value is a uint64.
abbrev pub FitsField : Field → Type 0
FitsField (varint f v) = (f < 2 ^ 60) × (v < 2 ^ 64)
FitsField (bytes f b) = (f < 2 ^ 60) × (length b < 2 ^ 62)

-- The handlers of the messages never fail: an update of the receiver.
abbrev pub Update : Type 0 → Type 0
Update S = ℕ → ℕ → Bytes → ℕ → S → S

abbrev pub assign : {S : Type 0} → Update S → Handler S
assign u f w b v s = (ok tt, u f w b v s)

abbrev pub apply_field : {S : Type 0} → Update S → Field → S → S
apply_field u (varint f v) s = u f 0 [] v s
apply_field u (bytes f b) s = u f 2 b 0 s

abbrev pub apply_fields : {S : Type 0} → Update S → List Field → S → S
apply_fields u [] s = s
apply_fields u (x ∷ xs) s = apply_fields u xs (apply_field u x s)

pub tag_value :
    (f w : ℕ) (rest : Bytes)
    → f < 2 ^ 60
    → w < 8
    → decode_varint (encode_tag f w ++ rest) ≡ ok (f * 8 + w, length (encode_tag f w))
unfolding encode_tag
tag_value f w rest hf hw =
    rw (or_tag f w hw) (decode_varint-encode_varint (f * 8 + w) rest (omega arith))

-- What stands behind an encoded part.
pub behind :
    (d : Bytes) (offset : ℕ) (x rest : Bytes)
    → drop offset d ≡ x ++ rest
    → drop (offset + length x) d ≡ rest
behind d offset x rest e =
    drop-add offset (length x) d ∙ ap (drop (length x)) e ∙ drop-append x rest

length-append_three :
    (a b c d : Bytes)
    → length (a ++ (b ++ (c ++ d))) ≡ length a + (length b + (length c + length d))
length-append_three a b c d =
    length-append a (b ++ (c ++ d))
    ∙ ap (◌+◌ (length a)) (length-append b (c ++ d) ∙ ap (◌+◌ (length b)) (length-append c d))

module _ {S : Type 0} (u : Update S) where
  round_varint :
      (d : Bytes) (offset f v : ℕ) (s : S) (next : ℕ → S → Outcome S) (rest : Bytes)
      → f < 2 ^ 60
      → v < 2 ^ 64
      → drop offset d ≡ encode_uint64 f v ++ rest
      → read_round (assign u) d offset s next
        ≡ next (offset + length (encode_uint64 f v)) (u f 0 [] v s)
  unfolding read_round encode_uint64
  round_varint d offset f v s next rest hf hv e =
      let e1 : drop offset d ≡ encode_tag f 0 ++ (encode_varint v ++ rest) =
        e ∙ append_assoc (encode_tag f 0) (encode_varint v) rest in
      let e2 = behind d offset (encode_tag f 0) (encode_varint v ++ rest) e1 in
      rw (e1, tag_value f 0 (encode_varint v ++ rest) hf (omega arith))
        (unfold read_field in
          ground (
            arith,
            and_seven (f * 8 + 0),
            e2,
            decode_varint-encode_varint v rest hv,
            length-append (encode_tag f 0) (encode_varint v),
          ))

  -- The value of a length-delimited field is cut out of the frame.
  take_field_at :
      (d : Bytes) (offset : ℕ) (b rest : Bytes)
      → offset + length b < 2 ^ 63
      → offset ≤ length d
      → drop offset d ≡ b ++ rest
      → take_field d offset (length b) ≡ ok (b, offset + length b)
  unfolding take_field go_slice
  take_field_at d offset b rest h inside e =
      let size : length b + length rest ≡ length d - offset =
        sym (length-append b rest) ∙ ap length (sym e) ∙ length-drop offset d in
      let wrap : (offset + length b) % 2 ^ 64 ≡ offset + length b = mod-eq_of_lt (omega arith) in
      let width : offset + length b - offset ≡ length b = omega arith in
      rw (wrap, width, e, take-append b rest) (ground arith)

  round_bytes :
      (d : Bytes) (offset f : ℕ) (b : Bytes) (s : S) (next : ℕ → S → Outcome S) (rest : Bytes)
      → f < 2 ^ 60
      → length d < 2 ^ 63
      → offset ≤ length d
      → drop offset d ≡ encode_bytes f b ++ rest
      → read_round (assign u) d offset s next
        ≡ next (offset + length (encode_bytes f b)) (u f 2 b 0 s)
  unfolding read_round encode_bytes
  round_bytes d offset f b s next rest hf hd inside e =
      let tag = encode_tag f 2 in
      let len = encode_varint (length b) in
      let e1 : drop offset d ≡ tag ++ (len ++ (b ++ rest)) =
        e ∙ append_assoc tag (len ++ b) rest ∙ ap (◌++◌ tag) (append_assoc len b rest) in
      let e2 = behind d offset tag (len ++ (b ++ rest)) e1 in
      let e3 = behind d (offset + length tag) len (b ++ rest) e2 in
      let size : length (tag ++ (len ++ (b ++ rest))) ≡ length d - offset =
        ap length (sym e1) ∙ length-drop offset d in
      let size' : length tag + (length len + (length b + length rest)) ≡ length d - offset =
        sym (length-append_three tag len b rest) ∙ size in
      rw (e1, tag_value f 2 (len ++ (b ++ rest)) hf (omega arith))
        (unfold read_field in
          ground (
            arith,
            and_seven (f * 8 + 2),
            e2,
            decode_varint-encode_varint (length b) (b ++ rest) (omega arith),
            take_field_at d (offset + length tag + length len) b rest (omega arith) (omega arith)
                e3,
            length-append tag (len ++ b),
            length-append len b,
          ))

  -- One round reads one field.
  round_field :
      (d : Bytes) (offset : ℕ) (x : Field) (s : S) (next : ℕ → S → Outcome S) (rest : Bytes)
      → FitsField x
      → length d < 2 ^ 63
      → offset ≤ length d
      → drop offset d ≡ encode_field x ++ rest
      → read_round (assign u) d offset s next
        ≡ next (offset + length (encode_field x)) (apply_field u x s)
  round_field d offset (varint f v) s next rest (hf, hv) hd inside e =
      round_varint d offset f v s next rest hf hv e
  round_field d offset (bytes f b) s next rest (hf, hb) hd inside e =
      round_bytes d offset f b s next rest hf hd inside e

encode_tag-pos : (f w : ℕ) → f < 2 ^ 60 → w < 8 → 0 < length (encode_tag f w)
encode_tag-pos f w hf hw =
    let (_, p, _, _) =
      decode_varint_takes (encode_tag f w ++ []) (f * 8 + w) _ (tag_value f w [] hf hw) in
    p

encode_field-pos : (x : Field) → FitsField x → 0 < length (encode_field x)
unfolding encode_uint64 encode_bytes
encode_field-pos (varint f v) (hf, hv) =
    omega
      (arith, length-append (encode_tag f 0) (encode_varint v), encode_tag-pos f 0 hf (omega arith))
encode_field-pos (bytes f b) (hf, hb) = omega (
  arith,
  length-append (encode_tag f 2) (encode_varint (length b) ++ b),
  encode_tag-pos f 2 hf (omega arith),
)

module _ {S : Type 0} (u : Update S) (d : Bytes) (fits : length d < 2 ^ 63) where
  loop-encode_fields :
      (fs : List Field) (fuel offset : ℕ) (s : S)
      → All FitsField fs
      → offset ≤ length d
      → length d ≤ offset + fuel
      → drop offset d ≡ encode_fields fs
      → fields_loop (assign u) fuel d offset s ≡ (ok tt, apply_fields u fs s)
  unfolding fields_loop
  loop-encode_fields [] zero offset s h inside enough e =
      ground (arith, length-drop offset d, ap length e)
  loop-encode_fields [] (suc fuel) offset s h inside enough e =
      ground (arith, length-drop offset d, ap length e)
  loop-encode_fields (x ∷ fs) zero offset s (h, hs) inside enough e = absurd (
      omega (
        arith,
        length-drop offset d,
        ap length e,
        length-append (encode_field x) (encode_fields fs),
        encode_field-pos x h,
      ))
  loop-encode_fields (x ∷ fs) (suc fuel) offset s (h, hs) inside enough e =
      let size : length (encode_field x) + length (encode_fields fs) ≡ length d - offset =
        sym (length-append (encode_field x) (encode_fields fs))
        ∙ ap length (sym e)
        ∙ length-drop offset d in
      let pos = encode_field-pos x h in
      let more : ltb offset (length d) ≡ true = ground arith in
      rw more (
        round_field u d offset x s (fields_loop (assign u) fuel d) (encode_fields fs) h fits inside
          e
        ∙ loop-encode_fields fs fuel (offset + length (encode_field x)) (apply_field u x s) hs
            (omega arith) (omega arith) (behind d offset (encode_field x) (encode_fields fs) e))

-- The receiver ends up with every field applied in the order of the frame, if the frame keeps the
-- limit and each field its range.
pub unmarshal-encode_fields :
    {S : Type 0} (u : Update S) (fs : List Field) (s : S)
    → All FitsField fs
    → length (encode_fields fs) ≤ max_protobuf_frame_length
    → unmarshal_fields (assign u) (encode_fields fs) s ≡ (ok tt, apply_fields u fs s)
unfolding unmarshal_fields
unmarshal-encode_fields u fs s h small =
    let loop =
      loop-encode_fields u (encode_fields fs) (omega arith) fs (length (encode_fields fs)) 0 s h
        (omega arith) (omega arith) refl in
    ground (arith, loop)

-- A number and its tag take 20 bytes at most.
pub length-encode_uint64 : (f v : ℕ) → f < 2 ^ 60 → v < 2 ^ 64 → length (encode_uint64 f v) ≤ 20
unfolding encode_uint64
length-encode_uint64 f v hf hv =
    let (_, _, _, a) =
      decode_varint_takes (encode_tag f 0 ++ []) (f * 8 + 0) _
        (tag_value f 0 [] hf (omega arith)) in
    let (_, _, _, b) =
      decode_varint_takes (encode_varint v ++ []) v _ (decode_varint-encode_varint v [] hv) in
    omega (arith, length-append (encode_tag f 0) (encode_varint v))
