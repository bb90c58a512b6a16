-- ===== src/Network/Protobuf/Ending.antt =====
-- The rounds of the loop of unmarshalFields (pkg/network/protobuf.go), on any input.
use keet_agent.Prelude.{
  ℕ, zero, suc, ◌+◌, ◌*◌, ◌/◌, ◌%◌, ◌^◌, ◌≤◌, ◌<◌, [], ◌∷◌, length, drop, slice, ltb, leb, ◌==◌,
  ◌≡◌, ◌≢◌, refl, arith, bit_and, bit_or, ◌&&◌, ◌||◌, ◌⊎◌, inl, inr, Bool-cases,
}
use keet_agent.Prelude.Result.{Result, ok, err, panic}
use keet_agent.Bytes.{Bytes}
use keet_agent.Network.Protobuf.{
  ProtoError, out_of_fuel, truncated_field, decode_varint_loop, decode_varint, Outcome, go_slice,
  take_field, read_field, read_round, fields_loop, unmarshal_fields,
}
use keet_agent.Network.Protobuf.Varint.{decode_varint_takes}
use keet_agent.Network.Protobuf.Fields.{Update, assign}

decode_loop-ne :
    (d : Bytes) (i val s : ℕ)
    → (decode_varint_loop d i val s ≢ err out_of_fuel) × (decode_varint_loop d i val s ≢ panic)
unfolding decode_varint_loop
decode_loop-ne [] i val s = (λ e. cc, λ e. cc)
decode_loop-ne (b ∷ bs) i val s =
    let rest = decode_loop-ne bs (i + 1) (bit_or val (bit_and b 0x7f * 2 ^ s % 2 ^ 64)) (s + 7) in
    (ground (arith, rest), ground (arith, rest))

-- A number, or an error of the source.
Decoded : Bytes → Type 0
Decoded d =
    ((v : ℕ) × (n : ℕ) × (decode_varint d ≡ ok (v, n)) × (0 < n))
    ⊎ ((e : ProtoError) × (decode_varint d ≡ err e) × (e ≢ out_of_fuel))

Result-Decoded :
    (d : Bytes) (r : Result ProtoError (ℕ × ℕ))
    → decode_varint d ≡ r
    → r ≢ err out_of_fuel
    → r ≢ panic
    → Decoded d
unfolding Decoded
Result-Decoded d (ok (v, n)) e h k =
    let (_, p, _, _) = decode_varint_takes d v n e in inl (v, n, e, p)
Result-Decoded d (err x) e h k = inr (x, e, λ y. h (cc))
Result-Decoded d panic e h k = absurd (k refl)

decode-Decoded : (d : Bytes) → Decoded d
decode-Decoded d =
    let (a, b) = decode_loop-ne d 0 0 0 in
    Result-Decoded d (decode_varint d) refl (unfold decode_varint in a) (unfold decode_varint in b)

-- The value of a length-delimited field ends behind its beginning, or the source stops.
Taken : Bytes → ℕ → ℕ → Type 0
Taken d offset len =
    ((val : Bytes) × (end : ℕ) × (take_field d offset len ≡ ok (val, end)) × (offset ≤ end))
    ⊎ (take_field d offset len ≡ panic)
    ⊎ ((e : ProtoError) × (take_field d offset len ≡ err e) × (e ≢ out_of_fuel))

take_field-Taken : (d : Bytes) (offset len : ℕ) → Taken d offset len
unfolding Taken take_field go_slice
take_field-Taken d offset len =
    let end = (offset + len) % 2 ^ 64 in
    elim (Bool-cases (ltb end (2 ^ 63) && ltb (length d) end)) [
      | inl over ↦ inr (inr (truncated_field, rw over refl, λ e. cc))
      | inr within ↦
          elim (Bool-cases (leb (2 ^ 63) end || (ltb end offset || ltb (length d) end))) [
            | inl bad ↦ inr (inl (rw (within, bad)))
            | inr good ↦ inl (slice d offset end, end, rw (within, good), ground arith)
          ]
    ]

module _ {S : Type 0} (u : Update S) where
  -- A round goes on behind its offset, or stops with an outcome of the source.
  Moves : ℕ → (ℕ → S → Outcome S) → Outcome S → Type 0
  Moves offset next r =
      ((o : ℕ) × (t : S) × (offset < o) × (r ≡ next o t)) ⊎ (r.0 ≢ err out_of_fuel)

  read_field-Moves :
      (d : Bytes) (tag offset from : ℕ) (s : S) (next : ℕ → S → Outcome S)
      → from < offset
      → Moves from next (read_field (assign u) d tag offset s next)
  unfolding Moves Decoded Taken read_field
  read_field-Moves d tag offset from s next h = elim (decode-Decoded (drop offset d)) [
    | inr (e, p, q) ↦ inr (ground arith)
    | inl (len, n, p, pos) ↦ elim (Bool-cases (bit_and tag 7 == 0)) [
      | inl zeros ↦
          inl (offset + n, u (tag / 8) (bit_and tag 7) [] len s, omega arith, rw (zeros, p))
      | inr other ↦ elim (take_field-Taken d (offset + n) len) [
        | inl (val, end, t, le) ↦ elim (Bool-cases (bit_and tag 7 == 2)) [
          | inl two ↦
              inl (end, u (tag / 8) (bit_and tag 7) val 0 s, omega arith, rw (other, two, p, t))
          | inr bad ↦ inr (rw (other, bad) (λ e. cc))
        ]
        | inr (inl t) ↦ inr (ground arith)
        | inr (inr (e, t, ne)) ↦ inr (ground arith)
      ]
    ]
  ]

  read_round-Moves :
      (d : Bytes) (offset : ℕ) (s : S) (next : ℕ → S → Outcome S)
      → Moves offset next (read_round (assign u) d offset s next)
  unfolding Decoded read_round
  read_round-Moves d offset s next = elim (decode-Decoded (drop offset d)) [
    | inr (e, p, q) ↦ unfold Moves in inr (ground arith)
    | inl (tag, n, p, pos) ↦ rw p (read_field-Moves d tag (offset + n) offset s next (omega arith))
  ]

  fields_loop-ne :
      (fuel : ℕ) (d : Bytes) (offset : ℕ) (s : S)
      → length d ≤ offset + fuel
      → (fields_loop (assign u) fuel d offset s).0 ≢ err out_of_fuel
  unfolding fields_loop Moves
  fields_loop-ne zero d offset s h = ground arith
  fields_loop-ne (suc fuel) d offset s h =
      elim (read_round-Moves d offset s (fields_loop (assign u) fuel d)) [
        | inl (o, t, lt, e) ↦ ground (arith, fields_loop-ne fuel d o t (omega arith))
        | inr ne ↦ ground arith
      ]

  -- On every input the loop ends by itself: the rounds that the model allows are enough.
  pub unmarshal_fields_ends :
      (d : Bytes) (s : S) → (unmarshal_fields (assign u) d s).0 ≢ err out_of_fuel
  unfolding unmarshal_fields
  unmarshal_fields_ends d s = ground (arith, fields_loop-ne (length d) d 0 s (omega arith))
