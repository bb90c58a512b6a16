-- ===== src/Network/Protobuf/Varint.antt =====
-- encodeVarint and decodeVarint (pkg/network/protobuf.go).
use keet_agent.Prelude.{
  ℕ, zero, suc, ◌+◌, ◌*◌, ◌/◌, ◌%◌, ◌^◌, ◌≤◌, ◌<◌, [], ◌∷◌, ◌++◌, length, ◌≡◌, refl, arith, ap, ◌∙◌,
  bit_and, bit_or,
}
use keet_agent.Prelude.Bits.{or_disjoint, or-lt, or_0x80, and_0x7f, and_0x80}
use keet_agent.Prelude.Result.{ok}
use keet_agent.Bytes.{Bytes}
use keet_agent.Network.Protobuf.{
  encode_varint_loop, encode_varint, decode_varint_loop, decode_varint, varint_shrinks,
}
use mathlib.Core.WellFounded.{Acc}
use keet_agent.Prelude.Order.{lt_wf}
use native.Mathlib.Bridge.{le_prop}
use mathlib.Core.Logic.{dif_pos, dif_neg}
use native.Mathlib.Decide.{dec_le}
use native.Mathlib.Nat.{mul-le-mul_right}
use native.Mathlib.Numerals.{towards_suc}

shift_seven : (s : ℕ) → 2 ^ (s + 7) ≡ 128 * 2 ^ s
shift_seven s = simp towards_suc (omega arith)

-- The last byte of a number.
last_group :
    (g i val s : ℕ) (rest : Bytes)
    → g < 128
    → val < 2 ^ s
    → val + g * 2 ^ s < 2 ^ 64
    → decode_varint_loop (g ∷ rest) i val s ≡ ok (val + g * 2 ^ s, i + 1)
unfolding decode_varint_loop
last_group g i val s rest h low fits = ground (arith, and_0x7f g, and_0x80 g, or_disjoint s val g)

-- A byte with the top bit set, over the group `g`.
inner_group :
    (g i val s : ℕ) (rest : Bytes)
    → g < 128
    → val < 2 ^ s
    → val + g * 2 ^ s < 2 ^ 64
    → s + 7 < 64
    → decode_varint_loop ((g + 128) ∷ rest) i val s
      ≡ decode_varint_loop rest (i + 1) (val + g * 2 ^ s) (s + 7)
unfolding decode_varint_loop
inner_group g i val s rest h low fits room =
    ground (arith, and_0x7f (g + 128), and_0x80 (g + 128), or_disjoint s val g)

split_group : (v q g p : ℕ) → v ≡ 128 * q + g → v * p ≡ g * p + q * (128 * p)
split_group v q g p e = omega (arith, ap (λ (t : ℕ). t * p) e)

below_next : (val g p : ℕ) → val < p → g < 128 → val + g * p < 128 * p
below_next val g p h l = let l' : g ≤ 127 = omega arith in omega (arith, mul-le-mul_right p l')

encode_loop_last : (v : ℕ) (w : Acc ◌<◌ v) → v < 128 → encode_varint_loop v w ≡ v ∷ []
unfolding encode_varint_loop
encode_loop_last v (Acc.intro _ smaller) h =
    dif_neg (dec_le 128 v) (omega arith) _ _ ∙ ap (λ (b : ℕ). b ∷ []) (omega arith)

encode_loop_more :
    (v : ℕ) (w : Acc ◌<◌ v)
    → 128 ≤ v
    → (w' : Acc ◌<◌ (v / 128)) × (encode_varint_loop v w
        ≡ (v % 128 + 128) ∷ encode_varint_loop (v / 128) w')
unfolding encode_varint_loop
encode_loop_more v (Acc.intro _ smaller) h = (
  smaller (v / 128) (varint_shrinks v h),
  dif_pos (dec_le 128 v) le_prop h _ _
      ∙ ap (λ (b : ℕ). b ∷ encode_varint_loop (v / 128) (smaller (v / 128) (varint_shrinks v h)))
          (or_0x80 v),
)

-- `v` is what is still to be read, from bit `s` on; `j` bytes are read and at most `k` follow the next.
decode_loop-encode_loop :
    (k j v i val s : ℕ) (w : Acc ◌<◌ v) (rest : Bytes)
    → v < 128 ^ suc k
    → j + k ≤ 9
    → s ≡ 7 * j
    → val < 2 ^ s
    → val + v * 2 ^ s < 2 ^ 64
    → decode_varint_loop (encode_varint_loop v w ++ rest) i val s
      ≡ ok (val + v * 2 ^ s, i + length (encode_varint_loop v w))
decode_loop-encode_loop zero j v i val s w rest hv hj hs low fits =
    rw (encode_loop_last v w (omega arith)) (last_group v i val s rest (omega arith) low fits)
decode_loop-encode_loop (suc k) j v i val s w rest hv hj hs low fits = elim (dec_le 128 v) [
  | no last ↦
      rw (encode_loop_last v w (omega arith)) (last_group v i val s rest (omega arith) low fits)
  | yes more ↦
      let (w', e) = encode_loop_more v w more in
      let split : v * 2 ^ s ≡ v % 128 * 2 ^ s + v / 128 * (128 * 2 ^ s) =
        split_group v (v / 128) (v % 128) (2 ^ s) (omega arith) in
      let next : v / 128 * 2 ^ (s + 7) ≡ v / 128 * (128 * 2 ^ s) =
        ap (λ (t : ℕ). v / 128 * t) (shift_seven s) in
      let fits' : val + v % 128 * 2 ^ s + v / 128 * 2 ^ (s + 7) < 2 ^ 64 = omega arith in
      rw e (
        inner_group (v % 128) i val s (encode_varint_loop (v / 128) w' ++ rest) (omega arith) low
          (omega arith) (omega arith)
        ∙ decode_loop-encode_loop k (j + 1) (v / 128) (i + 1) (val + v % 128 * 2 ^ s) (s + 7) w'
            rest (omega arith) (omega arith) (omega arith)
            (rw (shift_seven s) (below_next val (v % 128) (2 ^ s) low (omega arith))) fits'
        ∙ ground arith)
]

-- `decodeVarint` returns the number that was encoded and the count of its bytes, whatever follows.
pub decode_varint-encode_varint :
    (v : ℕ) (rest : Bytes)
    → v < 2 ^ 64
    → decode_varint (encode_varint v ++ rest) ≡ ok (v, length (encode_varint v))
unfolding decode_varint encode_varint
decode_varint-encode_varint v rest h =
    decode_loop-encode_loop 9 0 v 0 0 0 (lt_wf.apply v) rest (omega arith) (omega arith) refl
      (omega arith) (omega arith)
    ∙ ground arith

decode_loop_takes :
    (d : Bytes) (i val s j v n : ℕ)
    → s ≡ 7 * j
    → j ≤ 9
    → val < 2 ^ 64
    → decode_varint_loop d i val s ≡ ok (v, n)
    → (v < 2 ^ 64) × (i < n) × (n ≤ i + length d) × (n + j ≤ i + 10)
unfolding decode_varint_loop
decode_loop_takes [] i val s j v n hs hj hv e = cc
decode_loop_takes (b ∷ bs) i val s j v n hs hj hv e = ground (
  arith,
  or-lt 64 val (bit_and b 0x7f * 2 ^ s % 2 ^ 64),
  decode_loop_takes bs (i + 1) (bit_or val (bit_and b 0x7f * 2 ^ s % 2 ^ 64)) (s + 7) (j + 1) v n,
)

-- On any input, a number that `decodeVarint` accepts is a uint64 and took 1 to 10 of the bytes.
pub decode_varint_takes :
    (d : Bytes) (v n : ℕ)
    → decode_varint d ≡ ok (v, n)
    → (v < 2 ^ 64) × (0 < n) × (n ≤ length d) × (n ≤ 10)
unfolding decode_varint
decode_varint_takes d v n e = ground (arith, decode_loop_takes d 0 0 0 0 v n)
