-- ===== src/Encoding/Hex.antt =====
-- Go's encoding/hex: EncodeToString and DecodeString, an error of the latter as `none`.
use keet_agent.Prelude.{
  ℕ, ◌+◌, ◌-◌, ◌*◌, ◌/◌, ◌%◌, ◌<◌, All, ◌&&◌, [], ◌∷◌, length, Option, none, some, ltb, leb,
  if◌then◌else◌, ◌≡◌, refl, ap, subst, arith,
}
use keet_agent.Bytes.{Bytes}
use mathlib.Core.Option.{some-injective}

hex_digit : ℕ → ℕ
hex_digit n = if ltb n 10 then n + 48 else n + 87

hex_value : ℕ → Option ℕ
hex_value c =
    if leb 48 c && leb c 57
    then some (c - 48)
    else if leb 97 c && leb c 102
    then some (c - 87)
    else if leb 65 c && leb c 70
    then some (c - 55)
    else none

unfoldable pub encode_to_string : Bytes → Bytes
unfolding hex_digit
encode_to_string [] = []
encode_to_string (b ∷ bs) = hex_digit (b / 16) ∷ hex_digit (b % 16) ∷ encode_to_string bs

abbrev with_byte : Option ℕ → Option ℕ → Option Bytes → Option Bytes
with_byte (some x) (some y) (some bs) = some ((x * 16 + y) ∷ bs)
with_byte (some x) (some y) none = none
with_byte (some x) none rest = none
with_byte none y rest = none

unfoldable pub decode_string : Bytes → Option Bytes
unfolding hex_value
decode_string [] = some []
decode_string (x ∷ []) = none
decode_string (x ∷ y ∷ s) = with_byte (hex_value x) (hex_value y) (decode_string s)

hex_value-hex_digit : (n : ℕ) → n < 16 → hex_value (hex_digit n) ≡ some n
unfolding hex_value hex_digit
hex_value-hex_digit n h = ground arith

pub decode_string-encode_to_string :
    (bs : Bytes) → All (λ b. b < 256) bs → decode_string (encode_to_string bs) ≡ some bs
unfolding decode_string encode_to_string
decode_string-encode_to_string [] h = refl
decode_string-encode_to_string (b ∷ bs) h =
    rw
      (
        hex_value-hex_digit (b / 16) (omega arith),
        hex_value-hex_digit (b % 16) (omega arith),
        decode_string-encode_to_string bs h.1,
      )
      (ap (λ (v : ℕ). some (v ∷ bs)) (omega arith))

pub length-encode_to_string : (bs : Bytes) → length (encode_to_string bs) ≡ length bs * 2
unfolding encode_to_string
length-encode_to_string [] = refl
length-encode_to_string (b ∷ bs) = omega (arith, length-encode_to_string bs)

hex_value-lt : (c v : ℕ) → hex_value c ≡ some v → v < 16
unfolding hex_value
hex_value-lt c v h = ground arith

with_byte-All :
    (x y : Option ℕ) (rest : Option Bytes) (bs : Bytes)
    → ((v : ℕ) → x ≡ some v → v < 16)
    → ((v : ℕ) → y ≡ some v → v < 16)
    → ((r : Bytes) → rest ≡ some r → All (λ b. b < 256) r)
    → with_byte x y rest ≡ some bs
    → All (λ b. b < 256) bs
with_byte-All (some x) (some y) (some r) bs p q h e =
    let small : x * 16 + y < 256 = omega (arith, p x refl, q y refl) in
    subst (All (λ b. b < 256)) (some-injective ((x * 16 + y) ∷ r) bs e) (small, h r refl)
with_byte-All (some x) (some y) none bs p q h e = cc
with_byte-All (some x) none rest bs p q h e = cc
with_byte-All none y rest bs p q h e = cc

-- What is decoded are bytes.
pub decode_string-All : (s bs : Bytes) → decode_string s ≡ some bs → All (λ b. b < 256) bs
unfolding decode_string
decode_string-All [] bs e = subst (All (λ b. b < 256)) (some-injective [] bs e) tt
decode_string-All (x ∷ []) bs e = cc
decode_string-All (x ∷ y ∷ s) bs e =
    with_byte-All (hex_value x) (hex_value y) (decode_string s) bs (hex_value-lt x) (hex_value-lt y)
      (decode_string-All s) e
