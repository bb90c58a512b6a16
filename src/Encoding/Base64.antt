-- ===== src/Encoding/Base64.antt =====
-- Go's encoding/base64: StdEncoding with EncodeToString and DecodeString.
-- DecodeString skips line breaks and returns what it decoded in front of an error, which is `false` here.
use keet_agent.Prelude.{
  ℕ, ◌+◌, ◌-◌, ◌*◌, ◌/◌, ◌%◌, ◌<◌, All, Bool, true, false, ◌&&◌, ◌||◌, [], ◌∷◌, ◌++◌, Option, none,
  some, ltb, leb, ◌==◌, if◌then◌else◌, ◌≡◌, refl, ap, arith,
}
use keet_agent.Bytes.{Bytes}

base64_char : ℕ → ℕ
base64_char v =
    if ltb v 26
    then v + 65
    else if ltb v 52
    then v + 71
    else if ltb v 62
    then v - 4
    else if v == 62
    then 43
    else 47

base64_value : ℕ → Option ℕ
base64_value c =
    if leb 65 c && leb c 90
    then some (c - 65)
    else if leb 97 c && leb c 122
    then some (c - 71)
    else if leb 48 c && leb c 57
    then some (c + 4)
    else if c == 43
    then some 62
    else if c == 47
    then some 63
    else none

unfoldable pub encode_to_string : Bytes → Bytes
unfolding base64_char
encode_to_string [] = []
encode_to_string (a ∷ []) = base64_char (a / 4) ∷ base64_char (a % 4 * 16) ∷ 61 ∷ 61 ∷ []
encode_to_string (a ∷ b ∷ []) =
    base64_char (a / 4) ∷ base64_char (a % 4 * 16 + b / 16) ∷ base64_char (b % 16 * 4) ∷ 61 ∷ []
encode_to_string (a ∷ b ∷ c ∷ r) =
    base64_char (a / 4)
    ∷ base64_char (a % 4 * 16 + b / 16)
    ∷ base64_char (b % 16 * 4 + c / 64)
    ∷ base64_char (c % 64)
    ∷ encode_to_string r

abbrev prepend : Bytes → Bytes × Bool → Bytes × Bool
prepend bs (rest, fine) = (bs ++ rest, fine)

abbrev is_end : Bytes → Bool
is_end [] = true
is_end (x ∷ r) = false

-- A quantum with two, three or four characters of the alphabet, and what stands behind it.
padded_two : ℕ → ℕ → ℕ → ℕ → Bytes → Bytes × Bool
padded_two x y c d r = if c == 61 && d == 61 then ((x * 4 + y / 16) ∷ [], is_end r) else ([], false)

padded_three : ℕ → ℕ → ℕ → ℕ → Bytes → Bytes × Bool
padded_three x y z d r =
    if d == 61 then ((x * 4 + y / 16) ∷ (y % 16 * 16 + z / 4) ∷ [], is_end r) else ([], false)

abbrev quantum :
    Option ℕ → Option ℕ → Option ℕ → Option ℕ → ℕ → ℕ → Bytes → Bytes × Bool → Bytes × Bool
quantum (some x) (some y) (some z) (some w) c d r rest =
    prepend ((x * 4 + y / 16) ∷ (y % 16 * 16 + z / 4) ∷ (z % 4 * 64 + w) ∷ []) rest
quantum (some x) (some y) (some z) none c d r rest = padded_three x y z d r
quantum (some x) (some y) none w c d r rest = padded_two x y c d r
quantum (some x) none z w c d r rest = ([], false)
quantum none y z w c d r rest = ([], false)

decode_quanta : Bytes → Bytes × Bool
unfolding base64_value padded_two padded_three
decode_quanta (a ∷ b ∷ c ∷ d ∷ r) =
    quantum (base64_value a) (base64_value b) (base64_value c) (base64_value d) c d r
      (decode_quanta r)
decode_quanta [] = ([], true)
decode_quanta (a ∷ []) = ([], false)
decode_quanta (a ∷ b ∷ []) = ([], false)
decode_quanta (a ∷ b ∷ c ∷ []) = ([], false)

without_breaks : Bytes → Bytes
without_breaks [] = []
without_breaks (c ∷ r) =
    let rest = without_breaks r in if c == 10 || c == 13 then rest else c ∷ rest

unfoldable pub decode_string : Bytes → Bytes × Bool
unfolding decode_quanta without_breaks
decode_string s = decode_quanta (without_breaks s)

base64_value-base64_char : (v : ℕ) → v < 64 → base64_value (base64_char v) ≡ some v
unfolding base64_value base64_char
base64_value-base64_char v h = ground arith

base64_char-IsBreak : (v : ℕ) → v < 64 → (base64_char v == 10 || base64_char v == 13) ≡ false
unfolding base64_char
base64_char-IsBreak v h = ground arith

without_breaks-encode_to_string :
    (bs : Bytes)
    → All (λ b. b < 256) bs
    → without_breaks (encode_to_string bs) ≡ encode_to_string bs
unfolding without_breaks encode_to_string
without_breaks-encode_to_string [] h = refl
without_breaks-encode_to_string (a ∷ []) h =
    rw (base64_char-IsBreak (a / 4) (omega arith), base64_char-IsBreak (a % 4 * 16) (omega arith))
without_breaks-encode_to_string (a ∷ b ∷ []) h = rw (
  base64_char-IsBreak (a / 4) (omega arith),
  base64_char-IsBreak (a % 4 * 16 + b / 16) (omega arith),
  base64_char-IsBreak (b % 16 * 4) (omega arith),
)
without_breaks-encode_to_string (a ∷ b ∷ c ∷ r) h = rw (
  base64_char-IsBreak (a / 4) (omega arith),
  base64_char-IsBreak (a % 4 * 16 + b / 16) (omega arith),
  base64_char-IsBreak (b % 16 * 4 + c / 64) (omega arith),
  base64_char-IsBreak (c % 64) (omega arith),
  without_breaks-encode_to_string r h.1.1.1,
)

decode_quanta-encode_to_string :
    (bs : Bytes) → All (λ b. b < 256) bs → decode_quanta (encode_to_string bs) ≡ (bs, true)
unfolding decode_quanta encode_to_string padded_two padded_three
decode_quanta-encode_to_string [] h = refl
decode_quanta-encode_to_string (a ∷ []) h =
    rw
      (
        base64_value-base64_char (a / 4) (omega arith),
        base64_value-base64_char (a % 4 * 16) (omega arith),
      )
      (ap (λ (v : ℕ). (v ∷ [], true)) (omega arith))
decode_quanta-encode_to_string (a ∷ b ∷ []) h =
    rw
      (
        base64_value-base64_char (a / 4) (omega arith),
        base64_value-base64_char (a % 4 * 16 + b / 16) (omega arith),
        base64_value-base64_char (b % 16 * 4) (omega arith),
      )
      (ground arith)
decode_quanta-encode_to_string (a ∷ b ∷ c ∷ r) h =
    rw
      (
        base64_value-base64_char (a / 4) (omega arith),
        base64_value-base64_char (a % 4 * 16 + b / 16) (omega arith),
        base64_value-base64_char (b % 16 * 4 + c / 64) (omega arith),
        base64_value-base64_char (c % 64) (omega arith),
        decode_quanta-encode_to_string r h.1.1.1,
      )
      (ground arith)

pub decode_string-encode_to_string :
    (bs : Bytes) → All (λ b. b < 256) bs → decode_string (encode_to_string bs) ≡ (bs, true)
unfolding decode_string
decode_string-encode_to_string bs h =
    rw (without_breaks-encode_to_string bs h) (decode_quanta-encode_to_string bs h)
