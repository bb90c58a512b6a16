-- ===== src/Prelude/Bits.antt =====
-- The bit operations at variables.
use Prim.Native.Nat.{
  ℕ, zero, suc, ◌+◌, ◌*◌, ◌/◌, ◌%◌, ◌^◌, ◌≤◌, ◌<◌, min, max, bit_and, bit_or, bit_xor, differ,
  digits, bit_and-bitwise, bit_or-bitwise, bit_xor-bitwise,
}
use mathlib.Core.Path.{◌∙◌, ◌≡◌, refl, ap}
use mathlib.Core.Bool.{Bool, true, ◌&&◌}
use native.Mathlib.Omega.{arith}
use native.Mathlib.Nat.{pow-suc}
use keet_agent.Prelude.Tests.{◌==◌, ==_iff}

-- `absent` reads the second number where the first has run out, `both` combines two digits.
module _ (absent : ℕ → ℕ) (both : ℕ → ℕ → ℕ) where
  enough_digits :
      (k l a b : ℕ) → a ≤ k → a ≤ l → digits absent both k a b ≡ digits absent both l a b
  enough_digits zero zero a b _ _ = refl
  enough_digits (suc k) zero zero b _ _ = refl
  enough_digits (suc k) zero (suc a) b _ q = absurd (omega arith)
  enough_digits zero (suc l) zero b _ _ = refl
  enough_digits zero (suc l) (suc a) b p _ = absurd (omega arith)
  enough_digits (suc k) (suc l) zero b _ _ = refl
  enough_digits (suc k) (suc l) (suc a) b p q =
      ap (λ (t : ℕ). t * 2 + both (suc a % 2) (b % 2))
        (enough_digits k l (suc a / 2) (b / 2) (omega arith) (omega arith))

or_digit : (a b : ℕ) → bit_or a b ≡ bit_or (a / 2) (b / 2) * 2 + max (a % 2) (b % 2)
or_digit zero b = omega (arith, bit_or-bitwise 0 b, bit_or-bitwise 0 (b / 2))
or_digit (suc a) b = omega (
  arith,
  bit_or-bitwise (suc a) b,
  bit_or-bitwise (suc a / 2) (b / 2),
  enough_digits (λ y. y) max a (suc a / 2) (suc a / 2) (b / 2) (omega arith) (omega arith),
)

and_digit : (a b : ℕ) → bit_and a b ≡ bit_and (a / 2) (b / 2) * 2 + min (a % 2) (b % 2)
and_digit zero b = omega (arith, bit_and-bitwise 0 b, bit_and-bitwise 0 (b / 2))
and_digit (suc a) b = omega (
  arith,
  bit_and-bitwise (suc a) b,
  bit_and-bitwise (suc a / 2) (b / 2),
  enough_digits (λ y. 0) min a (suc a / 2) (suc a / 2) (b / 2) (omega arith) (omega arith),
)

or-zero_below : (k a : ℕ) → a ≤ k → bit_or a 0 ≡ a
or-zero_below k zero h = refl
or-zero_below zero (suc a) h = absurd (omega arith)
or-zero_below (suc k) (suc a) h =
    omega (arith, or_digit (suc a) 0, or-zero_below k (suc a / 2) (omega arith))

zero-or : (b : ℕ) → bit_or 0 b ≡ b
zero-or b = bit_or-bitwise 0 b

-- Two numbers that share no digit: `b` lies above the `s` digits of `a`.
pub or_disjoint : (s a g : ℕ) → a < 2 ^ s → bit_or a (g * 2 ^ s) ≡ a + g * 2 ^ s
or_disjoint zero a g h = ground (arith, zero-or g)
or_disjoint (suc s) a g h = ground (
  arith,
  or_digit a (g * 2 ^ suc s),
  double,
  pow-suc 2 s,
  or_disjoint s (a / 2) g (omega (arith, pow-suc 2 s)),
)
  where
    double : g * 2 ^ suc s ≡ g * 2 ^ s * 2
    double = omega (arith, ap (λ (t : ℕ). g * t) (pow-suc 2 s))

and-zero_below : (k a : ℕ) → a ≤ k → bit_and a 0 ≡ 0
and-zero_below k zero h = refl
and-zero_below zero (suc a) h = absurd (omega arith)
and-zero_below (suc k) (suc a) h =
    omega (arith, and_digit (suc a) 0, and-zero_below k (suc a / 2) (omega arith))

and-one : (a : ℕ) → bit_and a 1 ≡ a % 2
and-one a = omega (arith, and_digit a 1, and-zero_below (a / 2) (a / 2) (omega arith))

-- x & 7
pub and_seven : (a : ℕ) → bit_and a 7 ≡ a % 8
and_seven a = omega (arith, and_digit a 7, and_digit (a / 2) 3, and-one (a / 2 / 2))

-- x & 15
and_fifteen : (a : ℕ) → bit_and a 15 ≡ a % 16
and_fifteen a = omega (arith, and_digit a 15, and_seven (a / 2))

-- x & 127
pub and_0x7f : (a : ℕ) → bit_and a 0x7f ≡ a % 128
and_0x7f a = omega (
  arith,
  and_digit a 127,
  and_digit (a / 2) 63,
  and_digit (a / 2 / 2) 31,
  and_fifteen (a / 2 / 2 / 2),
)

or-one : (a : ℕ) → bit_or a 1 ≡ a / 2 * 2 + 1
or-one a = omega (arith, or_digit a 1, or-zero_below (a / 2) (a / 2) (omega arith))

or_sixteen : (a : ℕ) → bit_or a 16 ≡ a / 32 * 32 + 16 + a % 16
or_sixteen a = omega (
  arith,
  or_digit a 16,
  or_digit (a / 2) 8,
  or_digit (a / 2 / 2) 4,
  or_digit (a / 2 / 2 / 2) 2,
  or-one (a / 2 / 2 / 2 / 2),
)

-- byte(x | 0x80)
pub or_0x80 : (a : ℕ) → bit_or a 0x80 % 256 ≡ a % 128 + 128
or_0x80 a = omega (
  arith,
  or_digit a 128,
  or_digit (a / 2) 64,
  or_digit (a / 2 / 2) 32,
  or_sixteen (a / 2 / 2 / 2),
)

-- A property of all numbers below a bound, by evaluation.
unfoldable pub all_below : ℕ → (ℕ → Bool) → Bool
all_below zero p = true
all_below (suc n) p = p n && all_below n p

pub of_table : (n : ℕ) (p : ℕ → Bool) (x : ℕ) → all_below n p ≡ true → x < n → p x ≡ true
unfolding all_below
of_table zero p x t h = absurd (omega arith)
of_table (suc n) p x t h = ground (arith, of_table n p x)

-- b & 0x80
pub and_0x80 : (b : ℕ) → b < 256 → bit_and b 0x80 ≡ b / 128 * 128
unfolding all_below
and_0x80 b h = (==_iff _ _).0 (of_table 256 (λ b. bit_and b 0x80 == b / 128 * 128) b refl h)

-- field << 3 | wire, for a wire type of three bits.
pub or_tag : (f w : ℕ) → w < 8 → bit_or (f * 8) w ≡ f * 8 + w
or_tag f w h = ground (
  arith,
  or_digit (f * 8) w,
  or_digit (f * 8 / 2) (w / 2),
  or_digit (f * 8 / 2 / 2) (w / 2 / 2),
  or-zero_below f f,
)

-- `|` keeps a number of bits.
pub or-lt : (s a b : ℕ) → a < 2 ^ s → b < 2 ^ s → bit_or a b < 2 ^ s
or-lt zero a b h k = ground (arith, zero-or b)
or-lt (suc s) a b h k = ground (arith, or_digit a b, pow-suc 2 s, or-lt s (a / 2) (b / 2))

xor_digit : (a b : ℕ) → bit_xor a b ≡ bit_xor (a / 2) (b / 2) * 2 + differ (a % 2) (b % 2)
xor_digit zero b =
    ground (arith, bit_xor-bitwise 0 b, bit_xor-bitwise 0 (b / 2), differ-zero (b % 2))
  where
    differ-zero : (y : ℕ) → differ 0 y ≡ y
    differ-zero y = refl
xor_digit (suc a) b = omega (
  arith,
  bit_xor-bitwise (suc a) b,
  bit_xor-bitwise (suc a / 2) (b / 2),
  enough_digits (λ y. y) differ a (suc a / 2) (suc a / 2) (b / 2) (omega arith) (omega arith),
)

differ_bit : (x y : ℕ) → x < 2 → y < 2 → differ x y < 2
differ_bit zero y h k = k
differ_bit (suc zero) zero h k = omega arith
differ_bit (suc zero) (suc zero) h k = omega arith
differ_bit (suc zero) (suc (suc y)) h k = absurd (omega arith)
differ_bit (suc (suc x)) y h k = absurd (omega arith)

-- `^` keeps a number of bits.
pub xor-lt : (s a b : ℕ) → a < 2 ^ s → b < 2 ^ s → bit_xor a b < 2 ^ s
xor-lt zero zero zero h k = omega arith
xor-lt zero zero (suc b) h k = absurd (omega arith)
xor-lt zero (suc a) b h k = absurd (omega arith)
xor-lt (suc s) a b h k = ground (
  arith,
  xor_digit a b,
  pow-suc 2 s,
  xor-lt s (a / 2) (b / 2),
  differ_bit (a % 2) (b % 2) (omega arith) (omega arith),
)

differ_cancel : (x y : ℕ) → x < 2 → y < 2 → differ (differ x y) y ≡ x
differ_cancel zero zero h k = refl
differ_cancel zero (suc zero) h k = refl
differ_cancel (suc zero) zero h k = refl
differ_cancel (suc zero) (suc zero) h k = refl
differ_cancel x (suc (suc y)) h k = absurd (omega arith)
differ_cancel (suc (suc x)) y h k = absurd (omega arith)

-- A second `^` with the same number undoes the first.
pub xor_cancel : (s a b : ℕ) → a < 2 ^ s → b < 2 ^ s → bit_xor (bit_xor a b) b ≡ a
xor_cancel zero zero zero h k = refl
xor_cancel zero zero (suc b) h k = absurd (omega arith)
xor_cancel zero (suc a) b h k = absurd (omega arith)
xor_cancel (suc s) a b h k =
    let d = differ_bit (a % 2) (b % 2) (omega arith) (omega arith) in
    let half : bit_xor a b / 2 ≡ bit_xor (a / 2) (b / 2) = omega (arith, xor_digit a b, d) in
    let odd : bit_xor a b % 2 ≡ differ (a % 2) (b % 2) = omega (arith, xor_digit a b, d) in
    let rest : bit_xor (bit_xor (a / 2) (b / 2)) (b / 2) ≡ a / 2 =
      xor_cancel s (a / 2) (b / 2) (omega (arith, pow-suc 2 s)) (omega (arith, pow-suc 2 s)) in
    xor_digit (bit_xor a b) b
    ∙ rw (half, odd, rest, differ_cancel (a % 2) (b % 2) (omega arith) (omega arith)) (omega arith)
