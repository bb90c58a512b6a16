-- ===== src/Bytes/Laws.antt =====
-- Lemmas on encoding/binary and io.ReadFull: written integers, and reads from the front.
use keet_agent.Prelude.{
  ℕ, zero, suc, ◌+◌, ◌*◌, ◌/◌, ◌%◌, ◌^◌, ◌<◌, ◌≤◌, [], ◌∷◌, ◌++◌, take, drop, length, ◌≡◌, refl,
  arith, ap, ap₂, subst, subst₂, sym, ◌∙◌, All, length-append, take-append, drop-append,
  take-append-drop, length-take,
}
use keet_agent.Prelude.Result.{ok, >>=-eq-ok}
use keet_agent.Bytes.{Bytes, put_uint, get_uint, read_full, read_uint}
use native.Mathlib.Nat.{
  pow-suc, div-add-mod, div-div-eq-div-mul, mul_comm, mul-add-div_right, div-eq_of_lt,
  mul-le-mul_right, mod-eq_of_lt,
}

length-put_uint : (k v : ℕ) → length (put_uint k v) ≡ k
length-put_uint zero v = refl
length-put_uint (suc k) v = ap suc (length-put_uint k v)

put_uint-All : (k v : ℕ) → All (λ b. b < 256) (put_uint k v)
put_uint-All zero v = tt
put_uint-All (suc k) v = (omega arith, put_uint-All k v)

digit_and_rest :
    (v p q r u d m : ℕ) → p * q + r ≡ v → 256 * u + d ≡ q → 256 * p * u + m ≡ v → m ≡ d * p + r
digit_and_rest v p q r u d m a b c = omega (arith, ap (λ (t : ℕ). p * t) b)

mod_split : (v p : ℕ) → v % (256 * p) ≡ v / p % 256 * p + v % p
mod_split v p =
    digit_and_rest v p (v / p) (v % p) (v / p / 256) (v / p % 256) (v % (256 * p)) (div-add-mod v p)
      (div-add-mod (v / p) 256)
      (rw (div-div-eq-div-mul v p 256, mul_comm p 256) (div-add-mod v (256 * p)))

-- The value of k bytes is the number that they were made from, as far as k bytes hold it.
get_uint-put_uint_mod : (k acc v : ℕ) → get_uint acc (put_uint k v) ≡ acc * 256 ^ k + v % 256 ^ k
get_uint-put_uint_mod zero acc v = omega arith
get_uint-put_uint_mod (suc k) acc v =
    get_uint-put_uint_mod k (acc * 256 + v / 256 ^ k % 256) v
    ∙ rw (pow-suc 256 k, mul_comm (256 ^ k) 256, mod_split v (256 ^ k)) (omega arith)

pub get_uint-put_uint : (k v : ℕ) → v < 256 ^ k → get_uint 0 (put_uint k v) ≡ v
get_uint-put_uint k v h = get_uint-put_uint_mod k 0 v ∙ omega (arith, mod-eq_of_lt h)

read_full-append : (xs rest : Bytes) → read_full (length xs) (xs ++ rest) ≡ ok (xs, rest)
unfolding read_full
read_full-append xs rest =
    rw (take-append xs rest, drop-append xs rest) (ground (arith, length-append xs rest))

-- A read of a number of bytes that is known under another name.
pub read_full-append_of :
    (n : ℕ) (xs rest : Bytes) → n ≡ length xs → read_full n (xs ++ rest) ≡ ok (xs, rest)
read_full-append_of n xs rest e = rw e (read_full-append xs rest)

pub read_uint-put_uint :
    (k v : ℕ) (rest : Bytes) → v < 256 ^ k → read_uint k (put_uint k v ++ rest) ≡ ok (v, rest)
unfolding read_uint
read_uint-put_uint k v rest h =
    rw (read_full-append_of k (put_uint k v) rest (sym (length-put_uint k v)))
      (ap (λ (t : ℕ). ok (t, rest)) (get_uint-put_uint k v h))

abbrev pub IsByte : ℕ → Type 0
IsByte b = b < 256

digit_below : (b t p : ℕ) → b < 256 → t < p → b * p + t < 256 * p
digit_below b t p h l = let h' : b ≤ 255 = omega arith in omega (arith, mul-le-mul_right p h')

-- The accumulator counts above the bytes.
pub get_uint_split :
    (acc : ℕ) (bs : Bytes)
    → All IsByte bs
    → (t : ℕ) × (get_uint acc bs ≡ acc * 256 ^ length bs + t) × (t < 256 ^ length bs)
get_uint_split acc [] h = (0, omega arith, omega arith)
get_uint_split acc (b ∷ bs) (h, hs) =
    let (t, e, l) = get_uint_split (acc * 256 + b) bs hs in
    let p : 256 ^ suc (length bs) ≡ 256 ^ length bs * 256 = pow-suc 256 (length bs) in
    (
      b * 256 ^ length bs + t,
      omega (arith, e, ap (λ (u : ℕ). acc * u) p),
      omega (arith, p, digit_below b t (256 ^ length bs) h l),
    )

get_uint-lt : (bs : Bytes) → All IsByte bs → get_uint 0 bs < 256 ^ length bs
get_uint-lt bs h = let (t, e, l) = get_uint_split 0 bs h in omega (arith, e, l)

quotient : (a p t n : ℕ) → n ≡ a * p + t → t < p → n / p ≡ a
quotient a p t n e l =
    rw (e, mul-add-div_right {m = p} (omega arith) a t, div-eq_of_lt l) (omega arith)

put_uint-get_uint_acc :
    (acc : ℕ) (bs : Bytes) → All IsByte bs → put_uint (length bs) (get_uint acc bs) ≡ bs
put_uint-get_uint_acc acc [] h = refl
put_uint-get_uint_acc acc (b ∷ bs) (h, hs) =
    let (t, e, l) = get_uint_split (acc * 256 + b) bs hs in
    ap₂ ◌∷◌
      (ap (λ (q : ℕ). q % 256) (quotient (acc * 256 + b) (256 ^ length bs) t _ e l) ∙ omega arith)
      (put_uint-get_uint_acc (acc * 256 + b) bs hs)

-- A number of k bytes is written back to the same bytes.
pub put_uint-get_uint :
    (k : ℕ) (bs : Bytes) → All IsByte bs → length bs ≡ k → put_uint k (get_uint 0 bs) ≡ bs
put_uint-get_uint k bs h e = rw (← e) (put_uint-get_uint_acc 0 bs h)

-- What an exact read returns.
pub read_full-eq_ok :
    (n : ℕ) (r : Bytes) {b rest : Bytes}
    → read_full n r ≡ ok (b, rest)
    → (r ≡ b ++ rest) × (length b ≡ n)
unfolding read_full
read_full-eq_ok n r {b} {rest} h = ground (arith, take-append-drop n r, length-take n r)

All-append_left : (xs ys : Bytes) → All IsByte (xs ++ ys) → All IsByte xs
All-append_left [] ys h = tt
All-append_left (x ∷ xs) ys (h, hs) = (h, All-append_left xs ys hs)

pub All-append_right : (xs ys : Bytes) → All IsByte (xs ++ ys) → All IsByte ys
All-append_right [] ys h = h
All-append_right (x ∷ xs) ys (h, hs) = All-append_right xs ys hs

pub take-All : (n : ℕ) (xs : Bytes) → All IsByte xs → All IsByte (take n xs)
take-All zero xs h = tt
take-All (suc n) [] h = tt
take-All (suc n) (x ∷ xs) (h, hs) = (h, take-All n xs hs)

pub drop-All : (n : ℕ) (xs : Bytes) → All IsByte xs → All IsByte (drop n xs)
drop-All zero xs h = h
drop-All (suc n) [] h = tt
drop-All (suc n) (x ∷ xs) (h, hs) = drop-All n xs hs

-- What reading an integer of `k` bytes returns: the input was that integer written, and the rest.
pub read_uint-eq_ok :
    (k : ℕ) (r : Bytes) {v : ℕ} {rest : Bytes}
    → All IsByte r
    → read_uint k r ≡ ok (v, rest)
    → (r ≡ put_uint k v ++ rest) × (v < 256 ^ k) × All IsByte rest
unfolding read_uint
read_uint-eq_ok k r {v} {rest} hb h =
    let ((b, rest'), e, e') = >>=-eq-ok (read_full k r) _ h in
    let (whole, width) = read_full-eq_ok k r e in
    let hb' : All IsByte (b ++ rest') = subst (All IsByte) whole hb in
    let low : All IsByte b = All-append_left b rest' hb' in
    let value : get_uint 0 b ≡ v = cc in
    let same : rest' ≡ rest = cc in
    (
      whole ∙ ap₂ ◌++◌ (sym (put_uint-get_uint k b low width) ∙ ap (put_uint k) value) same,
      subst₂ (λ u n. u < 256 ^ n) value width (get_uint-lt b low),
      subst (All IsByte) same (All-append_right b rest' hb'),
    )
