-- ===== src/Prelude/Result.antt =====
-- What a Go call comes back with: a value, an error value, or a runtime panic.
use mathlib.Core.Path.{◌≡◌, refl}
use mathlib.Core.Bool.{Bool, true, false}

pub data Result {ℓ κ} (E : Type ℓ) (A : Type κ) : Type (ℓ ⊔ κ) where
  ok : A → Result E A
  err : E → Result E A
  panic : Result E A

module _ {ℓ κ μ} {E : Type ℓ} {A : Type κ} {B : Type μ} where
  infixl 5 ◌>>=◌
  abbrev pub ◌>>=◌ : Result E A → (A → Result E B) → Result E B
  panic >>= next = panic
  err why >>= next = err why
  ok value >>= next = next value

  -- A successful chain had a successful first step.
  pub >>=-eq-ok :
      (first : Result E A) (next : A → Result E B) {r : B}
      → (first >>= next) ≡ ok r
      → (value : A) × (first ≡ ok value) × (next value ≡ ok r)
  >>=-eq-ok panic next done = cc
  >>=-eq-ok (err why) next done = cc
  >>=-eq-ok (ok value) next done = (value, refl, done)

abbrev pub is_ok {ℓ κ} : {E : Type ℓ} {A : Type κ} → Result E A → Bool
is_ok (ok a) = true
is_ok (err e) = false
is_ok panic = false
