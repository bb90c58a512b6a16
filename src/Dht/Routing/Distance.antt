-- ===== src/Dht/Routing/Distance.antt =====
-- xorDistance and compareDistance (pkg/dht/routing.go), and the number that a distance stands for.
use keet_agent.Prelude.{
  ℕ, suc, ◌+◌, ◌*◌, ◌^◌, ◌≤◌, ◌<◌, [], ◌∷◌, length, ltb, if◌then◌else◌, ◌≡◌, refl, sym, ap, subst,
  ◌∙◌, arith, All,
}
use keet_agent.Prelude.Bits.{xor-lt}
use keet_agent.Bytes.{Bytes, get_uint}
use keet_agent.Bytes.Laws.{IsByte, get_uint_split}
use keet_agent.Dht.Routing.{
  Contact, xor_distance, Compared, nearer, same, farther, compare_distance, is_nearer,
}
use native.Mathlib.Nat.{mul-le-mul_right}

-- An ID as [32]byte holds it.
pub record IsId (id : Bytes) : Type 0 where
  pub size : length id ≡ 32
  pub bytes : All IsByte id

xor_distance-All : (a b : Bytes) → All IsByte a → All IsByte b → All IsByte (xor_distance a b)
unfolding xor_distance
xor_distance-All [] ys h k = tt
xor_distance-All (x ∷ xs) [] h k = tt
xor_distance-All (x ∷ xs) (y ∷ ys) (h, hs) (k, ks) =
    (xor-lt 8 x y h k, xor_distance-All xs ys hs ks)

length-xor_distance : (a b : Bytes) → length a ≡ length b → length (xor_distance a b) ≡ length a
unfolding xor_distance
length-xor_distance [] ys h = refl
length-xor_distance (x ∷ xs) [] h = absurd (omega arith)
length-xor_distance (x ∷ xs) (y ∷ ys) h = ap suc (length-xor_distance xs ys (omega arith))

-- The order of two numbers.
abbrev pub compare_value : ℕ → ℕ → Compared
compare_value a b = if ltb a b then nearer else if ltb b a then farther else same

-- A smaller digit decides, whatever stands behind it.
digit_decides : (a x y p t u : ℕ) → x < y → t < p → (a * 256 + x) * p + t < (a * 256 + y) * p + u
digit_decides a x y p t u h k =
    let h' : a * 256 + x + 1 ≤ a * 256 + y = omega arith in omega (arith, mul-le-mul_right p h')

value_order :
    (acc x y : ℕ) (xs ys : Bytes)
    → x < y
    → length xs ≡ length ys
    → All IsByte xs
    → All IsByte ys
    → get_uint (acc * 256 + x) xs < get_uint (acc * 256 + y) ys
value_order acc x y xs ys h e hx hy =
    let (t, et, lt) = get_uint_split (acc * 256 + x) xs hx in
    let (u, eu, lu) = get_uint_split (acc * 256 + y) ys hy in
    rw (et, eu)
      (rw e (digit_decides acc x y (256 ^ length ys) t u h (subst (λ n. t < 256 ^ n) e lt)))

compare_distance-value_acc :
    (acc : ℕ) (a b : Bytes)
    → length a ≡ length b
    → All IsByte a
    → All IsByte b
    → compare_distance a b ≡ compare_value (get_uint acc a) (get_uint acc b)
unfolding compare_distance
compare_distance-value_acc acc [] [] e h k = ground arith
compare_distance-value_acc acc [] (y ∷ ys) e h k = absurd (omega arith)
compare_distance-value_acc acc (x ∷ xs) [] e h k = absurd (omega arith)
compare_distance-value_acc acc (x ∷ xs) (y ∷ ys) e (h, hs) (k, ks) =
    let len : length xs ≡ length ys = omega arith in
    let below : x < y → get_uint (acc * 256 + x) xs < get_uint (acc * 256 + y) ys =
      λ l. value_order acc x y xs ys l len hs ks in
    let above : y < x → get_uint (acc * 256 + y) ys < get_uint (acc * 256 + x) xs =
      λ l. value_order acc y x ys xs l (sym len) ks hs in
    let equal : x ≡ y
        → compare_distance xs ys
          ≡ compare_value (get_uint (acc * 256 + x) xs) (get_uint (acc * 256 + y) ys) =
      λ p.
        compare_distance-value_acc (acc * 256 + x) xs ys len hs ks
        ∙ ap (λ (z : ℕ). compare_value (get_uint (acc * 256 + x) xs) (get_uint (acc * 256 + z) ys))
            p in
    ground (arith, below, above, equal)

-- The distance of an ID from a target, as a number.
abbrev pub distance : Bytes → Bytes → ℕ
distance id target = get_uint 0 (xor_distance id target)

-- Over IDs of 32 bytes, compareDistance compares the XOR of the IDs as 256-bit numbers.
pub compare_distance-distance :
    (a b target : Bytes)
    → IsId a
    → IsId b
    → IsId target
    → compare_distance (xor_distance a target) (xor_distance b target)
      ≡ compare_value (distance a target) (distance b target)
compare_distance-distance a b target ha hb ht =
    let ea : length (xor_distance a target) ≡ length a =
      length-xor_distance a target (ha.size ∙ sym ht.size) in
    let eb : length (xor_distance b target) ≡ length b =
      length-xor_distance b target (hb.size ∙ sym ht.size) in
    compare_distance-value_acc 0 (xor_distance a target) (xor_distance b target)
      (ea ∙ ha.size ∙ sym (eb ∙ hb.size)) (xor_distance-All a target ha.bytes ht.bytes)
      (xor_distance-All b target hb.bytes ht.bytes)

pub is_nearer-distance :
    (target : Bytes) (a b : Contact)
    → IsId a.id
    → IsId b.id
    → IsId target
    → is_nearer target a b ≡ ltb (distance a.id target) (distance b.id target)
unfolding is_nearer
is_nearer-distance target a b ha hb ht =
    ground (arith, compare_distance-distance a.id b.id target ha hb ht)
