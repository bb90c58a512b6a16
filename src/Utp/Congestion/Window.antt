-- ===== src/Utp/Congestion/Window.antt =====
-- The window and the base delay of a LEDBATController (pkg/utp/ledbat.go) over its calls.
use keet_agent.Prelude.{
  ℕ, zero, suc, true, false, ◌+◌, ◌-◌, ◌*◌, ◌^◌, ◌≤◌, ◌<◌, Bool-cases, All, List, [], ◌∷◌,
  get_elem?, some, ◌≡◌, inl, inr, refl, ap, ◌∙◌, subst, arith, ◌==◌, ltb, ◌||◌,
}
use native.Mathlib.Nat.{mul-le-mul}
use keet_agent.Utp.Congestion.{
  Change, growth, shrinkage, LedbatController, new_ledbat_controller, update_delay, off_target,
  changed, clamp_cwnd, target, Floats, gain, adjustment, on_ack, CongestionEvent, measured, acked,
  run_events, min_cwnd, max_cwnd,
}

-- What IEEE 754 says of float64, of numbers with integer bounds below 2 ^ 53: `Up x n` is a number without
-- the sign bit and `Down x n` one with it, of a magnitude of at most n.
pub record IsFloats (f : Floats) : Type 1 where
  pub Up : f.Float → ℕ → Type 0
  pub Down : f.Float → ℕ → Type 0
  pub of_int-Up : (k : ℕ) → k < 2 ^ 53 → Up (f.of_int (growth k)) k
  pub mul-Up : (x y : f.Float) (n m : ℕ) → Up x n → Up y m → n * m < 2 ^ 53 → Up (f.mul x y) (n * m)
  pub mul-Up_Down :
      (x y : f.Float) (n m : ℕ) → Up x n → Down y m → n * m < 2 ^ 53 → Down (f.mul x y) (n * m)
  pub mul-Down_Up :
      (x y : f.Float) (n m : ℕ) → Down x n → Up y m → n * m < 2 ^ 53 → Down (f.mul x y) (n * m)
  pub div-Up :
      (a b q : ℕ)
      → a < 2 ^ 53
      → 0 < b
      → b < 2 ^ 53
      → q < 2 ^ 53
      → a ≤ q * b
      → Up (f.div (f.of_int (growth a)) (f.of_int (growth b))) q
  pub div-Down :
      (a b q : ℕ)
      → 0 < a
      → a < 2 ^ 53
      → 0 < b
      → b < 2 ^ 53
      → q < 2 ^ 53
      → a ≤ q * b
      → Down (f.div (f.of_int (shrinkage a)) (f.of_int (growth b))) q
  pub to_int-Up :
      (x : f.Float) (n : ℕ) → Up x n → n < 2 ^ 53 → (k : ℕ) × (k ≤ n) × (f.to_int x ≡ growth k)
  pub to_int-Down :
      (x : f.Float) (n : ℕ) → Down x n → n < 2 ^ 53 → (k : ℕ) × (k ≤ n) × (f.to_int x ≡ shrinkage k)

-- The measured delays, the newest first, in front of earlier ones.
abbrev pub delays : List ℕ → List CongestionEvent → List ℕ
delays seen [] = seen
delays seen (measured d ∷ es) = delays (d ∷ seen) es
delays seen (acked ∷ es) = delays seen es

-- A delay that is not 0, below 104 days.
abbrev pub IsDelay : ℕ → Type 0
IsDelay d = (0 < d) × (d < 2 ^ 53)

-- The base delay: 0 before a measurement, and then the least delay.
pub data IsLeast (base : ℕ) : List ℕ → Type 0 where
  unmeasured : base ≡ 0 → IsLeast base []
  least :
      {ds : List ℕ} (i : ℕ) → get_elem? ds i ≡ some base → All (λ d. base ≤ d) ds → IsLeast base ds

-- The window keeps its bounds, the last delay is one, and the base delay is that of the measurements.
pub record IsController (mss : ℕ) (seen : List ℕ) (c : LedbatController) : Type 0 where
  pub same_mss : c.mss ≡ mss
  pub last : c.last_delay < 2 ^ 53
  pub low : min_cwnd ≤ c.cwnd
  pub high : c.cwnd ≤ max_cwnd
  pub base : IsLeast c.base_delay seen

weaken : (a b : ℕ) (ds : List ℕ) → a ≤ b → All (λ d. b ≤ d) ds → All (λ d. a ≤ d) ds
weaken a b [] le h = tt
weaken a b (d ∷ ds) le (h, hs) = (omega arith, weaken a b ds le hs)

positive_at : (ds : List ℕ) (i b : ℕ) → get_elem? ds i ≡ some b → All IsDelay ds → 0 < b
positive_at [] i b there pos = cc
positive_at (d ∷ ds) zero b there ((h, _), pos) = ground (arith, h, there)
positive_at (d ∷ ds) (suc i) b there (h, pos) = positive_at ds i b there pos

keep_or_replace : (b d : ℕ) → 0 < b → (b == 0 || ltb d b) ≡ ltb d b
keep_or_replace b d h = ground arith

update_delay-IsLeast :
    (c : LedbatController) (d : ℕ) (seen : List ℕ)
    → All IsDelay seen
    → IsLeast c.base_delay seen
    → IsLeast (update_delay c d).base_delay (d ∷ seen)
unfolding update_delay
update_delay-IsLeast c d seen pos (unmeasured none_yet) =
    rw none_yet (least 0 refl (omega arith, tt))
update_delay-IsLeast c d seen pos (least i there below) =
    let b = c.base_delay in
    rw (keep_or_replace b d (positive_at seen i b there pos)) (elim (Bool-cases (ltb d b)) [
      | inl less ↦
          rw less (least 0 refl (omega arith, weaken d b seen (ground (arith, less)) below))
      | inr more ↦ rw more (least (suc i) there (ground (arith, more), below))
    ])

earlier :
    (seen : List ℕ) (es : List CongestionEvent) → All IsDelay (delays seen es) → All IsDelay seen
earlier seen [] pos = pos
earlier seen (measured d ∷ es) pos = (earlier (d ∷ seen) es pos).1
earlier seen (acked ∷ es) pos = earlier seen es pos

clamp_cwnd-in_range : (n : ℕ) → (min_cwnd ≤ clamp_cwnd n) × (clamp_cwnd n ≤ max_cwnd)
clamp_cwnd-in_range n = (ground arith, ground arith)

clamp_cwnd-grown : (w n : ℕ) → w ≤ max_cwnd → w ≤ clamp_cwnd (w + n)
clamp_cwnd-grown w n high = ground arith

clamp_cwnd-shrunk : (w n : ℕ) → min_cwnd ≤ w → clamp_cwnd (w - n) ≤ w
clamp_cwnd-shrunk w n low = ground arith

clamp_cwnd-step : (w n m : ℕ) → min_cwnd ≤ w → n ≤ m → clamp_cwnd (w + n) ≤ w + m
clamp_cwnd-step w n m low le = ground arith

off_target-near :
    (c : LedbatController)
    → c.last_delay ≤ c.base_delay + target
    → (n : ℕ) × (n ≤ target) × (off_target c ≡ growth n)
off_target-near c near =
    let inside : ltb target (c.last_delay - c.base_delay) ≡ false = ground (arith, near) in
    (target - (c.last_delay - c.base_delay), omega arith, rw inside refl)

off_target-far :
    (c : LedbatController)
    → c.base_delay + target < c.last_delay
    → (n : ℕ) × (0 < n) × (n ≤ c.last_delay) × (off_target c ≡ shrinkage n)
off_target-far c far =
    let outside : ltb target (c.last_delay - c.base_delay) ≡ true = ground (arith, far) in
    (c.last_delay - c.base_delay - target, omega arith, omega arith, rw outside refl)

module _ (f : Floats) where
  on_ack-IsController :
      (c : LedbatController) (mss : ℕ) (seen : List ℕ)
      → IsController mss seen c
      → IsController mss seen (on_ack f c)
  unfolding on_ack
  on_ack-IsController c mss seen h = elim (Bool-cases (c.base_delay == 0)) [
    | inl none_yet ↦ rw none_yet h
    | inr some_yet ↦
        let (low, high) = clamp_cwnd-in_range (changed c.cwnd (f.to_int (adjustment f c))) in
        rw some_yet
          (record { same_mss = h.same_mss; low = low; high = high; last = h.last; base = h.base })
  ]

  run_events-IsController :
      (c : LedbatController) (mss : ℕ) (seen : List ℕ) (es : List CongestionEvent)
      → All IsDelay (delays seen es)
      → IsController mss seen c
      → IsController mss (delays seen es) (run_events f c es)
  unfolding run_events
  run_events-IsController c mss seen [] pos h = h
  run_events-IsController c mss seen (measured d ∷ es) pos h =
      let (now, before) = earlier (d ∷ seen) es pos in
      run_events-IsController (update_delay c d) mss (d ∷ seen) es pos (record {
        same_mss = h.same_mss;
        low = h.low;
        high = h.high;
        last = now.1;
        base = update_delay-IsLeast c d seen before h.base;
      })
  run_events-IsController c mss seen (acked ∷ es) pos h =
      run_events-IsController (on_ack f c) mss seen es pos (on_ack-IsController c mss seen h)

  -- With at most the target of queuing delay an acknowledgement does not shrink the window, and grows one of
  -- a segment or more by at most a segment; with more it does not let it grow.
  pub record Steers (c : LedbatController) : Type 0 where
    pub near : c.last_delay ≤ c.base_delay + target → c.cwnd ≤ (on_ack f c).cwnd
    pub step :
        c.last_delay ≤ c.base_delay + target → c.mss ≤ c.cwnd → (on_ack f c).cwnd ≤ c.cwnd + c.mss
    pub far : c.base_delay + target < c.last_delay → (on_ack f c).cwnd ≤ c.cwnd

  adjustment-at :
      (c : LedbatController) (d : Change)
      → off_target c ≡ d
      → f.to_int (adjustment f c)
        ≡ f.to_int (
            f.mul
              (f.mul
                (f.mul (f.of_int (growth c.mss)) (f.of_int (growth gain)))
                (f.div (f.of_int d) (f.of_int (growth target))))
              (f.div (f.of_int (growth c.mss)) (f.of_int (growth c.cwnd))))
  unfolding adjustment
  adjustment-at c d e =
      ap
        (λ (x : Change). f.to_int (
          f.mul
            (f.mul (f.mul (f.of_int (growth c.mss)) (f.of_int (growth gain)))
              (f.div (f.of_int x) (f.of_int (growth target))))
            (f.div (f.of_int (growth c.mss)) (f.of_int (growth c.cwnd)))))
        e

  module _ (laws : IsFloats f) where
    -- The number of segments of the window, inverted, and the factors in front of it.
    segment-Up :
        (c : LedbatController) (q : ℕ)
        → c.mss ≤ 262144
        → min_cwnd ≤ c.cwnd
        → c.cwnd ≤ max_cwnd
        → q < 2 ^ 53
        → c.mss ≤ q * c.cwnd
        → laws.Up (f.div (f.of_int (growth c.mss)) (f.of_int (growth c.cwnd))) q
    segment-Up c q m low high small le =
        laws.div-Up c.mss c.cwnd q (omega arith) (omega arith) (omega arith) small le

    gained-Up :
        (c : LedbatController)
        → c.mss ≤ 262144
        → laws.Up (f.mul (f.of_int (growth c.mss)) (f.of_int (growth gain))) (c.mss * 1)
    gained-Up c m =
        laws.mul-Up (f.of_int (growth c.mss)) (f.of_int (growth gain)) c.mss 1
          (laws.of_int-Up c.mss (omega arith)) (laws.of_int-Up 1 (omega arith)) (omega arith)

    near-growth :
        (c : LedbatController) (q : ℕ)
        → c.mss ≤ 262144
        → min_cwnd ≤ c.cwnd
        → c.cwnd ≤ max_cwnd
        → q ≤ 88
        → c.mss ≤ q * c.cwnd
        → c.last_delay ≤ c.base_delay + target
        → (k : ℕ) × (k ≤ c.mss * 1 * 1 * q) × (f.to_int (adjustment f c) ≡ growth k)
    near-growth c q m low high small le near =
        let (n, inside, off) = off_target-near c near in
        let gained = f.mul (f.of_int (growth c.mss)) (f.of_int (growth gain)) in
        let scaled = f.div (f.of_int (growth n)) (f.of_int (growth target)) in
        let inverted = f.div (f.of_int (growth c.mss)) (f.of_int (growth c.cwnd)) in
        let scaled_up : laws.Up scaled 1 =
          laws.div-Up n target 1 (omega arith) (omega arith) (omega arith) (omega arith)
            (omega arith) in
        let both : laws.Up (f.mul gained scaled) (c.mss * 1 * 1) =
          laws.mul-Up gained scaled (c.mss * 1) 1 (gained-Up c m) scaled_up (omega arith) in
        let bound : c.mss * 1 * 1 * q ≤ 262144 * 88 =
          subst (λ (n : ℕ). n * q ≤ 262144 * 88) (omega arith) (mul-le-mul m small) in
        let (k, few, change) =
          laws.to_int-Up (f.mul (f.mul gained scaled) inverted) (c.mss * 1 * 1 * q)
            (laws.mul-Up (f.mul gained scaled) inverted (c.mss * 1 * 1) q both
              (segment-Up c q m low high (omega arith) le) (omega (arith, bound)))
            (omega (arith, bound)) in
        (k, few, adjustment-at c (growth n) off ∙ change)

    far-shrinkage :
        (c : LedbatController)
        → c.mss ≤ 262144
        → min_cwnd ≤ c.cwnd
        → c.cwnd ≤ max_cwnd
        → c.last_delay < 2 ^ 53
        → c.base_delay + target < c.last_delay
        → (k : ℕ) × (f.to_int (adjustment f c) ≡ shrinkage k)
    far-shrinkage c m low high short far =
        let (n, positive, inside, off) = off_target-far c far in
        let gained = f.mul (f.of_int (growth c.mss)) (f.of_int (growth gain)) in
        let scaled = f.div (f.of_int (shrinkage n)) (f.of_int (growth target)) in
        let inverted = f.div (f.of_int (growth c.mss)) (f.of_int (growth c.cwnd)) in
        let scaled_down : laws.Down scaled (2 ^ 27) =
          laws.div-Down n target (2 ^ 27) positive (omega arith) (omega arith) (omega arith)
            (omega arith) (omega arith) in
        let both : laws.Down (f.mul gained scaled) (c.mss * 1 * 2 ^ 27) =
          laws.mul-Up_Down gained scaled (c.mss * 1) (2 ^ 27) (gained-Up c m) scaled_down
            (omega arith) in
        let (k, _, change) =
          laws.to_int-Down (f.mul (f.mul gained scaled) inverted) (c.mss * 1 * 2 ^ 27 * 88)
            (laws.mul-Down_Up (f.mul gained scaled) inverted (c.mss * 1 * 2 ^ 27) 88 both
              (segment-Up c 88 m low high (omega arith) (omega arith)) (omega arith))
            (omega arith) in
        (k, adjustment-at c (shrinkage n) off ∙ change)

    on_ack-Steers :
        (c : LedbatController) (mss : ℕ) (seen : List ℕ)
        → mss ≤ 262144
        → IsController mss seen c
        → Steers c
    unfolding on_ack
    on_ack-Steers c mss seen small h = elim (Bool-cases (c.base_delay == 0)) [
      | inl none_yet ↦ record {
        near = λ _. rw none_yet (omega arith);
        step = λ _ _. rw none_yet (omega arith);
        far = λ _. rw none_yet (omega arith);
      }
      | inr some_yet ↦
          let m : c.mss ≤ 262144 = omega (arith, h.same_mss) in
          record {
            near = λ inside.
                let (k, _, change) =
                  near-growth c 88 m h.low h.high (omega arith) (omega (arith, h.low)) inside in
                rw (some_yet, change) (clamp_cwnd-grown c.cwnd k h.high);
            step = λ inside fits.
                let (k, few, change) =
                  near-growth c 1 m h.low h.high (omega arith) (omega arith) inside in
                rw (some_yet, change) (clamp_cwnd-step c.cwnd k c.mss h.low (omega (arith, few)));
            far = λ outside.
                let (k, change) = far-shrinkage c m h.low h.high h.last outside in
                rw (some_yet, change) (clamp_cwnd-shrunk c.cwnd k h.low);
          }
    ]

    -- For a segment size from 750 to 262144 and floats as IEEE 754 has them: after any calls in which every
    -- measured delay is above 0 and below 2 ^ 53 ns, the window of a new controller lies between 3000 bytes
    -- and 1 MiB and the base delay is the least of the measured ones; the next OnACK does not shrink the
    -- window with a queuing delay up to the target, and grows one of a segment or more by at most a segment,
    -- and does not let it grow above the target.
    pub run_events-Steers :
        (mss : ℕ) (es : List CongestionEvent)
        → 750 ≤ mss
        → mss ≤ 262144
        → All IsDelay (delays [] es)
        → IsController mss (delays [] es) (run_events f (new_ledbat_controller mss) es)
          × Steers (run_events f (new_ledbat_controller mss) es)
    run_events-Steers mss es low high pos =
        let h = run_events-IsController (new_ledbat_controller mss) mss [] es pos (record {
          same_mss = refl;
          low = omega arith;
          high = omega arith;
          last = omega arith;
          base = unmeasured refl;
        }) in
        (h, on_ack-Steers (run_events f (new_ledbat_controller mss) es) mss (delays [] es) high h)
