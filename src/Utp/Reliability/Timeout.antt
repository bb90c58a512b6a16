-- ===== src/Utp/Reliability/Timeout.antt =====
-- RTOCalculator (pkg/utp/reliability.go) over a sequence of measurements.
use keet_agent.Prelude.{ℕ, ◌*◌, ◌≤◌, ◌≡◌, true, List, [], ◌∷◌, arith, All}
use keet_agent.Utp.Reliability.{RtoCalculator, new_rto_calculator, update, millisecond, second}

-- Measurements in the order of their arrival.
pub updates : RtoCalculator → List ℕ → RtoCalculator
updates c [] = c
updates c (rtt ∷ rtts) = updates (update c rtt) rtts

abbrev pub RtoInRange : RtoCalculator → Type 0
RtoInRange c = (200 * millisecond ≤ c.rto) × (c.rto ≤ 60 * second)

update-RtoInRange : (c : RtoCalculator) (rtt : ℕ) → RtoInRange (update c rtt)
unfolding update
update-RtoInRange c rtt = ground arith

updates-RtoInRange :
    (c : RtoCalculator) (rtts : List ℕ) → RtoInRange c → RtoInRange (updates c rtts)
unfolding updates
updates-RtoInRange c [] h = h
updates-RtoInRange c (rtt ∷ rtts) h =
    updates-RtoInRange (update c rtt) rtts (update-RtoInRange c rtt)

-- After any measurements the timeout lies between 200 ms and 60 s.
pub rto_in_range : (rtts : List ℕ) → RtoInRange (updates new_rto_calculator rtts)
rto_in_range rtts = updates-RtoInRange new_rto_calculator rtts (omega arith)

-- A smoothed value between two bounds, and a deviation that the bounds allow.
record IsBetween (lo hi : ℕ) (c : RtoCalculator) : Type 0 where
  started : c.initialized ≡ true
  above : lo ≤ c.srtt
  below : c.srtt ≤ hi
  spread : c.rttvar ≤ hi

update-IsBetween :
    (lo hi : ℕ) (c : RtoCalculator) (rtt : ℕ)
    → lo ≤ rtt
    → rtt ≤ hi
    → IsBetween lo hi c
    → IsBetween lo hi (update c rtt)
unfolding update
update-IsBetween lo hi c rtt h k b = ground arith

updates-IsBetween :
    (lo hi : ℕ) (c : RtoCalculator) (rtts : List ℕ)
    → All (λ rtt. (lo ≤ rtt) × (rtt ≤ hi)) rtts
    → IsBetween lo hi c
    → IsBetween lo hi (updates c rtts)
unfolding updates
updates-IsBetween lo hi c [] h b = b
updates-IsBetween lo hi c (rtt ∷ rtts) ((h, k), hs) b =
    updates-IsBetween lo hi (update c rtt) rtts hs (update-IsBetween lo hi c rtt h k b)

first-IsBetween :
    (lo hi rtt : ℕ) → lo ≤ rtt → rtt ≤ hi → IsBetween lo hi (update new_rto_calculator rtt)
unfolding update
first-IsBetween lo hi rtt h k = ground arith

-- Once there is a measurement, the smoothed round trip lies between any bounds of the measurements,
-- and the deviation stays under the upper one.
srtt_between :
    (lo hi rtt : ℕ) (rtts : List ℕ)
    → All (λ rtt. (lo ≤ rtt) × (rtt ≤ hi)) (rtt ∷ rtts)
    → let c = updates new_rto_calculator (rtt ∷ rtts) in
      (lo ≤ c.srtt) × (c.srtt ≤ hi) × (c.rttvar ≤ hi)
unfolding updates
srtt_between lo hi rtt rtts ((h, k), hs) =
    let b =
      updates-IsBetween lo hi (update new_rto_calculator rtt) rtts hs
        (first-IsBetween lo hi rtt h k) in
    (b.above, b.below, b.spread)
