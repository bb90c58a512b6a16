-- ===== src/Utp/Congestion.antt =====
-- pkg/utp/ledbat.go: the congestion window of LEDBAT.
-- A delay is a number of nanoseconds, not negative, so that the subtraction of the base delay, which stops
-- at 0, is that of the source with its test. The operations of float64 are a parameter, between whole
-- numbers with a sign.
pub mod Window
use keet_agent.Prelude.{ℕ, ◌+◌, ◌-◌, ◌*◌, Bool, ◌||◌, List, [], ◌∷◌, ltb, ◌==◌, if◌then◌else◌}
use keet_agent.Utp.Reliability.{millisecond}

abbrev pub target : ℕ
target = 100 * millisecond

abbrev pub min_cwnd : ℕ
min_cwnd = 3000

abbrev pub max_cwnd : ℕ
max_cwnd = 1024 * 1024

-- A whole number with its sign, as a change of the window.
pub data Change : Type 0 where
  growth shrinkage : ℕ → Change

pub record LedbatController : Type 0 where
  pub mss : ℕ
  pub cwnd : ℕ
  pub base_delay : ℕ
  pub last_delay : ℕ

abbrev pub new_ledbat_controller : ℕ → LedbatController
new_ledbat_controller mss = record { mss = mss; cwnd = 4 * mss; base_delay = 0; last_delay = 0 }

pub update_delay : LedbatController → ℕ → LedbatController
update_delay c d = record c {
  last_delay = d;
  base_delay = if c.base_delay == 0 || ltb d c.base_delay then d else c.base_delay;
}

-- TARGET - queuingDelay
abbrev pub off_target : LedbatController → Change
off_target c =
    let queuing = c.last_delay - c.base_delay in
    if ltb target queuing then shrinkage (queuing - target) else growth (target - queuing)

abbrev pub clamp_cwnd : ℕ → ℕ
clamp_cwnd cwnd =
    let low = if ltb cwnd min_cwnd then min_cwnd else cwnd in
    if ltb max_cwnd low then max_cwnd else low

abbrev pub changed : ℕ → Change → ℕ
changed cwnd (growth n) = cwnd + n
changed cwnd (shrinkage n) = cwnd - n

-- float64: the conversion of an integer, the product, the quotient, and int().
pub record Floats : Type 1 where
  pub Float : Type 0
  pub of_int : Change → Float
  pub mul : Float → Float → Float
  pub div : Float → Float → Float
  pub to_int : Float → Change

abbrev pub gain : ℕ
gain = 1

pub data CongestionEvent : Type 0 where
  measured : ℕ → CongestionEvent
  acked : CongestionEvent

module _ (f : Floats) where
  -- float64(mss) * GAIN * scaledFactor * (float64(mss) / float64(cwnd))
  pub adjustment : LedbatController → f.Float
  adjustment c =
      let scaled_factor = f.div (f.of_int (off_target c)) (f.of_int (growth target)) in
      f.mul (f.mul (f.mul (f.of_int (growth c.mss)) (f.of_int (growth gain))) scaled_factor)
        (f.div (f.of_int (growth c.mss)) (f.of_int (growth c.cwnd)))

  pub on_ack : LedbatController → LedbatController
  unfolding adjustment
  on_ack c =
      if c.base_delay == 0
      then c
      else record c { cwnd = clamp_cwnd (changed c.cwnd (f.to_int (adjustment c))) }

  abbrev pub after_event : LedbatController → CongestionEvent → LedbatController
  after_event c (measured d) = update_delay c d
  after_event c acked = on_ack c

  unfoldable pub run_events : LedbatController → List CongestionEvent → LedbatController
  unfolding on_ack update_delay
  run_events c [] = c
  run_events c (e ∷ es) = run_events (after_event c e) es
