-- ===== src/Utp/Reliability.antt =====
-- pkg/utp/reliability.go: the retransmission timeout, sequence numbers modulo 2 ^ 16 and the queue of
-- unacknowledged packets.
-- A time.Duration is a number of nanoseconds, not negative. The source multiplies floats by 0.75,
-- 0.25, 0.875 and 0.125 and truncates; below 2 ^ 50 ns, 13 days, each product and sum is exact in a
-- float64, so that the results are the integer quotients below. The mutexes make each method one step.
pub mod Timeout
pub mod Queue
pub mod Sequence
use keet_agent.Prelude.{
  ℕ, zero, suc, ◌+◌, ◌-◌, ◌*◌, ◌/◌, ◌%◌, ◌^◌, Bool, true, false, ◌||◌, List, [], ◌∷◌, ◌++◌, length,
  ltb, leb, ◌==◌, if◌then◌else◌,
}
use keet_agent.Utp.Packet.{Packet}

abbrev pub millisecond : ℕ
millisecond = 1_000_000

abbrev pub second : ℕ
second = 1_000_000_000

pub record RtoCalculator : Type 0 where
  pub srtt : ℕ
  pub rttvar : ℕ
  pub rto : ℕ
  pub initialized : Bool

abbrev pub new_rto_calculator : RtoCalculator
new_rto_calculator = record { srtt = 0; rttvar = 0; rto = 500 * millisecond; initialized = false }

-- The two cases of `if !c.initialized`.
smooth : RtoCalculator → ℕ → RtoCalculator
smooth c rtt =
    let diff = if ltb c.srtt rtt then rtt - c.srtt else c.srtt - rtt in
    if c.initialized
    then record c { srtt = (7 * c.srtt + rtt) / 8; rttvar = (3 * c.rttvar + diff) / 4 }
    else record c { srtt = rtt; rttvar = rtt / 2; initialized = true }

clamp_rto : ℕ → ℕ
clamp_rto rto =
    let low = if ltb rto (200 * millisecond) then 200 * millisecond else rto in
    if ltb (60 * second) low then 60 * second else low

pub update : RtoCalculator → ℕ → RtoCalculator
unfolding smooth clamp_rto
update c rtt = let c' = smooth c rtt in record c' { rto = clamp_rto (c'.srtt + 4 * c'.rttvar) }

-- int16(s1-s2) <= 0: the difference is 0 or its sign bit is set.
pub seq_less_or_equal : ℕ → ℕ → Bool
seq_less_or_equal s1 s2 = let d = (s1 + 2 ^ 16 - s2) % 2 ^ 16 in d == 0 || leb (2 ^ 15) d

-- `dup_ack_count` is the Go map read with its default: a missing key counts 0.
pub record RetransmitQueue : Type 0 where
  pub packets : List Packet
  pub dup_ack_count : ℕ → ℕ

abbrev pub new_retransmit_queue : RetransmitQueue
new_retransmit_queue = record { packets = []; dup_ack_count = λ _. 0 }

unfoldable pub add : RetransmitQueue → Packet → RetransmitQueue
add q p = record q { packets = q.packets ++ (p ∷ []) }

unfoldable pub len : RetransmitQueue → ℕ
len q = length q.packets

-- for _, p := range q.packets, with what was appended to `acked` and to `remaining`.
pub split_acked : ℕ → List Packet → List Packet → List Packet → List Packet × List Packet
split_acked ack_num [] acked remaining = (acked, remaining)
split_acked ack_num (p ∷ ps) acked remaining =
    let hit = seq_less_or_equal p.header.seq_num ack_num in
    split_acked ack_num ps (if hit then acked ++ (p ∷ []) else acked)
      (if hit then remaining else remaining ++ (p ∷ []))

-- The queue that is left, and the packets that were acknowledged.
pub ack : RetransmitQueue → ℕ → RetransmitQueue × List Packet
unfolding split_acked
ack q ack_num =
    let (acked, remaining) = split_acked ack_num q.packets [] [] in
    (
      record {
        packets = remaining;
        dup_ack_count = λ seq. if seq_less_or_equal seq ack_num then 0 else q.dup_ack_count seq;
      },
      acked,
    )

pub handle_dup_ack : RetransmitQueue → ℕ → RetransmitQueue × Bool
handle_dup_ack q ack_num =
    let n = q.dup_ack_count ack_num + 1 in
    (record q { dup_ack_count = λ seq. if seq == ack_num then n else q.dup_ack_count seq }, n == 3)
