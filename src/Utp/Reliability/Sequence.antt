-- ===== src/Utp/Reliability/Sequence.antt =====
-- seqLessOrEqual (pkg/utp/reliability.go) across the wrap of the sequence numbers.
use keet_agent.Prelude.{ℕ, ◌+◌, ◌%◌, ◌^◌, ◌<◌, ◌≡◌, true, false, arith}
use keet_agent.Utp.Reliability.{seq_less_or_equal}

-- A number that is ahead of another by 1 to 2 ^ 15 - 1, modulo 2 ^ 16, counts as after it, and not as
-- before it or equal: the order does not depend on where the counter wraps.
seq_ahead :
    (s k : ℕ)
    → s < 2 ^ 16
    → 0 < k
    → k < 2 ^ 15
    → (seq_less_or_equal s ((s + k) % 2 ^ 16) ≡ true)
      × (seq_less_or_equal ((s + k) % 2 ^ 16) s ≡ false)
unfolding seq_less_or_equal
seq_ahead s k h p l = (ground arith, ground arith)
