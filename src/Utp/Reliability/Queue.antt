-- ===== src/Utp/Reliability/Queue.antt =====
-- Ack and HandleDupAck of the retransmission queue (pkg/utp/reliability.go).
use keet_agent.Prelude.{
  ℕ, zero, suc, ◌+◌, ◌≡◌, Bool, true, not, List, [], ◌∷◌, ◌++◌, ◌==◌, if◌then◌else◌, arith, refl,
  ap, ◌∙◌, append_assoc, append-nil, Bool-cases, inl, inr,
}
use keet_agent.Utp.Packet.{Packet}
use keet_agent.Utp.Reliability.{
  seq_less_or_equal, RetransmitQueue, split_acked, ack, handle_dup_ack,
}
use mathlib.Core.List.{Perm, perm_middle}
use mathlib.Core.List.Perm

-- The packets that a test keeps, in their order.
keep : (Packet → Bool) → List Packet → List Packet
keep t [] = []
keep t (p ∷ ps) = if t p then p ∷ keep t ps else keep t ps

abbrev pub is_acked : ℕ → Packet → Bool
is_acked n p = seq_less_or_equal p.header.seq_num n

split_acked-keep :
    (n : ℕ) (ps acked remaining : List Packet)
    → split_acked n ps acked remaining
      ≡ (acked ++ keep (is_acked n) ps, remaining ++ keep (λ p. not (is_acked n p)) ps)
unfolding split_acked keep
split_acked-keep n [] acked remaining = rw (append-nil acked, append-nil remaining) refl
split_acked-keep n (p ∷ ps) acked remaining = elim (Bool-cases (is_acked n p)) [
  | inl hit ↦ rw hit (
      split_acked-keep n ps (acked ++ (p ∷ [])) remaining
      ∙ rw (append_assoc acked (p ∷ []) (keep (is_acked n) ps)) refl)
  | inr miss ↦ rw miss (
      split_acked-keep n ps acked (remaining ++ (p ∷ []))
      ∙ rw (append_assoc remaining (p ∷ []) (keep (λ p. not (is_acked n p)) ps)) refl)
]

-- `Ack` returns the packets up to the number and leaves the others, both in the order of the queue.
ack_splits :
    (q : RetransmitQueue) (n : ℕ)
    → ((ack q n).1 ≡ keep (is_acked n) q.packets)
      × ((ack q n).0.packets ≡ keep (λ p. not (is_acked n p)) q.packets)
unfolding ack
ack_splits q n =
    let e = split_acked-keep n q.packets [] [] in
    (ap (λ (r : List Packet × List Packet). r.0) e, ap (λ (r : List Packet × List Packet). r.1) e)

keep-Perm : (t : Packet → Bool) (ps : List Packet) → Perm ps (keep t ps ++ keep (λ p. not (t p)) ps)
unfolding keep
keep-Perm t [] = Perm.nil
keep-Perm t (p ∷ ps) = elim (Bool-cases (t p)) [
  | inl hit ↦ rw hit (Perm.cons p (keep-Perm t ps))
  | inr miss ↦ rw miss (
      Perm.trans (Perm.cons p (keep-Perm t ps))
        (Perm.symm (perm_middle (keep t ps) (keep (λ p. not (t p)) ps))))
]

-- No packet is lost or made up by an acknowledgement: what it returns and what it leaves are the queue.
ack-perm : (q : RetransmitQueue) (n : ℕ) → Perm q.packets ((ack q n).1 ++ (ack q n).0.packets)
ack-perm q n =
    let (acked, remaining) = ack_splits q n in
    rw (acked, remaining) (keep-Perm (is_acked n) q.packets)

keep-keep-not : (t : Packet → Bool) (ps : List Packet) → keep t (keep (λ p. not (t p)) ps) ≡ []
unfolding keep
keep-keep-not t [] = refl
keep-keep-not t (p ∷ ps) = ground (arith, keep-keep-not t ps)

-- The same acknowledgement again returns nothing.
ack_twice : (q : RetransmitQueue) (n : ℕ) → (ack (ack q n).0 n).1 ≡ []
ack_twice q n =
    let (acked, remaining) = ack_splits (ack q n).0 n in
    acked ∙ rw (ack_splits q n).1 (keep-keep-not (is_acked n) q.packets)

-- The state after `k` duplicates of an acknowledgement.
dup_acks : ℕ → RetransmitQueue → ℕ → RetransmitQueue
dup_acks zero q n = q
dup_acks (suc k) q n = (handle_dup_ack (dup_acks k q n) n).0

dup_acks-count :
    (k : ℕ) (q : RetransmitQueue) (n : ℕ) → (dup_acks k q n).dup_ack_count n ≡ q.dup_ack_count n + k
unfolding dup_acks handle_dup_ack
dup_acks-count zero q n = omega arith
dup_acks-count (suc k) q n = ground (arith, dup_acks-count k q n)

seq_refl : (n : ℕ) → seq_less_or_equal n n ≡ true
unfolding seq_less_or_equal
seq_refl n = ground arith

-- After an acknowledgement its duplicates ask for a fast retransmit at the third, and at no other.
third_dup_ack :
    (q : RetransmitQueue) (n k : ℕ) → (handle_dup_ack (dup_acks k (ack q n).0 n) n).1 ≡ (k + 1 == 3)
unfolding handle_dup_ack ack
third_dup_ack q n k = ground (arith, dup_acks-count k (ack q n).0 n, seq_refl n)
