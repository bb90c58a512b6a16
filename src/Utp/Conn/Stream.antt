-- ===== src/Utp/Conn/Stream.antt =====
-- The bytes of a connection as a stream (pkg/utp/conn.go): the chunks of Write, the results of Read.
use keet_agent.Prelude.{
  ℕ, zero, suc, ◌+◌, ◌%◌, ◌^◌, ◌≤◌, ◌<◌, true, false, List, [], ◌∷◌, ◌++◌, map, length, take, drop,
  All, none, ltb, ◌≡◌, refl, sym, ap, subst, ◌∙◌, arith, append_assoc, append-nil, length-take,
  length-drop, take-append-drop, Bool-cases, inl, inr,
}
use keet_agent.Bytes.{Bytes}
use keet_agent.Utp.Conn.{
  UtpConn, is_connected, ReadChoice, from_queue, from_close_chan, from_timer, ReadResult, received,
  end_of_stream, timed_out, blocked, read_select, read_conn, ChunkFate, Transmission, Written,
  chunk_size, write_loop, write_conn,
}

abbrev pub concat : List Bytes → Bytes
concat [] = []
concat (b ∷ bs) = b ++ concat bs

-- The bytes that have arrived and are not read yet.
abbrev pub pending : UtpConn → Bytes
pending c = c.unread ++ concat c.read_queue

pub concat-append : (bs : List Bytes) (b : Bytes) → concat (bs ++ (b ∷ [])) ≡ concat bs ++ b
concat-append [] b = append-nil b
concat-append (x ∷ bs) b = ap (◌++◌ x) (concat-append bs b) ∙ sym (append_assoc x (concat bs) b)

empty_unread : (u : Bytes) → ltb 0 (length u) ≡ false → u ≡ []
empty_unread [] h = refl
empty_unread (x ∷ u) h = absurd (ground arith)

-- What Read returned and what it leaves are what was there.
abbrev Conserved : Bytes → ReadResult → Type 0
Conserved p (received b c) = b ++ pending c ≡ p
Conserved p end_of_stream = Unit {0}
Conserved p timed_out = Unit {0}
Conserved p blocked = Unit {0}

take_all : (n : ℕ) (b : Bytes) → length b ≤ n → take n b ≡ b
take_all zero [] h = refl
take_all zero (x ∷ b) h = absurd (omega arith)
take_all (suc n) [] h = refl
take_all (suc n) (x ∷ b) h = ap (◌∷◌ x) (take_all n b (omega arith))

read_select-Conserved :
    (c : UtpConn) (n : ℕ) (choice : ReadChoice) (q : List Bytes)
    → c.unread ≡ []
    → Conserved (concat q) (read_select c n choice q)
unfolding read_select
read_select-Conserved c n from_queue [] e = tt
read_select-Conserved c n from_queue (payload ∷ rest) e =
    elim (Bool-cases (ltb n (length payload))) [
      | inl more ↦ rw more (
          sym (append_assoc (take n payload) (drop n payload) (concat rest))
          ∙ ap (λ (b : Bytes). b ++ concat rest) (take-append-drop n payload))
      | inr all ↦
          rw (all, e) (ap (λ (b : Bytes). b ++ concat rest) (take_all n payload (ground arith)))
    ]
read_select-Conserved c n from_close_chan q e = elim (Bool-cases c.closed) [
  | inl shut ↦ rw shut tt
  | inr open_ ↦ rw open_ tt
]
read_select-Conserved c n from_timer q e = tt

read_conn-Conserved :
    (c : UtpConn) (n : ℕ) (choice : ReadChoice) → Conserved (pending c) (read_conn c n choice)
unfolding read_conn
read_conn-Conserved c n choice = elim (Bool-cases (ltb 0 (length c.unread))) [
  | inl left ↦ rw left (
      sym (append_assoc (take n c.unread) (drop n c.unread) (concat c.read_queue))
      ∙ ap (λ (b : Bytes). b ++ concat c.read_queue) (take-append-drop n c.unread))
  | inr nothing ↦
      let e = empty_unread c.unread nothing in
      rw nothing (
        subst (λ (p : Bytes). Conserved p (read_select c n choice c.read_queue))
          (ap (λ (u : Bytes). u ++ concat c.read_queue) (sym e))
          (read_select-Conserved c n choice c.read_queue e))
]

-- A Read that returns bytes takes them from the front of the bytes that have arrived, and leaves the
-- others in their order, whatever the size of its buffer.
pub read_conn-pending :
    (c c' : UtpConn) (n : ℕ) (choice : ReadChoice) (b : Bytes)
    → read_conn c n choice ≡ received b c'
    → b ++ pending c' ≡ pending c
read_conn-pending c c' n choice b e =
    subst (Conserved (pending c)) e (read_conn-Conserved c n choice)

-- The payloads of the packets of a Write, in their order.
abbrev pub payloads : List Transmission → List Bytes
payloads ts = map (λ (t : Transmission). t.sent_packet.payload) ts

abbrev pub IsAcked : (ℕ → ChunkFate) → Type 0
IsAcked fate = (i : ℕ) → (fate i).error ≡ none

-- The chunks of a buffer.
abbrev pub IsChunk : Bytes → Type 0
IsChunk b = (0 < length b) × (length b ≤ chunk_size)

record Cut (b : Bytes) (total : ℕ) (w : Written) : Type 0 where
  whole : concat (payloads w.transmissions) ≡ b
  sizes : All IsChunk (payloads w.transmissions)
  count : w.total_sent ≡ total + length b
  no_error : w.error ≡ none

write_loop-Cut :
    (fuel : ℕ) (c : UtpConn) (b : Bytes) (total : ℕ) (fate : ℕ → ChunkFate) (i : ℕ)
    → IsAcked fate
    → length b ≤ fuel
    → Cut b total (write_loop fuel c b total fate i)
unfolding write_loop
write_loop-Cut fuel c [] total fate i h l = record {
  whole = refl;
  sizes = tt;
  count = omega arith;
  no_error = refl;
}
write_loop-Cut zero c (x ∷ b) total fate i h l = absurd (omega arith)
write_loop-Cut (suc fuel) c (x ∷ b) total fate i h l =
    let chunk = take chunk_size (x ∷ b) in
    let rest = drop chunk_size (x ∷ b) in
    let next : UtpConn = record c { seq = (c.seq + 1) % 2 ^ 16 } in
    let size = length-take chunk_size (x ∷ b) in
    let size' = length-drop chunk_size (x ∷ b) in
    let cut = write_loop-Cut fuel next rest (total + length chunk) fate (i + 1) h (omega arith) in
    rw (h i) (record {
      whole = ap (◌++◌ chunk) cut.whole ∙ take-append-drop chunk_size (x ∷ b);
      sizes = ((omega arith, omega arith), cut.sizes);
      count = omega (arith, cut.count);
      no_error = cut.no_error;
    })

-- A Write on a connected connection whose chunks are all acknowledged returns the length of its buffer
-- and no error, and the payloads of its packets, each of 1 to 1400 bytes, are the buffer.
pub write_conn-acked :
    (c : UtpConn) (b : Bytes) (fate : ℕ → ChunkFate)
    → is_connected c.state ≡ true
    → IsAcked fate
    → let w = write_conn c b fate in
      (w.total_sent ≡ length b)
      × (w.error ≡ none)
      × (concat (payloads w.transmissions) ≡ b)
      × All IsChunk (payloads w.transmissions)
unfolding write_conn
write_conn-acked c b fate open_ h =
    let cut = write_loop-Cut (length b) c b 0 fate 0 h (omega arith) in
    rw open_ (omega (arith, cut.count), cut.no_error, cut.whole, cut.sizes)
