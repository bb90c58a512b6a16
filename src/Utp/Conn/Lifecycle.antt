-- ===== src/Utp/Conn/Lifecycle.antt =====
-- The steps of a connection (pkg/utp/conn.go) and the states that it reaches by them.
use keet_agent.Prelude.{
  ℕ, ◌+◌, ◌%◌, ◌^◌, ◌≤◌, true, false, ◌&&◌, List, [], ◌∷◌, length, Option, none, some, ltb, ◌==◌,
  ◌≡◌, ◌↔◌, refl, ◌∙◌, subst, arith, length-append, Bool-cases, inl, inr,
}
use keet_agent.Prelude.Result.{Result, ok, err, panic}
use keet_agent.Bytes.{Bytes}
use keet_agent.Utp.Packet.{Packet, st_fin, st_state, st_data}
use keet_agent.Utp.Conn.{
  ConnState, state_none, state_syn_sent, state_syn_received, state_connected, state_fin_sent,
  state_closed, is_closed, is_fin_sent, UtpConn, offer, dial_utp, accept_syn, Reaction, Nothing,
  handle_fin, handle_state, handle_data, handle_packet, close_start, close_timeout, ReadChoice,
  ReadResult, received, end_of_stream, timed_out, blocked, from_queue, from_close_chan, from_timer,
  read_select, read_conn,
}

-- The steps of a connection that is open to the program.
pub data Step : UtpConn → UtpConn → Type 0 where
  packet_step : (c : UtpConn) (p : Packet) (r : Reaction) → handle_packet c p ≡ ok r → Step c r.conn
  close_step : (c : UtpConn) (r : Reaction) → close_start c ≡ some r → Step c r.conn
  timeout_step : (c : UtpConn) (r : Reaction) → close_timeout c ≡ ok r → Step c r.conn
  chunk_step : (c : UtpConn) → Step c (record c { seq = (c.seq + 1) % 2 ^ 16 })
  read_step :
      (c c' : UtpConn) (n : ℕ) (choice : ReadChoice) (b : Bytes)
      → read_conn c n choice ≡ received b c'
      → Step c c'

pub data Reachable : UtpConn → Type 0 where
  dialled :
      (s : ℕ) (reply : Option Packet) (c : UtpConn)
      → dial_utp s true true reply ≡ ok c
      → Reachable c
  accepted : (p : Packet) (seq : ℕ) → Reachable (accept_syn p seq)
  stepped : (c c' : UtpConn) → Reachable c → Step c c' → Reachable c'

-- closeChan is closed in the closed state only, and the buffers keep their sizes.
pub record IsConn (c : UtpConn) : Type 0 where
  pub closed_state : c.closed ≡ is_closed c.state
  pub ack_room : length c.ack_chan ≤ 100
  pub queue_room : length c.read_queue ≤ 100

length-offer : {A : Type 0} (q : List A) (a : A) → length q ≤ 100 → length (offer q a) ≤ 100
length-offer q a h = ground (arith, length-append q (a ∷ []))

-- An outcome leaves a sound connection, or is a panic.
abbrev Sound : Result Nothing Reaction → Type 0
Sound (ok r) = IsConn r.conn
Sound (err e) = Unit {0}
Sound panic = Unit {0}

handle_fin-Sound : (c : UtpConn) (p : Packet) → IsConn c → Sound (handle_fin c p)
unfolding handle_fin
handle_fin-Sound c p h = elim (Bool-cases c.closed) [
  | inl shut ↦ rw shut tt
  | inr open_ ↦
      rw open_ (record { closed_state = refl; ack_room = h.ack_room; queue_room = h.queue_room })
]

handle_state-Sound : (c : UtpConn) (p : Packet) → IsConn c → Sound (handle_state c p)
unfolding handle_state
handle_state-Sound c p h = elim (Bool-cases (is_fin_sent c.state && p.header.ack_num == c.seq)) [
  | inl done ↦ elim (Bool-cases c.closed) [
    | inl shut ↦ rw (done, shut) tt
    | inr open_ ↦
        rw (done, open_)
          (record { closed_state = refl; ack_room = h.ack_room; queue_room = h.queue_room })
  ]
  | inr other ↦ rw other (record {
    closed_state = h.closed_state;
    ack_room = length-offer c.ack_chan p.header.ack_num h.ack_room;
    queue_room = h.queue_room;
  })
]

handle_data-Sound : (c : UtpConn) (p : Packet) → IsConn c → Sound (handle_data c p)
unfolding handle_data
handle_data-Sound c p h = record {
  closed_state = h.closed_state;
  ack_room = h.ack_room;
  queue_room = length-offer c.read_queue p.payload h.queue_room;
}

handle_packet-Sound : (c : UtpConn) (p : Packet) → IsConn c → Sound (handle_packet c p)
unfolding handle_packet
handle_packet-Sound c p h = elim (Bool-cases (p.header.msg_type == st_fin)) [
  | inl fin ↦ rw fin (handle_fin-Sound c p h)
  | inr a ↦ elim (Bool-cases (p.header.msg_type == st_state)) [
    | inl state ↦ rw (a, state) (handle_state-Sound c p h)
    | inr b ↦ elim (Bool-cases (p.header.msg_type == st_data)) [
      | inl data_ ↦ rw (a, b, data_) (handle_data-Sound c p h)
      | inr other ↦ rw (a, b, other) h
    ]
  ]
]

close_timeout-Sound : (c : UtpConn) → IsConn c → Sound (close_timeout c)
unfolding close_timeout
close_timeout-Sound c h = elim (Bool-cases (is_closed c.state)) [
  | inl done ↦ rw done h
  | inr not_yet ↦
      let open_ : c.closed ≡ false = h.closed_state ∙ not_yet in
      rw (not_yet, open_)
        (record { closed_state = refl; ack_room = h.ack_room; queue_room = h.queue_room })
]

close_start-IsConn :
    (c : UtpConn) (r : Reaction) → IsConn c → close_start c ≡ some r → IsConn r.conn
unfolding close_start
close_start-IsConn c r h e = ground (arith, h.closed_state)

-- A result of Read keeps the lifecycle, and its queue is no longer than a given one.
abbrev Kept : UtpConn → List Bytes → ReadResult → Type 0
Kept c q (received b c') =
    (c'.state ≡ c.state)
    × (c'.closed ≡ c.closed)
    × (c'.ack_chan ≡ c.ack_chan)
    × (length c'.read_queue ≤ length q)
Kept c q end_of_stream = Unit {0}
Kept c q timed_out = Unit {0}
Kept c q blocked = Unit {0}

read_select-Kept :
    (c : UtpConn) (n : ℕ) (choice : ReadChoice) (q : List Bytes)
    → Kept c q (read_select c n choice q)
unfolding read_select
read_select-Kept c n from_queue [] = tt
read_select-Kept c n from_queue (payload ∷ rest) = (refl, refl, refl, omega arith)
read_select-Kept c n from_close_chan q = elim (Bool-cases c.closed) [
  | inl shut ↦ rw shut tt
  | inr open_ ↦ rw open_ tt
]
read_select-Kept c n from_timer q = tt

read_conn-Kept :
    (c : UtpConn) (n : ℕ) (choice : ReadChoice) → Kept c c.read_queue (read_conn c n choice)
unfolding read_conn
read_conn-Kept c n choice = elim (Bool-cases (ltb 0 (length c.unread))) [
  | inl some_left ↦ rw some_left (refl, refl, refl, omega arith)
  | inr none_left ↦ rw none_left (read_select-Kept c n choice c.read_queue)
]

read_conn-IsConn :
    (c c' : UtpConn) (n : ℕ) (choice : ReadChoice) (b : Bytes)
    → IsConn c
    → read_conn c n choice ≡ received b c'
    → IsConn c'
read_conn-IsConn c c' n choice b h e =
    let (state, shut, acks, queue) = subst (Kept c c.read_queue) e (read_conn-Kept c n choice) in
    record {
      closed_state = rw (state, shut) h.closed_state;
      ack_room = rw acks h.ack_room;
      queue_room = omega (arith, h.queue_room);
    }

step-IsConn : (c c' : UtpConn) → IsConn c → Step c c' → IsConn c'
step-IsConn c c' h (packet_step _ p r e) = subst Sound e (handle_packet-Sound c p h)
step-IsConn c c' h (close_step _ r e) = close_start-IsConn c r h e
step-IsConn c c' h (timeout_step _ r e) = subst Sound e (close_timeout-Sound c h)
step-IsConn c c' h (chunk_step _) = record {
  closed_state = h.closed_state;
  ack_room = h.ack_room;
  queue_room = h.queue_room;
}
step-IsConn c c' h (read_step _ _ n choice b e) = read_conn-IsConn c c' n choice b h e

dial_utp-IsConn :
    (s : ℕ) (reply : Option Packet) (c : UtpConn) → dial_utp s true true reply ≡ ok c → IsConn c
unfolding dial_utp
dial_utp-IsConn s none c e = cc
dial_utp-IsConn s (some p) c e = ground arith

-- In every reachable state closeChan is closed if and only if the state is the closed one, and the
-- buffers of the acknowledgements and of the payloads hold at most 100 entries.
pub reachable-IsConn : (c : UtpConn) → Reachable c → IsConn c
unfolding accept_syn
reachable-IsConn c (dialled s reply _ e) = dial_utp-IsConn s reply c e
reachable-IsConn _ (accepted p seq) = record {
  closed_state = refl;
  ack_room = omega arith;
  queue_room = omega arith;
}
reachable-IsConn c (stepped b _ r s) = step-IsConn b c (reachable-IsConn b r) s

fin_sent-open : (s : ConnState) → is_fin_sent s ≡ true → is_closed s ≡ false
fin_sent-open state_none e = refl
fin_sent-open state_syn_sent e = refl
fin_sent-open state_syn_received e = refl
fin_sent-open state_connected e = refl
fin_sent-open state_fin_sent e = refl
fin_sent-open state_closed e = cc

-- Handling a packet on a reachable connection panics if and only if the connection is closed already
-- and the packet is a FIN.
pub handle_packet_panics :
    (c : UtpConn) (p : Packet)
    → Reachable c
    → (handle_packet c p ≡ panic) ↔ ((is_closed c.state ≡ true) × (p.header.msg_type ≡ st_fin))
unfolding handle_packet handle_fin handle_state handle_data
handle_packet_panics c p reach =
    let h = reachable-IsConn c reach in
    let same : c.closed ≡ is_closed c.state = h.closed_state in
    (λ e. ground (arith, same, fin_sent-open c.state), λ (done, fin). rw (fin, same, done) refl)

-- An outcome that leaves a closed connection closed.
abbrev StaysClosed : Result Nothing Reaction → Type 0
StaysClosed (ok r) = is_closed r.conn.state ≡ true
StaysClosed (err e) = Unit {0}
StaysClosed panic = Unit {0}

handle_packet-StaysClosed :
    (c : UtpConn) (p : Packet) → is_closed c.state ≡ true → StaysClosed (handle_packet c p)
unfolding handle_packet handle_fin handle_state handle_data
handle_packet-StaysClosed c p done = elim (Bool-cases (p.header.msg_type == st_fin)) [
  | inl fin ↦ elim (Bool-cases c.closed) [
    | inl shut ↦ rw (fin, shut) tt
    | inr open_ ↦ rw (fin, open_) refl
  ]
  | inr a ↦ ground (arith, fin_sent-open c.state)
]

-- A step from a closed connection leads to a closed one.
step_closed : (c c' : UtpConn) → Step c c' → is_closed c.state ≡ true → is_closed c'.state ≡ true
unfolding close_start close_timeout
step_closed c c' (packet_step _ p r e) done =
    subst StaysClosed e (handle_packet-StaysClosed c p done)
step_closed c c' (close_step _ r e) done = absurd (ground arith)
step_closed c c' (timeout_step _ r e) done = ground arith
step_closed c c' (chunk_step _) done = done
step_closed c c' (read_step _ _ n choice b e) done =
    let (state, _, _, _) = subst (Kept c c.read_queue) e (read_conn-Kept c n choice) in
    rw state done
