-- ===== src/Utp/Conn.antt =====
-- pkg/utp/conn.go: a uTP connection, and the accepting of one in readLoop of pkg/utp/mux.go.
-- A channel is the list of what is buffered in it, closeChan the flag `closed`; closing it again is a
-- panic. What the code sends and whether it removes the connection from the mux come back with the new
-- state. The environment decides what a select takes, what a deadline does and how often a chunk is sent
-- before its acknowledgement: these are arguments. Addresses are left out. Between the chunks of a Write no
-- packet but acknowledgements is handled. A socket that fails under Close ends it behind close_start.
pub mod Lifecycle
pub mod Stream
pub mod Delivery
use keet_agent.Prelude.{
  ℕ, zero, suc, ◌+◌, ◌-◌, ◌%◌, ◌^◌, Bool, true, false, ◌&&◌, List, [], ◌∷◌, ◌++◌, length, take,
  drop, Option, none, some, ltb, leb, ◌==◌, if◌then◌else◌,
}
use keet_agent.Prelude.Result.{Result, ok, err, panic, ◌>>=◌}
use keet_agent.Bytes.{Bytes}
use keet_agent.Utp.Packet.{Header, Packet, st_data, st_fin, st_state, st_syn}

-- STATE_NONE and STATE_SYN_RECEIVED are never assigned.
pub data ConnState : Type 0 where
  state_none state_syn_sent state_syn_received state_connected state_fin_sent state_closed :
      ConnState

abbrev pub is_connected : ConnState → Bool
is_connected state_connected = true
is_connected _ = false

abbrev pub is_fin_sent : ConnState → Bool
is_fin_sent state_fin_sent = true
is_fin_sent _ = false

abbrev pub is_closed : ConnState → Bool
is_closed state_closed = true
is_closed _ = false

pub record UtpConn : Type 0 where
  pub state : ConnState
  pub recv_id : ℕ
  pub send_id : ℕ
  pub seq : ℕ
  pub ack : ℕ
  pub closed : Bool
  pub fin_acked : Bool
  pub ack_chan : List ℕ
  pub read_queue : List Bytes
  pub unread : Bytes

-- A send that is dropped when the buffer of 100 is full.
abbrev pub offer {ℓ} : {A : Type ℓ} → List A → A → List A
offer q a = if ltb (length q) 100 then q ++ (a ∷ []) else q

-- A packet of a type with a connection ID and numbers; the other fields are zero.
abbrev pub packet : ℕ → ℕ → ℕ → ℕ → Bytes → Packet
packet msg_type conn_id seq_num ack_num payload = record {
  header = record {
    msg_type = msg_type;
    version = 1;
    ext = 0;
    conn_id = conn_id;
    t_micro = 0;
    t_diff = 0;
    wnd_size = 0;
    seq_num = seq_num;
    ack_num = ack_num;
  };
  payload = payload;
}

-- A connection with its channels empty.
abbrev pub new_conn : ConnState → ℕ → ℕ → ℕ → ℕ → UtpConn
new_conn state recv_id send_id seq ack = record {
  state = state;
  recv_id = recv_id;
  send_id = send_id;
  seq = seq;
  ack = ack;
  closed = false;
  fin_acked = false;
  ack_chan = [];
  read_queue = [];
  unread = [];
}

pub data DialError : Type 0 where
  already_registered write_failed handshake_timed_out : DialError

-- DialUTP for the random number `s`: whether the ID is free, whether the SYN can be written, and the
-- first packet that comes back, if one does within a second.
unfoldable pub dial_utp : ℕ → Bool → Bool → Option Packet → Result DialError UtpConn
dial_utp s is_free is_written reply =
    let c = new_conn state_syn_sent ((s + 1) % 2 ^ 16) s 1 0 in
    if is_free
    then (if is_written then handshake c reply else err write_failed)
    else err already_registered
  where
    handshake : UtpConn → Option Packet → Result DialError UtpConn
    handshake c none = err handshake_timed_out
    handshake c (some p) =
        if p.header.msg_type == st_state && p.header.ack_num == c.seq
        then ok (record c { state = state_connected; ack = p.header.seq_num })
        else err handshake_timed_out

-- The connection that readLoop makes for a SYN, with a random first number.
unfoldable pub accept_syn : Packet → ℕ → UtpConn
accept_syn p seq =
    new_conn state_connected p.header.conn_id ((p.header.conn_id + 1) % 2 ^ 16) seq p.header.seq_num

pub record Reaction : Type 0 where
  pub conn : UtpConn
  pub sent : List Packet
  pub deregistered : Bool

pub data Nothing : Type 0 where

-- close(c.closeChan)
abbrev pub close_chan : UtpConn → Result Nothing UtpConn
close_chan c = if c.closed then panic else ok (record c { closed = true })

abbrev pub quiet : UtpConn → Reaction
quiet c = record { conn = c; sent = []; deregistered = false }

-- The cases of handlePacket.
unfoldable pub handle_fin : UtpConn → Packet → Result Nothing Reaction
handle_fin c p = do
  closed ← close_chan (record c { ack = p.header.seq_num; state = state_closed })
  ok (record {
    conn = closed;
    sent = packet st_state c.send_id 0 p.header.seq_num [] ∷ [];
    deregistered = true;
  })

pub handle_state : UtpConn → Packet → Result Nothing Reaction
handle_state c p =
    if is_fin_sent c.state && p.header.ack_num == c.seq
    then (close_chan (record c { state = state_closed; fin_acked = true }) >>= λ closed.
        ok (record { conn = closed; sent = []; deregistered = true }))
    else ok (quiet (record c { ack_chan = offer c.ack_chan p.header.ack_num }))

unfoldable pub handle_data : UtpConn → Packet → Result Nothing Reaction
handle_data c p = ok (record {
  conn = record c { ack = p.header.seq_num; read_queue = offer c.read_queue p.payload };
  sent = packet st_state c.send_id 0 p.header.seq_num [] ∷ [];
  deregistered = false;
})

unfoldable pub handle_packet : UtpConn → Packet → Result Nothing Reaction
unfolding handle_fin handle_state handle_data
handle_packet c p =
    if p.header.msg_type == st_fin
    then handle_fin c p
    else if p.header.msg_type == st_state
    then handle_state c p
    else if p.header.msg_type == st_data
    then handle_data c p
    else ok (quiet c)

-- Close up to the sending of the FIN; `none` where the connection is closed already.
pub close_start : UtpConn → Option Reaction
close_start c =
    let seq = (c.seq + 1) % 2 ^ 16 in
    if is_closed c.state
    then none
    else some (record {
      conn = record c { state = state_fin_sent; seq = seq };
      sent = packet st_fin c.send_id seq 0 [] ∷ [];
      deregistered = false;
    })

-- Close after a second without an acknowledgement.
pub close_timeout : UtpConn → Result Nothing Reaction
close_timeout c =
    if is_closed c.state
    then ok (quiet c)
    else close_chan (record c { state = state_closed }) >>= λ closed.
        ok (record { conn = closed; sent = []; deregistered = true })

-- What the select of Read takes.
pub data ReadChoice : Type 0 where
  from_queue from_close_chan from_timer : ReadChoice

pub data ReadResult : Type 0 where
  received : Bytes → UtpConn → ReadResult
  end_of_stream timed_out blocked : ReadResult

-- The select of Read, with what the queue holds.
unfoldable pub read_select : UtpConn → ℕ → ReadChoice → List Bytes → ReadResult
read_select c n from_queue [] = blocked
read_select c n from_queue (payload ∷ rest) = received (take n payload) (record c {
  read_queue = rest;
  unread = if ltb n (length payload) then drop n payload else c.unread;
})
read_select c n from_close_chan _ = if c.closed then end_of_stream else blocked
read_select c n from_timer _ = timed_out

-- Read into a buffer of `n` bytes.
unfoldable pub read_conn : UtpConn → ℕ → ReadChoice → ReadResult
unfolding read_select
read_conn c n choice =
    if ltb 0 (length c.unread)
    then received (take n c.unread) (record c { unread = drop n c.unread })
    else read_select c n choice c.read_queue

pub data WriteError : Type 0 where
  not_open send_failed deadline_passed closed_during_write : WriteError

-- A chunk's fate: how often it is sent, and the error that ends Write, or none for an acknowledgement.
pub record ChunkFate : Type 0 where
  pub sends : ℕ
  pub error : Option WriteError

pub record Transmission : Type 0 where
  pub sent_packet : Packet
  pub times : ℕ

pub record Written : Type 0 where
  pub conn : UtpConn
  pub transmissions : List Transmission
  pub total_sent : ℕ
  pub error : Option WriteError

abbrev pub chunk_size : ℕ
chunk_size = 1400

-- A chunk's part of what Write returns, before `rest`: an error ends Write.
abbrev pub after_chunk : UtpConn → Transmission → ℕ → Option WriteError → Written → Written
after_chunk next transmission total (some e) rest = record {
  conn = next;
  transmissions = transmission ∷ [];
  total_sent = total;
  error = some e;
}
after_chunk next transmission total none rest = record rest {
  transmissions = transmission ∷ rest.transmissions;
}

-- The loop of Write over what is left of the buffer; a round takes a byte at least, so that the length
-- of the buffer is enough rounds. `fate` has the fates of the chunks, `i` counts the chunks.
pub write_loop : ℕ → UtpConn → Bytes → ℕ → (ℕ → ChunkFate) → ℕ → Written
write_loop fuel c [] total fate i = record {
  conn = c;
  transmissions = [];
  total_sent = total;
  error = none;
}
write_loop zero c (x ∷ b) total fate i = record {
  conn = c;
  transmissions = [];
  total_sent = total;
  error = none;
}
write_loop (suc fuel) c (x ∷ b) total fate i =
    let chunk = take chunk_size (x ∷ b) in
    let next : UtpConn = record c { seq = (c.seq + 1) % 2 ^ 16 } in
    let transmission : Transmission = record {
      sent_packet = packet st_data c.send_id next.seq c.ack chunk;
      times = (fate i).sends;
    } in
    let rest = write_loop fuel next (drop chunk_size (x ∷ b)) (total + length chunk) fate (i + 1) in
    after_chunk next transmission total ((fate i).error) rest

unfoldable pub write_conn : UtpConn → Bytes → (ℕ → ChunkFate) → Written
unfolding write_loop
write_conn c b fate =
    if is_connected c.state
    then write_loop (length b) c b 0 fate 0
    else record { conn = c; transmissions = []; total_sent = 0; error = some not_open }
