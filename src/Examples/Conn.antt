-- ===== src/Examples/Conn.antt =====
-- Examples for pkg/utp/conn.go.
use keet_agent.Prelude.{
  ℕ, ◌+◌, ◌≤◌, true, false, [], ◌∷◌, ◌++◌, length, none, ◌≡◌, ◌↔◌, refl, arith,
}
use keet_agent.Prelude.Result.{ok, panic}
use keet_agent.Utp.Packet.{Packet, st_data, st_fin, st_syn}
use keet_agent.Utp.Conn.{
  UtpConn, state_connected, state_closed, is_closed, packet, accept_syn, Reaction, handle_fin,
  handle_data, handle_packet, from_queue, received, read_select, read_conn, ChunkFate, write_conn,
}
use keet_agent.Utp.Conn.Lifecycle.{
  Step, packet_step, Reachable, accepted, stepped, IsConn, reachable-IsConn, handle_packet_panics,
}
use keet_agent.Utp.Conn.Stream.{pending}
use keet_agent.Utp.Conn.Delivery.{deliver, packets, write_conn-delivered}

abbrev syn : Packet
syn = packet st_syn 513 1 0 []

abbrev fin : Packet
fin = packet st_fin 513 9 0 []

-- A connection as readLoop accepts it, and the same after a FIN.
abbrev opened : UtpConn
opened = record {
  state = state_connected;
  recv_id = 513;
  send_id = 514;
  seq = 7;
  ack = 1;
  closed = false;
  fin_acked = false;
  ack_chan = [];
  read_queue = [];
  unread = [];
}

abbrev finished : Reaction
finished = record {
  conn = record opened { state = state_closed; ack = 9; closed = true };
  sent = packet 2 514 0 9 [] ∷ [];
  deregistered = true;
}

opened_by_syn : accept_syn syn 7 ≡ opened
unfolding accept_syn
opened_by_syn = refl

finished_by_fin : handle_packet (accept_syn syn 7) fin ≡ ok finished
unfolding accept_syn handle_packet handle_fin
finished_by_fin = refl

abbrev finishing : Step (accept_syn syn 7) finished.conn
finishing = packet_step (accept_syn syn 7) fin finished finished_by_fin

abbrev finished-Reachable : Reachable finished.conn
finished-Reachable = stepped (accept_syn syn 7) finished.conn (accepted syn 7) finishing

reachable-IsConn_example : IsConn finished.conn
reachable-IsConn_example = reachable-IsConn finished.conn finished-Reachable

-- A second FIN.
handle_packet_panics_example :
    (handle_packet finished.conn fin ≡ panic)
    ↔ ((is_closed state_closed ≡ true) × (st_fin ≡ st_fin))
handle_packet_panics_example = handle_packet_panics finished.conn fin finished-Reachable

abbrev late_data : Reaction
late_data = record {
  conn = record finished.conn { ack = 10; read_queue = (5 ∷ []) ∷ [] };
  sent = packet 2 514 0 10 [] ∷ [];
  deregistered = false;
}

handled_late_data : handle_packet finished.conn (packet st_data 513 10 0 (5 ∷ [])) ≡ ok late_data
unfolding handle_packet handle_data
handled_late_data = refl

abbrev filled : UtpConn
filled = record opened { read_queue = (1 ∷ 2 ∷ 3 ∷ []) ∷ (4 ∷ []) ∷ [] }

abbrev read_once : UtpConn
read_once = record opened { read_queue = (4 ∷ []) ∷ []; unread = 3 ∷ [] }

read_two : read_conn filled 2 from_queue ≡ received (1 ∷ 2 ∷ []) read_once
unfolding read_conn read_select
read_two = refl

abbrev sent_once : ℕ → ChunkFate
sent_once i = record { sends = 1; error = none }

room_for_packets :
    length filled.read_queue
      + length (packets (write_conn opened (1 ∷ 2 ∷ 3 ∷ []) sent_once).transmissions)
    ≤ 100
unfolding write_conn
room_for_packets = omega arith

write_conn-delivered_example :
    (r : UtpConn) × (deliver filled
        (packets (write_conn opened (1 ∷ 2 ∷ 3 ∷ []) sent_once).transmissions)
      ≡ ok r)
    × (pending r ≡ pending filled ++ (1 ∷ 2 ∷ 3 ∷ []))
write_conn-delivered_example =
    write_conn-delivered opened filled (1 ∷ 2 ∷ 3 ∷ []) sent_once refl (λ i. refl) room_for_packets
