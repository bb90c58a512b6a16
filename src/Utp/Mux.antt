-- ===== src/Utp/Mux.antt =====
-- pkg/utp/mux.go and pkg/utp/listener.go: the connections that share a socket.
-- The channel of a connection is the list of the packets in it, the accept channel of the listener the list
-- of the connections that Accept has not taken, and a send to a full channel is dropped. A datagram comes
-- with the random number that a new connection would get; where it comes from decides only where the reply
-- goes, and the errors of sending the reply are not looked at. The mutex makes each method one step.
pub mod Demux
pub mod Dialling
use keet_agent.Prelude.{
  ℕ, ◌+◌, ◌%◌, ◌^◌, Bool, true, false, ◌&&◌, List, [], ◌∷◌, length, Option, none, some, ltb, ◌==◌,
  if◌then◌else◌, not, slice,
}
use keet_agent.Prelude.Result.{Result, ok, err, panic}
use keet_agent.Bytes.{Bytes, get_uint}
use keet_agent.Utp.Packet.{Packet, PacketError, encode, decode_packet, st_state, st_syn}
use keet_agent.Utp.Conn.{UtpConn, offer, packet, accept_syn}
use keet_agent.Utp.Stun.{magic_cookie}

pub record UtpListener : Type 0 where
  pub accept_chan : List UtpConn

pub record SocketMux : Type 0 where
  pub conns : ℕ → Option (List Packet)
  pub listener : Option UtpListener
  pub stun_chan : List Bytes
  pub relay_server : Bytes

abbrev pub new_socket_mux : SocketMux
new_socket_mux = record { conns = λ _. none; listener = none; stun_chan = []; relay_server = [] }

-- sm.conns[connID] = packetChan, and delete for no channel.
abbrev pub with_chan : SocketMux → ℕ → Option (List Packet) → SocketMux
with_chan m id chan = record m { conns = λ j. if j == id then chan else m.conns j }

abbrev pub register_chan : SocketMux → ℕ → List Packet → Option (List Packet) → Option SocketMux
register_chan m id chan none = some (with_chan m id (some chan))
register_chan m id chan (some old) = none

-- `none` is the error for an ID that is registered already.
unfoldable pub register_conn : SocketMux → ℕ → List Packet → Option SocketMux
register_conn m id chan = register_chan m id chan (m.conns id)

pub deregister_conn : SocketMux → ℕ → SocketMux
deregister_conn m id = with_chan m id none

-- NewUTPListener, and the DeregisterListener of Close.
pub register_listener : SocketMux → SocketMux
register_listener m = record m { listener = some (record { accept_chan = [] }) }

pub deregister_listener : SocketMux → SocketMux
deregister_listener m = record m { listener = none }

pub set_relay_server : SocketMux → Bytes → SocketMux
set_relay_server m addr = record m { relay_server = addr }

-- Accept, where a connection is waiting.
abbrev accept_first : SocketMux → List UtpConn → Option (UtpConn × SocketMux)
accept_first m [] = none
accept_first m (c ∷ cs) = some (c, record m { listener = some (record { accept_chan = cs }) })

pub accept : SocketMux → Option UtpListener → Option (UtpConn × SocketMux)
accept m none = none
accept m (some l) = accept_first m l.accept_chan

abbrev pub is_stun : Bytes → Bool
is_stun raw = not (ltb (length raw) 8) && get_uint 0 (slice raw 4 8) == magic_cookie

abbrev pub syn_ack : UtpConn → Packet → Packet
syn_ack c syn = packet st_state c.send_id 0 syn.header.seq_num []

-- A SYN for an ID that is not registered: the mux and the reply.
abbrev pub accept_new : SocketMux → UtpListener → UtpConn → Packet → SocketMux × Option Bytes
accept_new m l c syn = (
  record (with_chan m c.recv_id (some [])) {
    listener = some (record { accept_chan = offer l.accept_chan c });
  },
  some (encode (syn_ack c syn)),
)

unfoldable pub handle_unknown :
    SocketMux → Option UtpListener → Packet → ℕ → SocketMux × Option Bytes
handle_unknown m none p seq = (m, none)
handle_unknown m (some l) p seq =
    if p.header.msg_type == st_syn then accept_new m l (accept_syn p seq) p else (m, none)

abbrev pub route : SocketMux → Packet → ℕ → Option (List Packet) → SocketMux × Option Bytes
route m p seq none = handle_unknown m m.listener p seq
route m p seq (some chan) = (with_chan m p.header.conn_id (some (offer chan p)), none)

abbrev pub handle_decoded : SocketMux → ℕ → Result PacketError Packet → SocketMux × Option Bytes
handle_decoded m seq (ok p) = route m p seq (m.conns p.header.conn_id)
handle_decoded m seq (err e) = (m, none)
handle_decoded m seq panic = (m, none)

-- A round of readLoop.
unfoldable pub read_datagram : SocketMux → Bytes → ℕ → SocketMux × Option Bytes
unfolding handle_unknown
read_datagram m raw seq =
    if is_stun raw
    then (record m { stun_chan = offer m.stun_chan raw }, none)
    else handle_decoded m seq (decode_packet raw)

unfoldable pub read_datagrams : SocketMux → List (Bytes × ℕ) → SocketMux
read_datagrams m [] = m
read_datagrams m ((raw, seq) ∷ rest) = read_datagrams (read_datagram m raw seq).0 rest
