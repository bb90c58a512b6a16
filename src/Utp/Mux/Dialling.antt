-- ===== src/Utp/Mux/Dialling.antt =====
-- DialUTP (pkg/utp/conn.go) at a listener (pkg/utp/mux.go): the two ends of a new connection.
use keet_agent.Prelude.{
  ℕ, ◌+◌, ◌%◌, ◌^◌, ◌<◌, true, false, List, [], ◌∷◌, ◌++◌, length, Option, none, some, ◌≡◌, ◌≢◌,
  refl, ap, ◌∙◌, arith,
}
use keet_agent.Prelude.Result.{ok}
use keet_agent.Bytes.{Bytes}
use keet_agent.Utp.Packet.{Packet, encode, st_syn}
use keet_agent.Utp.Packet.Codec.{IsHeader, decode_packet-encode, encode-time}
use keet_agent.Utp.Conn.{UtpConn, state_connected, offer, packet, new_conn, dial_utp, accept_syn}
use keet_agent.Utp.Stun.{magic_cookie}
use keet_agent.Utp.Mux.{
  SocketMux, UtpListener, with_chan, register_conn, is_stun, syn_ack, handle_unknown, route,
  read_datagram,
}

-- The cookie of STUN stands where a uTP packet has its time.
is_stun-encode :
    (p : Packet) → IsHeader p.header → p.header.t_micro ≢ magic_cookie → is_stun (encode p) ≡ false
is_stun-encode p v apart = ground (arith, encode-time p v)

pub read_datagram-encode :
    (m : SocketMux) (p : Packet) (seq : ℕ)
    → IsHeader p.header
    → p.header.t_micro ≢ magic_cookie
    → read_datagram m (encode p) seq ≡ route m p seq (m.conns p.header.conn_id)
unfolding read_datagram
read_datagram-encode m p seq v apart = rw (is_stun-encode p v apart, decode_packet-encode p v) refl

-- The SYN of DialUTP.
abbrev pub syn : ℕ → Packet
syn s = packet st_syn s 1 0 []

syn-IsHeader : (s : ℕ) → s < 2 ^ 16 → IsHeader (syn s).header
syn-IsHeader s h = omega arith

syn_ack-IsHeader : (s seq : ℕ) → IsHeader (syn_ack (accept_syn (syn s) seq) (syn s)).header
unfolding accept_syn
syn_ack-IsHeader s seq = omega arith

-- The listener's side: a connection that waits to be accept_new, its empty channel, and the reply.
module _ (m : SocketMux) (l : UtpListener) (s seq : ℕ) (hs : s < 2 ^ 16)
    (listening : m.listener ≡ some l) (free : m.conns s ≡ none)
    (room : length l.accept_chan < 100) where
  abbrev pub acceptor : UtpConn
  acceptor = accept_syn (syn s) seq

  abbrev pub listening_mux : SocketMux
  listening_mux = record (with_chan m s (some [])) {
    listener = some (record { accept_chan = l.accept_chan ++ (acceptor ∷ []) });
  }

  handle_syn :
      read_datagram m (encode (syn s)) seq
      ≡ (listening_mux, some (encode (syn_ack acceptor (syn s))))
  unfolding handle_unknown accept_syn
  handle_syn =
      read_datagram-encode m (syn s) seq (syn-IsHeader s hs) (ground arith)
      ∙ rw (free, listening) (ground arith)

  -- The dialler's side: its ID is registered with an empty channel, and the reply arrives there.
  handle_syn_ack :
      (d : SocketMux) (k : ℕ)
      → d.conns ((s + 1) % 2 ^ 16) ≡ some []
      → (read_datagram d (encode (syn_ack acceptor (syn s))) k).0.conns ((s + 1) % 2 ^ 16)
        ≡ some (syn_ack acceptor (syn s) ∷ [])
  unfolding accept_syn
  handle_syn_ack d k registered =
      ap (λ (r : SocketMux × Option Bytes). r.0.conns ((s + 1) % 2 ^ 16))
        (read_datagram-encode d (syn_ack acceptor (syn s)) k (syn_ack-IsHeader s seq)
          (ground arith))
      ∙ rw registered (ground arith)

-- Two connected ends: each sends to the ID that the other receives on.
pub record Connected (dialler acceptor : UtpConn) : Type 0 where
  pub dialler_connected : dialler.state ≡ state_connected
  pub acceptor_connected : acceptor.state ≡ state_connected
  pub forth : dialler.send_id ≡ acceptor.recv_id
  pub back : acceptor.send_id ≡ dialler.recv_id
  pub acknowledged : acceptor.ack ≡ dialler.seq
  -- The SYN-ACK does not carry the number of the acceptor.
  pub number_lost : dialler.ack ≡ 0

register_conn-free :
    (d d' : SocketMux) (id : ℕ) → register_conn d id [] ≡ some d' → d'.conns id ≡ some []
unfolding register_conn
register_conn-free d d' id e = ground arith

-- A DialUTP for the random number s below 2^16, whose ID is free at the dialler, at a listener where s is
-- not registered and fewer than 100 connections wait, with the SYN and the reply delivered once: the
-- dialler and the listener's last waiting connection are connected and send to the IDs on which the other
-- receives, the ID of the latter is registered with an empty channel, and the dialler's acknowledgement is
-- 0 whatever the number is with which the acceptor starts.
pub dial_utp-read_datagram :
    (d d' m : SocketMux) (l : UtpListener) (s seq k : ℕ)
    → s < 2 ^ 16
    → register_conn d ((s + 1) % 2 ^ 16) [] ≡ some d'
    → m.listener ≡ some l
    → m.conns s ≡ none
    → length l.accept_chan < 100
    → (dialler acceptor : UtpConn) × (m' : SocketMux) × (datagram : Bytes) × (reply : Packet)
      × (read_datagram m (encode (syn s)) seq ≡ (m', some datagram))
      × ((read_datagram d' datagram k).0.conns ((s + 1) % 2 ^ 16) ≡ some (reply ∷ []))
      × (dial_utp s true true (some reply) ≡ ok dialler)
      × (m'.listener ≡ some (record { accept_chan = l.accept_chan ++ (acceptor ∷ []) }))
      × (m'.conns acceptor.recv_id ≡ some [])
      × Connected dialler acceptor
unfolding dial_utp accept_syn
dial_utp-read_datagram d d' m l s seq k hs registered listening free room =
    let a = accept_syn (syn s) seq in
    (
      new_conn state_connected ((s + 1) % 2 ^ 16) s 1 0,
      a,
      listening_mux m l s seq hs listening free room,
      encode (syn_ack a (syn s)),
      syn_ack a (syn s),
      handle_syn m l s seq hs listening free room,
      handle_syn_ack m l s seq hs listening free room d' k (register_conn-free d d' _ registered),
      refl,
      refl,
      ground arith,
      record {
        dialler_connected = refl;
        acceptor_connected = refl;
        forth = refl;
        back = refl;
        acknowledged = refl;
        number_lost = refl;
      },
    )

-- A SYN with a number s below 2^16 that is registered, such as one that is sent again because its reply was
-- lost, is not answered and makes no connection: it is put into the channel of the registered one.
pub read_datagram-syn_again :
    (m : SocketMux) (s seq : ℕ) (chan : List Packet)
    → s < 2 ^ 16
    → m.conns s ≡ some chan
    → read_datagram m (encode (syn s)) seq ≡ (with_chan m s (some (offer chan (syn s))), none)
read_datagram-syn_again m s seq chan hs known =
    read_datagram-encode m (syn s) seq (syn-IsHeader s hs) (ground arith) ∙ rw known refl
