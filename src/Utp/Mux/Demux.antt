-- ===== src/Utp/Mux/Demux.antt =====
-- Which packets reach a connection (pkg/utp/mux.go).
use keet_agent.Prelude.{
  ℕ, ◌+◌, ◌≤◌, true, false, List, [], ◌∷◌, ◌++◌, length, append_assoc, append-nil, Option, none,
  some, ltb, ◌==◌, ==_iff, if◌then◌else◌, ◌≡◌, refl, ap, ◌∙◌, arith, length-append, Bool-cases,
  Option-cases, inl, inr,
}
use keet_agent.Prelude.Result.{Result, ok, err, panic}
use keet_agent.Bytes.{Bytes}
use keet_agent.Utp.Packet.{Packet, PacketError, decode_packet}
use keet_agent.Utp.Conn.{accept_syn}
use keet_agent.Utp.Mux.{
  SocketMux, UtpListener, is_stun, handle_unknown, route, handle_decoded, read_datagram,
  read_datagrams,
}

abbrev pub addressed : ℕ → Result PacketError Packet → List Packet
addressed id (ok p) = if p.header.conn_id == id then p ∷ [] else []
addressed id (err e) = []
addressed id panic = []

-- The packets of a datagram that are for a connection ID.
abbrev pub packets_for : ℕ → Bytes → List Packet
packets_for id raw = if is_stun raw then [] else addressed id (decode_packet raw)

unfoldable pub arrivals : ℕ → List (Bytes × ℕ) → List Packet
arrivals id [] = []
arrivals id ((raw, seq) ∷ rest) = packets_for id raw ++ arrivals id rest

handle_unknown-other :
    (m : SocketMux) (l : Option UtpListener) (p : Packet) (seq id : ℕ)
    → (p.header.conn_id == id) ≡ false
    → (handle_unknown m l p seq).0.conns id ≡ m.conns id
unfolding handle_unknown accept_syn
handle_unknown-other m none p seq id n = refl
handle_unknown-other m (some l) p seq id n = ground arith

route-known :
    (m : SocketMux) (p : Packet) (seq id : ℕ) (q : List Packet)
    → m.conns id ≡ some q
    → length q + length (addressed id (ok p)) ≤ 100
    → (route m p seq (m.conns p.header.conn_id)).0.conns id ≡ some (q ++ addressed id (ok p))
route-known m p seq id q e room = elim (Bool-cases (p.header.conn_id == id)) [
  | inl same ↦
      let here : m.conns p.header.conn_id ≡ some q = ap m.conns ((==_iff _ _).0 same) ∙ e in
      let small : ltb (length q) 100 ≡ true = ground arith in rw (here, small, same) (ground arith)
  | inr other ↦
      rw (other, append-nil q)
        (elim (Option-cases (m.conns p.header.conn_id)) [
          | inl unknown ↦ rw unknown (handle_unknown-other m m.listener p seq id other ∙ e)
          | inr (chan, known) ↦ rw known (ground arith)
        ])
]

read_datagram-known :
    (m : SocketMux) (raw : Bytes) (seq id : ℕ) (q : List Packet)
    → m.conns id ≡ some q
    → length q + length (packets_for id raw) ≤ 100
    → (read_datagram m raw seq).0.conns id ≡ some (q ++ packets_for id raw)
unfolding read_datagram
read_datagram-known m raw seq id q e room = elim (Bool-cases (is_stun raw)) [
  | inl stun ↦ rw (stun, append-nil q) e
  | inr plain ↦ rw plain (go (decode_packet raw) (rw plain at room))
]
  where
    go :
        (r : Result PacketError Packet)
        → length q + length (addressed id r) ≤ 100
        → (handle_decoded m seq r).0.conns id ≡ some (q ++ addressed id r)
    go (ok p) h = route-known m p seq id q e h
    go (err why) h = rw (append-nil q) e
    go panic h = rw (append-nil q) e

-- On any datagrams, the channel of a registered connection gets, behind what it holds, the packets with
-- its ID, of the datagrams that do not carry the STUN cookie, each once and in the order of the datagrams,
-- if it has room for them and no packet is taken from it meanwhile.
pub read_datagrams-arrivals :
    (m : SocketMux) (datagrams : List (Bytes × ℕ)) (id : ℕ) (q : List Packet)
    → m.conns id ≡ some q
    → length q + length (arrivals id datagrams) ≤ 100
    → (read_datagrams m datagrams).conns id ≡ some (q ++ arrivals id datagrams)
unfolding read_datagrams arrivals
read_datagrams-arrivals m [] id q e room = rw (append-nil q) e
read_datagrams-arrivals m ((raw, seq) ∷ rest) id q e room =
    let now = packets_for id raw in
    read_datagrams-arrivals (read_datagram m raw seq).0 rest id (q ++ now)
      (read_datagram-known m raw seq id q e (omega (arith, length-append now (arrivals id rest))))
      (omega (arith, length-append now (arrivals id rest), length-append q now))
    ∙ ap some (append_assoc q now (arrivals id rest))
