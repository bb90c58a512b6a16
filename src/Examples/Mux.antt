-- ===== src/Examples/Mux.antt =====
-- Examples for pkg/utp/mux.go.
use keet_agent.Prelude.{
  ℕ, true, false, bytes_eq, replicate, List, [], ◌∷◌, ◌++◌, some, ◌≡◌, refl, arith,
}
use keet_agent.Prelude.Result.{ok, err, is_ok}
use keet_agent.Bytes.{Bytes}
use keet_agent.Utp.Packet.{Packet, encode, decode_packet}
use keet_agent.Utp.Conn.{UtpConn, handshake_timed_out, dial_utp}
use keet_agent.Utp.Relay.{
  RelayEnvironment, RemoteAddr, udp_ipv4, handshake_timed_out_over_relay, dial_with_relay,
  dial_with_relay-is_ok,
}
use keet_agent.Utp.Stun.{attributes, parse_allocate_response, xor_address}
use keet_agent.Utp.Mux.{
  UtpListener, SocketMux, new_socket_mux, with_chan, register_conn, read_datagram, read_datagrams,
}
use keet_agent.Utp.Mux.Demux.{arrivals, read_datagrams-arrivals}
use keet_agent.Utp.Mux.Dialling.{syn, Connected, dial_utp-read_datagram}

abbrev listener : UtpListener
listener = record { accept_chan = [] }

abbrev listening : SocketMux
listening = record new_socket_mux { listener = some listener }

-- A connection 7 on the socket, and a data packet for it between a short datagram and one with the cookie.
abbrev one_conn : SocketMux
one_conn = with_chan listening 7 (some [])

data_packet : Bytes
data_packet =
    1 ∷ 0 ∷ 0 ∷ 7 ∷ 0 ∷ 0 ∷ 0 ∷ 0 ∷ 0 ∷ 0 ∷ 0 ∷ 0 ∷ 0 ∷ 0 ∷ 0 ∷ 0 ∷ 0 ∷ 2 ∷ 0 ∷ 0 ∷ 65 ∷ []

stun_packet : Bytes
stun_packet = 1 ∷ 1 ∷ 0 ∷ 0 ∷ 0x21 ∷ 0x12 ∷ 0xA4 ∷ 0x42 ∷ []

abbrev datagrams : List (Bytes × ℕ)
datagrams = ([], 0) ∷ (data_packet, 0) ∷ (stun_packet, 0) ∷ []

read_datagrams-arrivals_example :
    (read_datagrams one_conn datagrams).conns 7 ≡ some ([] ++ arrivals 7 datagrams)
unfolding arrivals data_packet stun_packet decode_packet
read_datagrams-arrivals_example = read_datagrams-arrivals one_conn datagrams 7 [] refl (omega arith)

abbrev dialling : SocketMux
dialling = with_chan new_socket_mux 514 (some [])

dial_utp-read_datagram_example :
    (dialler acceptor : UtpConn) × (m' : SocketMux) × (datagram : Bytes) × (reply : Packet)
    × (read_datagram listening (encode (syn 513)) 77 ≡ (m', some datagram))
    × ((read_datagram dialling datagram 0).0.conns 514 ≡ some (reply ∷ []))
    × (dial_utp 513 true true (some reply) ≡ ok dialler)
    × (m'.listener ≡ some (record { accept_chan = [] ++ (acceptor ∷ []) }))
    × (m'.conns acceptor.recv_id ≡ some [])
    × Connected dialler acceptor
unfolding register_conn
dial_utp-read_datagram_example =
    dial_utp-read_datagram new_socket_mux dialling listening listener 513 77 0 (omega arith) refl
      refl refl (omega arith)

-- A relay that allocates an address and permits the peer.
allocate_response : Bytes
allocate_response =
    1 ∷ 3 ∷ 0 ∷ 12 ∷ 0x21 ∷ 0x12 ∷ 0xA4 ∷ 0x42 ∷ replicate 12 0
    ++ (0 ∷ 0x16 ∷ 0 ∷ 8 ∷ 0 ∷ 1 ∷ 9 ∷ 9 ∷ 1 ∷ 2 ∷ 3 ∷ 4 ∷ [])

permission_response : Bytes
permission_response = 1 ∷ 8 ∷ 0 ∷ 0 ∷ 0x21 ∷ 0x12 ∷ 0xA4 ∷ 0x42 ∷ replicate 12 1

abbrev helpful : RelayEnvironment
helpful = record {
  is_resolved = true;
  allocate_id = some (replicate 12 0);
  is_allocate_sent = true;
  allocate_responses = allocate_response ∷ [];
  permission_id = some (replicate 12 1);
  is_permission_sent = true;
  permission_responses = permission_response ∷ [];
}

abbrev peer : RemoteAddr
peer = udp_ipv4 (record { ip = 10 ∷ 0 ∷ 0 ∷ 1 ∷ []; port = 5000 })

dial_with_relay-is_ok_example :
    is_ok (dial_with_relay helpful peer (114 ∷ []) (err handshake_timed_out)).result ≡ false
dial_with_relay-is_ok_example =
    dial_with_relay-is_ok helpful peer (114 ∷ []) (err handshake_timed_out)

-- Both requests are answered, and the dialling fails all the same.
helpful_is_in_vain :
    (dial_with_relay helpful peer (114 ∷ []) (err handshake_timed_out)).result
    ≡ err handshake_timed_out_over_relay
unfolding dial_with_relay allocate_response permission_response parse_allocate_response attributes
    xor_address bytes_eq
helpful_is_in_vain = refl
