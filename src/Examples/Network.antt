-- ===== src/Examples/Network.antt =====
-- Examples for pkg/network.
use keet_agent.Prelude.{
  ℕ, map, bytes_eq, ◌≤◌, ◌^◌, true, List, [], ◌∷◌, ◌++◌, length, ◌≡◌, ◌≢◌, refl, arith,
}
use keet_agent.Prelude.Result.{ok, err, panic}
use keet_agent.Bytes.{Bytes}
use keet_agent.Hypercore.Sync.{notify_have}
use keet_agent.Network.Peers.{
  PeerManager, new_peer_manager, put_entry, begin_session, broadcast_have, conn_count, close_all,
  PeerEvent, began, ended, run_peers,
}
use keet_agent.Network.Peers.Sessions.{
  without, running, session_of, run_peers-serial, run_peers-second,
}
use keet_agent.Network.Protobuf.{
  max_protobuf_frame_length, out_of_fuel, encode_varint, decode_varint, encode_tag, encode_bytes,
  encode_uint64, unmarshal_fields,
}
use keet_agent.Network.Protobuf.Fields.{encode_fields, assign}
use keet_agent.Network.Protobuf.Ending.{unmarshal_fields_ends}
use keet_agent.Network.Protobuf.Panic.{unmarshal_huge_length}
use keet_agent.Network.Protobuf.Messages.{
  Handshake, update_request, update_data, marshal_handshake, unmarshal_handshake,
}
use keet_agent.Network.Protobuf.Messages.HandshakeRoundTrip.{
  handshake_fields, empty_handshake, unmarshal_handshake-marshal_handshake,
}
use keet_agent.Network.Protobuf.Messages.RoundTrip.{empty_request, empty_data}

abbrev greeting : Handshake
greeting = record {
  protocol = 104 ∷ [];
  key = 1 ∷ 2 ∷ [];
  extensions = (120 ∷ []) ∷ (121 ∷ []) ∷ [];
  live = true;
  user_data = [];
}

greeting_fits : length (encode_fields (handshake_fields greeting)) ≤ max_protobuf_frame_length
unfolding handshake_fields encode_bytes encode_tag encode_varint encode_uint64
greeting_fits = omega arith

unmarshal_handshake-marshal_handshake_example :
    (b : Bytes) × (marshal_handshake greeting ≡ ok b)
    × (unmarshal_handshake b empty_handshake ≡ (ok tt, greeting))
unmarshal_handshake-marshal_handshake_example =
    unmarshal_handshake-marshal_handshake greeting (omega arith) (omega arith)
      (omega arith, (omega arith, tt)) (omega arith) greeting_fits

decoded_300 : decode_varint (172 ∷ 2 ∷ 7 ∷ []) ≡ ok (300, 2)
unfolding decode_varint
decoded_300 = refl

unmarshal_fields_ends_example :
    (unmarshal_fields (assign update_request) (8 ∷ 172 ∷ 2 ∷ 18 ∷ 200 ∷ []) empty_request).0
    ≢ err out_of_fuel
unmarshal_fields_ends_example =
    unmarshal_fields_ends update_request (8 ∷ 172 ∷ 2 ∷ 18 ∷ 200 ∷ []) empty_request

short_frame :
    length (encode_tag 2 2 ++ (encode_varint (2 ^ 63) ++ (1 ∷ []))) ≤ max_protobuf_frame_length
unfolding encode_tag encode_varint
short_frame = omega arith

unmarshal_huge_length_example :
    unmarshal_fields
      (assign update_data)
      (encode_tag 2 2 ++ (encode_varint (2 ^ 63) ++ (1 ∷ [])))
      empty_data
    ≡ (panic, empty_data)
unmarshal_huge_length_example =
    unmarshal_huge_length update_data 2 (2 ^ 63) (1 ∷ []) empty_data (omega arith) (omega arith)
      (omega arith) short_frame

-- Two peers, of which one leaves and comes again.
abbrev visits : List PeerEvent
visits = began (1 ∷ []) 0 ∷ began (2 ∷ []) 1 ∷ ended (1 ∷ []) 0 ∷ began (1 ∷ []) 2 ∷ []

run_peers-serial_example :
    (broadcast_have (run_peers new_peer_manager visits) 5
      ≡ map (λ (e : Bytes × ℕ). (e.1, notify_have 5)) (running [] visits))
    × (conn_count (run_peers new_peer_manager visits) ≡ length (running [] visits))
    × (close_all (run_peers new_peer_manager visits)
        ≡ map (λ (e : Bytes × ℕ). e.1) (running [] visits))
unfolding session_of without bytes_eq
run_peers-serial_example = run_peers-serial visits 5 (refl, (refl, (refl, (refl, tt))))

-- Both sides dial each other, and the first of the two connections breaks.
abbrev two_peers : PeerManager
two_peers = run_peers new_peer_manager (began (3 ∷ []) 0 ∷ began (4 ∷ []) 1 ∷ [])

run_peers-second_example :
    run_peers two_peers (began (1 ∷ []) 2 ∷ began (1 ∷ []) 3 ∷ ended (1 ∷ []) 2 ∷ []) ≡ two_peers
unfolding session_of run_peers begin_session put_entry new_peer_manager bytes_eq
run_peers-second_example = run_peers-second two_peers (1 ∷ []) 2 3 refl refl
