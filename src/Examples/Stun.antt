-- ===== src/Examples/Stun.antt =====
-- Examples for pkg/utp/stun.go and pkg/utp/turn.go.
use keet_agent.Prelude.{inl, [], ◌∷◌, drop, ◌≡◌, refl, arith}
use keet_agent.Prelude.Result.{ok}
use keet_agent.Bytes.{Bytes}
use keet_agent.Utp.Stun.{
  Attribute, Address, attr_xor_mapped, build_send_indication, parse_binding_response,
  parse_data_indication,
}
use keet_agent.Utp.Stun.Attributes.{message}
use keet_agent.Utp.Stun.Addresses.{IsAddress, mapped_value, parse_binding_response-message}
use keet_agent.Utp.Stun.Relay.{parse_data_indication-build}

abbrev tx_id : Bytes
tx_id = 1 ∷ 2 ∷ 3 ∷ 4 ∷ 5 ∷ 6 ∷ 7 ∷ 8 ∷ 9 ∷ 10 ∷ 11 ∷ 12 ∷ []

abbrev peer : Address
peer = record { ip = 203 ∷ 0 ∷ 113 ∷ 9 ∷ []; port = 49737 }

peer-IsAddress : IsAddress 4 peer
peer-IsAddress = record { bytes = ground arith; whole = refl; port_range = omega arith }

-- SOFTWARE, of three bytes.
abbrev software : Attribute
software = record { kind = 0x8022; value = 97 ∷ 98 ∷ 99 ∷ [] }

parse_binding_response-message_example :
    parse_binding_response
      (message 0x0101 tx_id
        (software ∷ record { kind = attr_xor_mapped; value = mapped_value tx_id peer } ∷ []))
      tx_id
    ≡ ok peer
parse_binding_response-message_example =
    parse_binding_response-message tx_id (software ∷ []) [] peer (ground arith) refl
      (inl peer-IsAddress) (refl, tt) ((omega arith, omega arith), ((omega arith, omega arith), tt))
      (omega arith)

parse_data_indication-build_example :
    parse_data_indication (0x00 ∷ 0x17 ∷ drop 2 (build_send_indication tx_id peer (1 ∷ 2 ∷ 3 ∷ [])))
    ≡ ok (record { peer = peer; payload = 1 ∷ 2 ∷ 3 ∷ [] })
parse_data_indication-build_example =
    parse_data_indication-build tx_id peer (1 ∷ 2 ∷ 3 ∷ []) refl peer-IsAddress (omega arith)
      (omega arith)
