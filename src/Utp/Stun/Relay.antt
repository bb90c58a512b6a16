-- ===== src/Utp/Stun/Relay.antt =====
-- What a TURN relay passes on (pkg/utp/turn.go): a Send Indication of one side, as a Data Indication.
use keet_agent.Prelude.{
  inl, ℕ, ◌+◌, ◌-◌, ◌/◌, ◌%◌, ◌^◌, ◌≤◌, ◌<◌, false, List, [], ◌∷◌, ◌++◌, length, drop, replicate,
  none, ◌==◌, ◌≡◌, refl, sym, ap, ap₂, ◌∙◌, arith, length-append, append-nil,
}
use keet_agent.Prelude.Result.{ok}
use keet_agent.Prelude.Bits.{xor_cancel}
use keet_agent.Bytes.{Bytes, put_uint}
use keet_agent.Utp.Stun.{
  Attribute, Address, padded, header, magic_cookie, peer_address, peer_address_value,
  attr_xor_peer_address, attr_data, data_attribute, build_send_indication, Indication, with_peer,
  collect_attributes, parse_data_indication,
}
use keet_agent.Utp.Stun.Attributes.{
  encode_attributes, length-replicate, attributes-encode_attributes, check_header-header,
}
use keet_agent.Utp.Stun.Addresses.{IsAddress, xor_port_cancel, xor_number}
use native.Mathlib.Nat.{mod-eq_of_lt}

abbrev sent_attributes : Address → Bytes → List Attribute
sent_attributes peer payload =
    record { kind = attr_xor_peer_address; value = peer_address_value peer }
    ∷ record { kind = attr_data; value = payload }
    ∷ []

encode_attributes-sent :
    (peer : Address) (payload : Bytes)
    → length payload < 2 ^ 16
    → encode_attributes (sent_attributes peer payload) ≡ peer_address peer ++ data_attribute payload
encode_attributes-sent peer payload l = rw (mod-eq_of_lt l) (
    ap
      (λ (b : Bytes).
        peer_address peer ++ (put_uint 2 attr_data ++ (put_uint 2 (length payload) ++ b)))
      (append-nil (payload ++ replicate (padded (length payload) - length payload) 0)))

length-sent :
    (peer : Address) (payload : Bytes)
    → length (encode_attributes (sent_attributes peer payload)) ≡ 16 + padded (length payload)
length-sent peer payload =
    let pad : Bytes = replicate (padded (length payload) - length payload) 0 in
    omega (
      arith,
      length-append (payload ++ pad) [],
      length-append payload pad,
      length-replicate (padded (length payload) - length payload) 0,
    )

with_peer-sent :
    (peer : Address) (i : Indication)
    → IsAddress 4 peer
    → with_peer i (peer_address_value peer) ≡ record i { peer = peer }
with_peer-sent peer i h =
    let cut : peer.port % 2 ^ 16 ≡ peer.port = omega (arith, h.port_range) in
    rw cut (
      rw
        (
          xor_port_cancel peer.port h.port_range,
          xor_cancel 16 peer.port (magic_cookie / 2 ^ 16) h.port_range (omega arith),
          xor_number peer.ip h.bytes h.whole,
        )
        refl)

collect_attributes-sent :
    (peer : Address) (payload : Bytes)
    → IsAddress 4 peer
    → collect_attributes
        (record { peer = record { ip = []; port = 0 }; payload = [] })
        (sent_attributes peer payload)
      ≡ record { peer = peer; payload = payload }
unfolding collect_attributes
collect_attributes-sent peer payload h =
    ap (λ (i : Indication). record i { payload = payload })
      (with_peer-sent peer (record { peer = record { ip = []; port = 0 }; payload = [] }) h)

-- A payload of 1 to 65516 bytes that is sent for an IPv4 peer is parsed from the Data Indication with the
-- same attributes, together with the address.
pub parse_data_indication-build :
    (tx_id : Bytes) (peer : Address) (payload : Bytes)
    → length tx_id ≡ 12
    → IsAddress 4 peer
    → 0 < length payload
    → length payload ≤ 65516
    → parse_data_indication (0x00 ∷ 0x17 ∷ drop 2 (build_send_indication tx_id peer payload))
      ≡ ok (record { peer = peer; payload = payload })
unfolding parse_data_indication build_send_indication
parse_data_indication-build tx_id peer payload t h some_ l =
    let attrs = sent_attributes peer payload in
    let body : Bytes = encode_attributes attrs in
    let size = length-sent peer payload in
    let same : header 0x0017 (length body) tx_id ++ body
        ≡ 0x00 ∷ 0x17 ∷ drop 2 (build_send_indication tx_id peer payload) =
      ap₂ (λ (n : ℕ) (b : Bytes). header 0x0017 n tx_id ++ b)
        (size ∙ sym (mod-eq_of_lt (omega (arith, l))))
        (encode_attributes-sent peer payload (omega (arith, l))) in
    let filled : (length payload == 0) ≡ false = ground arith in
    ap parse_data_indication (sym same)
    ∙ rw
        (
          check_header-header 0x0017 none tx_id body (omega arith) t (omega (arith, size, l))
              (inl refl),
          attributes-encode_attributes attrs
              ((omega arith, omega arith), ((omega arith, omega arith), tt)),
          collect_attributes-sent peer payload h,
          filled,
        )
        refl
