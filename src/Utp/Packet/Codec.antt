-- ===== src/Utp/Packet/Codec.antt =====
-- Encode and DecodePacket (pkg/utp/packet.go), one behind the other.
use keet_agent.Prelude.{
  ℕ, ◌+◌, ◌-◌, ◌*◌, ◌/◌, ◌%◌, ◌^◌, ◌≤◌, ◌<◌, bit_and, bit_or, [], ◌∷◌, ◌++◌, length, get_or, take,
  drop, slice, ◌==◌, ==_iff, ◌≡◌, refl, sym, ap, ◌∙◌, arith, All, length-take, length-drop,
  drop-add, take-append-drop,
}
use keet_agent.Prelude.Bits.{all_below, of_table}
use keet_agent.Prelude.Result.{ok}
use keet_agent.Bytes.{Bytes, put_uint, get_uint}
use keet_agent.Bytes.Laws.{IsByte, take-All, drop-All, get_uint-put_uint, put_uint-get_uint}
use keet_agent.Utp.Packet.{Header, Packet, encode, decode_packet}

-- The header's fields have the widths of their Go types, and the type fits its four bits.
pub record IsHeader (h : Header) : Type 0 where
  pub msg_type_fits : h.msg_type < 16
  pub version_one : h.version ≡ 1
  pub ext_fits : h.ext < 256
  pub conn_id_fits : h.conn_id < 2 ^ 16
  pub t_micro_fits : h.t_micro < 2 ^ 32
  pub t_diff_fits : h.t_diff < 2 ^ 32
  pub wnd_size_fits : h.wnd_size < 2 ^ 32
  pub seq_num_fits : h.seq_num < 2 ^ 16
  pub ack_num_fits : h.ack_num < 2 ^ 16

first_byte : (t v : ℕ) → t < 16 → v ≡ 1 → bit_or (t * 16 % 256) (bit_and v 0x0f) ≡ t * 16 + 1
unfolding all_below
first_byte t v h e = rw e (
    (==_iff _ _).0
      (of_table 16 (λ t. bit_or (t * 16 % 256) (bit_and 1 0x0f) == t * 16 + 1) t refl h))

version_of : (t : ℕ) → t < 16 → bit_and (t * 16 + 1) 0x0f ≡ 1
unfolding all_below
version_of t h = (==_iff _ _).0 (of_table 16 (λ t. bit_and (t * 16 + 1) 0x0f == 1) t refl h)

-- DecodePacket returns the packet that was encoded.
pub decode_packet-encode : (p : Packet) → IsHeader p.header → decode_packet (encode p) ≡ ok p
unfolding decode_packet encode
decode_packet-encode p v =
    let h = p.header in
    rw (first_byte h.msg_type h.version v.msg_type_fits v.version_one) (
      ground (
        arith,
        version_of h.msg_type v.msg_type_fits,
        get_uint-put_uint 2 h.conn_id v.conn_id_fits,
        get_uint-put_uint 4 h.t_micro v.t_micro_fits,
        get_uint-put_uint 4 h.t_diff v.t_diff_fits,
        get_uint-put_uint 4 h.wnd_size v.wnd_size_fits,
        get_uint-put_uint 2 h.seq_num v.seq_num_fits,
        get_uint-put_uint 2 h.ack_num v.ack_num_fits,
      ))

-- Where the time of a packet stands.
pub encode-time :
    (p : Packet)
    → IsHeader p.header
    → (8 ≤ length (encode p)) × (get_uint 0 (slice (encode p) 4 8) ≡ p.header.t_micro)
unfolding encode
encode-time p v = (omega arith, ground (arith, get_uint-put_uint 4 p.header.t_micro v.t_micro_fits))

-- A field of k bytes at an offset, written back, is what stands there.
field_back :
    (k offset : ℕ) (d : Bytes)
    → All IsByte d
    → offset + k ≤ length d
    → put_uint k (get_uint 0 (slice d offset (offset + k))) ++ drop (offset + k) d ≡ drop offset d
field_back k offset d h inside =
    let part = take k (drop offset d) in
    let width : offset + k - offset ≡ k = omega arith in
    let size : length part ≡ k =
      omega (arith, length-take k (drop offset d), length-drop offset d) in
    rw
      (
        width,
        drop-add offset k d,
        put_uint-get_uint k part (take-All k (drop offset d) (drop-All offset d h)) size,
      )
      (take-append-drop k (drop offset d))

byte_back : (x : ℕ) → x < 256 → bit_or (x / 16 * 16 % 256) (bit_and (bit_and x 0x0f) 0x0f) ≡ x
unfolding all_below
byte_back x h =
    (==_iff _ _).0
      (of_table 256 (λ x. bit_or (x / 16 * 16 % 256) (bit_and (bit_and x 0x0f) 0x0f) == x) x refl h)

-- The packet that an accepted datagram is decoded to.
packet_of : Bytes → Packet
packet_of d = record {
  header = record {
    msg_type = get_or d 0 0 / 16;
    version = bit_and (get_or d 0 0) 0x0f;
    ext = get_or d 1 0;
    conn_id = get_uint 0 (slice d 2 4);
    t_micro = get_uint 0 (slice d 4 8);
    t_diff = get_uint 0 (slice d 8 12);
    wnd_size = get_uint 0 (slice d 12 16);
    seq_num = get_uint 0 (slice d 16 18);
    ack_num = get_uint 0 (slice d 18 20);
  };
  payload = drop 20 d;
}

decode_packet-eq_ok :
    (d : Bytes) {p : Packet} → decode_packet d ≡ ok p → (20 ≤ length d) × (packet_of d ≡ p)
unfolding decode_packet packet_of
decode_packet-eq_ok d {p} e = ground arith

first_two : (d : Bytes) → 2 ≤ length d → get_or d 0 0 ∷ get_or d 1 0 ∷ drop 2 d ≡ d
first_two [] h = absurd (omega arith)
first_two (x ∷ []) h = absurd (omega arith)
first_two (x ∷ y ∷ d) h = refl

first-IsByte : (d : Bytes) → All IsByte d → get_or d 0 0 < 256
first-IsByte [] h = omega arith
first-IsByte (x ∷ d) (h, hs) = h

encode-packet_of : (d : Bytes) → All IsByte d → 20 ≤ length d → encode (packet_of d) ≡ d
unfolding encode packet_of
encode-packet_of d h size =
    rw
      (
        byte_back (get_or d 0 0) (first-IsByte d h),
        field_back 2 18 d h (omega arith),
        field_back 2 16 d h (omega arith),
        field_back 4 12 d h (omega arith),
        field_back 4 8 d h (omega arith),
        field_back 4 4 d h (omega arith),
        field_back 2 2 d h (omega arith),
      )
      (first_two d (omega arith))

-- Nothing of an accepted datagram is lost: the packet that it is decoded to is encoded to the same
-- bytes.
pub encode-decode_packet :
    (d : Bytes) {p : Packet} → All IsByte d → decode_packet d ≡ ok p → encode p ≡ d
encode-decode_packet d h e =
    let (size, same) = decode_packet-eq_ok d e in ap encode (sym same) ∙ encode-packet_of d h size
