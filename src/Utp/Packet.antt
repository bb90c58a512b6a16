-- ===== src/Utp/Packet.antt =====
-- pkg/utp/packet.go: the 20-byte header and its wire format.
pub mod Codec
use keet_agent.Prelude.{
  ℕ, ◌+◌, ◌*◌, ◌/◌, ◌%◌, bit_and, bit_or, List, [], ◌∷◌, ◌++◌, length, get_or, drop, slice, ltb,
  ◌==◌, if◌then◌else◌, not,
}
use keet_agent.Prelude.Result.{Result, ok, err, panic}
use keet_agent.Bytes.{Bytes, put_uint, get_uint}

-- MsgType is a uint8; the constants that the source names.
abbrev pub st_data : ℕ
st_data = 0

abbrev pub st_fin : ℕ
st_fin = 1

abbrev pub st_state : ℕ
st_state = 2

abbrev pub st_reset : ℕ
st_reset = 3

abbrev pub st_syn : ℕ
st_syn = 4

pub record Header : Type 0 where
  pub msg_type : ℕ
  pub version : ℕ
  pub ext : ℕ
  pub conn_id : ℕ
  pub t_micro : ℕ
  pub t_diff : ℕ
  pub wnd_size : ℕ
  pub seq_num : ℕ
  pub ack_num : ℕ

pub record Packet : Type 0 where
  pub header : Header
  pub payload : Bytes

-- The error that Encode returns is always nil.
pub encode : Packet → Bytes
encode p =
    bit_or (h.msg_type * 16 % 256) (bit_and h.version 0x0f)
    ∷ h.ext
    ∷ (put_uint 2 h.conn_id
        ++ (put_uint 4 h.t_micro
            ++ (put_uint 4 h.t_diff
                ++ (put_uint 4 h.wnd_size
                    ++ (put_uint 2 h.seq_num ++ (put_uint 2 h.ack_num ++ p.payload))))))
  where
    h : Header
    h = p.header

pub data PacketError : Type 0 where
  too_short : PacketError
  unsupported_version : ℕ → PacketError

-- Behind the length test every index below 20 is in range, so the default of `get_or` is not used.
unfoldable pub decode_packet : Bytes → Result PacketError Packet
decode_packet d =
    if ltb (length d) 20
    then err too_short
    else let msg_type = get_or d 0 0 / 16 in
      let version = bit_and (get_or d 0 0) 0x0f in
      if not (version == 1)
      then err (unsupported_version version)
      else ok (record {
        header = record {
          msg_type = msg_type;
          version = version;
          ext = get_or d 1 0;
          conn_id = get_uint 0 (slice d 2 4);
          t_micro = get_uint 0 (slice d 4 8);
          t_diff = get_uint 0 (slice d 8 12);
          wnd_size = get_uint 0 (slice d 12 16);
          seq_num = get_uint 0 (slice d 16 18);
          ack_num = get_uint 0 (slice d 18 20);
        };
        payload = drop 20 d;
      })
