-- ===== src/Network/Protobuf/Messages.antt =====
-- pkg/network/protobuf.go, the five messages: Marshal, Unmarshal and Validate. A nil slice and an
-- empty one are both the empty list, and a Go string is its bytes.
pub mod FieldLists
pub mod HandshakeRoundTrip
pub mod RoundTrip
use keet_agent.Prelude.{
  ℕ, ◌+◌, ◌*◌, ◌^◌, ◌<◌, Bool, true, false, not, ◌&&◌, List, [], ◌∷◌, ◌++◌, length, ltb, ◌==◌,
  if◌then◌else◌, bytes_eq,
}
use keet_agent.Prelude.Result.{Result, ok, err, panic}
use keet_agent.Bytes.{Bytes}
use keet_agent.Network.Protobuf.{
  max_protobuf_frame_length, ProtoError, too_long, frame_too_large, encode_bytes, encode_string,
  encode_uint64, encode_bool, Outcome, Handler, unmarshal_fields,
}

pub record Feed : Type 0 where
  pub discovery_key : Bytes

pub record Handshake : Type 0 where
  pub protocol : Bytes
  pub key : Bytes
  pub extensions : List Bytes
  pub live : Bool
  pub user_data : Bytes

pub record Request : Type 0 where
  pub index : ℕ
  pub bytes : ℕ
  pub hash : Bool
  pub nodes : ℕ

pub record Data : Type 0 where
  pub index : ℕ
  pub value : Bytes
  pub signature : Bytes

pub record Cancel : Type 0 where
  pub index : ℕ
  pub bytes : ℕ

-- if c { buf = append(buf, part...) }
abbrev pub append_if : Bool → Bytes → Bytes → Bytes
append_if c part buf = if c then buf ++ part else buf

pub marshal_feed : Feed → Result ProtoError Bytes
marshal_feed f =
    if ltb max_protobuf_frame_length (length f.discovery_key)
    then err too_long
    else ok (append_if (ltb 0 (length f.discovery_key)) (encode_bytes 1 f.discovery_key) [])

-- Every closure of the source returns nil, and ignores a field of another number or wire type.
pub handle_feed : Handler Feed
handle_feed field_num wire_type value varint_val f =
    (ok tt, if field_num == 1 && wire_type == 2 then record f { discovery_key = value } else f)

pub unmarshal_feed : Bytes → Feed → Outcome Feed
unmarshal_feed d f = unmarshal_fields handle_feed d f

pub data HandshakeError : Type 0 where
  empty_protocol bad_key_length : HandshakeError

unfoldable pub validate_handshake : Handshake → Result HandshakeError (Unit {0})
validate_handshake h =
    if bytes_eq h.protocol []
    then err empty_protocol
    else if not (length h.key == 32)
    then err bad_key_length
    else ok tt

-- for _, ext := range h.Extensions { buf = append(buf, encodeString(3, ext)...) }
pub append_extensions : List Bytes → Bytes → Bytes
append_extensions [] buf = buf
append_extensions (ext ∷ exts) buf = append_extensions exts (buf ++ encode_string 3 ext)

pub marshal_handshake : Handshake → Result ProtoError Bytes
marshal_handshake h =
    let buf = append_if (not (bytes_eq h.protocol [])) (encode_string 1 h.protocol) [] in
    let buf1 = append_if (ltb 0 (length h.key)) (encode_bytes 2 h.key) buf in
    let buf2 = append_extensions h.extensions buf1 in
    let buf3 = append_if h.live (encode_bool 4 h.live) buf2 in
    let buf4 = append_if (ltb 0 (length h.user_data)) (encode_bytes 5 h.user_data) buf3 in
    if ltb max_protobuf_frame_length (length buf4) then err too_long else ok buf4

update_handshake : ℕ → ℕ → Bytes → ℕ → Handshake → Handshake
update_handshake field_num wire_type value varint_val h =
    if field_num == 1
    then (if wire_type == 2 then record h { protocol = value } else h)
    else if field_num == 2
    then (if wire_type == 2 then record h { key = value } else h)
    else if field_num == 3
    then (if wire_type == 2 then record h { extensions = h.extensions ++ (value ∷ []) } else h)
    else if field_num == 4
    then (if wire_type == 0 then record h { live = not (varint_val == 0) } else h)
    else if field_num == 5
    then (if wire_type == 2 then record h { user_data = value } else h)
    else h

pub handle_handshake : Handler Handshake
unfolding update_handshake
handle_handshake field_num wire_type value varint_val h =
    (ok tt, update_handshake field_num wire_type value varint_val h)

pub unmarshal_handshake : Bytes → Handshake → Outcome Handshake
unmarshal_handshake d h = unmarshal_fields handle_handshake d h

-- Marshal of Request and of Cancel returns no error.
pub marshal_request : Request → Bytes
marshal_request r =
    let buf = encode_uint64 1 r.index in
    let buf1 = buf ++ encode_uint64 2 r.bytes in
    let buf2 = append_if r.hash (encode_bool 3 r.hash) buf1 in
    append_if (ltb 0 r.nodes) (encode_uint64 4 r.nodes) buf2

pub update_request : ℕ → ℕ → Bytes → ℕ → Request → Request
update_request field_num wire_type value varint_val r =
    if field_num == 1
    then (if wire_type == 0 then record r { index = varint_val } else r)
    else if field_num == 2
    then (if wire_type == 0 then record r { bytes = varint_val } else r)
    else if field_num == 3
    then (if wire_type == 0 then record r { hash = not (varint_val == 0) } else r)
    else if field_num == 4
    then (if wire_type == 0 then record r { nodes = varint_val } else r)
    else r

pub handle_request : Handler Request
unfolding update_request
handle_request field_num wire_type value varint_val r =
    (ok tt, update_request field_num wire_type value varint_val r)

pub unmarshal_request : Bytes → Request → Outcome Request
unmarshal_request d r = unmarshal_fields handle_request d r

pub marshal_data : Data → Result ProtoError Bytes
marshal_data m =
    if ltb max_protobuf_frame_length (length m.value)
    then err too_long
    else let buf = encode_uint64 1 m.index in
      let buf1 = append_if (ltb 0 (length m.value)) (encode_bytes 2 m.value) buf in
      let buf2 = append_if (ltb 0 (length m.signature)) (encode_bytes 4 m.signature) buf1 in
      if ltb max_protobuf_frame_length (length buf2) then err too_long else ok buf2

pub update_data : ℕ → ℕ → Bytes → ℕ → Data → Data
update_data field_num wire_type value varint_val m =
    if field_num == 1
    then (if wire_type == 0 then record m { index = varint_val } else m)
    else if field_num == 2
    then (if wire_type == 2 then record m { value = value } else m)
    else if field_num == 4
    then (if wire_type == 2 then record m { signature = value } else m)
    else m

unfoldable pub handle_data : Handler Data
unfolding update_data
handle_data field_num wire_type value varint_val m =
    (ok tt, update_data field_num wire_type value varint_val m)

pub unmarshal_data : Bytes → Data → Outcome Data
unmarshal_data d m =
    if ltb max_protobuf_frame_length (length d)
    then (err frame_too_large, m)
    else unmarshal_fields handle_data d m

pub marshal_cancel : Cancel → Bytes
marshal_cancel c = encode_uint64 1 c.index ++ encode_uint64 2 c.bytes

update_cancel : ℕ → ℕ → Bytes → ℕ → Cancel → Cancel
update_cancel field_num wire_type value varint_val c =
    if field_num == 1
    then (if wire_type == 0 then record c { index = varint_val } else c)
    else if field_num == 2
    then (if wire_type == 0 then record c { bytes = varint_val } else c)
    else c

pub handle_cancel : Handler Cancel
unfolding update_cancel
handle_cancel field_num wire_type value varint_val c =
    (ok tt, update_cancel field_num wire_type value varint_val c)

pub unmarshal_cancel : Bytes → Cancel → Outcome Cancel
unmarshal_cancel d c = unmarshal_fields handle_cancel d c
