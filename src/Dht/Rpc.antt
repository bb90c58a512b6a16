-- ===== src/Dht/Rpc.antt =====
-- pkg/dht/rpc.go: the Kademlia messages, EncodeMessage and DecodeMessage.
-- An array field is its bytes; a Go string is its bytes. Writes to a bytes.Buffer cannot fail.
pub mod RoundTrip
pub mod LastAddress
use keet_agent.Prelude.{
  ℕ, zero, suc, ◌-◌, ◌%◌, ◌^◌, Bool, ◌||◌, List, [], ◌∷◌, ◌++◌, length, take, drop, replicate,
  Option, none, some, ltb, ◌==◌, if◌then◌else◌,
}
use keet_agent.Prelude.Result.{Result, ok, err, panic, ◌>>=◌}
use keet_agent.Bytes.{Bytes, put_uint, ReadError, eof, read_full, read_uint}
use keet_agent.Dht.Routing.{Contact}

abbrev pub msg_ping : ℕ
msg_ping = 1

abbrev pub msg_pong : ℕ
msg_pong = 2

abbrev pub msg_find_node : ℕ
msg_find_node = 3

abbrev pub msg_find_node_resp : ℕ
msg_find_node_resp = 4

abbrev pub msg_announce : ℕ
msg_announce = 5

abbrev pub msg_lookup : ℕ
msg_lookup = 6

abbrev pub msg_lookup_resp : ℕ
msg_lookup_resp = 7

pub record Message : Type 0 where
  pub tx_id : Bytes
  pub kind : ℕ
  pub sender_id : Bytes
  pub target : Bytes
  pub contacts : List Contact
  pub topic : Bytes
  pub port : ℕ
  pub peers : List Bytes

pub data RpcError : Type 0 where
  nil_message too_short unknown_type : RpcError
  reading : ReadError → RpcError

abbrev pub zeros : Bytes
zeros = replicate 32 0

-- A 16-bit length, and the bytes.
pub write_short : Bytes → Bytes
write_short b = put_uint 2 (length b % 2 ^ 16) ++ b

-- for _, c := range m.Contacts
pub write_contacts : List Contact → Bytes
unfolding write_short
write_contacts [] = []
write_contacts (c ∷ cs) = c.id ++ (write_short c.addr ++ write_contacts cs)

-- for _, peer := range m.Peers
pub write_peers : List Bytes → Bytes
unfolding write_short
write_peers [] = []
write_peers (p ∷ ps) = write_short p ++ write_peers ps

-- The payload that the type selects.
pub encode_payload : ℕ → Message → Result RpcError Bytes
unfolding write_contacts write_peers
encode_payload kind m =
    if kind == msg_ping || kind == msg_pong
    then ok []
    else if kind == msg_find_node
    then ok m.target
    else if kind == msg_find_node_resp
    then ok (put_uint 2 (length m.contacts % 2 ^ 16) ++ write_contacts m.contacts)
    else if kind == msg_announce
    then ok (m.topic ++ put_uint 2 m.port)
    else if kind == msg_lookup
    then ok m.topic
    else if kind == msg_lookup_resp
    then ok (put_uint 2 (length m.peers % 2 ^ 16) ++ write_peers m.peers)
    else err unknown_type

-- EncodeMessage; `none` is the nil pointer.
pub encode_message : Option Message → Result RpcError Bytes
unfolding encode_payload
encode_message none = err nil_message
encode_message (some m) = do
  payload ← encode_payload m.kind m
  ok (m.tx_id ++ (m.kind ∷ (m.sender_id ++ payload)))

abbrev pub from_reader {ℓ} : {A : Type ℓ} → Result ReadError A → Result RpcError A
from_reader (ok a) = ok a
from_reader (err e) = err (reading e)
from_reader panic = panic

-- reader.Read(buf) for a zeroed buf of `n` bytes. A reader at its end returns EOF, even for an empty
-- buf; a reader with fewer than n bytes fills what it can.
pub read_some : ℕ → Bytes → Result ReadError (Bytes × Bytes)
read_some n r =
    if length r == 0 then err eof else ok (take n r ++ replicate (n - length r) 0, drop n r)

-- for i := 0; i < int(count); i++
pub read_contacts : ℕ → Bytes → Result RpcError (List Contact × Bytes)
unfolding read_some
read_contacts zero r = ok ([], r)
read_contacts (suc n) r = do
  (id, r1) ← from_reader (read_some 32 r)
  (addr_len, r2) ← from_reader (read_uint 2 r1)
  (addr, r3) ← from_reader (read_some addr_len r2)
  (cs, r4) ← read_contacts n r3
  ok (record { id = id; addr = addr } ∷ cs, r4)

pub read_peers : ℕ → Bytes → Result RpcError (List Bytes × Bytes)
unfolding read_some
read_peers zero r = ok ([], r)
read_peers (suc n) r = do
  (peer_len, r1) ← from_reader (read_uint 2 r)
  (peer, r2) ← from_reader (read_some peer_len r1)
  (ps, r3) ← read_peers n r2
  ok (peer ∷ ps, r3)

-- A message with no payload yet.
abbrev pub blank : Bytes → ℕ → Bytes → Message
blank tx_id kind sender_id = record {
  tx_id = tx_id;
  kind = kind;
  sender_id = sender_id;
  target = zeros;
  contacts = [];
  topic = zeros;
  port = 0;
  peers = [];
}

-- The cases of the switch of DecodeMessage.
pub decode_target : Message → Bytes → Result RpcError Message
unfolding read_some
decode_target m r = do
  (target, r1) ← from_reader (read_some 32 r)
  ok (record m { target = target })

pub decode_contacts : Message → Bytes → Result RpcError Message
unfolding read_contacts
decode_contacts m r = do
  (count, r1) ← from_reader (read_uint 2 r)
  (contacts, r2) ← read_contacts count r1
  ok (record m { contacts = contacts })

pub decode_announce : Message → Bytes → Result RpcError Message
unfolding read_some
decode_announce m r = do
  (topic, r1) ← from_reader (read_some 32 r)
  (port, r2) ← from_reader (read_uint 2 r1)
  ok (record m { topic = topic; port = port })

pub decode_topic : Message → Bytes → Result RpcError Message
unfolding read_some
decode_topic m r = do (topic, r1) ← from_reader (read_some 32 r); ok (record m { topic = topic })

pub decode_peers : Message → Bytes → Result RpcError Message
unfolding read_peers
decode_peers m r = do
  (count, r1) ← from_reader (read_uint 2 r)
  (peers, r2) ← read_peers count r1
  ok (record m { peers = peers })

pub decode_payload : ℕ → Message → Bytes → Result RpcError Message
unfolding decode_target decode_contacts decode_announce decode_topic decode_peers
decode_payload kind m r =
    if kind == msg_ping || kind == msg_pong
    then ok m
    else if kind == msg_find_node
    then decode_target m r
    else if kind == msg_find_node_resp
    then decode_contacts m r
    else if kind == msg_announce
    then decode_announce m r
    else if kind == msg_lookup
    then decode_topic m r
    else if kind == msg_lookup_resp
    then decode_peers m r
    else err unknown_type

-- reader.ReadByte()
abbrev pub read_byte : Bytes → Result RpcError (ℕ × Bytes)
read_byte [] = err (reading eof)
read_byte (b ∷ r) = ok (b, r)

pub decode_message : Bytes → Result RpcError Message
unfolding decode_payload
decode_message data_ = if ltb (length data_) 37 then err too_short else do
  (tx_id, r1) ← from_reader (read_some 4 data_)
  (kind, r2) ← read_byte r1
  (sender_id, r3) ← from_reader (read_some 32 r2)
  decode_payload kind (blank tx_id kind sender_id) r3
