-- ===== src/Utp/Stun.antt =====
-- pkg/utp/stun.go and pkg/utp/turn.go: the messages to STUN and TURN servers and what comes back.
-- The random transaction ID is an argument. A net.IP is its 4 or 16 bytes; that the address to build for
-- is an IPv4 address, which To4 finds out, is decided by the caller here. The bytes of the attributes are
-- those between offset and end, and the loop over them is the list of the attributes it comes to.
pub mod Attributes
pub mod Addresses
pub mod Relay
use keet_agent.Prelude.{
  ℕ, zero, suc, ◌+◌, ◌*◌, ◌-◌, ◌/◌, ◌%◌, ◌^◌, bit_xor, Bool, true, false, List, [], ◌∷◌, ◌++◌,
  length, take, drop, slice, replicate, get_or, Option, none, some, ltb, ◌==◌, if◌then◌else◌,
  bytes_eq,
}
use keet_agent.Prelude.Result.{Result, ok, err, ◌>>=◌}
use keet_agent.Bytes.{Bytes, put_uint, get_uint}

abbrev pub magic_cookie : ℕ
magic_cookie = 0x2112A442

abbrev pub attr_mapped_addr : ℕ
attr_mapped_addr = 0x0001

abbrev pub attr_xor_mapped : ℕ
attr_xor_mapped = 0x0020

abbrev pub attr_xor_peer_address : ℕ
attr_xor_peer_address = 0x0012

abbrev pub attr_data : ℕ
attr_data = 0x0013

abbrev pub attr_xor_relayed_address : ℕ
attr_xor_relayed_address = 0x0016

abbrev pub attr_requested_transport : ℕ
attr_requested_transport = 0x0019

pub data StunError : Type 0 where
  too_short wrong_type wrong_cookie wrong_transaction wrong_length no_address no_data : StunError

pub record Attribute : Type 0 where
  pub kind : ℕ
  pub value : Bytes

pub record Address : Type 0 where
  pub ip : Bytes
  pub port : ℕ

-- (n + 3) &^ 3
abbrev pub padded : ℕ → ℕ
padded n = (n + 3) / 4 * 4

abbrev pub header : ℕ → ℕ → Bytes → Bytes
header kind len tx_id = put_uint 2 kind ++ (put_uint 2 len ++ (put_uint 4 magic_cookie ++ tx_id))

pub build_binding_request : Bytes → Bytes
build_binding_request tx_id = header 0x0001 0 tx_id

-- Each round takes four bytes at least, so that there are no more than bytes.
attributes_loop : ℕ → Bytes → List Attribute
attributes_loop zero body = []
attributes_loop (suc fuel) body =
    let len = get_uint 0 (slice body 2 4) in
    let rest = drop 4 body in
    let more = attributes_loop fuel (drop (padded len) rest) in
    if ltb (length body) 4
    then []
    else if ltb (length rest) len
    then []
    else record { kind = get_uint 0 (slice body 0 2); value = take len rest } ∷ more

unfoldable pub attributes : Bytes → List Attribute
unfolding attributes_loop
attributes body = attributes_loop (length body) body

abbrev pub is_expected : Option Bytes → Bytes → Bool
is_expected none d = true
is_expected (some tx_id) d = bytes_eq (slice d 8 20) tx_id

-- The attributes of a message of a type, under a transaction ID if one is expected.
unfoldable pub check_header : ℕ → Option Bytes → Bytes → Result StunError (List Attribute)
check_header kind expected d =
    let len = get_uint 0 (slice d 2 4) in
    if ltb (length d) 20
    then err too_short
    else if get_uint 0 (slice d 0 2) == kind
    then (if get_uint 0 (slice d 4 8) == magic_cookie
        then (if is_expected expected d
            then (if ltb (length d) (20 + len)
                then err wrong_length
                else ok (attributes (take len (drop 20 d))))
            else err wrong_transaction)
        else err wrong_cookie)
    else err wrong_type

unfoldable pub xor_bytes : Bytes → Bytes → Bytes
xor_bytes [] ys = []
xor_bytes (x ∷ xs) [] = []
xor_bytes (x ∷ xs) (y ∷ ys) = bit_xor x y ∷ xor_bytes xs ys

abbrev pub xor_key : Bytes → Bytes
xor_key tx_id = put_uint 4 magic_cookie ++ tx_id

abbrev pub xor_port : ℕ → ℕ
xor_port port = bit_xor port (magic_cookie / 2 ^ 16)

-- case attrMappedAddr
pub mapped_address : Bytes → Option Address
mapped_address v =
    let port = get_uint 0 (slice v 2 4) in
    if ltb (length v) 8
    then none
    else if get_or v 1 0 == 1
    then some (record { ip = slice v 4 8; port = port })
    else if get_or v 1 0 == 2
    then (if ltb (length v) 20 then none else some (record { ip = slice v 4 20; port = port }))
    else none

-- case attrXorMapped and attrXorRelayedAddress
unfoldable pub xor_address : Bytes → Bytes → Option Address
unfolding xor_bytes
xor_address tx_id v =
    let port = xor_port (get_uint 0 (slice v 2 4)) in
    if ltb (length v) 8
    then none
    else if get_or v 1 0 == 1
    then some
        (record { ip = put_uint 4 (bit_xor (get_uint 0 (slice v 4 8)) magic_cookie); port = port })
    else if get_or v 1 0 == 2
    then (if ltb (length v) 20
        then none
        else some (record { ip = xor_bytes (slice v 4 20) (xor_key tx_id); port = port }))
    else none

abbrev pub binding_address : Bytes → Attribute → Option Address
binding_address tx_id a =
    if a.kind == attr_mapped_addr
    then mapped_address a.value
    else if a.kind == attr_xor_mapped
    then xor_address tx_id a.value
    else none

abbrev pub relayed_address : Bytes → Attribute → Option Address
relayed_address tx_id a =
    if a.kind == attr_xor_relayed_address then xor_address tx_id a.value else none

-- The first attribute that the loop returns from.
abbrev pub or_later : Option Address → Option Address → Option Address
or_later none later = later
or_later (some a) later = some a

unfoldable pub first_address : (Attribute → Option Address) → List Attribute → Option Address
first_address look [] = none
first_address look (a ∷ more) = or_later (look a) (first_address look more)

abbrev pub found : Option Address → Result StunError Address
found none = err no_address
found (some a) = ok a

pub parse_binding_response : Bytes → Bytes → Result StunError Address
unfolding check_header first_address
parse_binding_response d tx_id = do
  attrs ← check_header 0x0101 (some tx_id) d
  found (first_address (binding_address tx_id) attrs)

unfoldable pub parse_allocate_response : Bytes → Bytes → Result StunError Address
unfolding check_header first_address
parse_allocate_response d tx_id = do
  attrs ← check_header 0x0103 (some tx_id) d
  found (first_address (relayed_address tx_id) attrs)

pub build_allocate_request : Bytes → Bytes
build_allocate_request tx_id =
    header 0x0003 8 tx_id
    ++ (put_uint 2 attr_requested_transport ++ (put_uint 2 4 ++ (17 ∷ 0 ∷ 0 ∷ 0 ∷ [])))

-- The value of XOR-PEER-ADDRESS for an IPv4 address; the port is an int, cut to 16 bits.
abbrev pub peer_address_value : Address → Bytes
peer_address_value a =
    0
    ∷ 1
    ∷ (put_uint 2 (xor_port (a.port % 2 ^ 16))
        ++ put_uint 4 (bit_xor (get_uint 0 a.ip) magic_cookie))

abbrev pub peer_address : Address → Bytes
peer_address a = put_uint 2 attr_xor_peer_address ++ (put_uint 2 8 ++ peer_address_value a)

pub build_create_permission_request : Bytes → Address → Bytes
build_create_permission_request tx_id peer = header 0x0008 12 tx_id ++ peer_address peer

abbrev pub data_attribute : Bytes → Bytes
data_attribute payload =
    put_uint 2 attr_data
    ++ (put_uint 2 (length payload % 2 ^ 16)
        ++ (payload ++ replicate (padded (length payload) - length payload) 0))

pub build_send_indication : Bytes → Address → Bytes → Bytes
build_send_indication tx_id peer payload =
    header 0x0016 ((16 + padded (length payload)) % 2 ^ 16) tx_id
    ++ (peer_address peer ++ data_attribute payload)

-- What the loop of ParseTURNDataIndication has collected.
pub record Indication : Type 0 where
  pub peer : Address
  pub payload : Bytes

abbrev pub with_peer : Indication → Bytes → Indication
with_peer i v =
    let port = xor_port (get_uint 0 (slice v 2 4)) in
    if ltb (length v) 8
    then i
    else if get_or v 1 0 == 1
    then record i {
      peer = record {
        ip = put_uint 4 (bit_xor (get_uint 0 (slice v 4 8)) magic_cookie);
        port = port;
      };
    }
    else record i { peer = record { ip = i.peer.ip; port = port } }

abbrev pub collect_attribute : Indication → Attribute → Indication
collect_attribute i a =
    if a.kind == attr_xor_peer_address
    then with_peer i a.value
    else if a.kind == attr_data
    then record i { payload = a.value }
    else i

pub collect_attributes : Indication → List Attribute → Indication
collect_attributes i [] = i
collect_attributes i (a ∷ more) = collect_attributes (collect_attribute i a) more

abbrev pub with_payload : Indication → Result StunError Indication
with_payload i = if length i.payload == 0 then err no_data else ok i

pub parse_data_indication : Bytes → Result StunError Indication
unfolding check_header collect_attributes
parse_data_indication d = do
  attrs ← check_header 0x0017 none d
  with_payload
      (collect_attributes (record { peer = record { ip = []; port = 0 }; payload = [] }) attrs)
