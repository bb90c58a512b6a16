-- ===== src/Utp/Stun/Addresses.antt =====
-- The addresses in the messages of pkg/utp/stun.go and pkg/utp/turn.go.
use keet_agent.Prelude.{
  ◌⊎◌, inl, inr, ℕ, suc, ◌/◌, ◌%◌, ◌^◌, ◌≤◌, ◌<◌, bit_xor, false, List, [], ◌∷◌, ◌++◌, length, take,
  All, Option, none, some, ltb, ◌==◌, if◌then◌else◌, ◌≡◌, refl, sym, ap, ap₂, subst, ◌∙◌, arith,
  append-nil, take-append,
}
use keet_agent.Prelude.Result.{ok}
use keet_agent.Prelude.Bits.{xor-lt, xor_cancel}
use keet_agent.Bytes.{Bytes, put_uint, get_uint}
use keet_agent.Bytes.Laws.{IsByte, get_uint-put_uint, get_uint_split, put_uint-get_uint}
use keet_agent.Utp.Stun.{
  Attribute, Address, magic_cookie, xor_port, xor_key, xor_bytes, xor_address, binding_address,
  relayed_address, first_address, parse_binding_response, parse_allocate_response, attr_xor_mapped,
  attr_xor_relayed_address, peer_address_value,
}
use keet_agent.Utp.Stun.Attributes.{
  IsAttribute, encode_attributes, message, attributes-encode_attributes, check_header-header,
}

xor_bytes_cancel :
    (xs ys : Bytes)
    → All IsByte xs
    → All IsByte ys
    → length xs ≤ length ys
    → xor_bytes (xor_bytes xs ys) ys ≡ xs
unfolding xor_bytes
xor_bytes_cancel [] ys h k l = refl
xor_bytes_cancel (x ∷ xs) [] h k l = absurd (omega arith)
xor_bytes_cancel (x ∷ xs) (y ∷ ys) (h, hs) (k, ks) l =
    ap₂ (λ (z : ℕ) (zs : Bytes). z ∷ zs) (xor_cancel 8 x y h k)
      (xor_bytes_cancel xs ys hs ks (omega arith))

length-xor_bytes : (xs ys : Bytes) → length xs ≤ length ys → length (xor_bytes xs ys) ≡ length xs
unfolding xor_bytes
length-xor_bytes [] ys l = refl
length-xor_bytes (x ∷ xs) [] l = absurd (omega arith)
length-xor_bytes (x ∷ xs) (y ∷ ys) l = ap suc (length-xor_bytes xs ys (omega arith))

pub xor_port_cancel : (p : ℕ) → p < 2 ^ 16 → get_uint 0 (put_uint 2 (xor_port p)) ≡ xor_port p
xor_port_cancel p h =
    get_uint-put_uint 2 (xor_port p)
      (omega (arith, xor-lt 16 p (magic_cookie / 2 ^ 16) h (omega arith)))

-- A number of four bytes under the cookie, and back.
pub xor_number :
    (ip : Bytes)
    → All IsByte ip
    → length ip ≡ 4
    → put_uint 4
        (bit_xor (get_uint 0 (put_uint 4 (bit_xor (get_uint 0 ip) magic_cookie))) magic_cookie)
      ≡ ip
xor_number ip h l =
    let (n, whole, small) = get_uint_split 0 ip h in
    let fits : get_uint 0 ip < 2 ^ 32 =
      omega (arith, whole, subst (λ (k : ℕ). n < 256 ^ k) l small) in
    ap (λ (x : ℕ). put_uint 4 (bit_xor x magic_cookie))
      (get_uint-put_uint 4 (bit_xor (get_uint 0 ip) magic_cookie)
        (omega (arith, xor-lt 32 (get_uint 0 ip) magic_cookie fits (omega arith))))
    ∙ ap (put_uint 4) (xor_cancel 32 (get_uint 0 ip) magic_cookie fits (omega arith))
    ∙ put_uint-get_uint 4 ip h l

-- XOR-MAPPED-ADDRESS and its like for an IPv6 address; peer_address_value is the one for IPv4.
abbrev pub address_value_6 : Bytes → Address → Bytes
address_value_6 tx_id a = 0 ∷ 2 ∷ (put_uint 2 (xor_port a.port) ++ xor_bytes a.ip (xor_key tx_id))

pub record IsAddress (size : ℕ) (a : Address) : Type 0 where
  pub bytes : All IsByte a.ip
  pub whole : length a.ip ≡ size
  pub port_range : a.port < 2 ^ 16

xor_address-peer_address_value :
    (tx_id : Bytes) (a : Address)
    → IsAddress 4 a
    → xor_address tx_id (peer_address_value a) ≡ some a
unfolding xor_address
xor_address-peer_address_value tx_id a h =
    let cut : a.port % 2 ^ 16 ≡ a.port = omega (arith, h.port_range) in
    rw cut (
      rw
        (
          xor_port_cancel a.port h.port_range,
          xor_cancel 16 a.port (magic_cookie / 2 ^ 16) h.port_range (omega arith),
          xor_number a.ip h.bytes h.whole,
        )
        refl)

take-whole : (xs : Bytes) → take (length xs) xs ≡ xs
take-whole xs = ap (take (length xs)) (sym (append-nil xs)) ∙ take-append xs []

xor_address-address_value_6 :
    (tx_id : Bytes) (a : Address)
    → All IsByte tx_id
    → length tx_id ≡ 12
    → IsAddress 16 a
    → xor_address tx_id (address_value_6 tx_id a) ≡ some a
unfolding xor_address
xor_address-address_value_6 tx_id a t l h =
    let key_size : length (xor_key tx_id) ≡ 16 = omega (arith, l) in
    let size : length (xor_bytes a.ip (xor_key tx_id)) ≡ 16 =
      length-xor_bytes a.ip (xor_key tx_id) (omega (arith, h.whole, key_size)) ∙ h.whole in
    let short_ : ltb (length (address_value_6 tx_id a)) 8 ≡ false = ground (arith, size) in
    let short_6 : ltb (length (address_value_6 tx_id a)) 20 ≡ false = ground (arith, size) in
    let all : take 16 (xor_bytes a.ip (xor_key tx_id)) ≡ xor_bytes a.ip (xor_key tx_id) =
      ap (λ (n : ℕ). take n (xor_bytes a.ip (xor_key tx_id))) (sym size)
      ∙ take-whole (xor_bytes a.ip (xor_key tx_id)) in
    let key_bytes : All IsByte (xor_key tx_id) =
      (omega arith, (omega arith, (omega arith, (omega arith, t)))) in
    rw
      (
        xor_port_cancel a.port h.port_range,
        xor_cancel 16 a.port (magic_cookie / 2 ^ 16) h.port_range (omega arith),
      )
      (rw (short_, short_6)
        (rw
          (
            all,
            xor_bytes_cancel a.ip (xor_key tx_id) h.bytes key_bytes
                (omega (arith, h.whole, key_size)),
          )
          refl))

-- The first attribute with an address, behind others without one.
first_address-behind :
    (look : Attribute → Option Address) (before after : List Attribute) (a : Attribute)
    (found_ : Address)
    → All (λ (x : Attribute). look x ≡ none) before
    → look a ≡ some found_
    → first_address look (before ++ (a ∷ after)) ≡ some found_
unfolding first_address
first_address-behind look [] after a found_ h e = rw e refl
first_address-behind look (b ∷ before) after a found_ (n, ns) e =
    rw n (first_address-behind look before after a found_ ns e)

-- The value of a server's XOR-MAPPED-ADDRESS.
abbrev pub mapped_value : Bytes → Address → Bytes
mapped_value tx_id a = if length a.ip == 4 then peer_address_value a else address_value_6 tx_id a

xor_address-mapped_value :
    (tx_id : Bytes) (a : Address)
    → All IsByte tx_id
    → length tx_id ≡ 12
    → IsAddress 4 a ⊎ IsAddress 16 a
    → xor_address tx_id (mapped_value tx_id a) ≡ some a
xor_address-mapped_value tx_id a t l (inl h) = rw h.whole (xor_address-peer_address_value tx_id a h)
xor_address-mapped_value tx_id a t l (inr h) =
    rw h.whole (xor_address-address_value_6 tx_id a t l h)

-- A Binding Success Response under the expected transaction ID, with attributes of any kinds that give no
-- address in front of an XOR-MAPPED-ADDRESS, gives that address, IPv4 or IPv6.
pub parse_binding_response-message :
    (tx_id : Bytes) (before after : List Attribute) (a : Address)
    → All IsByte tx_id
    → length tx_id ≡ 12
    → IsAddress 4 a ⊎ IsAddress 16 a
    → All (λ (x : Attribute). binding_address tx_id x ≡ none) before
    → let attrs =
        before ++ (record { kind = attr_xor_mapped; value = mapped_value tx_id a } ∷ after) in
      All IsAttribute attrs
      → length (encode_attributes attrs) < 2 ^ 16
      → parse_binding_response (message 0x0101 tx_id attrs) tx_id ≡ ok a
unfolding parse_binding_response
parse_binding_response-message tx_id before after a t l h none_before fits small =
    let here : Attribute = record { kind = attr_xor_mapped; value = mapped_value tx_id a } in
    let attrs : List Attribute = before ++ (here ∷ after) in
    rw
      (
        check_header-header 0x0101 (some tx_id) tx_id (encode_attributes attrs) (omega arith) l
            small (inr refl),
        attributes-encode_attributes attrs fits,
        first_address-behind (binding_address tx_id) before after here a none_before
            (xor_address-mapped_value tx_id a t l h),
      )
      refl

-- An Allocate Success Response likewise gives the address of its XOR-RELAYED-ADDRESS.
parse_allocate_response-message :
    (tx_id : Bytes) (before after : List Attribute) (a : Address)
    → All IsByte tx_id
    → length tx_id ≡ 12
    → IsAddress 4 a ⊎ IsAddress 16 a
    → All (λ (x : Attribute). relayed_address tx_id x ≡ none) before
    → let attrs =
        before
        ++ (record { kind = attr_xor_relayed_address; value = mapped_value tx_id a } ∷ after) in
      All IsAttribute attrs
      → length (encode_attributes attrs) < 2 ^ 16
      → parse_allocate_response (message 0x0103 tx_id attrs) tx_id ≡ ok a
unfolding parse_allocate_response
parse_allocate_response-message tx_id before after a t l h none_before fits small =
    let here : Attribute = record {
      kind = attr_xor_relayed_address;
      value = mapped_value tx_id a;
    } in
    let attrs : List Attribute = before ++ (here ∷ after) in
    rw
      (
        check_header-header 0x0103 (some tx_id) tx_id (encode_attributes attrs) (omega arith) l
            small (inr refl),
        attributes-encode_attributes attrs fits,
        first_address-behind (relayed_address tx_id) before after here a none_before
            (xor_address-mapped_value tx_id a t l h),
      )
      refl
