-- ===== src/Utp/Stun/Attributes.antt =====
-- The attributes of the messages of pkg/utp/stun.go and pkg/utp/turn.go, and what a server writes.
use keet_agent.Prelude.{
  ◌⊎◌, inl, inr, ℕ, zero, suc, ◌+◌, ◌-◌, ◌^◌, ◌≤◌, ◌<◌, true, false, List, [], ◌∷◌, ◌++◌, length,
  take, drop, replicate, All, Option, none, some, ltb, ◌==◌, bytes_eq_refl, ◌≡◌, refl, sym, ap, ◌∙◌,
  arith, length-append, append_assoc, append-nil, take-append, drop-append,
}
use keet_agent.Prelude.Result.{ok}
use keet_agent.Bytes.{Bytes, put_uint}
use keet_agent.Bytes.Laws.{get_uint-put_uint}
use keet_agent.Utp.Stun.{
  Attribute, padded, header, magic_cookie, attributes_loop, attributes, is_expected, check_header,
}

-- An attribute as RFC 5389 writes it.
abbrev pub encode_attribute : Attribute → Bytes
encode_attribute a =
    put_uint 2 a.kind
    ++ (put_uint 2 (length a.value)
        ++ (a.value ++ replicate (padded (length a.value) - length a.value) 0))

abbrev pub encode_attributes : List Attribute → Bytes
encode_attributes [] = []
encode_attributes (a ∷ more) = encode_attribute a ++ encode_attributes more

abbrev pub message : ℕ → Bytes → List Attribute → Bytes
message kind tx_id attrs =
    header kind (length (encode_attributes attrs)) tx_id ++ encode_attributes attrs

abbrev pub IsAttribute : Attribute → Type 0
IsAttribute a = (a.kind < 2 ^ 16) × (length a.value < 2 ^ 16)

pub length-replicate : (n x : ℕ) → length (replicate n x) ≡ n
length-replicate zero x = refl
length-replicate (suc n) x = omega (arith, length-replicate n x)

attributes_loop-nil : (fuel : ℕ) → attributes_loop fuel [] ≡ []
unfolding attributes_loop
attributes_loop-nil zero = refl
attributes_loop-nil (suc fuel) = refl

-- What follows the value: it and its padding take whole words.
padded_value :
    (v rest : Bytes)
    → let all = (v ++ replicate (padded (length v) - length v) 0) ++ rest in
      (take (length v) all ≡ v)
      × (drop (padded (length v)) all ≡ rest)
      × (length all ≡ padded (length v) + length rest)
padded_value v rest =
    let pad = replicate (padded (length v) - length v) 0 in
    let size : length (v ++ pad) ≡ padded (length v) =
      omega (arith, length-append v pad, length-replicate (padded (length v) - length v) 0) in
    (
      ap (take (length v)) (append_assoc v pad rest) ∙ take-append v (pad ++ rest),
      ap (λ (n : ℕ). drop n ((v ++ pad) ++ rest)) (sym size) ∙ drop-append (v ++ pad) rest,
      omega (arith, length-append (v ++ pad) rest, size),
    )

attributes_loop-encode_attributes :
    (fuel : ℕ) (attrs : List Attribute)
    → All IsAttribute attrs
    → length (encode_attributes attrs) ≤ fuel
    → attributes_loop fuel (encode_attributes attrs) ≡ attrs
unfolding attributes_loop
attributes_loop-encode_attributes fuel [] h f = attributes_loop-nil fuel
attributes_loop-encode_attributes zero (a ∷ more) h f = absurd (omega arith)
attributes_loop-encode_attributes (suc fuel) (a ∷ more) ((k, l), hs) f =
    let (front, back, size) = padded_value a.value (encode_attributes more) in
    let kind = get_uint-put_uint 2 a.kind (omega arith) in
    let len = get_uint-put_uint 2 (length a.value) (omega arith) in
    let later = attributes_loop-encode_attributes fuel more hs (omega (arith, size, f)) in
    let all : Bytes = encode_attributes (a ∷ more) in
    let word : ltb (length all) 4 ≡ false = ground arith in
    let whole : ltb (length (drop 4 all)) (length a.value) ≡ false = ground (arith, size) in
    let value : take (length a.value) (drop 4 all) ≡ a.value = front in
    let next : drop (padded (length a.value)) (drop 4 all) ≡ encode_attributes more = back in
    rw (len, kind) (rw (word, whole) (rw (value, next, later) refl))

pub attributes-encode_attributes :
    (attrs : List Attribute) → All IsAttribute attrs → attributes (encode_attributes attrs) ≡ attrs
unfolding attributes
attributes-encode_attributes attrs h =
    attributes_loop-encode_attributes (length (encode_attributes attrs)) attrs h (omega arith)

-- A message whose transaction ID is the expected one, if one is expected, is taken apart.
pub check_header-header :
    (kind : ℕ) (expected : Option Bytes) (tx_id body : Bytes)
    → kind < 2 ^ 16
    → length tx_id ≡ 12
    → length body < 2 ^ 16
    → (expected ≡ none) ⊎ (expected ≡ some tx_id)
    → check_header kind expected (header kind (length body) tx_id ++ body) ≡ ok (attributes body)
unfolding check_header
check_header-header kind expected tx_id body k t l e =
    let d : Bytes = header kind (length body) tx_id ++ body in
    let type_read = get_uint-put_uint 2 kind (omega arith) in
    let len = get_uint-put_uint 2 (length body) (omega arith) in
    let cookie = get_uint-put_uint 4 magic_cookie (omega arith) in
    let same : (kind == kind) ≡ true = ground arith in
    let id : take 12 (tx_id ++ body) ≡ tx_id =
      ap (λ (n : ℕ). take n (tx_id ++ body)) (sym t) ∙ take-append tx_id body in
    let back : drop 12 (tx_id ++ body) ≡ body =
      ap (λ (n : ℕ). drop n (tx_id ++ body)) (sym t) ∙ drop-append tx_id body in
    let word : ltb (length d) 20 ≡ false = ground (arith, length-append tx_id body, t) in
    let whole : ltb (length d) (20 + length body) ≡ false =
      ground (arith, length-append tx_id body, t) in
    let right : is_expected expected d ≡ true = elim e [
      | inl anyone ↦ rw anyone refl
      | inr one ↦ rw one (rw id (bytes_eq_refl tx_id))
    ] in
    let cut : take (length body) (drop 20 d) ≡ body =
      ap (take (length body)) back
      ∙ ap (take (length body)) (sym (append-nil body))
      ∙ take-append body [] in
    rw (len, type_read) (rw (same, word, right, whole) (ap (λ (b : Bytes). ok (attributes b)) cut))
