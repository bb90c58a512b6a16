-- ===== src/Hypercore/Wire/Limits.antt =====
-- Which bytes DecodeData (pkg/hypercore/wire.go) accepts.
use keet_agent.Prelude.{
  ℕ, ◌%◌, ◌^◌, ◌≤◌, ◌<◌, [], ◌∷◌, ◌++◌, length, ltb, if◌then◌else◌, ◌≡◌, sym, arith, ap, ◌∙◌, subst,
  All, append_assoc,
}
use keet_agent.Prelude.Result.{Result, ok, err, panic, >>=-eq-ok}
use keet_agent.Bytes.{Bytes, put_uint, ReadError, read_full, read_uint}
use keet_agent.Bytes.Laws.{IsByte, read_full-eq_ok, read_uint-eq_ok, All-append_right}
use keet_agent.Hypercore.Wire.{
  Data, WireError, max_message_size, from_reader, write_bytes, read_bytes, encode_data, decode_data,
  expect_type,
}
use keet_agent.Hypercore.Wire.RoundTrip.{FitsLimit}
use native.Mathlib.Nat.{mod-eq_of_lt}

from_reader-eq_ok {ℓ} :
    {A : Type ℓ} (r : Result ReadError A) {a : A} → from_reader r ≡ ok a → r ≡ ok a
from_reader-eq_ok (ok a) h = cc
from_reader-eq_ok (err e) h = cc
from_reader-eq_ok panic h = cc

-- A field that was read: it was written in front of the rest, and it keeps the limit.
record IsField (r b rest : Bytes) : Type 0 where
  whole : r ≡ write_bytes b ++ rest
  limit : FitsLimit b
  bytes : All IsByte rest

within_limit :
    {A : Type 0} (n : ℕ) (e : WireError) (m : Result WireError A) {a : A}
    → (if ltb max_message_size n then err e else m) ≡ ok a
    → (n ≤ max_message_size) × (m ≡ ok a)
within_limit n e m h = ground arith

read_bytes-IsField :
    (r : Bytes) {b rest : Bytes} → All IsByte r → read_bytes r ≡ ok (b, rest) → IsField r b rest
unfolding read_bytes write_bytes
read_bytes-IsField r {b} {rest} hb h =
    let ((n, r'), e, e') = >>=-eq-ok (from_reader (read_uint 4 r)) _ h in
    let (whole, fits, low) = read_uint-eq_ok 4 r hb (from_reader-eq_ok _ e) in
    let (small, e'') = within_limit n _ (from_reader (read_full n r')) e' in
    let (split, width) = read_full-eq_ok n r' (from_reader-eq_ok _ e'') in
    record {
      whole =
          rw (append_assoc (put_uint 4 (length b % 2 ^ 32)) b rest)
            (rw (width, mod-eq_of_lt fits, ← split) whole);
      limit = omega (arith, width);
      bytes = All-append_right b rest (subst (All IsByte) split low);
    }

expect_type-eq_ok : (t : ℕ) (b : Bytes) {r : Bytes} → expect_type t b ≡ ok r → b ≡ t ∷ r
expect_type-eq_ok t [] h = cc
expect_type-eq_ok t (x ∷ xs) h = ground arith

data_whole :
    (m : Data) (b r r1 r2 rest : Bytes)
    → b ≡ 5 ∷ r
    → r ≡ put_uint 8 m.index ++ r1
    → r1 ≡ write_bytes m.value ++ r2
    → r2 ≡ write_bytes m.signature ++ rest
    → b ≡ encode_data m ++ rest
unfolding encode_data
data_whole m b r r1 r2 rest e e1 e2 e3 =
    e
    ∙ ap (◌∷◌ 5) (
        e1
        ∙ ap (◌++◌ (put_uint 8 m.index)) (
            e2
            ∙ ap (◌++◌ (write_bytes m.value)) e3
            ∙ sym (append_assoc (write_bytes m.value) (write_bytes m.signature) rest)))

-- The decoder of Data accepts nothing but the encoding of its result, with bytes behind it, and
-- every result keeps the limits of the format.
pub decode_data-exact :
    (b : Bytes) {m : Data}
    → All IsByte b
    → decode_data b ≡ ok m
    → ((rest : Bytes) × (b ≡ encode_data m ++ rest))
      × (m.index < 2 ^ 64)
      × FitsLimit m.value
      × FitsLimit m.signature
unfolding decode_data
decode_data-exact b {m} hb h =
    let (r, e0, h1) = >>=-eq-ok (expect_type 5 b) _ h in
    let start : b ≡ 5 ∷ r = expect_type-eq_ok 5 b e0 in
    let ((i, r1), e1, h2) = >>=-eq-ok (from_reader (read_uint 8 r)) _ h1 in
    let (w1, fits, low1) =
      read_uint-eq_ok 8 r (subst (All IsByte) start hb).1 (from_reader-eq_ok _ e1) in
    let ((v, r2), e2, h3) = >>=-eq-ok (read_bytes r1) _ h2 in
    let value : IsField r1 v r2 = read_bytes-IsField r1 low1 e2 in
    let ((s, r3), e3, h4) = >>=-eq-ok (read_bytes r2) _ h3 in
    let signature : IsField r2 s r3 = read_bytes-IsField r2 value.bytes e3 in
    let result : record { index = i; value = v; signature = s } ≡ m = cc in
    subst
      (λ (m : Data).
        ((rest : Bytes) × (b ≡ encode_data m ++ rest))
        × (m.index < 2 ^ 64)
        × FitsLimit m.value
        × FitsLimit m.signature)
      result
      (
        (r3, data_whole _ b r r1 r2 r3 start w1 value.whole signature.whole),
        fits,
        value.limit,
        signature.limit,
      )
