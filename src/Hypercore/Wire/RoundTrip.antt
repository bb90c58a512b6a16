-- ===== src/Hypercore/Wire/RoundTrip.antt =====
-- The decoders of pkg/hypercore/wire.go behind the encoders.
use keet_agent.Prelude.{
  ℕ, ◌%◌, ◌^◌, ◌≤◌, ◌<◌, List, [], ◌∷◌, ◌++◌, length, ◌≡◌, refl, arith, ap, ◌∙◌, All, append_assoc,
  append-nil,
}
use keet_agent.Prelude.Result.{ok, ◌>>=◌}
use keet_agent.Bytes.{Bytes, put_uint, read_uint}
use keet_agent.Bytes.Laws.{read_full-append_of, read_uint-put_uint}
use native.Mathlib.Nat.{mod-eq_of_lt}
use keet_agent.Hypercore.Wire.{
  Handshake, Have, Want, Request, Data, max_message_size, from_reader, write_bytes, write_string,
  read_bytes, read_string, write_extensions, encode_handshake, read_extensions, read_counted,
  decode_handshake, encode_have, decode_have, encode_want, decode_want, encode_request,
  decode_request, encode_data, decode_data,
}

-- A field that the reader's safety limit lets through.
abbrev pub FitsLimit : Bytes → Type 0
FitsLimit b = length b ≤ max_message_size

read_bytes-write_bytes :
    (b rest : Bytes) → FitsLimit b → read_bytes (write_bytes b ++ rest) ≡ ok (b, rest)
unfolding read_bytes write_bytes
read_bytes-write_bytes b rest h = rw (append_assoc (put_uint 4 (length b % 2 ^ 32)) b rest) (
    rw (read_uint-put_uint 4 (length b % 2 ^ 32) (b ++ rest) (omega arith))
      (ground (arith, read_full-append_of (length b % 2 ^ 32) b rest)))

read_string-write_string :
    (b rest : Bytes) → FitsLimit b → read_string (write_string b ++ rest) ≡ ok (b, rest)
unfolding read_string write_string
read_string-write_string b rest h = unfold read_bytes write_bytes in read_bytes-write_bytes b rest h

-- The decoder of Data returns the message that was encoded.
pub decode_data-encode_data :
    (m : Data)
    → m.index < 2 ^ 64
    → FitsLimit m.value
    → FitsLimit m.signature
    → decode_data (encode_data m) ≡ ok m
unfolding decode_data encode_data
decode_data-encode_data m hi hv hs = rw (read_uint-put_uint 8 m.index _ hi) (
    rw (read_bytes-write_bytes m.value _ hv) (
      rw (← append-nil (write_bytes m.signature))
        (rw (read_bytes-write_bytes m.signature [] hs) refl)))

-- Two 64-bit fields, the body of Have and of Want.
read_pair :
    {A : Type 0} (a b : ℕ) (f : ℕ → ℕ → A)
    → a < 2 ^ 64
    → b < 2 ^ 64
    → (from_reader (read_uint 8 (put_uint 8 a ++ put_uint 8 b)) >>= λ (x, r).
        from_reader (read_uint 8 r) >>= λ (y, r'). ok (f x y))
      ≡ ok (f a b)
read_pair a b f ha hb =
    rw (read_uint-put_uint 8 a _ ha)
      (rw (← append-nil (put_uint 8 b)) (rw (read_uint-put_uint 8 b [] hb) refl))

pub decode_have-encode_have :
    (m : Have) → m.start < 2 ^ 64 → m.len < 2 ^ 64 → decode_have (encode_have m) ≡ ok m
unfolding decode_have encode_have
decode_have-encode_have m hs hl =
    read_pair m.start m.len (λ s l. record { start = s; len = l }) hs hl

decode_want-encode_want :
    (m : Want) → m.start < 2 ^ 64 → m.len < 2 ^ 64 → decode_want (encode_want m) ≡ ok m
unfolding decode_want encode_want
decode_want-encode_want m hs hl =
    read_pair m.start m.len (λ s l. record { start = s; len = l }) hs hl

pub decode_request-encode_request :
    (m : Request) → m.index < 2 ^ 64 → decode_request (encode_request m) ≡ ok m
unfolding decode_request encode_request
decode_request-encode_request m h =
    rw (← append-nil (put_uint 8 m.index)) (rw (read_uint-put_uint 8 m.index [] h) refl)

-- The loop appends what is left to what it has.
read_extensions-write_extensions :
    (exts acc : List Bytes)
    → All FitsLimit exts
    → read_extensions (length exts) acc (write_extensions exts) ≡ ok (acc ++ exts)
unfolding read_extensions write_extensions
read_extensions-write_extensions [] acc h = rw (append-nil acc) refl
read_extensions-write_extensions (ext ∷ exts) acc (h, hs) =
    rw (read_string-write_string ext (write_extensions exts) h) (
      read_extensions-write_extensions exts (acc ++ (ext ∷ [])) hs
      ∙ ap ok (append_assoc acc (ext ∷ []) exts))

read_counted-write :
    (exts : List Bytes)
    → length exts < 2 ^ 32
    → All FitsLimit exts
    → read_counted (read_uint 4 (put_uint 4 (length exts % 2 ^ 32) ++ write_extensions exts))
      ≡ ok exts
unfolding read_counted
read_counted-write exts h hs =
    rw (read_uint-put_uint 4 (length exts % 2 ^ 32) (write_extensions exts) (omega arith))
      (rw (mod-eq_of_lt h) (read_extensions-write_extensions exts [] hs))

-- The decoder of Handshake returns the message that was encoded.
pub decode_handshake-encode_handshake :
    (m : Handshake)
    → FitsLimit m.protocol
    → FitsLimit m.key
    → length m.extensions < 2 ^ 32
    → All FitsLimit m.extensions
    → decode_handshake (encode_handshake m) ≡ ok m
unfolding decode_handshake encode_handshake
decode_handshake-encode_handshake m hp hk hn he =
    rw (read_string-write_string m.protocol _ hp)
      (rw (read_bytes-write_bytes m.key _ hk) (rw (read_counted-write m.extensions hn he) refl))
