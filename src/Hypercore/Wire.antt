-- ===== src/Hypercore/Wire.antt =====
-- pkg/hypercore/wire.go: the messages of the feed protocol and their encoders and decoders.
-- A Go string is its bytes. Writes to a bytes.Buffer cannot fail, so an encoder returns bytes only.
pub mod RoundTrip
pub mod Limits
use keet_agent.Prelude.{
  ℕ, zero, suc, ◌+◌, ◌*◌, ◌%◌, ◌^◌, List, [], ◌∷◌, ◌++◌, length, ltb, leb, ◌==◌, if◌then◌else◌,
}
use keet_agent.Prelude.Result.{Result, ok, err, panic, ◌>>=◌}
use keet_agent.Bytes.{Bytes, put_uint, ReadError, read_full, read_uint}

pub record Handshake : Type 0 where
  pub protocol : Bytes
  pub key : Bytes
  pub extensions : List Bytes

pub record Have : Type 0 where
  pub start : ℕ
  pub len : ℕ

pub record Want : Type 0 where
  pub start : ℕ
  pub len : ℕ

pub record Request : Type 0 where
  pub index : ℕ

pub record Data : Type 0 where
  pub index : ℕ
  pub value : Bytes
  pub signature : Bytes

abbrev pub max_message_size : ℕ
max_message_size = 10 * 1024 * 1024

pub data WireError : Type 0 where
  invalid_type over_limit : WireError
  reading : ReadError → WireError

-- An error of the reader is handed on.
abbrev pub from_reader {ℓ} : {A : Type ℓ} → Result ReadError A → Result WireError A
from_reader (ok a) = ok a
from_reader (err e) = err (reading e)
from_reader panic = panic

pub write_bytes : Bytes → Bytes
write_bytes b = put_uint 4 (length b % 2 ^ 32) ++ b

pub write_string : Bytes → Bytes
write_string s = put_uint 4 (length s % 2 ^ 32) ++ s

unfoldable pub read_bytes : Bytes → Result WireError (Bytes × Bytes)
read_bytes r = do
  (n, r') ← from_reader (read_uint 4 r)
  if ltb max_message_size n then err over_limit else from_reader (read_full n r')

pub read_string : Bytes → Result WireError (Bytes × Bytes)
read_string r = do
  (n, r') ← from_reader (read_uint 4 r)
  if ltb max_message_size n then err over_limit else from_reader (read_full n r')

-- for _, ext := range m.Extensions
pub write_extensions : List Bytes → Bytes
write_extensions [] = []
write_extensions (ext ∷ exts) = write_string ext ++ write_extensions exts

pub encode_handshake : Handshake → Bytes
encode_handshake m =
    0
    ∷ (write_string m.protocol
        ++ (write_bytes m.key
            ++ (put_uint 4 (length m.extensions % 2 ^ 32) ++ write_extensions m.extensions)))

-- for i := uint32(0); i < extLen; i++, on the count of rounds left; `acc` holds what was appended.
pub read_extensions : ℕ → List Bytes → Bytes → Result WireError (List Bytes)
read_extensions zero acc r = ok acc
read_extensions (suc n) acc r =
    read_string r >>= λ (ext, r'). read_extensions n (acc ++ (ext ∷ [])) r'

-- A count that cannot be read leaves the extensions empty and is no error.
read_counted : Result ReadError (ℕ × Bytes) → Result WireError (List Bytes)
read_counted (ok (n, r)) = read_extensions n [] r
read_counted (err e) = ok []
read_counted panic = panic

-- if len(b) < 1 || b[0] != t { return nil, errors.New("invalid … message type") }
abbrev pub expect_type : ℕ → Bytes → Result WireError Bytes
expect_type t [] = err invalid_type
expect_type t (b ∷ bs) = if b == t then ok bs else err invalid_type

pub decode_handshake : Bytes → Result WireError Handshake
unfolding read_counted
decode_handshake b = do
  r ← expect_type 0 b
  (protocol, r1) ← read_string r
  (key, r2) ← read_bytes r1
  extensions ← read_counted (read_uint 4 r2)
  ok (record { protocol = protocol; key = key; extensions = extensions })

unfoldable pub encode_have : Have → Bytes
encode_have m = 2 ∷ (put_uint 8 m.start ++ put_uint 8 m.len)

pub decode_have : Bytes → Result WireError Have
decode_have b = do
  r ← expect_type 2 b
  (start, r1) ← from_reader (read_uint 8 r)
  (len, r2) ← from_reader (read_uint 8 r1)
  ok (record { start = start; len = len })

pub encode_want : Want → Bytes
encode_want m = 3 ∷ (put_uint 8 m.start ++ put_uint 8 m.len)

pub decode_want : Bytes → Result WireError Want
decode_want b = do
  r ← expect_type 3 b
  (start, r1) ← from_reader (read_uint 8 r)
  (len, r2) ← from_reader (read_uint 8 r1)
  ok (record { start = start; len = len })

unfoldable pub encode_request : Request → Bytes
encode_request m = 4 ∷ put_uint 8 m.index

pub decode_request : Bytes → Result WireError Request
decode_request b = do
  r ← expect_type 4 b
  (index, r1) ← from_reader (read_uint 8 r)
  ok (record { index = index })

unfoldable pub encode_data : Data → Bytes
encode_data m = 5 ∷ (put_uint 8 m.index ++ (write_bytes m.value ++ write_bytes m.signature))

unfoldable pub decode_data : Bytes → Result WireError Data
decode_data b = do
  r ← expect_type 5 b
  (index, r1) ← from_reader (read_uint 8 r)
  (value, r2) ← read_bytes r1
  (signature, r3) ← read_bytes r2
  ok (record { index = index; value = value; signature = signature })
