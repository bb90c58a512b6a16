-- ===== src/Crypto/Secure.antt =====
-- pkg/crypto/noise.go: Write and Read of a SecureConn, behind the handshake, and the frames.
-- The ciphers of the Noise library are a parameter: a state encrypts or decrypts under a number that it
-- counts up with every success. The connection below takes all the bytes that it is given, and a read
-- of it that meets the end of the bytes is an error.
pub mod Stream
pub mod Oversize
use keet_agent.Prelude.{
  ℕ, zero, suc, ◌+◌, ◌%◌, ◌^◌, List, [], ◌∷◌, ◌++◌, length, take, drop, Option, none, some, ltb,
  if◌then◌else◌,
}
use keet_agent.Prelude.Result.{Result, ok, err, panic, ◌>>=◌}
use keet_agent.Bytes.{Bytes, put_uint, ReadError, read_full, read_uint}

pub record Ciphers : Type 0 where
  pub encrypt : ℕ → Bytes → Option Bytes
  pub decrypt : ℕ → Bytes → Option Bytes

-- The numbers of csSend and csRecv.
pub record SecureConn : Type 0 where
  pub sent : ℕ
  pub received : ℕ
  pub read_buf : Bytes

pub data SecureError : Type 0 where
  too_large encrypt_failed decrypt_failed : SecureError
  read_failed : ReadError → SecureError

pub write_frame : Bytes → Result SecureError Bytes
write_frame data_ =
    if ltb 65535 (length data_) then err too_large else ok (put_uint 2 (length data_) ++ data_)

abbrev pub from_reader {ℓ} : {A : Type ℓ} → Result ReadError A → Result SecureError A
from_reader (ok a) = ok a
from_reader (err e) = err (read_failed e)
from_reader panic = panic

pub read_frame : Bytes → Result SecureError (Bytes × Bytes)
read_frame r = do (n, r') ← from_reader (read_uint 2 r); from_reader (read_full n r')

abbrev pub encrypted : SecureConn → Option Bytes → SecureConn × Result SecureError Bytes
encrypted s none = (s, err encrypt_failed)
encrypted s (some c) = (record s { sent = s.sent + 1 }, write_frame c)

-- What a Read leaves: the connection, what is still to be read below, and the bytes.
pub record Reading : Type 0 where
  pub conn : SecureConn
  pub wire : Bytes
  pub result : Result SecureError Bytes

abbrev pub copied : SecureConn → Bytes → ℕ → Bytes → Reading
copied s wire n decrypted = record {
  conn = record s { read_buf = drop n decrypted };
  wire = wire;
  result = ok (take n decrypted);
}

abbrev pub decrypted : SecureConn → Bytes → ℕ → Option Bytes → Reading
decrypted s wire n none = record { conn = s; wire = wire; result = err decrypt_failed }
decrypted s wire n (some p) = copied (record s { received = s.received + 1 }) wire n p

module _ (ciphers : Ciphers) where
  -- The bytes that go to the connection, or the error.
  pub write : SecureConn → Bytes → SecureConn × Result SecureError Bytes
  unfolding write_frame
  write s p = encrypted s (ciphers.encrypt s.sent p)

  abbrev pub framed : SecureConn → Bytes → ℕ → Result SecureError (Bytes × Bytes) → Reading
  framed s wire n (ok (c, rest)) = decrypted s rest n (ciphers.decrypt s.received c)
  framed s wire n (err e) = record { conn = s; wire = []; result = err e }
  framed s wire n panic = record { conn = s; wire = []; result = panic }

  abbrev pub buffered : SecureConn → Bytes → ℕ → Bytes → Reading
  buffered s wire n [] = framed s wire n (read_frame wire)
  buffered s wire n (b ∷ bs) = copied s wire n (b ∷ bs)

  -- Read with a buffer of n bytes.
  pub read : SecureConn → Bytes → ℕ → Reading
  unfolding read_frame
  read s wire n = buffered s wire n s.read_buf
