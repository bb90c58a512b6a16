-- ===== src/Bytes.antt =====
-- Byte strings: the big-endian integers of encoding/binary and the exact reads of io.ReadFull, on
-- which every codec of the repository stands. A byte is a number below 256.
pub mod Laws
use keet_agent.Prelude.{
  ℕ, zero, suc, ◌+◌, ◌*◌, ◌/◌, ◌%◌, ◌^◌, ◌<◌, List, [], ◌∷◌, take, drop, length, leb, ◌==◌,
  if◌then◌else◌, Bool,
}
use keet_agent.Prelude.Result.{Result, ok, err, ◌>>=◌}

abbrev pub Bytes : Type 0
Bytes = List ℕ

-- binary.BigEndian.PutUint16, PutUint32, PutUint64 for k = 2, 4, 8.
abbrev pub put_uint : ℕ → ℕ → Bytes
put_uint zero v = []
put_uint (suc k) v = (v / 256 ^ k % 256) ∷ put_uint k v

-- binary.BigEndian.Uint16, Uint32, Uint64 of a slice of 2, 4, 8 bytes, from an accumulator of 0.
abbrev pub get_uint : ℕ → Bytes → ℕ
get_uint acc [] = acc
get_uint acc (b ∷ bs) = get_uint (acc * 256 + b) bs

-- The errors of a reader that runs dry: at once, or inside the item.
pub data ReadError : Type 0 where
  eof unexpected_eof : ReadError

-- io.ReadFull(r, buf) for a buffer of `n` bytes; what is left of the reader comes back too.
unfoldable pub read_full : ℕ → Bytes → Result ReadError (Bytes × Bytes)
read_full n r =
    if leb n (length r)
    then ok (take n r, drop n r)
    else if length r == 0
    then err eof
    else err unexpected_eof

-- binary.Read(r, binary.BigEndian, &v) for a v of `k` bytes.
unfoldable pub read_uint : ℕ → Bytes → Result ReadError (ℕ × Bytes)
read_uint k r = do (b, rest) ← read_full k r; ok (get_uint 0 b, rest)
