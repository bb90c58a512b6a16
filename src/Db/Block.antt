-- ===== src/Db/Block.antt =====
-- pkg/db/bbolt.go, encodeBlock and decodeBlock: a block and its signature as one value of a bucket.
pub mod Codec
use keet_agent.Prelude.{ℕ, ◌+◌, ◌%◌, ◌^◌, List, [], ◌∷◌, ◌++◌, length, slice, ltb, if◌then◌else◌}
use keet_agent.Prelude.Result.{Result, ok, err, panic}
use keet_agent.Bytes.{Bytes, put_uint, get_uint}

pub encode_block : Bytes → Bytes → Bytes
encode_block value signature =
    put_uint 4 (length value % 2 ^ 32)
    ++ (value ++ (put_uint 4 (length signature % 2 ^ 32) ++ signature))

pub data BlockError : Type 0 where
  too_short value_too_short signature_too_short : BlockError

-- Behind each length test the slices are in range.
pub decode_block : Bytes → Result BlockError (Bytes × Bytes)
decode_block d =
    let val_len = get_uint 0 (slice d 0 4) in
    let sig_len = get_uint 0 (slice d (4 + val_len) (8 + val_len)) in
    if ltb (length d) 8
    then err too_short
    else if ltb (length d) (8 + val_len)
    then err value_too_short
    else if ltb (length d) (8 + val_len + sig_len)
    then err signature_too_short
    else ok (slice d 4 (4 + val_len), slice d (8 + val_len) (8 + val_len + sig_len))
