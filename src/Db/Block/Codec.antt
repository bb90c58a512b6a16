-- ===== src/Db/Block/Codec.antt =====
-- decodeBlock behind encodeBlock (pkg/db/bbolt.go).
use keet_agent.Prelude.{
  ℕ, ◌+◌, ◌-◌, ◌%◌, ◌^◌, ◌<◌, [], ◌++◌, length, slice, ◌≡◌, refl, sym, ap, ◌∙◌, arith, append_assoc,
  append-nil, length-append, take-append, drop-append,
}
use keet_agent.Prelude.Result.{ok}
use keet_agent.Bytes.{Bytes, put_uint, get_uint}
use keet_agent.Bytes.Laws.{get_uint-put_uint}
use keet_agent.Db.Block.{encode_block, decode_block}

-- A part that stands behind a prefix.
slice-append :
    (pre x rest : Bytes) (i j : ℕ)
    → i ≡ length pre
    → j ≡ length pre + length x
    → slice (pre ++ (x ++ rest)) i j ≡ x
slice-append pre x rest i j e k =
    let width : j - i ≡ length x = omega arith in
    rw (width, e, drop-append pre (x ++ rest), take-append x rest) refl

module _ (value signature : Bytes) (hv : length value < 2 ^ 32)
    (hs : length signature < 2 ^ 32) where
  value_length : get_uint 0 (slice (encode_block value signature) 0 4) ≡ length value
  unfolding encode_block
  value_length = get_uint-put_uint 4 (length value % 2 ^ 32) (omega arith) ∙ omega arith

  signature_length :
      get_uint 0 (slice (encode_block value signature) (4 + length value) (8 + length value))
      ≡ length signature
  unfolding encode_block
  signature_length =
      let n = put_uint 4 (length value % 2 ^ 32) in
      let m = put_uint 4 (length signature % 2 ^ 32) in
      ap (get_uint 0) (
        ap (λ (d : Bytes). slice d (4 + length value) (8 + length value))
          (sym (append_assoc n value (m ++ signature)))
        ∙ slice-append (n ++ value) m signature (4 + length value) (8 + length value)
            (omega (arith, length-append n value)) (omega (arith, length-append n value)))
      ∙ get_uint-put_uint 4 (length signature % 2 ^ 32) (omega arith)
      ∙ omega arith

  value_part : slice (encode_block value signature) 4 (4 + length value) ≡ value
  unfolding encode_block
  value_part =
      let n = put_uint 4 (length value % 2 ^ 32) in
      let m = put_uint 4 (length signature % 2 ^ 32) in
      slice-append n value (m ++ signature) 4 (4 + length value) refl refl

  signature_part :
      slice (encode_block value signature) (8 + length value) (8 + length value + length signature)
      ≡ signature
  unfolding encode_block
  signature_part =
      let n = put_uint 4 (length value % 2 ^ 32) in
      let m = put_uint 4 (length signature % 2 ^ 32) in
      let split : n ++ (value ++ (m ++ signature)) ≡ ((n ++ value) ++ m) ++ (signature ++ []) =
        sym (append_assoc n value (m ++ signature))
        ∙ sym (append_assoc (n ++ value) m signature)
        ∙ ap (◌++◌ ((n ++ value) ++ m)) (sym (append-nil signature)) in
      ap (λ (d : Bytes). slice d (8 + length value) (8 + length value + length signature)) split
      ∙ slice-append ((n ++ value) ++ m) signature [] (8 + length value)
          (8 + length value + length signature)
          (omega (arith, length-append (n ++ value) m, length-append n value))
          (omega (arith, length-append (n ++ value) m, length-append n value))

  length-encode_block : length (encode_block value signature) ≡ 8 + length value + length signature
  unfolding encode_block
  length-encode_block =
      let n = put_uint 4 (length value % 2 ^ 32) in
      let m = put_uint 4 (length signature % 2 ^ 32) in
      omega (
        arith,
        length-append n (value ++ (m ++ signature)),
        length-append value (m ++ signature),
        length-append m signature,
      )

  -- decodeBlock returns the value and the signature that encodeBlock was given.
  pub decode_block-encode_block :
      decode_block (encode_block value signature) ≡ ok (value, signature)
  unfolding decode_block
  decode_block-encode_block =
      rw (value_length, signature_length, value_part, signature_part)
        (ground (arith, length-encode_block))
