-- ===== src/Dht/Topic.antt =====
-- pkg/dht/topic.go: the key of a topic.
use keet_agent.Prelude.{
  ◌<◌, All, length, Option, none, some, ◌==◌, if◌then◌else◌, ◌≡◌, arith, Option-cases, Bool-cases,
  inl, inr,
}
use keet_agent.Bytes.{Bytes}
use keet_agent.Encoding.Hex.{
  encode_to_string, decode_string, decode_string-encode_to_string, length-encode_to_string,
  decode_string-All,
}

-- The parsed key, if there is one of 32 bytes, and otherwise the hash.
abbrev pub parsed_or : Bytes → Option Bytes → Bytes
parsed_or hash none = hash
parsed_or hash (some decoded) = if length decoded == 32 then decoded else hash

-- `none` is the error for an empty topic; `sum256` is BLAKE2b.
unfoldable pub resolve_topic_key : (Bytes → Bytes) → Bytes → Option Bytes
resolve_topic_key sum256 topic =
    if length topic == 0
    then none
    else if length topic == 64
    then some (parsed_or (sum256 topic) (decode_string topic))
    else some (sum256 topic)

-- A hash function with sums of 32 bytes.
pub record IsHash (sum256 : Bytes → Bytes) : Type 0 where
  pub size : (m : Bytes) → length (sum256 m) ≡ 32
  pub bytes : (m : Bytes) → All (λ b. b < 256) (sum256 m)

abbrev pub IsKey : Bytes → Type 0
IsKey key = (length key ≡ 32) × All (λ b. b < 256) key

parsed_or-IsKey :
    (sum256 : Bytes → Bytes) (topic : Bytes)
    → IsHash sum256
    → IsKey (parsed_or (sum256 topic) (decode_string topic))
parsed_or-IsKey sum256 topic h = elim (Option-cases (decode_string topic)) [
  | inl bad ↦ rw bad (h.size topic, h.bytes topic)
  | inr (d, parsed) ↦ elim (Bool-cases (length d == 32)) [
    | inl full ↦ rw (parsed, full) (ground arith, decode_string-All topic d parsed)
    | inr other ↦ rw (parsed, other) (h.size topic, h.bytes topic)
  ]
]

pub resolve_topic_key-IsKey :
    (sum256 : Bytes → Bytes) (topic key : Bytes)
    → IsHash sum256
    → resolve_topic_key sum256 topic ≡ some key
    → IsKey key
unfolding resolve_topic_key
resolve_topic_key-IsKey sum256 topic key h e =
    ground (arith, parsed_or-IsKey sum256 topic h, h.size topic, h.bytes topic)

-- For a hash function with sums of 32 bytes: the hex form of the key of a topic, as a topic, has that
-- key.
pub resolve_topic_key-resolved :
    (sum256 : Bytes → Bytes) (topic key : Bytes)
    → IsHash sum256
    → resolve_topic_key sum256 topic ≡ some key
    → resolve_topic_key sum256 (encode_to_string key) ≡ some key
unfolding resolve_topic_key
resolve_topic_key-resolved sum256 topic key h e =
    let (full, bytes) = resolve_topic_key-IsKey sum256 topic key h e in
    rw (length-encode_to_string key, full, decode_string-encode_to_string key bytes, full)
