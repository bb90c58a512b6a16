-- ===== src/Dht/Rpc/RoundTrip.antt =====
-- DecodeMessage behind EncodeMessage (pkg/dht/rpc.go).
use keet_agent.Prelude.{
  ℕ, zero, suc, ◌-◌, ◌%◌, ◌^◌, ◌≤◌, ◌<◌, List, [], ◌∷◌, ◌++◌, length, some, ltb, false, ◌==◌,
  if◌then◌else◌, ◌≡◌, refl, sym, ap, ◌∙◌, arith, All, append_assoc, append-nil, length-append,
  take-append, drop-append,
}
use keet_agent.Prelude.Result.{Result, ok, ◌>>=◌}
use keet_agent.Bytes.{Bytes, put_uint, read_uint}
use keet_agent.Bytes.Laws.{read_uint-put_uint}
use keet_agent.Dht.Routing.{Contact}
use keet_agent.Dht.Rpc.{
  Message, RpcError, write_short, write_contacts, write_peers, encode_payload, encode_message,
  from_reader, read_some, read_contacts, read_peers, blank, decode_payload, decode_target,
  decode_contacts, decode_announce, decode_topic, decode_peers, decode_message, msg_find_node,
  msg_find_node_resp, msg_announce, msg_lookup, msg_lookup_resp,
}
use native.Mathlib.Nat.{mod-eq_of_lt}

-- An address that its 16-bit length can count, and that is not empty.
abbrev pub IsAddress : Bytes → Type 0
IsAddress a = (0 < length a) × (length a < 2 ^ 16)

abbrev pub IsContact : Contact → Type 0
IsContact c = (length c.id ≡ 32) × IsAddress c.addr

-- The arrays have their lengths, and the lists and the addresses fit their counts.
pub record IsMessage (m : Message) : Type 0 where
  pub tx_size : length m.tx_id ≡ 4
  pub sender_size : length m.sender_id ≡ 32
  pub target_size : length m.target ≡ 32
  pub topic_size : length m.topic ≡ 32
  pub port_range : m.port < 2 ^ 16
  pub contact_count : length m.contacts < 2 ^ 16
  pub peer_count : length m.peers < 2 ^ 16
  pub contact_sizes : All IsContact m.contacts
  pub peer_sizes : All IsAddress m.peers

-- A full read, of bytes of which there is at least one.
pub read_some-append :
    (n : ℕ) (xs rest : Bytes) → n ≡ length xs → 0 < n → read_some n (xs ++ rest) ≡ ok (xs, rest)
unfolding read_some
read_some-append n xs rest e h = rw e (
    rw (take-append xs rest, drop-append xs rest)
      (let none_missing : length xs - length (xs ++ rest) ≡ 0 =
          omega (arith, length-append xs rest) in
        rw (none_missing, append-nil xs) (ground (arith, length-append xs rest))))

read_some-whole : (n : ℕ) (xs : Bytes) → n ≡ length xs → 0 < n → read_some n xs ≡ ok (xs, [])
read_some-whole n xs e h = ap (read_some n) (sym (append-nil xs)) ∙ read_some-append n xs [] e h

pub read_short :
    {A : Type 0} (b rest : Bytes) (f : Bytes → Bytes → Result RpcError A)
    → IsAddress b
    → (from_reader (read_uint 2 (write_short b ++ rest)) >>= λ (n, r).
        from_reader (read_some n r) >>= λ (b', r'). f b' r')
      ≡ f b rest
unfolding write_short
read_short b rest f (h, l) =
    rw (append_assoc (put_uint 2 (length b % 2 ^ 16)) b rest, mod-eq_of_lt l)
      (rw (read_uint-put_uint 2 (length b) (b ++ rest) l)
        (rw (read_some-append (length b) b rest refl h) refl))

read_contacts-write_contacts :
    (cs : List Contact)
    → All IsContact cs
    → read_contacts (length cs) (write_contacts cs) ≡ ok (cs, [])
unfolding read_contacts write_contacts
read_contacts-write_contacts [] h = refl
read_contacts-write_contacts (c ∷ cs) ((hi, ha), hs) =
    rw (read_some-append 32 c.id (write_short c.addr ++ write_contacts cs) (sym hi) (omega arith)) (
      read_short c.addr (write_contacts cs)
        (λ a r.
          read_contacts (length cs) r >>= λ (ds, r4). ok (record { id = c.id; addr = a } ∷ ds, r4))
        ha
      ∙ rw (read_contacts-write_contacts cs hs) refl)

read_peers-write_peers :
    (ps : List Bytes) → All IsAddress ps → read_peers (length ps) (write_peers ps) ≡ ok (ps, [])
unfolding read_peers write_peers
read_peers-write_peers [] h = refl
read_peers-write_peers (p ∷ ps) (h, hs) =
    read_short p (write_peers ps) (λ a r. read_peers (length ps) r >>= λ (qs, r3). ok (a ∷ qs, r3))
      h
    ∙ rw (read_peers-write_peers ps hs) refl

-- What of a message its type carries: the other fields come back zeroed.
unfoldable pub carried : ℕ → Message → Message
carried kind m =
    let start = blank m.tx_id m.kind m.sender_id in
    if kind == msg_find_node
    then record start { target = m.target }
    else if kind == msg_find_node_resp
    then record start { contacts = m.contacts }
    else if kind == msg_announce
    then record start { topic = m.topic; port = m.port }
    else if kind == msg_lookup
    then record start { topic = m.topic }
    else if kind == msg_lookup_resp
    then record start { peers = m.peers }
    else start

decode_payload-encode_payload :
    (kind : ℕ) (m : Message)
    → IsMessage m
    → 1 ≤ kind
    → kind ≤ 7
    → (payload : Bytes) × (encode_payload kind m ≡ ok payload)
      × (decode_payload kind (blank m.tx_id m.kind m.sender_id) payload ≡ ok (carried kind m))
unfolding encode_payload decode_payload decode_target decode_contacts decode_announce decode_topic
    decode_peers carried
decode_payload-encode_payload zero m h l u = absurd (omega arith)
decode_payload-encode_payload (suc zero) m h l u = ([], refl, refl)
decode_payload-encode_payload (suc (suc zero)) m h l u = ([], refl, refl)
decode_payload-encode_payload (suc (suc (suc zero))) m h l u =
    (m.target, refl, rw (read_some-whole 32 m.target (sym h.target_size) (omega arith)) refl)
decode_payload-encode_payload (suc (suc (suc (suc zero)))) m h l u = (
  put_uint 2 (length m.contacts % 2 ^ 16) ++ write_contacts m.contacts,
  refl,
  rw (mod-eq_of_lt h.contact_count) (
      rw (read_uint-put_uint 2 (length m.contacts) (write_contacts m.contacts) h.contact_count)
        (rw (read_contacts-write_contacts m.contacts h.contact_sizes) refl)),
)
decode_payload-encode_payload (suc (suc (suc (suc (suc zero))))) m h l u = (
  m.topic ++ put_uint 2 m.port,
  refl,
  rw (read_some-append 32 m.topic (put_uint 2 m.port) (sym h.topic_size) (omega arith)) (
      rw (← append-nil (put_uint 2 m.port))
        (rw (read_uint-put_uint 2 m.port [] h.port_range) refl)),
)
decode_payload-encode_payload (suc (suc (suc (suc (suc (suc zero)))))) m h l u =
    (m.topic, refl, rw (read_some-whole 32 m.topic (sym h.topic_size) (omega arith)) refl)
decode_payload-encode_payload (suc (suc (suc (suc (suc (suc (suc zero))))))) m h l u = (
  put_uint 2 (length m.peers % 2 ^ 16) ++ write_peers m.peers,
  refl,
  rw (mod-eq_of_lt h.peer_count) (
      rw (read_uint-put_uint 2 (length m.peers) (write_peers m.peers) h.peer_count)
        (rw (read_peers-write_peers m.peers h.peer_sizes) refl)),
)
decode_payload-encode_payload (suc (suc (suc (suc (suc (suc (suc (suc n)))))))) m h l u =
    absurd (omega arith)

-- A message of a known type, whose addresses are not empty and fit their counts, is encoded, and
-- DecodeMessage returns from the packet what its type carries of it.
pub decode_message-encode_message :
    (m : Message)
    → IsMessage m
    → 1 ≤ m.kind
    → m.kind ≤ 7
    → (encode_message (some m) >>= decode_message) ≡ ok (carried m.kind m)
unfolding encode_message decode_message
decode_message-encode_message m h l u =
    let (payload, enc, dec) = decode_payload-encode_payload m.kind m h l u in
    let tail = m.kind ∷ (m.sender_id ++ payload) in
    let long : ltb (length (m.tx_id ++ tail)) 37 ≡ false = ground (
      arith,
      length-append m.tx_id tail,
      length-append m.sender_id payload,
      h.tx_size,
      h.sender_size,
    ) in
    rw (enc, long)
      (rw (read_some-append 4 m.tx_id tail (sym h.tx_size) (omega arith))
        (rw (read_some-append 32 m.sender_id payload (sym h.sender_size) (omega arith)) dec))
