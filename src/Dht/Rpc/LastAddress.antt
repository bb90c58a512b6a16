-- ===== src/Dht/Rpc/LastAddress.antt =====
-- The end of a packet: an empty last address (pkg/dht/rpc.go).
use keet_agent.Prelude.{
  suc, ◌%◌, ◌^◌, ◌<◌, List, [], ◌∷◌, ◌++◌, length, some, ltb, false, ◌≡◌, refl, sym, ap, ◌∙◌, arith,
  All, length-append,
}
use keet_agent.Prelude.Result.{ok, err, ◌>>=◌}
use keet_agent.Bytes.{Bytes, put_uint, eof, read_full, read_uint}
use keet_agent.Bytes.Laws.{read_uint-put_uint}
use keet_agent.Dht.Rpc.{
  Message, reading, write_short, write_peers, encode_payload, encode_message, read_some, read_peers,
  decode_payload, decode_peers, decode_message, msg_lookup_resp,
}
use keet_agent.Dht.Rpc.RoundTrip.{IsAddress, read_some-append, read_short}
use native.Mathlib.Nat.{mod-eq_of_lt}

read_peers-last_empty :
    (ps : List Bytes)
    → All IsAddress ps
    → read_peers (suc (length ps)) (write_peers (ps ++ ([] ∷ []))) ≡ err (reading eof)
unfolding read_peers write_peers write_short read_some read_uint read_full
read_peers-last_empty [] h = refl
read_peers-last_empty (p ∷ ps) (h, hs) =
    read_short p (write_peers (ps ++ ([] ∷ [])))
      (λ a r. read_peers (suc (length ps)) r >>= λ (qs, r3). ok (a ∷ qs, r3)) h
    ∙ rw (read_peers-last_empty ps hs) refl

-- A lookup response whose last peer address is empty is encoded, but DecodeMessage ends in EOF.
pub decode_message-last_empty :
    (m : Message) (ps : List Bytes)
    → length m.tx_id ≡ 4
    → length m.sender_id ≡ 32
    → All IsAddress ps
    → suc (length ps) < 2 ^ 16
    → m.kind ≡ msg_lookup_resp
    → m.peers ≡ ps ++ ([] ∷ [])
    → (encode_message (some m) >>= decode_message) ≡ err (reading eof)
unfolding encode_message decode_message encode_payload decode_payload decode_peers
decode_message-last_empty m ps ht hs ha hn hk hp =
    let count : length m.peers ≡ suc (length ps) =
      ap (λ (x : List Bytes). length x) hp ∙ omega (arith, length-append ps ([] ∷ [])) in
    let fits : suc (length ps) % 2 ^ 16 ≡ suc (length ps) = mod-eq_of_lt hn in
    let body = put_uint 2 (suc (length ps)) ++ write_peers (ps ++ ([] ∷ [])) in
    let tail = msg_lookup_resp ∷ (m.sender_id ++ body) in
    let long : ltb (length (m.tx_id ++ tail)) 37 ≡ false =
      ground (arith, length-append m.tx_id tail, length-append m.sender_id body) in
    rw (hk, count, hp, fits, long)
      (rw (read_some-append 4 m.tx_id tail (sym ht) (omega arith)) (
        rw (read_some-append 32 m.sender_id body (sym hs) (omega arith)) (
          rw (read_uint-put_uint 2 (suc (length ps)) (write_peers (ps ++ ([] ∷ []))) hn)
            (rw (read_peers-last_empty ps ha) refl))))
