-- ===== src/Crypto/Secure/Oversize.antt =====
-- A Write of a SecureConn (pkg/crypto/noise.go) whose frame would be too large.
use keet_agent.Prelude.{
  ℕ, ◌+◌, ◌^◌, ◌≤◌, ◌<◌, true, false, [], ◌++◌, length, none, some, ltb, ◌≡◌, ◌≢◌, refl, ap, ◌∙◌,
  arith, append-nil, sym,
}
use keet_agent.Prelude.Result.{Result, ok, err}
use keet_agent.Bytes.{Bytes, put_uint}
use keet_agent.Crypto.Secure.{
  Ciphers, SecureConn, SecureError, too_large, decrypt_failed, write_frame, write, read,
}
use keet_agent.Crypto.Secure.Stream.{ArePaired, IsWrite, read_frame-write_frame}

-- What was encrypted under one number is not accepted under another one.
abbrev pub Authenticates : Ciphers → Ciphers → Type 0
Authenticates a b = (n m : ℕ) (p c : Bytes) → n ≢ m → a.encrypt n p ≡ some c → b.decrypt m c ≡ none

write-oversize :
    (a b : Ciphers) (s : SecureConn) (p : Bytes)
    → ArePaired a b
    → s.sent + 1 < 2 ^ 64
    → 65519 < length p
    → write a s p ≡ (record s { sent = s.sent + 1 }, err too_large)
unfolding write write_frame
write-oversize a b s p h small long =
    let (c, enc, _, size) = h.works s.sent p small in
    let over : ltb 65535 (length c) ≡ true = ground arith in rw (enc, over) refl

write-fits :
    (a : Ciphers) (s : SecureConn) (q c : Bytes)
    → a.encrypt s.sent q ≡ some c
    → length c ≤ 65535
    → (write a s q).1 ≡ ok (put_uint 2 (length c) ++ c)
unfolding write write_frame
write-fits a s q c e h = let fits : ltb 65535 (length c) ≡ false = ground arith in rw (e, fits) refl

read_refused :
    (b : Ciphers) (s : SecureConn) (c : Bytes) (n : ℕ)
    → s.read_buf ≡ []
    → length c ≤ 65535
    → b.decrypt s.received c ≡ none
    → (read b s (put_uint 2 (length c) ++ c) n).result ≡ err decrypt_failed
unfolding read
read_refused b s c n e h d =
    ap (λ (w : Bytes). (read b s w n).result) (sym (append-nil (put_uint 2 (length c) ++ c)))
    ∙ rw (e, read_frame-write_frame c [] h, d) refl

-- A Write of more than 65519 bytes is an error that uses up a number: the next Write sends its frame, but
-- the Read of it at the other end fails.
pub read-write_oversize :
    (a b : Ciphers) (writer reader : SecureConn) (p q : Bytes) (n : ℕ)
    → ArePaired a b
    → Authenticates a b
    → writer.sent ≡ reader.received
    → reader.read_buf ≡ []
    → writer.sent + 2 < 2 ^ 64
    → 65519 < length p
    → IsWrite q
    → ((write a writer p).1 ≡ err too_large)
      × ((w : Bytes) × ((write a (write a writer p).0 q).1 ≡ ok w)
          × ((read b reader w n).result ≡ err decrypt_failed))
read-write_oversize a b writer reader p q n h auth same empty small long (_, fits) =
    let failed = write-oversize a b writer p h (omega arith) long in
    let (c, enc, _, size) = h.works (writer.sent + 1) q (omega arith) in
    let refused : b.decrypt reader.received c ≡ none =
      auth (writer.sent + 1) reader.received q c (λ e. absurd (omega (arith, e, same))) enc in
    (
      ap (λ (r : SecureConn × Result SecureError Bytes). r.1) failed,
      (
        put_uint 2 (length c) ++ c,
        ap (λ (r : SecureConn × Result SecureError Bytes). (write a r.0 q).1) failed
            ∙ write-fits a (record writer { sent = writer.sent + 1 }) q c enc (omega arith),
        read_refused b reader c n empty (omega arith) refused,
      ),
    )
