-- ===== src/Crypto/Secure/Stream.antt =====
-- The stream of bytes of a SecureConn (pkg/crypto/noise.go).
use keet_agent.Prelude.{
  ℕ, ◌+◌, ◌^◌, ◌≤◌, ◌<◌, false, List, [], ◌∷◌, ◌++◌, length, take, drop, All, some, ltb, ◌≡◌, refl,
  sym, ap, subst, ◌∙◌, arith, append_assoc, length-append, take-append-drop, length-drop,
}
use keet_agent.Prelude.Result.{Result, ok, err, panic, ◌>>=◌}
use keet_agent.Bytes.{Bytes, put_uint, read_full, read_uint, eof}
use keet_agent.Bytes.Laws.{read_full-append_of, read_uint-put_uint}
use keet_agent.Crypto.Secure.{
  Ciphers, SecureConn, SecureError, read_failed, Reading, write_frame, read_frame, write, copied,
  read,
}

-- What the library does with the key that both sides have: up to the last number it decrypts what it
-- encrypted, and the tag takes 16 bytes.
pub record ArePaired (a b : Ciphers) : Type 0 where
  pub works :
      (n : ℕ) (p : Bytes)
      → n + 1 < 2 ^ 64
      → (c : Bytes) × (a.encrypt n p ≡ some c)
        × (b.decrypt n c ≡ some p)
        × (length c ≡ length p + 16)

abbrev pub joined : List Bytes → Bytes
joined [] = []
joined (p ∷ ps) = p ++ joined ps

-- Writes one behind the other.
pub write_all : Ciphers → SecureConn → List Bytes → Result SecureError Bytes
write_all a s [] = ok []
write_all a s (p ∷ ps) =
    let done = write a s p in done.1 >>= λ w. write_all a done.0 ps >>= λ ws. ok (w ++ ws)

abbrev go_on : Result SecureError Bytes → Bytes → Bytes
go_on (ok b) rest = b ++ rest
go_on (err e) rest = []
go_on panic rest = []

-- Reads with buffers of some sizes, until one is an error: all the bytes that they return.
pub read_all : Ciphers → SecureConn → Bytes → List ℕ → Bytes
read_all b s wire [] = []
read_all b s wire (n ∷ ns) =
    let r = read b s wire n in let rest = read_all b r.conn r.wire ns in go_on r.result rest

pub read_frame-write_frame :
    (c rest : Bytes)
    → length c ≤ 65535
    → read_frame ((put_uint 2 (length c) ++ c) ++ rest) ≡ ok (c, rest)
unfolding read_frame
read_frame-write_frame c rest h = rw (append_assoc (put_uint 2 (length c)) c rest) (
    rw (read_uint-put_uint 2 (length c) (c ++ rest) (omega arith))
      (rw (read_full-append_of (length c) c rest refl) refl))

-- The frames of some writes, from a number on.
Written : Ciphers → ℕ → List Bytes → Bytes → Type 0
Written b n [] w = w ≡ []
Written b n (p ∷ ps) w =
    (c : Bytes) × (rest : Bytes) × (b.decrypt n c ≡ some p)
    × (length c ≤ 65535)
    × (w ≡ (put_uint 2 (length c) ++ c) ++ rest)
    × Written b (n + 1) ps rest

-- A write that fits a frame and brings something to read.
abbrev pub IsWrite : Bytes → Type 0
IsWrite p = (0 < length p) × (length p ≤ 65519)

write_all-Written :
    (a b : Ciphers) (s : SecureConn) (ps : List Bytes)
    → ArePaired a b
    → All IsWrite ps
    → s.sent + length ps < 2 ^ 64
    → (w : Bytes) × (write_all a s ps ≡ ok w) × Written b s.sent ps w
unfolding write_all Written write write_frame
write_all-Written a b s [] h f small = ([], refl, refl)
write_all-Written a b s (p ∷ ps) h ((_, f), fs) small =
    let (c, enc, dec, size) = h.works s.sent p (omega arith) in
    let (w, run, rest) =
      write_all-Written a b (record s { sent = s.sent + 1 }) ps h fs (omega arith) in
    let fits : ltb 65535 (length c) ≡ false = ground arith in
    (
      (put_uint 2 (length c) ++ c) ++ w,
      rw (enc, fits, run) refl,
      (c, w, dec, omega arith, refl, rest),
    )

read-buffered :
    (b : Ciphers) (s : SecureConn) (wire : Bytes) (n x : ℕ) (xs : Bytes)
    → s.read_buf ≡ x ∷ xs
    → read b s wire n ≡ copied s wire n (x ∷ xs)
unfolding read
read-buffered b s wire n x xs e = rw e refl

read-frame :
    (b : Ciphers) (s : SecureConn) (c rest p : Bytes) (n : ℕ)
    → s.read_buf ≡ []
    → length c ≤ 65535
    → b.decrypt s.received c ≡ some p
    → read b s ((put_uint 2 (length c) ++ c) ++ rest) n
      ≡ copied (record s { received = s.received + 1 }) rest n p
unfolding read
read-frame b s c rest p n e h d = rw (e, read_frame-write_frame c rest h, d) refl

read-end :
    (b : Ciphers) (s : SecureConn) (n : ℕ)
    → s.read_buf ≡ []
    → (read b s [] n).result ≡ err (read_failed eof)
unfolding read read_frame read_uint read_full
read-end b s n e = rw e refl

-- A step that copies from some bytes, and the reads behind it.
copied-rest :
    (s : SecureConn) (wire xs more : Bytes) (n : ℕ) (rest : Bytes)
    → rest ≡ drop n xs ++ more
    → go_on (copied s wire n xs).result rest ≡ xs ++ more
copied-rest s wire xs more n rest e =
    ap (λ (r : Bytes). take n xs ++ r) e
    ∙ sym (append_assoc (take n xs) (drop n xs) more)
    ∙ ap (λ (r : Bytes). r ++ more) (take-append-drop n xs)

read_all-step :
    (b : Ciphers) (s : SecureConn) (wire : Bytes) (n : ℕ) (ns : List ℕ) (r : Reading)
    → read b s wire n ≡ r
    → read_all b s wire (n ∷ ns) ≡ go_on r.result (read_all b r.conn r.wire ns)
unfolding read_all
read_all-step b s wire n ns r e =
    ap (λ (q : Reading). go_on q.result (read_all b q.conn q.wire ns)) e

read_all-nil : (b : Ciphers) (s : SecureConn) (wire : Bytes) → read_all b s wire [] ≡ []
unfolding read_all
read_all-nil b s wire = refl

length-zero : (xs : Bytes) → length xs ≤ 0 → xs ≡ []
length-zero [] h = refl
length-zero (x ∷ xs) h = absurd (omega arith)

module _ (b : Ciphers) where
  -- With at least as many reads as there are bytes, each with room for a byte, all bytes are read.
  read_all-Written :
      (ns : List ℕ) (s : SecureConn) (buf : Bytes) (ps : List Bytes) (wire : Bytes)
      → s.read_buf ≡ buf
      → Written b s.received ps wire
      → All IsWrite ps
      → All (λ (n : ℕ). 0 < n) ns
      → length (buf ++ joined ps) ≤ length ns
      → read_all b s wire ns ≡ buf ++ joined ps
  unfolding Written
  read_all-Written [] s buf ps wire e w f pos enough =
      read_all-nil b s wire ∙ sym (length-zero (buf ++ joined ps) (omega (arith, enough)))
  read_all-Written (n ∷ ns) s (x ∷ xs) ps wire e w f (p, pos) enough =
      read_all-step b s wire n ns (copied s wire n (x ∷ xs)) (read-buffered b s wire n x xs e)
      ∙ copied-rest s wire (x ∷ xs) (joined ps) n _ (
          read_all-Written ns (record s { read_buf = drop n (x ∷ xs) }) (drop n (x ∷ xs)) ps wire
            refl w f pos
            (omega (
              arith,
              enough,
              length-append (drop n (x ∷ xs)) (joined ps),
              length-append (x ∷ xs) (joined ps),
              length-drop n (x ∷ xs),
            )))
  read_all-Written (n ∷ ns) s [] [] wire e w f (p, pos) enough =
      ap (λ (v : Bytes). read_all b s v (n ∷ ns)) w
      ∙ read_all-step b s [] n ns (read b s [] n) refl
      ∙ ap
          (λ (r : Result SecureError Bytes).
            go_on r (read_all b (read b s [] n).conn (read b s [] n).wire ns))
          (read-end b s n e)
  read_all-Written (n ∷ ns) s [] (q ∷ qs) wire e (c, rest, dec, size, here, w) ((some_, _), fs)
        (p, pos) enough =
      read_all-step b s wire n ns (copied (record s { received = s.received + 1 }) rest n q)
        (ap (λ (v : Bytes). read b s v n) here ∙ read-frame b s c rest q n e size dec)
      ∙ copied-rest (record s { received = s.received + 1 }) rest q (joined qs) n _
          (read_all-Written ns (record s { received = s.received + 1; read_buf = drop n q })
            (drop n q) qs rest refl w fs pos
            (omega (
              arith,
              enough,
              length-append (drop n q) (joined qs),
              length-append q (joined qs),
              length-drop n q,
            )))

-- What is written on a new connection in non-empty pieces of at most 65519 bytes, fewer than 2^64 of them,
-- is read at the other end by as many reads as there are bytes, whatever the sizes of their buffers, as
-- long as each has room for a byte: the same bytes in the same order.
pub read_all-write_all :
    (a b : Ciphers) (writer reader : SecureConn) (ps : List Bytes) (ns : List ℕ)
    → ArePaired a b
    → writer.sent ≡ reader.received
    → reader.read_buf ≡ []
    → All IsWrite ps
    → writer.sent + length ps < 2 ^ 64
    → All (λ (n : ℕ). 0 < n) ns
    → length (joined ps) ≤ length ns
    → (w : Bytes) × (write_all a writer ps ≡ ok w) × (read_all b reader w ns ≡ joined ps)
read_all-write_all a b writer reader ps ns h same empty f small pos enough =
    let (w, run, wire) = write_all-Written a b writer ps h f small in
    (
      w,
      run,
      read_all-Written b ns reader [] ps w empty (subst (λ (n : ℕ). Written b n ps w) same wire) f
          pos enough,
    )
