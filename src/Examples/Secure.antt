-- ===== src/Examples/Secure.antt =====
-- Examples for pkg/crypto.
use keet_agent.Prelude.{
  ℕ, zero, suc, [], ◌∷◌, ◌++◌, length, take, drop, replicate, none, some, bytes_eq, bytes_eq→eq,
  bytes_eq_refl, if◌then◌else◌, ◌≡◌, refl, sym, ap, ◌∙◌, arith, Bool-cases, inl, inr,
}
use keet_agent.Prelude.Result.{ok, err}
use keet_agent.Bytes.{Bytes}
use mathlib.Core.Option.{some-injective}
use keet_agent.Crypto.Secure.{Ciphers, SecureConn, too_large, decrypt_failed, write, read}
use keet_agent.Crypto.Secure.Stream.{ArePaired, write_all, read_all, read_all-write_all}
use keet_agent.Crypto.Secure.Oversize.{Authenticates, read-write_oversize}

-- The tag shows the number.
abbrev tag : ℕ → Bytes
tag n = n ∷ 0 ∷ 0 ∷ 0 ∷ 0 ∷ 0 ∷ 0 ∷ 0 ∷ 0 ∷ 0 ∷ 0 ∷ 0 ∷ 0 ∷ 0 ∷ 0 ∷ 0 ∷ []

abbrev open_ciphers : Ciphers
open_ciphers = record {
  encrypt = λ n p. some (tag n ++ p);
  decrypt = λ n c. if bytes_eq (take 16 c) (tag n) then some (drop 16 c) else none;
}

open_ciphers-ArePaired : ArePaired open_ciphers open_ciphers
open_ciphers-ArePaired = record {
  works = λ n p h. (tag n ++ p, refl, rw (bytes_eq_refl (tag n)) refl, omega arith);
}

first_or_zero : Bytes → ℕ
first_or_zero [] = 0
first_or_zero (x ∷ xs) = x

open_ciphers-Authenticates : Authenticates open_ciphers open_ciphers
unfolding first_or_zero
open_ciphers-Authenticates n m p c apart e = elim (Bool-cases (bytes_eq (take 16 c) (tag m))) [
  | inl here ↦
      let same : take 16 c ≡ tag n = ap (take 16) (sym (some-injective (tag n ++ p) c e)) in
      absurd (apart (ap first_or_zero (sym same ∙ bytes_eq→eq (take 16 c) (tag m) here)))
  | inr other ↦ rw other refl
]

abbrev fresh : SecureConn
fresh = record { sent = 0; received = 0; read_buf = [] }

length-replicate : (n x : ℕ) → length (replicate n x) ≡ n
length-replicate zero x = refl
length-replicate (suc n) x = omega (arith, length-replicate n x)

-- Two writes, read in pieces.
read_all-write_all_example :
    (w : Bytes) × (write_all open_ciphers fresh ((1 ∷ 2 ∷ 3 ∷ []) ∷ (4 ∷ []) ∷ []) ≡ ok w)
    × (read_all open_ciphers fresh w (2 ∷ 9 ∷ 1 ∷ 1 ∷ []) ≡ 1 ∷ 2 ∷ 3 ∷ 4 ∷ [])
read_all-write_all_example =
    read_all-write_all open_ciphers open_ciphers fresh fresh ((1 ∷ 2 ∷ 3 ∷ []) ∷ (4 ∷ []) ∷ [])
      (2 ∷ 9 ∷ 1 ∷ 1 ∷ []) open_ciphers-ArePaired refl refl
      ((omega arith, omega arith), ((omega arith, omega arith), tt)) (omega arith)
      (omega arith, (omega arith, (omega arith, (omega arith, tt)))) (omega arith)

read-write_oversize_example :
    ((write open_ciphers fresh (replicate 70000 0)).1 ≡ err too_large)
    × ((w : Bytes) × ((write open_ciphers
            (write open_ciphers fresh (replicate 70000 0)).0
            (5 ∷ [])).1
          ≡ ok w)
        × ((read open_ciphers fresh w 100).result ≡ err decrypt_failed))
read-write_oversize_example =
    read-write_oversize open_ciphers open_ciphers fresh fresh (replicate 70000 0) (5 ∷ []) 100
      open_ciphers-ArePaired open_ciphers-Authenticates refl refl (omega arith)
      (omega (arith, length-replicate 70000 0)) (omega arith, omega arith)
