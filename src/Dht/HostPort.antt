-- ===== src/Dht/HostPort.antt =====
-- The functions of Go's net and strconv that pkg/dht/dht.go reads and writes addresses with:
-- SplitHostPort, JoinHostPort and Itoa. A string is its bytes, and an error of SplitHostPort is `none`.
use keet_agent.Prelude.{
  ℕ, zero, suc, ◌+◌, ◌/◌, ◌%◌, ◌≤◌, Bool, false, ◌||◌, [], ◌∷◌, ◌++◌, Option, none, some, ltb, ◌==◌,
  if◌then◌else◌, ◌≡◌, refl, ap, ◌∙◌, arith, Bool-cases, inl, inr, append_assoc, subst,
}
use keet_agent.Bytes.{Bytes}

abbrev pub colon : ℕ
colon = 58

abbrev pub open_bracket : ℕ
open_bracket = 91

abbrev pub close_bracket : ℕ
close_bracket = 93

unfoldable pub has_byte : ℕ → Bytes → Bool
has_byte b [] = false
has_byte b (x ∷ xs) = x == b || has_byte b xs

abbrev cons_fst : ℕ → Bytes × Bytes → Bytes × Bytes
cons_fst x (a, b) = (x ∷ a, b)

abbrev or_here : ℕ → Bytes → Option (Bytes × Bytes) → Option (Bytes × Bytes)
or_here x xs none = if x == colon then some ([], xs) else none
or_here x xs (some p) = some (cons_fst x p)

-- What stands before the last colon, and behind it.
split_last : Bytes → Option (Bytes × Bytes)
split_last [] = none
split_last (x ∷ xs) = or_here x xs (split_last xs)

abbrev cons_some : ℕ → Option Bytes → Option Bytes
cons_some x none = none
cons_some x (some xs) = some (x ∷ xs)

-- The bytes before the first closing bracket, which has to be the last byte.
strip_bracket : Bytes → Option Bytes
strip_bracket [] = none
strip_bracket (x ∷ xs) =
    let rest = strip_bracket xs in
    if x == close_bracket then (elim xs [ [] ↦ some [] | _ ∷ _ ↦ none ]) else cons_some x rest

abbrev without_brackets : Bytes → Bytes → Option Bytes
without_brackets host port =
    if has_byte open_bracket host || has_byte open_bracket port
    then none
    else if has_byte close_bracket host || has_byte close_bracket port
    then none
    else some host

abbrev bracketed : Bytes → Option Bytes → Option Bytes
bracketed port none = none
bracketed port (some host) = without_brackets host port

host_of : Bytes → Bytes → Option Bytes
unfolding has_byte strip_bracket
host_of [] port = without_brackets [] port
host_of (x ∷ xs) port =
    if x == open_bracket
    then bracketed port (strip_bracket xs)
    else if has_byte colon (x ∷ xs)
    then none
    else without_brackets (x ∷ xs) port

abbrev host_of_split : Option (Bytes × Bytes) → Option Bytes
host_of_split none = none
host_of_split (some (host, port)) = host_of host port

-- The host of SplitHostPort.
pub split_host_port : Bytes → Option Bytes
unfolding split_last host_of
split_host_port s = host_of_split (split_last s)

unfoldable pub join_host_port : Bytes → Bytes → Bytes
unfolding has_byte
join_host_port host port =
    if has_byte colon host
    then open_bracket ∷ (host ++ (close_bracket ∷ colon ∷ port))
    else host ++ (colon ∷ port)

-- Decimal digits, as many as the first argument allows.
itoa_loop : ℕ → ℕ → Bytes
itoa_loop zero n = []
itoa_loop (suc fuel) n =
    let rest = itoa_loop fuel (n / 10) in
    if ltb n 10 then (48 + n) ∷ [] else rest ++ ((48 + n % 10) ∷ [])

-- A 16-bit number has at most five digits.
unfoldable pub itoa : ℕ → Bytes
unfolding itoa_loop
itoa n = itoa_loop 5 n

has_byte-append : (b : ℕ) (xs ys : Bytes) → has_byte b (xs ++ ys) ≡ (has_byte b xs || has_byte b ys)
unfolding has_byte
has_byte-append b [] ys = refl
has_byte-append b (x ∷ xs) ys = ground (arith, has_byte-append b xs ys)

-- Bytes that are no digit are in no number.
has_byte-itoa_loop : (b fuel n : ℕ) → 58 ≤ b → has_byte b (itoa_loop fuel n) ≡ false
unfolding has_byte itoa_loop
has_byte-itoa_loop b zero n h = refl
has_byte-itoa_loop b (suc fuel) n h = elim (Bool-cases (ltb n 10)) [
  | inl short ↦ rw short (ground arith)
  | inr long ↦ rw long (
      has_byte-append b (itoa_loop fuel (n / 10)) ((48 + n % 10) ∷ [])
      ∙ rw (has_byte-itoa_loop b fuel (n / 10) h) (ground arith))
]

has_byte-itoa : (b n : ℕ) → 58 ≤ b → has_byte b (itoa n) ≡ false
unfolding itoa
has_byte-itoa b n h = has_byte-itoa_loop b 5 n h

split_last-none : (xs : Bytes) → has_byte colon xs ≡ false → split_last xs ≡ none
unfolding has_byte split_last
split_last-none [] h = refl
split_last-none (x ∷ xs) h = rw (split_last-none xs (ground arith)) (ground arith)

split_last-append :
    (host port : Bytes)
    → has_byte colon port ≡ false
    → split_last (host ++ (colon ∷ port)) ≡ some (host, port)
unfolding split_last
split_last-append [] port h = rw (split_last-none port h) refl
split_last-append (x ∷ xs) port h = rw (split_last-append xs port h) refl

strip_bracket-append :
    (host : Bytes)
    → has_byte close_bracket host ≡ false
    → strip_bracket (host ++ (close_bracket ∷ [])) ≡ some host
unfolding has_byte strip_bracket
strip_bracket-append [] h = refl
strip_bracket-append (x ∷ xs) h = rw (strip_bracket-append xs (ground arith)) (ground arith)

-- A host without brackets.
abbrev pub IsHost : Bytes → Type 0
IsHost host = (has_byte open_bracket host ≡ false) × (has_byte close_bracket host ≡ false)

without_brackets-some :
    (host port : Bytes) → IsHost host → IsHost port → without_brackets host port ≡ some host
without_brackets-some host port (ho, hc) (po, pc) = rw (ho, hc, po, pc) refl

first_other : (b x : ℕ) (xs : Bytes) → has_byte b (x ∷ xs) ≡ false → (x == b) ≡ false
unfolding has_byte
first_other b x xs h = ground arith

host_of-plain :
    (host port : Bytes)
    → IsHost host
    → IsHost port
    → has_byte colon host ≡ false
    → host_of host port ≡ some host
unfolding host_of
host_of-plain [] port h p c = without_brackets-some [] port h p
host_of-plain (x ∷ xs) port h p c =
    let first : (x == open_bracket) ≡ false = first_other open_bracket x xs (h.0) in
    let plain : Option Bytes =
      if has_byte colon (x ∷ xs) then none else without_brackets (x ∷ xs) port in
    ap (λ (b : Bool). if b then bracketed port (strip_bracket xs) else plain) first
    ∙ ap (λ (b : Bool). if b then none else without_brackets (x ∷ xs) port) c
    ∙ without_brackets-some (x ∷ xs) port h p

IsHost-itoa : (n : ℕ) → IsHost (itoa n)
IsHost-itoa n =
    (has_byte-itoa open_bracket n (omega arith), has_byte-itoa close_bracket n (omega arith))

split_last-bracketed :
    (host port : Bytes)
    → has_byte colon port ≡ false
    → split_last (open_bracket ∷ (host ++ (close_bracket ∷ colon ∷ port)))
      ≡ some (open_bracket ∷ (host ++ (close_bracket ∷ [])), port)
split_last-bracketed host port h =
    subst (λ (s : Bytes). split_last s ≡ some (open_bracket ∷ (host ++ (close_bracket ∷ [])), port))
      (append_assoc (open_bracket ∷ host) (close_bracket ∷ []) (colon ∷ port))
      (split_last-append (open_bracket ∷ (host ++ (close_bracket ∷ []))) port h)

-- The host of an address that JoinHostPort made of a host without brackets and a number.
pub split_host_port-join_host_port :
    (host : Bytes) (n : ℕ)
    → IsHost host
    → split_host_port (join_host_port host (itoa n)) ≡ some host
unfolding split_host_port join_host_port host_of
split_host_port-join_host_port host n h =
    let digits : has_byte colon (itoa n) ≡ false = has_byte-itoa colon n (omega arith) in
    elim (Bool-cases (has_byte colon host)) [
      | inl v6 ↦
          rw (v6, split_last-bracketed host (itoa n) digits, strip_bracket-append host (h.1))
            (without_brackets-some host (itoa n) h (IsHost-itoa n))
      | inr plain ↦
          rw (plain, split_last-append host (itoa n) digits)
            (host_of-plain host (itoa n) h (IsHost-itoa n) plain)
    ]
