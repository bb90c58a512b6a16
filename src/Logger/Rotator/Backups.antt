-- ===== src/Logger/Rotator/Backups.antt =====
-- Writes behind the limit (pkg/logger/rotator.go).
use keet_agent.Prelude.{
  zero, suc, ap₂, length-append, length-drop, ℕ, ◌+◌, ◌-◌, ◌≤◌, ◌<◌, true, List, [], ◌∷◌, ◌++◌,
  length, drop, some, ltb, ◌≡◌, refl, sym, ap, ◌∙◌, arith, append_assoc,
}
use keet_agent.Prelude.Result.{Result, ok}
use keet_agent.Bytes.{Bytes}
use keet_agent.Logger.Rotator.{LogRotator, RotatorError, Outcomes, open_file, rotate, write}

abbrev pub success : Outcomes
success = record { renames = true; opens = true }

-- The last backups, as many as are kept.
abbrev pub newest : ℕ → List Bytes → List Bytes
newest n bs = drop (length bs - n) bs

write-full :
    (r : LogRotator) (content p : Bytes)
    → r.opened ≡ true
    → r.current ≡ some content
    → r.max_size < r.size + length p
    → write r p success ≡ (
      record r {
        current = some p;
        size = r.size + length p;
        backups = newest r.max_backups (r.backups ++ (content ∷ []));
      },
      ok (length p),
    )
unfolding write rotate open_file
write-full r content p o c l =
    let full : ltb r.max_size (r.size + length p) ≡ true = ground arith in rw (full, c, o) refl

pub write_all : LogRotator → List Bytes → LogRotator
write_all r [] = r
write_all r (p ∷ ps) = write_all (write r p success).0 ps

drop-append_le : (k : ℕ) (xs ys : List Bytes) → k ≤ length xs → drop k (xs ++ ys) ≡ drop k xs ++ ys
drop-append_le zero xs ys h = refl
drop-append_le (suc k) [] ys h = absurd (omega arith)
drop-append_le (suc k) (x ∷ xs) ys h = drop-append_le k xs ys (omega arith)

abbrev no_files : List Bytes
no_files = []

drop-nil : (k : ℕ) → drop k no_files ≡ no_files
drop-nil zero = refl
drop-nil (suc k) = refl

drop-drop : (j k : ℕ) (xs : List Bytes) → drop j (drop k xs) ≡ drop (k + j) xs
drop-drop j zero xs = let none_ : j ≡ 0 + j = omega arith in ap (λ (m : ℕ). drop m xs) none_
drop-drop j (suc k) [] = drop-nil j ∙ sym (drop-nil (suc k + j))
drop-drop j (suc k) (x ∷ xs) =
    let more : suc (k + j) ≡ suc k + j = omega arith in
    drop-drop j k xs ∙ ap (λ (m : ℕ). drop m (x ∷ xs)) more

newest-append :
    (n : ℕ) (bs more : List Bytes) → newest n (newest n bs ++ more) ≡ newest n (bs ++ more)
newest-append n bs more =
    let k = length bs - n in
    let joined : drop k bs ++ more ≡ drop k (bs ++ more) =
      sym (drop-append_le k bs more (omega arith)) in
    let kept : length (drop k bs ++ more) ≡ length bs - k + length more =
      omega (arith, length-append (drop k bs) more, length-drop k bs) in
    ap₂ (λ (m : ℕ) (xs : List Bytes). drop (m - n) xs) kept joined
    ∙ drop-drop (length bs - k + length more - n) k (bs ++ more)
    ∙ ap (λ (m : ℕ). drop m (bs ++ more)) (omega (arith, length-append bs more))

-- The write that comes last, and the ones in front of it.
abbrev pub last_of : Bytes → List Bytes → Bytes
last_of p [] = p
last_of p (q ∷ qs) = last_of q qs

abbrev pub before_last : Bytes → List Bytes → List Bytes
before_last p [] = []
before_last p (q ∷ qs) = p ∷ before_last q qs

-- Once a write goes over the limit, this one and each of the following is the only one in its file, and the
-- backups are the newest of the old ones, the file with all that was written until then, and one file
-- for every write but the last: the renaming does not set the size back.
pub write_all-full :
    (ps : List Bytes) (p : Bytes) (r : LogRotator) (content : Bytes)
    → r.opened ≡ true
    → r.current ≡ some content
    → r.max_size < r.size + length p
    → ((write_all r (p ∷ ps)).current ≡ some (last_of p ps))
      × ((write_all r (p ∷ ps)).backups
          ≡ newest r.max_backups (r.backups ++ (content ∷ before_last p ps)))
unfolding write_all
write_all-full [] p r content o c l =
    let e = ap (λ (w : LogRotator × Result RotatorError ℕ). w.0) (write-full r content p o c l) in
    (ap (λ (s : LogRotator). s.current) e, ap (λ (s : LogRotator). s.backups) e)
write_all-full (q ∷ qs) p r content o c l =
    let s : LogRotator = record r {
      current = some p;
      size = r.size + length p;
      backups = newest r.max_backups (r.backups ++ (content ∷ []));
    } in
    let e =
      ap (λ (w : LogRotator × Result RotatorError ℕ). write_all w.0 (q ∷ qs))
        (write-full r content p o c l) in
    let (now, old) = write_all-full qs q s p o refl (omega (arith, l)) in
    (
      ap (λ (u : LogRotator). u.current) e ∙ now,
      ap (λ (u : LogRotator). u.backups) e
          ∙ old
          ∙ newest-append r.max_backups (r.backups ++ (content ∷ [])) (p ∷ before_last q qs)
          ∙ ap (newest r.max_backups)
              (append_assoc r.backups (content ∷ []) (p ∷ before_last q qs)),
    )
