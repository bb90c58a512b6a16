-- ===== src/Examples/Logger.antt =====
-- Examples for pkg/logger.
use keet_agent.Prelude.{[], ◌∷◌, true, some, ◌≡◌, refl, arith}
use keet_agent.Logger.Rotator.{LogRotator}
use keet_agent.Logger.Rotator.Backups.{write_all, write_all-full}

-- A file of four bytes where five are allowed, and two backups.
abbrev rotator : LogRotator
rotator = record {
  max_size = 5;
  max_backups = 2;
  opened = true;
  size = 4;
  current = some (1 ∷ 2 ∷ 3 ∷ 4 ∷ []);
  backups = (9 ∷ []) ∷ [];
}

write_all-full_example :
    let r = write_all rotator ((5 ∷ 6 ∷ []) ∷ (7 ∷ []) ∷ (8 ∷ []) ∷ []) in
    (r.current ≡ some (8 ∷ [])) × (r.backups ≡ (5 ∷ 6 ∷ []) ∷ (7 ∷ []) ∷ [])
write_all-full_example =
    write_all-full ((7 ∷ []) ∷ (8 ∷ []) ∷ []) (5 ∷ 6 ∷ []) rotator (1 ∷ 2 ∷ 3 ∷ 4 ∷ []) refl refl
      (omega arith)
