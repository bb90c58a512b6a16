-- ===== src/Logger/Rotator.antt =====
-- pkg/logger/rotator.go: the log file that is renamed when it would grow too large.
-- The directory is the contents of the log file, if there is one, and those of its backups in the order of
-- their times. Whether a rename and an opening succeed is an argument of each call; a write takes all
-- bytes, and os.Stat, os.ReadDir and os.Remove succeed.
pub mod Backups
use keet_agent.Prelude.{
  ℕ, ◌+◌, ◌-◌, ◌*◌, Bool, true, false, List, [], ◌∷◌, ◌++◌, length, drop, Option, none, some, ltb,
  if◌then◌else◌,
}
use keet_agent.Prelude.Result.{Result, ok, err, panic}
use keet_agent.Bytes.{Bytes}

pub record LogRotator : Type 0 where
  pub max_size : ℕ
  pub max_backups : ℕ
  pub opened : Bool
  pub size : ℕ
  pub current : Option Bytes
  pub backups : List Bytes

pub record Outcomes : Type 0 where
  pub renames : Bool
  pub opens : Bool

pub data RotatorError : Type 0 where
  rename_failed open_failed : RotatorError

-- The size is taken from the file, if there is one.
abbrev pub stat : LogRotator → Option Bytes → LogRotator
stat r none = r
stat r (some content) = record r { size = length content }

abbrev pub content_or_nil : Option Bytes → Bytes
content_or_nil none = []
content_or_nil (some content) = content

pub open_file : LogRotator → Bool → LogRotator × Result RotatorError (Unit {0})
open_file r opens =
    let s = stat r r.current in
    if opens
    then (record s { opened = true; current = some (content_or_nil r.current) }, ok tt)
    else (s, err open_failed)

-- Of the backups behind the limit the oldest ones are removed.
abbrev pub prune_backups : LogRotator → LogRotator
prune_backups r = record r { backups = drop (length r.backups - r.max_backups) r.backups }

abbrev pub pruned :
    LogRotator × Result RotatorError (Unit {0}) → LogRotator × Result RotatorError (Unit {0})
pruned (r, ok u) = (prune_backups r, ok u)
pruned (r, err e) = (r, err e)
pruned (r, panic) = (r, panic)

-- os.Rename, and what follows it.
abbrev pub renamed :
    LogRotator → Option Bytes → Outcomes → LogRotator × Result RotatorError (Unit {0})
renamed r none o = ((open_file r o.opens).0, err rename_failed)
renamed r (some content) o =
    if o.renames
    then pruned
        (open_file (record r { current = none; backups = r.backups ++ (content ∷ []) }) o.opens)
    else ((open_file r o.opens).0, err rename_failed)

pub rotate : LogRotator → Outcomes → LogRotator × Result RotatorError (Unit {0})
unfolding open_file
rotate r o = renamed (record r { opened = false }) r.current o

abbrev pub written : LogRotator → Bytes → LogRotator
written r p = record r { current = some (content_or_nil r.current ++ p); size = r.size + length p }

abbrev pub write_opened :
    Bytes → LogRotator × Result RotatorError (Unit {0}) → LogRotator × Result RotatorError ℕ
write_opened p (r, ok u) = (written r p, ok (length p))
write_opened p (r, err e) = (r, err e)
write_opened p (r, panic) = (r, panic)

-- A failed rotation is only reported.
pub write : LogRotator → Bytes → Outcomes → LogRotator × Result RotatorError ℕ
unfolding rotate
write r p o =
    let s = if ltb r.max_size (r.size + length p) then (rotate r o).0 else r in
    write_opened p (if s.opened then (s, ok tt) else open_file s o.opens)
