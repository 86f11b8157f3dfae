-- ===== src/LogRotate.antt =====
-- internal/utils/logrotate.go: rotation of a log and its numbered backups. The directory maps a slot
-- to the content of its file: slot 0 is the log, slot i is the backup `.i`. The file system is not
-- part of the program: `Disk` says which of its calls fail, and why.
pub mod Laws
mod Tests
use locorum.Common.{
  ℕ, zero, suc, ◌+◌, String, Bool, true, false, Option, none, some, ltb, ◌==◌, if◌then◌else◌,
}

-- A directory of files with contents of type `C`.
abbrev pub Directory : Type 0 → Type 0
Directory C = ℕ → Option C

-- Errors other than "does not exist"; `none` is a call that works.
pub record Disk : Type 0 where
  pub stat_fault : Option String
  pub remove_fault : ℕ → Option String
  pub rename_fault : ℕ → ℕ → Option String

pub data RotateError : Type 0 where
  bad_max_bytes : RotateError
  stat_failed : String → RotateError
  remove_failed : ℕ → String → RotateError
  rename_failed : ℕ → ℕ → String → RotateError
  -- os.Rename of the log itself, when it does not exist
  log_missing : RotateError

abbrev pub update {C} : {A : Type C} → ℕ → Option A → (ℕ → Option A) → ℕ → Option A
update i c dir j = if i == j then c else dir j

-- `keep`, normalised to at least one, less one.
abbrev pub less_one : ℕ → ℕ
less_one zero = 0
less_one (suc k) = k

module _ {C : Type 0} (disk : Disk) where
  -- What os.Rename does: the target is replaced, and a missing source is an error of its own, which
  -- the second component reports.
  unfoldable pub rename : ℕ → ℕ → Directory C → Directory C
  rename i j dir = elim (dir i) [ none ↦ dir | some c ↦ update i none (update j (some c) dir) ]

  -- `for i := keep - 1; i >= 1; i--`, from `i` down.
  unfoldable pub shift : ℕ → Directory C → Option RotateError × Directory C
  unfolding rename
  shift zero dir = (none, dir)
  shift (suc i) dir = elim (disk.rename_fault (suc i) (suc (suc i))) [
    | some err ↦ (some (rename_failed (suc i) (suc (suc i)) err), dir)
    | none ↦ shift i (rename (suc i) (suc (suc i)) dir)
  ]

  unfoldable pub rename_log : Directory C → Option RotateError × Directory C
  unfolding rename
  rename_log dir = elim (disk.rename_fault 0 1) [
    | some err ↦ (some (rename_failed 0 1 err), dir)
    | none ↦ elim (dir 0) [ none ↦ (some log_missing, dir) | some _ ↦ (none, rename 0 1 dir) ]
  ]

  abbrev pub then_log : Option RotateError × Directory C → Option RotateError × Directory C
  then_log (some err, dir) = (some err, dir)
  then_log (none, dir) = rename_log dir

  -- The log is large enough: the oldest backup goes, the others move up, and the log follows.
  unfoldable pub rotate : ℕ → Directory C → Option RotateError × Directory C
  unfolding shift rename_log
  rotate keep dir = elim (disk.remove_fault (suc keep)) [
    | some err ↦ (some (remove_failed (suc keep) err), dir)
    | none ↦ then_log (shift keep (update (suc keep) none dir))
  ]

  unfoldable pub rotate_if_large : (C → ℕ) → ℕ → ℕ → Directory C → Option RotateError × Directory C
  unfolding rotate
  rotate_if_large size zero keep dir = (some bad_max_bytes, dir)
  rotate_if_large size (suc max) keep dir = elim disk.stat_fault [
    | some err ↦ (some (stat_failed err), dir)
    | none ↦ elim (dir 0) [
      | none ↦ (none, dir)
      | some log ↦ if ltb (size log) (suc max) then (none, dir) else rotate (less_one keep) dir
    ]
  ]
