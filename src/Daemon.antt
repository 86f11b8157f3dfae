-- ===== src/Daemon.antt =====
-- internal/daemon/lock.go and lock_unix.go: the owner lock, taken by processes that run side by side. A
-- process is its identifier and the place in Acquire or Release at which it stands; an action lets one
-- process make one call. Files are numbered, since a path may come to name another file than the one that
-- a process has opened.
pub mod Holders
pub mod Table
pub mod Exclusion
pub mod Progress
mod Tests
use locorum.Common.{
  ℕ, suc, ◌+◌, Bool, true, false, ◌&&◌, not, Option, none, some, List, [], ◌∷◌, ◌==◌, if◌then◌else◌,
}

-- Where a process stands: the call that it makes next, with the file that it has opened.
pub data Control : Type 0 where
  idle opening reading_owner removing_file removing_info opening_again exited : Control
  locking locking_again writing_info abandoning owning dropping_info dropping_file unlocking :
      ℕ → Control
  judging : Option ℕ → Control

pub record System : Type 0 where
  pub control : ℕ → Control
  -- The file that the path of the lock names.
  pub path : Option ℕ
  -- The number of the next file.
  pub next : ℕ
  -- The process that holds the lock of a file.
  pub holder : ℕ → Option ℕ
  -- The process that the side file names.
  pub info : Option ℕ

abbrev pub update : {A : Type 0} → (ℕ → A) → ℕ → A → ℕ → A
update f p a q = if q == p then a else f q

abbrev pub goto : ℕ → Control → System → System
goto p c s = record s { control = update s.control p c }

-- os.OpenFile with O_CREATE; it stands at `locks` with the file that it opened.
abbrev pub open_file : ℕ → (ℕ → Control) → System → System
open_file p locks s = elim s.path [
  | some i ↦ goto p (locks i) s
  | none ↦ goto p (locks s.next) (record s { path = some s.next; next = suc s.next })
]

-- platformLock, with what a refused process does next.
abbrev pub lock : ℕ → ℕ → Control → System → System
lock p i refused s = elim (s.holder i) [
  | some q ↦ goto p refused s
  | none ↦ goto p (writing_info i) (record s { holder = update s.holder i (some p) })
]

abbrev pub unlock : ℕ → ℕ → System → System
unlock p i s = goto p idle (record s { holder = update s.holder i none })

abbrev pub is_exited : Control → Bool
is_exited exited = true
is_exited _ = false

-- processAlive, of the process that the side file names.
abbrev pub process_alive : System → Option ℕ → Bool
process_alive s none = false
process_alive s (some pid) = not (pid == 0) && not (is_exited (s.control pid))

abbrev pub when : Bool → System → System → System
when fails s s' = if fails then s else s'

-- One call of a process, by where it stands. A call of the operating system may fail.
abbrev pub call : ℕ → Bool → Control → System → System
call p fails idle s = s
call p fails exited s = s
call p fails opening s = when fails (goto p idle s) (open_file p locking s)
call p fails (locking i) s = when fails (goto p reading_owner s) (lock p i reading_owner s)
call p fails reading_owner s = goto p (judging (if fails then none else s.info)) s
call p fails (judging o) s = if process_alive s o then goto p idle s else goto p removing_file s
call p fails removing_file s = goto p removing_info (when fails s (record s { path = none }))
call p fails removing_info s = goto p opening_again (when fails s (record s { info = none }))
call p fails opening_again s = when fails (goto p idle s) (open_file p locking_again s)
call p fails (locking_again i) s = when fails (goto p idle s) (lock p i idle s)
call p fails (writing_info i) s =
    when fails (goto p (abandoning i) s) (goto p (owning i) (record s { info = some p }))
call p fails (abandoning i) s = unlock p i s
call p fails (owning i) s = s
call p fails (dropping_info i) s =
    goto p (dropping_file i) (when fails s (record s { info = none }))
call p fails (dropping_file i) s = goto p (unlocking i) (when fails s (record s { path = none }))
call p fails (unlocking i) s = unlock p i s

-- The kernel drops the locks of a process that exits.
abbrev pub forget : ℕ → Option ℕ → Option ℕ
forget p none = none
forget p (some q) = if q == p then none else some q

abbrev pub exit : ℕ → System → System
exit p s = goto p exited (record s { holder = λ i. forget p (s.holder i) })

abbrev pub start_acquire : ℕ → Control → System → System
start_acquire p idle s = goto p opening s
start_acquire p _ s = s

abbrev pub start_release : ℕ → Control → System → System
start_release p (owning i) s = goto p (dropping_info i) s
start_release p _ s = s

pub data Action : Type 0 where
  acquire release crash : ℕ → Action
  advance : ℕ → Bool → Action

abbrev pub perform : Action → System → System
perform (acquire p) s = start_acquire p (s.control p) s
perform (release p) s = start_release p (s.control p) s
perform (crash p) s = exit p s
perform (advance p fails) s = call p fails (s.control p) s

unfoldable pub run : List Action → System → System
run [] s = s
run (a ∷ actions) s = run actions (perform a s)

abbrev pub start : System
start = record { control = λ p. idle; path = none; next = 0; holder = λ i. none; info = none }
