-- ===== src/Daemon/Table.antt =====
-- internal/daemon/lock.go: the locks that the system has are those that the processes hold.
use locorum.Common.{
  ℕ, ◌≡◌, refl, sym, ap, ◌∙◌, Bool, true, false, none, some, List, [], ◌∷◌, Option-cases, inl, inr,
  if◌then◌else◌,
}
use locorum.Daemon.{
  Control, idle, opening, reading_owner, removing_file, removing_info, opening_again, exited,
  locking, locking_again, writing_info, abandoning, owning, dropping_info, dropping_file, unlocking,
  judging, System, goto, open_file, lock, unlock, process_alive, when, call, start_acquire,
  start_release, Action, acquire, release, crash, advance, perform, run, start,
}
use locorum.Daemon.Holders.{
  held, Matches, Matches-drops, Matches-exit, Matches-keeps, Matches-takes, neither, none-some,
}

abbrev pub IsTable : System → Type 0
IsTable s = Matches s.control s.holder

module _ (p : ℕ) (s : System) (ok : IsTable s) where
  goto-IsTable : (c : Control) → held c ≡ held (s.control p) → IsTable (goto p c s)
  goto-IsTable c same = Matches-keeps s.control s.holder p c ok same

  unlock-IsTable : (i : ℕ) → held (s.control p) ≡ some i → IsTable (unlock p i s)
  unlock-IsTable i holds = Matches-drops s.control s.holder p idle ok i holds refl

  lock-IsTable :
      (i : ℕ) (refused : Control)
      → held (s.control p) ≡ none
      → held refused ≡ none
      → IsTable (lock p i refused s)
  lock-IsTable i refused free free' = elim (Option-cases (s.holder i)) [
    | inl e ↦ rw (e, lock) (Matches-takes s.control s.holder p (writing_info i) ok i free e refl)
    | inr (q, e) ↦ rw (e, lock) (goto-IsTable refused (free' ∙ sym free))
  ]

  open_file-IsTable :
      (locks : ℕ → Control)
      → held (s.control p) ≡ none
      → ((i : ℕ) → held (locks i) ≡ none)
      → IsTable (open_file p locks s)
  open_file-IsTable locks free free' = elim (Option-cases s.path) [
    | inl e ↦
        rw (e) (Matches-keeps s.control s.holder p (locks s.next) ok (free' s.next ∙ sym free))
    | inr (i, e) ↦ rw (e) (goto-IsTable (locks i) (free' i ∙ sym free))
  ]

  if-IsTable : (b : Bool) (x y : System) → IsTable x → IsTable y → IsTable (if b then x else y)
  if-IsTable true x y hx hy = hx
  if-IsTable false x y hx hy = hy

  -- A change of the path or of the side file before a step that keeps the lock.
  changed-IsTable :
      (c : Control) (fails : Bool) (s' : System)
      → held c ≡ held (s.control p)
      → s'.control ≡ s.control
      → s'.holder ≡ s.holder
      → IsTable (goto p c (when fails s s'))
  changed-IsTable c true s' same e e' = goto-IsTable c same
  changed-IsTable c false s' same e e' = rw (e, e') (goto-IsTable c same)

  call-IsTable : (fails : Bool) (c : Control) → s.control p ≡ c → IsTable (call p fails c s)
  call-IsTable fails idle e = ok
  call-IsTable fails exited e = ok
  call-IsTable fails (owning i) e = ok
  call-IsTable fails opening e =
      if-IsTable fails (goto p idle s) (open_file p locking s) (goto-IsTable idle (ap held (sym e)))
        (open_file-IsTable locking (ap held e) (λ i. refl))
  call-IsTable fails opening_again e =
      if-IsTable fails (goto p idle s) (open_file p locking_again s)
        (goto-IsTable idle (ap held (sym e)))
        (open_file-IsTable locking_again (ap held e) (λ i. refl))
  call-IsTable fails (locking i) e =
      if-IsTable fails (goto p reading_owner s) (lock p i reading_owner s)
        (goto-IsTable reading_owner (ap held (sym e)))
        (lock-IsTable i reading_owner (ap held e) refl)
  call-IsTable fails (locking_again i) e =
      if-IsTable fails (goto p idle s) (lock p i idle s) (goto-IsTable idle (ap held (sym e)))
        (lock-IsTable i idle (ap held e) refl)
  call-IsTable fails reading_owner e =
      goto-IsTable (judging (if fails then none else s.info)) (ap held (sym e))
  call-IsTable fails (judging o) e =
      if-IsTable (process_alive s o) (goto p idle s) (goto p removing_file s)
        (goto-IsTable idle (ap held (sym e))) (goto-IsTable removing_file (ap held (sym e)))
  call-IsTable fails removing_file e =
      changed-IsTable removing_info fails (record s { path = none }) (ap held (sym e)) refl refl
  call-IsTable fails removing_info e =
      changed-IsTable opening_again fails (record s { info = none }) (ap held (sym e)) refl refl
  call-IsTable fails (writing_info i) e =
      if-IsTable fails (goto p (abandoning i) s) (goto p (owning i) (record s { info = some p }))
        (goto-IsTable (abandoning i) (ap held (sym e))) (goto-IsTable (owning i) (ap held (sym e)))
  call-IsTable fails (abandoning i) e = unlock-IsTable i (ap held e)
  call-IsTable fails (unlocking i) e = unlock-IsTable i (ap held e)
  call-IsTable fails (dropping_info i) e =
      changed-IsTable (dropping_file i) fails (record s { info = none }) (ap held (sym e)) refl refl
  call-IsTable fails (dropping_file i) e =
      changed-IsTable (unlocking i) fails (record s { path = none }) (ap held (sym e)) refl refl

  start_acquire-IsTable : (c : Control) → s.control p ≡ c → IsTable (start_acquire p c s)
  start_acquire-IsTable idle e = goto-IsTable opening (ap held (sym e))
  start_acquire-IsTable _ e = ok

  start_release-IsTable : (c : Control) → s.control p ≡ c → IsTable (start_release p c s)
  start_release-IsTable (owning i) e = goto-IsTable (dropping_info i) (ap held (sym e))
  start_release-IsTable _ e = ok

perform-IsTable : (a : Action) (s : System) → IsTable s → IsTable (perform a s)
perform-IsTable (acquire p) s ok = start_acquire-IsTable p s ok (s.control p) refl
perform-IsTable (release p) s ok = start_release-IsTable p s ok (s.control p) refl
perform-IsTable (crash p) s ok = Matches-exit s.control s.holder p ok
perform-IsTable (advance p fails) s ok = call-IsTable p s ok fails (s.control p) refl

pub run_from-IsTable : (actions : List Action) (s : System) → IsTable s → IsTable (run actions s)
unfolding run
run_from-IsTable [] s ok = ok
run_from-IsTable (a ∷ actions) s ok =
    run_from-IsTable actions (perform a s) (perform-IsTable a s ok)

-- Whatever processes acquire, release and crash in whatever order, and whichever of their calls fail, a
-- process holds the lock of a file, from its `platformLock` to its `platformUnlock`, exactly if the system
-- has it as the one holder of the file.
pub run-IsTable : (actions : List Action) → IsTable (run actions start)
run-IsTable actions =
    run_from-IsTable actions start (λ p i. neither (none-some refl) (none-some refl))
