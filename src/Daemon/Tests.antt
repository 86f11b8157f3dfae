-- ===== src/Daemon/Tests.antt =====
-- Schedules of processes, and instances of the theorems.
use locorum.Common.{ℕ, zero, suc, ◌≡◌, refl, true, false, List, [], ◌∷◌, ◌++◌, arith}
use locorum.Daemon.{idle, owning, Action, acquire, release, crash, advance, run, start}
use locorum.Daemon.Table.{IsTable, run-IsTable}
use locorum.Daemon.Exclusion.{AllAlone, run_exclusive}
use locorum.Daemon.Progress.{Continues, IsSettled, run-IsSettled}

-- Calls of a process that do not fail.
abbrev calls : ℕ → ℕ → List Action
calls p zero = []
calls p (suc n) = advance p false ∷ calls p n

abbrev acquires : ℕ → ℕ → List Action
acquires p n = acquire p ∷ calls p n

-- The second process finds that the first one owns the lock.
refused : (run (acquires 1 3 ++ acquires 2 4) start).control 2 ≡ idle
unfolding run
refused = refl

-- The lock of a process that crashed is taken over.
taken_over : (run (acquires 1 3 ++ (crash 1 ∷ acquires 2 3)) start).control 2 ≡ owning 0
unfolding run
taken_over = refl

-- The first process has its lock, but has not yet written the side file when the second one judges it.
abbrev unwritten : List Action
unwritten = acquires 1 2 ++ acquires 2 9 ++ calls 1 1

two_owners :
    ((run unwritten start).control 1 ≡ owning 0) × ((run unwritten start).control 2 ≡ owning 1)
unfolding run
two_owners = (refl, refl)

-- The second process has opened the file before the first one removes it, and locks it after that, when
-- the third one has locked a new file.
abbrev removed : List Action
removed =
    acquires 1 3
    ++ acquires 2 1
    ++ (release 1 ∷ calls 1 2)
    ++ acquires 3 3
    ++ calls 1 1
    ++ calls 2 2

two_owners_again :
    ((run removed start).control 2 ≡ owning 0) × ((run removed start).control 3 ≡ owning 1)
unfolding run
two_owners_again = (refl, refl)

run-IsTable_example : IsTable (run unwritten start)
run-IsTable_example = run-IsTable unwritten

-- The first process releases the lock, the second one acquires it.
abbrev handed_over : List Action
handed_over = acquires 1 3 ++ (release 1 ∷ calls 1 3) ++ acquires 2 3

stays : {A : Type 0} → false ≡ true → A
stays h = absurd (differ h)
  where
    differ : false ≡ true → ⊥
    differ h = cc

handed_over-AllAlone : AllAlone handed_over start
handed_over-AllAlone = (
  tt,
  (
    stays,
    (
      stays,
      (stays, (tt, (stays, (λ h q e. rw (e) refl, (stays, (tt, (stays, (stays, (stays, tt))))))))),
    ),
  ),
)

run_exclusive_example : ◌≡◌ {A = ℕ} 2 2
run_exclusive_example =
    run_exclusive handed_over 2 2 1 1 handed_over-AllAlone (unfold run in refl) (unfold run in refl)

abbrev interleaved : List Action
interleaved = calls 1 4 ++ acquires 2 3 ++ calls 1 6

interleaved-Continues : Continues 1 interleaved
interleaved-Continues = (
  refl,
  (
    refl,
    (
      refl,
      (refl, (refl, (refl, (refl, (refl, (refl, (refl, (refl, (refl, (refl, (refl, tt))))))))))),
    ),
  ),
)

run-IsSettled_example : IsSettled ((run interleaved (run (acquire 1 ∷ []) start)).control 1)
run-IsSettled_example =
    run-IsSettled 1 interleaved (run (acquire 1 ∷ []) start) interleaved-Continues (omega arith)
