-- ===== src/Orch/Tests.antt =====
-- Runs of small plans: the machine is a number that the steps add to.
use locorum.Common.{
  ℕ, ◌+◌, ◌-◌, String, ◌≡◌, refl, true, Option, none, some, [], ◌∷◌, map, leb, if◌then◌else◌, arith,
}
use locorum.Orch.{
  returns, panics, of_other, Step, Plan, StepResult, Callbacks, Status, failed, rolled_back,
  skipped, safe_apply, safe_rollback, fire, run,
}
use locorum.Orch.Refinement.{settled, run-refines-saga}
use locorum.Orch.Outcomes.{Settles, any_undone, run-Settles, run-names}
use locorum.Orch.Compensation.{Compensates, IsQuiet, run_restores}

abbrev add_step : String → ℕ → Step ℕ
add_step name n = record {
  name = name;
  apply = λ w. (returns none, w + n);
  rollback = λ w. (returns none, w - n);
  describe = some (λ w. ("adds", returns none, w));
}

abbrev panicking : Step ℕ
panicking = record {
  name = "boom";
  apply = λ w. (panics of_other, w);
  rollback = λ w. (returns none, w);
  describe = none;
}

abbrev silent : Callbacks ℕ
silent = record { on_step_start = none; on_step_done = none; on_plan_done = none }

abbrev never : ℕ → Option String
never _ = none

-- A context that ends once the machine has reached 3.
abbrev at_three : ℕ → Option String
at_three w = if leb 3 w then some "context canceled" else none

abbrev doomed : Plan ℕ
doomed = record {
  name = "doomed";
  steps = add_step "one" 1 ∷ add_step "two" 2 ∷ panicking ∷ add_step "three" 3 ∷ [];
}

abbrev outcome : String → Status → Option String → StepResult
outcome name status error = record { name = name; status = status; error = error }

doomed_result : run never doomed silent 7 ≡ (
  record {
    plan_name = "doomed";
    steps =
        outcome "one" rolled_back none
        ∷ outcome "two" rolled_back none
        ∷ outcome "boom" failed (some "step panicked: unknown panic")
        ∷ outcome "three" skipped none
        ∷ [];
    rolled_back = true;
    final_error = some "step panicked: unknown panic";
  },
  7,
)
unfolding run safe_apply safe_rollback fire
doomed_result = refl

cancelled_result :
    (run at_three doomed silent 0).0.steps
    ≡ outcome "one" rolled_back none
      ∷ outcome "two" rolled_back none
      ∷ outcome "boom" skipped (some "context canceled")
      ∷ outcome "three" skipped (some "context canceled")
      ∷ []
unfolding run safe_apply safe_rollback fire
cancelled_result = refl

add_step-Compensates : (name : String) (n : ℕ) → Compensates {S = ℕ} (λ w. w) (add_step name n)
unfolding safe_apply safe_rollback
add_step-Compensates name n = record {
  at_fault = λ w err e. cc;
  undoes = λ w w' e h. omega (arith, h);
}

panicking-Compensates : Compensates {S = ℕ} (λ w. w) panicking
unfolding safe_apply safe_rollback
panicking-Compensates = record { at_fault = λ w err e. refl; undoes = λ w w' e h. cc }

silent-IsQuiet : IsQuiet {S = ℕ} (λ w. w) silent
unfolding fire
silent-IsQuiet = record { start = λ r w. refl; done = λ r w. refl; plan_done = λ r w. refl }

run_restores_example : (run never doomed silent 7).1 ≡ 7
run_restores_example =
    run_restores (λ w. w) never doomed silent 7 "step panicked: unknown panic" silent-IsQuiet
      (
        add_step-Compensates "one" 1,
        (
          add_step-Compensates "two" 2,
          (panicking-Compensates, (add_step-Compensates "three" 3, tt)),
        ),
      )
      (rw doomed_result)

run-refines-saga_example : run never doomed silent 7 ≡ settled never doomed silent 7
run-refines-saga_example = run-refines-saga never doomed silent 7

run-Settles_example : let res = (run never doomed silent 7).0 in Settles res.final_error res.steps
run-Settles_example = run-Settles never doomed silent 7

run-names_example :
    let res = (run never doomed silent 7).0 in
    (map (λ r. r.name) res.steps ≡ map (λ s. s.name) doomed.steps)
    × (any_undone res.steps ≡ res.rolled_back)
run-names_example = run-names never doomed silent 7
