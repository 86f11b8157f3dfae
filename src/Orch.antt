-- ===== src/Orch.antt =====
-- internal/orch/plan.go: plans of steps, run in order and undone in reverse order on failure.
-- `S` is everything outside the runner: the machine that the steps act on, the callbacks' receiver
-- and the context. A call into it takes the present state and returns the next one.
pub mod Saga
mod Trail
mod Loop
pub mod Refinement
pub mod Outcomes
pub mod Compensation
pub mod DryRun
mod Tests
use locorum.Common.{
  ℕ, zero, suc, String, concat, Bool, true, false, Option, none, some, List, [], ◌∷◌, map, length,
  get_elem?, set, modify, if◌then◌else◌,
}

pub data Status : Type 0 where
  pending running succeeded failed rolled_back skipped : Status

abbrev pub is_succeeded : Status → Bool
is_succeeded succeeded = true
is_succeeded _ = false

-- What `recover` hands to `recString`: an error, a string, or a value of another type.
pub data PanicValue : Type 0 where
  of_error of_string : String → PanicValue
  of_other : PanicValue

-- How a call of foreign code ends: it returns an error (`none` is nil), or it panics.
pub data Call : Type 0 where
  returns : Option String → Call
  panics : PanicValue → Call

-- A step with its optional `Describer` method, which returns a line beside its error.
pub record Step (S : Type 0) : Type 0 where
  pub name : String
  pub apply : S → Call × S
  pub rollback : S → Call × S
  pub describe : Option (S → String × Call × S)

pub record Plan (S : Type 0) : Type 0 where
  pub name : String
  pub steps : List (Step S)

pub record StepResult : Type 0 where
  pub name : String
  pub status : Status
  pub error : Option String

pub record Result : Type 0 where
  pub plan_name : String
  pub steps : List StepResult
  pub rolled_back : Bool
  pub final_error : Option String

-- `none` is a nil callback.
pub record Callbacks (S : Type 0) : Type 0 where
  pub on_step_start : Option (StepResult → S → Call × S)
  pub on_step_done : Option (StepResult → S → Call × S)
  pub on_plan_done : Option (Result → S → Call × S)

unfoldable pub rec_string : PanicValue → String
rec_string (of_error message) = message
rec_string (of_string message) = message
rec_string of_other = "unknown panic"

-- The deferred `recover` of `safeApply`, `safeRollback` and `safeDescribe`.
unfoldable pub recovered : String → Call → Option String
unfolding rec_string
recovered prefix (returns err) = err
recovered prefix (panics value) = some (concat prefix (rec_string value))

unfoldable pub safe_apply : {S : Type 0} → Step S → S → Option String × S
unfolding recovered
safe_apply s w = let (call, w') = s.apply w in (recovered "step panicked: " call, w')

unfoldable pub safe_rollback : {S : Type 0} → Step S → S → Option String × S
unfolding recovered
safe_rollback s w = let (call, w') = s.rollback w in (recovered "rollback panicked: " call, w')

-- A nil callback is skipped, and the panic of another one is dropped.
unfoldable pub fire : {S A : Type 0} → Option (A → S → Call × S) → A → S → S
fire none val w = w
fire (some cb) val w = (cb val w).1

-- One round of the loop of `rollbackPrior`; the triple is `found`, `res.Steps` and the outside.
unfoldable pub rollback_at :
    {S : Type 0}
    → Callbacks S
    → Option (Step S)
    → Option StepResult
    → ℕ
    → Bool × List StepResult × S
    → Bool × List StepResult × S
rollback_at cb (some s) (some r) i (found, rs, w) =
    if is_succeeded r.status
    then (let (err, w') = safe_rollback s w in
        let r' : StepResult = record r { status = rolled_back; error = err } in
        (true, set rs i r', fire cb.on_step_done r' w'))
    else (found, rs, w)
rollback_at cb _ _ i acc = acc

unfoldable pub rollback_prior :
    {S : Type 0}
    → Callbacks S
    → List (Step S)
    → ℕ
    → Bool × List StepResult × S
    → Bool × List StepResult × S
unfolding rollback_at
rollback_prior cb steps zero acc = acc
rollback_prior cb steps (suc i) acc =
    rollback_prior cb steps i (rollback_at cb (get_elem? steps i) (get_elem? acc.1 i) i acc)

-- The loop after a cancelled run: it looks for the last step that succeeded.
abbrev succeeded_at : Option StepResult → Bool
succeeded_at none = false
succeeded_at (some r) = is_succeeded r.status

unfoldable pub rollback_completed :
    {S : Type 0}
    → Callbacks S
    → List (Step S)
    → ℕ
    → List StepResult
    → S
    → Bool × List StepResult × S
unfolding rollback_prior
rollback_completed cb steps zero rs w = (false, rs, w)
rollback_completed cb steps (suc i) rs w = elim (succeeded_at (get_elem? rs i)) [
  | true ↦ rollback_prior cb steps (suc i) (false, rs, w)
  | false ↦ rollback_completed cb steps i rs w
]

-- `for j := i + 1; j < len(res.Steps); j++`, from the index `j` on.
unfoldable pub skip_from : ℕ → List StepResult → List StepResult
skip_from j [] = []
skip_from zero (r ∷ rs) = record r { status = skipped } ∷ skip_from zero rs
skip_from (suc j) (r ∷ rs) = r ∷ skip_from j rs

abbrev pub pending_result : {S : Type 0} → Step S → StepResult
pending_result s = record { name = s.name; status = pending; error = none }

abbrev pub running_result : {S : Type 0} → Step S → StepResult
running_result s = record { name = s.name; status = running; error = none }

module _ {S : Type 0} (plan : Plan S) (cb : Callbacks S) where
  -- The end of `Run`: the result is handed to the callback and returned.
  unfoldable pub conclude : Bool × List StepResult × S → Option String → Result × S
  conclude (found, rs, w) err =
      let res : Result = record {
        plan_name = plan.name;
        steps = rs;
        rolled_back = found;
        final_error = err;
      } in
      (res, fire cb.on_plan_done res w)

  -- The branch of a failed step, which ends the run.
  unfoldable pub fail_at : ℕ → StepResult → String → List StepResult → S → Result × S
  unfolding conclude skip_from rollback_prior
  fail_at i sr err rs w =
      let sr' : StepResult = record sr { status = failed; error = some err } in
      let w' = fire cb.on_step_done sr' w in
      let rs' = skip_from (suc i) (set rs i sr') in
      conclude (rollback_prior cb plan.steps i (false, rs', w')) (some err)

-- `ctx_err` is `ctx.Err()`, read from the outside whenever the code asks for it.
module _ {S : Type 0} (ctx_err : S → Option String) (plan : Plan S) (cb : Callbacks S) where
  -- What follows the loop, when no step has failed.
  unfoldable pub after_loop : List StepResult → S → Result × S
  unfolding conclude rollback_completed
  after_loop rs w = elim (ctx_err w) [
    | none ↦ conclude plan cb (false, rs, w) none
    | some err ↦
        conclude plan cb (rollback_completed cb plan.steps (length plan.steps) rs w) (some err)
  ]

  unfoldable pub run_loop : List (Step S) → ℕ → List StepResult → S → Result × S
  unfolding fail_at after_loop
  run_loop [] i rs w = after_loop rs w
  run_loop (s ∷ rest) i rs w = elim (ctx_err w) [
    | some err ↦
        run_loop rest (suc i) (modify rs i (λ r. record r { status = skipped; error = some err })) w
    | none ↦
        let sr = running_result s in
        let w₁ = fire cb.on_step_start sr w in
        let (outcome, w₂) = safe_apply s w₁ in
        elim outcome [
          | some err ↦ fail_at plan cb i sr err (set rs i sr) w₂
          | none ↦
              let sr' : StepResult = record sr { status = succeeded } in
              run_loop rest (suc i) (set (set rs i sr) i sr') (fire cb.on_step_done sr' w₂)
        ]
  ]

  unfoldable pub run : S → Result × S
  unfolding run_loop
  run w = run_loop plan.steps 0 (map pending_result plan.steps) w
