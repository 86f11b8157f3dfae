-- ===== src/Orch/Compensation.antt =====
-- internal/orch/plan.go: a failed plan leaves no trace, if its steps can be undone.
use locorum.Common.{
  String, ◌≡◌, ◌∙◌, Option, none, some, List, [], ◌∷◌, All, inl, inr, Option-cases,
}
use locorum.Orch.{
  Step, Plan, StepResult, Result, Callbacks, safe_apply, safe_rollback, fire, running_result, run,
}
use locorum.Orch.Saga.{
  saga, succeeded_result, saga_empty, saga_cancelled, saga_failed, saga_done, leave_stays,
  leave_undone,
}
use locorum.Orch.Refinement.{settled, run-refines-saga}

-- `view` is the part of the outside that the steps are there to change.
module _ {S D : Type 0} (view : S → D) where
  -- A step that fails has changed nothing, and the rollback of a step undoes what `Apply` did.
  pub record Compensates (s : Step S) : Type 0 where
    pub at_fault :
        (w : S) (err : String) → (safe_apply s w).0 ≡ some err → view (safe_apply s w).1 ≡ view w
    pub undoes :
        (w w' : S)
        → (safe_apply s w).0 ≡ none
        → view w' ≡ view (safe_apply s w).1
        → view (safe_rollback s w').1 ≡ view w

  pub record IsQuiet (cb : Callbacks S) : Type 0 where
    pub start : (r : StepResult) (w : S) → view (fire cb.on_step_start r w) ≡ view w
    pub done : (r : StepResult) (w : S) → view (fire cb.on_step_done r w) ≡ view w
    pub plan_done : (res : Result) (w : S) → view (fire cb.on_plan_done res w) ≡ view w

module _ {S D : Type 0} (view : S → D) (ctx_err : S → Option String) (cb : Callbacks S)
    (quiet : IsQuiet view cb) where
  saga_restores :
      (steps : List (Step S)) (w : S) (err : String)
      → All (Compensates view) steps
      → (saga ctx_err cb steps w).error ≡ some err
      → view (saga ctx_err cb steps w).world ≡ view w
  saga_restores [] w err c e = rw (saga_empty ctx_err cb w)
  saga_restores (s ∷ rest) w err c e = elim (Option-cases (ctx_err w)) [
    | inr (x, h) ↦ rw (saga_cancelled ctx_err cb s rest w x h)
    | inl h ↦
        let w₁ = fire cb.on_step_start (running_result s) w in
        elim (Option-cases (safe_apply s w₁).0) [
          | inr (x, f) ↦
              rw (saga_failed ctx_err cb s rest w x h f)
                (quiet.done _ _ ∙ c.0.at_fault w₁ x f ∙ quiet.start _ w)
          | inl f ↦
              let w₂ = fire cb.on_step_done (succeeded_result s) (safe_apply s w₁).1 in
              let later = saga ctx_err cb rest w₂ in
              elim (Option-cases later.error) [
                | inl q ↦ cc (saga_done ctx_err cb s rest w h f, leave_stays ctx_err cb s later q)
                | inr (x, q) ↦
                    rw (saga_done ctx_err cb s rest w h f, leave_undone ctx_err cb s later q)
                      (quiet.done _ _
                        ∙ c.0.undoes w₁ later.world f
                            (saga_restores rest w₂ x c.1 q ∙ quiet.done _ _)
                        ∙ quiet.start _ w)
              ]
        ]
  ]

-- If every step of the plan compensates and no callback touches the view, then a run that ends with
-- an error, be it a failed step, a panic or a cancelled context, leaves the view as it found it.
pub run_restores :
    {S D : Type 0} (view : S → D) (ctx_err : S → Option String) (plan : Plan S) (cb : Callbacks S)
    (w : S) (err : String)
    → IsQuiet view cb
    → All (Compensates view) plan.steps
    → (run ctx_err plan cb w).0.final_error ≡ some err
    → view (run ctx_err plan cb w).1 ≡ view w
unfolding settled
run_restores view ctx_err plan cb w err quiet c e = rw (run-refines-saga ctx_err plan cb w) (
    quiet.plan_done _ _
    ∙ saga_restores view ctx_err cb quiet plan.steps w err c
        (rw (run-refines-saga ctx_err plan cb w) at e))
