-- ===== src/Orch/Refinement.antt =====
-- internal/orch/plan.go: `Run` does what the recursion of Orch/Saga.antt does.
use locorum.Common.{
  ℕ, suc, some, set, String, ◌≡◌, refl, ◌∙◌, false, Option, none, List, [], ◌∷◌, map, length,
  rebuild, inl, inr, Option-cases,
}
use locorum.Orch.{
  StepResult, fail_at, Step, Plan, Result, Callbacks, safe_apply, fire, pending_result,
  running_result, conclude, run_loop, run,
}
use locorum.Orch.Saga.{
  saga, succeeded_result, saga_empty, saga_cancelled, saga_failed, saga_done, leave_stays,
  leave_undone,
}
use locorum.Orch.Trail.{trail_of, unwind, set_on_top}
use locorum.Orch.Loop.{settle, settle-leave, after_loop-settle, cancel_here, fail_here}

module _ {S : Type 0} (ctx_err : S → Option String) (plan : Plan S) (cb : Callbacks S) where
  -- The two branches of a step that is run.
  run_loop_failed :
      (s : Step S) (rest : List (Step S)) (i : ℕ) (rs : List StepResult) (w : S) (err : String)
      → ctx_err w ≡ none
      → (safe_apply s (fire cb.on_step_start (running_result s) w)).0 ≡ some err
      → run_loop ctx_err plan cb (s ∷ rest) i rs w
        ≡ fail_at plan cb i
            (running_result s)
            err
            (set rs i (running_result s))
            (safe_apply s (fire cb.on_step_start (running_result s) w)).1
  unfolding run_loop
  run_loop_failed s rest i rs w err h e = rw (h, e, run_loop)

  run_loop_done :
      (s : Step S) (rest : List (Step S)) (i : ℕ) (rs : List StepResult) (w : S)
      → ctx_err w ≡ none
      → (safe_apply s (fire cb.on_step_start (running_result s) w)).0 ≡ none
      → run_loop ctx_err plan cb (s ∷ rest) i rs w
        ≡ run_loop ctx_err plan cb rest
            (suc i)
            (set (set rs i (running_result s)) i (succeeded_result s))
            (fire cb.on_step_done
              (succeeded_result s)
              (safe_apply s (fire cb.on_step_start (running_result s) w)).1)
  unfolding run_loop
  run_loop_done s rest i rs w h e = rw (h, e, run_loop)

module _ {S : Type 0} (ctx_err : S → Option String) (plan : Plan S) (cb : Callbacks S) where
  run_loop-saga :
      (rest trail : List (Step S)) (w : S)
      → plan.steps ≡ rebuild trail rest
      → run_loop ctx_err plan cb rest
          (length trail)
          (rebuild (trail_of trail) (map pending_result rest))
          w
        ≡ settle ctx_err plan cb trail (saga ctx_err cb rest w)
  run_loop-saga [] trail w e =
      rw (saga_empty ctx_err cb w) (after_loop-settle ctx_err plan cb trail w e)
  run_loop-saga (s ∷ rest) trail w e = elim (Option-cases (ctx_err w)) [
    | inr (err, h) ↦
        rw (saga_cancelled ctx_err cb s rest w err h)
          (cancel_here ctx_err plan cb s rest trail w err h e)
    | inl h ↦
        let w₁ = fire cb.on_step_start (running_result s) w in
        elim (Option-cases (safe_apply s w₁).0) [
          | inr (err, f) ↦
              run_loop_failed ctx_err plan cb s rest (length trail)
                (rebuild (trail_of trail) (map pending_result (s ∷ rest))) w err h f
              ∙ rw (saga_failed ctx_err cb s rest w err h f)
                  (fail_here ctx_err plan cb s rest trail err (safe_apply s w₁).1 e)
          | inl f ↦
              run_loop_done ctx_err plan cb s rest (length trail)
                (rebuild (trail_of trail) (map pending_result (s ∷ rest))) w h f
              ∙ rw
                  (
                    saga_done ctx_err cb s rest w h f,
                    settle-leave ctx_err plan cb s trail,
                    set_on_top trail (pending_result s) (running_result s)
                        (map pending_result rest),
                  )
                  (rw
                    (set_on_top trail (running_result s) (succeeded_result s)
                      (map pending_result rest))
                    (run_loop-saga rest (s ∷ trail)
                      (fire cb.on_step_done (succeeded_result s) (safe_apply s w₁).1) e))
        ]
  ]

undone_of_no_error :
    {S : Type 0} (ctx_err : S → Option String) (cb : Callbacks S) (steps : List (Step S)) (w : S)
    → (saga ctx_err cb steps w).error ≡ none
    → (saga ctx_err cb steps w).undone ≡ false
undone_of_no_error ctx_err cb [] w e = rw (saga_empty ctx_err cb w)
undone_of_no_error ctx_err cb (s ∷ rest) w e = elim (Option-cases (ctx_err w)) [
  | inr (err, h) ↦ rw (saga_cancelled ctx_err cb s rest w err h)
  | inl h ↦
      let w₁ = fire cb.on_step_start (running_result s) w in
      elim (Option-cases (safe_apply s w₁).0) [
        | inr (err, f) ↦ rw (saga_failed ctx_err cb s rest w err h f)
        | inl f ↦
            let later =
              saga ctx_err cb rest
                (fire cb.on_step_done (succeeded_result s) (safe_apply s w₁).1) in
            elim (Option-cases later.error) [
              | inl q ↦
                  rw (saga_done ctx_err cb s rest w h f, leave_stays ctx_err cb s later q)
                    (undone_of_no_error ctx_err cb rest
                      (fire cb.on_step_done (succeeded_result s) (safe_apply s w₁).1) q)
              | inr (err, q) ↦
                  cc (saga_done ctx_err cb s rest w h f, leave_undone ctx_err cb s later q)
            ]
      ]
]

-- The result of a run, and what it leaves outside.
unfoldable pub settled : {S : Type 0} → (S → Option String) → Plan S → Callbacks S → S → Result × S
unfolding saga
settled ctx_err plan cb w =
    let g = saga ctx_err cb plan.steps w in
    let res : Result = record {
      plan_name = plan.name;
      steps = g.steps;
      rolled_back = g.undone;
      final_error = g.error;
    } in
    (res, fire cb.on_plan_done res g.world)

settle-settled :
    {S : Type 0} (ctx_err : S → Option String) (plan : Plan S) (cb : Callbacks S) (w : S)
    → settle ctx_err plan cb [] (saga ctx_err cb plan.steps w) ≡ settled ctx_err plan cb w
unfolding settle settled conclude unwind
settle-settled ctx_err plan cb w =
    let g = saga ctx_err cb plan.steps w in
    elim (Option-cases g.error) [
      | inl e ↦ rw (e, settle) (rw (undone_of_no_error ctx_err cb plan.steps w e))
      | inr (err, e) ↦ rw (e, settle)
    ]

-- For all plans, callbacks, contexts and outsides, `Run` returns the result of the recursion on the
-- steps that undoes a succeeded step on the way out, and leaves the outside as that recursion leaves
-- it. The recursion calls the callbacks of the steps that are started, done or undone, and none for a
-- step that is skipped.
pub run-refines-saga :
    {S : Type 0} (ctx_err : S → Option String) (plan : Plan S) (cb : Callbacks S) (w : S)
    → run ctx_err plan cb w ≡ settled ctx_err plan cb w
unfolding run
run-refines-saga ctx_err plan cb w =
    run_loop-saga ctx_err plan cb plan.steps [] w refl ∙ settle-settled ctx_err plan cb w
