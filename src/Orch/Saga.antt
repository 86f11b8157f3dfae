-- ===== src/Orch/Saga.antt =====
-- internal/orch/plan.go, `Run` without its index arithmetic: a plan is run by recursion on its steps,
-- and a step that succeeded is undone on the way out of the recursion.
use locorum.Common.{
  String, ◌≡◌, refl, Bool, true, false, Option, none, some, List, [], ◌∷◌, map, inl, inr,
  Option-cases,
}
use locorum.Orch.{
  succeeded, failed, rolled_back, skipped, Step, StepResult, Callbacks, safe_apply, safe_rollback,
  fire, running_result,
}

pub record Saga (S : Type 0) : Type 0 where
  pub steps : List StepResult
  pub error : Option String
  pub undone : Bool
  pub world : S

abbrev pub succeeded_result : {S : Type 0} → Step S → StepResult
succeeded_result s = record { name = s.name; status = succeeded; error = none }

abbrev pub undone_result : {S : Type 0} → Step S → S → StepResult
undone_result s w = record { name = s.name; status = rolled_back; error = (safe_rollback s w).0 }

abbrev pub skip_result : {S : Type 0} → Step S → StepResult
skip_result s = record { name = s.name; status = skipped; error = none }

abbrev pub cancel_result : {S : Type 0} → String → Step S → StepResult
cancel_result err s = record { name = s.name; status = skipped; error = some err }

module _ {S : Type 0} (ctx_err : S → Option String) (cb : Callbacks S) where
  -- The outcome of the later steps decides whether `s`, which succeeded, stays or is undone.
  unfoldable pub leave : Step S → Saga S → Saga S
  leave s later = elim later.error [
    | none ↦ record later { steps = succeeded_result s ∷ later.steps }
    | some err ↦
        let r = undone_result s later.world in
        record later {
          steps = r ∷ later.steps;
          undone = true;
          world = fire cb.on_step_done r (safe_rollback s later.world).1;
        }
  ]

  unfoldable pub saga : List (Step S) → S → Saga S
  unfolding leave
  saga [] w = record { steps = []; error = ctx_err w; undone = false; world = w }
  saga (s ∷ rest) w = elim (ctx_err w) [
    | some err ↦ record {
      steps = map (cancel_result err) (s ∷ rest);
      error = some err;
      undone = false;
      world = w;
    }
    | none ↦
        let (outcome, w₂) = safe_apply s (fire cb.on_step_start (running_result s) w) in
        elim outcome [
          | some err ↦
              let r : StepResult = record { name = s.name; status = failed; error = some err } in
              record {
                steps = r ∷ map skip_result rest;
                error = some err;
                undone = false;
                world = fire cb.on_step_done r w₂;
              }
          | none ↦ leave s (saga rest (fire cb.on_step_done (succeeded_result s) w₂))
        ]
  ]

  pub saga_empty :
      (w : S) → saga [] w ≡ record { steps = []; error = ctx_err w; undone = false; world = w }
  unfolding saga
  saga_empty w = refl

  pub saga_cancelled :
      (s : Step S) (rest : List (Step S)) (w : S) (err : String)
      → ctx_err w ≡ some err
      → saga (s ∷ rest) w ≡ record {
        steps = map (cancel_result err) (s ∷ rest);
        error = some err;
        undone = false;
        world = w;
      }
  unfolding saga
  saga_cancelled s rest w err h = rw (h, saga)

  pub saga_failed :
      (s : Step S) (rest : List (Step S)) (w : S) (err : String)
      → ctx_err w ≡ none
      → (safe_apply s (fire cb.on_step_start (running_result s) w)).0 ≡ some err
      → let r : StepResult = record { name = s.name; status = failed; error = some err } in
        saga (s ∷ rest) w ≡ record {
          steps = r ∷ map skip_result rest;
          error = some err;
          undone = false;
          world =
              fire cb.on_step_done r (safe_apply s (fire cb.on_step_start (running_result s) w)).1;
        }
  unfolding saga
  saga_failed s rest w err h e = rw (h, e, saga)

  pub saga_done :
      (s : Step S) (rest : List (Step S)) (w : S)
      → ctx_err w ≡ none
      → (safe_apply s (fire cb.on_step_start (running_result s) w)).0 ≡ none
      → saga (s ∷ rest) w
        ≡ leave s (
            saga rest (
              fire cb.on_step_done
                (succeeded_result s)
                (safe_apply s (fire cb.on_step_start (running_result s) w)).1))
  unfolding saga
  saga_done s rest w h e = rw (h, e, saga)

  -- A later failure undoes the step, and nothing else does.
  pub leave_stays :
      (s : Step S) (later : Saga S)
      → later.error ≡ none
      → leave s later ≡ record later { steps = succeeded_result s ∷ later.steps }
  unfolding leave
  leave_stays s later e = rw (e, leave) (rw e)

  pub leave_undone :
      (s : Step S) (later : Saga S) {err : String}
      → later.error ≡ some err
      → let r = undone_result s later.world in
        leave s later ≡ record later {
          steps = r ∷ later.steps;
          undone = true;
          world = fire cb.on_step_done r (safe_rollback s later.world).1;
        }
  unfolding leave
  leave_undone s later e = rw (e, leave) (rw e)

-- Induction on the steps, for a property of the steps and the outcome of the recursion.
module _ {S : Type 0} (ctx_err : S → Option String) (cb : Callbacks S)
    (P : List (Step S) → Saga S → Type 0)
    (P_empty : (w : S) → P [] (record { steps = []; error = ctx_err w; undone = false; world = w }))
    (P_cancelled : (s : Step S) (rest : List (Step S)) (err : String) (w : S)
      → P (s ∷ rest) (record {
        steps = map (cancel_result err) (s ∷ rest);
        error = some err;
        undone = false;
        world = w;
      }))
    (P_failed : (s : Step S) (rest : List (Step S)) (err : String) (w : S)
      → P (s ∷ rest) (record {
        steps = record { name = s.name; status = failed; error = some err } ∷ map skip_result rest;
        error = some err;
        undone = false;
        world = w;
      }))
    (P_stays : (s : Step S) (rest : List (Step S)) (later : Saga S)
      → P rest later
      → later.error ≡ none
      → P (s ∷ rest) (record later { steps = succeeded_result s ∷ later.steps }))
    (P_undone : (s : Step S) (rest : List (Step S)) (later : Saga S) (err : String) (w : S)
      → P rest later
      → later.error ≡ some err
      → P (s ∷ rest) (record later {
        steps = undone_result s later.world ∷ later.steps;
        undone = true;
        world = w;
      })) where
  pub saga_induction : (steps : List (Step S)) (w : S) → P steps (saga ctx_err cb steps w)
  saga_induction [] w = rw (saga_empty ctx_err cb w) (P_empty w)
  saga_induction (s ∷ rest) w = elim (Option-cases (ctx_err w)) [
    | inr (err, h) ↦ rw (saga_cancelled ctx_err cb s rest w err h) (P_cancelled s rest err w)
    | inl h ↦
        let w₁ = fire cb.on_step_start (running_result s) w in
        elim (Option-cases (safe_apply s w₁).0) [
          | inr (err, f) ↦ rw (saga_failed ctx_err cb s rest w err h f) (P_failed s rest err _)
          | inl f ↦
              let w₂ = fire cb.on_step_done (succeeded_result s) (safe_apply s w₁).1 in
              let later = saga ctx_err cb rest w₂ in
              let ih = saga_induction rest w₂ in
              rw (saga_done ctx_err cb s rest w h f) (elim (Option-cases later.error) [
                | inl q ↦ rw (leave_stays ctx_err cb s later q) (P_stays s rest later ih q)
                | inr (err, q) ↦
                    rw (leave_undone ctx_err cb s later q) (P_undone s rest later err _ ih q)
              ])
        ]
  ]
