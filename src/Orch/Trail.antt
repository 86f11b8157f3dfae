-- ===== src/Orch/Trail.antt =====
-- internal/orch/plan.go: what `rollbackPrior` and the search for the last completed step do to the
-- results of a run, read as a trail of the steps that succeeded.
use native.Mathlib.Nat.{add_comm, zero-add, suc-add}
use locorum.Common.{
  ℕ, suc, ◌+◌, ◌≡◌, refl, ap, ◌∙◌, Bool, true, false, some, List, [], ◌∷◌, map, length, get_elem?,
  set, rebuild, get_elem?-rebuild, get_elem?-rebuild_top, set-rebuild_top, length-map, All,
}
use locorum.Orch.{
  is_succeeded, Step, StepResult, Callbacks, safe_rollback, fire, rollback_at, rollback_prior,
  rollback_completed, succeeded_at,
}
use locorum.Orch.Saga.{succeeded_result, undone_result}

-- What the steps that ran before have become, the last one first: the trail of a run.
abbrev pub trail_of : {S : Type 0} → List (Step S) → List StepResult
trail_of = map succeeded_result

pub result_on_top :
    {S : Type 0} (trail : List (Step S)) (r : StepResult) (rs : List StepResult)
    → get_elem? (rebuild (trail_of trail) (r ∷ rs)) (length trail) ≡ some r
result_on_top trail r rs =
    rw (← length-map succeeded_result trail) (get_elem?-rebuild_top (trail_of trail) r rs)

-- The same under results that lie on the trail.
pub result_below :
    {S : Type 0} (dropped : List StepResult) (trail : List (Step S)) (r : StepResult)
    (rs : List StepResult)
    → get_elem?
        (rebuild (trail_of trail) (rebuild dropped (r ∷ rs)))
        (length dropped + length trail)
      ≡ some r
result_below dropped trail r rs =
    rw (add_comm (length dropped) (length trail), ← length-map succeeded_result trail)
      (get_elem?-rebuild (trail_of trail) (rebuild dropped (r ∷ rs)) (length dropped)
        ∙ get_elem?-rebuild_top dropped r rs)

pub set_on_top :
    {S : Type 0} (trail : List (Step S)) (r v : StepResult) (rs : List StepResult)
    → set (rebuild (trail_of trail) (r ∷ rs)) (length trail) v ≡ rebuild (trail_of trail) (v ∷ rs)
set_on_top trail r v rs =
    rw (← length-map succeeded_result trail) (set-rebuild_top (trail_of trail) r v rs)

module _ {S : Type 0} (cb : Callbacks S) where
  -- The rollback of a trail.
  unfoldable pub unwind : List (Step S) → Bool × List StepResult × S → Bool × List StepResult × S
  unwind [] acc = acc
  unwind (s ∷ trail) (found, rs, w) =
      let r = undone_result s w in
      unwind trail (true, r ∷ rs, fire cb.on_step_done r (safe_rollback s w).1)

  -- One round of the rollback takes the last step of the trail.
  undo_on_top :
      (s : Step S) (trail rest : List (Step S)) (found : Bool) (rs : List StepResult) (w : S)
      → let acc : Bool × List StepResult × S = (found, rebuild (trail_of (s ∷ trail)) rs, w) in
        rollback_at cb
          (get_elem? (rebuild (s ∷ trail) rest) (length trail))
          (get_elem? acc.1 (length trail))
          (length trail)
          acc
        ≡ (
          true,
          rebuild (trail_of trail) (undone_result s w ∷ rs),
          fire cb.on_step_done (undone_result s w) (safe_rollback s w).1,
        )
  unfolding rollback_at
  undo_on_top s trail rest found rs w =
      rw (get_elem?-rebuild_top trail s rest, result_on_top trail (succeeded_result s) rs)
        (rw (set_on_top trail (succeeded_result s) (undone_result s w) rs))

  pub rollback_prior-unwind :
      (trail rest : List (Step S)) (found : Bool) (rs : List StepResult) (w : S)
      → rollback_prior cb
          (rebuild trail rest)
          (length trail)
          (found, rebuild (trail_of trail) rs, w)
        ≡ unwind trail (found, rs, w)
  unfolding rollback_prior unwind
  rollback_prior-unwind [] rest found rs w = refl
  rollback_prior-unwind (s ∷ trail) rest found rs w =
      ap (rollback_prior cb (rebuild (s ∷ trail) rest) (length trail))
        (undo_on_top s trail rest found rs w)
      ∙ rollback_prior-unwind trail (s ∷ rest) true (undone_result s w ∷ rs)
          (fire cb.on_step_done (undone_result s w) (safe_rollback s w).1)

  rollback_completed_hit :
      (steps : List (Step S)) (i : ℕ) (rs : List StepResult) (w : S)
      → succeeded_at (get_elem? rs i) ≡ true
      → rollback_completed cb steps (suc i) rs w ≡ rollback_prior cb steps (suc i) (false, rs, w)
  unfolding rollback_completed
  rollback_completed_hit steps i rs w h = rw (h, rollback_completed)

  rollback_completed_miss :
      (steps : List (Step S)) (i : ℕ) (rs : List StepResult) (w : S)
      → succeeded_at (get_elem? rs i) ≡ false
      → rollback_completed cb steps (suc i) rs w ≡ rollback_completed cb steps i rs w
  unfolding rollback_completed
  rollback_completed_miss steps i rs w h = rw (h, rollback_completed)

  -- The search for the last step that succeeded passes over the cancelled ones.
  pub rollback_completed-unwind :
      (dropped : List StepResult) (trail rest : List (Step S)) (rs : List StepResult) (w : S)
      → All (λ r. is_succeeded r.status ≡ false) dropped
      → rollback_completed cb
          (rebuild trail rest)
          (length dropped + length trail)
          (rebuild (trail_of trail) (rebuild dropped rs))
          w
        ≡ unwind trail (false, rebuild dropped rs, w)
  unfolding rollback_completed unwind
  rollback_completed-unwind [] [] rest rs w h = refl
  rollback_completed-unwind [] (s ∷ trail) rest rs w h = rw zero-add (
      rollback_completed_hit (rebuild (s ∷ trail) rest) (length trail)
        (rebuild (trail_of (s ∷ trail)) rs) w (rw (result_on_top trail (succeeded_result s) rs))
      ∙ rollback_prior-unwind (s ∷ trail) rest false rs w)
  rollback_completed-unwind (r ∷ dropped) trail rest rs w h = rw suc-add (
      rollback_completed_miss (rebuild trail rest) (length dropped + length trail)
        (rebuild (trail_of trail) (rebuild dropped (r ∷ rs))) w
        (rw (result_below dropped trail r rs) h.0)
      ∙ rollback_completed-unwind dropped trail rest (r ∷ rs) w h.1)
