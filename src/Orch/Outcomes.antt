-- ===== src/Orch/Outcomes.antt =====
-- internal/orch/plan.go: what the result of `Run` says, whatever the steps do.
use locorum.Common.{
  String, ◌≡◌, refl, ap, Bool, true, false, Option, none, some, List, [], ◌∷◌, map, All, ◌||◌,
}
use locorum.Orch.{
  Status, succeeded, failed, rolled_back, skipped, Step, Plan, StepResult, Callbacks, run,
}
use locorum.Orch.Saga.{saga, skip_result, cancel_result, saga_induction}
use locorum.Orch.Refinement.{settled, run-refines-saga}

-- The steps of a run that ended with the error `err`: some that were undone, then the failed one
-- with that error or the end of the context, then none but skipped ones.
pub data Aborted (err : String) : List StepResult → Type 0 where
  undone :
      {r : StepResult} {rs : List StepResult}
      → r.status ≡ rolled_back
      → Aborted err rs
      → Aborted err (r ∷ rs)
  failed_here :
      {r : StepResult} {rs : List StepResult}
      → r.status ≡ failed
      → r.error ≡ some err
      → All (λ q. q.status ≡ skipped) rs
      → Aborted err (r ∷ rs)
  cancelled_here :
      {rs : List StepResult}
      → All (λ q. (q.status ≡ skipped) × (q.error ≡ some err)) rs
      → Aborted err rs

-- What the steps of a run look like when it ended without an error, or with one.
abbrev pub Settles : Option String → List StepResult → Type 0
Settles none rs = All (λ r. (r.status ≡ succeeded) × (r.error ≡ none)) rs
Settles (some err) rs = Aborted err rs

skipped-All :
    {S : Type 0} (steps : List (Step S)) → All (λ q. q.status ≡ skipped) (map skip_result steps)
skipped-All [] = tt
skipped-All (s ∷ steps) = (refl, skipped-All steps)

cancelled-All :
    {S : Type 0} (err : String) (steps : List (Step S))
    → All (λ q. (q.status ≡ skipped) × (q.error ≡ some err)) (map (cancel_result err) steps)
cancelled-All err [] = tt
cancelled-All err (s ∷ steps) = ((refl, refl), cancelled-All err steps)

Settles-empty : (err : Option String) → Settles err []
Settles-empty none = tt
Settles-empty (some err) = cancelled_here tt

abbrev pub is_rolled_back : Status → Bool
is_rolled_back rolled_back = true
is_rolled_back _ = false

abbrev pub any_undone : List StepResult → Bool
any_undone [] = false
any_undone (r ∷ rs) = is_rolled_back r.status || any_undone rs

names_of_skipped :
    {S : Type 0} (steps : List (Step S))
    → map (λ r. r.name) (map skip_result steps) ≡ map (λ s. s.name) steps
names_of_skipped [] = refl
names_of_skipped (s ∷ steps) = ap (λ l. s.name ∷ l) (names_of_skipped steps)

none_undone_of_skipped :
    {S : Type 0} (steps : List (Step S)) → any_undone (map skip_result steps) ≡ false
none_undone_of_skipped [] = refl
none_undone_of_skipped (s ∷ steps) = none_undone_of_skipped steps

names_of_cancelled :
    {S : Type 0} (err : String) (steps : List (Step S))
    → map (λ r. r.name) (map (cancel_result err) steps) ≡ map (λ s. s.name) steps
names_of_cancelled err [] = refl
names_of_cancelled err (s ∷ steps) = ap (λ l. s.name ∷ l) (names_of_cancelled err steps)

none_undone_of_cancelled :
    {S : Type 0} (err : String) (steps : List (Step S))
    → any_undone (map (cancel_result err) steps) ≡ false
none_undone_of_cancelled err [] = refl
none_undone_of_cancelled err (s ∷ steps) = none_undone_of_cancelled err steps

module _ {S : Type 0} (ctx_err : S → Option String) (plan : Plan S) (cb : Callbacks S) (w : S) where
  saga-Settles : Settles (saga ctx_err cb plan.steps w).error (saga ctx_err cb plan.steps w).steps
  saga-Settles =
      saga_induction ctx_err cb (λ _ g. Settles g.error g.steps) (λ v. Settles-empty (ctx_err v))
        (λ s rest err v. cancelled_here (cancelled-All err (s ∷ rest)))
        (λ s rest err v. failed_here refl refl (skipped-All rest))
        (λ s rest later ih q. rw q ((refl, refl), rw q at ih))
        (λ s rest later err v ih q. rw q (undone refl (rw q at ih))) plan.steps w

  -- A run without an error has succeeded in every step; a run with an error has left no step
  -- succeeded, and says of each whether it was undone, failed or was skipped.
  pub run-Settles : let res = (run ctx_err plan cb w).0 in Settles res.final_error res.steps
  unfolding settled
  run-Settles = rw (run-refines-saga ctx_err plan cb w) saga-Settles

  saga-names :
      let g = saga ctx_err cb plan.steps w in
      (map (λ r. r.name) g.steps ≡ map (λ s. s.name) plan.steps) × (any_undone g.steps ≡ g.undone)
  saga-names =
      saga_induction ctx_err cb
        (λ steps g.
          (map (λ r. r.name) g.steps ≡ map (λ s. s.name) steps) × (any_undone g.steps ≡ g.undone))
        (λ v. (refl, refl))
        (λ s rest err v.
          (names_of_cancelled err (s ∷ rest), none_undone_of_cancelled err (s ∷ rest)))
        (λ s rest err v.
          (ap (λ l. s.name ∷ l) (names_of_skipped rest), none_undone_of_skipped rest))
        (λ s rest later ih q. (ap (λ l. s.name ∷ l) ih.0, ih.1))
        (λ s rest later err v ih q. (ap (λ l. s.name ∷ l) ih.0, refl)) plan.steps w

  -- The result lists every step of the plan once, in order and under its name, and it says that the
  -- run was rolled back exactly if it lists a step as rolled back.
  pub run-names :
      let res = (run ctx_err plan cb w).0 in
      (map (λ r. r.name) res.steps ≡ map (λ s. s.name) plan.steps)
      × (any_undone res.steps ≡ res.rolled_back)
  unfolding settled
  run-names = rw (run-refines-saga ctx_err plan cb w) saga-names
