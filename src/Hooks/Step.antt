-- ===== src/Hooks/Step.antt =====
-- internal/hooks/runner.go: what the body of the loop of `Run` leaves of the summary.
use locorum.Common.{
  ℕ, suc, ◌+◌, ◌≤◌, String, ◌≡◌, refl, Bool, true, false, Option, none, some, List, ◌∷◌, length,
  ◌⊎◌, inl, inr, Bool-cases, Option-cases, if◌then◌else◌, arith,
}
use locorum.Hooks.{Hook}
use locorum.Hooks.Task.{Site, TaskError, task_from_hook}
use locorum.Hooks.Runner.{
  RunError, task_error, cancelled, Result, Summary, Config, RunOptions, first, run_task,
  result_succeeded, combine_task_error,
}
use locorum.Hooks.Run.{Ending, cancel, env_of, visit, refused, settle}

-- Every hook is counted once, unless a hook that was refused has ended a strict run.
abbrev pub Accounted : {S : Type 0} → Bool → Ending S → Type 0
Accounted strict (sum, err, w) =
    (sum.succeeded + sum.failed + sum.skipped ≡ sum.total)
    ⊎ ((strict ≡ true)
        × (sum.succeeded + sum.failed + sum.skipped ≤ sum.total)
        × ((e : TaskError) × (err ≡ some (task_error e))))

-- A run was aborted exactly if it returns an error. A strict run that was not aborted has seen no
-- hook fail, and one that was has seen one fail at most.
abbrev pub Consistent : {S : Type 0} → Bool → Ending S → Type 0
Consistent strict (sum, err, w) =
    ((sum.aborted ≡ false) × (err ≡ none) × ((strict ≡ false) ⊎ (sum.failed ≡ 0)))
    ⊎ ((sum.aborted ≡ true)
        × ((e : RunError) × (err ≡ some e))
        × ((strict ≡ false) ⊎ (sum.failed ≤ 1)))

-- The state of the loop before the hooks `rest`.
pub or_lax : (strict : Bool) {P : Type 0} → (strict ≡ true → P) → (strict ≡ false) ⊎ P
or_lax true p = inr (p refl)
or_lax false p = inl refl

false_not_true : false ≡ true → ⊥
false_not_true e = cc

⊎-cases : {A B : Type 0} (x : A ⊎ B) → ((a : A) × (x ≡ inl a)) ⊎ ((b : B) × (x ≡ inr b))
⊎-cases (inl a) = inl (a, refl)
⊎-cases (inr b) = inr (b, refl)

pub record Sound (strict : Bool) (rest : List Hook) (sum : Summary) (first_err : Option RunError)
    : Type 0 where
  pub counted : sum.succeeded + sum.failed + sum.skipped + length rest ≡ sum.total
  pub running : sum.aborted ≡ false
  pub no_failure : strict ≡ true → (sum.failed ≡ 0) × (first_err ≡ none)

module _ {S : Type 0} (cfg : Config S) (opts : RunOptions S) (strict : Bool) (site : Site)
    (log_path : String) (hooks_list : List Hook) where
  first_is_some : (o : Option RunError) (e : RunError) → (x : RunError) × (first o e ≡ some x)
  first_is_some none e = (e, refl)
  first_is_some (some x) e = (x, refl)

  cancel-ends :
      (rest : List Hook) (sum : Summary) (first_err : Option RunError) (err : String) (w : S)
      → Sound strict rest sum first_err
      → Accounted strict (cancel sum first_err err w)
        × Consistent strict (cancel sum first_err err w)
  unfolding cancel
  cancel-ends rest sum first_err err w s = (
    inl (omega (arith, s.counted)),
    inr (
      refl,
      first_is_some first_err (cancelled err),
      or_lax strict (λ e. omega (arith, (s.no_failure e).0)),
    ),
  )

  pub returned :
      (strict : Bool) (first_err : Option RunError) {n : ℕ}
      → (strict ≡ true → (n ≡ 0) × (first_err ≡ none))
      → (if strict then first_err else none) ≡ none
  returned true first_err h = (h refl).1
  returned false first_err h = refl

  -- What the body of the loop leaves: an ending that holds, or a state that is sound.
  unfoldable pub Left : List Hook → Ending S ⊎ Ending S → Type 0
  Left rest (inl ended) = Accounted strict ended × Consistent strict ended
  Left rest (inr (sum, first_err, w)) =
      (length hooks_list ≡ sum.total) × Sound strict rest sum first_err

  module _ (rest : List Hook) (sum : Summary) (first_err : Option RunError) (w : S)
      (len : length hooks_list ≡ sum.total)
      (s : sum.succeeded + sum.failed + sum.skipped + suc (length rest) ≡ sum.total)
      (running : sum.aborted ≡ false)
      (no_failure : strict ≡ true → (sum.failed ≡ 0) × (first_err ≡ none)) where
    refused-Left :
        (h : Hook) (err : TaskError)
        → Left rest (refused cfg opts strict site log_path hooks_list h err sum first_err w)
    unfolding refused Left
    refused-Left h err = elim (Bool-cases strict) [
      | inl strictly ↦ rw (strictly) (
        inr (refl, omega (arith, s), (err, refl)),
        inr (refl, (task_error err, refl), inr (omega (arith, (no_failure strictly).0))),
      )
      | inr laxly ↦ rw (laxly) (
        len,
        record {
          counted = omega (arith, s);
          running = running;
          no_failure = λ e. absurd (false_not_true e);
        },
      )
    ]

    settle-Left :
        (result : Result)
        → Left rest (settle cfg opts strict site log_path hooks_list result sum first_err w)
    unfolding settle Left
    settle-Left result = elim (Bool-cases (result_succeeded result)) [
      | inl ok ↦
          rw (ok)
            (len, record { counted = omega (arith, s); running = running; no_failure = no_failure })
      | inr bad ↦ elim (Bool-cases strict) [
        | inl strictly ↦
            rw (bad, strictly)
              (
                inl (omega (arith, s, len)),
                inr (
                  refl,
                  first_is_some first_err (combine_task_error result),
                  inr (omega (arith, (no_failure strictly).0)),
                ),
              )
        | inr laxly ↦
            rw (bad, laxly)
              (
                len,
                record {
                  counted = omega (arith, s);
                  running = running;
                  no_failure = λ e. absurd (false_not_true e);
                },
              )
      ]
    ]

  pub visit-Left :
      (h : Hook) (rest : List Hook) (sum : Summary) (first_err : Option RunError) (w : S)
      → length hooks_list ≡ sum.total
      → Sound strict (h ∷ rest) sum first_err
      → Left rest (visit cfg opts strict site log_path hooks_list h sum first_err w)
  unfolding visit Left
  visit-Left h rest sum first_err w len s = elim (Option-cases (cfg.ctx_err w)) [
    | inr (err, c) ↦ rw (c, visit) (cancel-ends (h ∷ rest) sum first_err err w s)
    | inl c ↦ elim (Bool-cases h.enabled) [
      | inr disabled ↦
          rw (c, disabled, visit)
            (
              len,
              record {
                counted = omega (arith, s.counted);
                running = s.running;
                no_failure = s.no_failure;
              },
            )
      | inl enabled ↦
          elim (⊎-cases
            (task_from_hook h (some site) (env_of cfg opts strict site log_path hooks_list h))) [
              | inl (err, t) ↦
                  rw (c, enabled, t, visit)
                    (refused-Left rest sum first_err w len s.counted s.running s.no_failure _ err)
              | inr (t, ran) ↦
                  rw (c, enabled, ran, visit)
                    (settle-Left rest sum first_err (run_task cfg opts t h log_path w).1 len
                      s.counted s.running s.no_failure (run_task cfg opts t h log_path w).0)
            ]
    ]
  ]
