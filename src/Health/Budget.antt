-- ===== src/Health/Budget.antt =====
-- internal/health/runner.go: suspension as a function of the runs that were recorded.
use locorum.Common.{
  ℕ, ◌+◌, ◌%◌, ◌≡◌, refl, sym, ap, ◌∙◌, Bool-cases, Option-cases, rebuild, map, inl, inr, Bool,
  true, false, ◌&&◌, List, [], ◌∷◌, ltb, ◌==◌, if◌then◌else◌, arith, none,
}
use mathlib.Core.Path.{subst}
use locorum.Common.Text.{equals-≡, equals_refl, equals}
use locorum.Health.{RunnerState, record_budget, is_suspended, CheckResult, collate}

-- A run of a check: whether it was over its budget, and when that was recorded.
pub record Recorded : Type 0 where
  pub id : List ℕ
  pub over : Bool
  pub time : ℕ

-- The state after the runs of a history, the last one first.
unfoldable pub after : ℕ → List Recorded → RunnerState
unfolding record_budget
after cadence [] = record {
  first_seen = λ key. none;
  budget_trips = λ id. 0;
  next_run_at = λ id. 0;
}
after cadence (r ∷ history) = record_budget cadence r.id r.over r.time (after cadence history)

-- How many of the last runs of a check were over its budget, one after the other.
abbrev pub streak : List ℕ → List Recorded → ℕ
streak id [] = 0
streak id (r ∷ history) =
    let rest = streak id history in if equals id r.id then if r.over then rest + 1 else 0 else rest

-- When a check may run again: a cadence after each third run in a row that is over the budget.
abbrev pub resumes : ℕ → List ℕ → List Recorded → ℕ
resumes cadence id [] = 0
resumes cadence id (r ∷ history) =
    let rest = resumes cadence id history in
    if equals id r.id && r.over && (streak id (r ∷ history) % 3 == 0)
    then r.time + cadence
    else rest

abbrev next_streak : Bool → ℕ → ℕ
next_streak over n = if over then n + 1 else 0

module _ (cadence time : ℕ) (s : RunnerState) (id : List ℕ) where
  record_budget_same :
      (over : Bool) (n : ℕ)
      → s.budget_trips id ≡ n % 3
      → ((record_budget cadence id over time s).budget_trips id ≡ next_streak over n % 3)
        × ((record_budget cadence id over time s).next_run_at id
            ≡ (if over && (next_streak over n % 3 == 0) then time + cadence else s.next_run_at id))
  unfolding record_budget
  record_budget_same false n h = let e = equals_refl id in ground arith
  record_budget_same true n h = let e = equals_refl id in ground arith

  record_budget_other :
      (id' : List ℕ) (over : Bool)
      → equals id id' ≡ false
      → ((record_budget cadence id' over time s).budget_trips id ≡ s.budget_trips id)
        × ((record_budget cadence id' over time s).next_run_at id ≡ s.next_run_at id)
  unfolding record_budget
  record_budget_other id' over h = ground arith

abbrev Follows : ℕ → List Recorded → List ℕ → RunnerState → Type 0
Follows cadence history id s =
    (s.budget_trips id ≡ streak id history % 3) × (s.next_run_at id ≡ resumes cadence id history)

record_budget-Follows_same :
    (cadence : ℕ) (id : List ℕ) (over : Bool) (time : ℕ) (history : List Recorded) (s : RunnerState)
    → Follows cadence history id s
    → Follows cadence
        (record { id = id; over = over; time = time } ∷ history)
        id
        (record_budget cadence id over time s)
record_budget-Follows_same cadence id over time history s (trips, next) =
    let (trips', next') = record_budget_same cadence time s id over (streak id history) trips in
    rw (equals_refl id) (
      trips',
      next'
          ∙ ap
              (λ n.
                if over && (next_streak over (streak id history) % 3 == 0)
                then time + cadence
                else n)
              next,
    )

record_budget-Follows_other :
    (cadence : ℕ) (id : List ℕ) (r : Recorded) (history : List Recorded) (s : RunnerState)
    → equals id r.id ≡ false
    → Follows cadence history id s
    → Follows cadence (r ∷ history) id (record_budget cadence r.id r.over r.time s)
record_budget-Follows_other cadence id r history s other (trips, next) =
    let (trips', next') = record_budget_other cadence r.time s id r.id r.over other in
    rw (other) (trips' ∙ trips, next' ∙ next)

after-Follows :
    (cadence : ℕ) (history : List Recorded) (id : List ℕ)
    → Follows cadence history id (after cadence history)
unfolding after
after-Follows cadence [] id = (refl, refl)
after-Follows cadence (r ∷ history) id = elim (Bool-cases (equals id r.id)) [
  | inr other ↦
      record_budget-Follows_other cadence id r history (after cadence history) other
        (after-Follows cadence history id)
  | inl same ↦
      subst (λ id'. Follows cadence (r ∷ history) id' (after cadence (r ∷ history)))
        (sym (equals-≡ id r.id same))
        (record_budget-Follows_same cadence r.id r.over r.time history (after cadence history)
          (after-Follows cadence history r.id))
]

is_suspended-after :
    (cadence : ℕ) (history : List Recorded) (id : List ℕ) (now : ℕ)
    → is_suspended id now (after cadence history) ≡ ltb now (resumes cadence id history)
unfolding is_suspended
is_suspended-after cadence history id now = ap (λ t. ltb now t) (after-Follows cadence history id).1

-- What is recorded of a result, and the history after a batch.
abbrev pub recorded : {A : Type 0} → CheckResult A → Recorded
recorded r = record { id = r.check_id; over = r.over; time = r.at_ }

abbrev pub with_batch : {A : Type 0} → List (CheckResult A) → List Recorded → List Recorded
with_batch rs history = rebuild (map recorded rs) history

collate-after :
    {A : Type 0} (quoted : List ℕ → List ℕ) (cadence : ℕ) (rs : List (CheckResult A))
    (history : List Recorded)
    → (collate quoted cadence rs (after cadence history)).1 ≡ after cadence (with_batch rs history)
unfolding collate after
collate-after quoted cadence [] history = refl
collate-after quoted cadence (r ∷ rs) history = elim (Option-cases r.err) [
  | inl e ↦ rw (e) (collate-after quoted cadence rs (recorded r ∷ history))
  | inr (err, e) ↦ rw (e) (collate-after quoted cadence rs (recorded r ∷ history))
]

-- When the results of a batch are collated after a history of runs, a check is left out at a time
-- exactly if the runner's cadence, MinCadence, has not passed by then since the last third run in a
-- row of the check that was over its budget, where the history and the batch count. Runs of other
-- checks and the Cadence of the check itself play no part.
pub is_suspended-collate :
    {A : Type 0} (quoted : List ℕ → List ℕ) (cadence : ℕ) (rs : List (CheckResult A))
    (history : List Recorded) (id : List ℕ) (now : ℕ)
    → is_suspended id now (collate quoted cadence rs (after cadence history)).1
      ≡ ltb now (resumes cadence id (with_batch rs history))
is_suspended-collate quoted cadence rs history id now =
    ap (is_suspended id now) (collate-after quoted cadence rs history)
    ∙ is_suspended-after cadence (with_batch rs history) id now
