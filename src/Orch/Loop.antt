-- ===== src/Orch/Loop.antt =====
-- internal/orch/plan.go: the rounds and the ends of the loop of `Run`, on a trail of the steps that
-- succeeded.
use native.Mathlib.Nat.{add_comm, zero-add, suc-add, add-suc, add-zero}
use native.Mathlib.Numerals.{add-one}
use locorum.Common.{
  ℕ, suc, ◌+◌, String, ◌≡◌, refl, ap, ◌∙◌, false, Option, none, some, List, [], ◌∷◌, map, length,
  set, modify, rebuild, modify-rebuild, length-rebuild, length-map, All, inl, inr, Option-cases,
  arith,
}
use locorum.Orch.{
  failed, skipped, is_succeeded, Step, Plan, StepResult, Result, Callbacks, fire, rollback_prior,
  rollback_completed, skip_from, pending_result, running_result, conclude, fail_at, after_loop,
  run_loop,
}
use locorum.Orch.Saga.{Saga, leave, succeeded_result, skip_result, cancel_result}
use locorum.Orch.Trail.{
  trail_of, unwind, set_on_top, rollback_prior-unwind, rollback_completed-unwind,
}

abbrev cancelled : String → StepResult → StepResult
cancelled err r = record r { status = skipped; error = some err }

-- A cancelled step is marked under the results of those before it.
modify_below :
    {S : Type 0} (dropped : List StepResult) (trail : List (Step S)) (r : StepResult)
    (rs : List StepResult) (f : StepResult → StepResult)
    → modify (rebuild (trail_of trail) (rebuild dropped (r ∷ rs))) (length dropped + length trail) f
      ≡ rebuild (trail_of trail) (rebuild dropped (f r ∷ rs))
modify_below dropped trail r rs f =
    rw (add_comm (length dropped) (length trail), ← length-map succeeded_result trail)
      (modify-rebuild (trail_of trail) (rebuild dropped (r ∷ rs)) (length dropped) f
        ∙ ap (rebuild (trail_of trail))
            (rw add-zero at (modify-rebuild {A = StepResult} dropped (r ∷ rs) 0 f)))

skip_from-rebuild :
    (trail xs : List StepResult) (k : ℕ)
    → skip_from (length trail + k) (rebuild trail xs) ≡ rebuild trail (skip_from k xs)
unfolding skip_from
skip_from-rebuild [] xs k = rw zero-add
skip_from-rebuild (x ∷ trail) xs k =
    rw suc-add (rw (← add-suc) (skip_from-rebuild trail (x ∷ xs) (suc k)))

skip_from-pending :
    {S : Type 0} (rest : List (Step S))
    → skip_from 0 (map pending_result rest) ≡ map skip_result rest
unfolding skip_from
skip_from-pending [] = refl
skip_from-pending (s ∷ rest) = ap (λ rs. skip_result s ∷ rs) (skip_from-pending rest)

skip_later :
    {S : Type 0} (trail rest : List (Step S)) (r : StepResult)
    → skip_from (suc (length trail)) (rebuild (trail_of trail) (r ∷ map pending_result rest))
      ≡ rebuild (trail_of trail) (r ∷ map skip_result rest)
unfolding skip_from
skip_later trail rest r =
    rw (← add-one, ← length-map succeeded_result trail)
      (skip_from-rebuild (trail_of trail) (r ∷ map pending_result rest) 1
        ∙ ap (λ rs. rebuild (trail_of trail) (r ∷ rs)) (skip_from-pending rest))

module _ {S : Type 0} (cb : Callbacks S) where
  -- `rollback_completed-unwind`, with the length of the plan for a start.
  rollback-All :
      (steps later trail : List (Step S)) (dropped : List StepResult) (w : S)
      → steps ≡ rebuild trail later
      → length later ≡ length dropped
      → All (λ r. is_succeeded r.status ≡ false) dropped
      → rollback_completed cb steps (length steps) (rebuild (trail_of trail) (rebuild dropped [])) w
        ≡ unwind cb trail (false, rebuild dropped [], w)
  rollback-All steps later trail dropped w e len h =
      rw (e, length-rebuild trail later, len, add_comm (length trail) (length dropped))
        (rollback_completed-unwind cb dropped trail later [] w h)

  rollback_failed :
      (steps trail later : List (Step S)) (rs : List StepResult) (w : S)
      → steps ≡ rebuild trail later
      → rollback_prior cb steps (length trail) (false, rebuild (trail_of trail) rs, w)
        ≡ unwind cb trail (false, rs, w)
  rollback_failed steps trail later rs w e = rw e (rollback_prior-unwind cb trail later false rs w)

module _ {S : Type 0} (ctx_err : S → Option String) (plan : Plan S) (cb : Callbacks S) where
  -- How a run ends whose trail is `trail` and whose later steps had the outcome `later`.
  unfoldable pub settle : List (Step S) → Saga S → Result × S
  settle trail later = elim later.error [
    | none ↦ conclude plan cb (false, rebuild (trail_of trail) later.steps, later.world) none
    | some err ↦
        conclude plan cb (unwind cb trail (later.undone, later.steps, later.world)) (some err)
  ]

  pub settle-leave :
      (s : Step S) (trail : List (Step S)) (later : Saga S)
      → settle trail (leave ctx_err cb s later) ≡ settle (s ∷ trail) later
  unfolding settle leave unwind
  settle-leave s trail later = elim (Option-cases later.error) [
    | inl e ↦ rw e
    | inr (err, e) ↦ rw e
  ]

  run_loop-cancelled :
      (s : Step S) (rest : List (Step S)) (i : ℕ) (rs : List StepResult) (w : S) (err : String)
      → ctx_err w ≡ some err
      → run_loop ctx_err plan cb (s ∷ rest) i rs w
        ≡ run_loop ctx_err plan cb rest (suc i) (modify rs i (cancelled err)) w
  unfolding run_loop
  run_loop-cancelled s rest i rs w err h = rw (h, run_loop)

  after_loop_cancelled :
      (rs : List StepResult) (w : S) (err : String)
      → ctx_err w ≡ some err
      → after_loop ctx_err plan cb rs w
        ≡ conclude plan cb (rollback_completed cb plan.steps (length plan.steps) rs w) (some err)
  unfolding after_loop
  after_loop_cancelled rs w err h = rw (h, after_loop)

  -- Once the context is cancelled, nothing runs any more but the rollback.
  run_loop-cancel :
      (rest trail later : List (Step S)) (dropped : List StepResult) (w : S) (err : String)
      → ctx_err w ≡ some err
      → plan.steps ≡ rebuild trail later
      → length later ≡ length dropped + length rest
      → All (λ r. is_succeeded r.status ≡ false) dropped
      → run_loop ctx_err plan cb rest
          (length dropped + length trail)
          (rebuild (trail_of trail) (rebuild dropped (map pending_result rest)))
          w
        ≡ conclude plan cb
            (unwind cb trail (false, rebuild dropped (map (cancel_result err) rest), w))
            (some err)
  unfolding run_loop
  run_loop-cancel [] trail later dropped w err h e len ns =
      after_loop_cancelled (rebuild (trail_of trail) (rebuild dropped [])) w err h
      ∙ ap (λ acc. conclude plan cb acc (some err))
          (rollback-All cb plan.steps later trail dropped w e (omega (arith, len)) ns)
  run_loop-cancel (s ∷ rest) trail later dropped w err h e len ns =
      run_loop-cancelled s rest (length dropped + length trail)
        (rebuild (trail_of trail) (rebuild dropped (map pending_result (s ∷ rest)))) w err h
      ∙ rw
          (
            modify_below dropped trail (pending_result s) (map pending_result rest) (cancelled err),
            ← suc-add,
          )
          (run_loop-cancel rest trail later (cancel_result err s ∷ dropped) w err h e
            (omega (arith, len)) (refl, ns))

  fail_at-unwind :
      (s : Step S) (rest trail : List (Step S)) (err : String) (w : S)
      → plan.steps ≡ rebuild trail (s ∷ rest)
      → let r : StepResult = record { name = s.name; status = failed; error = some err } in
        fail_at plan cb
          (length trail)
          (running_result s)
          err
          (set
            (rebuild (trail_of trail) (map pending_result (s ∷ rest)))
            (length trail)
            (running_result s))
          w
        ≡ conclude plan cb
            (unwind cb trail (false, r ∷ map skip_result rest, fire cb.on_step_done r w))
            (some err)
  unfolding fail_at
  fail_at-unwind s rest trail err w e =
      let r : StepResult = record { name = s.name; status = failed; error = some err } in
      let later = map pending_result rest in
      rw (set_on_top trail (pending_result s) (running_result s) later) (
        rw (set_on_top trail (running_result s) r later, skip_later trail rest r)
          (ap (λ acc. conclude plan cb acc (some err))
            (rollback_failed cb plan.steps trail (s ∷ rest) (r ∷ map skip_result rest)
              (fire cb.on_step_done r w) e)))

  pub after_loop-settle :
      (trail : List (Step S)) (w : S)
      → plan.steps ≡ rebuild trail []
      → run_loop ctx_err plan cb [] (length trail) (rebuild (trail_of trail) []) w
        ≡ settle trail (record { steps = []; error = ctx_err w; undone = false; world = w })
  unfolding run_loop settle
  after_loop-settle trail w e = elim (Option-cases (ctx_err w)) [
    | inl h ↦ rw (h, after_loop)
    | inr (err, h) ↦ rw h (
        after_loop_cancelled (rebuild (trail_of trail) []) w err h
        ∙ ap (λ acc. conclude plan cb acc (some err))
            (rollback-All cb plan.steps [] trail [] w e refl tt))
  ]

  pub cancel_here :
      (s : Step S) (rest trail : List (Step S)) (w : S) (err : String)
      → ctx_err w ≡ some err
      → plan.steps ≡ rebuild trail (s ∷ rest)
      → run_loop ctx_err plan cb
          (s ∷ rest)
          (length trail)
          (rebuild (trail_of trail) (map pending_result (s ∷ rest)))
          w
        ≡ settle trail (record {
          steps = map (cancel_result err) (s ∷ rest);
          error = some err;
          undone = false;
          world = w;
        })
  unfolding settle
  cancel_here s rest trail w err h e =
      rw zero-add at (run_loop-cancel (s ∷ rest) trail (s ∷ rest) [] w err h e (omega arith) tt)

  pub fail_here :
      (s : Step S) (rest trail : List (Step S)) (err : String) (w : S)
      → plan.steps ≡ rebuild trail (s ∷ rest)
      → let r : StepResult = record { name = s.name; status = failed; error = some err } in
        fail_at plan cb
          (length trail)
          (running_result s)
          err
          (set
            (rebuild (trail_of trail) (map pending_result (s ∷ rest)))
            (length trail)
            (running_result s))
          w
        ≡ settle trail (record {
          steps = r ∷ map skip_result rest;
          error = some err;
          undone = false;
          world = fire cb.on_step_done r w;
        })
  unfolding settle
  fail_here s rest trail err w e = fail_at-unwind s rest trail err w e
