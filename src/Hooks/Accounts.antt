-- ===== src/Hooks/Accounts.antt =====
-- internal/hooks/runner.go: what the summary of a run and the returned error say.
use locorum.Common.{
  suc, ◌+◌, String, ◌≡◌, refl, ap, Bool, true, Option, none, some, List, [], ◌∷◌, length, ◌⊎◌, inl,
  inr, arith,
}
use locorum.Hooks.{Hook}
use locorum.Hooks.Task.{Site, TaskError, task_from_hook}
use locorum.Hooks.Runner.{
  RunError, task_error, Summary, Config, RunOptions, handle_failed_task, invalid_result,
  fail_strict_for,
}
use locorum.Hooks.Run.{
  Ending, env_of, visit, refused, run_hooks, run_list, path_or_empty, empty_summary,
}
use locorum.Hooks.Step.{Accounted, Consistent, Sound, Left, or_lax, returned, visit-Left}

module _ {S : Type 0} (cfg : Config S) (opts : RunOptions S) (strict : Bool) (site : Site)
    (log_path : String) (hooks_list : List Hook) where
  run_hooks_refused :
      (h : Hook) (rest : List Hook) (sum : Summary) (first_err : Option RunError) (w : S)
      (err : TaskError)
      → strict ≡ true
      → cfg.ctx_err w ≡ none
      → h.enabled ≡ true
      → task_from_hook h (some site) (env_of cfg opts strict site log_path hooks_list h) ≡ inl err
      → (w' : S) × (run_hooks cfg opts strict site log_path hooks_list (h ∷ rest) sum first_err w
          ≡ (record sum { failed = sum.failed + 1; aborted = true }, some (task_error err), w'))
  unfolding run_hooks visit refused
  run_hooks_refused h rest sum first_err w err strictly c enabled t = (
    handle_failed_task cfg opts err (invalid_result h err log_path) w,
    ap
        (λ x. elim x [
          | inl ended ↦ ended
          | inr (sum', first_err', w') ↦
              run_hooks cfg opts strict site log_path hooks_list rest sum' first_err' w'
        ])
        visit_refused,
  )
    where
      visit_refused :
          visit cfg opts strict site log_path hooks_list h sum first_err w
          ≡ inl (
            record sum { failed = sum.failed + 1; aborted = true },
            some (task_error err),
            handle_failed_task cfg opts err (invalid_result h err log_path) w,
          )
      visit_refused = simp (c, enabled, t, strictly, visit)

  Ends : Ending S → Type 0
  Ends ended = Accounted strict ended × Consistent strict ended

  run_hooks-Ends :
      (rest : List Hook) (sum : Summary) (first_err : Option RunError) (w : S)
      → length hooks_list ≡ sum.total
      → Sound strict rest sum first_err
      → Ends (run_hooks cfg opts strict site log_path hooks_list rest sum first_err w)
  unfolding run_hooks Left Ends
  run_hooks-Ends [] sum first_err w len s = (
    inl (omega (arith, s.counted)),
    inl (
      s.running,
      returned cfg opts strict site log_path hooks_list strict first_err s.no_failure,
      or_lax strict (λ e. (s.no_failure e).0),
    ),
  )
  run_hooks-Ends (h ∷ rest) sum first_err w len s =
      follow (run_hooks cfg opts strict site log_path hooks_list rest) (run_hooks-Ends rest)
        (visit cfg opts strict site log_path hooks_list h sum first_err w)
        (visit-Left cfg opts strict site log_path hooks_list h rest sum first_err w len s)
    where
      follow :
          (next : Summary → Option RunError → S → Ending S)
          → ((sum' : Summary) (first_err' : Option RunError) (w' : S)
              → length hooks_list ≡ sum'.total
              → Sound strict rest sum' first_err'
              → Ends (next sum' first_err' w'))
          → (left : Ending S ⊎ Ending S) → Left cfg opts strict site log_path hooks_list rest left
          → Ends (elim left [
            | inl ended ↦ ended
            | inr (sum', first_err', w') ↦ next sum' first_err' w'
          ])
      follow next ih (inl ended) l = l
      follow next ih (inr (sum', first_err', w')) (len', s') = ih sum' first_err' w' len' s'

module _ {S : Type 0} (cfg : Config S) (opts : RunOptions S) (event : String) where
  run_list-ends :
      (site : Site) (hooks_list : List Hook) (w : S)
      → Accounted (fail_strict_for cfg opts site.id w) (run_list cfg opts event site hooks_list w)
        × Consistent
            (fail_strict_for cfg opts site.id w)
            (run_list cfg opts event site hooks_list w)
  unfolding run_list Ends
  run_list-ends site hooks_list w =
      let opened = cfg.open_run_log site.slug event w in
      let log_path = path_or_empty opened.0 in
      run_hooks-Ends cfg opts (fail_strict_for cfg opts site.id w) site log_path hooks_list
        hooks_list
        (record (empty_summary cfg opts event site) {
          total = length hooks_list;
          log_path = log_path;
        })
        none opened.1 refl
        (record { counted = omega arith; running = refl; no_failure = λ e. (refl, refl) })

  -- Where the hooks of an event are run, each of them is counted once as succeeded, failed or skipped
  -- in the summary, unless the run was strict and returned the error of a hook that is no task; then at most
  -- as many as there are hooks are counted.
  pub run_list-Accounted :
      (site : Site) (hooks_list : List Hook) (w : S)
      → Accounted (fail_strict_for cfg opts site.id w) (run_list cfg opts event site hooks_list w)
  run_list-Accounted site hooks_list w = (run_list-ends site hooks_list w).0

  -- Where the hooks of an event are run, an error is returned exactly if the summary says that the run
  -- was aborted; a strict run that was not aborted has no failed hook, and one that was has one at most.
  pub run_list-Consistent :
      (site : Site) (hooks_list : List Hook) (w : S)
      → Consistent (fail_strict_for cfg opts site.id w) (run_list cfg opts event site hooks_list w)
  run_list-Consistent site hooks_list w = (run_list-ends site hooks_list w).1

  -- A strict run whose first hook is enabled and refused, with the context not ended, returns the error
  -- of the hook and counts none of the other hooks: its summary has a total of all hooks, one of them
  -- failed, none succeeded and none skipped.
  run_list_refused :
      (site : Site) (h : Hook) (rest : List Hook) (w : S) (err : TaskError)
      → fail_strict_for cfg opts site.id w ≡ true
      → cfg.ctx_err (cfg.open_run_log site.slug event w).1 ≡ none
      → h.enabled ≡ true
      → ((env : List String) → task_from_hook h (some site) env ≡ inl err)
      → let (sum, returned_err, w') = run_list cfg opts event site (h ∷ rest) w in
        (sum.total ≡ suc (length rest))
        × (sum.succeeded ≡ 0)
        × (sum.failed ≡ 1)
        × (sum.skipped ≡ 0)
        × (returned_err ≡ some (task_error err))
  unfolding run_list run_hooks
  run_list_refused site h rest w err strictly c enabled t =
      let opened = cfg.open_run_log site.slug event w in
      let (w', ended) =
        run_hooks_refused cfg opts (fail_strict_for cfg opts site.id w) site
          (path_or_empty opened.0) (h ∷ rest) h rest
          (record (empty_summary cfg opts event site) {
            total = length (h ∷ rest);
            log_path = path_or_empty opened.0;
          })
          none opened.1 err strictly c enabled (t _) in
      (
        ap (λ x. x.0.total) ended,
        ap (λ x. x.0.succeeded) ended,
        ap (λ x. x.0.failed) ended,
        ap (λ x. x.0.skipped) ended,
        ap (λ x. x.1) ended,
      )
