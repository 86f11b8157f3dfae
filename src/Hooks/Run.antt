-- ===== src/Hooks/Run.antt =====
-- internal/hooks/runner.go: `Run` and `RunOne`.
use locorum.Common.{
  ◌+◌, ◌-◌, String, Bool, true, false, Option, none, some, List, [], ◌∷◌, length, ◌⊎◌, inl, inr,
  str_eq, if◌then◌else◌,
}
use locorum.Common.Int.{pos, is_zero}
use locorum.Hooks.{Hook, task_exec_host}
use locorum.Hooks.Task.{Site, TaskError, task_from_hook}
use locorum.Hooks.Runner.{
  RunError, Result, Summary, Config, RunOptions, task_error, cancelled, nil_site, hooks_skipped,
  loading, task_exited, fire, first, combine_task_error, result_succeeded, fail_strict_for,
  run_task, handle_failed_task, invalid_result,
}

-- What a run ends with: the summary, the error that it returns, and the outside.
abbrev pub Ending : Type 0 → Type 0
Ending S = Summary × Option RunError × S

-- The context has ended before the next hook.
unfoldable pub cancel : {S : Type 0} → Summary → Option RunError → String → S → Ending S
cancel sum first_err err w = (
  record sum {
    skipped = sum.skipped + (sum.total - sum.succeeded - sum.failed - sum.skipped);
    aborted = true;
  },
  first first_err (cancelled err),
  w,
)

module _ {S : Type 0} (cfg : Config S) (opts : RunOptions S) (strict : Bool) (site : Site)
    (log_path : String) (hooks_list : List Hook) where
  unfoldable pub env_of : Hook → List String
  env_of h = if str_eq h.task_type task_exec_host then cfg.host_env site else cfg.container_env site

  -- A hook that is no task; the body of the loop returns (`inl`) or goes on to the next hook.
  unfoldable pub refused : Hook → TaskError → Summary → Option RunError → S → Ending S ⊎ Ending S
  unfolding invalid_result handle_failed_task
  refused h err sum first_err w =
      let w' = handle_failed_task cfg opts err (invalid_result h err log_path) w in
      let sum' : Summary = record sum { failed = sum.failed + 1 } in
      if strict
      then inl (record sum' { aborted = true }, some (task_error err), w')
      else inr (sum', first first_err (task_error err), w')

  -- A hook that has run.
  unfoldable pub settle : Result → Summary → Option RunError → S → Ending S ⊎ Ending S
  unfolding result_succeeded combine_task_error
  settle result sum first_err w =
      let first_err' = first first_err (combine_task_error result) in
      let sum' : Summary = record sum { failed = sum.failed + 1 } in
      if result_succeeded result
      then inr (record sum { succeeded = sum.succeeded + 1 }, first_err, w)
      else if strict
      then inl (
        record sum' {
          aborted = true;
          skipped =
              sum'.skipped + (length hooks_list - (sum'.succeeded + sum'.failed + sum'.skipped));
        },
        first_err',
        w,
      )
      else inr (sum', first_err', w)

  -- The body of the loop of `Run`.
  unfoldable pub visit : Hook → Summary → Option RunError → S → Ending S ⊎ Ending S
  unfolding env_of run_task cancel refused settle
  visit h sum first_err w = elim (cfg.ctx_err w) [
    | some err ↦ inl (cancel sum first_err err w)
    | none ↦ elim h.enabled [
      | false ↦ inr (record sum { skipped = sum.skipped + 1 }, first_err, w)
      | true ↦ elim (task_from_hook h (some site) (env_of h)) [
        | inl err ↦ refused h err sum first_err w
        | inr t ↦
            let (result, w') = run_task cfg opts t h log_path w in settle result sum first_err w'
      ]
    ]
  ]

  -- The loop of `Run`, which every branch leaves with a summary that is then handed on.
  unfoldable pub run_hooks : List Hook → Summary → Option RunError → S → Ending S
  unfolding visit
  run_hooks [] sum first_err w = (sum, if strict then first_err else none, w)
  run_hooks (h ∷ rest) sum first_err w = elim (visit h sum first_err w) [
    | inl ended ↦ ended
    | inr (sum', first_err', w') ↦ run_hooks rest sum' first_err' w'
  ]

abbrev pub path_or_empty : Option String → String
path_or_empty none = ""
path_or_empty (some path) = path

module _ {S : Type 0} (cfg : Config S) (opts : RunOptions S) (event : String) where
  abbrev pub empty_summary : Site → Summary
  empty_summary site = record {
    event = event;
    site_id = site.id;
    total = 0;
    succeeded = 0;
    failed = 0;
    skipped = 0;
    aborted = false;
    log_path = "";
  }

  -- `Run` with hooks to run.
  unfoldable pub run_list : Site → List Hook → S → Ending S
  unfolding run_hooks fail_strict_for
  run_list site hooks_list w =
      let strict = fail_strict_for cfg opts site.id w in
      let (opened, w') = cfg.open_run_log site.slug event w in
      let log_path = path_or_empty opened in
      run_hooks cfg opts strict site log_path hooks_list hooks_list
        (record (empty_summary site) { total = length hooks_list; log_path = log_path }) none w'

  abbrev finish : Ending S → Option RunError × S
  finish (sum, err, w) = (err, fire opts.on_all_done sum w)

  unfoldable pub run : Option Site → S → Option RunError × S
  unfolding run_list fire
  run none w = (some nil_site, w)
  run (some site) w =
      if str_eq (cfg.skip_env w) "1"
      then finish (empty_summary site, none, w)
      else (let (listed, w') = cfg.list_hooks site.id event w in
          elim listed [
            | inl err ↦ (some (loading err), w')
            | inr [] ↦ finish (empty_summary site, none, w')
            | inr (h ∷ rest) ↦ finish (run_list site (h ∷ rest) w')
          ])

-- What `RunOne` returns for a finished task.
unfoldable pub verdict : Result → Option RunError
verdict r = elim r.err [
  | some err ↦ some err
  | none ↦ if is_zero r.exit_code then none else some (task_exited r.exit_code)
]

module _ {S : Type 0} (cfg : Config S) (opts : RunOptions S) where
  skipped_result : Hook → Result
  skipped_result h = record {
    hook = h;
    exit_code = pos 0;
    err = some hooks_skipped;
    stderr_seen = false;
    lines_emitted = 0;
    log_path = "";
  }

  -- `RunOne`; without a site it returns an empty result, `none` here.
  unfoldable pub run_one : Hook → Option Site → S → Option Result × Option RunError × S
  unfolding skipped_result
  run_one h none w = (none, some nil_site, w)
  run_one h (some site) w =
      if str_eq (cfg.skip_env w) "1"
      then (some (skipped_result h), some hooks_skipped, w)
      else (let (opened, w₁) = cfg.open_run_log site.slug h.event w in
          let log_path = path_or_empty opened in
          let env =
            if str_eq h.task_type task_exec_host
            then cfg.host_env site
            else cfg.container_env site in
          elim (task_from_hook h (some site) env) [
            | inl err ↦
                let result = invalid_result h err log_path in
                (some result, some (task_error err), handle_failed_task cfg opts err result w₁)
            | inr t ↦
                let (result, w₂) = run_task cfg opts t h log_path w₁ in
                (some result, verdict result, w₂)
          ])
