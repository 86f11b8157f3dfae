-- ===== src/Hooks/Runner.antt =====
-- internal/hooks/runner.go: the run of the hooks of an event. `S` is everything outside the runner.
-- The run log is not modelled but for its path; the wall clock is left out.
use locorum.Common.{
  ℕ, ◌+◌, String, concat, Bool, true, false, ◌||◌, not, Option, none, some, List, ◌⊎◌, str_eq,
  if◌then◌else◌,
}
use locorum.Common.Text.{codes, equals, to_lower, trim_space}
use locorum.Common.Int.{ℤ, negsuc, is_zero}
use locorum.Hooks.{Hook}
use locorum.Hooks.Task.{Site, Task, TaskError, task_error_text}

pub data RunError : Type 0 where
  nil_site hooks_skipped : RunError
  loading plumbing cancelled : String → RunError
  task_error : TaskError → RunError
  -- combineTaskError: a hook that exited with a code other than 0
  exited : Hook → ℤ → RunError
  -- the same of `RunOne`
  task_exited : ℤ → RunError

pub record Result : Type 0 where
  pub hook : Hook
  pub exit_code : ℤ
  pub err : Option RunError
  pub stderr_seen : Bool
  pub lines_emitted : ℕ
  pub log_path : String

pub record Summary : Type 0 where
  pub event : String
  pub site_id : String
  pub total : ℕ
  pub succeeded : ℕ
  pub failed : ℕ
  pub skipped : ℕ
  pub aborted : Bool
  pub log_path : String

-- Result.Succeeded
unfoldable pub result_succeeded : Result → Bool
result_succeeded r = elim r.err [ some _ ↦ false | none ↦ is_zero r.exit_code ]

-- The callbacks; `none` is nil. A callback that panics has done what it has done.
pub record RunOptions (S : Type 0) : Type 0 where
  pub on_task_start : Option (Hook → S → S)
  pub on_output : Option (String × Bool → S → S)
  pub on_task_done : Option (Result → S → S)
  pub on_all_done : Option (Summary → S → S)

-- safeFire
unfoldable pub fire : {S A : Type 0} → Option (A → S → S) → A → S → S
fire none a w = w
fire (some cb) a w = cb a w

-- A task under way: it hands a line to the runner and goes on from where that leaves the outside, or
-- it ends with an exit code and an error.
pub data Running (S : Type 0) : Type 0 where
  emits : String → Bool → S → (S → Running S) → Running S
  ends : ℤ → Option String → S → Running S

-- The runner's dependencies: the hook store, the settings, the environment, the log directory, and
-- the executors of tasks, whose context ends after `DefaultTaskTimeout`.
pub record Config (S : Type 0) : Type 0 where
  pub list_hooks : String → String → S → (String ⊎ List Hook) × S
  pub get_setting : String → S → String
  pub skip_env : S → String
  pub open_run_log : String → String → S → Option String × S
  pub container_env : Site → List String
  pub host_env : Site → List String
  pub start : Task → S → Running S
  pub ctx_err : S → Option String

unfoldable pub parse_bool : String → Bool
unfolding equals to_lower trim_space
parse_bool s =
    let v = to_lower (trim_space (codes s)) in
    equals v (codes "true")
    || equals v (codes "1")
    || equals v (codes "yes")
    || equals v (codes "on")

-- combineTaskError
unfoldable pub combine_task_error : Result → RunError
combine_task_error r = elim r.err [ some err ↦ err | none ↦ exited r.hook r.exit_code ]

-- `if firstErr == nil { firstErr = err }`
abbrev pub first : Option RunError → RunError → Option RunError
first none err = some err
first (some old) err = some old

module _ {S : Type 0} (cfg : Config S) (opts : RunOptions S) where
  unfoldable pub fail_strict_for : String → S → Bool
  unfolding parse_bool
  fail_strict_for site_id w =
      let v = cfg.get_setting (concat "hooks.fail_on_error." site_id) w in
      if not (str_eq v "")
      then parse_bool v
      else parse_bool (cfg.get_setting "hooks.fail_on_error.global" w)

  -- The lines of a task, counted and passed on, until it ends.
  drive : Running S → ℕ → Bool → ℤ × Option String × ℕ × Bool × S
  unfolding fire
  drive (ends code err w) lines stderr_seen = (code, err, lines, stderr_seen, w)
  drive (emits line is_err w go) lines stderr_seen =
      drive (go (fire opts.on_output (line, is_err) w)) (lines + 1) (stderr_seen || is_err)

  abbrev as_plumbing : Option String → Option RunError
  as_plumbing none = none
  as_plumbing (some err) = some (plumbing err)

  unfoldable pub run_task : Task → Hook → String → S → Result × S
  unfolding drive
  run_task t h log_path w =
      let (code, err, lines, stderr_seen, w') =
        drive (cfg.start t (fire opts.on_task_start h w)) 0 false in
      let result : Result = record {
        hook = h;
        exit_code = code;
        err = as_plumbing err;
        stderr_seen = stderr_seen;
        lines_emitted = lines;
        log_path = log_path;
      } in
      (result, fire opts.on_task_done result w')

  unfoldable pub handle_failed_task : TaskError → Result → S → S
  unfolding fire
  handle_failed_task err result w =
      fire opts.on_task_done result
        (fire opts.on_output (task_error_text err, true) (fire opts.on_task_start result.hook w))

-- The result of a hook that is refused before it runs.
unfoldable pub invalid_result : Hook → TaskError → String → Result
invalid_result h err log_path = record {
  hook = h;
  exit_code = negsuc 0;
  err = some (task_error err);
  stderr_seen = false;
  lines_emitted = 0;
  log_path = log_path;
}
