-- ===== src/Hooks/Tests.antt =====
-- Runs of hooks that are evaluated, and instances of the theorems. The outside is the list of lines.
use locorum.Common.{String, ◌≡◌, refl, ◌⊎◌, inl, inr, true, false, none, some, List, [], ◌∷◌}
use locorum.Common.Int.{pos}
use locorum.Hooks.{
  Hook, HookError, validate, validate_service, validate_containers, task_type_valid, event_valid,
  allows_container_tasks,
}
use locorum.Hooks.Task.{
  Site, Task, exec_task, host_task, hook_invalid, task_from_hook, dispatch, IsAllowed,
  task_from_hook_lem,
}
use locorum.Hooks.Runner.{Config, RunOptions, Running, emits, ends, fail_strict_for, parse_bool}
use locorum.Hooks.Run.{run_list, run}
use locorum.Hooks.Step.{Accounted, Consistent}
use locorum.Hooks.Accounts.{run_list-Accounted, run_list-Consistent}

abbrev shop : Site
shop = record { id = "s1"; slug = "shop"; files_dir = "/srv/shop" }

abbrev hook_of : String → String → String → Hook
hook_of task_type command service = record {
  id = 1;
  site_id = "s1";
  event = "post-start";
  position = 0;
  task_type = task_type;
  command = command;
  service = service;
  run_as_user = "";
  enabled = true;
  created_at = "";
  updated_at = "";
}

abbrev flush : Hook
flush = hook_of "wp-cli" "cache flush" ""

abbrev build : Hook
build = hook_of "exec-host" "make" ""

-- A service on a hook that runs on the host.
abbrev wrong : Hook
wrong = hook_of "exec-host" "make" "php"

-- Tasks in containers print a line and succeed; the host's fail with code 2.
abbrev start_task : Task → List String → Running (List String)
start_task (exec_task name service cmd user env) w = emits name false w (λ w'. ends (pos 0) none w')
start_task (host_task command cwd env) w = ends (pos 2) none w

abbrev machine : String → List Hook → Config (List String)
machine setting hooks_list = record {
  list_hooks = λ id event w. (inr hooks_list, w);
  get_setting = λ key w. setting;
  skip_env = λ w. "";
  open_run_log = λ slug event w. (some "run.log", w);
  container_env = λ site. [];
  host_env = λ site. [];
  start = start_task;
  ctx_err = λ w. none;
}

abbrev printing : RunOptions (List String)
printing = record {
  on_task_start = none;
  on_output = some (λ line w. line.0 ∷ w);
  on_task_done = none;
  on_all_done = none;
}

strict_words : (parse_bool " Yes " ≡ true) × (parse_bool "on" ≡ true) × (parse_bool "2" ≡ false)
unfolding parse_bool
strict_words = (refl, refl, refl)

lax_run :
    run (machine "" (build ∷ flush ∷ [])) printing "post-start" (some shop) []
    ≡ (none, "locorum-shop-php" ∷ [])
unfolding run task_from_hook validate task_type_valid event_valid validate_service
    validate_containers allows_container_tasks dispatch
lax_run = refl

abbrev all_three : List Hook
all_three = flush ∷ build ∷ flush ∷ []

strict_counts :
    let sum = (run_list (machine "true" all_three) printing "post-start" shop all_three []).0 in
    (sum.succeeded ≡ 1) × (sum.failed ≡ 1) × (sum.skipped ≡ 1) × (sum.aborted ≡ true)
unfolding run_list task_from_hook validate task_type_valid event_valid validate_service
    validate_containers allows_container_tasks dispatch
strict_counts = (refl, refl, refl, refl)

task_from_hook_lem_example :
    ((err : HookError) × (validate flush ≡ some err)
      × (task_from_hook flush (some shop) [] ≡ inl (hook_invalid err)))
    ⊎ ((t : Task) × (validate flush ≡ none)
        × (task_from_hook flush (some shop) [] ≡ inr t)
        × IsAllowed flush shop t)
task_from_hook_lem_example = task_from_hook_lem flush shop []

run_list-Accounted_example :
    Accounted
      (fail_strict_for (machine "true" all_three) printing "s1" [])
      (run_list (machine "true" all_three) printing "post-start" shop all_three [])
run_list-Accounted_example =
    run_list-Accounted (machine "true" all_three) printing "post-start" shop all_three []

run_list-Consistent_example :
    Consistent
      (fail_strict_for (machine "true" all_three) printing "s1" [])
      (run_list (machine "true" all_three) printing "post-start" shop all_three [])
run_list-Consistent_example =
    run_list-Consistent (machine "true" all_three) printing "post-start" shop all_three []
