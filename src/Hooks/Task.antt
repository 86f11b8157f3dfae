-- ===== src/Hooks/Task.antt =====
-- internal/hooks/tasks.go: what a hook runs, and where.
use locorum.Common.{
  String, concat, ◌≡◌, refl, ◌⊎◌, inl, inr, true, ◌||◌, Option, none, some, List, [], ◌∷◌, str_eq,
  eq_iff, ◌≢◌, sym, All, false, Option-cases, Bool-cases, if◌then◌else◌, arith,
}
use locorum.Common.Text.{one_of}
use mathlib.Core.Path.{subst}
use locorum.Hooks.{
  Hook, HookError, unknown_task_type, unknown_event, unknown_service, before_containers,
  empty_command, service_only_exec, run_as_user_only_exec, task_exec, task_exec_host, task_wpcli,
  task_type_valid, valid_service, allows_container_tasks, validate_service, validate_containers,
  validate,
}

-- The fields of types.Site that the hooks use.
pub record Site : Type 0 where
  pub id : String
  pub slug : String
  pub files_dir : String

pub data Task : Type 0 where
  -- container name, service, command, user, environment
  exec_task : String → String → List String → String → List String → Task
  -- command, working directory, environment
  host_task : String → String → List String → Task

pub data TaskError : Type 0 where
  nil_site : TaskError
  hook_invalid : HookError → TaskError
  unhandled : String → TaskError

-- The texts of the errors. No hook reaches the last one (`task_from_hook_lem`).
abbrev pub hook_error_text : HookError → String
hook_error_text (unknown_task_type t) = concat "unknown task type: " t
hook_error_text (unknown_event e) = concat "unknown event: " e
hook_error_text (unknown_service s) = concat "unknown service: " s
hook_error_text (before_containers e) =
    concat "event " (concat e " runs before containers exist; use exec-host")
hook_error_text empty_command = "hook command is empty"
hook_error_text service_only_exec = "service is only valid for task_type=exec"
hook_error_text run_as_user_only_exec = "run_as_user is only valid for task_type=exec"

abbrev pub task_error_text : TaskError → String
task_error_text nil_site = "taskFromHook: nil site"
task_error_text (hook_invalid err) = hook_error_text err
task_error_text (unhandled t) = concat "taskFromHook: unhandled task type " t

unfoldable pub service_of : Hook → String
service_of h = if str_eq h.service "" then "php" else h.service

abbrev pub container_task : Hook → Site → List String → Task
container_task h site env =
    exec_task (concat "locorum-" (concat site.slug (concat "-" (service_of h)))) (service_of h)
      ("/bin/sh" ∷ "-c" ∷ h.command ∷ []) h.run_as_user env

abbrev pub wp_task : Hook → Site → List String → Task
wp_task h site env =
    exec_task (concat "locorum-" (concat site.slug (concat "-" "php"))) "php"
      ("/bin/sh" ∷ "-c" ∷ concat "wp " h.command ∷ []) h.run_as_user env

-- The `switch` on the type of the task.
unfoldable pub dispatch : Hook → Site → List String → TaskError ⊎ Task
dispatch h site env =
    if str_eq h.task_type task_exec
    then inr (container_task h site env)
    else if str_eq h.task_type task_wpcli
    then inr (wp_task h site env)
    else if str_eq h.task_type task_exec_host
    then inr (host_task h.command site.files_dir env)
    else inl (unhandled h.task_type)

unfoldable pub task_from_hook : Hook → Option Site → List String → TaskError ⊎ Task
task_from_hook h none env = inl nil_site
task_from_hook h (some site) env = elim (validate h) [
  | some err ↦ inl (hook_invalid err)
  | none ↦ dispatch h site env
]

-- The events at which the containers of a site are not there.
abbrev pub down_events : List String
down_events =
    "pre-start" ∷ "post-stop" ∷ "pre-delete" ∷ "post-delete" ∷ "pre-snapshot" ∷ "post-snapshot"
    ∷ "pre-restore-snapshot" ∷ "post-restore-snapshot" ∷ "pre-import-site" ∷ "post-import-site" ∷ []

-- What a task may be: in a container, at none of these events, or on the host.
abbrev pub IsAllowed : Hook → Site → Task → Type 0
IsAllowed h site (exec_task name service cmd user env) =
    All (λ e. h.event ≢ e) down_events
    × (valid_service service ≡ true)
    × (name ≡ concat "locorum-" (concat site.slug (concat "-" service)))
IsAllowed h site (host_task command cwd env) =
    (h.task_type ≡ task_exec_host)
    × (h.service ≡ "")
    × (h.run_as_user ≡ "")
    × (cwd ≡ site.files_dir)

validated :
    (h : Hook)
    → validate h ≡ none
    → (task_type_valid h.task_type ≡ true)
      × (validate_service h ≡ none)
      × (validate_containers h ≡ none)
unfolding validate
validated h v = ground arith

service_valid :
    (h : Hook)
    → str_eq h.task_type task_exec ≡ true
    → validate_service h ≡ none
    → valid_service (service_of h) ≡ true
unfolding validate_service service_of
service_valid h t v = elim (Bool-cases (str_eq h.service "")) [
  | inl e ↦ rw (e, service_of) (unfold valid_service in refl)
  | inr e ↦ ground arith
]

none_of : (e : String) (xs : List String) → one_of e xs ≡ false → All (λ x. e ≢ x) xs
none_of e [] h = tt
none_of e (x ∷ xs) h = (
  (λ same. let yes = (eq_iff e x).1 same in absurd (let h' : true ≡ false = ground arith in cc)),
  none_of e xs (ground arith),
)

container_event :
    (h : Hook)
    → (str_eq h.task_type task_exec || str_eq h.task_type task_wpcli) ≡ true
    → validate_containers h ≡ none
    → All (λ e. h.event ≢ e) down_events
unfolding validate_containers allows_container_tasks
container_event h t v = elim (Bool-cases (str_eq h.event "")) [
  | inl e ↦
      subst (λ x. All (λ y. x ≢ y) down_events) (sym ((eq_iff h.event "").0 e))
        (none_of "" down_events refl)
  | inr e ↦ none_of h.event down_events (ground arith)
]

host_only :
    (h : Hook)
    → str_eq h.task_type task_exec_host ≡ true
    → validate_service h ≡ none
    → (h.service ≡ "") × (h.run_as_user ≡ "")
unfolding validate_service
host_only h t v =
    let other : str_eq h.task_type task_exec ≡ false =
      rw ((eq_iff h.task_type task_exec_host).0 t) refl in
    ground (arith, other, eq_iff h.service "", eq_iff h.run_as_user "")

dispatch-IsAllowed :
    (h : Hook) (site : Site) (env : List String)
    → validate h ≡ none
    → (t : Task) × (dispatch h site env ≡ inr t) × IsAllowed h site t
unfolding dispatch
dispatch-IsAllowed h site env v =
    let (valid, service, containers) = validated h v in
    elim (Bool-cases (str_eq h.task_type task_exec)) [
      | inl exec ↦ (
        container_task h site env,
        rw exec,
        (container_event h (rw exec) containers, service_valid h exec service, refl),
      )
      | inr no_exec ↦ elim (Bool-cases (str_eq h.task_type task_wpcli)) [
        | inl wp ↦ (
          wp_task h site env,
          rw (no_exec, wp),
          (container_event h (rw (no_exec, wp)) containers, unfold valid_service in refl, refl),
        )
        | inr no_wp ↦
            let host : str_eq h.task_type task_exec_host ≡ true =
              unfold task_type_valid in ground (arith, valid) in
            let (no_service, no_user) = host_only h host service in
            (
              host_task h.command site.files_dir env,
              rw (no_exec, no_wp, host),
              ((eq_iff h.task_type task_exec_host).0 host, no_service, no_user, refl),
            )
      ]
    ]

-- A hook with an error is refused with that error. A valid one becomes a task: in a container of one
-- of the site's services, only for an event other than pre-start, post-stop and the pairs delete,
-- snapshot, restore-snapshot and import-site, or for none; on the host, in the site's directory, only
-- for a hook that names no service and no user.
pub task_from_hook_lem :
    (h : Hook) (site : Site) (env : List String)
    → ((err : HookError) × (validate h ≡ some err)
        × (task_from_hook h (some site) env ≡ inl (hook_invalid err)))
      ⊎ ((t : Task) × (validate h ≡ none)
          × (task_from_hook h (some site) env ≡ inr t)
          × IsAllowed h site t)
unfolding task_from_hook
task_from_hook_lem h site env = elim (Option-cases (validate h)) [
  | inr (err, e) ↦ inl (err, e, rw (e, task_from_hook))
  | inl e ↦
      let (t, d, a) = dispatch-IsAllowed h site env e in inr (t, e, rw (e, task_from_hook) d, a)
]
