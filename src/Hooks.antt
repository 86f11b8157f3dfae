-- ===== src/Hooks.antt =====
-- internal/hooks/events.go and internal/hooks/hooks.go: lifecycle events, and the hooks that users
-- attach to them. Both `Event` and `TaskType` are strings in the source, so that a stored value may be
-- none of the constants.
pub mod Task
pub mod Runner
pub mod Run
pub mod Step
pub mod Accounts
mod Tests
use locorum.Common.{
  ℕ, String, Bool, true, false, ◌&&◌, ◌||◌, not, Option, none, some, List, [], ◌∷◌, str_eq,
  if◌then◌else◌,
}
use locorum.Common.Text.{one_of}

-- allEvents
abbrev pub all_events : List String
all_events =
    "pre-start" ∷ "post-start" ∷ "pre-stop" ∷ "post-stop" ∷ "pre-delete" ∷ "post-delete"
    ∷ "pre-clone" ∷ "post-clone" ∷ "pre-versions-change" ∷ "post-versions-change" ∷ "pre-multisite"
    ∷ "post-multisite" ∷ "pre-export" ∷ "post-export" ∷ "pre-import-db" ∷ "post-import-db"
    ∷ "pre-import-files" ∷ "post-import-files" ∷ "pre-snapshot" ∷ "post-snapshot"
    ∷ "pre-restore-snapshot" ∷ "post-restore-snapshot" ∷ "pre-import-site" ∷ "post-import-site"
    ∷ "pre-lan-enable" ∷ "post-lan-enable" ∷ "pre-lan-disable" ∷ "post-lan-disable" ∷ []

-- activeEvents
abbrev pub active_events : List String
active_events =
    "pre-start" ∷ "post-start" ∷ "pre-stop" ∷ "post-stop" ∷ "pre-delete" ∷ "post-delete"
    ∷ "pre-clone" ∷ "post-clone" ∷ "pre-versions-change" ∷ "post-versions-change" ∷ "pre-multisite"
    ∷ "post-multisite" ∷ "pre-export" ∷ "post-export" ∷ "pre-import-db" ∷ "post-import-db"
    ∷ "pre-snapshot" ∷ "post-snapshot" ∷ "pre-lan-enable" ∷ "post-lan-enable" ∷ "pre-lan-disable"
    ∷ "post-lan-disable" ∷ []

-- Event.Valid
unfoldable pub event_valid : String → Bool
event_valid e = one_of e all_events

abbrev without_containers : List String
without_containers =
    "pre-start" ∷ "post-stop" ∷ "pre-delete" ∷ "post-delete" ∷ "pre-snapshot" ∷ "post-snapshot"
    ∷ "pre-restore-snapshot" ∷ "post-restore-snapshot" ∷ "pre-import-site" ∷ "post-import-site" ∷ []

unfoldable pub allows_container_tasks : String → Bool
allows_container_tasks e = not (one_of e without_containers)

abbrev pub task_exec : String
task_exec = "exec"

abbrev pub task_exec_host : String
task_exec_host = "exec-host"

abbrev pub task_wpcli : String
task_wpcli = "wp-cli"

-- TaskType.Valid
unfoldable pub task_type_valid : String → Bool
task_type_valid t = one_of t (task_exec ∷ task_exec_host ∷ task_wpcli ∷ [])

unfoldable pub valid_service : String → Bool
valid_service s = one_of s ("php" ∷ "web" ∷ "database" ∷ "redis" ∷ [])

pub record Hook : Type 0 where
  pub id : ℕ
  pub site_id : String
  pub event : String
  pub position : ℕ
  pub task_type : String
  pub command : String
  pub service : String
  pub run_as_user : String
  pub enabled : Bool
  pub created_at : String
  pub updated_at : String

-- The errors of `Validate`, by their texts.
pub data HookError : Type 0 where
  unknown_task_type unknown_event unknown_service before_containers : String → HookError
  empty_command service_only_exec run_as_user_only_exec : HookError

-- The checks that depend on the type of the task.
unfoldable pub validate_service : Hook → Option HookError
validate_service h =
    if str_eq h.task_type task_exec
    then (if not (str_eq h.service "") && not (valid_service h.service)
        then some (unknown_service h.service)
        else none)
    else if not (str_eq h.service "")
    then some service_only_exec
    else if not (str_eq h.run_as_user "")
    then some run_as_user_only_exec
    else none

unfoldable pub validate_containers : Hook → Option HookError
validate_containers h =
    if not (str_eq h.event "")
      && not (allows_container_tasks h.event)
      && (str_eq h.task_type task_exec || str_eq h.task_type task_wpcli)
    then some (before_containers h.event)
    else none

abbrev pub or_else : Option HookError → Option HookError → Option HookError
or_else none next = next
or_else (some err) next = some err

unfoldable pub validate : Hook → Option HookError
validate h =
    if not (task_type_valid h.task_type)
    then some (unknown_task_type h.task_type)
    else if str_eq h.command ""
    then some empty_command
    else if not (str_eq h.event "") && not (event_valid h.event)
    then some (unknown_event h.event)
    else or_else (validate_service h) (validate_containers h)
