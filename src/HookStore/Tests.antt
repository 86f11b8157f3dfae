-- ===== src/HookStore/Tests.antt =====
-- Runs of the hooks' table that are evaluated, and instances of the theorems.
use locorum.Common.{ℕ, ◌≡◌, ◌≢◌, refl, true, none, some, List, [], ◌∷◌, map, String, All, arith}
use locorum.Common.Int.{ℤ, pos}
use locorum.Hooks.{
  Hook, task_type_valid, event_valid, allows_container_tasks, validate, validate_service,
  validate_containers,
}
use locorum.HookStore.{
  Row, HookTable, unique_violation, in_group, group_ids, add_hook, reorder_hooks,
  list_hooks_by_event, is_taken, max_position, park, assign, clashes,
}
use locorum.HookStore.Pass.{row_id}
use locorum.HookStore.Passes.{IsHookTable}
use locorum.HookStore.Reorder.{IsOrdered}
use locorum.HookStore.Listing.{list_hooks_by_event-reorder_hooks}
use locorum.HookStore.Session.{
  StoreCall, add, delete, reorder, run_calls, run_calls_sound, empty_table,
}

abbrev hook_at : String → String → Hook
hook_at event command = record {
  id = 0;
  site_id = "s1";
  event = event;
  position = 0;
  task_type = "exec-host";
  command = command;
  service = "";
  run_as_user = "";
  enabled = true;
  created_at = "";
  updated_at = "";
}

abbrev calls : List StoreCall
calls =
    add (hook_at "post-start" "one")
    ∷ add (hook_at "post-start" "two")
    ∷ add (hook_at "pre-stop" "three")
    ∷ add (hook_at "post-start" "four")
    ∷ []

abbrev row_at : ℕ → String → String → ℕ → Row
row_at id event command n = record {
  hook = record (hook_at event command) { id = id };
  position = pos n;
}

abbrev filled : HookTable
filled = record {
  rows =
      row_at 1 "post-start" "one" 0
      ∷ row_at 2 "post-start" "two" 1
      ∷ row_at 3 "pre-stop" "three" 0
      ∷ row_at 4 "post-start" "four" 2
      ∷ [];
  next_id = 5;
}

abbrev place_of : Row → ℕ × ℤ
place_of r = (r.hook.id, r.position)

added :
    map place_of (run_calls (λ s. true) "noon" calls empty_table).1.rows ≡ map place_of filled.rows
unfolding add_hook is_taken max_position in_group validate task_type_valid event_valid
    validate_service validate_containers allows_container_tasks
added = refl

swapped :
    map place_of (reorder_hooks "s1" "post-start" (4 ∷ 1 ∷ 2 ∷ []) "dusk" filled).1.rows
    ≡ (1, pos 1) ∷ (2, pos 2) ∷ (3, pos 0) ∷ (4, pos 0) ∷ []
unfolding reorder_hooks group_ids in_group park assign clashes
swapped = refl

-- An identifier listed twice passes the checks, and the second pass breaks the constraint.
listed_twice :
    (reorder_hooks "s1" "post-start" (1 ∷ 1 ∷ 2 ∷ []) "dusk" filled).0 ≡ some unique_violation
unfolding reorder_hooks group_ids in_group park assign clashes
listed_twice = refl

list_hooks_by_event-reorder_hooks_example :
    (t' : HookTable) × (reorder_hooks "s1" "post-start" (4 ∷ 1 ∷ 2 ∷ []) "dusk" filled ≡ (none, t'))
    × (map row_id (list_hooks_by_event "s1" "post-start" t') ≡ 4 ∷ 1 ∷ 2 ∷ [])
    × IsOrdered "s1" "post-start" (4 ∷ 1 ∷ 2 ∷ []) filled.rows t'.rows
    × IsHookTable t'
unfolding group_ids in_group
list_hooks_by_event-reorder_hooks_example =
    list_hooks_by_event-reorder_hooks "s1" "post-start" (4 ∷ 1 ∷ 2 ∷ []) "dusk" filled
      (
        (refl, (refl, (refl, (refl, tt)))),
        (omega arith, (omega arith, (omega arith, (omega arith, tt)))),
        (refl, (refl, (refl, (refl, tt)))),
      )
      (refl, (refl, (refl, tt))) (refl, (refl, (refl, tt))) refl

abbrev session : List StoreCall
session =
    add (hook_at "post-start" "one")
    ∷ add (hook_at "post-start" "two")
    ∷ reorder "s1" "post-start" (2 ∷ 1 ∷ [])
    ∷ delete 2
    ∷ add (hook_at "post-start" "three")
    ∷ []

run_calls_sound_example :
    All (λ e. e ≢ some unique_violation) (run_calls (λ s. true) "noon" session empty_table).0
    × IsHookTable (run_calls (λ s. true) "noon" session empty_table).1
run_calls_sound_example =
    run_calls_sound (λ s. true) "noon" session (tt, (tt, ((refl, (refl, tt)), (tt, (tt, tt)))))
