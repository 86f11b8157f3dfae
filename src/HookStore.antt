-- ===== src/HookStore.antt =====
-- internal/storage/hooks.go: the table of hooks. A statement is a function of the rows that gives none
-- where it would break UNIQUE(site_id, event, position); a transaction that fails leaves the table.
pub mod Members
pub mod Pass
pub mod Groups
pub mod Passes
pub mod Reorder
pub mod Insert
pub mod Session
pub mod Sorted
pub mod Standing
pub mod Listing
mod Tests
use locorum.Common.{
  ℕ, zero, suc, ◌+◌, ◌&&◌, not, Bool, true, false, Option, none, some, List, [], ◌∷◌, ◌++◌, map,
  length, ltb, ◌==◌, String, str_eq, if◌then◌else◌, ◌>>=◌,
}
use locorum.Common.Int.{ℤ, pos, negsuc}
use locorum.Hooks.{Hook, HookError, validate}

-- A row. Its position is an integer beside the hook, whose own field the code fills from the column.
pub record Row : Type 0 where
  pub hook : Hook
  pub position : ℤ

-- The rows, and the identifier that AUTOINCREMENT gives next.
pub record HookTable : Type 0 where
  pub rows : List Row
  pub next_id : ℕ

pub data StoreError : Type 0 where
  invalid : HookError → StoreError
  no_such_site unique_violation missing_id hook_not_found count_mismatch foreign_id : StoreError

abbrev pub any : {A : Type 0} → (A → Bool) → List A → Bool
any p [] = false
any p (x ∷ xs) = if p x then true else any p xs

unfoldable pub in_group : String → String → Row → Bool
in_group site event r = str_eq r.hook.site_id site && str_eq r.hook.event event

abbrev pub eq_position : ℤ → ℤ → Bool
eq_position (pos a) (pos b) = a == b
eq_position (negsuc a) (negsuc b) = a == b
eq_position (pos a) (negsuc b) = false
eq_position (negsuc a) (pos b) = false

abbrev pub max_with : ℤ → Option ℤ → ℤ
max_with (pos a) (some (pos b)) = pos (if ltb a b then b else a)
max_with (pos a) (some (negsuc b)) = pos a
max_with (negsuc a) (some (pos b)) = pos b
max_with (negsuc a) (some (negsuc b)) = negsuc (if ltb a b then a else b)
max_with a none = a

-- SELECT MAX(position) of a site and an event.
unfoldable pub max_position : String → String → List Row → Option ℤ
unfolding in_group
max_position site event [] = none
max_position site event (r ∷ rows) =
    let rest = max_position site event rows in
    if in_group site event r then some (max_with r.position rest) else rest

abbrev pub next_after : Option ℤ → ℤ
next_after none = pos 0
next_after (some (pos n)) = pos (n + 1)
next_after (some (negsuc zero)) = pos 0
next_after (some (negsuc (suc n))) = negsuc n

-- Is the place taken by a row?
unfoldable pub is_taken : String → String → ℤ → List Row → Bool
unfolding in_group
is_taken site event p rows = any (λ r. in_group site event r && eq_position r.position p) rows

abbrev pub new_row : Hook → ℕ → ℤ → String → Row
new_row h id p now = record {
  hook = record h { id = id; created_at = now; updated_at = now };
  position = p;
}

abbrev pub inserted :
    (String → Bool) → Hook → ℤ → String → HookTable → Option StoreError × HookTable
inserted site_exists h p now t =
    if is_taken h.site_id h.event p t.rows
    then (some unique_violation, t)
    else if not (site_exists h.site_id)
    then (some no_such_site, t)
    else (none, record { rows = t.rows ++ new_row h t.next_id p now ∷ []; next_id = suc t.next_id })

abbrev pub if_valid :
    Option HookError → Option StoreError × HookTable → HookTable → Option StoreError × HookTable
if_valid (some e) result t = (some (invalid e), t)
if_valid none result t = result

abbrev pub at_most : ℤ → ℤ → Bool
at_most (pos a) (pos b) = not (ltb b a)
at_most (negsuc a) (negsuc b) = not (ltb a b)
at_most (pos a) (negsuc b) = false
at_most (negsuc a) (pos b) = true

-- ORDER BY position
unfoldable pub put_in_order : Row → List Row → List Row
put_in_order r [] = r ∷ []
put_in_order r (s ∷ rows) =
    let rest = put_in_order r rows in
    if at_most r.position s.position then r ∷ s ∷ rows else s ∷ rest

abbrev pub by_position : List Row → List Row
by_position [] = []
by_position (r ∷ rows) = put_in_order r (by_position rows)

-- AddHook
unfoldable pub add_hook :
    (String → Bool) → Hook → String → HookTable → Option StoreError × HookTable
unfolding is_taken max_position
add_hook site_exists h now t =
    if_valid (validate h)
      (inserted site_exists h (next_after (max_position h.site_id h.event t.rows)) now t) t

abbrev pub is_target : Hook → Row → Bool
is_target h r = r.hook.id == h.id && in_group h.site_id h.event r

abbrev pub updated : Hook → String → Row → Row
updated h now r =
    if is_target h r
    then record r {
      hook = record r.hook {
        task_type = h.task_type;
        command = h.command;
        service = h.service;
        run_as_user = h.run_as_user;
        enabled = h.enabled;
        updated_at = now;
      };
    }
    else r

-- UpdateHook
unfoldable pub update_hook : Hook → String → HookTable → Option StoreError × HookTable
unfolding in_group
update_hook h now t =
    if h.id == 0
    then (some missing_id, t)
    else if_valid (validate h)
        (if any (is_target h) t.rows
          then (none, record t { rows = map (updated h now) t.rows })
          else (some hook_not_found, t))
        t

unfoldable pub remaining : (Row → Bool) → List Row → List Row
remaining p [] = []
remaining p (r ∷ rows) = let rest = remaining p rows in if p r then r ∷ rest else rest

-- ListHooksByEvent
unfoldable pub list_hooks_by_event : String → String → HookTable → List Row
unfolding remaining
list_hooks_by_event site event t = by_position (remaining (in_group site event) t.rows)

-- DeleteHook
unfoldable pub delete_hook : ℕ → HookTable → HookTable
unfolding remaining
delete_hook id t = record t { rows = remaining (λ r. not (r.hook.id == id)) t.rows }

-- DeleteHooksForSite
unfoldable pub delete_hooks_for_site : String → HookTable → HookTable
unfolding remaining
delete_hooks_for_site site t = record t {
  rows = remaining (λ r. not (str_eq r.hook.site_id site)) t.rows;
}

abbrev pub touched : Option String → Hook → Hook
touched none h = h
touched (some now) h = record h { updated_at = now }

-- A row with an identifier is given a position, and a time if there is one.
abbrev pub placed_row : ℕ → ℤ → Option String → Row → Row
placed_row id p now r =
    if r.hook.id == id then record { hook = touched now r.hook; position = p } else r

abbrev pub place : ℕ → ℤ → Option String → List Row → List Row
place id p now rows = map (placed_row id p now) rows

abbrev pub is_clash : ℕ → ℤ → Row → Row → Bool
is_clash id p r s =
    not (s.hook.id == id) && (in_group r.hook.site_id r.hook.event s && eq_position s.position p)

-- Would another row of the same site and event have the position?
unfoldable pub clashes : ℕ → ℤ → List Row → Bool
unfolding in_group
clashes id p rows = any (λ r. r.hook.id == id && any (is_clash id p r) rows) rows

-- UPDATE of the position of the row with an identifier.
abbrev pub set_position : ℕ → ℤ → Option String → List Row → Option (List Row)
set_position id p now rows = if clashes id p rows then none else some (place id p now rows)

-- The first pass of `ReorderHooks`, from an index on: -1, -2, …
unfoldable pub park : String → ℕ → List ℕ → List Row → Option (List Row)
unfolding clashes
park now i [] rows = some rows
park now i (id ∷ ids) rows = do
  rows' ← set_position id (negsuc i) (some now) rows
  park now (suc i) ids rows'

-- The second pass: 0, 1, …
unfoldable pub assign : ℕ → List ℕ → List Row → Option (List Row)
unfolding clashes
assign i [] rows = some rows
assign i (id ∷ ids) rows = do rows' ← set_position id (pos i) none rows; assign (suc i) ids rows'

-- SELECT id of a site and an event.
unfoldable pub group_ids : String → String → List Row → List ℕ
unfolding in_group
group_ids site event [] = []
group_ids site event (r ∷ rows) =
    let rest = group_ids site event rows in if in_group site event r then r.hook.id ∷ rest else rest

abbrev pub is_listed : ℕ → List ℕ → Bool
is_listed x ids = any (λ y. x == y) ids

abbrev pub committed : HookTable → Option (List Row) → Option StoreError × HookTable
committed t none = (some unique_violation, t)
committed t (some rows) = (none, record t { rows = rows })

-- ReorderHooks
unfoldable pub reorder_hooks :
    String → String → List ℕ → String → HookTable → Option StoreError × HookTable
unfolding park assign group_ids
reorder_hooks site event [] now t = (none, t)
reorder_hooks site event (id ∷ ids) now t =
    let existing = group_ids site event t.rows in
    if not (length existing == length (id ∷ ids))
    then (some count_mismatch, t)
    else if any (λ x. not (is_listed x existing)) (id ∷ ids)
    then (some foreign_id, t)
    else committed t (do rows ← park now 0 (id ∷ ids) t.rows; assign 0 (id ∷ ids) rows)
