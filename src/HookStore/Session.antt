-- ===== src/HookStore/Session.antt =====
-- internal/storage/hooks.go: any sequence of the operations on the hooks' table.
use locorum.Common.{
  ℕ, ◌<◌, ◌≡◌, ◌≢◌, ◌↔◌, refl, sym, ap, ◌∙◌, not, Bool, true, false, Option, none, some, List, [],
  ◌∷◌, map, ◌==◌, String, str_eq, inl, inr, Bool-cases, All,
}
use mathlib.Core.Path.{subst}
use locorum.Hooks.{Hook, validate}
use locorum.HookStore.{
  Row, HookTable, StoreError, unique_violation, missing_id, hook_not_found, any, add_hook,
  is_target, updated, update_hook, remaining, delete_hook, delete_hooks_for_site, reorder_hooks,
}
use locorum.HookStore.Members.{any_none, none_any, All-map, IsDistinct}
use locorum.HookStore.Pass.{row_id}
use locorum.HookStore.Passes.{IsHookTable, is_pos}
use locorum.HookStore.Reorder.{IsSound, IsSound-error, IsSound-done, reorder_hooks-IsSound}
use locorum.HookStore.Insert.{if_valid-IsSound, add_hook-IsSound}

map-row_id-updated :
    (h : Hook) (now : String) (rows : List Row)
    → map row_id (map (updated h now) rows) ≡ map row_id rows
map-row_id-updated h now [] = refl
map-row_id-updated h now (r ∷ rows) = elim (Bool-cases (is_target h r)) [
  | inl e ↦ rw (e, map-row_id-updated h now rows) refl
  | inr e ↦ rw (e, map-row_id-updated h now rows) refl
]

updated-position : (h : Hook) (now : String) (r : Row) → (updated h now r).position ≡ r.position
updated-position h now r = elim (Bool-cases (is_target h r)) [
  | inl e ↦ rw e refl
  | inr e ↦ rw e refl
]

updated-IsHookTable :
    (h : Hook) (now : String) (t : HookTable)
    → IsHookTable t
    → IsHookTable (record t { rows = map (updated h now) t.rows })
updated-IsHookTable h now t (d, below, places) =
    let ids : map row_id (map (updated h now) t.rows) ≡ map row_id t.rows =
      map-row_id-updated h now t.rows in
    (
      subst IsDistinct (sym ids) d,
      subst (All (λ x. x < t.next_id)) (sym ids) below,
      All-map (λ r. is_pos r.position ≡ true) _ (updated h now) t.rows
          (λ r e. ap is_pos (updated-position h now r) ∙ e) places,
    )

update_hook-IsSound :
    (h : Hook) (now : String) (t : HookTable) → IsHookTable t → IsSound (update_hook h now t)
unfolding update_hook
update_hook-IsSound h now t k = elim (Bool-cases (h.id == 0)) [
  | inl e ↦ rw e (
      IsSound-error missing_id t (λ x. absurd (let h' : missing_id ≡ unique_violation = x in cc)) k)
  | inr e ↦ rw e (
      if_valid-IsSound (validate h) _ t k (elim (Bool-cases (any (is_target h) t.rows)) [
        | inl f ↦ rw f (
            IsSound-done (record t { rows = map (updated h now) t.rows })
              (updated-IsHookTable h now t k))
        | inr f ↦ rw f (
            IsSound-error hook_not_found t
              (λ x. absurd (let h' : hook_not_found ≡ unique_violation = x in cc)) k)
      ]))
]

All-remaining :
    (P : Row → Type 0) (p : Row → Bool) (rows : List Row) → All P rows → All P (remaining p rows)
unfolding remaining
All-remaining P p [] h = tt
All-remaining P p (r ∷ rows) h = elim (Bool-cases (p r)) [
  | inl e ↦ rw e (h.0, All-remaining P p rows h.1)
  | inr e ↦ rw e (All-remaining P p rows h.1)
]

-- Fewer rows.
map-row_id-All :
    (P : ℕ → Type 0) (rows : List Row) → All (λ r. P r.hook.id) rows ↔ All P (map row_id rows)
map-row_id-All P [] = ((λ h. h), (λ h. h))
map-row_id-All P (r ∷ rows) =
    ((λ h. (h.0, (map-row_id-All P rows).0 h.1)), (λ h. (h.0, (map-row_id-All P rows).1 h.1)))

pub remaining-IsDistinct :
    (p : Row → Bool) (rows : List Row)
    → IsDistinct (map row_id rows)
    → IsDistinct (map row_id (remaining p rows))
unfolding remaining
remaining-IsDistinct p [] d = d
remaining-IsDistinct p (r ∷ rows) d = elim (Bool-cases (p r)) [
  | inl e ↦ rw e (
    any_none _ (map row_id (remaining p rows)) (
        (map-row_id-All (λ x. (r.hook.id == x) ≡ false) (remaining p rows)).0 (
          All-remaining (λ s. (r.hook.id == s.hook.id) ≡ false) p rows
            ((map-row_id-All (λ x. (r.hook.id == x) ≡ false) rows).1
              (none_any _ (map row_id rows) d.0)))),
    remaining-IsDistinct p rows d.1,
  )
  | inr e ↦ rw e (remaining-IsDistinct p rows d.1)
]

remaining-IsHookTable :
    (p : Row → Bool) (t : HookTable)
    → IsHookTable t
    → IsHookTable (record t { rows = remaining p t.rows })
remaining-IsHookTable p t (d, below, places) = (
  remaining-IsDistinct p t.rows d,
  (map-row_id-All (λ x. x < t.next_id) (remaining p t.rows)).0 (
      All-remaining (λ r. r.hook.id < t.next_id) p t.rows
        ((map-row_id-All (λ x. x < t.next_id) t.rows).1 below)),
  All-remaining (λ r. is_pos r.position ≡ true) p t.rows places,
)

delete_hook-IsHookTable : (id : ℕ) (t : HookTable) → IsHookTable t → IsHookTable (delete_hook id t)
unfolding delete_hook
delete_hook-IsHookTable id t k = remaining-IsHookTable (λ r. not (r.hook.id == id)) t k

delete_hooks_for_site-IsHookTable :
    (site : String) (t : HookTable) → IsHookTable t → IsHookTable (delete_hooks_for_site site t)
unfolding delete_hooks_for_site
delete_hooks_for_site-IsHookTable site t k =
    remaining-IsHookTable (λ r. not (str_eq r.hook.site_id site)) t k

pub data StoreCall : Type 0 where
  add update : Hook → StoreCall
  delete : ℕ → StoreCall
  delete_site : String → StoreCall
  reorder : String → String → List ℕ → StoreCall

module _ (site_exists : String → Bool) (now : String) where
  abbrev run_call : StoreCall → HookTable → Option StoreError × HookTable
  run_call (add h) t = add_hook site_exists h now t
  run_call (update h) t = update_hook h now t
  run_call (delete id) t = (none, delete_hook id t)
  run_call (delete_site site) t = (none, delete_hooks_for_site site t)
  run_call (reorder site event ids) t = reorder_hooks site event ids now t

  -- The errors of calls made one after another, and the table they leave.
  abbrev pub run_calls : List StoreCall → HookTable → List (Option StoreError) × HookTable
  run_calls [] t = ([], t)
  run_calls (c ∷ calls) t =
      let result = run_call c t in
      let rest = run_calls calls result.1 in (result.0 ∷ rest.0, rest.1)

-- A new order lists no identifier twice.
abbrev pub IsProper : StoreCall → Type 0
IsProper (reorder site event ids) = IsDistinct ids
IsProper (add h) = Unit {0}
IsProper (update h) = Unit {0}
IsProper (delete id) = Unit {0}
IsProper (delete_site site) = Unit {0}

run_call-IsSound :
    (site_exists : String → Bool) (now : String) (c : StoreCall) (t : HookTable)
    → IsProper c
    → IsHookTable t
    → IsSound (run_call site_exists now c t)
run_call-IsSound site_exists now (add h) t p k = add_hook-IsSound site_exists h now t k
run_call-IsSound site_exists now (update h) t p k = update_hook-IsSound h now t k
run_call-IsSound site_exists now (delete id) t p k =
    IsSound-done (delete_hook id t) (delete_hook-IsHookTable id t k)
run_call-IsSound site_exists now (delete_site site) t p k =
    IsSound-done (delete_hooks_for_site site t) (delete_hooks_for_site-IsHookTable site t k)
run_call-IsSound site_exists now (reorder site event ids) t p k =
    reorder_hooks-IsSound site event ids now t k p

run_calls-IsHookTable :
    (site_exists : String → Bool) (now : String) (calls : List StoreCall) (t : HookTable)
    → All IsProper calls
    → IsHookTable t
    → All (λ e. e ≢ some unique_violation) (run_calls site_exists now calls t).0
      × IsHookTable (run_calls site_exists now calls t).1
run_calls-IsHookTable site_exists now [] t p k = (tt, k)
run_calls-IsHookTable site_exists now (c ∷ calls) t p k =
    let (fine, k') = run_call-IsSound site_exists now c t p.0 k in
    let (rest, k'') =
      run_calls-IsHookTable site_exists now calls (run_call site_exists now c t).1 p.1 k' in
    ((fine, rest), k'')

abbrev pub empty_table : HookTable
empty_table = record { rows = []; next_id = 1 }

-- From the empty table, whichever hooks are added, updated and deleted, of whichever sites and events, and
-- in whichever orders they are put, each list of an order naming no identifier twice: no call ends in the
-- error of UNIQUE(site_id, event, position), and afterwards the identifiers of the rows are different,
-- below the next one, and no position is negative.
pub run_calls_sound :
    (site_exists : String → Bool) (now : String) (calls : List StoreCall)
    → All IsProper calls
    → All (λ e. e ≢ some unique_violation) (run_calls site_exists now calls empty_table).0
      × IsHookTable (run_calls site_exists now calls empty_table).1
run_calls_sound site_exists now calls p =
    run_calls-IsHookTable site_exists now calls empty_table p (tt, tt, tt)
