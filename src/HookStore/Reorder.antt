-- ===== src/HookStore/Reorder.antt =====
-- internal/storage/hooks.go: ReorderHooks on a table whose rows have identifiers and places of their own.
use locorum.Common.{
  ℕ, ◌<◌, ◌≡◌, ◌≢◌, refl, sym, ap, ◌∙◌, not, true, false, Option, none, some, List, [], ◌∷◌, map,
  length, ◌==◌, String, inl, inr, Bool-cases, All, ◌>>=◌, arith,
}
use mathlib.Core.Path.{subst}
use mathlib.Core.List.{Mem}
use locorum.HookStore.{
  Row, HookTable, StoreError, unique_violation, count_mismatch, foreign_id, any, in_group, park,
  assign, group_ids, is_listed, committed, reorder_hooks,
}
use locorum.HookStore.Members.{All-imply, IsDistinct, Within}
use locorum.HookStore.Pass.{row_id}
use locorum.HookStore.Passes.{
  IsHookTable, at_position, at_position_pos, IsFramed, IsFramed-start, park_lem, assign_lem,
}
use locorum.HookStore.Groups.{Within-checked}

-- The rows of the group stand where the list has their identifiers, the others are as they were, and a
-- listed row is of the group.
abbrev pub IsOrdered : String → String → List ℕ → List Row → List Row → Type 0
IsOrdered site event ids rows rows' =
    All
      (λ r.
        (in_group site event r ≡ true → at_position ids r.position ≡ some r.hook.id)
        × (in_group site event r ≡ false → Mem r rows)
        × (is_listed r.hook.id ids ≡ true → in_group site event r ≡ true))
      rows'
    × (map row_id rows' ≡ map row_id rows)

not_listed_none : (xs ys : List ℕ) → Within xs ys → any (λ x. not (is_listed x ys)) xs ≡ false
not_listed_none [] ys w = refl
not_listed_none (x ∷ xs) ys w = rw (w.0) (not_listed_none xs ys w.1)

-- The checks let a list of the group's identifiers through.
reorder_hooks-committed :
    (site event : String) (ids : List ℕ) (now : String) (t : HookTable)
    → Within ids (group_ids site event t.rows)
    → length ids ≡ length (group_ids site event t.rows)
    → reorder_hooks site event ids now t
      ≡ committed t (do rows ← park now 0 ids t.rows; assign 0 ids rows)
unfolding reorder_hooks
reorder_hooks-committed site event [] now t w same = refl
reorder_hooks-committed site event (id ∷ ids) now t w same =
    let e : (length (group_ids site event t.rows) == length (id ∷ ids)) ≡ true = ground arith in
    rw (e, not_listed_none (id ∷ ids) _ w) refl

-- On a table, `ReorderHooks` with the identifiers of a group, each once, in any order gives no error: each
-- row of the group gets the position at which the list has its identifier, the other rows are as they
-- were, and the identifiers stay; no row is left with a negative position.
pub reorder_hooks_lem :
    (site event : String) (ids : List ℕ) (now : String) (t : HookTable)
    → IsHookTable t
    → IsDistinct ids
    → Within ids (group_ids site event t.rows)
    → length ids ≡ length (group_ids site event t.rows)
    → (t' : HookTable) × (reorder_hooks site event ids now t ≡ (none, t'))
      × IsOrdered site event ids t.rows t'.rows
      × IsHookTable t'
reorder_hooks_lem site event ids now t (d, below, places) d' w same =
    let framed : All (IsFramed site event ids t.rows) t.rows =
      IsFramed-start site event ids t.rows d places d' w same in
    let (rows', parked, good, kept) = park_lem site event ids t.rows now framed places in
    let (rows'', assigned, good', kept') = assign_lem site event ids t.rows rows' good in
    let ids_same : map row_id rows'' ≡ map row_id t.rows = kept' ∙ kept in
    (
      record t { rows = rows'' },
      reorder_hooks-committed site event ids now t w same
          ∙ ap (λ o. committed t (o >>= assign 0 ids)) parked
          ∙ ap (committed t) assigned,
      (All-imply _ _ rows'' (λ r ((own, cover, old, place), at). (at, old, own)) good', ids_same),
      (
        subst IsDistinct (sym ids_same) d,
        subst (All (λ x. x < t.next_id)) (sym ids_same) below,
        All-imply _ _ rows''
            (λ r ((own, cover, old, place), at). elim (Bool-cases (in_group site event r)) [
              | inl g ↦ at_position_pos ids r.position r.hook.id (at g)
              | inr g ↦ place g
            ])
            good',
      ),
    )

-- The constraint held, and a table is left.
abbrev pub IsSound : Option StoreError × HookTable → Type 0
IsSound (e, t) = (e ≢ some unique_violation) × IsHookTable t

pub IsSound-error :
    (e : StoreError) (t : HookTable) → e ≢ unique_violation → IsHookTable t → IsSound (some e, t)
IsSound-error e t ne h = ((λ x. ne (ap (λ o. elim o [ some y ↦ y | none ↦ e ]) x)), h)

pub IsSound-done : (t : HookTable) → IsHookTable t → IsSound (none, t)
IsSound-done t h = ((λ x. absurd (let h' : none ≡ some unique_violation = x in cc)), h)

-- Whatever identifiers are listed, each once, `ReorderHooks` does not break the constraint, and leaves a
-- table.
pub reorder_hooks-IsSound :
    (site event : String) (ids : List ℕ) (now : String) (t : HookTable)
    → IsHookTable t
    → IsDistinct ids
    → IsSound (reorder_hooks site event ids now t)
unfolding reorder_hooks
reorder_hooks-IsSound site event [] now t h d = IsSound-done t h
reorder_hooks-IsSound site event (id ∷ ids) now t h d =
    elim (Bool-cases (length (group_ids site event t.rows) == length (id ∷ ids))) [
      | inr e ↦ rw e (
          IsSound-error count_mismatch t
            (λ x. absurd (let h' : count_mismatch ≡ unique_violation = x in cc)) h)
      | inl e ↦
          elim (Bool-cases
            (any (λ x. not (is_listed x (group_ids site event t.rows))) (id ∷ ids))) [
              | inl f ↦
                  rw (e, f)
                    (IsSound-error foreign_id t
                      (λ x. absurd (let h' : foreign_id ≡ unique_violation = x in cc)) h)
              | inr f ↦
                  let (t', done, ordered, kept) =
                    reorder_hooks_lem site event (id ∷ ids) now t h d
                      (Within-checked (id ∷ ids) (group_ids site event t.rows) f) (ground arith) in
                  subst IsSound (sym done) (IsSound-done t' kept)
            ]
    ]
