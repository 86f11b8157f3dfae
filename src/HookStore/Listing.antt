-- ===== src/HookStore/Listing.antt =====
-- internal/storage/hooks.go: what ListHooksByEvent lists after ReorderHooks.
use locorum.Common.{
  ℕ, suc, ◌-◌, ◌≤◌, ◌≡◌, refl, sym, ap, ◌∙◌, Bool, true, false, none, some, List, [], ◌∷◌, map,
  length, ◌==◌, ==_iff, String, inl, inr, Bool-cases, All, get_elem?, arith,
}
use mathlib.Core.Path.{subst}
use locorum.Common.Int.{ℤ, pos, negsuc}
use locorum.HookStore.{
  Row, HookTable, in_group, by_position, remaining, list_hooks_by_event, group_ids, is_listed,
  reorder_hooks,
}
use locorum.HookStore.Members.{All-imply, All-both, IsDistinct, Within, length-Within}
use locorum.HookStore.Pass.{row_id}
use locorum.HookStore.Passes.{IsHookTable, at_position}
use locorum.HookStore.Groups.{is_listed-group_ids_none}
use locorum.HookStore.Sorted.{
  by_position-All, by_position-IsSorted, is_listed-by_position, by_position-IsDistinct,
}
use locorum.HookStore.Standing.{IsStanding, row_ids-IsStanding}
use locorum.HookStore.Reorder.{IsOrdered, reorder_hooks_lem}
use locorum.HookStore.Session.{remaining-IsDistinct}

at_position-pos :
    (ids : List ℕ) (p : ℤ) (x : ℕ)
    → at_position ids p ≡ some x
    → (n : ℕ) × (p ≡ pos n) × (0 ≤ n) × (get_elem? ids (n - 0) ≡ some x)
at_position-pos ids (pos n) x h =
    let same : n - 0 ≡ n = omega arith in (n, refl, omega arith, ap (get_elem? ids) same ∙ h)
at_position-pos ids (negsuc n) x h = absurd (let h' : none ≡ some x = h in cc)

remaining-All :
    (P : Row → Type 0) (p : Row → Bool) (rows : List Row)
    → All (λ r. p r ≡ true → P r) rows
    → All P (remaining p rows)
unfolding remaining
remaining-All P p [] h = tt
remaining-All P p (r ∷ rows) h = elim (Bool-cases (p r)) [
  | inl e ↦ rw e (h.0 e, remaining-All P p rows h.1)
  | inr e ↦ rw e (remaining-All P p rows h.1)
]

-- An identifier remains if the rows with it do.
is_listed-remaining :
    (p : Row → Bool) (x : ℕ) (rows : List Row)
    → All (λ r. (x == r.hook.id) ≡ true → p r ≡ true) rows
    → is_listed x (map row_id rows) ≡ true
    → is_listed x (map row_id (remaining p rows)) ≡ true
unfolding remaining
is_listed-remaining p x [] h k = k
is_listed-remaining p x (r ∷ rows) h k = elim (Bool-cases (x == r.hook.id)) [
  | inl e ↦ rw (h.0 e, e) refl
  | inr e ↦
      let rest = is_listed-remaining p x rows h.1 (rw e at k) in
      elim (Bool-cases (p r)) [ inl f ↦ rw (f, e) rest | inr f ↦ rw f rest ]
]

length-row_ids : (rows : List Row) → length (map row_id rows) ≡ length rows
length-row_ids [] = refl
length-row_ids (r ∷ rows) = ap suc (length-row_ids rows)

Within-cons : (y : ℕ) (xs ys : List ℕ) → Within xs ys → Within xs (y ∷ ys)
Within-cons y [] ys w = tt
Within-cons y (x ∷ xs) ys w = elim (Bool-cases (x == y)) [
  | inl e ↦ (rw e refl, Within-cons y xs ys w.1)
  | inr e ↦ (rw e (w.0), Within-cons y xs ys w.1)
]

Within-self : (xs : List ℕ) → Within xs xs
Within-self [] = tt
Within-self (x ∷ xs) =
    let self : (x == x) ≡ true = ground arith in
    (rw self refl, Within-cons x xs xs (Within-self xs))

-- A listed identifier of a group is among those of its rows after the order.
is_listed-IsOrdered :
    (site event : String) (ids : List ℕ) (rows rows' : List Row) (x : ℕ)
    → IsOrdered site event ids rows rows'
    → is_listed x ids ≡ true
    → is_listed x (group_ids site event rows) ≡ true
    → is_listed x (map row_id (by_position (remaining (in_group site event) rows'))) ≡ true
is_listed-IsOrdered site event ids rows rows' x (ordered, same) h k =
    let before : is_listed x (map row_id rows) ≡ true =
      elim (Bool-cases (is_listed x (map row_id rows))) [
        | inl e ↦ e
        | inr e ↦
            absurd
              (let h' : true ≡ false = sym k ∙ is_listed-group_ids_none site event x rows e in cc)
      ] in
    is_listed-by_position x (remaining (in_group site event) rows')
    ∙ is_listed-remaining (in_group site event) x rows'
        (All-imply _ _ rows'
          (λ r (at, old, own) e.
            own (ap (λ y. is_listed y ids) (sym ((==_iff x r.hook.id).0 e)) ∙ h))
          ordered)
        (ap (is_listed x) same ∙ before)

-- The rows that an order leaves are listed as it says.
list_hooks_by_event-IsOrdered :
    (site event : String) (ids : List ℕ) (rows : List Row) (t : HookTable)
    → IsDistinct (map row_id rows)
    → IsDistinct ids
    → Within ids (group_ids site event rows)
    → IsOrdered site event ids rows t.rows
    → map row_id (list_hooks_by_event site event t) ≡ ids
unfolding list_hooks_by_event
list_hooks_by_event-IsOrdered site event ids rows t d d' within (ordered, same) =
    let group = remaining (in_group site event) t.rows in
    let standing : All (IsStanding 0 ids) (by_position group) =
      by_position-All (IsStanding 0 ids) group (
        remaining-All (IsStanding 0 ids) (in_group site event) t.rows (
          All-imply _ _ t.rows
            (λ r (at, old, own) g. at_position-pos ids r.position r.hook.id (at g)) ordered)) in
    let distinct : IsDistinct (map row_id (by_position group)) =
      by_position-IsDistinct group
        (remaining-IsDistinct (in_group site event) t.rows (subst IsDistinct (sym same) d)) in
    let (bound, full) =
      row_ids-IsStanding ids 0 (by_position group) (by_position-IsSorted group) distinct standing in
    let present : Within ids (map row_id (by_position group)) =
      All-imply _ _ ids
        (λ x (listed, known).
          is_listed-IsOrdered site event ids rows t.rows x (ordered, same) listed known)
        (All-both _ _ ids (Within-self ids) within) in
    full (
      subst (λ n. length ids ≤ n) (length-row_ids (by_position group))
        (length-Within ids (map row_id (by_position group)) d' present))

-- On a table, `ReorderHooks` with the identifiers of a group, each once, in any order gives no error:
-- afterwards `ListHooksByEvent` lists the hooks of the group in that order, the rows outside the group are
-- as they were, no identifier is lost, and no row is left with a negative position.
pub list_hooks_by_event-reorder_hooks :
    (site event : String) (ids : List ℕ) (now : String) (t : HookTable)
    → IsHookTable t
    → IsDistinct ids
    → Within ids (group_ids site event t.rows)
    → length ids ≡ length (group_ids site event t.rows)
    → (t' : HookTable) × (reorder_hooks site event ids now t ≡ (none, t'))
      × (map row_id (list_hooks_by_event site event t') ≡ ids)
      × IsOrdered site event ids t.rows t'.rows
      × IsHookTable t'
list_hooks_by_event-reorder_hooks site event ids now t k d within same =
    let (t', done, ordered, k') = reorder_hooks_lem site event ids now t k d within same in
    (
      t',
      done,
      list_hooks_by_event-IsOrdered site event ids t.rows t' k.0 d within ordered,
      ordered,
      k',
    )
