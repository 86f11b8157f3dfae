-- ===== src/HookStore/Standing.antt =====
-- internal/storage/hooks.go: sorted rows that stand where a list has their identifiers.
use locorum.Common.{
  ℕ, suc, ◌-◌, ◌≤◌, ◌≡◌, refl, sym, ap, ◌∙◌, true, false, none, some, List, [], ◌∷◌, map, length,
  ◌==◌, ==_iff, inl, inr, Bool-cases, All, get_elem?, arith,
}
use locorum.Common.Int.{pos}
use locorum.HookStore.{Row, at_most}
use locorum.HookStore.Members.{All-imply, All-both, IsDistinct}
use locorum.HookStore.Pass.{row_id}
use locorum.HookStore.Groups.{All-differ}
use locorum.HookStore.Sorted.{IsSorted}

-- A row has the position, counted from an index, at which a list has its identifier.
abbrev pub IsStanding : ℕ → List ℕ → Row → Type 0
IsStanding i ids r =
    (n : ℕ) × (r.position ≡ pos n) × (i ≤ n) × (get_elem? ids (n - i) ≡ some r.hook.id)

some_inj : (x y : ℕ) → some x ≡ some y → x ≡ y
some_inj x y e = ap (λ o. elim o [ some z ↦ z | none ↦ x ]) e

-- A row after another, with another identifier, stands in the rest of the list.
IsStanding-after :
    (x i : ℕ) (xs : List ℕ) (r s : Row)
    → IsStanding i (x ∷ xs) r
    → IsStanding i (x ∷ xs) s
    → at_most r.position s.position ≡ true
    → (s.hook.id == r.hook.id) ≡ false
    → IsStanding (suc i) xs s
IsStanding-after x i xs r s (n, at, le, here) (m, at', le', there) order differ =
    let n≤m : n ≤ m = let order' = rw (at, at') at order in ground arith in
    let lt : suc n ≤ m = elim (Bool-cases (m == n)) [
      | inl e ↦
          let same : s.hook.id ≡ r.hook.id =
            some_inj s.hook.id r.hook.id
              (sym there ∙ ap (λ k. get_elem? (x ∷ xs) (k - i)) ((==_iff m n).0 e) ∙ here) in
          absurd (ground arith)
      | inr e ↦ ground arith
    ] in
    let place : suc (m - suc i) ≡ m - i = omega (arith, lt, le) in
    (m, at', omega (arith, lt, le), ap (get_elem? (x ∷ xs)) place ∙ there)

-- Sorted rows that stand in a list are no more than it, and all of it if they are as many.
pub row_ids-IsStanding :
    (ids : List ℕ) (i : ℕ) (rows : List Row)
    → IsSorted rows
    → IsDistinct (map row_id rows)
    → All (IsStanding i ids) rows
    → (length rows ≤ length ids) × (length ids ≤ length rows → map row_id rows ≡ ids)
row_ids-IsStanding [] i [] sorted d st = (omega arith, (λ h. refl))
row_ids-IsStanding [] i (r ∷ rows) sorted d ((n, at, le, here), st) =
    absurd (let h' : none ≡ some r.hook.id = here in cc)
row_ids-IsStanding (x ∷ xs) i [] sorted d st = (omega arith, (λ h. absurd (omega (arith, h))))
row_ids-IsStanding (x ∷ xs) i (r ∷ rows) sorted d (st_r, st) =
    let later : All (IsStanding (suc i) xs) rows =
      All-imply
        (λ s.
          (at_most r.position s.position ≡ true)
          × (IsStanding i (x ∷ xs) s × ((s.hook.id == r.hook.id) ≡ false)))
        _ rows (λ s (order, (st_s, differ)). IsStanding-after x i xs r s st_r st_s order differ)
        (All-both _ _ rows sorted.0 (All-both _ _ rows st (All-differ r.hook.id rows d.0))) in
    let (n, at, le, here) = st_r in
    elim (Bool-cases (n == i)) [
      | inl e ↦
          let start : 0 ≡ n - i = ground arith in
          let same : x ≡ r.hook.id = some_inj x r.hook.id (ap (get_elem? (x ∷ xs)) start ∙ here) in
          let (bound, full) = row_ids-IsStanding xs (suc i) rows sorted.1 d.1 later in
          (
            omega (arith, bound),
            (λ h.
                ap (λ y. y ∷ map row_id rows) (sym same)
                ∙ ap (λ ys. x ∷ ys) (full (omega (arith, h)))),
          )
      | inr e ↦
          let lt : suc i ≤ n = ground arith in
          let place : suc (n - suc i) ≡ n - i = omega (arith, lt) in
          let st_r' : IsStanding (suc i) xs r = (n, at, lt, ap (get_elem? (x ∷ xs)) place ∙ here) in
          let (bound, full) = row_ids-IsStanding xs (suc i) (r ∷ rows) sorted d (st_r', later) in
          (omega (arith, bound), (λ h. absurd (omega (arith, bound, h))))
    ]
