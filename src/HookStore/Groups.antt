-- ===== src/HookStore/Groups.antt =====
-- internal/storage/hooks.go: the identifiers of the rows of a group, where no two rows share one.
use locorum.Common.{
  ℕ, ◌≡◌, refl, sym, ap, ◌∙◌, not, true, false, List, [], ◌∷◌, map, ◌==◌, ==_iff, String, inl, inr,
  Bool-cases, All, arith,
}
use locorum.HookStore.{Row, any, in_group, group_ids, is_listed}
use locorum.HookStore.Members.{All-imply, IsDistinct, Within, All-both}
use locorum.HookStore.Pass.{row_id}

pub is_listed-Within_step :
    (xs ys : List ℕ) (z : ℕ) → Within xs ys → is_listed z xs ≡ true → is_listed z ys ≡ true
is_listed-Within_step [] ys z w h = cc
is_listed-Within_step (x ∷ xs) ys z w h = elim (Bool-cases (z == x)) [
  | inl e ↦ ap (λ y. is_listed y ys) ((==_iff z x).0 e) ∙ w.0
  | inr e ↦ is_listed-Within_step xs ys z w.1 (rw e at h)
]

pub Within-checked : (xs ys : List ℕ) → any (λ x. not (is_listed x ys)) xs ≡ false → Within xs ys
Within-checked [] ys h = tt
Within-checked (x ∷ xs) ys h = elim (Bool-cases (is_listed x ys)) [
  | inl e ↦ (e, Within-checked xs ys (rw e at h))
  | inr e ↦ absurd (let h' : true ≡ false = rw e at h in cc)
]

-- An identifier that no row has is that of no row of a group.
pub is_listed-group_ids_none :
    (site event : String) (x : ℕ) (rows : List Row)
    → is_listed x (map row_id rows) ≡ false
    → is_listed x (group_ids site event rows) ≡ false
unfolding group_ids
is_listed-group_ids_none site event x [] h = refl
is_listed-group_ids_none site event x (r ∷ rows) h = elim (Bool-cases (x == r.hook.id)) [
  | inl e ↦ absurd (let h' : true ≡ false = rw e at h in cc)
  | inr e ↦
      let rest : is_listed x (group_ids site event rows) ≡ false =
        is_listed-group_ids_none site event x rows (rw e at h) in
      elim (Bool-cases (in_group site event r)) [ inl g ↦ rw (g, e) rest | inr g ↦ rw g rest ]
]

-- The rows differ from an identifier that none has.
pub All-differ :
    (x : ℕ) (rows : List Row)
    → is_listed x (map row_id rows) ≡ false
    → All (λ r. (r.hook.id == x) ≡ false) rows
All-differ x [] h = tt
All-differ x (r ∷ rows) h = elim (Bool-cases (x == r.hook.id)) [
  | inl e ↦ absurd (let h' : true ≡ false = rw e at h in cc)
  | inr e ↦ (ground arith, All-differ x rows (rw e at h))
]

module _ (site event : String) where
  -- Every row of a group has an identifier of the group.
  pub group_ids-All :
      (rows : List Row)
      → All
          (λ r.
            in_group site event r ≡ true → is_listed r.hook.id (group_ids site event rows) ≡ true)
          rows
  unfolding group_ids
  group_ids-All [] = tt
  group_ids-All (r ∷ rows) = elim (Bool-cases (in_group site event r)) [
    | inl g ↦
        let self : (r.hook.id == r.hook.id) ≡ true = ground arith in
        (
          (λ h. rw (g, self) refl),
          All-imply
              (λ s.
                in_group site event s ≡ true
                → is_listed s.hook.id (group_ids site event rows) ≡ true)
              _ rows
              (λ s f h. elim (Bool-cases (s.hook.id == r.hook.id)) [
                | inl e ↦ rw (g, e) refl
                | inr e ↦ rw (g, e) (f h)
              ])
              (group_ids-All rows),
        )
    | inr g ↦ (
      (λ h. absurd (let h' : true ≡ false = sym h ∙ g in cc)),
      All-imply
          (λ s.
            in_group site event s ≡ true → is_listed s.hook.id (group_ids site event rows) ≡ true)
          _ rows (λ s f h. rw g (f h)) (group_ids-All rows),
    )
  ]

  -- A row with an identifier of a group is of the group.
  pub group_ids-own :
      (rows : List Row)
      → IsDistinct (map row_id rows)
      → All
          (λ r.
            is_listed r.hook.id (group_ids site event rows) ≡ true → in_group site event r ≡ true)
          rows
  unfolding group_ids
  group_ids-own [] d = tt
  group_ids-own (r ∷ rows) d =
      let no : is_listed r.hook.id (group_ids site event rows) ≡ false =
        is_listed-group_ids_none site event r.hook.id rows d.0 in
      elim (Bool-cases (in_group site event r)) [
        | inl g ↦ (
          (λ h. g),
          All-imply
              (λ s.
                (is_listed s.hook.id (group_ids site event rows) ≡ true
                  → in_group site event s ≡ true)
                × ((s.hook.id == r.hook.id) ≡ false))
              _ rows (λ s (own, e) h. own (rw (g, e) at h))
              (All-both _ _ rows (group_ids-own rows d.1) (All-differ r.hook.id rows d.0)),
        )
        | inr g ↦ (
          (λ h. absurd (let h' : true ≡ false = sym (rw g at h) ∙ no in cc)),
          All-imply
              (λ s.
                is_listed s.hook.id (group_ids site event rows) ≡ true
                → in_group site event s ≡ true)
              _ rows (λ s own h. own (rw g at h)) (group_ids-own rows d.1),
        )
      ]
