-- ===== src/HookStore/Passes.antt =====
-- internal/storage/hooks.go: the two passes of ReorderHooks, on rows with places of their own.
use locorum.Common.{
  ℕ, suc, ◌+◌, ◌<◌, ◌≡◌, refl, sym, ap, ◌∙◌, Bool, true, false, Option, none, some, List, [], ◌∷◌,
  map, length, ltb, String, inl, All, get_elem?, arith,
}
use mathlib.Core.List.{Mem, mem-cons_self, mem-cons_of_mem}
use locorum.Common.Int.{ℤ, pos, negsuc}
use locorum.HookStore.{Row, HookTable, in_group, eq_position, park, assign, group_ids, is_listed}
use locorum.HookStore.Members.{All-imply, All-both, IsDistinct, Within, is_listed-Within}
use locorum.HookStore.Pass.{
  moved, row_id, touched_id, in_group-moved, park-pass, assign-pass, Aims, pass_lem,
}
use locorum.HookStore.Groups.{is_listed-Within_step, group_ids-All, group_ids-own}

-- Positions of a transaction that has parked fewer rows than a number: not negative, or -1, -2, …
abbrev is_over : ℕ → ℤ → Bool
is_over i (pos n) = true
is_over i (negsuc n) = ltb n i

-- Positions of a transaction that has assigned fewer places than a number: negative, or 0, 1, …
abbrev is_below : ℕ → ℤ → Bool
is_below i (pos n) = ltb n i
is_below i (negsuc n) = true

abbrev pub is_pos : ℤ → Bool
is_pos (pos n) = true
is_pos (negsuc n) = false

abbrev is_neg : ℤ → Bool
is_neg (pos n) = false
is_neg (negsuc n) = true

-- The identifier that a list has at a position.
abbrev pub at_position : List ℕ → ℤ → Option ℕ
at_position ids (pos n) = get_elem? ids n
at_position ids (negsuc n) = none

-- The rows have different identifiers, all given out before, and no row is parked.
abbrev pub IsHookTable : HookTable → Type 0
IsHookTable t =
    IsDistinct (map row_id t.rows)
    × All (λ x. x < t.next_id) (map row_id t.rows)
    × All (λ r. is_pos r.position ≡ true) t.rows

over_clash : (i : ℕ) (p : ℤ) → is_over i p ≡ true → eq_position p (negsuc i) ≡ false
over_clash i (pos n) h = refl
over_clash i (negsuc n) h = ground arith

over_suc : (i : ℕ) (p : ℤ) → is_over i p ≡ true → is_over (suc i) p ≡ true
over_suc i (pos n) h = refl
over_suc i (negsuc n) h = ground arith

below_clash : (i : ℕ) (p : ℤ) → is_below i p ≡ true → eq_position p (pos i) ≡ false
below_clash i (pos n) h = ground arith
below_clash i (negsuc n) h = refl

below_suc : (i : ℕ) (p : ℤ) → is_below i p ≡ true → is_below (suc i) p ≡ true
below_suc i (pos n) h = ground arith
below_suc i (negsuc n) h = refl

pos_over : (p : ℤ) → is_pos p ≡ true → is_over 0 p ≡ true
pos_over (pos n) h = refl
pos_over (negsuc n) h = absurd (let h' : true ≡ false = sym h in cc)

neg_below : (p : ℤ) → is_neg p ≡ true → is_below 0 p ≡ true
neg_below (pos n) h = absurd (let h' : true ≡ false = sym h in cc)
neg_below (negsuc n) h = refl

pub at_position_pos : (ids : List ℕ) (p : ℤ) (x : ℕ) → at_position ids p ≡ some x → is_pos p ≡ true
at_position_pos ids (pos n) x h = refl
at_position_pos ids (negsuc n) x h = absurd (let h' : none ≡ some x = h in cc)

All-Mem : {A : Type 0} (P : A → Type 0) (xs : List A) → ((x : A) → Mem x xs → P x) → All P xs
All-Mem P [] f = tt
All-Mem P (x ∷ xs) f = (f x mem-cons_self, All-Mem P xs (λ y m. f y (mem-cons_of_mem x m)))

Aims-parked : (i : ℕ) (ids : List ℕ) → Aims negsuc (λ id p. is_neg p ≡ true) i ids
Aims-parked i [] = tt
Aims-parked i (id ∷ ids) = (refl, Aims-parked (suc i) ids)

Aims-assigned :
    (all : List ℕ) (i : ℕ) (ids : List ℕ)
    → ((n : ℕ) → get_elem? all (n + i) ≡ get_elem? ids n)
    → Aims pos (λ id p. at_position all p ≡ some id) i ids
Aims-assigned all i [] same = tt
Aims-assigned all i (id ∷ ids) same = (
  ap (get_elem? all) (omega arith) ∙ same 0,
  Aims-assigned all (suc i) ids (λ n. ap (get_elem? all) (omega arith) ∙ same (suc n)),
)

module _ (site event : String) (ids : List ℕ) (rows : List Row) where
  -- What both passes keep of a row.
  abbrev pub IsFramed : Row → Type 0
  IsFramed r =
      (is_listed r.hook.id ids ≡ true → in_group site event r ≡ true)
      × (in_group site event r ≡ true → is_listed r.hook.id ids ≡ true)
      × (in_group site event r ≡ false → Mem r rows)
      × (in_group site event r ≡ false → is_pos r.position ≡ true)

  IsFramed-moved :
      (now : Option String) (r : Row) (p : ℤ)
      → in_group site event r ≡ true
      → IsFramed r
      → IsFramed (moved p now r)
  IsFramed-moved now r p g (own, cover, old, place) =
      let same : in_group site event (moved p now r) ≡ true =
        in_group-moved site event now r p ∙ g in
      (
        (λ m. same),
        (λ h. ap (λ x. is_listed x ids) (touched_id now r.hook) ∙ cover g),
        (λ h. absurd (let h' : true ≡ false = sym same ∙ h in cc)),
        (λ h. absurd (let h' : true ≡ false = sym same ∙ h in cc)),
      )

  pub IsFramed-start :
      IsDistinct (map row_id rows)
      → All (λ r. is_pos r.position ≡ true) rows
      → IsDistinct ids
      → Within ids (group_ids site event rows)
      → length ids ≡ length (group_ids site event rows)
      → All IsFramed rows
  IsFramed-start d places d' within same =
      let facts = All-both _ _ rows (group_ids-own site event rows d) (
        All-both _ _ rows (group_ids-All site event rows)
          (All-both (λ r. Mem r rows) _ rows (All-Mem (λ r. Mem r rows) rows (λ r m. m)) places)) in
      All-imply _ IsFramed rows
        (λ r (own, (cover, (old, place))). (
          (λ m. own (is_listed-Within_step ids (group_ids site event rows) r.hook.id within m)),
          (λ g.
              is_listed-Within ids (group_ids site event rows) r.hook.id d' within same (cover g)),
          (λ g. old),
          (λ g. place),
        ))
        facts

  pub park_lem :
      (now : String)
      → All IsFramed rows
      → All (λ r. is_pos r.position ≡ true) rows
      → (rows' : List Row) × (park now 0 ids rows ≡ some rows')
        × All (λ r. IsFramed r × (in_group site event r ≡ true → is_neg r.position ≡ true)) rows'
        × (map row_id rows' ≡ map row_id rows)
  park_lem now framed places =
      let (rows', done, good, same) =
        pass_lem site event negsuc (some now) (λ i p. is_over i p ≡ true) (λ id p. is_neg p ≡ true)
          IsFramed over_clash over_suc (λ i. ground arith) (IsFramed-moved (some now)) 0 ids rows
          (Aims-parked 0 ids)
          (All-imply (λ r. IsFramed r × (is_pos r.position ≡ true)) _ rows
            (λ r (framed_r, place).
              (framed_r, framed_r.0, (λ g. pos_over r.position place), (λ g. inl (framed_r.1 g))))
            (All-both _ _ rows framed places)) in
      (rows', park-pass now 0 ids rows ∙ done, good, same)

  pub assign_lem :
      (rows' : List Row)
      → All (λ r. IsFramed r × (in_group site event r ≡ true → is_neg r.position ≡ true)) rows'
      → (rows'' : List Row) × (assign 0 ids rows' ≡ some rows'')
        × All
            (λ r.
              IsFramed r
              × (in_group site event r ≡ true → at_position ids r.position ≡ some r.hook.id))
            rows''
        × (map row_id rows'' ≡ map row_id rows')
  assign_lem rows' parked =
      let (rows'', done, good, same) =
        pass_lem site event pos none (λ i p. is_below i p ≡ true)
          (λ id p. at_position ids p ≡ some id) IsFramed below_clash below_suc (λ i. ground arith)
          (IsFramed-moved none) 0 ids rows'
          (Aims-assigned ids 0 ids (λ n. ap (get_elem? ids) (omega arith)))
          (All-imply (λ r. IsFramed r × (in_group site event r ≡ true → is_neg r.position ≡ true)) _
            rows'
            (λ r (framed_r, place). (
              framed_r,
              framed_r.0,
              (λ g. neg_below r.position (place g)),
              (λ g. inl (framed_r.1 g)),
            ))
            parked) in
      (rows'', assign-pass 0 ids rows' ∙ done, good, same)
