-- ===== src/HookStore/Insert.antt =====
-- internal/storage/hooks.go: AddHook takes a place that no row of the group has.
use locorum.Common.{
  ℕ, suc, ◌<◌, ◌≡◌, refl, sym, ◌∙◌, not, Bool, true, false, Option, none, some, List, [], ◌∷◌, ◌++◌,
  map, ltb, ◌==◌, String, inl, inr, Bool-cases, All, All-append, arith,
}
use mathlib.Core.Path.{subst}
use mathlib.Core.List.{map-append}
use locorum.Common.Int.{ℤ, pos, negsuc}
use locorum.Hooks.{Hook, validate}
use locorum.HookStore.{
  Row, HookTable, invalid, no_such_site, unique_violation, in_group, eq_position, max_with,
  max_position, next_after, is_taken, new_row, if_valid, add_hook, is_listed,
}
use locorum.HookStore.Members.{any_none, All-imply, IsDistinct}
use locorum.HookStore.Pass.{row_id}
use locorum.HookStore.Passes.{IsHookTable, is_pos}
use locorum.HookStore.Reorder.{IsSound, IsSound-error, IsSound-done}

-- A position is at most the greatest one.
abbrev fits : ℤ → Option ℤ → Bool
fits (pos n) (some (pos k)) = not (ltb k n)
fits (pos n) (some (negsuc k)) = false
fits (pos n) none = false
fits (negsuc n) m = false

fits_head : (p : ℤ) (m : Option ℤ) → is_pos p ≡ true → fits p (some (max_with p m)) ≡ true
fits_head (pos a) none h = ground arith
fits_head (pos a) (some (pos b)) h = ground arith
fits_head (pos a) (some (negsuc b)) h = ground arith
fits_head (negsuc a) m h = absurd (let h' : true ≡ false = sym h in cc)

fits_tail :
    (p q : ℤ) (m : Option ℤ)
    → is_pos q ≡ true
    → fits p m ≡ true
    → fits p (some (max_with q m)) ≡ true
fits_tail (pos n) (pos a) (some (pos b)) h f = ground arith
fits_tail (pos n) (pos a) (some (negsuc b)) h f = absurd (let h' : true ≡ false = sym f in cc)
fits_tail (pos n) (pos a) none h f = absurd (let h' : true ≡ false = sym f in cc)
fits_tail (pos n) (negsuc a) m h f = absurd (let h' : true ≡ false = sym h in cc)
fits_tail (negsuc n) q m h f = absurd (let h' : true ≡ false = sym f in cc)

fits_next : (p : ℤ) (m : Option ℤ) → fits p m ≡ true → eq_position p (next_after m) ≡ false
fits_next (pos n) (some (pos k)) f = ground arith
fits_next (pos n) (some (negsuc k)) f = absurd (let h' : true ≡ false = sym f in cc)
fits_next (pos n) none f = absurd (let h' : true ≡ false = sym f in cc)
fits_next (negsuc n) m f = absurd (let h' : true ≡ false = sym f in cc)

-- The greatest position is not negative where no row is parked.
abbrev is_pos_or_none : Option ℤ → Bool
is_pos_or_none none = true
is_pos_or_none (some p) = is_pos p

max_with_pos :
    (p : ℤ) (m : Option ℤ)
    → is_pos p ≡ true
    → is_pos_or_none m ≡ true
    → is_pos (max_with p m) ≡ true
max_with_pos (pos a) none h k = refl
max_with_pos (pos a) (some (pos b)) h k = refl
max_with_pos (pos a) (some (negsuc b)) h k = refl
max_with_pos (negsuc a) m h k = absurd (let h' : true ≡ false = sym h in cc)

next_after_pos : (m : Option ℤ) → is_pos_or_none m ≡ true → is_pos (next_after m) ≡ true
next_after_pos none h = refl
next_after_pos (some (pos n)) h = refl
next_after_pos (some (negsuc n)) h = absurd (let h' : true ≡ false = sym h in cc)

module _ (site event : String) where
  max_position_pos :
      (rows : List Row)
      → All (λ r. is_pos r.position ≡ true) rows
      → is_pos_or_none (max_position site event rows) ≡ true
  unfolding max_position
  max_position_pos [] h = refl
  max_position_pos (r ∷ rows) h = elim (Bool-cases (in_group site event r)) [
    | inl g ↦ rw g (max_with_pos r.position _ h.0 (max_position_pos rows h.1))
    | inr g ↦ rw g (max_position_pos rows h.1)
  ]

  fits-max_position :
      (rows : List Row)
      → All (λ r. is_pos r.position ≡ true) rows
      → All
          (λ r.
            in_group site event r ≡ true → fits r.position (max_position site event rows) ≡ true)
          rows
  unfolding max_position
  fits-max_position [] h = tt
  fits-max_position (r ∷ rows) h = elim (Bool-cases (in_group site event r)) [
    | inl g ↦ (
      (λ k. rw g (fits_head r.position _ h.0)),
      All-imply
          (λ s.
            in_group site event s ≡ true → fits s.position (max_position site event rows) ≡ true)
          _ rows (λ s f k. rw g (fits_tail s.position r.position _ h.0 (f k)))
          (fits-max_position rows h.1),
    )
    | inr g ↦ (
      (λ k. absurd (let h' : true ≡ false = sym k ∙ g in cc)),
      All-imply
          (λ s.
            in_group site event s ≡ true → fits s.position (max_position site event rows) ≡ true)
          _ rows (λ s f k. rw g (f k)) (fits-max_position rows h.1),
    )
  ]

  is_taken-next_after :
      (rows : List Row)
      → All (λ r. is_pos r.position ≡ true) rows
      → is_taken site event (next_after (max_position site event rows)) rows ≡ false
  unfolding is_taken
  is_taken-next_after rows h = any_none _ rows (
      All-imply
        (λ s. in_group site event s ≡ true → fits s.position (max_position site event rows) ≡ true)
        _ rows
        (λ s f. elim (Bool-cases (in_group site event s)) [
          | inl g ↦ rw g (fits_next s.position _ (f g))
          | inr g ↦ rw g refl
        ])
        (fits-max_position rows h))

is_listed-append :
    (x n : ℕ) (xs : List ℕ)
    → (x == n) ≡ false
    → is_listed x xs ≡ false
    → is_listed x (xs ++ n ∷ []) ≡ false
is_listed-append x n [] e h = rw e refl
is_listed-append x n (y ∷ xs) e h = elim (Bool-cases (x == y)) [
  | inl here ↦ absurd (let h' : true ≡ false = rw here at h in cc)
  | inr there ↦ rw there (is_listed-append x n xs e (rw there at h))
]

IsDistinct-append :
    (n : ℕ) (xs : List ℕ) → IsDistinct xs → All (λ x. x < n) xs → IsDistinct (xs ++ n ∷ [])
IsDistinct-append n [] d h = (refl, tt)
IsDistinct-append n (x ∷ xs) d h = (
  is_listed-append x n xs (let lt : x < n = h.0 in ground arith) d.0,
  IsDistinct-append n xs d.1 h.1,
)

IsHookTable-inserted :
    (h : Hook) (p : ℤ) (now : String) (t : HookTable)
    → IsHookTable t
    → is_pos p ≡ true
    → IsHookTable
        (record { rows = t.rows ++ new_row h t.next_id p now ∷ []; next_id = suc t.next_id })
IsHookTable-inserted h p now t (d, below, places) place =
    let ids : map row_id (t.rows ++ new_row h t.next_id p now ∷ [])
        ≡ map row_id t.rows ++ t.next_id ∷ [] =
      map-append row_id t.rows (new_row h t.next_id p now ∷ []) in
    (
      subst IsDistinct (sym ids) (IsDistinct-append t.next_id (map row_id t.rows) d below),
      subst (All (λ x. x < suc t.next_id)) (sym ids) (
          All-append (λ x. x < suc t.next_id) (map row_id t.rows) (t.next_id ∷ [])
            (All-imply (λ x. x < t.next_id) _ (map row_id t.rows) (λ x l. omega (arith, l)) below)
            (omega arith, tt)),
      All-append (λ r. is_pos r.position ≡ true) t.rows (new_row h t.next_id p now ∷ []) places
          (place, tt),
    )

pub if_valid-IsSound :
    (v : _) (result : _) (t : HookTable)
    → IsHookTable t
    → IsSound result
    → IsSound (if_valid v result t)
if_valid-IsSound (some e) result t h s =
    IsSound-error (invalid e) t (λ x. absurd (let h' : invalid e ≡ unique_violation = x in cc)) h
if_valid-IsSound none result t h s = s

-- `AddHook` never breaks the constraint.
pub add_hook-IsSound :
    (site_exists : String → Bool) (h : Hook) (now : String) (t : HookTable)
    → IsHookTable t
    → IsSound (add_hook site_exists h now t)
unfolding add_hook
add_hook-IsSound site_exists h now t k =
    let free = is_taken-next_after h.site_id h.event t.rows k.2 in
    let place = next_after_pos _ (max_position_pos h.site_id h.event t.rows k.2) in
    if_valid-IsSound (validate h) _ t k (elim (Bool-cases (site_exists h.site_id)) [
      | inr e ↦
          rw (free, e)
            (IsSound-error no_such_site t
              (λ x. absurd (let h' : no_such_site ≡ unique_violation = x in cc)) k)
      | inl e ↦ rw (free, e) (IsSound-done _ (IsHookTable-inserted h _ now t k place))
    ])
