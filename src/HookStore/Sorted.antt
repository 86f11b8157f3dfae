-- ===== src/HookStore/Sorted.antt =====
-- internal/storage/hooks.go: rows in the order of their positions.
use locorum.Common.{
  ℕ, ◌≡◌, refl, sym, ap, ◌∙◌, true, false, List, [], ◌∷◌, map, ◌==◌, inl, inr, Bool-cases, All,
  if◌then◌else◌, arith,
}
use locorum.Common.Int.{ℤ, pos, negsuc}
use locorum.HookStore.{Row, at_most, put_in_order, by_position, is_listed}
use locorum.HookStore.Members.{All-imply, IsDistinct}
use locorum.HookStore.Pass.{row_id}

at_most_trans : (p q w : ℤ) → at_most p q ≡ true → at_most q w ≡ true → at_most p w ≡ true
at_most_trans (pos a) (pos b) (pos c) h k = ground arith
at_most_trans (pos a) (pos b) (negsuc c) h k = absurd (let h' : true ≡ false = sym k in cc)
at_most_trans (pos a) (negsuc b) w h k = absurd (let h' : true ≡ false = sym h in cc)
at_most_trans (negsuc a) (pos b) (pos c) h k = refl
at_most_trans (negsuc a) (pos b) (negsuc c) h k = absurd (let h' : true ≡ false = sym k in cc)
at_most_trans (negsuc a) (negsuc b) (pos c) h k = refl
at_most_trans (negsuc a) (negsuc b) (negsuc c) h k = ground arith

at_most_total : (p q : ℤ) → at_most p q ≡ false → at_most q p ≡ true
at_most_total (pos a) (pos b) h = ground arith
at_most_total (negsuc a) (negsuc b) h = ground arith
at_most_total (pos a) (negsuc b) h = refl
at_most_total (negsuc a) (pos b) h = absurd (let h' : true ≡ false = h in cc)

-- No row has a position above that of one after it.
abbrev pub IsSorted : List Row → Type 0
IsSorted [] = Unit {0}
IsSorted (r ∷ rows) = All (λ s. at_most r.position s.position ≡ true) rows × IsSorted rows

pub put_in_order-All :
    (P : Row → Type 0) (r : Row) (rows : List Row) → P r → All P rows → All P (put_in_order r rows)
unfolding put_in_order
put_in_order-All P r [] p h = (p, tt)
put_in_order-All P r (s ∷ rows) p h = elim (Bool-cases (at_most r.position s.position)) [
  | inl e ↦ rw e (p, h)
  | inr e ↦ rw e (h.0, put_in_order-All P r rows p h.1)
]

put_in_order-IsSorted : (r : Row) (rows : List Row) → IsSorted rows → IsSorted (put_in_order r rows)
unfolding put_in_order
put_in_order-IsSorted r [] h = (tt, tt)
put_in_order-IsSorted r (s ∷ rows) h = elim (Bool-cases (at_most r.position s.position)) [
  | inl e ↦ rw e (
    (
      e,
      All-imply (λ x. at_most s.position x.position ≡ true) _ rows
          (λ x k. at_most_trans r.position s.position x.position e k) h.0,
    ),
    h,
  )
  | inr e ↦ rw e (
    put_in_order-All (λ x. at_most s.position x.position ≡ true) r rows
        (at_most_total r.position s.position e) h.0,
    put_in_order-IsSorted r rows h.1,
  )
]

is_listed-put_in_order :
    (x : ℕ) (r : Row) (rows : List Row)
    → is_listed x (map row_id (put_in_order r rows)) ≡ is_listed x (map row_id (r ∷ rows))
unfolding put_in_order
is_listed-put_in_order x r [] = refl
is_listed-put_in_order x r (s ∷ rows) = elim (Bool-cases (at_most r.position s.position)) [
  | inl e ↦ rw e refl
  | inr e ↦ elim (Bool-cases (x == s.hook.id)) [
    | inl here ↦ elim (Bool-cases (x == r.hook.id)) [
      | inl k ↦ rw (e, here, k) refl
      | inr k ↦ rw (e, here, k) refl
    ]
    | inr there ↦ elim (Bool-cases (x == r.hook.id)) [
      | inl k ↦ rw (e, there, k) (let rest = is_listed-put_in_order x r rows in rw k at rest)
      | inr k ↦ rw (e, there, k) (let rest = is_listed-put_in_order x r rows in rw k at rest)
    ]
  ]
]

put_in_order-IsDistinct :
    (r : Row) (rows : List Row)
    → IsDistinct (map row_id (r ∷ rows))
    → IsDistinct (map row_id (put_in_order r rows))
unfolding put_in_order
put_in_order-IsDistinct r [] d = d
put_in_order-IsDistinct r (s ∷ rows) d = elim (Bool-cases (at_most r.position s.position)) [
  | inl e ↦ rw e d
  | inr e ↦ elim (Bool-cases (r.hook.id == s.hook.id)) [
    | inl same ↦ absurd (let no = d.0 in let h' : true ≡ false = rw same at no in cc)
    | inr differ ↦
        let differ' : (s.hook.id == r.hook.id) ≡ false = ground arith in
        let no = d.0 in
        rw e (
          is_listed-put_in_order s.hook.id r rows ∙ rw differ' (d.1.0),
          put_in_order-IsDistinct r rows (rw differ at no, d.1.1),
        )
  ]
]

pub by_position-All : (P : Row → Type 0) (rows : List Row) → All P rows → All P (by_position rows)
by_position-All P [] h = tt
by_position-All P (r ∷ rows) h =
    put_in_order-All P r (by_position rows) h.0 (by_position-All P rows h.1)

pub by_position-IsSorted : (rows : List Row) → IsSorted (by_position rows)
by_position-IsSorted [] = tt
by_position-IsSorted (r ∷ rows) =
    put_in_order-IsSorted r (by_position rows) (by_position-IsSorted rows)

pub is_listed-by_position :
    (x : ℕ) (rows : List Row)
    → is_listed x (map row_id (by_position rows)) ≡ is_listed x (map row_id rows)
is_listed-by_position x [] = refl
is_listed-by_position x (r ∷ rows) =
    is_listed-put_in_order x r (by_position rows)
    ∙ ap (λ b. if x == r.hook.id then true else b) (is_listed-by_position x rows)

pub by_position-IsDistinct :
    (rows : List Row) → IsDistinct (map row_id rows) → IsDistinct (map row_id (by_position rows))
by_position-IsDistinct [] d = d
by_position-IsDistinct (r ∷ rows) d =
    put_in_order-IsDistinct r (by_position rows)
      (is_listed-by_position r.hook.id rows ∙ d.0, by_position-IsDistinct rows d.1)
