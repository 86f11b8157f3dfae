-- ===== src/Updatecheck/Higher.antt =====
-- internal/updatecheck/updatecheck.go: which versions compareSemver puts above others.
use locorum.Common.{ℕ, ◌<◌, ◌≡◌, refl, sym, ap, ◌∙◌, ◌⊎◌, inl, inr, List, [], ◌∷◌, arith}
use locorum.Common.Text.{IsTextBelow, equals}
use locorum.Common.Int.{ℤ, pos, negsuc}
use locorum.Updatecheck.{
  Sign, below, same, above, Semver, cmp_int, compare_text, compare_pre, compare_semver,
}
use locorum.Updatecheck.Comparison.{then_by, cmp_int-IsLinear}
use locorum.Updatecheck.Order.{compare_pre_tagged, unequal-then_by}

abbrev IsIntBelow : ℤ → ℤ → Type 0
IsIntBelow (pos a) (pos b) = a < b
IsIntBelow (pos a) (negsuc b) = ⊥
IsIntBelow (negsuc a) (pos b) = Unit {0}
IsIntBelow (negsuc a) (negsuc b) = b < a

-- No tag is higher than a tag, and tags are in the order of bytes.
abbrev IsTagHigher : List ℕ → List ℕ → Type 0
IsTagHigher [] [] = ⊥
IsTagHigher [] (d ∷ t) = Unit {0}
IsTagHigher (c ∷ s) [] = ⊥
IsTagHigher (c ∷ s) (d ∷ t) = IsTextBelow (d ∷ t) (c ∷ s)

-- The greater major number, then minor number, then patch number, then the higher prerelease tag.
abbrev pub IsHigher : Semver → Semver → Type 0
IsHigher a b =
    IsIntBelow b.major a.major
    ⊎ ((a.major ≡ b.major)
        × (IsIntBelow b.minor a.minor
            ⊎ ((a.minor ≡ b.minor)
                × (IsIntBelow b.patch a.patch ⊎ ((a.patch ≡ b.patch) × IsTagHigher a.pre b.pre)))))

cmp_int_above : (a b : ℤ) → cmp_int a b ≡ above → IsIntBelow b a
unfolding cmp_int
cmp_int_above (pos a) (pos b) h = ground arith
cmp_int_above (pos a) (negsuc b) h = tt
cmp_int_above (negsuc a) (pos b) h = cc
cmp_int_above (negsuc a) (negsuc b) h = ground arith

above_cmp_int : (a b : ℤ) → IsIntBelow b a → cmp_int a b ≡ above
unfolding cmp_int
above_cmp_int (pos a) (pos b) h = ground arith
above_cmp_int (pos a) (negsuc b) h = refl
above_cmp_int (negsuc a) (pos b) h = absurd h
above_cmp_int (negsuc a) (negsuc b) h = ground arith

compare_text_above : (s t : List ℕ) → compare_text s t ≡ above → IsTextBelow t s
unfolding compare_text
compare_text_above [] [] h = cc
compare_text_above [] (d ∷ t) h = cc
compare_text_above (c ∷ s) [] h = tt
compare_text_above (c ∷ s) (d ∷ t) h = ground (arith, compare_text_above s t)

above_compare_text : (s t : List ℕ) → IsTextBelow t s → compare_text s t ≡ above
unfolding compare_text
above_compare_text [] [] h = absurd h
above_compare_text [] (d ∷ t) h = absurd h
above_compare_text (c ∷ s) [] h = refl
above_compare_text (c ∷ s) (d ∷ t) (inl lt) = ground arith
above_compare_text (c ∷ s) (d ∷ t) (inr (e, h)) =
    let rest = above_compare_text s t h in ground arith

compare_pre_above : (s t : List ℕ) → compare_pre s t ≡ above → IsTagHigher s t
compare_pre_above [] [] h = unfold compare_pre equals compare_text in cc
compare_pre_above [] (d ∷ t) h = tt
compare_pre_above (c ∷ s) [] h = unfold compare_pre equals compare_text in cc
compare_pre_above (c ∷ s) (d ∷ t) h =
    compare_text_above (c ∷ s) (d ∷ t) (sym (compare_pre_tagged c d s t) ∙ h)

above_compare_pre : (s t : List ℕ) → IsTagHigher s t → compare_pre s t ≡ above
above_compare_pre [] [] h = absurd h
above_compare_pre [] (d ∷ t) h = unfold compare_pre equals compare_text in refl
above_compare_pre (c ∷ s) [] h = absurd h
above_compare_pre (c ∷ s) (d ∷ t) h =
    compare_pre_tagged c d s t ∙ above_compare_text (c ∷ s) (d ∷ t) h

-- The first number decides, or the rest where the numbers are the same.
then_by_above :
    {P : Type 0} (x y : ℤ) (o : Sign)
    → (o ≡ above → P)
    → then_by (cmp_int x y) o ≡ above
    → IsIntBelow y x ⊎ ((x ≡ y) × P)
then_by_above {P} x y o f h = decide (cmp_int x y) refl h
  where
    decide : (s : Sign) → cmp_int x y ≡ s → then_by s o ≡ above → IsIntBelow y x ⊎ ((x ≡ y) × P)
    decide below e k = cc
    decide same e k = inr (cmp_int-IsLinear.equal x y e, f k)
    decide above e k = inl (cmp_int_above x y e)

above_then_by :
    {P : Type 0} (x y : ℤ) (o : Sign)
    → (P → o ≡ above)
    → IsIntBelow y x ⊎ ((x ≡ y) × P)
    → then_by (cmp_int x y) o ≡ above
above_then_by x y o f (inl lt) = ap (λ s. then_by s o) (above_cmp_int x y lt)
above_then_by x y o f (inr (e, p)) =
    ap (λ s. then_by s o) (ap (λ z. cmp_int z y) e ∙ cmp_int-IsLinear.itself y) ∙ f p

compare_semver-then_by :
    (a b : Semver)
    → compare_semver a b
      ≡ then_by (cmp_int a.major b.major) (
          then_by
            (cmp_int a.minor b.minor)
            (then_by (cmp_int a.patch b.patch) (compare_pre a.pre b.pre)))
unfolding compare_semver
compare_semver-then_by a b =
    rw
      (
        unequal-then_by a.major b.major,
        unequal-then_by a.minor b.minor,
        unequal-then_by a.patch b.patch,
      )
      refl

pub compare_semver-IsHigher : (a b : Semver) → compare_semver a b ≡ above → IsHigher a b
compare_semver-IsHigher a b h =
    then_by_above a.major b.major _
      (then_by_above a.minor b.minor _
        (then_by_above a.patch b.patch _ (compare_pre_above a.pre b.pre)))
      (sym (compare_semver-then_by a b) ∙ h)

pub IsHigher-compare_semver : (a b : Semver) → IsHigher a b → compare_semver a b ≡ above
IsHigher-compare_semver a b h =
    compare_semver-then_by a b
    ∙ above_then_by a.major b.major _
        (above_then_by a.minor b.minor _
          (above_then_by a.patch b.patch _ (above_compare_pre a.pre b.pre)))
        h
