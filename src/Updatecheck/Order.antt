-- ===== src/Updatecheck/Order.antt =====
-- internal/updatecheck/updatecheck.go: compareSemver orders versions.
use locorum.Common.{
  ℕ, ◌≡◌, refl, sym, ap, ◌∙◌, not, List, [], ◌∷◌, if◌then◌else◌, Bool-cases, inl, inr, arith,
}
use locorum.Common.Text.{equals, equals-≡}
use locorum.Common.Int.{ℤ, pos, negsuc}
use locorum.Updatecheck.{
  Sign, same, Semver, cmp_int, compare_text, compare_pre, compare_semver, int_equals,
}
use locorum.Updatecheck.Comparison.{
  then_by, IsLinear, cmp_int-IsLinear, compare_text-IsLinear, pullback-IsLinear, lexicographic,
  lexicographic-IsLinear,
}

-- A release is above the prereleases of the same number.
abbrev rank : List ℕ → ℤ
rank [] = pos 1
rank (c ∷ s) = pos 0

abbrev key : Semver → ℤ × (ℤ × (ℤ × (ℤ × List ℕ)))
key v = (v.major, (v.minor, (v.patch, (rank v.pre, v.pre))))

abbrev compare_keys : ℤ × (ℤ × (ℤ × (ℤ × List ℕ))) → ℤ × (ℤ × (ℤ × (ℤ × List ℕ))) → Sign
compare_keys =
    lexicographic cmp_int
      (lexicographic cmp_int (lexicographic cmp_int (lexicographic cmp_int compare_text)))

compare_keys-IsLinear : IsLinear compare_keys
compare_keys-IsLinear =
    let number = cmp_int-IsLinear in
    lexicographic-IsLinear cmp_int _ number (
      lexicographic-IsLinear cmp_int _ number (
        lexicographic-IsLinear cmp_int _ number
          (lexicographic-IsLinear cmp_int compare_text number compare_text-IsLinear)))

compare_text_refl : (s : List ℕ) → compare_text s s ≡ same
compare_text_refl = compare_text-IsLinear.itself

pub compare_pre_tagged :
    (c d : ℕ) (s t : List ℕ) → compare_pre (c ∷ s) (d ∷ t) ≡ compare_text (c ∷ s) (d ∷ t)
unfolding compare_pre
compare_pre_tagged c d s t = elim (Bool-cases (equals (c ∷ s) (d ∷ t))) [
  | inl e ↦
      rw (e, compare_pre)
        (sym (compare_text_refl (d ∷ t))
          ∙ ap (λ u. compare_text u (d ∷ t)) (sym (equals-≡ (c ∷ s) (d ∷ t) e)))
  | inr other ↦ rw (other, compare_pre) refl
]

compare_pre-lexicographic :
    (s t : List ℕ) → compare_pre s t ≡ then_by (cmp_int (rank s) (rank t)) (compare_text s t)
unfolding cmp_int
compare_pre-lexicographic [] [] = unfold compare_pre equals compare_text in refl
compare_pre-lexicographic [] (d ∷ t) = unfold compare_pre equals compare_text in refl
compare_pre-lexicographic (c ∷ s) [] = unfold compare_pre equals compare_text in refl
compare_pre-lexicographic (c ∷ s) (d ∷ t) = compare_pre_tagged c d s t

-- The test for equality before a comparison is what the comparison finds.
pub unequal-then_by :
    (a b : ℤ) (o : Sign)
    → (if not (int_equals a b) then cmp_int a b else o) ≡ then_by (cmp_int a b) o
unfolding cmp_int
unequal-then_by (pos a) (pos b) o = ground arith
unequal-then_by (pos a) (negsuc b) o = refl
unequal-then_by (negsuc a) (pos b) o = refl
unequal-then_by (negsuc a) (negsuc b) o = ground arith

compare_semver-key : (a b : Semver) → compare_semver a b ≡ compare_keys (key a) (key b)
unfolding compare_semver
compare_semver-key a b =
    rw
      (
        unequal-then_by a.major b.major,
        unequal-then_by a.minor b.minor,
        unequal-then_by a.patch b.patch,
        compare_pre-lexicographic a.pre b.pre,
      )
      refl

key-injective : (a b : Semver) → key a ≡ key b → a ≡ b
key-injective a b e =
    ap
      (λ (k : ℤ × (ℤ × (ℤ × (ℤ × List ℕ)))). record {
        major = k.0;
        minor = k.1.0;
        patch = k.1.1.0;
        pre = k.1.1.1.1;
      })
      e

-- compareSemver finds no difference exactly between versions that are the same, prerelease tag included, gives the
-- opposite result when its arguments are swapped, and is transitive.
pub compare_semver-IsLinear : IsLinear compare_semver
compare_semver-IsLinear =
    pullback-IsLinear key compare_keys compare_semver key-injective compare_semver-key
      compare_keys-IsLinear
