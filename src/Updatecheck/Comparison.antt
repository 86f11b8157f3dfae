-- ===== src/Updatecheck/Comparison.antt =====
-- Comparisons with the results below, same and above that order a type linearly.
use locorum.Common.{ℕ, ◌≡◌, refl, sym, ap, ◌∙◌, ◌⊎◌, inl, inr, List, [], ◌∷◌, arith}
use locorum.Common.Int.{ℤ, pos, negsuc}
use locorum.Updatecheck.{Sign, below, same, above, cmp_int, compare_text}

abbrev pub reverse : Sign → Sign
reverse below = above
reverse same = same
reverse above = below

-- The first comparison decides, the second where that finds no difference.
abbrev pub then_by : Sign → Sign → Sign
then_by below o = below
then_by same o = o
then_by above o = above

pub record IsLinear {A : Type 0} (cmp : A → A → Sign) : Type 0 where
  pub equal : (a b : A) → cmp a b ≡ same → a ≡ b
  pub itself : (a : A) → cmp a a ≡ same
  pub swapped : (a b : A) → cmp b a ≡ reverse (cmp a b)
  pub chained : (a b c : A) → cmp a b ≡ below → cmp b c ≡ below → cmp a c ≡ below

pub cmp_int-IsLinear : IsLinear cmp_int
unfolding cmp_int
cmp_int-IsLinear = record { equal = equal; itself = itself; swapped = swapped; chained = chained }
  where
    equal : (a b : ℤ) → cmp_int a b ≡ same → a ≡ b
    equal (pos a) (pos b) h = ap pos (ground arith)
    equal (pos a) (negsuc b) h = cc
    equal (negsuc a) (pos b) h = cc
    equal (negsuc a) (negsuc b) h = ap negsuc (ground arith)

    itself : (a : ℤ) → cmp_int a a ≡ same
    itself (pos a) = ground arith
    itself (negsuc a) = ground arith

    swapped : (a b : ℤ) → cmp_int b a ≡ reverse (cmp_int a b)
    swapped (pos a) (pos b) = ground arith
    swapped (pos a) (negsuc b) = refl
    swapped (negsuc a) (pos b) = refl
    swapped (negsuc a) (negsuc b) = ground arith

    chained : (a b c : ℤ) → cmp_int a b ≡ below → cmp_int b c ≡ below → cmp_int a c ≡ below
    chained (pos a) (pos b) (pos c) h k = ground arith
    chained (pos a) (pos b) (negsuc c) h k = cc
    chained (pos a) (negsuc b) c h k = cc
    chained (negsuc a) b (pos c) h k = refl
    chained (negsuc a) (pos b) (negsuc c) h k = cc
    chained (negsuc a) (negsuc b) (negsuc c) h k = ground arith

pub compare_text-IsLinear : IsLinear compare_text
unfolding compare_text
compare_text-IsLinear = record {
  equal = equal;
  itself = itself;
  swapped = swapped;
  chained = chained;
}
  where
    equal : (s t : List ℕ) → compare_text s t ≡ same → s ≡ t
    equal [] [] h = refl
    equal [] (d ∷ t) h = cc
    equal (c ∷ s) [] h = cc
    equal (c ∷ s) (d ∷ t) h =
        let e : c ≡ d = ground arith in let rest : s ≡ t = equal s t (ground arith) in cc

    itself : (s : List ℕ) → compare_text s s ≡ same
    itself [] = refl
    itself (c ∷ s) = ground (arith, itself s)

    swapped : (s t : List ℕ) → compare_text t s ≡ reverse (compare_text s t)
    swapped [] [] = refl
    swapped [] (d ∷ t) = refl
    swapped (c ∷ s) [] = refl
    swapped (c ∷ s) (d ∷ t) = ground (arith, swapped s t)

    chained :
        (s t u : List ℕ)
        → compare_text s t ≡ below
        → compare_text t u ≡ below
        → compare_text s u ≡ below
    chained [] [] [] h k = cc
    chained [] (d ∷ t) [] h k = cc
    chained [] t (e ∷ u) h k = refl
    chained (c ∷ s) [] u h k = cc
    chained (c ∷ s) (d ∷ t) [] h k = cc
    chained (c ∷ s) (d ∷ t) (e ∷ u) h k = ground (arith, chained s t u)

-- A comparison of what a function that loses nothing takes of the values.
pub pullback-IsLinear :
    {A K : Type 0} (key : A → K) (cmp : K → K → Sign) (cmp' : A → A → Sign)
    → ((a b : A) → key a ≡ key b → a ≡ b)
    → ((a b : A) → cmp' a b ≡ cmp (key a) (key b))
    → IsLinear cmp
    → IsLinear cmp'
pullback-IsLinear key cmp cmp' injective e lin = record {
  equal = λ a b h. injective a b (lin.equal (key a) (key b) (sym (e a b) ∙ h));
  itself = λ a. e a a ∙ lin.itself (key a);
  swapped = λ a b. e b a ∙ lin.swapped (key a) (key b) ∙ ap reverse (sym (e a b));
  chained =
      λ a b c h k. e a c ∙ lin.chained (key a) (key b) (key c) (sym (e a b) ∙ h) (sym (e b c) ∙ k);
}

abbrev pub lexicographic : {A B : Type 0} → (A → A → Sign) → (B → B → Sign) → A × B → A × B → Sign
lexicographic f g (a, b) (a', b') = then_by (f a a') (g b b')

then_by-same : (o o' : Sign) → then_by o o' ≡ same → (o ≡ same) × (o' ≡ same)
then_by-same below o' h = cc
then_by-same same o' h = (refl, h)
then_by-same above o' h = cc

then_by-reverse : (o o' : Sign) → then_by (reverse o) (reverse o') ≡ reverse (then_by o o')
then_by-reverse below o' = refl
then_by-reverse same o' = refl
then_by-reverse above o' = refl

then_by-below : (o o' : Sign) → then_by o o' ≡ below → (o ≡ below) ⊎ ((o ≡ same) × (o' ≡ below))
then_by-below below o' h = inl refl
then_by-below same o' h = inr (refl, h)
then_by-below above o' h = cc

module _ {A B : Type 0} (f : A → A → Sign) (g : B → B → Sign) (lf : IsLinear f)
    (lg : IsLinear g) where
  lexicographic-chained :
      (p q r : A × B)
      → lexicographic f g p q ≡ below
      → lexicographic f g q r ≡ below
      → lexicographic f g p r ≡ below
  lexicographic-chained (a, b) (a', b') (a'', b'') h k = elim (then_by-below (f a a') (g b b') h) [
    | inl x ↦ elim (then_by-below (f a' a'') (g b' b'') k) [
      | inl y ↦ rw (lf.chained a a' a'' x y) refl
      | inr (y, y') ↦ rw (← lf.equal a' a'' y, x) refl
    ]
    | inr (x, x') ↦ elim (then_by-below (f a' a'') (g b' b'') k) [
      | inl y ↦ rw (lf.equal a a' x, y) refl
      | inr (y, y') ↦ rw (lf.equal a a' x, y) (lg.chained b b' b'' x' y')
    ]
  ]

  lexicographic-equal : (p q : A × B) → lexicographic f g p q ≡ same → p ≡ q
  lexicographic-equal (a, b) (a', b') h =
      let (x, y) = then_by-same (f a a') (g b b') h in
      let e : a ≡ a' = lf.equal a a' x in let e' : b ≡ b' = lg.equal b b' y in cc

  pub lexicographic-IsLinear : IsLinear (lexicographic f g)
  lexicographic-IsLinear = record {
    equal = lexicographic-equal;
    itself = λ p. rw (lf.itself p.0) (lg.itself p.1);
    swapped = λ p q.
        rw (lf.swapped p.0 q.0, lg.swapped p.1 q.1) (then_by-reverse (f p.0 q.0) (g p.1 q.1));
    chained = lexicographic-chained;
  }
