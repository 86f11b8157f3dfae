-- ===== src/Health/Order.antt =====
-- internal/health/runner.go: the order of the findings in a snapshot.
use locorum.Common.{
  ℕ, ◌<◌, ◌≡◌, refl, sym, ◌∙◌, ◌⊎◌, inl, inr, true, false, List, [], ◌∷◌, Bool-cases, arith,
}
use locorum.Common.Text.{equals, equals-≡, equals_same, IsTextBelow}
use mathlib.Core.Path.{subst}
use locorum.Health.{Finding, less_text, less}
use locorum.Health.Publish.{ordered, less_text-asym}

-- A finding is more severe than another, or as severe with the smaller identifier, or with the same one
-- and the smaller key.
abbrev pub IsMorePressing : {A : Type 0} → Finding A → Finding A → Type 0
IsMorePressing f g =
    (g.severity < f.severity)
    ⊎ ((f.severity ≡ g.severity)
        × (IsTextBelow f.id g.id ⊎ ((f.id ≡ g.id) × IsTextBelow f.dedup_key g.dedup_key)))

abbrev IsHeadBehind : {A : Type 0} → Finding A → List (Finding A) → Type 0
IsHeadBehind f [] = Unit {0}
IsHeadBehind f (g ∷ gs) = IsMorePressing g f → ⊥

-- No finding is more pressing than the one in front of it.
abbrev pub IsInOrder : {A : Type 0} → List (Finding A) → Type 0
IsInOrder [] = Unit {0}
IsInOrder (f ∷ fs) = IsHeadBehind f fs × IsInOrder fs

less_text_below : (s t : List ℕ) → IsTextBelow s t → less_text s t ≡ true
unfolding less_text
less_text_below [] [] h = absurd h
less_text_below (c ∷ s) [] h = absurd h
less_text_below [] (d ∷ t) h = refl
less_text_below (c ∷ s) (d ∷ t) (inl lt) = ground arith
less_text_below (c ∷ s) (d ∷ t) (inr (e, h)) = let rest = less_text_below s t h in ground arith

equals_below : (s t : List ℕ) → IsTextBelow s t → equals s t ≡ false
equals_below s t h = elim (Bool-cases (equals s t)) [
  | inr other ↦ other
  | inl same ↦
      let less : less_text t t ≡ true =
        less_text_below t t (subst (λ u. IsTextBelow u t) (equals-≡ s t same) h) in
      absurd (let h' : true ≡ false = sym less ∙ less_text-asym t t less in cc)
]

less_pressing : {A : Type 0} (f g : Finding A) → IsMorePressing f g → less f g ≡ true
unfolding less
less_pressing f g (inl lt) = ground arith
less_pressing f g (inr (e, inl h)) =
    let differ = equals_below f.id g.id h in let first = less_text_below f.id g.id h in ground arith
less_pressing f g (inr (e, inr (same, h))) =
    let same' = equals_same f.id g.id same in
    let first = less_text_below f.dedup_key g.dedup_key h in ground arith

pub ordered-IsInOrder : {A : Type 0} (fs : List (Finding A)) → ordered fs ≡ true → IsInOrder fs
ordered-IsInOrder [] h = tt
ordered-IsInOrder (f ∷ []) h = (tt, tt)
ordered-IsInOrder (f ∷ g ∷ gs) h =
    let rest : ordered (g ∷ gs) ≡ true = ground arith in
    let head : less g f ≡ false = ground arith in
    (
      (λ p. let h' : true ≡ false = sym (less_pressing g f p) ∙ head in cc),
      ordered-IsInOrder (g ∷ gs) rest,
    )
