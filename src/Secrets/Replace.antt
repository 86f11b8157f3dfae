-- ===== src/Secrets/Replace.antt =====
-- internal/secrets/registry.go: what a replaced text contains.
use locorum.Common.{
  ℕ, zero, suc, ◌-◌, ◌<◌, ◌≡◌, refl, sym, ap, ◌∙◌, ◌&&◌, ◌||◌, not, Bool, true, false, List, [],
  ◌∷◌, ◌++◌, length, ◌==◌, Bool-cases, inl, inr, arith,
}
use locorum.Common.Text.{has_prefix, contains}
use locorum.Secrets.{replace_from}

-- A byte stands in a text.
abbrev pub has_byte : ℕ → List ℕ → Bool
has_byte b [] = false
has_byte b (c ∷ s) = b == c || has_byte b s

-- No byte of the first text stands in the second one.
abbrev pub is_apart : List ℕ → List ℕ → Bool
is_apart [] new = true
is_apart (c ∷ s) new = not (has_byte c new) && is_apart s new

-- A needle that starts with a byte outside a text is not found across that text.
contains-beyond :
    (b : ℕ) (needle new s : List ℕ)
    → has_byte b new ≡ false
    → contains (new ++ s) (b ∷ needle) ≡ contains s (b ∷ needle)
unfolding contains has_prefix
contains-beyond b needle [] s h = refl
contains-beyond b needle (c ∷ new) s h = ground (arith, contains-beyond b needle new s)

prefix-beyond :
    (b : ℕ) (needle new s : List ℕ)
    → has_byte b new ≡ false
    → 0 < length new
    → has_prefix (b ∷ needle) (new ++ s) ≡ false
unfolding has_prefix
prefix-beyond b needle [] s h p = absurd (omega arith)
prefix-beyond b needle (c ∷ new) s h p = ground arith

false_not_true : {b : Bool} → b ≡ false → b ≡ true → ⊥
false_not_true e h = cc

replace_found :
    (old new : List ℕ) (c : ℕ) (s : List ℕ)
    → has_prefix old (c ∷ s) ≡ true
    → replace_from old new 0 (c ∷ s) ≡ new ++ replace_from old new (length old - 1) s
unfolding replace_from
replace_found old new c s h = rw (h) refl

replace_kept :
    (old new : List ℕ) (c : ℕ) (s : List ℕ)
    → has_prefix old (c ∷ s) ≡ false
    → replace_from old new 0 (c ∷ s) ≡ c ∷ replace_from old new 0 s
unfolding replace_from
replace_kept old new c s h = rw (h) refl

replace_skip :
    (old new : List ℕ) (skip c : ℕ) (s : List ℕ)
    → replace_from old new (suc skip) (c ∷ s) ≡ replace_from old new skip s
unfolding replace_from
replace_skip old new skip c s = refl

replace_nil : (old new : List ℕ) (skip : ℕ) → replace_from old new skip [] ≡ []
unfolding replace_from
replace_nil old new skip = refl

-- What a replaced text starts with, the text starts with, if it is apart from what was put in.
prefix-replace_from :
    (old new needle s : List ℕ)
    → 0 < length new
    → is_apart needle new ≡ true
    → has_prefix needle (replace_from old new 0 s) ≡ true
    → has_prefix needle s ≡ true
unfolding has_prefix
prefix-replace_from old new [] s p a h = refl
prefix-replace_from old new (b ∷ needle) [] p a h =
    sym (ap (has_prefix (b ∷ needle)) (replace_nil old new 0)) ∙ h
prefix-replace_from old new (b ∷ needle) (c ∷ s) p a h =
    elim (Bool-cases (has_prefix old (c ∷ s))) [
      | inl found ↦ absurd (
          false_not_true
            (prefix-beyond b needle new (replace_from old new (length old - 1) s) (ground arith) p)
            (sym (ap (has_prefix (b ∷ needle)) (replace_found old new c s found)) ∙ h))
      | inr other ↦
          let k : b == c && has_prefix needle (replace_from old new 0 s) ≡ true =
            sym (ap (has_prefix (b ∷ needle)) (replace_kept old new c s other)) ∙ h in
          let rest : has_prefix needle s ≡ true =
            prefix-replace_from old new needle s p (ground arith) (ground arith) in
          ground arith
    ]

-- The same, for a text that does not start with the needle, and of which the first byte is kept.
not_first :
    (old new : List ℕ) (b : ℕ) (needle : List ℕ) (c : ℕ) (s : List ℕ)
    → 0 < length new
    → is_apart (b ∷ needle) new ≡ true
    → has_prefix (b ∷ needle) (c ∷ s) ≡ false
    → has_prefix old (c ∷ s) ≡ false
    → has_prefix (b ∷ needle) (c ∷ replace_from old new 0 s) ≡ false
not_first old new b needle c s p a h other =
    elim (Bool-cases (has_prefix (b ∷ needle) (c ∷ replace_from old new 0 s))) [
      | inr e ↦ e
      | inl e ↦ absurd (
          false_not_true h (
            prefix-replace_from old new (b ∷ needle) (c ∷ s) p a
              (ap (has_prefix (b ∷ needle)) (replace_kept old new c s other) ∙ e)))
    ]

contains-nil : (b : ℕ) (needle : List ℕ) → contains [] (b ∷ needle) ≡ false
unfolding contains has_prefix
contains-nil b needle = refl

no_match :
    (b : ℕ) (needle : List ℕ) (c : ℕ) (r : List ℕ)
    → has_prefix (b ∷ needle) (c ∷ r) ≡ false
    → contains r (b ∷ needle) ≡ false
    → contains (c ∷ r) (b ∷ needle) ≡ false
unfolding contains
no_match b needle c r h k = rw (h) k

-- A replaced text contains no more of what is apart from the text that was put in.
pub contains-replace_from :
    (old new : List ℕ) (b : ℕ) (needle : List ℕ) (skip : ℕ) (s : List ℕ)
    → 0 < length new
    → is_apart (b ∷ needle) new ≡ true
    → contains s (b ∷ needle) ≡ false
    → contains (replace_from old new skip s) (b ∷ needle) ≡ false
unfolding contains
contains-replace_from old new b needle skip [] p a h =
    ap (λ t. contains t (b ∷ needle)) (replace_nil old new skip) ∙ h
contains-replace_from old new b needle (suc skip) (c ∷ s) p a h =
    ap (λ t. contains t (b ∷ needle)) (replace_skip old new skip c s)
    ∙ contains-replace_from old new b needle skip s p a (ground arith)
contains-replace_from old new b needle zero (c ∷ s) p a h =
    let rest : contains s (b ∷ needle) ≡ false = ground arith in
    elim (Bool-cases (has_prefix old (c ∷ s))) [
      | inl found ↦
          ap (λ t. contains t (b ∷ needle)) (replace_found old new c s found)
          ∙ contains-beyond b needle new (replace_from old new (length old - 1) s) (ground arith)
          ∙ contains-replace_from old new b needle (length old - 1) s p a rest
      | inr other ↦
          ap (λ t. contains t (b ∷ needle)) (replace_kept old new c s other)
          ∙ no_match b needle c (replace_from old new 0 s)
              (not_first old new b needle c s p a (ground arith) other)
              (contains-replace_from old new b needle 0 s p a rest)
    ]

-- A replaced text does not contain what was replaced, if that is apart from the text that was put in.
pub replace_from-gone :
    (b : ℕ) (old new : List ℕ) (skip : ℕ) (s : List ℕ)
    → 0 < length new
    → is_apart (b ∷ old) new ≡ true
    → contains (replace_from (b ∷ old) new skip s) (b ∷ old) ≡ false
unfolding contains
replace_from-gone b old new skip [] p a =
    ap (λ t. contains t (b ∷ old)) (replace_nil (b ∷ old) new skip) ∙ contains-nil b old
replace_from-gone b old new (suc skip) (c ∷ s) p a =
    ap (λ t. contains t (b ∷ old)) (replace_skip (b ∷ old) new skip c s)
    ∙ replace_from-gone b old new skip s p a
replace_from-gone b old new zero (c ∷ s) p a = elim (Bool-cases (has_prefix (b ∷ old) (c ∷ s))) [
  | inl found ↦
      ap (λ t. contains t (b ∷ old)) (replace_found (b ∷ old) new c s found)
      ∙ contains-beyond b old new (replace_from (b ∷ old) new (length (b ∷ old) - 1) s)
          (ground arith)
      ∙ replace_from-gone b old new (length (b ∷ old) - 1) s p a
  | inr other ↦
      ap (λ t. contains t (b ∷ old)) (replace_kept (b ∷ old) new c s other)
      ∙ no_match b old c (replace_from (b ∷ old) new 0 s)
          (not_first (b ∷ old) new b old c s p a other other) (replace_from-gone b old new 0 s p a)
]
