-- ===== src/Updatecheck/Check/Trimmed.antt =====
-- internal/updatecheck/updatecheck.go: a tag is read with or without its "v".
use locorum.Common.{
  ℕ, ◌≡◌, refl, sym, ap, ◌∙◌, Option, none, some, List, [], ◌∷◌, Bool-cases, Option-cases, ◌==◌,
  ==_iff, inl, inr,
}
use locorum.Common.Decimal.{atoi, scan}
use mathlib.Core.Path.{subst}
use locorum.Updatecheck.{Semver, cut, trim_v, or_nothing, parse_semver, parse_parts, split_dots}

-- A text that starts with a letter is no number.
parse_parts_v :
    (w : List ℕ) (rest : List (List ℕ)) (pre : List ℕ) → parse_parts ((b'v' ∷ w) ∷ rest) pre ≡ none
unfolding parse_parts atoi scan
parse_parts_v w [] pre = refl
parse_parts_v w (second ∷ []) pre = refl
parse_parts_v w (second ∷ third ∷ rest) pre = refl

abbrev StartsWith : ℕ → List (List ℕ) → Type 0
StartsWith c parts = (w : List ℕ) × (rest : List (List ℕ)) × (parts ≡ (c ∷ w) ∷ rest)

split_dots-StartsWith : (s : List ℕ) → StartsWith b'v' (split_dots (b'v' ∷ s))
unfolding split_dots cut
split_dots-StartsWith s = elim (Option-cases (cut b'.' s).1) [
  | inl e ↦ ((cut b'.' s).0, [], rw (e, split_dots, cut) refl)
  | inr (t, e) ↦ elim (Option-cases (cut b'.' t).1) [
    | inl e' ↦ ((cut b'.' s).0, (cut b'.' t).0 ∷ [], rw (e, e', split_dots, cut) refl)
    | inr (u, e') ↦ ((cut b'.' s).0, (cut b'.' t).0 ∷ u ∷ [], rw (e, e', split_dots, cut) refl)
  ]
]

parse_parts_v_dots : (s pre : List ℕ) → parse_parts (split_dots (b'v' ∷ s)) pre ≡ none
parse_parts_v_dots s pre =
    let (w, rest, e) = split_dots-StartsWith s in rw (e) (parse_parts_v w rest pre)

parse_semver_v : (s : List ℕ) → parse_semver (b'v' ∷ b'v' ∷ s) ≡ none
unfolding parse_semver cut
parse_semver_v s = parse_parts_v_dots (cut b'+' (cut b'-' s).0).0 (or_nothing (cut b'-' s).1)

-- A tag without its "v" is read as the tag is.
trim_v_once :
    (tag : List ℕ) (s : Semver) → parse_semver tag ≡ some s → trim_v (trim_v tag) ≡ trim_v tag
trim_v_once [] s h = refl
trim_v_once (c ∷ t) s h = elim (Bool-cases (c == b'v')) [
  | inr other ↦ rw (other, other) refl
  | inl e ↦ rw (e) (go t (subst (λ (x : ℕ). parse_semver (x ∷ t) ≡ some s) ((==_iff c b'v').0 e) h))
]
  where
    go : (t : List ℕ) → parse_semver (b'v' ∷ t) ≡ some s → trim_v t ≡ t
    go [] k = refl
    go (d ∷ u) k = elim (Bool-cases (d == b'v')) [
      | inr other ↦ rw (other) refl
      | inl e ↦ absurd (
          garbage (subst (λ (x : ℕ). parse_semver (b'v' ∷ x ∷ u) ≡ some s) ((==_iff d b'v').0 e) k))
    ]
      where
        garbage : parse_semver (b'v' ∷ b'v' ∷ u) ≡ some s → ⊥
        garbage q = let p = parse_semver_v u in cc

-- What is read of a tag without its "v".
abbrev parse_trimmed : List ℕ → Option Semver
parse_trimmed t = parse_parts (split_dots (cut b'+' (cut b'-' t).0).0) (or_nothing (cut b'-' t).1)

parse_semver-parse_trimmed : (tag : List ℕ) → parse_semver tag ≡ parse_trimmed (trim_v tag)
unfolding parse_semver
parse_semver-parse_trimmed tag = refl

pub parse_semver-trim_v :
    (tag : List ℕ) (s : Semver) → parse_semver tag ≡ some s → parse_semver (trim_v tag) ≡ some s
parse_semver-trim_v tag s h =
    parse_semver-parse_trimmed (trim_v tag)
    ∙ ap parse_trimmed (trim_v_once tag s h)
    ∙ sym (parse_semver-parse_trimmed tag)
    ∙ h
