-- ===== src/Username/Name.antt =====
-- internal/platform/user.go: texts of allowed bytes without two dashes in a row.
use locorum.Common.{
  ℕ, zero, suc, ◌≡◌, refl, sym, ◌∙◌, Bool, true, false, ◌&&◌, not, List, [], ◌∷◌, take, Bool-cases,
  inl, inr, arith,
}
use locorum.Common.Text.{is_lower, trim_left, trim_right, drop_last, contains, has_prefix, codes}
use locorum.Username.{is_dash, is_cut, is_allowed, keep, collapse_from, collapse_dashes}

-- Allowed bytes, where no dash follows a dash, or follows `prev`.
abbrev pub has_runs : Bool → List ℕ → Bool
has_runs prev [] = true
has_runs prev (c ∷ s) =
    let rest = has_runs (is_dash c) s in is_allowed c && not (prev && is_dash c) && rest

-- The same, and neither a dash nor a dot ends it; `ended` is for the empty text.
abbrev pub is_trimmed : Bool → Bool → List ℕ → Bool
is_trimmed prev ended [] = ended
is_trimmed prev ended (c ∷ s) =
    let rest = is_trimmed (is_dash c) (not (is_cut c)) s in
    is_allowed c && not (prev && is_dash c) && rest

-- Neither a dash nor a dot starts it.
abbrev pub starts : List ℕ → Bool
starts [] = true
starts (c ∷ s) = not (is_cut c)

-- A user name: a lowercase letter, then allowed bytes; no two dashes in a row, no dash or dot at the
-- end.
abbrev pub is_username : List ℕ → Bool
is_username [] = false
is_username (c ∷ s) = is_lower c && is_trimmed false true (c ∷ s)

abbrev pub all_allowed : List ℕ → Bool
all_allowed [] = true
all_allowed (c ∷ s) = is_allowed c && all_allowed s

pub keep-all_allowed : (s : List ℕ) → all_allowed (keep is_allowed s) ≡ true
unfolding keep
keep-all_allowed [] = refl
keep-all_allowed (c ∷ s) = ground (arith, keep-all_allowed s)

pub collapse_from-has_runs :
    (prev : Bool) (s : List ℕ) → all_allowed s ≡ true → has_runs prev (collapse_from prev s) ≡ true
unfolding collapse_from
collapse_from-has_runs prev [] h = refl
collapse_from-has_runs prev (c ∷ s) h = ground (arith, collapse_from-has_runs (is_dash c) s)

-- A text without two dashes in a row is left as it is by the loop.
pub collapse_from-id :
    (prev : Bool) (s : List ℕ) → has_runs prev s ≡ true → collapse_from prev s ≡ s
unfolding collapse_from
collapse_from-id prev [] h = refl
collapse_from-id prev (c ∷ s) h = ground (arith, collapse_from-id (is_dash c) s)

abbrev dash_first : List ℕ → Bool
dash_first [] = false
dash_first (c ∷ s) = is_dash c

two_dashes : (c : ℕ) (s : List ℕ) → has_prefix (codes "--") (c ∷ s) ≡ is_dash c && dash_first s
unfolding has_prefix
two_dashes c [] = ground arith
two_dashes c (d ∷ s) = ground arith

no_two_dashes :
    (prev : Bool) (s : List ℕ)
    → all_allowed s ≡ true
    → contains s (codes "--") ≡ false
    → prev && dash_first s ≡ false
    → has_runs prev s ≡ true
unfolding contains
no_two_dashes prev [] h n m = refl
no_two_dashes prev (c ∷ s) h n m =
    let two : has_prefix (codes "--") (c ∷ s) ≡ false = ground arith in
    let first : is_dash c && dash_first s ≡ false = sym (two_dashes c s) ∙ two in
    let rest : has_runs (is_dash c) s ≡ true =
      no_two_dashes (is_dash c) s (ground arith) (ground arith) first in
    ground arith

-- The test for two dashes in a row only spares the loop its work.
pub collapse_dashes-collapse_from :
    (s : List ℕ) → all_allowed s ≡ true → collapse_dashes s ≡ collapse_from false s
unfolding collapse_dashes
collapse_dashes-collapse_from s h = elim (Bool-cases (contains s (codes "--"))) [
  | inl two ↦ rw (two) refl
  | inr one ↦ rw (one) (sym (collapse_from-id false s (no_two_dashes false s h one refl)))
]

pub trim_left-has_runs :
    (prev : Bool) (s : List ℕ) → has_runs prev s ≡ true → has_runs false (trim_left is_cut s) ≡ true
unfolding trim_left
trim_left-has_runs prev [] h = refl
trim_left-has_runs prev (c ∷ s) h = ground (arith, trim_left-has_runs (is_dash c) s)

pub trim_left-starts : (s : List ℕ) → starts (trim_left is_cut s) ≡ true
unfolding trim_left
trim_left-starts [] = refl
trim_left-starts (c ∷ s) = ground (arith, trim_left-starts s)

pub take-has_runs :
    (n : ℕ) (prev ended : Bool) (s : List ℕ)
    → is_trimmed prev ended s ≡ true
    → has_runs prev (take n s) ≡ true
take-has_runs zero prev ended s h = refl
take-has_runs (suc n) prev ended [] h = refl
take-has_runs (suc n) prev ended (c ∷ s) h =
    ground (arith, take-has_runs n (is_dash c) (not (is_cut c)) s)

pub take-starts : (n : ℕ) (s : List ℕ) → starts s ≡ true → starts (take n s) ≡ true
take-starts zero s h = refl
take-starts (suc n) [] h = refl
take-starts (suc n) (c ∷ s) h = h

drop_last-is_trimmed :
    (prev : Bool) (c : ℕ) (t : List ℕ)
    → is_allowed c && not (prev && is_dash c) ≡ true
    → is_trimmed (is_dash c) true t ≡ true
    → is_trimmed prev true (drop_last (is_cut c) c t) ≡ true
drop_last-is_trimmed prev c [] a h = ground arith
drop_last-is_trimmed prev c (d ∷ t) a h = ground arith

pub trim_right-is_trimmed :
    (prev : Bool) (s : List ℕ)
    → has_runs prev s ≡ true
    → is_trimmed prev true (trim_right is_cut s) ≡ true
unfolding trim_right
trim_right-is_trimmed prev [] h = refl
trim_right-is_trimmed prev (c ∷ s) h =
    drop_last-is_trimmed prev c (trim_right is_cut s) (ground arith)
      (trim_right-is_trimmed (is_dash c) s (ground arith))

pub trim_right-starts : (s : List ℕ) → starts s ≡ true → starts (trim_right is_cut s) ≡ true
unfolding trim_right
trim_right-starts [] h = refl
trim_right-starts (c ∷ s) h = let e : is_cut c ≡ false = ground arith in rw (e) (rw (e) refl)

drop_last-id :
    (prev ended : Bool) (c : ℕ) (s : List ℕ)
    → is_trimmed prev ended (c ∷ s) ≡ true
    → drop_last (is_cut c) c s ≡ c ∷ s
drop_last-id prev ended c [] h = let e : is_cut c ≡ false = ground arith in rw (e) refl
drop_last-id prev ended c (d ∷ s) h = elim (Bool-cases (is_cut c)) [
  | inl e ↦ rw (e) refl
  | inr e ↦ rw (e) refl
]

is_trimmed-tail :
    (prev ended : Bool) (c : ℕ) (s : List ℕ)
    → is_trimmed prev ended (c ∷ s) ≡ true
    → is_trimmed (is_dash c) (not (is_cut c)) s ≡ true
is_trimmed-tail prev ended c s h = ground arith

-- A trimmed text is left as it is.
pub trim_right-id :
    (prev ended : Bool) (s : List ℕ) → is_trimmed prev ended s ≡ true → trim_right is_cut s ≡ s
unfolding trim_right
trim_right-id prev ended [] h = refl
trim_right-id prev ended (c ∷ s) h =
    rw (trim_right-id (is_dash c) (not (is_cut c)) s (is_trimmed-tail prev ended c s h))
      (drop_last-id prev ended c s h)
