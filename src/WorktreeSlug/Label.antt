-- ===== src/WorktreeSlug/Label.antt =====
-- internal/sites/worktree_slug.go: texts of lowercase letters, digits and single dashes.
use locorum.Common.{
  ℕ, zero, suc, ◌≡◌, refl, Bool, true, ◌&&◌, ◌||◌, not, List, [], ◌∷◌, ◌++◌, take, if◌then◌else◌,
  ◌⊎◌, inl, inr, arith,
}
use locorum.Common.Text.{is_upper, trim_right, drop_last}
use locorum.WorktreeSlug.{is_dash, is_alnum, dash_runs, or_default}

-- Lowercase letters, digits and dashes, where no dash follows a dash, or follows `prev`.
abbrev pub has_runs : Bool → List ℕ → Bool
has_runs prev [] = true
has_runs prev (c ∷ s) =
    let rest = has_runs (is_dash c) s in if is_dash c then not prev && rest else is_alnum c && rest

-- The same, and a dash does not end it. With `prev` set it is not empty either.
abbrev pub is_label : Bool → List ℕ → Bool
is_label prev [] = not prev
is_label prev (c ∷ s) =
    let rest = is_label (is_dash c) s in if is_dash c then not prev && rest else is_alnum c && rest

-- A label: not empty, no dash at an end, no two dashes in a row.
abbrev pub IsLabel : List ℕ → Type 0
IsLabel s = is_label true s ≡ true

pub dash_runs-has_runs : (prev : Bool) (s : List ℕ) → has_runs prev (dash_runs prev s) ≡ true
unfolding dash_runs
dash_runs-has_runs prev [] = refl
dash_runs-has_runs prev (c ∷ s) =
    ground (arith, dash_runs-has_runs (not (is_alnum c || is_upper c)) s)

pub has_runs-take :
    (n : ℕ) (prev : Bool) (s : List ℕ) → is_label prev s ≡ true → has_runs prev (take n s) ≡ true
has_runs-take zero prev s h = refl
has_runs-take (suc n) prev [] h = refl
has_runs-take (suc n) prev (c ∷ s) h = ground (arith, has_runs-take n (is_dash c) s)

may_start : Bool → ℕ → Bool
may_start prev c = if is_dash c then not prev else is_alnum c

has_runs-head :
    (prev : Bool) (c : ℕ) (s : List ℕ) → has_runs prev (c ∷ s) ≡ true → may_start prev c ≡ true
unfolding may_start
has_runs-head prev c s h = ground arith

has_runs-tail :
    (prev : Bool) (c : ℕ) (s : List ℕ)
    → has_runs prev (c ∷ s) ≡ true
    → has_runs (is_dash c) s ≡ true
has_runs-tail prev c s h = ground arith

drop_last-is_label :
    (prev : Bool) (c : ℕ) (t : List ℕ)
    → (t ≡ []) ⊎ (is_label (is_dash c) t ≡ true)
    → may_start prev c ≡ true
    → (drop_last (is_dash c) c t ≡ []) ⊎ (is_label prev (drop_last (is_dash c) c t) ≡ true)
unfolding may_start
drop_last-is_label prev c [] h m = ground arith
drop_last-is_label prev c (d ∷ t) (inl e) m = cc
drop_last-is_label prev c (d ∷ t) (inr l) m = inr (ground arith)

-- Trimmed runs are a label, or nothing.
pub trim_right-is_label :
    (prev : Bool) (s : List ℕ)
    → has_runs prev s ≡ true
    → (trim_right is_dash s ≡ []) ⊎ (is_label prev (trim_right is_dash s) ≡ true)
unfolding trim_right
trim_right-is_label prev [] h = inl refl
trim_right-is_label prev (c ∷ s) h =
    drop_last-is_label prev c (trim_right is_dash s)
      (trim_right-is_label (is_dash c) s (has_runs-tail prev c s h)) (has_runs-head prev c s h)

pub or_default-IsLabel :
    (fallback s : List ℕ)
    → IsLabel fallback
    → (s ≡ []) ⊎ IsLabel s
    → IsLabel (or_default fallback s)
or_default-IsLabel fallback [] f h = f
or_default-IsLabel fallback (c ∷ s) f (inl e) = cc
or_default-IsLabel fallback (c ∷ s) f (inr l) = l

pub is_label-join :
    (prev : Bool) (a b : List ℕ)
    → is_label prev a ≡ true
    → IsLabel b
    → is_label prev (a ++ b'-' ∷ b) ≡ true
is_label-join prev [] b h l = ground arith
is_label-join prev (c ∷ a) b h l = ground (arith, is_label-join (is_dash c) a b)

next_flag :
    (prev : Bool) (c : ℕ) (s : List ℕ)
    → is_label prev (c ∷ s) ≡ true
    → not (is_alnum c || is_upper c) ≡ is_dash c
next_flag prev c s h = ground arith

-- A label is left as it is.
pub dash_runs-id : (prev : Bool) (s : List ℕ) → is_label prev s ≡ true → dash_runs prev s ≡ s
unfolding dash_runs
dash_runs-id prev [] h = refl
dash_runs-id prev (c ∷ s) h = ground (arith, next_flag prev c s h, dash_runs-id (is_dash c) s)

pub trim_right-id : (prev : Bool) (s : List ℕ) → is_label prev s ≡ true → trim_right is_dash s ≡ s
unfolding trim_right
trim_right-id prev [] h = refl
trim_right-id prev (c ∷ []) h = ground arith
trim_right-id prev (c ∷ d ∷ s) h = ground (arith, trim_right-id (is_dash c) (d ∷ s))
