-- ===== src/Username/Shape.antt =====
-- internal/platform/user.go: what every sanitised name looks like.
use locorum.Common.{
  ℕ, ◌≤◌, ◌≡◌, refl, true, false, List, [], ◌∷◌, ◌++◌, length, length-take, take, map, ltb,
  Bool-cases, ◌⊎◌, inl, inr, arith,
}
use locorum.Common.Text.{
  equals-≡, codes, equals, is_lower, trim_left, trim_right, trim_right-length,
}
use locorum.Username.{
  Unicode, is_cut, keep, is_allowed, collapse_dashes, truncate, with_prefix, or_locorum, clean,
  shorten, sanitise_username, lower_rune, replace_separator, strip_combining,
  max_sanitised_username_len,
}
use locorum.Username.Name.{
  has_runs, is_trimmed, starts, is_username, all_allowed, keep-all_allowed, collapse_from-has_runs,
  collapse_dashes-collapse_from, trim_left-has_runs, trim_left-starts, take-has_runs, take-starts,
  trim_right-is_trimmed, trim_right-starts,
}

false_not_true : false ≡ true → ⊥
false_not_true e = cc

-- A cut text that starts and ends well does so after the cut.
truncate-is_trimmed :
    (s : List ℕ)
    → is_trimmed false true s ≡ true
    → starts s ≡ true
    → (is_trimmed false true (truncate s) ≡ true)
      × (starts (truncate s) ≡ true)
      × (length (truncate s) ≤ 32)
unfolding truncate
truncate-is_trimmed s t h = elim (Bool-cases (ltb 32 (length s))) [
  | inl long ↦ rw (long) (
    trim_right-is_trimmed false (take 32 s) (take-has_runs 32 false true s t),
    trim_right-starts (take 32 s) (take-starts 32 s h),
    omega (arith, trim_right-length is_cut (take 32 s), length-take 32 s),
  )
  | inr short ↦ rw (short) (t, h, ground arith)
]

-- A first byte that is not cut stays.
truncate-head : (c : ℕ) (s : List ℕ) → is_cut c ≡ false → (r : List ℕ) × (truncate (c ∷ s) ≡ c ∷ r)
unfolding truncate trim_right
truncate-head c s h = elim (Bool-cases (ltb 32 (length (c ∷ s)))) [
  | inl long ↦ (trim_right is_cut (take 31 s), rw (long, h) refl)
  | inr short ↦ (s, rw (short) refl)
]

prefixed-is_username :
    (r s : List ℕ) → r ≡ b'u' ∷ s → is_trimmed false true r ≡ true → is_username r ≡ true
prefixed-is_username r s e t = rw (e) (rw (e) at t)

letter-is_username :
    (c : ℕ) (s : List ℕ)
    → is_lower c ≡ true
    → is_trimmed false true (c ∷ s) ≡ true
    → is_username (c ∷ s) ≡ true
letter-is_username c s l t = ground arith

named :
    (r s : List ℕ)
    → r ≡ s
    → is_username s ≡ true
    → length s ≤ 32
    → (r ≡ codes "u-") ⊎ ((is_username r ≡ true) × (length r ≤ 32))
named r s e name short = rw (e) (inr (name, short))

with_prefix-is_username :
    (s : List ℕ)
    → is_trimmed false true s ≡ true
    → starts s ≡ true
    → length s ≤ 32
    → (with_prefix s ≡ codes "u-")
      ⊎ ((is_username (with_prefix s) ≡ true) × (length (with_prefix s) ≤ 32))
unfolding with_prefix truncate
with_prefix-is_username [] t h n = inl refl
with_prefix-is_username (c ∷ s) t h n = elim (Bool-cases (is_lower c)) [
  | inl letter ↦
      named (with_prefix (c ∷ s)) (c ∷ s) (rw (letter) refl) (letter-is_username c s letter t) n
  | inr other ↦
      let long = codes "u-" ++ c ∷ s in
      let well : is_trimmed false true long ≡ true = ground arith in
      let (t', h', n') = truncate-is_trimmed long well refl in
      let (r, e) = truncate-head b'u' (b'-' ∷ c ∷ s) refl in
      named (with_prefix (c ∷ s)) (truncate long) (rw (other) refl)
        (prefixed-is_username (truncate long) r e t') n'
]

not_bare : (s : List ℕ) → s ≡ codes "u-" → is_username s ≡ true → ⊥
not_bare s e h = false_not_true (rw (e) at h)

pub or_locorum-id : (s : List ℕ) → is_username s ≡ true → or_locorum s ≡ s
unfolding or_locorum equals
or_locorum-id [] h = absurd (false_not_true h)
or_locorum-id (c ∷ s) h = elim (Bool-cases (equals (c ∷ s) (codes "u-"))) [
  | inl same ↦ absurd (not_bare (c ∷ s) (equals-≡ (c ∷ s) (codes "u-") same) h)
  | inr other ↦ rw (other) refl
]

shorten-is_username :
    (s : List ℕ)
    → all_allowed s ≡ true
    → (is_username (shorten s) ≡ true) × (length (shorten s) ≤ 32)
unfolding shorten
shorten-is_username s a =
    let runs : has_runs false (collapse_dashes s) ≡ true =
      rw (collapse_dashes-collapse_from s a) (collapse_from-has_runs false s a) in
    let left = trim_left is_cut (collapse_dashes s) in
    let (t, h, n) =
      truncate-is_trimmed (trim_right is_cut left)
        (trim_right-is_trimmed false left (trim_left-has_runs false (collapse_dashes s) runs))
        (trim_right-starts left (trim_left-starts (collapse_dashes s))) in
    elim (with_prefix-is_username (truncate (trim_right is_cut left)) t h n) [
      | inl bare ↦ rw (bare) (unfold or_locorum in (refl, omega arith))
      | inr (name, short) ↦
          rw (or_locorum-id (with_prefix (truncate (trim_right is_cut left))) name) (name, short)
    ]

-- Whatever the login name and the Unicode tables are, the sanitised name is a user name of at most 32
-- bytes: a lowercase letter, then lowercase letters, digits, dots, dashes and underscores, with no two
-- dashes in a row, and neither a dash nor a dot at the end.
pub sanitise_username-is_username :
    (u : Unicode) (s : List ℕ)
    → (is_username (sanitise_username u s) ≡ true)
      × (length (sanitise_username u s) ≤ max_sanitised_username_len)
unfolding sanitise_username clean
sanitise_username-is_username u s =
    let runes = map lower_rune (map replace_separator (strip_combining u (u.nfkc s))) in
    shorten-is_username (keep is_allowed runes) (keep-all_allowed runes)
