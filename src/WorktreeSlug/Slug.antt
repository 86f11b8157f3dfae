-- ===== src/WorktreeSlug/Slug.antt =====
-- internal/sites/worktree_slug.go: every derived slug is a DNS label.
use locorum.Common.{
  ℕ, ◌+◌, ◌-◌, ◌≤◌, ◌<◌, ◌≡◌, refl, Bool, true, false, ◌||◌, ◌&&◌, List, [], ◌∷◌, ◌++◌, length,
  take, length-append, length-take, ltb, leb, ◌⊎◌, inl, inr, All, All-take, Bool-cases, arith,
}
use locorum.Common.Text.{codes, is_digit, trim_right, trim_right-length}
use locorum.WorktreeSlug.{
  worktree_hash_len, dns_label_max, is_dash, dash_runs, sanitise_branch_for_slug, or_default,
  safe_branch, prune, compose, worktree_slug,
}
use locorum.WorktreeSlug.Label.{
  is_label, IsLabel, dash_runs-has_runs, has_runs-take, trim_right-is_label, or_default-IsLabel,
  is_label-join, dash_runs-id, trim_right-id,
}

-- What the program relies on of the digest: at least six lowercase hexadecimal digits.
abbrev pub is_hex : ℕ → Bool
is_hex c = is_digit c || leb b'a' c && leb c b'f'

pub record IsHexDigest (sha256_hex : List ℕ → List ℕ) : Type 0 where
  pub hex : (s : List ℕ) → All (λ c. is_hex c ≡ true) (sha256_hex s)
  pub long : (s : List ℕ) → worktree_hash_len ≤ length (sha256_hex s)

sanitise-id : (s : List ℕ) → IsLabel s → sanitise_branch_for_slug s ≡ s
unfolding sanitise_branch_for_slug
sanitise-id s l = rw (dash_runs-id true s l) (trim_right-id true s l)

pub sanitise-IsLabel :
    (branch : List ℕ)
    → (sanitise_branch_for_slug branch ≡ []) ⊎ IsLabel (sanitise_branch_for_slug branch)
unfolding sanitise_branch_for_slug
sanitise-IsLabel branch =
    trim_right-is_label true (dash_runs true branch) (dash_runs-has_runs true branch)

cut-IsLabel :
    (fallback s : List ℕ) (n : ℕ)
    → IsLabel fallback
    → IsLabel s
    → IsLabel (or_default fallback (trim_right is_dash (take n s)))
cut-IsLabel fallback s n f l =
    or_default-IsLabel fallback (trim_right is_dash (take n s)) f
      (trim_right-is_label true (take n s) (has_runs-take n true s l))

length-or_default :
    (fallback s : List ℕ) (n : ℕ)
    → length fallback ≤ n
    → length s ≤ n
    → length (or_default fallback s) ≤ n
length-or_default fallback [] n f h = f
length-or_default fallback (c ∷ s) n f h = h

length-cut :
    (fallback s : List ℕ) (n : ℕ)
    → length fallback ≤ n
    → length (or_default fallback (trim_right is_dash (take n s))) ≤ n
length-cut fallback s n f =
    length-or_default fallback (trim_right is_dash (take n s)) n f
      (omega (arith, trim_right-length is_dash (take n s), length-take n s))

pub safe_branch-IsLabel :
    (branch : List ℕ) → IsLabel (safe_branch branch) × (length (safe_branch branch) ≤ 18)
unfolding safe_branch
safe_branch-IsLabel branch =
    let s = or_default (codes "branch") (sanitise_branch_for_slug branch) in
    let l : IsLabel s =
      or_default-IsLabel (codes "branch") (sanitise_branch_for_slug branch) refl
        (sanitise-IsLabel branch) in
    elim (Bool-cases (ltb 18 (length s))) [
      | inl long ↦
          rw long (
            cut-IsLabel (codes "branch") s 18 refl l,
            length-cut (codes "branch") s 18 (omega arith),
          )
      | inr short ↦ rw short (l, ground arith)
    ]

hex-is_label :
    (prev : Bool) (s : List ℕ)
    → All (λ c. is_hex c ≡ true) s
    → 0 < length s
    → is_label prev s ≡ true
hex-is_label prev [] h p = absurd (omega arith)
hex-is_label prev (c ∷ []) h p = ground arith
hex-is_label prev (c ∷ d ∷ s) h p = ground (arith, hex-is_label false (d ∷ s) h.1 (omega arith))

prune-IsLabel :
    (max : ℕ) (parent : List ℕ)
    → 4 ≤ max
    → IsLabel parent
    → IsLabel (prune max parent) × (length (prune max parent) ≤ max)
unfolding prune
prune-IsLabel max parent h l = elim (Bool-cases (ltb max (length parent))) [
  | inl long ↦
      rw long (cut-IsLabel (codes "site") parent max refl l, length-cut (codes "site") parent max h)
  | inr short ↦ rw short (l, ground arith)
]

length-join : (a b : List ℕ) (c : ℕ) → length (a ++ c ∷ b) ≡ length a + length b + 1
length-join a b c = omega (arith, length-append a (c ∷ b))

compose-IsLabel :
    (parent safe hash_hex : List ℕ)
    → IsLabel parent
    → IsLabel safe
    → IsLabel hash_hex
    → length safe ≤ 18
    → length hash_hex ≡ 6
    → IsLabel (compose parent safe hash_hex) × (length (compose parent safe hash_hex) ≤ 63)
unfolding compose
compose-IsLabel parent safe hash_hex p s h ls lh =
    let max = dns_label_max - length safe - worktree_hash_len - 2 in
    let room : ltb max 1 ≡ false = ground arith in
    let (pl, pn) = prune-IsLabel max parent (omega arith) p in
    rw room (
      is_label-join true (prune max parent) (safe ++ b'-' ∷ hash_hex) pl
          (is_label-join true safe hash_hex s h),
      omega (
        arith,
        pn,
        length-join (prune max parent) (safe ++ b'-' ∷ hash_hex) b'-',
        length-join safe hash_hex b'-',
      ),
    )

-- For a parent slug that is a label and a digest of at least six hexadecimal digits, whatever the
-- branch and the path are, the derived slug is a label: it has 1 to 63 lowercase letters, digits and
-- dashes, with no dash at an end and no two dashes in a row.
pub worktree_slug-IsLabel :
    (sha256_hex : List ℕ → List ℕ) (parent branch path : List ℕ)
    → IsHexDigest sha256_hex
    → IsLabel parent
    → IsLabel (worktree_slug sha256_hex parent branch path)
      × (length (worktree_slug sha256_hex parent branch path) ≤ dns_label_max)
unfolding worktree_slug
worktree_slug-IsLabel sha256_hex parent branch path d p =
    let digest = sha256_hex (parent ++ 0 ∷ (branch ++ 0 ∷ path)) in
    let n : length (take 6 digest) ≡ 6 =
      omega (arith, length-take 6 digest, d.long (parent ++ 0 ∷ (branch ++ 0 ∷ path))) in
    let b = safe_branch-IsLabel branch in
    compose-IsLabel parent (safe_branch branch) (take 6 digest) p b.0
      (hex-is_label true (take 6 digest)
        (All-take _ 6 digest (d.hex (parent ++ 0 ∷ (branch ++ 0 ∷ path)))) (omega (arith, n)))
      b.1 n

-- Sanitising a branch name once more changes nothing.
sanitise_idem :
    (branch : List ℕ)
    → sanitise_branch_for_slug (sanitise_branch_for_slug branch) ≡ sanitise_branch_for_slug branch
sanitise_idem branch = elim (sanitise-IsLabel branch) [
  | inl e ↦ rw e (unfold sanitise_branch_for_slug in refl)
  | inr l ↦ sanitise-id (sanitise_branch_for_slug branch) l
]
