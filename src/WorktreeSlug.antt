-- ===== src/WorktreeSlug.antt =====
-- internal/sites/worktree_slug.go: the DNS label of a worktree-bound site. A text is the list of its
-- bytes. `range branch` reads runes, but every byte of a rune beyond ASCII is treated like the rune
-- itself: the first one writes the dash, the others find it written.
pub mod Label
pub mod Slug
mod Tests
use locorum.Common.{
  ℕ, ◌+◌, ◌-◌, Bool, true, false, ◌||◌, not, Option, none, some, List, [], ◌∷◌, ◌++◌, length, take,
  ltb, ◌==◌, if◌then◌else◌, String,
}
use locorum.Common.Text.{
  codes, is_lower, is_digit, is_upper, contains, is_space, trim_left, trim_right,
}

abbrev pub worktree_slug_branch_max : ℕ
worktree_slug_branch_max = 18

abbrev pub worktree_hash_len : ℕ
worktree_hash_len = 6

abbrev pub dns_label_max : ℕ
dns_label_max = 63

abbrev pub is_dash : ℕ → Bool
is_dash c = c == b'-'

abbrev pub is_alnum : ℕ → Bool
is_alnum c = is_lower c || is_digit c

-- The loop of `sanitiseBranchForSlug`; the flag is `prevDash`, which every round sets anew.
unfoldable pub dash_runs : Bool → List ℕ → List ℕ
dash_runs prev_dash [] = []
dash_runs prev_dash (r ∷ branch) =
    let rest = dash_runs (not (is_alnum r || is_upper r)) branch in
    if is_alnum r
    then r ∷ rest
    else if is_upper r
    then (r + 32) ∷ rest
    else if prev_dash
    then rest
    else b'-' ∷ rest

unfoldable pub sanitise_branch_for_slug : List ℕ → List ℕ
unfolding dash_runs trim_right
sanitise_branch_for_slug branch = trim_right is_dash (dash_runs true branch)

-- `if s == "" { s = fallback }`
abbrev pub or_default : List ℕ → List ℕ → List ℕ
or_default fallback [] = fallback
or_default fallback (c ∷ s) = c ∷ s

unfoldable pub safe_branch : List ℕ → List ℕ
unfolding sanitise_branch_for_slug trim_right
safe_branch branch =
    let s = or_default (codes "branch") (sanitise_branch_for_slug branch) in
    if ltb worktree_slug_branch_max (length s)
    then or_default (codes "branch") (trim_right is_dash (take worktree_slug_branch_max s))
    else s

-- The parent's part, cut to `max_parent` bytes.
unfoldable pub prune : ℕ → List ℕ → List ℕ
unfolding trim_right
prune max_parent parent =
    if ltb max_parent (length parent)
    then or_default (codes "site") (trim_right is_dash (take max_parent parent))
    else parent

-- `maxParent` is signed in the source, and is 0 here where it would be negative.
unfoldable pub compose : List ℕ → List ℕ → List ℕ → List ℕ
unfolding prune
compose parent safe hash_hex =
    let max_parent = dns_label_max - length safe - worktree_hash_len - 2 in
    if ltb max_parent 1
    then safe ++ b'-' ∷ hash_hex
    else prune max_parent parent ++ b'-' ∷ (safe ++ b'-' ∷ hash_hex)

-- `sha256_hex` is the lowercase hexadecimal digest of crypto/sha256.
module _ (sha256_hex : List ℕ → List ℕ) where
  unfoldable pub worktree_slug : List ℕ → List ℕ → List ℕ → List ℕ
  unfolding safe_branch compose
  worktree_slug parent branch path =
      let hash_hex = take worktree_hash_len (sha256_hex (parent ++ 0 ∷ (branch ++ 0 ∷ path))) in
      compose parent (safe_branch branch) hash_hex

  unfoldable pub worktree_domain : List ℕ → List ℕ → List ℕ → List ℕ
  unfolding worktree_slug
  worktree_domain parent branch path = worktree_slug parent branch path ++ codes ".localhost"

pub data OptsError : Type 0 where
  remote_required branch_required nul_byte dot_dot : OptsError

abbrev is_blank : List ℕ → Bool
is_blank [] = true
is_blank (_ ∷ _) = false

-- Here a text is the list of its runes, since strings.TrimSpace asks what a rune is.
unfoldable pub validate_worktree_opts : List ℕ → List ℕ → List ℕ → Option OptsError
unfolding contains trim_left
validate_worktree_opts remote branch path =
    if is_blank (trim_left is_space remote)
    then some remote_required
    else if is_blank (trim_left is_space branch)
    then some branch_required
    else if contains remote (0 ∷ []) || contains branch (0 ∷ []) || contains path (0 ∷ [])
    then some nul_byte
    else if contains path (codes "..")
    then some dot_dot
    else none
