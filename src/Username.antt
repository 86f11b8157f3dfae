-- ===== src/Username.antt =====
-- internal/platform/user.go: names for containers from the login name of the host. A text is the list
-- of its runes; from the fifth step on they are ASCII, so that they are its bytes as well.
pub mod Name
pub mod Shape
pub mod Again
mod Tests
use locorum.Common.{
  ℕ, ◌+◌, Bool, true, false, ◌||◌, ◌&&◌, not, List, [], ◌∷◌, ◌++◌, map, length, take, ltb, ◌==◌,
  if◌then◌else◌,
}
use locorum.Common.Text.{
  codes, equals, contains, is_lower, is_upper, is_digit, is_space, trim_left, trim_right,
}

abbrev pub max_sanitised_username_len : ℕ
max_sanitised_username_len = 32

-- golang.org/x/text/unicode/norm, and the table unicode.Mn of combining marks.
pub record Unicode : Type 0 where
  pub nfkc : List ℕ → List ℕ
  pub nfd : List ℕ → List ℕ
  pub is_mn : ℕ → Bool

-- The runes for which a test holds.
unfoldable pub keep : (ℕ → Bool) → List ℕ → List ℕ
keep p [] = []
keep p (c ∷ s) = let rest = keep p s in if p c then c ∷ rest else rest

unfoldable pub strip_combining : Unicode → List ℕ → List ℕ
unfolding keep
strip_combining u s = keep (λ c. not (u.is_mn c)) (u.nfd s)

abbrev pub replace_separator : ℕ → ℕ
replace_separator r = if r == b'\\' || r == b'/' || is_space r then b'-' else r

-- strings.ToLower, as far as the next step can tell: beyond ASCII, only the dotted capital I and the
-- Kelvin sign have a lowercase letter in ASCII.
abbrev pub lower_rune : ℕ → ℕ
lower_rune r =
    if is_upper r then r + 32 else if r == 0x130 then b'i' else if r == 0x212a then b'k' else r

abbrev pub is_dash : ℕ → Bool
is_dash c = c == b'-'

abbrev pub is_allowed : ℕ → Bool
is_allowed c = is_lower c || is_digit c || c == b'.' || c == b'-' || c == b'_'

-- The cut set of strings.Trim.
abbrev pub is_cut : ℕ → Bool
is_cut c = c == b'-' || c == b'.'

-- The loop of `collapseDashes`, with its flag `prevDash`.
unfoldable pub collapse_from : Bool → List ℕ → List ℕ
collapse_from prev_dash [] = []
collapse_from prev_dash (c ∷ s) =
    let rest = collapse_from (is_dash c) s in if is_dash c && prev_dash then rest else c ∷ rest

unfoldable pub collapse_dashes : List ℕ → List ℕ
unfolding contains collapse_from
collapse_dashes s = if not (contains s (codes "--")) then s else collapse_from false s

unfoldable pub truncate : List ℕ → List ℕ
unfolding trim_right
truncate s =
    if ltb max_sanitised_username_len (length s)
    then trim_right is_cut (take max_sanitised_username_len s)
    else s

-- Step 8: a first byte that is no letter goes behind a prefix.
unfoldable pub with_prefix : List ℕ → List ℕ
unfolding truncate
with_prefix [] = truncate (codes "u-")
with_prefix (c ∷ s) = if is_lower c then c ∷ s else truncate (codes "u-" ++ c ∷ s)

unfoldable pub or_locorum : List ℕ → List ℕ
unfolding equals
or_locorum s = if equals s [] || equals s (codes "u-") then codes "locorum" else s

-- Steps 3 to 5, and steps 6 to 8.
unfoldable pub clean : List ℕ → List ℕ
unfolding keep
clean s = keep is_allowed (map lower_rune (map replace_separator s))

unfoldable pub shorten : List ℕ → List ℕ
unfolding collapse_dashes trim_left trim_right truncate with_prefix or_locorum
shorten s =
    or_locorum (with_prefix (truncate (trim_right is_cut (trim_left is_cut (collapse_dashes s)))))

unfoldable pub sanitise_username : Unicode → List ℕ → List ℕ
unfolding strip_combining clean shorten
sanitise_username u s = shorten (clean (strip_combining u (u.nfkc s)))
