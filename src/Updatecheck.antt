-- ===== src/Updatecheck.antt =====
-- internal/updatecheck/updatecheck.go: versions, the choice of a release, and the throttled check. Texts
-- are lists of bytes. Times are nanoseconds.
pub mod Comparison
pub mod Order
pub mod Higher
pub mod Check
mod Tests
use locorum.Common.{
  ℕ, zero, suc, ◌+◌, ◌*◌, ◌/◌, Bool, true, false, ◌&&◌, ◌||◌, not, Option, none, some, List, [],
  ◌∷◌, ltb, leb, ◌==◌, if◌then◌else◌, ◌>>=◌,
}
use locorum.Common.Text.{codes, equals}
use locorum.Common.Int.{ℤ, pos, negsuc}
use locorum.Common.Decimal.{atoi}

-- The results -1, 0 and 1 of a comparison.
pub data Sign : Type 0 where
  below same above : Sign

abbrev pub is_above : Sign → Bool
is_above above = true
is_above same = false
is_above below = false

pub record Semver : Type 0 where
  pub major : ℤ
  pub minor : ℤ
  pub patch : ℤ
  pub pre : List ℕ

-- strings.TrimPrefix with "v".
abbrev pub trim_v : List ℕ → List ℕ
trim_v [] = []
trim_v (c ∷ s) = if c == b'v' then s else c ∷ s

-- What stands before the first occurrence of a byte, and what after it.
unfoldable pub cut : ℕ → List ℕ → List ℕ × Option (List ℕ)
cut b [] = ([], none)
cut b (c ∷ s) =
    let (before, after) = cut b s in if c == b then ([], some s) else (c ∷ before, after)

abbrev pub or_nothing : Option (List ℕ) → List ℕ
or_nothing none = []
or_nothing (some s) = s

-- strings.SplitN with "." and 3.
unfoldable pub split_dots : List ℕ → List (List ℕ)
unfolding cut
split_dots tag =
    let (first, rest) = cut b'.' tag in
    elim rest [
      | none ↦ first ∷ []
      | some s ↦
          let (second, rest') = cut b'.' s in
          elim rest' [ none ↦ first ∷ second ∷ [] | some third ↦ first ∷ second ∷ third ∷ [] ]
    ]

unfoldable pub parse_parts : List (List ℕ) → List ℕ → Option Semver
parse_parts [] pre = none
parse_parts (first ∷ []) pre = none
parse_parts (first ∷ second ∷ []) pre = do
  mj ← atoi first
  mn ← atoi second
  some (record { major = mj; minor = mn; patch = pos 0; pre = pre })
parse_parts (first ∷ second ∷ third ∷ parts) pre = do
  mj ← atoi first
  mn ← atoi second
  pt ← atoi third
  some (record { major = mj; minor = mn; patch = pt; pre = pre })

unfoldable pub parse_semver : List ℕ → Option Semver
unfolding cut split_dots parse_parts
parse_semver tag =
    let (release, pre) = cut b'-' (trim_v tag) in
    parse_parts (split_dots (cut b'+' release).0) (or_nothing pre)

abbrev pub int_less : ℤ → ℤ → Bool
int_less (pos a) (pos b) = ltb a b
int_less (pos a) (negsuc b) = false
int_less (negsuc a) (pos b) = true
int_less (negsuc a) (negsuc b) = ltb b a

abbrev pub int_equals : ℤ → ℤ → Bool
int_equals (pos a) (pos b) = a == b
int_equals (pos a) (negsuc b) = false
int_equals (negsuc a) (pos b) = false
int_equals (negsuc a) (negsuc b) = a == b

unfoldable pub cmp_int : ℤ → ℤ → Sign
cmp_int a b = if int_less b a then above else if int_less a b then below else same

-- strings.Compare
unfoldable pub compare_text : List ℕ → List ℕ → Sign
compare_text [] [] = same
compare_text [] (d ∷ t) = below
compare_text (c ∷ s) [] = above
compare_text (c ∷ s) (d ∷ t) =
    let rest = compare_text s t in if c == d then rest else if ltb c d then below else above

abbrev is_empty : List ℕ → Bool
is_empty [] = true
is_empty (c ∷ s) = false

-- A version without a prerelease tag is above those with one.
unfoldable pub compare_pre : List ℕ → List ℕ → Sign
unfolding equals compare_text
compare_pre a b =
    if equals a b
    then same
    else if is_empty a
    then above
    else if is_empty b
    then below
    else compare_text a b

unfoldable pub compare_semver : Semver → Semver → Sign
unfolding cmp_int compare_pre
compare_semver a b =
    if not (int_equals a.major b.major)
    then cmp_int a.major b.major
    else if not (int_equals a.minor b.minor)
    then cmp_int a.minor b.minor
    else if not (int_equals a.patch b.patch)
    then cmp_int a.patch b.patch
    else compare_pre a.pre b.pre

unfoldable pub is_strictly_newer : List ℕ → List ℕ → Bool
unfolding parse_semver compare_semver
is_strictly_newer latest current = elim (parse_semver latest) [
  | none ↦ false
  | some la ↦ elim (parse_semver current) [
    | none ↦ false
    | some cu ↦ is_above (compare_semver la cu)
  ]
]
