-- ===== src/Common/Text.antt =====
-- Texts that the program walks: lists of code points, which are their bytes where they are ASCII.
use Prim.Native.Nat.{ℕ, suc, ◌+◌, ◌≤◌, ◌<◌}
use Prim.Native.Char.{code}
use Prim.Native.String.{String}
use mathlib.Core.Path.{◌≡◌, refl, subst}
use mathlib.Core.Logic.{◌⊎◌}
use mathlib.Core.Bool.{Bool, true, false, ◌&&◌, ◌||◌}
use mathlib.Core.List.{List, [], ◌∷◌, map}
use native.Mathlib.Omega.{arith}
use text.Mathlib.Text.{◌==◌ as str_eq}
use locorum.Common.Lists.{length}
use locorum.Common.Tests.{leb, ◌==◌, if◌then◌else◌}

-- The code points of a literal. `String` has its own `[]` and `∷`.
abbrev pub codes : String → List ℕ
codes String.[] = []
codes (String.◌∷◌ c s) = code c ∷ codes s

abbrev pub is_lower : ℕ → Bool
is_lower c = leb b'a' c && leb c b'z'

abbrev pub is_upper : ℕ → Bool
is_upper c = leb b'A' c && leb c b'Z'

abbrev pub is_digit : ℕ → Bool
is_digit c = leb b'0' c && leb c b'9'

-- strings.ToLower, on ASCII letters; other letters stay.
unfoldable pub to_lower : List ℕ → List ℕ
to_lower = map (λ c. if is_upper c then c + 32 else c)

-- unicode.IsSpace: the ASCII and Latin-1 spaces and the others with the property White_Space.
abbrev pub is_space : ℕ → Bool
is_space c =
    leb 9 c && leb c 13
    || c == 32
    || c == 0x85
    || c == 0xa0
    || c == 0x1680
    || leb 0x2000 c && leb c 0x200a
    || c == 0x2028
    || c == 0x2029
    || c == 0x202f
    || c == 0x205f
    || c == 0x3000

-- Equality of texts.
unfoldable pub equals : List ℕ → List ℕ → Bool
equals [] [] = true
equals (c ∷ s) (d ∷ t) = c == d && equals s t
equals _ _ = false

pub equals-≡ : (s t : List ℕ) → equals s t ≡ true → s ≡ t
unfolding equals
equals-≡ [] [] h = refl
equals-≡ [] (d ∷ t) h = cc
equals-≡ (c ∷ s) [] h = cc
equals-≡ (c ∷ s) (d ∷ t) h =
    let e : c ≡ d = ground arith in let rest : s ≡ t = equals-≡ s t (ground arith) in cc

pub equals_refl : (s : List ℕ) → equals s s ≡ true
unfolding equals
equals_refl [] = refl
equals_refl (c ∷ s) = ground (arith, equals_refl s)

-- strings.HasPrefix, with the prefix first.
unfoldable pub has_prefix : List ℕ → List ℕ → Bool
has_prefix [] s = true
has_prefix (p ∷ ps) [] = false
has_prefix (p ∷ ps) (c ∷ s) = p == c && has_prefix ps s

-- strings.Contains
unfoldable pub contains : List ℕ → List ℕ → Bool
unfolding has_prefix
contains [] needle = has_prefix needle []
contains (c ∷ s) needle = has_prefix needle (c ∷ s) || contains s needle

-- strings.TrimLeft and strings.TrimRight, with the cut set as a test.
unfoldable pub trim_left : (ℕ → Bool) → List ℕ → List ℕ
trim_left cut [] = []
trim_left cut (c ∷ s) = if cut c then trim_left cut s else c ∷ s

-- A character is dropped if it is cut and nothing of what follows it stays.
abbrev pub drop_last : Bool → ℕ → List ℕ → List ℕ
drop_last true c [] = []
drop_last true c (d ∷ rest) = c ∷ d ∷ rest
drop_last false c rest = c ∷ rest

drop_last-length : (b : Bool) (c : ℕ) (s : List ℕ) → length (drop_last b c s) ≤ suc (length s)
drop_last-length true c [] = omega arith
drop_last-length true c (d ∷ s) = omega arith
drop_last-length false c s = omega arith

unfoldable pub trim_right : (ℕ → Bool) → List ℕ → List ℕ
trim_right cut [] = []
trim_right cut (c ∷ s) = drop_last (cut c) c (trim_right cut s)

pub trim_right-length : (cut : ℕ → Bool) (s : List ℕ) → length (trim_right cut s) ≤ length s
unfolding trim_right
trim_right-length cut [] = omega arith
trim_right-length cut (c ∷ s) =
    omega (arith, trim_right-length cut s, drop_last-length (cut c) c (trim_right cut s))

-- strings.TrimSpace, on a list of runes.
unfoldable pub trim_space : List ℕ → List ℕ
unfolding trim_left trim_right
trim_space s = trim_right is_space (trim_left is_space s)

-- Whether a text is one of those in a list.
abbrev pub one_of : String → List String → Bool
one_of s [] = false
one_of s (t ∷ ts) = str_eq s t || one_of s ts

-- A text comes before another in the order of bytes.
abbrev pub IsTextBelow : List ℕ → List ℕ → Type 0
IsTextBelow [] [] = ⊥
IsTextBelow (c ∷ s) [] = ⊥
IsTextBelow [] (d ∷ t) = Unit {0}
IsTextBelow (c ∷ s) (d ∷ t) = (c < d) ⊎ ((c ≡ d) × IsTextBelow s t)

pub equals_same : (s t : List ℕ) → s ≡ t → equals s t ≡ true
equals_same s t e = subst (λ u. equals s u ≡ true) e (equals_refl s)
