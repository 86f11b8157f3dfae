-- ===== src/Secrets.antt =====
-- internal/secrets/registry.go: the registry of secrets, and the redaction of texts. A text is the list
-- of its bytes. The map of values is a list without order, which `RedactString` sorts itself.
pub mod Replace
pub mod Redact
mod Tests
use locorum.Common.{
  ℕ, zero, suc, ◌-◌, ◌&&◌, ◌||◌, not, Bool, true, false, Option, none, some, List, [], ◌∷◌, ◌++◌,
  length, ltb, if◌then◌else◌,
}
use locorum.Common.Text.{codes, equals, has_prefix, contains}

abbrev pub redaction_marker : List ℕ
redaction_marker = codes "[REDACTED]"

abbrev pub min_secret_len : ℕ
min_secret_len = 8

abbrev pub member : List ℕ → List (List ℕ) → Bool
member s [] = false
member s (v ∷ values) = equals s v || member s values

-- Registry.Add
unfoldable pub add : List ℕ → List (List ℕ) → List (List ℕ)
add s values =
    if ltb (length s) min_secret_len then values else if member s values then values else s ∷ values

-- Registry.Remove
unfoldable pub remove : List ℕ → List (List ℕ) → List (List ℕ)
remove s [] = []
remove s (v ∷ values) = let rest = remove s values in if equals s v then rest else v ∷ rest

-- strings.ReplaceAll of a text that is not empty: from the left, what is replaced is passed over.
unfoldable pub replace_from : List ℕ → List ℕ → ℕ → List ℕ → List ℕ
replace_from old new skip [] = []
replace_from old new (suc skip) (c ∷ s) = replace_from old new skip s
replace_from old new zero (c ∷ s) =
    let here = replace_from old new (length old - 1) s in
    let next = replace_from old new 0 s in if has_prefix old (c ∷ s) then new ++ here else c ∷ next

unfoldable pub replace_all : List ℕ → List ℕ → List ℕ → List ℕ
unfolding replace_from
replace_all s old new = replace_from old new 0 s

-- sort.Slice by length, longest first.
unfoldable pub insert : List ℕ → List (List ℕ) → List (List ℕ)
insert v [] = v ∷ []
insert v (w ∷ values) =
    let rest = insert v values in if ltb (length v) (length w) then w ∷ rest else v ∷ w ∷ values

unfoldable pub by_length : List (List ℕ) → List (List ℕ)
unfolding insert
by_length [] = []
by_length (v ∷ values) = insert v (by_length values)

-- The loop of `RedactString`.
unfoldable pub redact_each : List (List ℕ) → List ℕ → List ℕ
unfolding replace_all
redact_each [] s = s
redact_each (v ∷ values) s =
    let replaced = redact_each values (replace_all s v redaction_marker) in
    let kept = redact_each values s in if contains s v then replaced else kept

-- Registry.RedactString. Without values or without a text, the loop returns the text as well.
unfoldable pub redact_string : List (List ℕ) → List ℕ → List ℕ
unfolding by_length redact_each
redact_string values [] = []
redact_string [] (c ∷ s) = c ∷ s
redact_string (v ∷ values) (c ∷ s) = redact_each (by_length (v ∷ values)) (c ∷ s)

-- An error by its message; a fresh one forgets what it wrapped.
pub data RedactError (E : Type 0) : Type 0 where
  unchanged : E → RedactError E
  fresh : List ℕ → RedactError E

-- Registry.Redact
unfoldable pub redact :
    {E : Type 0} → (E → List ℕ) → List (List ℕ) → Option E → Option (RedactError E)
unfolding redact_string
redact message values none = none
redact message values (some err) =
    let red = redact_string values (message err) in
    some (if equals red (message err) then unchanged err else fresh red)
