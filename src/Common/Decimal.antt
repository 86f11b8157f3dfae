-- ===== src/Common/Decimal.antt =====
-- strconv.Itoa and strconv.Atoi on texts, for the numbers that an int64 holds.
use Prim.Native.Nat.{ℕ, zero, suc, ◌+◌, ◌-◌, ◌*◌, ◌/◌, ◌%◌, ◌^◌, ◌<◌}
use mathlib.Core.Path.{◌≡◌, refl, ap, ◌∙◌}
use mathlib.Core.Logic.{inl, inr}
use mathlib.Core.Bool.{Bool, true, false}
use mathlib.Core.Option.{Option, none, some}
use mathlib.Core.List.{List, [], ◌∷◌}
use native.Mathlib.Omega.{arith}
use locorum.Common.Tests.{ltb, ◌==◌, if◌then◌else◌, Bool-cases}
use locorum.Common.Text.{is_digit}
use locorum.Common.Int.{ℤ, pos, negsuc}

-- Itoa divides by ten until nothing is left; the fuel is above the number.
unfoldable pub digits : ℕ → ℕ → List ℕ → List ℕ
digits zero n out = out
digits (suc fuel) n out =
    let rest = digits fuel (n / 10) ((b'0' + n % 10) ∷ out) in if n == 0 then out else rest

unfoldable pub itoa : ℕ → List ℕ
unfolding digits
itoa n = if n == 0 then b'0' ∷ [] else digits (suc n) n []

-- The digits of Atoi, read from the left.
unfoldable pub scan : List ℕ → ℕ → Option ℕ
scan [] n = some n
scan (c ∷ s) n = let rest = scan s (n * 10 + (c - b'0')) in if is_digit c then rest else none

abbrev at_least_one : List ℕ → Option ℕ → Option ℕ
at_least_one [] o = none
at_least_one (c ∷ s) o = o

unfoldable pub negative : Option ℕ → Option ℤ
negative none = none
negative (some zero) = some (pos 0)
negative (some (suc n)) = if ltb n (2 ^ 63) then some (negsuc n) else none

unfoldable pub positive : Option ℕ → Option ℤ
positive none = none
positive (some n) = if ltb n (2 ^ 63) then some (pos n) else none

-- `none` is an error, of the syntax or of the range.
unfoldable pub atoi : List ℕ → Option ℤ
unfolding scan negative positive
atoi [] = none
atoi (c ∷ s) =
    if c == b'-'
    then negative (at_least_one s (scan s 0))
    else if c == b'+'
    then positive (at_least_one s (scan s 0))
    else positive (scan (c ∷ s) 0)

scan-digits : (fuel n : ℕ) (out : List ℕ) → n < fuel → scan (digits fuel n out) 0 ≡ scan out n
unfolding digits scan
scan-digits zero n out h = absurd (omega arith)
scan-digits (suc fuel) n out h = elim (Bool-cases (n == 0)) [
  | inl none_left ↦ ground arith
  | inr more ↦
      rw (more) (scan-digits fuel (n / 10) ((b'0' + n % 10) ∷ out) (ground arith) ∙ ground arith)
]

abbrev head_digit : List ℕ → Bool
head_digit [] = false
head_digit (c ∷ s) = is_digit c

digits-head_digit :
    (fuel n : ℕ) (out : List ℕ) → head_digit out ≡ true → head_digit (digits fuel n out) ≡ true
unfolding digits
digits-head_digit zero n out h = h
digits-head_digit (suc fuel) n out h = elim (Bool-cases (n == 0)) [
  | inl none_left ↦ rw (none_left) h
  | inr more ↦ rw (more) (digits-head_digit fuel (n / 10) ((b'0' + n % 10) ∷ out) (ground arith))
]

atoi_unsigned : (s : List ℕ) → head_digit s ≡ true → atoi s ≡ positive (scan s 0)
unfolding atoi
atoi_unsigned [] h = cc
atoi_unsigned (c ∷ s) h = ground arith

positive-some : (n : ℕ) → n < 2 ^ 63 → positive (some n) ≡ some (pos n)
unfolding positive
positive-some n h = ground arith

itoa_more :
    (n : ℕ)
    → n == 0 ≡ false
    → (head_digit (digits (suc n) n []) ≡ true) × (scan (digits (suc n) n []) 0 ≡ some n)
unfolding digits scan
itoa_more n more = (
  rw (more) (digits-head_digit n (n / 10) ((b'0' + n % 10) ∷ []) (ground arith)),
  scan-digits (suc n) n [] (omega arith),
)

itoa-digits : (n : ℕ) → n == 0 ≡ false → itoa n ≡ digits (suc n) n []
unfolding itoa
itoa-digits n more = rw (more) refl

atoi-zero : atoi (itoa 0) ≡ some (pos 0)
unfolding itoa atoi
atoi-zero = refl

-- A number that an int64 holds is read back.
pub atoi-itoa : (n : ℕ) → n < 2 ^ 63 → atoi (itoa n) ≡ some (pos n)
atoi-itoa zero h = atoi-zero
atoi-itoa (suc m) h =
    let more : suc m == 0 ≡ false = ground arith in
    let (head, value) = itoa_more (suc m) more in
    ap atoi (itoa-digits (suc m) more)
    ∙ atoi_unsigned (digits (suc (suc m)) (suc m) []) head
    ∙ ap positive value
    ∙ positive-some (suc m) h
