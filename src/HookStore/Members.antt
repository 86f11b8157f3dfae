-- ===== src/HookStore/Members.antt =====
-- internal/storage/hooks.go: lists of identifiers, and predicates of all rows.
use locorum.Common.{
  ℕ, suc, ◌≤◌, ◌≡◌, refl, ap, Bool, true, false, List, [], ◌∷◌, map, length, ◌==◌, inl, inr,
  Bool-cases, All, if◌then◌else◌, arith,
}
use locorum.HookStore.{any, is_listed}

pub any_none :
    {A : Type 0} (p : A → Bool) (xs : List A) → All (λ x. p x ≡ false) xs → any p xs ≡ false
any_none p [] h = refl
any_none p (x ∷ xs) h = rw (h.0) (any_none p xs h.1)

pub none_any :
    {A : Type 0} (p : A → Bool) (xs : List A) → any p xs ≡ false → All (λ x. p x ≡ false) xs
none_any p [] h = tt
none_any p (x ∷ xs) h = elim (Bool-cases (p x)) [
  | inl e ↦ absurd (let h' : true ≡ false = rw e at h in cc)
  | inr e ↦ (e, none_any p xs (rw e at h))
]

pub All-imply :
    {A : Type 0} (P Q : A → Type 0) (xs : List A) → ((x : A) → P x → Q x) → All P xs → All Q xs
All-imply P Q [] f h = tt
All-imply P Q (x ∷ xs) f h = (f x h.0, All-imply P Q xs f h.1)

pub All-both :
    {A : Type 0} (P Q : A → Type 0) (xs : List A) → All P xs → All Q xs → All (λ x. P x × Q x) xs
All-both P Q [] h k = tt
All-both P Q (x ∷ xs) h k = ((h.0, k.0), All-both P Q xs h.1 k.1)

pub All-map :
    {A : Type 0} (P Q : A → Type 0) (f : A → A) (xs : List A)
    → ((x : A) → P x → Q (f x))
    → All P xs
    → All Q (map f xs)
All-map P Q f [] g h = tt
All-map P Q f (x ∷ xs) g h = (g x h.0, All-map P Q f xs g h.1)

-- No identifier is listed twice.
abbrev pub IsDistinct : List ℕ → Type 0
IsDistinct [] = Unit {0}
IsDistinct (x ∷ xs) = (is_listed x xs ≡ false) × IsDistinct xs

without_first : ℕ → List ℕ → List ℕ
without_first x [] = []
without_first x (y ∷ ys) = let rest = without_first x ys in if x == y then ys else y ∷ rest

length-without_first :
    (x : ℕ) (ys : List ℕ) → is_listed x ys ≡ true → length ys ≡ suc (length (without_first x ys))
unfolding without_first
length-without_first x [] h = cc
length-without_first x (y ∷ ys) h = elim (Bool-cases (x == y)) [
  | inl e ↦ rw e refl
  | inr e ↦ rw e (ap suc (length-without_first x ys (rw e at h)))
]

is_listed-without_first :
    (x z : ℕ) (ys : List ℕ)
    → z == x ≡ false
    → is_listed z ys ≡ true
    → is_listed z (without_first x ys) ≡ true
unfolding without_first
is_listed-without_first x z [] e h = h
is_listed-without_first x z (y ∷ ys) e h = elim (Bool-cases (x == y)) [
  | inl same ↦ let other : z == y ≡ false = ground arith in rw same (rw other at h)
  | inr differ ↦ elim (Bool-cases (z == y)) [
    | inl here ↦ rw (differ, here) refl
    | inr there ↦ rw (differ, there) (is_listed-without_first x z ys e (rw there at h))
  ]
]

abbrev pub Within : List ℕ → List ℕ → Type 0
Within xs ys = All (λ x. is_listed x ys ≡ true) xs

Within-without_first :
    (x : ℕ) (xs ys : List ℕ)
    → is_listed x xs ≡ false
    → Within xs ys
    → Within xs (without_first x ys)
Within-without_first x [] ys h w = tt
Within-without_first x (z ∷ xs) ys h w = elim (Bool-cases (x == z)) [
  | inl e ↦ absurd (let h' : true ≡ false = rw e at h in cc)
  | inr e ↦ (
    is_listed-without_first x z ys (ground arith) w.0,
    Within-without_first x xs ys (rw e at h) w.1,
  )
]

pub length-Within : (xs ys : List ℕ) → IsDistinct xs → Within xs ys → length xs ≤ length ys
length-Within [] ys d w = omega arith
length-Within (x ∷ xs) ys d w = omega (
  arith,
  length-without_first x ys w.0,
  length-Within xs (without_first x ys) d.1 (Within-without_first x xs ys d.0 w.1),
)

-- Distinct elements of a list that are as many as the list are all of it.
pub is_listed-Within :
    (xs ys : List ℕ) (z : ℕ)
    → IsDistinct xs
    → Within xs ys
    → length xs ≡ length ys
    → is_listed z ys ≡ true
    → is_listed z xs ≡ true
is_listed-Within xs ys z d w same h = elim (Bool-cases (is_listed z xs)) [
  | inl e ↦ e
  | inr e ↦ absurd (omega (arith, same, length-Within (z ∷ xs) ys (e, d) (h, w)))
]
