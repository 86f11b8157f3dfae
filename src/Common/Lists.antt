-- ===== src/Common/Lists.antt =====
-- Lists measured and indexed by native numbers, under the library's names.
use Prim.Native.Nat.{ℕ, zero, suc, ◌+◌, min}
use mathlib.Core.Path.{◌≡◌, refl, ap, ◌∙◌}
use mathlib.Core.List.{List, [], ◌∷◌, ◌++◌, map}
use mathlib.Core.Option.{Option, none, some}
use native.Mathlib.Omega.{arith}
use native.Mathlib.Nat.{zero-add, add-zero, suc-add, add-suc}

module _ {ℓ} {A : Type ℓ} where
  abbrev pub length : List A → ℕ
  length [] = 0
  length (x ∷ xs) = suc (length xs)

  abbrev pub get_elem? : List A → ℕ → Option A
  get_elem? [] i = none
  get_elem? (x ∷ xs) zero = some x
  get_elem? (x ∷ xs) (suc i) = get_elem? xs i

  -- A write out of bounds changes nothing.
  abbrev pub set : List A → ℕ → A → List A
  set [] i v = []
  set (x ∷ xs) zero v = v ∷ xs
  set (x ∷ xs) (suc i) v = x ∷ set xs i v

  abbrev pub take : ℕ → List A → List A
  take zero xs = []
  take (suc n) [] = []
  take (suc n) (x ∷ xs) = x ∷ take n xs

  abbrev pub drop : ℕ → List A → List A
  drop zero xs = xs
  drop (suc n) [] = []
  drop (suc n) (x ∷ xs) = drop n xs

  pub length-append : (xs ys : List A) → length (xs ++ ys) ≡ length xs + length ys
  length-append [] ys = omega arith
  length-append (x ∷ xs) ys = omega (arith, length-append xs ys)

  pub length-take : (n : ℕ) (xs : List A) → length (take n xs) ≡ min n (length xs)
  length-take zero xs = omega arith
  length-take (suc n) [] = omega arith
  length-take (suc n) (x ∷ xs) = omega (arith, length-take n xs)

  pub length-set : (xs : List A) (i : ℕ) (v : A) → length (set xs i v) ≡ length xs
  length-set [] i v = refl
  length-set (x ∷ xs) zero v = refl
  length-set (x ∷ xs) (suc i) v = ap suc (length-set xs i v)

-- A predicate of every element, by recursion.
abbrev pub All {ℓ κ} : {A : Type ℓ} → (A → Type κ) → List A → Type κ
All P [] = Unit
All P (x ∷ xs) = P x × All P xs

module _ {ℓ κ} {A : Type ℓ} (P : A → Type κ) where
  pub All-append : (xs ys : List A) → All P xs → All P ys → All P (xs ++ ys)
  All-append [] ys hx hy = hy
  All-append (x ∷ xs) ys hx hy = (hx.0, All-append xs ys hx.1 hy)

  pub All-take : (n : ℕ) (xs : List A) → All P xs → All P (take n xs)
  All-take zero xs h = tt
  All-take (suc n) [] h = tt
  All-take (suc n) (x ∷ xs) h = (h.0, All-take n xs h.1)

module _ {ℓ} {A : Type ℓ} where
  -- A change of one element in place; out of bounds it changes nothing.
  abbrev pub modify : List A → ℕ → (A → A) → List A
  modify [] i f = []
  modify (x ∷ xs) zero f = f x ∷ xs
  modify (x ∷ xs) (suc i) f = x ∷ modify xs i f

  pub set-modify : (xs : List A) (i : ℕ) (v : A) → set xs i v ≡ modify xs i (λ _. v)
  set-modify [] i v = refl
  set-modify (x ∷ xs) zero v = refl
  set-modify (x ∷ xs) (suc i) v = ap (λ ys. x ∷ ys) (set-modify xs i v)

  -- The elements of `trail` put back before `xs`, the last one first.
  abbrev pub rebuild : List A → List A → List A
  rebuild [] xs = xs
  rebuild (x ∷ trail) xs = rebuild trail (x ∷ xs)

  pub get_elem?-rebuild :
      (trail xs : List A) (k : ℕ) → get_elem? (rebuild trail xs) (length trail + k) ≡ get_elem? xs k
  get_elem?-rebuild [] xs k = rw zero-add
  get_elem?-rebuild (x ∷ trail) xs k =
      rw suc-add (rw (← add-suc) (get_elem?-rebuild trail (x ∷ xs) (suc k)))

  pub modify-rebuild :
      (trail xs : List A) (k : ℕ) (f : A → A)
      → modify (rebuild trail xs) (length trail + k) f ≡ rebuild trail (modify xs k f)
  modify-rebuild [] xs k f = rw zero-add
  modify-rebuild (x ∷ trail) xs k f =
      rw suc-add (rw (← add-suc) (modify-rebuild trail (x ∷ xs) (suc k) f))

  pub length-rebuild : (trail xs : List A) → length (rebuild trail xs) ≡ length trail + length xs
  length-rebuild [] xs = rw zero-add
  length-rebuild (x ∷ trail) xs = omega (arith, length-rebuild trail (x ∷ xs))

module _ {ℓ} {A : Type ℓ} where
  -- The element on top of the trail.
  pub get_elem?-rebuild_top :
      (trail : List A) (x : A) (xs : List A)
      → get_elem? (rebuild trail (x ∷ xs)) (length trail) ≡ some x
  get_elem?-rebuild_top trail x xs = rw add-zero at (get_elem?-rebuild {A = A} trail (x ∷ xs) 0)

  pub set-rebuild_top :
      (trail : List A) (x v : A) (xs : List A)
      → set (rebuild trail (x ∷ xs)) (length trail) v ≡ rebuild trail (v ∷ xs)
  set-rebuild_top trail x v xs =
      set-modify (rebuild trail (x ∷ xs)) (length trail) v
      ∙ rw add-zero at (modify-rebuild {A = A} trail (x ∷ xs) 0 (λ _. v))

pub length-map {ℓ κ} :
    {A : Type ℓ} {B : Type κ} (f : A → B) (xs : List A) → length (map f xs) ≡ length xs
length-map f [] = refl
length-map f (x ∷ xs) = ap suc (length-map f xs)
