-- ===== src/Genmark/Marker.antt =====
-- internal/genmark/genmark.go: which texts carry the marker.
use locorum.Common.{
  ℕ, zero, suc, ◌+◌, ◌≤◌, ◌<◌, ◌≡◌, refl, sym, ap, ◌∙◌, true, List, [], ◌∷◌, ◌++◌, append_assoc,
  Bool-cases, inl, inr, if◌then◌else◌, take, length, length-append, ltb, arith,
}
use locorum.Common.Text.{codes, contains, has_prefix}
use locorum.Genmark.{marker, peek_bytes, header, styled, header_second, style_hash, has_marker}

has_prefix-append : (m s : List ℕ) → has_prefix m (m ++ s) ≡ true
unfolding has_prefix
has_prefix-append [] s = refl
has_prefix-append (c ∷ m) s = ground (arith, has_prefix-append m s)

contains-has_prefix : (s m : List ℕ) → has_prefix m s ≡ true → contains s m ≡ true
unfolding contains
contains-has_prefix [] m h = h
contains-has_prefix (c ∷ s) m h = rw (h) refl

contains-append : (a s m : List ℕ) → contains s m ≡ true → contains (a ++ s) m ≡ true
unfolding contains
contains-append [] s m h = h
contains-append (c ∷ a) s m h = ground (arith, contains-append a s m h)

-- What is taken of a text reaches beyond a part at its start.
take-append : (n : ℕ) (a s : List ℕ) → length a ≤ n → (k : ℕ) × (take n (a ++ s) ≡ a ++ take k s)
take-append n [] s h = (n, refl)
take-append zero (c ∷ a) s h = absurd (omega (arith, h))
take-append (suc n) (c ∷ a) s h =
    let (k, e) = take-append n a s (omega (arith, h)) in (k, ap (λ t. c ∷ t) e)

contains-middle : (a m s : List ℕ) → contains (a ++ (m ++ s)) m ≡ true
contains-middle a m s =
    contains-append a (m ++ s) m (contains-has_prefix (m ++ s) m (has_prefix-append m s))

-- A text is found if it ends within what is taken.
taken-contains :
    (n : ℕ) (a m s : List ℕ) → length a + length m ≤ n → contains (take n (a ++ (m ++ s))) m ≡ true
taken-contains n a m s h =
    let (k, e) = take-append n (a ++ m) s (omega (arith, length-append a m, h)) in
    ap (λ t. contains (take n t) m) (sym (append_assoc a m s))
    ∙ ap (λ t. contains t m) (e ∙ append_assoc a m (take k s))
    ∙ contains-middle a m (take k s)

window-contains :
    (n : ℕ) (a m s : List ℕ)
    → length a + length m ≤ n
    → contains (if ltb n (length (a ++ (m ++ s))) then take n (a ++ (m ++ s)) else a ++ (m ++ s)) m
      ≡ true
window-contains n a m s h = elim (Bool-cases (ltb n (length (a ++ (m ++ s))))) [
  | inl e ↦ rw (e) (taken-contains n a m s h)
  | inr e ↦ rw (e) (contains-middle a m s)
]

has_marker-window :
    (a s : List ℕ) → length a + length marker ≤ peek_bytes → has_marker (a ++ (marker ++ s)) ≡ true
unfolding has_marker
has_marker-window [] s h = window-contains peek_bytes [] marker s h
has_marker-window (c ∷ a) s h = window-contains peek_bytes (c ∷ a) marker s h

-- What a header puts after its first comment sign.
abbrev rest_of : List ℕ → List ℕ
rest_of style =
    codes " "
    ++ ((0xe2 ∷ 0x80 ∷ 0x94 ∷ []) ++ (codes " DO NOT EDIT.\n" ++ (style ++ header_second)))

styled-marker :
    (style body : List ℕ)
    → styled style ++ body ≡ (style ++ codes " ") ++ (marker ++ (rest_of style ++ body))
styled-marker style body =
    append_assoc style (codes " " ++ (marker ++ rest_of style)) body
    ∙ sym (append_assoc style (codes " ") (marker ++ (rest_of style ++ body)))

header-styled :
    (style : List ℕ)
    → (style' : List ℕ) × (header style ≡ styled style') × (length style' ≤ suc (length style))
unfolding header
header-styled [] = (style_hash, refl, omega arith)
header-styled (c ∷ style) = (c ∷ style, refl, omega arith)

-- A text with a header in front is recognised, where the comment sign is shorter than 4000 bytes.
pub header-has_marker :
    (style body : List ℕ) → length style < 4000 → has_marker (header style ++ body) ≡ true
header-has_marker style body h =
    let (style', e, short) = header-styled style in
    ap (λ t. has_marker (t ++ body)) e
    ∙ ap has_marker (styled-marker style' body)
    ∙ has_marker-window (style' ++ codes " ") (rest_of style' ++ body)
        (omega (arith, short, h, length-append style' (codes " ")))

take_short : (n : ℕ) (s : List ℕ) → length s ≤ n → take n s ≡ s
take_short zero [] h = refl
take_short zero (c ∷ s) h = absurd (omega (arith, h))
take_short (suc n) [] h = refl
take_short (suc n) (c ∷ s) h = ap (λ t. c ∷ t) (take_short n s (omega (arith, h)))

window-take : (n : ℕ) (s : List ℕ) → (if ltb n (length s) then take n s else s) ≡ take n s
window-take n s = elim (Bool-cases (ltb n (length s))) [
  | inl e ↦ rw (e) refl
  | inr e ↦ rw (e) (sym (take_short n s (ground arith)))
]

take_within : (n : ℕ) (s : List ℕ) → length (take n s) ≤ n
take_within zero s = omega arith
take_within (suc n) [] = omega arith
take_within (suc n) (c ∷ s) = omega (arith, take_within n s)

-- The first bytes decide.
pub has_marker-take : (s : List ℕ) → has_marker (take peek_bytes s) ≡ has_marker s
unfolding has_marker
has_marker-take [] = refl
has_marker-take (c ∷ s) =
    ap (λ t. contains t marker)
      (window-take peek_bytes (take peek_bytes (c ∷ s))
        ∙ take_short peek_bytes (take peek_bytes (c ∷ s)) (take_within peek_bytes (c ∷ s))
        ∙ sym (window-take peek_bytes (c ∷ s)))
