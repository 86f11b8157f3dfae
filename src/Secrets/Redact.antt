-- ===== src/Secrets/Redact.antt =====
-- internal/secrets/registry.go: a redacted text holds none of the secrets.
use locorum.Common.{
  ℕ, ◌≤◌, ◌≡◌, refl, sym, ap, ◌∙◌, true, false, ◌||◌, List, [], ◌∷◌, length, ◌⊎◌, inl, inr,
  Bool-cases, All, arith,
}
use mathlib.Core.Path.{subst}
use locorum.Common.Text.{contains, has_prefix, equals, equals-≡, equals_refl}
use locorum.Secrets.{
  redaction_marker, min_secret_len, member, insert, by_length, replace_all, redact_each,
  redact_string,
}
use locorum.Secrets.Replace.{is_apart, contains-replace_from, replace_from-gone}

-- What `Add` lets in, of bytes that are not in the marker.
abbrev pub IsSecret : List ℕ → Type 0
IsSecret v = (min_secret_len ≤ length v) × (is_apart v redaction_marker ≡ true)

abbrev pub IsClean : List ℕ → List ℕ → Type 0
IsClean s v = contains s v ≡ false

abbrev pub AllClean : List ℕ → List (List ℕ) → Type 0
AllClean s values = All (IsClean s) values

replace_all-IsClean :
    (s old v : List ℕ) → IsSecret v → IsClean s v → IsClean (replace_all s old redaction_marker) v
unfolding replace_all
replace_all-IsClean s old [] (long, apart) h = absurd (omega (arith, long))
replace_all-IsClean s old (b ∷ v) (long, apart) h =
    contains-replace_from old redaction_marker b v 0 s (omega arith) apart h

replace_all-gone : (s v : List ℕ) → IsSecret v → IsClean (replace_all s v redaction_marker) v
unfolding replace_all
replace_all-gone s [] (long, apart) = absurd (omega (arith, long))
replace_all-gone s (b ∷ v) (long, apart) =
    replace_from-gone b v redaction_marker 0 s (omega arith) apart

redact_each_found :
    (values : List (List ℕ)) (v s : List ℕ)
    → contains s v ≡ true
    → redact_each (v ∷ values) s ≡ redact_each values (replace_all s v redaction_marker)
unfolding redact_each
redact_each_found values v s h = rw (h) refl

redact_each_clean :
    (values : List (List ℕ)) (v s : List ℕ)
    → contains s v ≡ false
    → redact_each (v ∷ values) s ≡ redact_each values s
unfolding redact_each
redact_each_clean values v s h = rw (h) refl

-- A secret that is not in a text does not come in.
redact_each_stays :
    (values : List (List ℕ)) (s v : List ℕ)
    → IsSecret v
    → IsClean s v
    → IsClean (redact_each values s) v
redact_each_stays [] s v secret h = unfold redact_each in h
redact_each_stays (w ∷ values) s v secret h = elim (Bool-cases (contains s w)) [
  | inl found ↦
      ap (λ t. contains t v) (redact_each_found values w s found)
      ∙ redact_each_stays values (replace_all s w redaction_marker) v secret
          (replace_all-IsClean s w v secret h)
  | inr clean ↦
      ap (λ t. contains t v) (redact_each_clean values w s clean)
      ∙ redact_each_stays values s v secret h
]

redact_each-IsClean :
    (v : List ℕ) (values : List (List ℕ)) (s : List ℕ)
    → IsSecret v
    → IsClean (redact_each (v ∷ values) s) v
redact_each-IsClean v values s secret = elim (Bool-cases (contains s v)) [
  | inl found ↦
      ap (λ t. contains t v) (redact_each_found values v s found)
      ∙ redact_each_stays values (replace_all s v redaction_marker) v secret
          (replace_all-gone s v secret)
  | inr clean ↦
      ap (λ t. contains t v) (redact_each_clean values v s clean)
      ∙ redact_each_stays values s v secret clean
]

secret-nil : (v : List ℕ) → IsSecret v → IsClean [] v
secret-nil [] (long, apart) = absurd (omega (arith, long))
secret-nil (b ∷ v) secret = unfold contains has_prefix in refl

same_member :
    (v w : List ℕ) (values : List (List ℕ))
    → member v (w ∷ values) ≡ true
    → (v ≡ w) ⊎ (member v values ≡ true)
same_member v w values h = elim (Bool-cases (equals v w)) [
  | inl same ↦ inl (equals-≡ v w same)
  | inr other ↦ inr (ground arith)
]

redact_each-member :
    (values : List (List ℕ)) (s v : List ℕ)
    → IsSecret v
    → member v values ≡ true
    → IsClean (redact_each values s) v
redact_each-member [] s v secret h = cc
redact_each-member (w ∷ values) s v secret h = elim (same_member v w values h) [
  | inl same ↦
      subst (λ u. IsClean (redact_each (u ∷ values) s) v) same
        (redact_each-IsClean v values s secret)
  | inr later ↦ elim (Bool-cases (contains s w)) [
    | inl found ↦
        ap (λ t. contains t v) (redact_each_found values w s found)
        ∙ redact_each-member values (replace_all s w redaction_marker) v secret later
    | inr clean ↦
        ap (λ t. contains t v) (redact_each_clean values w s clean)
        ∙ redact_each-member values s v secret later
  ]
]

member-insert :
    (v w : List ℕ) (values : List (List ℕ)) → member v (insert w values) ≡ member v (w ∷ values)
unfolding insert
member-insert v w [] = refl
member-insert v w (x ∷ values) = ground (arith, member-insert v w values)

-- The order of the secrets changes none of them.
member-by_length :
    (v : List ℕ) (values : List (List ℕ)) → member v (by_length values) ≡ member v values
unfolding by_length
member-by_length v [] = refl
member-by_length v (w ∷ values) =
    member-insert v w (by_length values) ∙ ap (λ b. equals v w || b) (member-by_length v values)

-- No secret of a registry is left in a redacted text, where each of them has eight bytes at least and
-- none of the bytes of the marker.
pub redact_string-IsClean :
    (values : List (List ℕ)) (s v : List ℕ)
    → ((w : List ℕ) → member w values ≡ true → IsSecret w)
    → member v values ≡ true
    → IsClean (redact_string values s) v
unfolding redact_string
redact_string-IsClean [] s v secrets h = cc
redact_string-IsClean (w ∷ values) [] v secrets h = secret-nil v (secrets v h)
redact_string-IsClean (w ∷ values) (c ∷ s) v secrets h =
    redact_each-member (by_length (w ∷ values)) (c ∷ s) v (secrets v h)
      (member-by_length v (w ∷ values) ∙ h)

redact_each-id :
    (values : List (List ℕ)) (s : List ℕ)
    → ((v : List ℕ) → member v values ≡ true → IsClean s v)
    → redact_each values s ≡ s
redact_each-id [] s h = unfold redact_each in refl
redact_each-id (w ∷ values) s h =
    redact_each_clean values w s (h w (rw (equals_refl w) refl))
    ∙ redact_each-id values s (λ v m. h v (ground (arith, m)))

redact_string-id :
    (values : List (List ℕ)) (s : List ℕ)
    → ((v : List ℕ) → member v values ≡ true → IsClean s v)
    → redact_string values s ≡ s
unfolding redact_string
redact_string-id [] [] h = refl
redact_string-id [] (c ∷ s) h = refl
redact_string-id (w ∷ values) [] h = refl
redact_string-id (w ∷ values) (c ∷ s) h =
    redact_each-id (by_length (w ∷ values)) (c ∷ s)
      (λ v m. h v (sym (member-by_length v (w ∷ values)) ∙ m))

-- A redacted text is left as it is by the same registry, where each secret has eight bytes at least and
-- none of the bytes of the marker.
redact_string_idem :
    (values : List (List ℕ)) (s : List ℕ)
    → ((w : List ℕ) → member w values ≡ true → IsSecret w)
    → redact_string values (redact_string values s) ≡ redact_string values s
redact_string_idem values s secrets =
    redact_string-id values (redact_string values s)
      (λ v m. redact_string-IsClean values s v secrets m)
