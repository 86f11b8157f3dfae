-- ===== src/Secrets/Tests.antt =====
-- Texts that are redacted, and instances of the theorems.
use locorum.Common.{ℕ, ◌≡◌, refl, true, false, some, List, [], ◌∷◌, Bool-cases, inl, inr, arith}
use locorum.Common.Text.{codes, contains, has_prefix, equals, equals-≡}
use mathlib.Core.Path.{subst, sym}
use locorum.Secrets.{member, add, remove, redact_string, redact, fresh}
use locorum.Secrets.Redact.{IsSecret, IsClean, redact_string-IsClean}

abbrev password : List ℕ
password = codes "0123456789abcdef"

-- A prefix of the password.
abbrev token : List ℕ
token = codes "0123456789"

abbrev registry : List (List ℕ)
registry = add password (add token (add (codes "if") []))

longest_first :
    redact_string registry (codes "user:0123456789abcdef@db") ≡ codes "user:[REDACTED]@db"
unfolding redact_string add contains has_prefix equals
longest_first = refl

twice : redact_string registry (codes "012345678901234567891") ≡ codes "[REDACTED][REDACTED]1"
unfolding redact_string add contains has_prefix equals
twice = refl

removed : remove token registry ≡ password ∷ []
unfolding remove add equals
removed = refl

abbrev message : List ℕ
message = codes "dial 0123456789abcdef: refused"

redacted_error :
    redact (λ (err : List ℕ). err) registry (some message)
    ≡ some (fresh (codes "dial [REDACTED]: refused"))
unfolding redact add contains has_prefix equals
redacted_error = refl

password-IsSecret : IsSecret password
password-IsSecret = (omega arith, refl)

token-IsSecret : IsSecret token
token-IsSecret = (omega arith, refl)

registry-IsSecret : (w : List ℕ) → member w (password ∷ token ∷ []) ≡ true → IsSecret w
registry-IsSecret w h = elim (Bool-cases (equals w password)) [
  | inl e ↦ subst IsSecret (sym (equals-≡ w password e)) password-IsSecret
  | inr other ↦ elim (Bool-cases (equals w token)) [
    | inl e ↦ subst IsSecret (sym (equals-≡ w token e)) token-IsSecret
    | inr other' ↦ absurd (neither (rw (other, other') at h))
  ]
]
  where
    neither : false ≡ true → ⊥
    neither e = cc

redact_string-IsClean_example : IsClean (redact_string (password ∷ token ∷ []) message) token
redact_string-IsClean_example =
    redact_string-IsClean (password ∷ token ∷ []) message token registry-IsSecret
      (unfold equals in refl)
