-- ===== src/Breaker/History.antt =====
-- internal/health/breaker.go: the breaker as a function of the outcomes that were recorded.
use locorum.Common.{
  ℕ, suc, ◌+◌, ◌≤◌, ◌<◌, ◌≡◌, refl, true, false, List, [], ◌∷◌, ◌⊎◌, ltb, if◌then◌else◌, arith,
}
use locorum.Breaker.{
  BreakerState, closed, open_, half_open, Breaker, max_failures_or_default, cooldown_or_default,
  state, allow, on_success, on_failure,
}

-- An outcome, with the time at which it was recorded.
pub data Outcome : Type 0 where
  success failure : ℕ → Outcome

abbrev pub new_breaker : ℕ → ℕ → Breaker
new_breaker max cooldown = record {
  max_failures = max;
  cooldown = cooldown;
  failures = 0;
  opened_at = 0;
}

unfoldable pub record_outcome : Outcome → Breaker → Breaker
record_outcome (success t) b = on_success b
record_outcome (failure t) b = on_failure b t

-- The breaker after a history, whose first outcome is the latest.
unfoldable pub after : ℕ → ℕ → List Outcome → Breaker
unfolding record_outcome
after max cooldown [] = new_breaker max cooldown
after max cooldown (o ∷ history) = record_outcome o (after max cooldown history)

-- How many failures there were since the last success.
abbrev pub trailing : List Outcome → ℕ
trailing [] = 0
trailing (success t ∷ history) = 0
trailing (failure t ∷ history) = suc (trailing history)

-- When the latest outcome was recorded, if that is a failure.
abbrev pub last_failure : List Outcome → ℕ
last_failure [] = 0
last_failure (success t ∷ history) = 0
last_failure (failure t ∷ history) = t

-- The state that a history should lead to.
abbrev pub expected : ℕ → ℕ → List Outcome → ℕ → BreakerState
expected max cooldown history now =
    if ltb (trailing history) max
    then closed
    else if ltb (last_failure history + cooldown) now
    then half_open
    else open_

record Follows (max cooldown : ℕ) (history : List Outcome) (b : Breaker) : Type 0 where
  max_kept : b.max_failures ≡ max
  cooldown_kept : b.cooldown ≡ cooldown
  counted : b.failures ≡ trailing history
  stamped : max ≤ trailing history → b.opened_at ≡ last_failure history

after-Follows :
    (max cooldown : ℕ) (history : List Outcome)
    → 0 < max
    → Follows max cooldown history (after max cooldown history)
unfolding after on_success on_failure
after-Follows max cooldown [] h = record {
  max_kept = refl;
  cooldown_kept = refl;
  counted = refl;
  stamped = λ e. omega arith;
}
after-Follows max cooldown (success t ∷ history) h =
    let ih = after-Follows max cooldown history h in ground (arith, ih)
after-Follows max cooldown (failure t ∷ history) h =
    let ih = after-Follows max cooldown history h in ground (arith, ih)

-- With positive settings, the state of a breaker is decided by its history: it is closed while fewer
-- than `max` failures were recorded since the last success; otherwise it is half-open once more than
-- the cooldown has passed since the last failure, and open before.
pub state-after :
    (max cooldown : ℕ) (history : List Outcome) (now : ℕ)
    → 0 < max
    → 0 < cooldown
    → state (after max cooldown history) now ≡ expected max cooldown history now
unfolding state
state-after max cooldown history now h k = ground (arith, after-Follows max cooldown history h)

-- A failure that reaches the threshold, or comes after it as the failed trial of a half-open
-- breaker does, keeps every call out until more than the cooldown has passed since then, and lets
-- calls through from then on.
allow-on_failure :
    (b : Breaker) (t now : ℕ)
    → max_failures_or_default b ≤ b.failures + 1
    → ((now ≤ t + cooldown_or_default b) × (allow (on_failure b t) now ≡ false))
      ⊎ ((t + cooldown_or_default b < now) × (allow (on_failure b t) now ≡ true))
unfolding allow on_failure
allow-on_failure b t now h = ground arith
