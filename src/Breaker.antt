-- ===== src/Breaker.antt =====
-- internal/health/breaker.go: the circuit breaker of the disk-usage check. Times are numbers; the zero
-- time is 0, and a setting that is not positive is 0. Each method holds the mutex from its start to
-- its end, so a method is one step.
pub mod History
mod Tests
use locorum.Common.{ℕ, suc, ◌+◌, ◌*◌, Bool, true, false, ltb, ◌==◌, if◌then◌else◌}

pub data BreakerState : Type 0 where
  closed open_ half_open : BreakerState

pub record Breaker : Type 0 where
  pub max_failures : ℕ
  pub cooldown : ℕ
  pub failures : ℕ
  pub opened_at : ℕ

-- One hour, in nanoseconds.
abbrev pub hour : ℕ
hour = 3600 * 1000000000

unfoldable pub max_failures_or_default : Breaker → ℕ
max_failures_or_default b = if ltb 0 b.max_failures then b.max_failures else 3

unfoldable pub cooldown_or_default : Breaker → ℕ
cooldown_or_default b = if ltb 0 b.cooldown then b.cooldown else hour

-- `now - openedAt > cooldown`, on signed durations.
unfoldable pub state : Breaker → ℕ → BreakerState
unfolding max_failures_or_default cooldown_or_default
state b now =
    if ltb b.failures (max_failures_or_default b)
    then closed
    else if ltb (b.opened_at + cooldown_or_default b) now
    then half_open
    else open_

abbrev pub is_open : BreakerState → Bool
is_open open_ = true
is_open _ = false

unfoldable pub allow : Breaker → ℕ → Bool
unfolding state
allow b now = if is_open (state b now) then false else true

unfoldable pub on_success : Breaker → Breaker
on_success b = record b { failures = 0; opened_at = 0 }

unfoldable pub on_failure : Breaker → ℕ → Breaker
unfolding max_failures_or_default
on_failure b now =
    let b' = record b { failures = b.failures + 1 } in
    if b'.failures == max_failures_or_default b'
    then record b' { opened_at = now }
    else if ltb (max_failures_or_default b') b'.failures
    then record b' { opened_at = now }
    else b'
