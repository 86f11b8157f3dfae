-- ===== src/Breaker/Tests.antt =====
-- A breaker that opens after three failures, for ten units of time.
use locorum.Common.{◌≡◌, refl, List, [], ◌∷◌, arith}
use locorum.Breaker.{closed, open_, half_open, state, on_success, on_failure}
use locorum.Breaker.History.{Outcome, success, failure, after, expected, state-after}

abbrev bad_day : List Outcome
bad_day = failure 30 ∷ failure 20 ∷ failure 10 ∷ success 5 ∷ failure 1 ∷ []

states :
    (state (after 3 10 bad_day) 40 ≡ open_)
    × (state (after 3 10 bad_day) 41 ≡ half_open)
    × (state (after 3 10 (success 50 ∷ bad_day)) 51 ≡ closed)
unfolding state after on_success on_failure
states = (refl, refl, refl)

defaults : state (after 0 0 bad_day) 3600000000030 ≡ open_
unfolding state after on_success on_failure
defaults = refl

state-after_example : state (after 3 10 bad_day) 35 ≡ expected 3 10 bad_day 35
state-after_example = state-after 3 10 bad_day 35 (omega arith) (omega arith)
