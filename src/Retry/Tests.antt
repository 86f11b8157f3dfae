-- ===== src/Retry/Tests.antt =====
-- Retries against a daemon that restarts, and against one that never comes back.
use locorum.Common.{
  ℕ, ◌+◌, ◌≤◌, String, ◌≡◌, refl, true, false, none, some, inl, inr, ltb, if◌then◌else◌,
}
use locorum.Common.Text.{codes, contains}
use locorum.Retry.{
  retry_daemon_restart, retry_name_in_use, ErrorView, max_attempts_reached, RetryEnv,
  classify_error, is_not_found_like, with_retry, with_retry_err,
}
use locorum.Retry.Shape.{Explained}
use locorum.Retry.Bounds.{Counts, KeepsInTime, with_retry-Explained, with_retry-calls}

abbrev texts : ErrorView String
texts = record {
  message = codes;
  is_conflict = λ e. false;
  is_not_found = λ e. false;
  is_econnrefused = λ e. false;
  is_op_econnrefused = λ e. false;
}

record Daemon : Type 0 where
  calls : ℕ
  clock : ℕ

-- The operation fails with `err` in its first `failures` calls.
abbrev docker : String → ℕ → RetryEnv ℕ String Daemon
docker err failures = record {
  view = texts;
  ctx_err = λ d. none;
  ctx_deadline = none;
  now = λ d. d.clock;
  sleep = λ b d. (none, record d { clock = d.clock + b });
  op = λ d.
      (if ltb d.calls failures then inr err else inl d.calls, record d { calls = d.calls + 1 });
  try_recover = none;
}

abbrev fresh : Daemon
fresh = record { calls = 0; clock = 0 }

abbrev refused : String
refused = "dial unix: Connection refused"

restart_class : classify_error texts (some refused) ≡ retry_daemon_restart
unfolding classify_error contains
restart_class = refl

name_class :
    classify_error texts (some "Conflict. The container name /x is already in use")
    ≡ retry_name_in_use
unfolding classify_error contains
name_class = refl

not_found_class : is_not_found_like texts (some "Error: No such volume: x") ≡ true
unfolding is_not_found_like contains
not_found_class = refl

-- Two failures, then a result, after 400 ms and 800 ms.
restart_recovers : with_retry (docker refused 2) fresh ≡ (inl 2, record { calls = 3; clock = 1200 })
unfolding with_retry classify_error contains
restart_recovers = refl

gives_up :
    with_retry (docker refused 9) fresh
    ≡ (inr max_attempts_reached, record { calls = 5; clock = 12400 })
unfolding with_retry classify_error contains
gives_up = refl

gives_up_err : (with_retry_err (docker refused 9) fresh).0 ≡ some max_attempts_reached
unfolding with_retry_err classify_error contains
gives_up_err = refl

docker-Counts : (err : String) (failures : ℕ) → Counts (docker err failures) (λ d. d.calls)
docker-Counts err failures = record {
  op = λ w. refl;
  sleep = λ b w. refl;
  try_recover = λ f class w e. cc;
}

with_retry-Explained_example :
    Explained
      (docker refused 9)
      90000
      (with_retry (docker refused 9) fresh).0
      (with_retry (docker refused 9) fresh).1
with_retry-Explained_example = with_retry-Explained (docker refused 9) fresh

with_retry-calls_example :
    ((with_retry (docker refused 9) fresh).1.calls ≤ 0 + 5)
    × ((with_retry (docker refused 9) fresh).0 ≡ inr max_attempts_reached
        → (with_retry (docker refused 9) fresh).1.calls ≡ 0 + 5)
with_retry-calls_example =
    with_retry-calls (docker refused 9) (λ d. d.calls) (docker-Counts refused 9) fresh

-- The clock, which only the waits move, stays below the deadline of 90 s.
clock-KeepsInTime :
    (err : String) (failures : ℕ) → KeepsInTime (docker err failures) 90000 (λ d. d.clock ≤ 90000)
clock-KeepsInTime err failures = record {
  op = λ w h. h;
  try_recover = λ f class w e h. cc;
  sleep = λ b w lo hi soon h. soon;
}
