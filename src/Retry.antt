-- ===== src/Retry.antt =====
-- internal/docker/retry.go: errors of the Docker SDK by the way to recover from them, and the retry
-- loop. Times are in milliseconds. The wrapped error texts are kept as data (`Failure`).
pub mod Induction
pub mod Shape
pub mod Bounds
mod Tests
use locorum.Common.{
  ℕ, zero, suc, ◌+◌, ◌*◌, String, Bool, true, false, ◌&&◌, ◌||◌, Option, none, some, List, map, min,
  ◌⊎◌, inl, inr, ltb, if◌then◌else◌,
}
use locorum.Common.Text.{codes, contains, to_lower}

pub data RetryClass : Type 0 where
  retry_none retry_build_kit_race retry_name_in_use retry_network_exists retry_daemon_restart :
      RetryClass

abbrev pub retry_budget_default : ℕ
retry_budget_default = 90000

abbrev pub retry_attempts_default : ℕ
retry_attempts_default = 5

abbrev pub retry_backoff_minimum : ℕ
retry_backoff_minimum = 200

abbrev pub retry_backoff_max : ℕ
retry_backoff_max = 30000

-- What the code asks of an error: its text, and whether `errdefs` and `errors.Is` find a kind in its
-- chain. Those belong to the Docker client library and to the operating system.
pub record ErrorView (E : Type 0) : Type 0 where
  pub message : E → List ℕ
  pub is_conflict : E → Bool
  pub is_not_found : E → Bool
  pub is_econnrefused : E → Bool
  pub is_op_econnrefused : E → Bool

module _ {E : Type 0} (view : ErrorView E) where
  open view use {message, is_conflict, is_not_found, is_econnrefused, is_op_econnrefused}

  unfoldable pub is_conn_refused : E → Bool
  unfolding to_lower
  is_conn_refused err =
      let msg = to_lower (message err) in
      is_econnrefused err
      || is_op_econnrefused err
      || contains msg (codes "connection refused")
      || contains msg (codes "is the docker daemon running")

  -- The inner `switch` on a conflict.
  conflict_class : List ℕ → RetryClass
  conflict_class msg =
      if contains msg (codes "name") && contains msg (codes "already in use")
        || contains msg (codes "container") && contains msg (codes "already exists")
      then retry_name_in_use
      else if contains msg (codes "network") && contains msg (codes "already exists")
          || contains msg (codes "network with name")
      then retry_network_exists
      else retry_none

  classify_some : E → RetryClass
  unfolding to_lower is_conn_refused conflict_class
  classify_some err =
      let msg = to_lower (message err) in
      if contains msg (codes "parent snapshot") && contains msg (codes "does not exist")
      then retry_build_kit_race
      else if is_conn_refused err
      then retry_daemon_restart
      else if is_conflict err || contains msg (codes "conflict")
      then conflict_class msg
      else retry_none

  unfoldable pub classify_error : Option E → RetryClass
  unfolding classify_some
  classify_error none = retry_none
  classify_error (some err) = classify_some err

  unfoldable pub is_not_found_like : Option E → Bool
  unfolding to_lower
  is_not_found_like none = false
  is_not_found_like (some err) =
      let msg = to_lower (message err) in
      is_not_found err
      || contains msg (codes "no such container")
      || contains msg (codes "no such network")
      || contains msg (codes "no such volume")
      || contains msg (codes "no such image")

-- The errors of `withRetry`: the context's, the operation's own, or one marked `ErrTransient`.
pub data Failure (E : Type 0) : Type 0 where
  cancelled : String → Failure E
  permanent : E → Failure E
  build_kit_race conflict budget_exhausted : E → Failure E
  max_attempts_reached : Failure E

-- What the `switch` on the class does: it ends the loop, or sets the next backoff.
pub data Shaped (E S : Type 0) : Type 0 where
  stop : Failure E → S → Shaped E S
  go_on : ℕ → S → Shaped E S

-- The world that a retry runs in. `sleep b` waits for `b` milliseconds or for the end of the
-- context, whichever the second `select` takes; `recover`'s own error is only logged.
pub record RetryEnv (A E S : Type 0) : Type 0 where
  pub view : ErrorView E
  pub ctx_err : S → Option String
  pub ctx_deadline : Option ℕ
  pub now : S → ℕ
  pub sleep : ℕ → S → Option String × S
  pub op : S → (A ⊎ E) × S
  pub try_recover : Option (RetryClass → S → S)

module _ {A E S : Type 0} (env : RetryEnv A E S) where
  open env use {view, ctx_err, ctx_deadline, now, sleep, op, try_recover}

  unfoldable pub clean_up : Option (RetryClass → S → S) → RetryClass → S → S
  clean_up none class w = w
  clean_up (some f) class w = f class w

  -- `attempt > 1` is asked after the clean-up.
  after_conflict : E → ℕ → ℕ → S → Shaped E S
  after_conflict err attempt backoff w =
      if ltb 1 attempt then stop (conflict err) w else go_on backoff w

  unfoldable pub shape : RetryClass → E → ℕ → ℕ → S → Shaped E S
  unfolding clean_up after_conflict
  shape retry_none err attempt backoff w = stop (permanent err) w
  shape retry_build_kit_race err attempt backoff w =
      if ltb attempt 3 then go_on 50 w else stop (build_kit_race err) w
  shape retry_name_in_use err attempt backoff w =
      after_conflict err attempt backoff (clean_up try_recover retry_name_in_use w)
  shape retry_network_exists err attempt backoff w =
      after_conflict err attempt backoff (clean_up try_recover retry_network_exists w)
  shape retry_daemon_restart err attempt backoff w = go_on (min (backoff * 2) retry_backoff_max) w

  -- The loop on the attempts that are left; `attempt` is its counter.
  unfoldable pub retry_loop : ℕ → ℕ → ℕ → ℕ → S → (A ⊎ Failure E) × S
  unfolding shape
  retry_loop deadline zero attempt backoff w = (inr max_attempts_reached, w)
  retry_loop deadline (suc left) attempt backoff w = elim (ctx_err w) [
    | some err ↦ (inr (cancelled err), w)
    | none ↦
        let (outcome, w₁) = op w in
        elim outcome [
          | inl result ↦ (inl result, w₁)
          | inr err ↦ elim (shape (classify_error view (some err)) err attempt backoff w₁) [
            | stop failure w₂ ↦ (inr failure, w₂)
            | go_on backoff' w₂ ↦ elim (ltb deadline (now w₂ + backoff')) [
              | true ↦ (inr (budget_exhausted err), w₂)
              | false ↦
                  let (woken, w₃) = sleep backoff' w₂ in
                  elim woken [
                    | some err' ↦ (inr (cancelled err'), w₃)
                    | none ↦ retry_loop deadline left (attempt + 1) backoff' w₃
                  ]
            ]
          ]
        ]
  ]

  abbrev pub deadline_of : Option ℕ → ℕ → ℕ
  deadline_of none t = t
  deadline_of (some d) t = if ltb d t then d else t

  unfoldable pub with_retry : S → (A ⊎ Failure E) × S
  unfolding retry_loop
  with_retry w =
      retry_loop (deadline_of ctx_deadline (now w + retry_budget_default)) retry_attempts_default 1
        retry_backoff_minimum w

  -- The wrapper for operations without a result.
  unfoldable pub with_retry_err : S → Option (Failure E) × S
  unfolding with_retry
  with_retry_err w =
      let (outcome, w') = with_retry w in
      (elim outcome [ inl _ ↦ none | inr failure ↦ some failure ], w')
