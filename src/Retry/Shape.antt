-- ===== src/Retry/Shape.antt =====
-- internal/docker/retry.go: what one failed attempt of `withRetry` leads to.
use locorum.Common.{
  ℕ, ◌+◌, ◌<◌, ◌≤◌, String, ◌≡◌, ◌≢◌, refl, none, some, ◌⊎◌, inl, inr, Bool, true, false, ltb,
  if◌then◌else◌, Option-cases, arith,
}
use locorum.Retry.{
  RetryClass, retry_none, retry_build_kit_race, retry_name_in_use, retry_network_exists,
  retry_daemon_restart, retry_backoff_max, Failure, permanent, build_kit_race, conflict, cancelled,
  budget_exhausted, max_attempts_reached, Shaped, stop, go_on, RetryEnv, classify_error, shape,
  clean_up,
}

module _ {A E S : Type 0} (env : RetryEnv A E S) where
  -- The outside changes by the clean-up, if there is one, and by nothing else.
  abbrev pub CleanedUp : RetryClass → S → S → Type 0
  CleanedUp class w w₂ =
      (w₂ ≡ w) ⊎ ((f : RetryClass → S → S) × (env.try_recover ≡ some f) × (w₂ ≡ f class w))

  -- A call of the operation has failed, and at most the clean-up has come after it.
  abbrev pub Failed : E → S → Type 0
  Failed e w' =
      (w : S) × ((env.op w).0 ≡ inr e)
      × CleanedUp (classify_error env.view (some e)) (env.op w).1 w'

  -- A call has failed with a transient error, and the wait after it has just ended.
  abbrev pub RanOut : S → Type 0
  RanOut w' =
      (e : E) × (w : S) × (b : ℕ) × Failed e w
      × (classify_error env.view (some e) ≢ retry_none)
      × ((env.sleep b w).0 ≡ none)
      × ((env.sleep b w).1 ≡ w')

  -- The context has ended with an error, before a call or during a wait.
  abbrev pub Cancelled : String → S → Type 0
  Cancelled x w' =
      (env.ctx_err w' ≡ some x)
      ⊎ ((b : ℕ) × (w : S) × ((env.sleep b w).0 ≡ some x) × ((env.sleep b w).1 ≡ w'))

  -- What an outcome of the loop says of where it comes from, the outside included.
  abbrev pub Explained : ℕ → A ⊎ Failure E → S → Type 0
  Explained deadline (inl a) w' = (w : S) × ((env.op w).0 ≡ inl a) × ((env.op w).1 ≡ w')
  Explained deadline (inr (permanent e)) w' =
      Failed e w' × (classify_error env.view (some e) ≡ retry_none)
  Explained deadline (inr (build_kit_race e)) w' =
      Failed e w' × (classify_error env.view (some e) ≡ retry_build_kit_race)
  Explained deadline (inr (conflict e)) w' =
      Failed e w'
      × ((classify_error env.view (some e) ≡ retry_name_in_use)
          ⊎ (classify_error env.view (some e) ≡ retry_network_exists))
  Explained deadline (inr (budget_exhausted e)) w' =
      Failed e w'
      × (classify_error env.view (some e) ≢ retry_none)
      × ((b : ℕ) × (b ≤ retry_backoff_max) × (deadline < env.now w' + b))
  Explained deadline (inr (cancelled x)) w' = Cancelled x w'
  Explained deadline (inr max_attempts_reached) w' = RanOut w'

abbrev pub world_of : {E S : Type 0} → Shaped E S → S
world_of (stop f w) = w
world_of (go_on b w) = w

world_of_if :
    {E S : Type 0} (b : Bool) (x y : Shaped E S) (w : S)
    → world_of x ≡ w
    → world_of y ≡ w
    → world_of (if b then x else y) ≡ w
world_of_if true x y w hx hy = hx
world_of_if false x y w hx hy = hy

module _ {A E S : Type 0} (env : RetryEnv A E S) where
  pub Explained-stop :
      (deadline : ℕ) (class : RetryClass) (err : E) (attempt backoff : ℕ) (w : S) (f : Failure E)
      (w₂ : S)
      → classify_error env.view (some err) ≡ class
      → shape env class err attempt backoff w ≡ stop f w₂
      → Failed env err w₂
      → Explained env deadline (inr f) w₂
  unfolding shape
  Explained-stop deadline retry_none err attempt backoff w f w₂ c h failed =
      let e : f ≡ permanent err = ground arith in rw e (failed, c)
  Explained-stop deadline retry_build_kit_race err attempt backoff w f w₂ c h failed =
      let e : f ≡ build_kit_race err = ground arith in rw e (failed, c)
  Explained-stop deadline retry_name_in_use err attempt backoff w f w₂ c h failed =
      let e : f ≡ conflict err = ground arith in rw e (failed, inl c)
  Explained-stop deadline retry_network_exists err attempt backoff w f w₂ c h failed =
      let e : f ≡ conflict err = ground arith in rw e (failed, inr c)
  Explained-stop deadline retry_daemon_restart err attempt backoff w f w₂ c h failed = cc

  pub stop-ne-max :
      (class : RetryClass) (err : E) (attempt backoff : ℕ) (w : S) (f : Failure E) (w₂ : S)
      → shape env class err attempt backoff w ≡ stop f w₂
      → f ≢ max_attempts_reached
  unfolding shape
  stop-ne-max retry_none err attempt backoff w f w₂ h = λ e. ground arith
  stop-ne-max _ err attempt backoff w f w₂ h = λ e. ground arith

  pub go_on_class :
      (class : RetryClass) (err : E) (attempt backoff : ℕ) (w : S) (b : ℕ) (w₂ : S)
      → shape env class err attempt backoff w ≡ go_on b w₂
      → class ≢ retry_none
  unfolding shape
  go_on_class retry_none err attempt backoff w b w₂ h = cc
  go_on_class _ err attempt backoff w b w₂ h = λ e. cc

  -- The next backoff stays in its range.
  pub go_on_range :
      (class : RetryClass) (err : E) (attempt backoff : ℕ) (w : S) (b : ℕ) (w₂ : S)
      → shape env class err attempt backoff w ≡ go_on b w₂
      → 50 ≤ backoff
      → backoff ≤ retry_backoff_max
      → (50 ≤ b) × (b ≤ retry_backoff_max)
  unfolding shape
  go_on_range retry_none err attempt backoff w b w₂ h lo hi = cc
  go_on_range _ err attempt backoff w b w₂ h lo hi = ground arith

  after_clean_up :
      (class : RetryClass) (w : S) → CleanedUp env class w (clean_up env env.try_recover class w)
  unfolding clean_up
  after_clean_up class w = elim (Option-cases env.try_recover) [
    | inl e ↦ inl (rw e)
    | inr (f, e) ↦ inr (f, e, rw e)
  ]

  pub shape-world :
      (class : RetryClass) (err : E) (attempt backoff : ℕ) (w : S)
      → CleanedUp env class w (world_of (shape env class err attempt backoff w))
  unfolding shape
  shape-world retry_none err attempt backoff w = inl refl
  shape-world retry_build_kit_race err attempt backoff w =
      inl (world_of_if (ltb attempt 3) _ _ w refl refl)
  shape-world retry_name_in_use err attempt backoff w =
      rw
        (world_of_if (ltb 1 attempt) _ _ (clean_up env env.try_recover retry_name_in_use w) refl
          refl)
        (after_clean_up retry_name_in_use w)
  shape-world retry_network_exists err attempt backoff w =
      rw
        (world_of_if (ltb 1 attempt) _ _ (clean_up env env.try_recover retry_network_exists w) refl
          refl)
        (after_clean_up retry_network_exists w)
  shape-world retry_daemon_restart err attempt backoff w = inl refl
