-- ===== src/Retry/Bounds.antt =====
-- internal/docker/retry.go: how often `withRetry` calls the operation, how long it waits, and what
-- the errors that it returns stand for.
use locorum.Common.{ℕ, ◌+◌, ◌≤◌, ◌≡◌, refl, ap, ◌∙◌, some, ◌⊎◌, inl, inr, arith}
use locorum.Retry.{
  RetryClass, retry_budget_default, retry_backoff_max, Failure, max_attempts_reached, stop, go_on,
  RetryEnv, classify_error, deadline_of, with_retry,
}
use locorum.Retry.Induction.{shaped, retry_induction}
use locorum.Retry.Shape.{
  Failed, RanOut, Explained, Explained-stop, stop-ne-max, go_on_class, go_on_range, world_of,
  shape-world, CleanedUp,
}

-- `calls` counts the calls of the operation.
pub record Counts {A E S : Type 0} (env : RetryEnv A E S) (calls : S → ℕ) : Type 0 where
  pub op : (w : S) → calls (env.op w).1 ≡ calls w + 1
  pub sleep : (b : ℕ) (w : S) → calls (env.sleep b w).1 ≡ calls w
  pub try_recover :
      (f : RetryClass → S → S) (class : RetryClass) (w : S)
      → env.try_recover ≡ some f
      → calls (f class w) ≡ calls w

-- `P` is kept by the operation, by the clean-up, and by waits from 50 ms to 30 s that end before the
-- deadline.
pub record KeepsInTime {A E S : Type 0} (env : RetryEnv A E S) (deadline : ℕ) (P : S → Type 0)
    : Type 0 where
  pub op : (w : S) → P w → P (env.op w).1
  pub try_recover :
      (f : RetryClass → S → S) (class : RetryClass) (w : S)
      → env.try_recover ≡ some f
      → P w
      → P (f class w)
  pub sleep :
      (b : ℕ) (w : S)
      → 50 ≤ b
      → b ≤ retry_backoff_max
      → env.now w + b ≤ deadline
      → P w
      → P (env.sleep b w).1

inr_injective : {A B : Type 0} {x y : B} → ◌≡◌ {A = A ⊎ B} (inr x) (inr y) → x ≡ y
inr_injective e = cc

module _ {A E S : Type 0} (env : RetryEnv A E S) (w : S) where
  stopped :
      (v w₂ : S) (err : E) (attempt backoff : ℕ) (f : Failure E)
      → (env.op v).0 ≡ inr err
      → shaped env err attempt backoff (env.op v).1 ≡ stop f w₂
      → Failed env err w₂
  stopped v w₂ err attempt backoff f o s = (
    v,
    o,
    rw (ap world_of s) at
        (shape-world env (classify_error env.view (some err)) err attempt backoff (env.op v).1),
  )

  going_on :
      (v w₂ : S) (err : E) (attempt backoff b : ℕ)
      → (env.op v).0 ≡ inr err
      → shaped env err attempt backoff (env.op v).1 ≡ go_on b w₂
      → Failed env err w₂
  going_on v w₂ err attempt backoff b o s = (
    v,
    o,
    rw (ap world_of s) at
        (shape-world env (classify_error env.view (some err)) err attempt backoff (env.op v).1),
  )

  -- A result of `withRetry` is that of a call of the operation, and what that left is left. An error
  -- that is returned as it is, or wrapped as transient, is that of a call that failed, with at most the
  -- clean-up after it: one returned as it is is not of a transient class, and one wrapped is of the class that the
  -- wrapping names, or, where the budget is exhausted, of any transient class, and a wait of at most 30 s
  -- would have passed the deadline. An end of the context is what the context or a wait reported. If the
  -- attempts run out, a call has failed with a transient error and the wait after it has ended.
  pub with_retry-Explained :
      Explained env
        (deadline_of env env.ctx_deadline (env.now w + retry_budget_default))
        (with_retry env w).0
        (with_retry env w).1
  unfolding with_retry
  with_retry-Explained =
      let deadline = deadline_of env env.ctx_deadline (env.now w + retry_budget_default) in
      retry_induction env deadline
        (λ left attempt backoff v r.
          50 ≤ backoff
          → backoff ≤ retry_backoff_max
          → (left ≡ 0 → RanOut env v)
          → Explained env deadline r.0 r.1)
        (λ attempt backoff v lo hi out. out refl) (λ left attempt backoff v err h lo hi out. inl h)
        (λ left attempt backoff v a o lo hi out. (v, o, refl))
        (λ left attempt backoff v err f w₂ o s lo hi out.
          Explained-stop env deadline _ err attempt backoff _ f w₂ refl s
            (stopped v w₂ err attempt backoff f o s))
        (λ left attempt backoff v err b w₂ o s late lo hi out.
          let range = go_on_range env _ err attempt backoff _ b w₂ s lo hi in
          (
            going_on v w₂ err attempt backoff b o s,
            go_on_class env _ err attempt backoff _ b w₂ s,
            (b, range.1, late),
          ))
        (λ left attempt backoff v err b w₂ x o s soon z lo hi out. inr (b, w₂, z, refl))
        (λ left attempt backoff v err b w₂ r o s soon z ih lo hi out.
          let range = go_on_range env _ err attempt backoff _ b w₂ s lo hi in
          ih range.0 range.1 (λ e. (
            err,
            w₂,
            b,
            going_on v w₂ err attempt backoff b o s,
            go_on_class env _ err attempt backoff _ b w₂ s,
            z,
            refl,
          )))
        5 1 200 w (omega arith) (omega arith) (λ e. absurd (omega (arith, e)))

module _ {A E S : Type 0} (env : RetryEnv A E S) (calls : S → ℕ) (counts : Counts env calls) where
  CleanedUp-calls : (class : RetryClass) (w w₂ : S) → CleanedUp env class w w₂ → calls w₂ ≡ calls w
  CleanedUp-calls class w w₂ (inl e) = ap calls e
  CleanedUp-calls class w w₂ (inr (f, e, h)) = ap calls h ∙ counts.try_recover f class w e

  stop-calls :
      (err : E) (attempt backoff : ℕ) (w w₂ : S) (f : Failure E)
      → shaped env err attempt backoff w ≡ stop f w₂
      → calls w₂ ≡ calls w
  stop-calls err attempt backoff w w₂ f s = CleanedUp-calls _ w w₂ (
      rw (ap world_of s) at
        (shape-world env (classify_error env.view (some err)) err attempt backoff w))

  go_on-calls :
      (err : E) (attempt backoff : ℕ) (w w₂ : S) (b : ℕ)
      → shaped env err attempt backoff w ≡ go_on b w₂
      → calls w₂ ≡ calls w
  go_on-calls err attempt backoff w w₂ b s = CleanedUp-calls _ w w₂ (
      rw (ap world_of s) at
        (shape-world env (classify_error env.view (some err)) err attempt backoff w))

  -- The operation is called five times at most, and exactly five times where `withRetry` says that
  -- it has made the most attempts.
  pub with_retry-calls :
      (w : S)
      → (calls (with_retry env w).1 ≤ calls w + 5)
        × ((with_retry env w).0 ≡ inr max_attempts_reached
            → calls (with_retry env w).1 ≡ calls w + 5)
  unfolding with_retry
  with_retry-calls w =
      retry_induction env _
        (λ left attempt backoff v r.
          (calls r.1 ≤ calls v + left)
          × (r.0 ≡ inr max_attempts_reached → calls r.1 ≡ calls v + left))
        (λ attempt backoff v. (omega arith, λ e. omega arith))
        (λ left attempt backoff v err h. (omega arith, λ e. cc))
        (λ left attempt backoff v a o. (omega (arith, counts.op v), λ e. cc))
        (λ left attempt backoff v err f w₂ o s. (
          omega (arith, counts.op v, stop-calls err attempt backoff (env.op v).1 w₂ f s),
          λ e. absurd (stop-ne-max env _ err attempt backoff _ f w₂ s (inr_injective e)),
        ))
        (λ left attempt backoff v err b w₂ o s late. (
          omega (arith, counts.op v, go_on-calls err attempt backoff (env.op v).1 w₂ b s),
          λ e. cc,
        ))
        (λ left attempt backoff v err b w₂ x o s soon z. (
          omega (
            arith,
            counts.op v,
            counts.sleep b w₂,
            go_on-calls err attempt backoff (env.op v).1 w₂ b s,
          ),
          λ e. cc,
        ))
        (λ left attempt backoff v err b w₂ r o s soon z ih.
          let c : calls (env.sleep b w₂).1 ≡ calls v + 1 = omega (
            arith,
            counts.op v,
            counts.sleep b w₂,
            go_on-calls err attempt backoff (env.op v).1 w₂ b s,
          ) in
          (omega (arith, c, ih.0), λ e. omega (arith, c, ih.1 e)))
        5 1 200 w

module _ {A E S : Type 0} (env : RetryEnv A E S) where
  CleanedUp-keeps :
      (deadline : ℕ) (P : S → Type 0)
      → KeepsInTime env deadline P
      → (class : RetryClass) (w w₂ : S) → CleanedUp env class w w₂
      → P w
      → P w₂
  CleanedUp-keeps deadline P k class w w₂ (inl e) p = rw e p
  CleanedUp-keeps deadline P k class w w₂ (inr (f, e, h)) p = rw h (k.try_recover f class w e p)

  stop-keeps :
      (deadline : ℕ) (P : S → Type 0)
      → KeepsInTime env deadline P
      → (err : E) (attempt backoff : ℕ) (w w₂ : S) (f : Failure E)
      → shaped env err attempt backoff w ≡ stop f w₂
      → P w
      → P w₂
  stop-keeps deadline P k err attempt backoff w w₂ f s = CleanedUp-keeps deadline P k _ w w₂ (
      rw (ap world_of s) at
        (shape-world env (classify_error env.view (some err)) err attempt backoff w))

  go_on-keeps :
      (deadline : ℕ) (P : S → Type 0)
      → KeepsInTime env deadline P
      → (err : E) (attempt backoff : ℕ) (w w₂ : S) (b : ℕ)
      → shaped env err attempt backoff w ≡ go_on b w₂
      → P w
      → P w₂
  go_on-keeps deadline P k err attempt backoff w w₂ b s = CleanedUp-keeps deadline P k _ w w₂ (
      rw (ap world_of s) at
        (shape-world env (classify_error env.view (some err)) err attempt backoff w))

  -- Whatever the operation, the clean-up and waits in time keep, `withRetry` keeps: it never waits
  -- for less than 50 ms or more than 30 s, nor past its deadline, which is that of the context or
  -- 90 s from the start.
  with_retry_keeps :
      (P : S → Type 0) (w : S)
      → KeepsInTime env (deadline_of env env.ctx_deadline (env.now w + retry_budget_default)) P
      → P w
      → P (with_retry env w).1
  unfolding with_retry
  with_retry_keeps P w k p =
      let deadline = deadline_of env env.ctx_deadline (env.now w + retry_budget_default) in
      retry_induction env deadline
        (λ left attempt backoff v r. 50 ≤ backoff → backoff ≤ retry_backoff_max → P v → P r.1)
        (λ attempt backoff v lo hi q. q) (λ left attempt backoff v err h lo hi q. q)
        (λ left attempt backoff v a o lo hi q. k.op v q)
        (λ left attempt backoff v err f w₂ o s lo hi q.
          stop-keeps deadline P k err attempt backoff _ w₂ f s (k.op v q))
        (λ left attempt backoff v err b w₂ o s late lo hi q.
          go_on-keeps deadline P k err attempt backoff _ w₂ b s (k.op v q))
        (λ left attempt backoff v err b w₂ x o s soon z lo hi q.
          let range = go_on_range env _ err attempt backoff _ b w₂ s lo hi in
          k.sleep b w₂ range.0 range.1 soon
            (go_on-keeps deadline P k err attempt backoff _ w₂ b s (k.op v q)))
        (λ left attempt backoff v err b w₂ r o s soon z ih lo hi q.
          let range = go_on_range env _ err attempt backoff _ b w₂ s lo hi in
          ih range.0 range.1 (
            k.sleep b w₂ range.0 range.1 soon
              (go_on-keeps deadline P k err attempt backoff _ w₂ b s (k.op v q))))
        5 1 200 w (omega arith) (omega arith) p
