-- ===== src/Retry/Induction.antt =====
-- internal/docker/retry.go: induction on the rounds of `withRetry`.
use locorum.Common.{
  ℕ, zero, suc, ◌+◌, ◌<◌, ◌≤◌, String, ◌≡◌, refl, none, some, ◌⊎◌, inl, inr, ltb, Option-cases,
  Bool-cases, arith,
}
use locorum.Retry.{
  Failure, cancelled, budget_exhausted, max_attempts_reached, Shaped, stop, go_on, RetryEnv,
  classify_error, shape, retry_loop,
}

⊎-cases : {A B : Type 0} (x : A ⊎ B) → ((a : A) × (x ≡ inl a)) ⊎ ((b : B) × (x ≡ inr b))
⊎-cases (inl a) = inl (a, refl)
⊎-cases (inr b) = inr (b, refl)

Shaped-cases :
    {E S : Type 0} (x : Shaped E S)
    → ((f : Failure E) × (w : S) × (x ≡ stop f w)) ⊎ ((b : ℕ) × (w : S) × (x ≡ go_on b w))
Shaped-cases (stop f w) = inl (f, w, refl)
Shaped-cases (go_on b w) = inr (b, w, refl)

module _ {A E S : Type 0} (env : RetryEnv A E S) where
  -- `Round left attempt backoff w r`: from `w`, with so many attempts left, the loop ends with `r`.
  abbrev pub shaped : E → ℕ → ℕ → S → Shaped E S
  shaped err attempt backoff w =
      shape env (classify_error env.view (some err)) err attempt backoff w

  module _ (deadline : ℕ) (P : ℕ → ℕ → ℕ → S → (A ⊎ Failure E) × S → Type 0)
      (P_max : (attempt backoff : ℕ) (w : S) → P 0 attempt backoff w (inr max_attempts_reached, w))
      (P_done : (left attempt backoff : ℕ) (w : S) (err : String)
        → env.ctx_err w ≡ some err
        → P (suc left) attempt backoff w (inr (cancelled err), w))
      (P_ok : (left attempt backoff : ℕ) (w : S) (a : A)
        → (env.op w).0 ≡ inl a
        → P (suc left) attempt backoff w (inl a, (env.op w).1))
      (P_stop : (left attempt backoff : ℕ) (w : S) (err : E) (f : Failure E) (w₂ : S)
        → (env.op w).0 ≡ inr err
        → shaped err attempt backoff (env.op w).1 ≡ stop f w₂
        → P (suc left) attempt backoff w (inr f, w₂))
      (P_budget : (left attempt backoff : ℕ) (w : S) (err : E) (b : ℕ) (w₂ : S)
        → (env.op w).0 ≡ inr err
        → shaped err attempt backoff (env.op w).1 ≡ go_on b w₂
        → deadline < env.now w₂ + b
        → P (suc left) attempt backoff w (inr (budget_exhausted err), w₂))
      (P_woken : (left attempt backoff : ℕ) (w : S) (err : E) (b : ℕ) (w₂ : S) (x : String)
        → (env.op w).0 ≡ inr err
        → shaped err attempt backoff (env.op w).1 ≡ go_on b w₂
        → env.now w₂ + b ≤ deadline
        → (env.sleep b w₂).0 ≡ some x
        → P (suc left) attempt backoff w (inr (cancelled x), (env.sleep b w₂).1))
      (P_next : (left attempt backoff : ℕ) (w : S) (err : E) (b : ℕ) (w₂ : S)
          (r : (A ⊎ Failure E) × S)
        → (env.op w).0 ≡ inr err
        → shaped err attempt backoff (env.op w).1 ≡ go_on b w₂
        → env.now w₂ + b ≤ deadline
        → (env.sleep b w₂).0 ≡ none
        → P left (attempt + 1) b (env.sleep b w₂).1 r
        → P (suc left) attempt backoff w r) where
    pub retry_induction :
        (left attempt backoff : ℕ) (w : S)
        → P left attempt backoff w (retry_loop env deadline left attempt backoff w)
    unfolding retry_loop
    retry_induction zero attempt backoff w = P_max attempt backoff w
    retry_induction (suc left) attempt backoff w = elim (Option-cases (env.ctx_err w)) [
      | inr (x, h) ↦ rw (h, retry_loop) (P_done left attempt backoff w x h)
      | inl h ↦ elim (⊎-cases (env.op w).0) [
        | inl (a, o) ↦ rw (h, o, retry_loop) (P_ok left attempt backoff w a o)
        | inr (err, o) ↦ elim (Shaped-cases (shaped err attempt backoff (env.op w).1)) [
          | inl (f, w₂, s) ↦ rw (h, o, s, retry_loop) (P_stop left attempt backoff w err f w₂ o s)
          | inr (b, w₂, s) ↦ elim (Bool-cases (ltb deadline (env.now w₂ + b))) [
            | inl late ↦
                rw (h, o, s, late, retry_loop)
                  (P_budget left attempt backoff w err b w₂ o s (ground arith))
            | inr soon ↦ elim (Option-cases (env.sleep b w₂).0) [
              | inr (x, z) ↦
                  rw (h, o, s, soon, z, retry_loop)
                    (P_woken left attempt backoff w err b w₂ x o s (ground arith) z)
              | inl z ↦
                  rw (h, o, s, soon, z, retry_loop)
                    (P_next left attempt backoff w err b w₂ _ o s (ground arith) z
                      (retry_induction left (attempt + 1) b (env.sleep b w₂).1))
            ]
          ]
        ]
      ]
    ]
