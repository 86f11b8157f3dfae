-- ===== src/DiskCheck/Gate.antt =====
-- internal/health/checks_disk.go with breaker.go: when the check asks Docker.
use locorum.Common.{
  ℕ, zero, suc, ◌≡◌, refl, ap, ◌∙◌, true, false, List, [], ◌∷◌, Bool-cases, inl, inr, if◌then◌else◌,
  arith,
}
use locorum.Common.Int.{ℤ}
use locorum.Breaker.{Breaker, BreakerState, hour, state, allow, is_open}
use locorum.Breaker.History.{
  Outcome, success, failure, after, record_outcome, expected, state-after,
}
use locorum.DiskCheck.{
  DiskLowConfig, DiskLowCheck, new_disk_low_check, Usage, reported, unavailable, circuit_open,
  Outside, read_host_free, answered, read_docker, run,
}

-- The outcome that an answer is for the breaker.
abbrev pub outcome : {R E : Type 0} → Usage R E → ℕ → Outcome
outcome (reported r) now = success now
outcome (unavailable e) now = failure now

answered-breaker :
    {R E : Type 0} (usage : Usage R E) (now : ℕ) (c : DiskLowCheck R E)
    → (answered usage now c).1.breaker ≡ record_outcome (outcome usage now) c.breaker
unfolding answered record_outcome
answered-breaker (reported r) now c = refl
answered-breaker (unavailable e) now c = refl

after_cons :
    (x : Outcome) (history : List Outcome)
    → record_outcome x (after 3 hour history) ≡ after 3 hour (x ∷ history)
unfolding after
after_cons x history = refl

module _ {S R E : Type 0} (o : Outside S R E) where
  -- The outside once the host's free space has been read.
  abbrev pub measured : DiskLowCheck R E → S → S
  measured c w = elim c.path [ [] ↦ w | (b ∷ path) ↦ (o.host_free_bytes (b ∷ path) w).1 ]

  -- The outcomes recorded, the last one first, after Docker is asked, if the breaker allows it.
  abbrev pub noted : Breaker → S → List Outcome → List Outcome
  noted b w history =
      let (usage, w') = o.disk_usage w in
      if allow b (o.clock w) then outcome usage (o.clock w') ∷ history else history

  read_host_free_lem :
      (c : DiskLowCheck R E) (w : S) (path : List ℕ)
      → c.path ≡ path
      → ((read_host_free o c w).1.breaker ≡ c.breaker) × ((read_host_free o c w).2 ≡ measured c w)
  unfolding read_host_free
  read_host_free_lem c w [] e = (rw (e, read_host_free) refl, rw (e, read_host_free) refl)
  read_host_free_lem c w (b ∷ path) e = (rw (e, read_host_free) refl, rw (e, read_host_free) refl)

  read_docker_open :
      (c : DiskLowCheck R E) (w : S)
      → allow c.breaker (o.clock w) ≡ false
      → read_docker o c w ≡ (circuit_open, c, w)
  unfolding read_docker
  read_docker_open c w e = rw (e, read_docker) refl

  read_docker_allowed :
      (c : DiskLowCheck R E) (w : S)
      → allow c.breaker (o.clock w) ≡ true
      → read_docker o c w ≡ (
          let (usage, w') = o.disk_usage w in
          let (read, c') = answered usage (o.clock w') c in (read, c', w'))
  unfolding read_docker
  read_docker_allowed c w e = rw (e, read_docker) refl

  read_docker-breaker :
      (c : DiskLowCheck R E) (w : S) (history : List Outcome)
      → c.breaker ≡ after 3 hour history
      → (read_docker o c w).1.breaker ≡ after 3 hour (noted c.breaker w history)
  read_docker-breaker c w history e = elim (Bool-cases (allow c.breaker (o.clock w))) [
    | inr barred ↦ rw (barred) (ap (λ r. r.1.breaker) (read_docker_open c w barred) ∙ e)
    | inl allowed ↦
        let answer = o.disk_usage w in
        rw (allowed) (
          ap (λ r. r.1.breaker) (read_docker_allowed c w allowed)
          ∙ answered-breaker answer.0 (o.clock answer.1) c
          ∙ ap (record_outcome (outcome answer.0 (o.clock answer.1))) e
          ∙ after_cons (outcome answer.0 (o.clock answer.1)) history)
  ]

  -- The outside after Docker is asked, if a breaker with this state allows it.
  abbrev pub asked : BreakerState → S → S
  asked b w = if is_open b then w else (o.disk_usage w).1

  allow_closed :
      (b : Breaker) (now : ℕ) → allow b now ≡ (if is_open (state b now) then false else true)
  unfolding allow
  allow_closed b now = refl

  read_docker-asked :
      (c : DiskLowCheck R E) (w : S) → (read_docker o c w).2 ≡ asked (state c.breaker (o.clock w)) w
  read_docker-asked c w = elim (Bool-cases (is_open (state c.breaker (o.clock w)))) [
    | inl barred ↦ rw (barred) (
        ap (λ r. r.2)
          (read_docker_open c w (allow_closed c.breaker (o.clock w) ∙ (rw (barred) refl))))
    | inr shut ↦ rw (shut) (
        ap (λ r. r.2)
          (read_docker_allowed c w (allow_closed c.breaker (o.clock w) ∙ (rw (shut) refl))))
  ]

module _ (A : Type 0) {S R E : Type 0} (o : Outside S R E) (human : ℤ → List ℕ) where
  run-read_docker :
      (c : DiskLowCheck R E) (w : S)
      → let r = read_host_free o c w in
        ((run {A = A} o human c w).1 ≡ (read_docker o r.1 r.2).1)
        × ((run {A = A} o human c w).2 ≡ (read_docker o r.1 r.2).2)
  unfolding run
  run-read_docker c w = (refl, refl)

  -- Runs of the check one after the other, with the outcomes that its breaker records.
  unfoldable pub runs :
      ℕ → DiskLowCheck R E → S → List Outcome → List Outcome × DiskLowCheck R E × S
  unfolding run
  runs zero c w history = (history, c, w)
  runs (suc n) c w history =
      let (result, c', w') = run {A = A} o human c w in
      runs n c' w' (noted o c.breaker (measured o c w) history)

  run-breaker :
      (c : DiskLowCheck R E) (w : S) (history : List Outcome)
      → c.breaker ≡ after 3 hour history
      → (run {A = A} o human c w).1.breaker
        ≡ after 3 hour (noted o c.breaker (measured o c w) history)
  run-breaker c w history e =
      let r = read_host_free o c w in
      let (same, w1) = read_host_free_lem o c w c.path refl in
      ap (λ (d : DiskLowCheck R E). d.breaker) (run-read_docker c w).0
      ∙ read_docker-breaker o r.1 r.2 history (same ∙ e)
      ∙ ap (λ b. after 3 hour (noted o b r.2 history)) same
      ∙ ap (λ v. after 3 hour (noted o c.breaker v history)) w1

  run-asked :
      (c : DiskLowCheck R E) (w : S)
      → (run {A = A} o human c w).2
        ≡ asked o (state c.breaker (o.clock (measured o c w))) (measured o c w)
  run-asked c w =
      let r = read_host_free o c w in
      let (same, w1) = read_host_free_lem o c w c.path refl in
      (run-read_docker c w).1
      ∙ read_docker-asked o r.1 r.2
      ∙ ap (λ b. asked o (state b (o.clock r.2)) r.2) same
      ∙ ap (λ v. asked o (state c.breaker (o.clock v)) v) w1

  runs-breaker :
      (n : ℕ) (c : DiskLowCheck R E) (w : S) (history : List Outcome)
      → c.breaker ≡ after 3 hour history
      → (runs n c w history).1.breaker ≡ after 3 hour (runs n c w history).0
  unfolding runs
  runs-breaker zero c w history e = e
  runs-breaker (suc n) c w history e =
      runs-breaker n (run {A = A} o human c w).1 (run {A = A} o human c w).2
        (noted o c.breaker (measured o c w) history) (run-breaker c w history e)

new_disk_low_check-breaker :
    (R E : Type 0) (cfg : DiskLowConfig)
    → (new_disk_low_check {R = R} {E = E} cfg).breaker ≡ after 3 hour []
unfolding new_disk_low_check after
new_disk_low_check-breaker R E cfg = refl

-- After any number of runs of a new check, a run asks Docker once if fewer than three answers in a row
-- have failed since the last one that did not, or if more than an hour has passed since the last failure;
-- otherwise it does not ask. Apart from that it only reads the free space of the host.
pub run-expected :
    (A : Type 0) {S R E : Type 0} (o : Outside S R E) (human : ℤ → List ℕ) (n : ℕ)
    (cfg : DiskLowConfig) (w : S)
    → let (history, c, w') = runs A o human n (new_disk_low_check cfg) w [] in
      let w1 = measured o c w' in
      (run {A = A} o human c w').2 ≡ asked o (expected 3 hour history (o.clock w1)) w1
run-expected A {S} {R} {E} o human n cfg w =
    let (history, c, w') = runs A o human n (new_disk_low_check cfg) w [] in
    let w1 = measured o c w' in
    let breaker =
      runs-breaker A o human n (new_disk_low_check cfg) w [] (new_disk_low_check-breaker R E cfg) in
    run-asked A o human c w'
    ∙ ap (λ b. asked o (state b (o.clock w1)) w1) breaker
    ∙ ap (λ s. asked o s w1) (state-after 3 hour history (o.clock w1) (omega arith) (omega arith))
