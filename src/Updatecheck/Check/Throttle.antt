-- ===== src/Updatecheck/Check/Throttle.antt =====
-- internal/updatecheck/updatecheck.go: the throttle.
use locorum.Common.{
  ℕ, ◌+◌, ◌≡◌, sym, ap, ◌∙◌, ◌<◌, true, some, List, [], ◌∷◌, Bool-cases, inl, inr, arith,
}
use locorum.Updatecheck.Check.{
  Result, Options, Outside, Response, ended, failed, throttled, throttle, touch, touch_if,
  should_run, is_throttled, after_fetch, check, with_defaults,
}
use locorum.Updatecheck.Check.Newer.{
  not_failed, check_throttled, check_fetches, after_fetch_ended, after_fetch_good,
}

-- The throttle file can be written: its time is then the one that was set.
pub record IsWritable {S E : Type 0} (o : Outside S E) (path : List ℕ) : Type 0 where
  pub makes : (w : S) → (o.make_parent path w).0 ≡ true
  pub creates : (w : S) → (o.create path w).0 ≡ true
  pub sets : (now : ℕ) (w : S) → o.stat path (o.set_time path now w).1 ≡ some now

module _ {S E : Type 0} (o : Outside S E) where
  touch_stat :
      (path : List ℕ) (now : ℕ) (w : S)
      → IsWritable o path
      → o.stat path (touch o path now w).1 ≡ some now
  unfolding touch
  touch_stat path now w writable = rw (writable.makes w) (
      rw (writable.creates (o.make_parent path w).1)
        (writable.sets now (o.create path (o.make_parent path w).1).1))

  throttled_by :
      (c : ℕ) (path : List ℕ) (now modified : ℕ) (w : S)
      → o.stat (c ∷ path) w ≡ some modified
      → now < modified + throttle
      → is_throttled o (c ∷ path) now w ≡ true
  unfolding is_throttled should_run
  throttled_by c path now modified w e early = rw (e, is_throttled, should_run) (ground arith)

  touch_if_stat :
      (path : List ℕ) (c : ℕ) (rest : List ℕ) (now : ℕ) (w : S)
      → path ≡ c ∷ rest
      → IsWritable o path
      → o.stat path (touch_if o path now w) ≡ some now
  unfolding touch_if
  touch_if_stat [] c rest now w e writable = cc
  touch_if_stat (d ∷ path) c rest now w e writable = touch_stat (d ∷ path) now w writable

  throttled_at :
      (path : List ℕ) (c : ℕ) (rest : List ℕ) (now modified : ℕ) (w : S)
      → path ≡ c ∷ rest
      → o.stat path w ≡ some modified
      → now < modified + throttle
      → is_throttled o path now w ≡ true
  throttled_at [] c rest now modified w e s early = cc
  throttled_at (d ∷ path) c rest now modified w e s early =
      throttled_by d path now modified w s early

module _ {S E : Type 0} (o : Outside S E) (current : List ℕ) (opts : Options) (now later : ℕ)
    (w : S) where
  abbrev d : Options
  d = with_defaults opts

  abbrev answer : Response E × S
  answer = o.fetch d.repo_owner d.repo_name w

  -- A check that has ended leaves what touching the throttle file leaves.
  check-touch_if :
      (res : Result)
      → (check o current opts now later w).0 ≡ ended res
      → (check o current opts now later w).1 ≡ touch_if o d.state_path later answer.1
  check-touch_if res h = elim (Bool-cases (is_throttled o d.state_path now w)) [
    | inl e ↦ absurd (not_failed (ap (λ r. r.0) (check_throttled o current opts now later w e)) h)
    | inr e ↦
        let fetched = check_fetches o current opts now later w e in
        let (status, releases, response, good, eq) =
          after_fetch_ended o d current later answer.1 answer.0 res
            (sym (ap (λ r. r.0) fetched) ∙ h) in
        ap (λ r. r.1) fetched
        ∙ ap (λ x. (after_fetch o d current later x answer.1).1) response
        ∙ ap (λ r. r.1) (after_fetch_good o d current later answer.1 status releases good)
  ]

-- After a check that has ended without an error, where a path is set whose file can be written, a check
-- with the same options within four hours of the time that the first one wrote is throttled and does
-- nothing.
pub check_again-throttled :
    {S E : Type 0} (o : Outside S E) (opts : Options) (c : ℕ) (path current current' : List ℕ)
    (now later now' later' : ℕ) (w : S) (res : Result)
    → opts.state_path ≡ c ∷ path
    → IsWritable o opts.state_path
    → (check o current opts now later w).0 ≡ ended res
    → now' < later + throttle
    → let after = (check o current opts now later w).1 in
      check o current' opts now' later' after ≡ (failed throttled, after)
unfolding with_defaults
check_again-throttled o opts c path current current' now later now' later' w res e writable h
      early =
    let touched = check-touch_if o current opts now later w res h in
    let stamped =
      touch_if_stat o opts.state_path c path later (answer o current opts now later w).1 e
        writable in
    check_throttled o current' opts now' later' (check o current opts now later w).1 (
      throttled_at o opts.state_path c path now' later (check o current opts now later w).1 e
        (ap (o.stat opts.state_path) touched ∙ stamped) early)
