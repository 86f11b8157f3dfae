-- ===== src/Updatecheck/Check/Newer.antt =====
-- internal/updatecheck/updatecheck.go: what Check reports is newer.
use locorum.Common.{
  ℕ, ◌/◌, ◌≡◌, refl, sym, ap, ◌∙◌, true, false, Option, none, some, List, Bool-cases, Option-cases,
  ◌==◌, ◌⊎◌, inl, inr,
}
use mathlib.Core.Path.{subst}
use locorum.Updatecheck.Check.{
  Release, Result, no_result, report, Outside, Options, Response, unanswered, answered, Outcome,
  ended, failed, CheckError, throttled, http_status, decode_failed, fetch_failed, touch_if,
  after_fetch, check, with_defaults, is_throttled,
}
use locorum.Updatecheck.Check.Upgrade.{IsUpgrade, IsUpToDate, report-IsUpgrade}

pub not_failed :
    {E : Type 0} {e : CheckError E} {res : Result} {out : Outcome E}
    → out ≡ failed e
    → out ≡ ended res
    → ⊥
not_failed p q = cc

same_result :
    {E : Type 0} {res res' : Result} {out : Outcome E}
    → out ≡ ended res'
    → out ≡ ended res
    → res ≡ res'
same_result p q = cc

module _ {S E : Type 0} (o : Outside S E) (opts : Options) (current : List ℕ) (now : ℕ)
    (w : S) where
  after_fetch_bad :
      (status : ℕ) (decoded : Option (List Release))
      → status / 100 == 2 ≡ false
      → after_fetch o opts current now (answered status decoded) w
        ≡ (failed (http_status status), w)
  unfolding after_fetch
  after_fetch_bad status decoded e = rw (e) refl

  after_fetch_unanswered :
      (e : E) → (after_fetch o opts current now (unanswered e) w).0 ≡ failed (fetch_failed e)
  unfolding after_fetch
  after_fetch_unanswered e = refl

  after_fetch_garbled :
      (status : ℕ)
      → status / 100 == 2 ≡ true
      → after_fetch o opts current now (answered status none) w ≡ (failed decode_failed, w)
  unfolding after_fetch
  after_fetch_garbled status e = rw (e) refl

  pub after_fetch_good :
      (status : ℕ) (releases : List Release)
      → status / 100 == 2 ≡ true
      → after_fetch o opts current now (answered status (some releases)) w
        ≡ (ended (report opts.channel releases current), touch_if o opts.state_path now w)
  unfolding after_fetch
  after_fetch_good status releases e = rw (e) refl

  pub after_fetch_ended :
      (response : Response E) (res : Result)
      → (after_fetch o opts current now response w).0 ≡ ended res
      → (status : ℕ) × (releases : List Release) × (response ≡ answered status (some releases))
        × (status / 100 == 2 ≡ true)
        × (res ≡ report opts.channel releases current)
  after_fetch_ended (unanswered e) res h = absurd (not_failed (after_fetch_unanswered e) h)
  after_fetch_ended (answered status decoded) res h = elim (Bool-cases (status / 100 == 2)) [
    | inr e ↦ absurd (not_failed (ap (λ r. r.0) (after_fetch_bad status decoded e)) h)
    | inl e ↦ elim (Option-cases decoded) [
      | inl d ↦ absurd (not_failed (ap (λ r. r.0) (after_fetch_garbled status e)) (rw (d) at h))
      | inr (releases, d) ↦ (
        status,
        releases,
        ap (answered status) d,
        e,
        same_result (ap (λ r. r.0) (after_fetch_good status releases e)) (rw (d) at h),
      )
    ]
  ]

module _ {S E : Type 0} (o : Outside S E) (current : List ℕ) (opts : Options) (now later : ℕ)
    (w : S) where
  pub check_throttled :
      is_throttled o (with_defaults opts).state_path now w ≡ true
      → check o current opts now later w ≡ (failed throttled, w)
  unfolding check
  check_throttled e = rw (e, check) refl

  pub check_fetches :
      is_throttled o (with_defaults opts).state_path now w ≡ false
      → check o current opts now later w ≡ (
          let (response, w') =
            o.fetch (with_defaults opts).repo_owner (with_defaults opts).repo_name w in
          after_fetch o (with_defaults opts) current later response w')
  unfolding check
  check_fetches e = rw (e, check) refl

-- If `Check` ends without an error, then a request was answered with a status of 200 to 299 and a list of
-- releases. The releases that count are no drafts and, on the stable channel, not marked as prereleases on
-- GitHub; a prerelease tag in the version alone does not keep a release out. Either the result is empty, and no
-- release that counts has a higher version than the current one, if that is a version; or the result is that of a
-- release that counts, whose version is higher than the current one, and than which no other has a higher
-- version. Higher is by the major, minor and patch numbers, then no prerelease tag, then tags in byte order.
pub check-IsUpgrade :
    {S E : Type 0} (o : Outside S E) (current : List ℕ) (opts : Options) (now later : ℕ) (w : S)
    (res : Result)
    → (check o current opts now later w).0 ≡ ended res
    → (status : ℕ) × (releases : List Release) × ((o.fetch
          (with_defaults opts).repo_owner
          (with_defaults opts).repo_name
          w).0
        ≡ answered status (some releases))
      × (status / 100 == 2 ≡ true)
      × (((res ≡ no_result) × IsUpToDate (with_defaults opts).channel releases current)
          ⊎ IsUpgrade (with_defaults opts).channel releases current res)
check-IsUpgrade {S} {E} o current opts now later w res h =
    elim (Bool-cases (is_throttled o (with_defaults opts).state_path now w)) [
      | inl e ↦ absurd (not_failed (ap (λ r. r.0) (check_throttled o current opts now later w e)) h)
      | inr e ↦
          let d = with_defaults opts in
          let answer = o.fetch d.repo_owner d.repo_name w in
          let (status, releases, response, good, eq) =
            after_fetch_ended o d current later answer.1 answer.0 res
              (sym (ap (λ r. r.0) (check_fetches o current opts now later w e)) ∙ h) in
          (
            status,
            releases,
            response,
            good,
            subst
                (λ x.
                  ((x ≡ no_result) × IsUpToDate d.channel releases current)
                  ⊎ IsUpgrade d.channel releases current x)
                (sym eq) (report-IsUpgrade d.channel releases current),
          )
    ]
