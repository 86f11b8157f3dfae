-- ===== src/Updatecheck/Check/Upgrade.antt =====
-- internal/updatecheck/updatecheck.go: which release is reported.
use locorum.Common.{
  ℕ, ◌≡◌, refl, sym, ap, ◌∙◌, true, false, none, some, List, [], ◌∷◌, All, arith, Bool-cases,
  Option-cases, ◌⊎◌, inl, inr,
}
use mathlib.Core.Path.{subst}
use mathlib.Core.List.{Mem}
use locorum.Common.Text.{equals, equals-≡, equals_same}
use locorum.Updatecheck.{
  Sign, below, same, above, Semver, is_above, trim_v, parse_semver, compare_semver,
  is_strictly_newer,
}
use locorum.Updatecheck.Check.{
  Release, Result, no_result, channel_stable, is_skipped, result_of, pick_from, pick_release,
  report,
}
use locorum.Updatecheck.Check.Pick.{
  Dominated, not_above_trans, pick_from-Dominated, pick_from-IsPicked,
}
use locorum.Updatecheck.Comparison.{reverse}
use locorum.Updatecheck.Order.{compare_semver-IsLinear}
use locorum.Updatecheck.Higher.{IsHigher, compare_semver-IsHigher, IsHigher-compare_semver}
use locorum.Updatecheck.Check.Trimmed.{parse_semver-trim_v}

newer_than :
    (latest current : List ℕ) (s : Semver)
    → parse_semver latest ≡ some s
    → is_strictly_newer latest current ≡ true
    → (cu : Semver) × (parse_semver current ≡ some cu) × (is_above (compare_semver s cu) ≡ true)
newer_than latest current s p h = elim (Option-cases (parse_semver current)) [
  | inl e ↦ absurd (unknown e)
  | inr (cu, e) ↦ (cu, e, sym (known cu e) ∙ h)
]
  where
    known :
        (cu : Semver)
        → parse_semver current ≡ some cu
        → is_strictly_newer latest current ≡ is_above (compare_semver s cu)
    known cu e = unfold is_strictly_newer in rw (p, e, is_strictly_newer) refl

    unknown : parse_semver current ≡ none → ⊥
    unknown e =
        let no : is_strictly_newer latest current ≡ false =
          unfold is_strictly_newer in rw (p, e, is_strictly_newer) refl in
        cc

-- What a channel may offer: no draft and, on the stable channel, no release that is marked as a prerelease.
abbrev pub IsAdmitted : List ℕ → Release → Type 0
IsAdmitted channel r = (r.draft ≡ false) × (channel ≡ channel_stable → r.prerelease ≡ false)

-- No admitted release of the list has a version higher than a given one.
abbrev pub NoneHigher : List ℕ → List Release → Semver → Type 0
NoneHigher channel releases s =
    All
      (λ r.
        (t : Semver) → IsAdmitted channel r → parse_semver r.tag_name ≡ some t → IsHigher t s → ⊥)
      releases

-- The result is that of an admitted release whose version is higher than the current one, and than which no
-- admitted release has a higher version.
abbrev pub IsUpgrade : List ℕ → List Release → List ℕ → Result → Type 0
IsUpgrade channel releases current res =
    (r : Release) × (s : Semver) × (cu : Semver) × Mem r releases
    × IsAdmitted channel r
    × (parse_semver r.tag_name ≡ some s)
    × (parse_semver current ≡ some cu)
    × IsHigher s cu
    × NoneHigher channel releases s
    × (res ≡ result_of r)

-- There is nothing to report.
abbrev pub IsUpToDate : List ℕ → List Release → List ℕ → Type 0
IsUpToDate channel releases current =
    (cu : Semver) → parse_semver current ≡ some cu → NoneHigher channel releases cu

is_skipped-IsAdmitted :
    (channel : List ℕ) (r : Release) → is_skipped channel r ≡ false → IsAdmitted channel r
is_skipped-IsAdmitted channel r h =
    (ground arith, (λ e. let stable = equals_same channel channel_stable e in ground arith))

IsAdmitted-is_skipped :
    (channel : List ℕ) (r : Release) → IsAdmitted channel r → is_skipped channel r ≡ false
IsAdmitted-is_skipped channel r (public, tested) =
    elim (Bool-cases (equals channel channel_stable)) [
      | inl e ↦ rw (public, e) (tested (equals-≡ channel channel_stable e))
      | inr e ↦ rw (public, e) refl
    ]

All-upgrade :
    {A : Type 0} (P Q : A → Type 0) (xs : List A) → ((x : A) → P x → Q x) → All P xs → All Q xs
All-upgrade P Q [] f h = tt
All-upgrade P Q (x ∷ xs) f (p, h) = (f x p, All-upgrade P Q xs f h)

above_is_above : (o : Sign) → o ≡ above → is_above o ≡ true
above_is_above o e = ap is_above e

Dominated-NoneHigher :
    (channel : List ℕ) (releases : List Release) (r : Release) (s : Semver)
    → All (Dominated channel (some (r, s))) releases
    → NoneHigher channel releases s
Dominated-NoneHigher channel releases r s = All-upgrade _ _ releases (λ x best t admitted p higher.
    let no : is_above (compare_semver t s) ≡ false =
      best t (IsAdmitted-is_skipped channel x admitted, p) in
    let yes = above_is_above (compare_semver t s) (IsHigher-compare_semver t s higher) in
    let h : true ≡ false = sym yes ∙ no in cc)

-- Two versions neither of which is above the other are the same.
not_above-≡ :
    (a b : Semver)
    → is_above (compare_semver a b) ≡ false
    → is_above (compare_semver b a) ≡ false
    → a ≡ b
not_above-≡ a b h k = decide (compare_semver a b) refl
  where
    decide : (o : Sign) → compare_semver a b ≡ o → a ≡ b
    decide same e = compare_semver-IsLinear.equal a b e
    decide above e = absurd (let h' : true ≡ false = sym (ap is_above e) ∙ h in cc)
    decide below e =
        let up : compare_semver b a ≡ above = compare_semver-IsLinear.swapped a b ∙ ap reverse e in
        absurd (let h' : true ≡ false = sym (ap is_above up) ∙ k in cc)

-- What is not above the best version, which is not above another one, is not above that one.
older_higher :
    (s cu t : Semver)
    → is_above (compare_semver s cu) ≡ false
    → is_above (compare_semver t s) ≡ false
    → IsHigher t cu
    → ⊥
older_higher s cu t h k higher =
    let up = above_is_above (compare_semver t cu) (IsHigher-compare_semver t cu higher) in
    let same_version : s ≡ t = not_above-≡ s t (not_above_trans s cu t h up) k in
    let no : is_above (compare_semver t cu) ≡ false =
      subst (λ v. is_above (compare_semver v cu) ≡ false) same_version h in
    let h' : true ≡ false = sym up ∙ no in cc

older_than :
    (latest current : List ℕ) (s cu : Semver)
    → parse_semver latest ≡ some s
    → parse_semver current ≡ some cu
    → is_strictly_newer latest current ≡ false
    → is_above (compare_semver s cu) ≡ false
older_than latest current s cu p e h =
    let known : is_strictly_newer latest current ≡ is_above (compare_semver s cu) =
      unfold is_strictly_newer in rw (p, e, is_strictly_newer) refl in
    sym known ∙ h

is_above-≡ : (o : Sign) → is_above o ≡ true → o ≡ above
is_above-≡ below h = cc
is_above-≡ same h = cc
is_above-≡ above h = refl

module _ (channel : List ℕ) (releases : List Release) (current : List ℕ) where
  report_nothing :
      pick_from channel releases none ≡ none → report channel releases current ≡ no_result
  unfolding report pick_release
  report_nothing e = rw (e, report, pick_release) refl

  report_older :
      (r : Release) (s : Semver)
      → pick_from channel releases none ≡ some (r, s)
      → is_strictly_newer (trim_v r.tag_name) current ≡ false
      → report channel releases current ≡ no_result
  unfolding report pick_release
  report_older r s e older = rw (e, report, pick_release) (rw (older) refl)

  report_newer :
      (r : Release) (s : Semver)
      → pick_from channel releases none ≡ some (r, s)
      → is_strictly_newer (trim_v r.tag_name) current ≡ true
      → report channel releases current ≡ result_of r
  unfolding report pick_release
  report_newer r s e newer = rw (e, report, pick_release) (rw (newer) refl)

  pub report-IsUpgrade :
      ((report channel releases current ≡ no_result) × IsUpToDate channel releases current)
      ⊎ IsUpgrade channel releases current (report channel releases current)
  report-IsUpgrade = elim (Option-cases (pick_from channel releases none)) [
    | inl e ↦ inl (
      report_nothing e,
      (λ cu p.
          All-upgrade (Dominated channel none) _ releases
            (λ x none_at_all t admitted q higher.
              none_at_all t (IsAdmitted-is_skipped channel x admitted, q))
            (subst (λ o. All (Dominated channel o) releases) e
              (pick_from-Dominated channel releases none))),
    )
    | inr ((r, s), e) ↦
        let (member, (seen, tag), best) = pick_from-IsPicked channel releases r s e in
        let tag' = parse_semver-trim_v r.tag_name s tag in
        elim (Bool-cases (is_strictly_newer (trim_v r.tag_name) current)) [
          | inr older ↦ inl (
            report_older r s e older,
            (λ cu p.
                All-upgrade (Dominated channel (some (r, s))) _ releases
                  (λ x best_x t admitted q higher.
                    older_higher s cu t (older_than (trim_v r.tag_name) current s cu tag' p older)
                      (best_x t (IsAdmitted-is_skipped channel x admitted, q)) higher)
                  best),
          )
          | inl newer ↦
              let (cu, p, up) = newer_than (trim_v r.tag_name) current s tag' newer in
              inr (
                r,
                s,
                cu,
                member,
                is_skipped-IsAdmitted channel r seen,
                tag,
                p,
                compare_semver-IsHigher s cu (is_above-≡ (compare_semver s cu) up),
                Dominated-NoneHigher channel releases r s best,
                report_newer r s e newer,
              )
        ]
  ]
