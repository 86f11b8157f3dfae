-- ===== src/Updatecheck/Check/Pick.antt =====
-- internal/updatecheck/updatecheck.go: the release that is picked, and what Check reports of it.
use locorum.Common.{
  ℕ, ◌≡◌, refl, sym, ap, ◌∙◌, true, false, Option, none, some, List, [], ◌∷◌, Bool-cases,
  Option-cases, ◌⊎◌, inl, inr, All,
}
use mathlib.Core.List.{Mem, mem-cons_self, mem-cons_of_mem}
use mathlib.Core.Path.{subst}
use locorum.Updatecheck.{Sign, below, same, above, Semver, is_above, parse_semver, compare_semver}
use locorum.Updatecheck.Comparison.{reverse}
use locorum.Updatecheck.Order.{compare_semver-IsLinear}
use locorum.Updatecheck.Check.{Release, is_skipped, better, consider, pick_from}

-- A release that the channel admits, with its version.
abbrev pub IsCandidate : List ℕ → Release → Semver → Type 0
IsCandidate channel r s = (is_skipped channel r ≡ false) × (parse_semver r.tag_name ≡ some s)

-- A version that is not above the best one.
abbrev pub NotAbove : Semver → Option (Release × Semver) → Type 0
NotAbove s none = ⊥
NotAbove s (some (best, best_sem)) = is_above (compare_semver s best_sem) ≡ false

-- No version of a release is above the best one.
abbrev pub Dominated : List ℕ → Option (Release × Semver) → Release → Type 0
Dominated channel best r = (s : Semver) → IsCandidate channel r s → NotAbove s best

pub not_above_trans :
    (a b c : Semver)
    → is_above (compare_semver a b) ≡ false
    → is_above (compare_semver c b) ≡ true
    → is_above (compare_semver a c) ≡ false
not_above_trans a b c h k = elim (Bool-cases (is_above (compare_semver a c))) [
  | inr e ↦ e
  | inl e ↦ absurd (conflict (chain (lower a c e) (lower c b k)) h)
]
  where
    of_above : (o : Sign) → is_above o ≡ true → reverse o ≡ below
    of_above below e = cc
    of_above same e = cc
    of_above above e = refl

    lower : (x y : Semver) → is_above (compare_semver x y) ≡ true → compare_semver y x ≡ below
    lower x y e = compare_semver-IsLinear.swapped x y ∙ of_above (compare_semver x y) e

    chain : compare_semver c a ≡ below → compare_semver b c ≡ below → compare_semver a b ≡ above
    chain x y =
        compare_semver-IsLinear.swapped b a ∙ ap reverse (compare_semver-IsLinear.chained b c a y x)

    conflict : compare_semver a b ≡ above → is_above (compare_semver a b) ≡ false → ⊥
    conflict x y = cc

is_above_refl : (s : Semver) → is_above (compare_semver s s) ≡ false
is_above_refl s = ap is_above (compare_semver-IsLinear.itself s)

better-NotAbove :
    (best : Option (Release × Semver)) (r : Release) (s s' : Semver)
    → NotAbove s' best
    → NotAbove s' (better best r s)
unfolding better
better-NotAbove none r s s' h = absurd h
better-NotAbove (some (b, bs)) r s s' h = elim (Bool-cases (is_above (compare_semver s bs))) [
  | inl e ↦ rw (e, better) (not_above_trans s' bs s h e)
  | inr e ↦ rw (e, better) h
]

better_itself :
    (best : Option (Release × Semver)) (r : Release) (s : Semver) → NotAbove s (better best r s)
unfolding better
better_itself none r s = is_above_refl s
better_itself (some (b, bs)) r s = elim (Bool-cases (is_above (compare_semver s bs))) [
  | inl e ↦ rw (e, better) (is_above_refl s)
  | inr e ↦ rw (e, better) e
]

better_origin :
    (best : Option (Release × Semver)) (r : Release) (s : Semver)
    → (better best r s ≡ best) ⊎ (better best r s ≡ some (r, s))
unfolding better
better_origin none r s = inr refl
better_origin (some (b, bs)) r s = elim (Bool-cases (is_above (compare_semver s bs))) [
  | inl e ↦ inr (rw (e, better) refl)
  | inr e ↦ inl (rw (e, better) refl)
]

module _ (channel : List ℕ) where
  consider_skipped :
      (best : Option (Release × Semver)) (r : Release)
      → is_skipped channel r ≡ true
      → consider channel best r ≡ best
  unfolding consider
  consider_skipped best r e = rw (e, consider) refl

  consider_garbage :
      (best : Option (Release × Semver)) (r : Release)
      → is_skipped channel r ≡ false
      → parse_semver r.tag_name ≡ none
      → consider channel best r ≡ best
  unfolding consider
  consider_garbage best r e p = rw (e, p, consider) refl

  consider_candidate :
      (best : Option (Release × Semver)) (r : Release) (s : Semver)
      → IsCandidate channel r s
      → consider channel best r ≡ better best r s
  unfolding consider
  consider_candidate best r s (e, p) = rw (e, p, consider) refl

  -- A step considers a candidate or keeps the best release.
  consider-cases :
      (best : Option (Release × Semver)) (r : Release)
      → (consider channel best r ≡ best)
        ⊎ ((s : Semver) × IsCandidate channel r s × (consider channel best r ≡ better best r s))
  consider-cases best r = elim (Bool-cases (is_skipped channel r)) [
    | inl e ↦ inl (consider_skipped best r e)
    | inr e ↦ elim (Option-cases (parse_semver r.tag_name)) [
      | inl p ↦ inl (consider_garbage best r e p)
      | inr (s, p) ↦ inr (s, (e, p), consider_candidate best r s (e, p))
    ]
  ]

  consider-NotAbove :
      (best : Option (Release × Semver)) (r : Release) (s' : Semver)
      → NotAbove s' best
      → NotAbove s' (consider channel best r)
  consider-NotAbove best r s' h = elim (consider-cases best r) [
    | inl e ↦ rw (e) h
    | inr (s, c, e) ↦ rw (e) (better-NotAbove best r s s' h)
  ]

  pick_from-NotAbove :
      (rs : List Release) (best : Option (Release × Semver)) (s' : Semver)
      → NotAbove s' best
      → NotAbove s' (pick_from channel rs best)
  unfolding pick_from
  pick_from-NotAbove [] best s' h = h
  pick_from-NotAbove (r ∷ rs) best s' h =
      pick_from-NotAbove rs (consider channel best r) s' (consider-NotAbove best r s' h)

  pub pick_from-Dominated :
      (rs : List Release) (best : Option (Release × Semver))
      → All (Dominated channel (pick_from channel rs best)) rs
  unfolding pick_from
  pick_from-Dominated [] best = tt
  pick_from-Dominated (r ∷ rs) best = (
    λ s c.
        pick_from-NotAbove rs (consider channel best r) s
          (rw (consider_candidate best r s c) (better_itself best r s)),
    pick_from-Dominated rs (consider channel best r),
  )

  pick_from-Mem :
      (rs : List Release) (best : Option (Release × Semver)) (r : Release) (s : Semver)
      → pick_from channel rs best ≡ some (r, s)
      → (best ≡ some (r, s)) ⊎ (Mem r rs × IsCandidate channel r s)
  unfolding pick_from
  pick_from-Mem [] best r s h = inl h
  pick_from-Mem (x ∷ rs) best r s h = elim (pick_from-Mem rs (consider channel best x) r s h) [
    | inr (m, c) ↦ inr (mem-cons_of_mem x m, c)
    | inl e ↦ elim (consider-cases best x) [
      | inl k ↦ inl (sym k ∙ e)
      | inr (sx, c, k) ↦ elim (better_origin best x sx) [
        | inl b ↦ inl (sym b ∙ sym k ∙ e)
        | inr b ↦ inr (this sx c (sym b ∙ sym k ∙ e))
      ]
    ]
  ]
    where
      this :
          (sx : Semver)
          → IsCandidate channel x sx
          → ◌≡◌ {A = Option (Release × Semver)} (some (x, sx)) (some (r, s))
          → Mem r (x ∷ rs) × IsCandidate channel r s
      this sx c q =
          let ex : x ≡ r = cc in
          let es : sx ≡ s = cc in
          (
            subst (λ y. Mem y (x ∷ rs)) ex mem-cons_self,
            subst (λ y. IsCandidate channel y s) ex (subst (λ t. IsCandidate channel x t) es c),
          )

-- A release of the list that the channel admits, where no other one that the channel admits has a
-- higher version.
abbrev pub IsPicked : List ℕ → List Release → Release → Semver → Type 0
IsPicked channel rs r s =
    Mem r rs × IsCandidate channel r s × All (Dominated channel (some (r, s))) rs

pub pick_from-IsPicked :
    (channel : List ℕ) (rs : List Release) (r : Release) (s : Semver)
    → pick_from channel rs none ≡ some (r, s)
    → IsPicked channel rs r s
pick_from-IsPicked channel rs r s h = elim (pick_from-Mem channel rs none r s h) [
  | inl e ↦ cc
  | inr (m, c) ↦
      (m, c, subst (λ o. All (Dominated channel o) rs) h (pick_from-Dominated channel rs none))
]
