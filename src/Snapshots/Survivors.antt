-- ===== src/Snapshots/Survivors.antt =====
-- internal/sites/snapshot.go: which snapshots of a site the retention sweep does not drop.
use locorum.Common.{
  ℕ, suc, zero, ◌+◌, ◌≤◌, ◌<◌, ◌≡◌, refl, sym, ap, ◌∙◌, ◌&&◌, not, Bool, true, false, List, [], ◌∷◌,
  ◌==◌, ltb, leb, inl, inr, Bool-cases, take, if◌then◌else◌, arith,
}
use locorum.Snapshots.{SnapshotInfo}
use locorum.Snapshots.Sweep.{SnapshotRetentionPolicy, select}
use locorum.Snapshots.Deletions.{select_in, select_out, surviving}

-- Is a snapshot young enough?
abbrev pub is_young : SnapshotRetentionPolicy → ℕ → SnapshotInfo → Bool
is_young p now s = not (ltb 0 p.max_age && ltb (s.created_at + p.max_age) now)

-- Of the newest snapshots, as many as a site may have, those that are young enough; a limit of 0 is
-- none.
abbrev pub retained : SnapshotRetentionPolicy → ℕ → List SnapshotInfo → List SnapshotInfo
retained p now l =
    select (is_young p now) (if p.max_per_site == 0 then l else take p.max_per_site l)

module _ (p : SnapshotRetentionPolicy) (now : ℕ) where
  -- A snapshot whose index is no reason to drop it.
  surviving_next :
      (i : ℕ) (s : SnapshotInfo) (l kept : List SnapshotInfo)
      → (ltb 0 p.max_per_site && leb p.max_per_site i) ≡ false
      → surviving p now (suc i) l ≡ select (is_young p now) kept
      → surviving p now i (s ∷ l) ≡ select (is_young p now) (s ∷ kept)
  unfolding surviving
  surviving_next i s l kept inside ih =
      elim (Bool-cases (ltb 0 p.max_age && ltb (s.created_at + p.max_age) now)) [
        | inl e ↦ (rw (inside, e) ih) ∙ sym (select_out (is_young p now) s kept (ap not e))
        | inr e ↦
            (rw (inside, e) (ap (λ r. s ∷ r) ih))
            ∙ sym (select_in (is_young p now) s kept (ap not e))
      ]

  surviving_unlimited :
      (i : ℕ) (l : List SnapshotInfo)
      → p.max_per_site ≡ 0
      → surviving p now i l ≡ select (is_young p now) l
  surviving_unlimited i [] h = unfold surviving select in refl
  surviving_unlimited i (s ∷ l) h =
      surviving_next i s l l (ground arith) (surviving_unlimited (suc i) l h)

  surviving_beyond :
      (i : ℕ) (l : List SnapshotInfo)
      → 0 < p.max_per_site
      → p.max_per_site ≤ i
      → surviving p now i l ≡ []
  unfolding surviving
  surviving_beyond i [] h k = refl
  surviving_beyond i (s ∷ l) h k =
      let outside : (ltb 0 p.max_per_site && leb p.max_per_site i) ≡ true = ground arith in
      rw outside (surviving_beyond (suc i) l h (omega arith))

  surviving-take :
      (room i : ℕ) (l : List SnapshotInfo)
      → 0 < p.max_per_site
      → i + room ≡ p.max_per_site
      → surviving p now i l ≡ select (is_young p now) (take room l)
  surviving-take zero i l h k = surviving_beyond i l h (omega arith) ∙ (unfold select in refl)
  surviving-take (suc room) i [] h k = unfold surviving select in refl
  surviving-take (suc room) i (s ∷ l) h k =
      surviving_next i s l (take room l) (ground arith)
        (surviving-take room (suc i) l h (omega arith))

  pub surviving-retained : (l : List SnapshotInfo) → surviving p now 0 l ≡ retained p now l
  surviving-retained l = elim (Bool-cases (p.max_per_site == 0)) [
    | inl e ↦
        surviving_unlimited 0 l (ground arith)
        ∙ sym (ap (λ b. select (is_young p now) (if b then l else take p.max_per_site l)) e)
    | inr e ↦
        surviving-take p.max_per_site 0 l (ground arith) (omega arith)
        ∙ sym (ap (λ b. select (is_young p now) (if b then l else take p.max_per_site l)) e)
  ]

select_young :
    (p : SnapshotRetentionPolicy) (now : ℕ) (l : List SnapshotInfo)
    → p.max_age ≡ 0
    → select (is_young p now) l ≡ l
select_young p now [] h = unfold select in refl
select_young p now (s ∷ l) h =
    select_in (is_young p now) s l (ground arith) ∙ ap (λ r. s ∷ r) (select_young p now l h)

pub retained_unlimited :
    (p : SnapshotRetentionPolicy) (now : ℕ) (l : List SnapshotInfo)
    → (p.max_per_site == 0 && p.max_age == 0) ≡ true
    → retained p now l ≡ l
retained_unlimited p now l h =
    let any : (p.max_per_site == 0) ≡ true = ground arith in
    ap (λ b. select (is_young p now) (if b then l else take p.max_per_site l)) any
    ∙ select_young p now l (ground arith)
