-- ===== src/Snapshots/Deletions.antt =====
-- internal/sites/snapshot.go: what deletions do to the snapshots of a site.
use locorum.Common.{
  ℕ, suc, ◌+◌, ◌≡◌, refl, sym, ap, ◌∙◌, not, Bool, true, false, List, [], ◌∷◌, ◌++◌, append_assoc,
  append-nil, inl, inr, Bool-cases, All, if◌then◌else◌,
}
use locorum.Common.Text.{equals, equals-≡, equals_refl}
use locorum.Snapshots.{SnapshotInfo}
use locorum.Snapshots.Sweep.{
  SnapshotRetentionPolicy, select, by_site, append_to, is_dropped, Swept, without, visited,
  sweep_group,
}

-- The snapshots of a site.
abbrev pub of_site : List ℕ → List SnapshotInfo → List SnapshotInfo
of_site slug disk = select (λ s. equals slug s.slug) disk

module _ (p : SnapshotInfo → Bool) (s : SnapshotInfo) (l : List SnapshotInfo) where
  pub select_in : p s ≡ true → select p (s ∷ l) ≡ s ∷ select p l
  unfolding select
  select_in h = rw h refl

  pub select_out : p s ≡ false → select p (s ∷ l) ≡ select p l
  unfolding select
  select_out h = rw h refl

select_swap :
    (p q : SnapshotInfo → Bool) (l : List SnapshotInfo)
    → select p (select q l) ≡ select q (select p l)
select_swap p q [] = unfold select in refl
select_swap p q (s ∷ l) = elim (Bool-cases (p s)) [
  | inl a ↦ elim (Bool-cases (q s)) [
    | inl b ↦
        rw
          (
            select_in q s l b,
            select_in p s l a,
            select_in p s (select q l) a,
            select_in q s (select p l) b,
          )
          (ap (λ r. s ∷ r) (select_swap p q l))
    | inr b ↦
        rw (select_out q s l b, select_in p s l a, select_out q s (select p l) b)
          (select_swap p q l)
  ]
  | inr a ↦ elim (Bool-cases (q s)) [
    | inl b ↦
        rw (select_in q s l b, select_out p s l a, select_out p s (select q l) a)
          (select_swap p q l)
    | inr b ↦ rw (select_out q s l b, select_out p s l a) (select_swap p q l)
  ]
]

pub All-select :
    (P : SnapshotInfo → Type 0) (p : SnapshotInfo → Bool) (l : List SnapshotInfo)
    → All P l
    → All P (select p l)
unfolding select
All-select P p [] h = tt
All-select P p (s ∷ l) h = elim (Bool-cases (p s)) [
  | inl e ↦ rw e (h.0, All-select P p l h.1)
  | inr e ↦ rw e (All-select P p l h.1)
]

pub by_site-of_site :
    (disk : List SnapshotInfo) (groups : List ℕ → List SnapshotInfo) (slug : List ℕ)
    → by_site groups disk slug ≡ groups slug ++ of_site slug disk
unfolding by_site select
by_site-of_site [] groups slug = sym (append-nil (groups slug))
by_site-of_site (s ∷ rest) groups slug = elim (Bool-cases (equals slug s.slug)) [
  | inl e ↦
      by_site-of_site rest (append_to groups s) slug
      ∙ (rw e (append_assoc (groups slug) (s ∷ []) (of_site slug rest)))
  | inr e ↦ by_site-of_site rest (append_to groups s) slug ∙ (rw e refl)
]

-- The names that the sweep of a group deletes.
unfoldable pub doomed : SnapshotRetentionPolicy → ℕ → ℕ → List SnapshotInfo → List (List ℕ)
doomed p now i [] = []
doomed p now i (s ∷ rest) =
    let later = doomed p now (suc i) rest in
    if is_dropped p now i s then s.filename ∷ later else later

unfoldable pub without_all : List (List ℕ) → List SnapshotInfo → List SnapshotInfo
without_all [] disk = disk
without_all (n ∷ names) disk = without_all names (without n disk)

pub sweep_group_disk :
    (removable : List ℕ → Bool) (p : SnapshotRetentionPolicy) (now i : ℕ)
    (group : List SnapshotInfo) (st : Swept)
    → ((n : List ℕ) → removable n ≡ true)
    → (sweep_group removable p now i group st).disk ≡ without_all (doomed p now i group) st.disk
unfolding sweep_group doomed without_all
sweep_group_disk removable p now i [] st all = refl
sweep_group_disk removable p now i (s ∷ rest) st all = elim (Bool-cases (is_dropped p now i s)) [
  | inl e ↦
      let st' : Swept = record { disk = without s.filename st.disk; removed = st.removed + 1 } in
      let gone : visited removable p now i s st ≡ st' = rw (e, all s.filename) refl in
      ap (λ t. (sweep_group removable p now (suc i) rest t).disk) gone
      ∙ (rw e (sweep_group_disk removable p now (suc i) rest st' all))
  | inr e ↦
      let kept : visited removable p now i s st ≡ st = rw e refl in
      ap (λ t. (sweep_group removable p now (suc i) rest t).disk) kept
      ∙ (rw e (sweep_group_disk removable p now (suc i) rest st all))
]

pub without_all_swap :
    (q : SnapshotInfo → Bool) (names : List (List ℕ)) (disk : List SnapshotInfo)
    → select q (without_all names disk) ≡ without_all names (select q disk)
unfolding without_all
without_all_swap q [] disk = refl
without_all_swap q (n ∷ names) disk =
    without_all_swap q names (without n disk)
    ∙ ap (without_all names) (select_swap q (λ s. not (equals n s.filename)) disk)

-- No snapshot of a list has a name.
abbrev pub Unnamed : List ℕ → List SnapshotInfo → Type 0
Unnamed n l = All (λ s. equals n s.filename ≡ false) l

without-Unnamed : (n : List ℕ) (l : List SnapshotInfo) → Unnamed n l → without n l ≡ l
unfolding select
without-Unnamed n [] h = refl
without-Unnamed n (s ∷ l) h = rw (h.0) (ap (λ r. s ∷ r) (without-Unnamed n l h.1))

pub without_all-Unnamed :
    (names : List (List ℕ)) (l : List SnapshotInfo)
    → All (λ n. Unnamed n l) names
    → without_all names l ≡ l
unfolding without_all
without_all-Unnamed [] l h = refl
without_all-Unnamed (n ∷ names) l h =
    ap (without_all names) (without-Unnamed n l h.0) ∙ without_all-Unnamed names l h.1

pub doomed-All :
    (P : List ℕ → Type 0) (p : SnapshotRetentionPolicy) (now i : ℕ) (l : List SnapshotInfo)
    → All (λ s. P s.filename) l
    → All P (doomed p now i l)
unfolding doomed
doomed-All P p now i [] h = tt
doomed-All P p now i (s ∷ l) h = elim (Bool-cases (is_dropped p now i s)) [
  | inl e ↦ rw e (h.0, doomed-All P p now (suc i) l h.1)
  | inr e ↦ rw e (doomed-All P p now (suc i) l h.1)
]

-- The snapshots of a list that are not to go, by their index.
unfoldable pub surviving : SnapshotRetentionPolicy → ℕ → ℕ → List SnapshotInfo → List SnapshotInfo
surviving p now i [] = []
surviving p now i (s ∷ rest) =
    let later = surviving p now (suc i) rest in if is_dropped p now i s then later else s ∷ later

-- Each name is used once.
abbrev pub IsDistinct : List SnapshotInfo → Type 0
IsDistinct [] = Unit {0}
IsDistinct (s ∷ l) = Unnamed s.filename l × IsDistinct l

without_all_on :
    (names : List (List ℕ)) (s : SnapshotInfo) (l : List SnapshotInfo)
    → All (λ n. equals n s.filename ≡ false) names
    → without_all names (s ∷ l) ≡ s ∷ without_all names l
unfolding without_all
without_all_on [] s l h = refl
without_all_on (n ∷ names) s l h =
    ap (without_all names) (select_in (λ s. not (equals n s.filename)) s l (ap not h.0))
    ∙ without_all_on names s (without n l) h.1

equals_comm : (s t : List ℕ) → equals s t ≡ false → equals t s ≡ false
equals_comm s t h = elim (Bool-cases (equals t s)) [
  | inl e ↦
      let same : equals s t ≡ true = ap (equals s) (equals-≡ t s e) ∙ equals_refl s in
      absurd (let no_ : false ≡ true = sym h ∙ same in cc)
  | inr e ↦ e
]

Unnamed-comm :
    (n : List ℕ) (l : List SnapshotInfo) → Unnamed n l → All (λ s. equals s.filename n ≡ false) l
Unnamed-comm n [] h = tt
Unnamed-comm n (s ∷ l) h = (equals_comm n s.filename h.0, Unnamed-comm n l h.1)

pub without_all-doomed :
    (p : SnapshotRetentionPolicy) (now i : ℕ) (l : List SnapshotInfo)
    → IsDistinct l
    → without_all (doomed p now i l) l ≡ surviving p now i l
unfolding doomed surviving without_all
without_all-doomed p now i [] h = refl
without_all-doomed p now i (s ∷ l) h = elim (Bool-cases (is_dropped p now i s)) [
  | inl e ↦ rw e (
      ap (without_all (doomed p now (suc i) l)) (
        select_out (λ t. not (equals s.filename t.filename)) s l (ap not (equals_refl s.filename))
        ∙ without-Unnamed s.filename l h.0)
      ∙ without_all-doomed p now (suc i) l h.1)
  | inr e ↦ rw e (
      without_all_on (doomed p now (suc i) l) s l (
        doomed-All (λ n. equals n s.filename ≡ false) p now (suc i) l
          (Unnamed-comm s.filename l h.0))
      ∙ ap (λ r. s ∷ r) (without_all-doomed p now (suc i) l h.1))
]
