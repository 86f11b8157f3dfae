-- ===== src/HookStore/Pass.antt =====
-- internal/storage/hooks.go: a pass of ReorderHooks, whichever positions it gives.
use locorum.Common.{
  ℕ, suc, ◌≡◌, refl, sym, ap, ◌∙◌, ◌⊎◌, ◌&&◌, not, Bool, true, false, Option, none, some, List, [],
  ◌∷◌, map, ◌==◌, ==_iff, String, eq_iff, inl, inr, Bool-cases, All, ◌>>=◌, arith,
}
use mathlib.Core.Path.{subst, fun_ext}
use locorum.Common.Int.{ℤ, pos, negsuc}
use locorum.HookStore.{
  Row, in_group, eq_position, touched, placed_row, place, is_clash, clashes, set_position, park,
  assign, is_listed,
}
use locorum.HookStore.Members.{any_none, All-imply, All-map}

abbrev pub moved : ℤ → Option String → Row → Row
moved p now r = record { hook = touched now r.hook; position = p }

pub touched_id : (now : Option String) (h : _) → (touched now h).id ≡ h.id
touched_id none h = refl
touched_id (some now) h = refl

pub in_group-moved :
    (site event : String) (now : Option String) (r : Row) (p : ℤ)
    → in_group site event (moved p now r) ≡ in_group site event r
unfolding in_group
in_group-moved site event none r p = refl
in_group-moved site event (some now) r p = refl

-- A placement keeps the identifiers.
abbrev pub row_id : Row → ℕ
row_id r = r.hook.id

map-row_id-place :
    (id : ℕ) (p : ℤ) (now : Option String) (rows : List Row)
    → map row_id (place id p now rows) ≡ map row_id rows
map-row_id-place id p now [] = refl
map-row_id-place id p now (r ∷ rows) = elim (Bool-cases (r.hook.id == id)) [
  | inl e ↦ rw (e, touched_id now r.hook, map-row_id-place id p now rows) refl
  | inr e ↦ rw (e, map-row_id-place id p now rows) refl
]

-- The group of a row of a group is that group.
in_group_same :
    (site event : String) (r s : Row)
    → in_group site event r ≡ true
    → in_group r.hook.site_id r.hook.event s ≡ in_group site event s
unfolding in_group
in_group_same site event r s h =
    let same : r.hook.site_id ≡ site =
      ground (arith, eq_iff r.hook.site_id site, eq_iff r.hook.event event) in
    let same' : r.hook.event ≡ event =
      ground (arith, eq_iff r.hook.site_id site, eq_iff r.hook.event event) in
    ap (λ x. in_group x r.hook.event s) same ∙ ap (λ y. in_group site y s) same'

and-false : (b : Bool) → (b && false) ≡ false
and-false true = refl
and-false false = refl

clash_none :
    (site event : String) (id : ℕ) (p : ℤ) (r s : Row)
    → in_group site event r ≡ true
    → (in_group site event s ≡ true → eq_position s.position p ≡ false)
    → is_clash id p r s ≡ false
clash_none site event id p r s own free = elim (Bool-cases (in_group site event s)) [
  | inl g ↦ rw (in_group_same site event r s own, g, free g) (and-false (not (s.hook.id == id)))
  | inr g ↦ rw (in_group_same site event r s own, g) (and-false (not (s.hook.id == id)))
]

-- No row clashes if the row to be placed is of a group whose rows have other positions.
clashes_none :
    (site event : String) (id : ℕ) (p : ℤ) (rows : List Row)
    → All (λ r. (r.hook.id == id) ≡ true → in_group site event r ≡ true) rows
    → All (λ s. in_group site event s ≡ true → eq_position s.position p ≡ false) rows
    → clashes id p rows ≡ false
unfolding clashes
clashes_none site event id p rows own free = any_none _ rows (
    All-imply (λ r. (r.hook.id == id) ≡ true → in_group site event r ≡ true) _ rows
      (λ r own_r. elim (Bool-cases (r.hook.id == id)) [
        | inl e ↦ rw e (
            any_none (is_clash id p r) rows (
              All-imply (λ s. in_group site event s ≡ true → eq_position s.position p ≡ false) _
                rows (λ s free_s. clash_none site event id p r s (own_r e) free_s) free))
        | inr e ↦ rw e refl
      ])
      own)

abbrev pub pass : (ℕ → ℤ) → Option String → ℕ → List ℕ → List Row → Option (List Row)
pass f now i [] rows = some rows
pass f now i (id ∷ ids) rows = do
  rows' ← set_position id (f i) now rows
  pass f now (suc i) ids rows'

pub park-pass :
    (now : String) (i : ℕ) (ids : List ℕ) (rows : List Row)
    → park now i ids rows ≡ pass negsuc (some now) i ids rows
unfolding park
park-pass now i [] rows = refl
park-pass now i (id ∷ ids) rows =
    ap (λ k. set_position id (negsuc i) (some now) rows >>= k)
      (fun_ext (λ rows'. park-pass now (suc i) ids rows'))

pub assign-pass :
    (i : ℕ) (ids : List ℕ) (rows : List Row) → assign i ids rows ≡ pass pos none i ids rows
unfolding assign
assign-pass i [] rows = refl
assign-pass i (id ∷ ids) rows =
    ap (λ k. set_position id (pos i) none rows >>= k)
      (fun_ext (λ rows'. assign-pass (suc i) ids rows'))

-- The identifiers are to have the positions of a pass from an index on.
abbrev pub Aims : (ℕ → ℤ) → (ℕ → ℤ → Type 0) → ℕ → List ℕ → Type 0
Aims f Goal i [] = Unit {0}
Aims f Goal i (id ∷ ids) = Goal id (f i) × Aims f Goal (suc i) ids

module _ (site event : String) (f : ℕ → ℤ) (now : Option String) (Free : ℕ → ℤ → Type 0)
    (Goal : ℕ → ℤ → Type 0) (Kept : Row → Type 0)
    (free_clash : (i : ℕ) (p : ℤ) → Free i p → eq_position p (f i) ≡ false)
    (free_suc : (i : ℕ) (p : ℤ) → Free i p → Free (suc i) p)
    (free_here : (i : ℕ) → Free (suc i) (f i))
    (kept : (r : Row) (p : ℤ) → in_group site event r ≡ true → Kept r → Kept (moved p now r)) where
  -- A row before the rest of a pass.
  abbrev pub IsReady : ℕ → List ℕ → Row → Type 0
  IsReady i ids r =
      Kept r
      × (is_listed r.hook.id ids ≡ true → in_group site event r ≡ true)
      × (in_group site event r ≡ true → Free i r.position)
      × (in_group site event r ≡ true → is_listed r.hook.id ids ≡ true ⊎ Goal r.hook.id r.position)

  IsReady-moved :
      (i id : ℕ) (ids : List ℕ) (r : Row)
      → (r.hook.id == id) ≡ true
      → Goal id (f i)
      → IsReady i (id ∷ ids) r
      → IsReady (suc i) ids (moved (f i) now r)
  IsReady-moved i id ids r e goal (k, own, free, aim) =
      let own_r : in_group site event r ≡ true = own (rw e refl) in
      let same : (moved (f i) now r).hook.id ≡ id =
        touched_id now r.hook ∙ (==_iff r.hook.id id).0 e in
      (
        kept r (f i) own_r k,
        (λ m. in_group-moved site event now r (f i) ∙ own_r),
        (λ g. free_here i),
        (λ g. inr (subst (λ x. Goal x (f i)) (sym same) goal)),
      )

  IsReady-other :
      (i id : ℕ) (ids : List ℕ) (r : Row)
      → (r.hook.id == id) ≡ false
      → IsReady i (id ∷ ids) r
      → IsReady (suc i) ids r
  IsReady-other i id ids r e (k, own, free, aim) = (
    k,
    (λ m. own (rw e m)),
    (λ g. free_suc i r.position (free g)),
    (λ g. let aim_r = aim g in rw e at aim_r),
  )

  -- A pass succeeds, and the rows of the group have the positions it gives.
  pub pass_lem :
      (i : ℕ) (ids : List ℕ) (rows : List Row)
      → Aims f Goal i ids
      → All (IsReady i ids) rows
      → (rows' : List Row) × (pass f now i ids rows ≡ some rows')
        × All (λ r. Kept r × (in_group site event r ≡ true → Goal r.hook.id r.position)) rows'
        × (map row_id rows' ≡ map row_id rows)
  pass_lem i [] rows aims ready = (
    rows,
    refl,
    All-imply (IsReady i []) _ rows
        (λ r (k, own, free, aim). (
          k,
          (λ g. elim (aim g) [
            | inl m ↦ absurd (let h : true ≡ false = sym m in cc)
            | inr goal ↦ goal
          ]),
        ))
        ready,
    refl,
  )
  pass_lem i (id ∷ ids) rows (goal, aims) ready =
      let free : clashes id (f i) rows ≡ false =
        clashes_none site event id (f i) rows
          (All-imply (IsReady i (id ∷ ids)) _ rows (λ r (k, own, free, aim). (λ e. own (rw e refl)))
            ready)
          (All-imply (IsReady i (id ∷ ids)) _ rows
            (λ r (k, own, free, aim). (λ g. free_clash i r.position (free g))) ready) in
      let (rows', done, good, same) = pass_lem (suc i) ids (place id (f i) now rows) aims (
        All-map (IsReady i (id ∷ ids)) (IsReady (suc i) ids) (placed_row id (f i) now) rows
          (λ r h. elim (Bool-cases (r.hook.id == id)) [
            | inl e ↦ rw e (IsReady-moved i id ids r e goal h)
            | inr e ↦ rw e (IsReady-other i id ids r e h)
          ])
          ready) in
      (rows', rw free done, good, same ∙ map-row_id-place id (f i) now rows)
