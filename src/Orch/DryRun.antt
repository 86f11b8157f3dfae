-- ===== src/Orch/DryRun.antt =====
-- internal/orch/dryrun.go: the preview of a plan. `Format` is not modelled.
use locorum.Common.{
  String, ◌≡◌, refl, ◌∙◌, sym, Bool, true, false, Option, none, some, List, [], ◌∷◌, ◌++◌, map, inl,
  inr, append_assoc, append-nil, is_some, Option-cases,
}
use locorum.Orch.{Call, returns, panics, Step, Plan, recovered}

pub record DryStepResult : Type 0 where
  pub name : String
  pub description : String
  pub implemented : Bool
  pub error : Option String

pub record DryResult : Type 0 where
  pub plan_name : String
  pub steps : List DryStepResult

abbrev pub no_preview : String
no_preview = "(no preview available — step does not implement orch.Describer)"

-- What `Describe` returned; a panic leaves the named result `out` empty.
abbrev described : String → Call → String
described line (returns err) = line
described line (panics value) = ""

unfoldable pub safe_describe :
    {S : Type 0} → (S → String × Call × S) → S → String × Option String × S
unfolding recovered
safe_describe d w =
    let (line, call, w') = d w in (described line call, recovered "describe panicked: " call, w')

dry_entry : {S : Type 0} → String → Option (S → String × Call × S) → S → DryStepResult × S
unfolding safe_describe
dry_entry name none w =
    (record { name = name; description = no_preview; implemented = false; error = none }, w)
dry_entry name (some d) w =
    let (line, err, w') = safe_describe d w in
    (record { name = name; description = line; implemented = true; error = err }, w')

-- The second component is the returned error, and the third is the outside.
module _ {S : Type 0} (ctx_err : S → Option String) where
  dry_loop : List (Step S) → List DryStepResult → S → List DryStepResult × Option String × S
  unfolding dry_entry
  dry_loop [] acc w = (acc, none, w)
  dry_loop (s ∷ rest) acc w = elim (ctx_err w) [
    | some err ↦ (acc, some err, w)
    | none ↦ let (entry, w') = dry_entry s.name s.describe w in dry_loop rest (acc ++ entry ∷ []) w'
  ]

  unfoldable pub dry : Plan S → S → DryResult × Option String × S
  unfolding dry_loop
  dry plan w =
      let (entries, err, w') = dry_loop plan.steps [] w in
      (record { plan_name = plan.name; steps = entries }, err, w')

-- A plan whose steps apply and roll back in another way, and describe themselves as before.
abbrev pub with_effects : {S : Type 0} → (S → Call × S) → (S → Call × S) → Step S → Step S
with_effects apply rollback s = record s { apply = apply; rollback = rollback }

module _ {S : Type 0} (ctx_err : S → Option String) (apply rollback : S → Call × S) where
  dry_loop_ignores_effects :
      (steps : List (Step S)) (acc : List DryStepResult) (w : S)
      → dry_loop ctx_err (map (with_effects apply rollback) steps) acc w
        ≡ dry_loop ctx_err steps acc w
  unfolding dry_loop dry_entry
  dry_loop_ignores_effects [] acc w = refl
  dry_loop_ignores_effects (s ∷ rest) acc w = elim (Option-cases (ctx_err w)) [
    | inr (err, h) ↦ rw (h, dry_loop)
    | inl h ↦
        let next = dry_entry s.name s.describe w in
        rw (h, dry_loop) (dry_loop_ignores_effects rest (acc ++ next.0 ∷ []) next.1)
  ]

-- A dry run gives the same preview, error and outside whatever the steps' `Apply` and `Rollback`
-- are put to: it never calls them.
dry_ignores_effects :
    {S : Type 0} (ctx_err : S → Option String) (apply rollback : S → Call × S) (plan : Plan S)
    (w : S)
    → dry ctx_err (record plan { steps = map (with_effects apply rollback) plan.steps }) w
      ≡ dry ctx_err plan w
unfolding dry
dry_ignores_effects ctx_err apply rollback plan w =
    rw (dry_loop_ignores_effects ctx_err apply rollback plan.steps [] w)

some_not_none : {A : Type 0} {a : A} → some a ≡ none → ⊥
some_not_none e = cc

-- What a preview says of a step that describes itself, and of one that does not.
abbrev pub Previews : {S : Type 0} → Step S → DryStepResult → Type 0
Previews s e = (e.name ≡ s.name) × (e.implemented ≡ is_some s.describe)

abbrev pub AllPreview : {S : Type 0} → List (Step S) → List DryStepResult → Type 0
AllPreview [] [] = Unit
AllPreview (s ∷ steps) (e ∷ es) = Previews s e × AllPreview steps es
AllPreview _ _ = ⊥

Previews-dry_entry :
    {S : Type 0} (s : Step S) (d : Option (S → String × Call × S)) (w : S)
    → s.describe ≡ d
    → Previews s (dry_entry s.name d w).0
unfolding dry_entry
Previews-dry_entry s none w e = (refl, rw e)
Previews-dry_entry s (some d) w e = (refl, rw e)

-- The entries of a finished preview, as the loop adds them.
finished :
    {S : Type 0} (ctx_err : S → Option String) (steps : List (Step S)) (acc : List DryStepResult)
    (w : S)
    → (dry_loop ctx_err steps acc w).1 ≡ none
    → (es : List DryStepResult) × ((dry_loop ctx_err steps acc w).0 ≡ acc ++ es)
      × AllPreview steps es
unfolding dry_loop
finished ctx_err [] acc w e = ([], sym (append-nil acc), tt)
finished ctx_err (s ∷ rest) acc w e = elim (Option-cases (ctx_err w)) [
  | inr (err, h) ↦ absurd (some_not_none (rw (h, dry_loop) at e))
  | inl h ↦
      let next = dry_entry s.name s.describe w in
      let later = finished ctx_err rest (acc ++ next.0 ∷ []) next.1 (rw (h, dry_loop) at e) in
      (
        next.0 ∷ later.0,
        rw (h, dry_loop) (later.1 ∙ append_assoc acc (next.0 ∷ []) later.0),
        (Previews-dry_entry s s.describe w refl, later.2),
      )
]

-- A dry run that ends without an error has one entry for each step of the plan, in order, under the
-- step's name, and marked as implemented exactly if the step describes itself.
dry-AllPreview :
    {S : Type 0} (ctx_err : S → Option String) (plan : Plan S) (w : S)
    → (dry ctx_err plan w).1 ≡ none
    → AllPreview plan.steps (dry ctx_err plan w).0.steps
unfolding dry
dry-AllPreview ctx_err plan w e = let f = finished ctx_err plan.steps [] w e in rw f.1 f.2
