-- ===== src/Ipc/Resolve.antt =====
-- internal/daemon/methods.go: the site that a scoped call acts on, against the scope that its gate let
-- through.
use locorum.Common.{
  ℕ, ◌≡◌, ◌≢◌, ◌⊎◌, sym, ap, ◌∙◌, not, Bool, true, false, none, List, [], ◌∷◌, inl, inr, Bool-cases,
  if◌then◌else◌, arith,
}
use mathlib.Core.List.{Mem, mem-cons_self, mem-cons_of_mem}
use locorum.Common.Text.{equals, equals-≡, equals_refl}
use locorum.Ipc.{Holder, Coded, ok, bad, Json}
use locorum.Ipc.Serve.{is_empty, matches, in_scope, checked_scope, enforce_scope}

-- A row of the site service, by what is read here.
pub record Site : Type 0 where
  pub id : List ℕ
  pub slug : List ℕ

-- A site's identifier, parameters that name no site, a failure of the service, or an unknown slug.
pub data Resolved : Type 0 where
  site : List ℕ → Resolved
  invalid_params : Resolved
  failed : List ℕ → Resolved
  not_found : Resolved

abbrev pub with_slug : List ℕ → List Site → Resolved
with_slug slug [] = not_found
with_slug slug (s ∷ rows) =
    let later = with_slug slug rows in if equals s.slug slug then site s.id else later

abbrev by_slug : List ℕ → Coded (List Site) → Resolved
by_slug slug (bad e) = failed e
by_slug slug (ok rows) = with_slug slug rows

-- resolveSite. The reference has the fields that the gate reads.
unfoldable pub resolve_site : Coded (List Site) → Holder → Resolved
resolve_site rows ref =
    if not (is_empty ref.site_id)
    then site ref.site_id
    else if is_empty ref.slug
    then invalid_params
    else by_slug ref.slug rows

-- A site is the scope's by its identifier, or a row with this identifier has the scope as slug.
abbrev pub InScope : List ℕ → Coded (List Site) → List ℕ → Type 0
InScope scope (bad e) id = id ≡ scope
InScope scope (ok rows) id =
    (id ≡ scope) ⊎ ((s : Site) × Mem s rows × (s.id ≡ id) × (s.slug ≡ scope))

with_slug-Mem :
    (slug : List ℕ) (rows : List Site) (id : List ℕ)
    → with_slug slug rows ≡ site id
    → (s : Site) × Mem s rows × (s.id ≡ id) × (s.slug ≡ slug)
with_slug-Mem slug [] id h = cc
with_slug-Mem slug (s ∷ rows) id h = elim (Bool-cases (equals s.slug slug)) [
  | inl e ↦
      let h' : site s.id ≡ site id = (rw e at h) in (s, mem-cons_self, cc, equals-≡ s.slug slug e)
  | inr e ↦
      let (found, place, same, named) = with_slug-Mem slug rows id (rw e at h) in
      (found, mem-cons_of_mem s place, same, named)
]

by_slug-InScope :
    (scope : List ℕ) (rows : Coded (List Site)) (id : List ℕ)
    → by_slug scope rows ≡ site id
    → InScope scope rows id
by_slug-InScope scope (bad e) id h = cc
by_slug-InScope scope (ok rows) id h = inr (with_slug-Mem scope rows id h)

scope-InScope :
    (scope : List ℕ) (rows : Coded (List Site)) (id : List ℕ) → id ≡ scope → InScope scope rows id
scope-InScope scope (bad e) id h = h
scope-InScope scope (ok rows) id h = inl h

-- Parameters that name the scope by their slug, and a site by an identifier that is not the scope.
abbrev pub escapes : List ℕ → Holder → Bool
escapes scope ref =
    if is_empty ref.site_id
    then false
    else if equals ref.site_id scope
    then false
    else matches ref.slug scope

resolve_site_confined :
    (scope : List ℕ) (rows : Coded (List Site)) (ref : Holder) (id : List ℕ)
    → in_scope scope ref ≡ true
    → escapes scope ref ≡ false
    → resolve_site rows ref ≡ site id
    → InScope scope rows id
unfolding resolve_site
resolve_site_confined scope rows ref id gate kept h = elim (Bool-cases (is_empty ref.site_id)) [
  | inl unset ↦
      let named : matches ref.slug scope ≡ true = (rw unset at gate) in
      let same : ref.slug ≡ scope = equals-≡ ref.slug scope (ground arith) in
      let filled : is_empty ref.slug ≡ false = ground arith in
      let found : by_slug ref.slug rows ≡ site id = (rw (unset, filled) at h) in
      by_slug-InScope scope rows id (rw same at found)
  | inr given ↦
      let here : site ref.site_id ≡ site id = (rw given at h) in
      elim (Bool-cases (equals ref.site_id scope)) [
        | inl own ↦
            scope-InScope scope rows id
              (let same : ref.site_id ≡ scope = equals-≡ ref.site_id scope own in cc)
        | inr strange ↦
            let slug : matches ref.slug scope ≡ true = (rw (given, strange) at gate) in
            let none_ : matches ref.slug scope ≡ false = (rw (given, strange) at kept) in
            absurd (ground arith)
      ]
]

-- Such parameters pass the gate, and the call acts on the site of the identifier.
resolve_site_pivots :
    (scope : List ℕ) (rows : Coded (List Site)) (ref : Holder)
    → escapes scope ref ≡ true
    → (in_scope scope ref ≡ true) × (resolve_site rows ref ≡ site ref.site_id)
unfolding resolve_site
resolve_site_pivots scope rows ref h = ground arith

checked_scope-in_scope :
    {R : Type 0} (json : Json R) (scope : List ℕ) (ref : Holder)
    → checked_scope json scope (ok ref) ≡ none
    → in_scope scope ref ≡ true
checked_scope-in_scope json scope ref h = ground arith

enforce_scope-in_scope :
    {R : Type 0} (json : Json R) (scope params : List ℕ) (ref : Holder)
    → json.holder params ≡ ok ref
    → enforce_scope json scope params ≡ none
    → in_scope scope ref ≡ true
unfolding enforce_scope
enforce_scope-in_scope json scope [] ref read h = cc
enforce_scope-in_scope json scope (c ∷ params) ref read h =
    checked_scope-in_scope json scope ref (rw read at h)

escapes-ne : (scope : List ℕ) (ref : Holder) → escapes scope ref ≡ true → ref.site_id ≢ scope
escapes-ne scope ref h e =
    let same : equals ref.site_id scope ≡ true = ap (λ s. equals s scope) e ∙ equals_refl scope in
    absurd (ground arith)

-- Where parameters pass the gate of a scope and resolve to a site, either the site is in the scope:
-- it has the scope as its identifier, or a row with its identifier has the scope as slug; or the
-- parameters name the scope by their slug only, and the call acts on the site that they name by
-- their identifier, which is not the scope.
pub resolve_site-enforce_scope :
    {R : Type 0} (json : Json R) (scope params : List ℕ) (rows : Coded (List Site)) (ref : Holder)
    (id : List ℕ)
    → json.holder params ≡ ok ref
    → enforce_scope json scope params ≡ none
    → resolve_site rows ref ≡ site id
    → ((escapes scope ref ≡ false) × InScope scope rows id)
      ⊎ ((matches ref.slug scope ≡ true) × (id ≡ ref.site_id) × (id ≢ scope))
resolve_site-enforce_scope json scope params rows ref id read gate h =
    let admitted = enforce_scope-in_scope json scope params ref read gate in
    elim (Bool-cases (escapes scope ref)) [
      | inr e ↦ inl (e, resolve_site_confined scope rows ref id admitted e h)
      | inl e ↦
          let acts : site ref.site_id ≡ site id =
            sym (resolve_site_pivots scope rows ref e).1 ∙ h in
          let same : id ≡ ref.site_id = cc in
          inr (ground arith, same, λ own. escapes-ne scope ref e (sym same ∙ own))
    ]
