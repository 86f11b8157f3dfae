-- ===== src/Ipc/Scopes.antt =====
-- internal/daemon/server.go: the gate of a connection's scope.
use locorum.Common.{
  ℕ, ◌≡◌, ◌⊎◌, refl, ◌&&◌, ◌||◌, not, Bool, true, false, none, some, List, [], ◌∷◌, inl, inr,
  Bool-cases, All, arith,
}
use locorum.Common.Text.{equals, equals-≡}
use locorum.Ipc.{
  profile_readonly, Request, Conn, MethodEntry, HelloParams, Holder, Coded, ok, bad, Json, Server,
}
use locorum.Ipc.Serve.{
  is_empty, lookup, is_hello, hello_params, known_profile, greet, greet_coded, handle_hello,
  matches, checked_scope, enforce_scope, scope_error, denial,
}
use locorum.Ipc.Loop.{Arrival, handle_frames}
use locorum.Ipc.Gates.{KeepsHello, handle_frames_keeps}

abbrev other_scope : List ℕ → Coded HelloParams → Bool
other_scope scope (bad e) = false
other_scope scope (ok p) = not (equals p.mcp_scope scope)

-- Does a frame greet with another scope?
abbrev pub rescopes : {R : Type 0} → Json R → List ℕ → Coded Request → Bool
rescopes json scope (bad e) = false
rescopes json scope (ok req) = is_hello req && other_scope scope (hello_params json req.params)

abbrev pub holder_names : List ℕ → Coded Holder → Bool
holder_names scope (bad e) = false
holder_names scope (ok h) = equals h.site_id scope || equals h.slug scope

-- Do the parameters of a call name the scope, by the site's identifier or by its slug?
abbrev pub names : {R : Type 0} → Json R → List ℕ → List ℕ → Bool
names json scope params = holder_names scope (json.holder params)

greet_scope :
    {R : Type 0} (json : Json R) (conn : Conn) (req : Request) (p : HelloParams) (scope : List ℕ)
    → not (equals p.mcp_scope scope) ≡ false
    → conn.mcp_scope ≡ scope
    → (greet json conn req p).0.mcp_scope ≡ scope
unfolding greet
greet_scope json conn req p scope same h =
    let e : equals p.mcp_scope scope ≡ true = ground arith in
    elim (Bool-cases (is_empty p.profile || known_profile p.profile)) [
      | inl known ↦ rw known (equals-≡ p.mcp_scope scope e)
      | inr unknown ↦ rw unknown h
    ]

greet_coded_scope :
    {R : Type 0} (json : Json R) (conn : Conn) (req : Request) (p : Coded HelloParams)
    (scope : List ℕ)
    → other_scope scope p ≡ false
    → conn.mcp_scope ≡ scope
    → (greet_coded json conn req p).0.mcp_scope ≡ scope
greet_coded_scope json conn req (bad e) scope same h = h
greet_coded_scope json conn req (ok p) scope same h = greet_scope json conn req p scope same h

module _ {World R : Type 0} (P : World → Type 0) (s : Server World R) (scope : List ℕ) where
  rescopes-KeepsHello :
      (c : Coded Request)
      → rescopes s.json scope c ≡ false
      → KeepsHello P (λ conn. conn.mcp_scope ≡ scope) s c
  unfolding handle_hello
  rescopes-KeepsHello (bad e) h = tt
  rescopes-KeepsHello (ok req) h = λ hello conn q.
      greet_coded_scope s.json conn req (hello_params s.json req.params) scope (rw hello at h) q

  All-KeepsHello :
      (frames : List Arrival)
      → All (λ a. rescopes s.json scope (s.json.request a.line) ≡ false) frames
      → All (λ a. KeepsHello P (λ conn. conn.mcp_scope ≡ scope) s (s.json.request a.line)) frames
  All-KeepsHello [] h = tt
  All-KeepsHello (a ∷ rest) h =
      (rescopes-KeepsHello (s.json.request a.line) h.0, All-KeepsHello rest h.1)

matches-equals : (field scope : List ℕ) → matches field scope ≡ true → equals field scope ≡ true
matches-equals [] scope h = cc
matches-equals (c ∷ field) scope h = h

checked_scope-holder_names :
    {R : Type 0} (json : Json R) (scope : List ℕ) (c : Coded Holder)
    → checked_scope json scope c ≡ none
    → holder_names scope c ≡ true
checked_scope-holder_names json scope (bad e) h = cc
checked_scope-holder_names json scope (ok holder) h =
    elim (Bool-cases (matches holder.site_id scope)) [
      | inl e ↦ rw (matches-equals holder.site_id scope e) refl
      | inr e ↦ elim (Bool-cases (matches holder.slug scope)) [
        | inl e' ↦ rw (matches-equals holder.slug scope e') (ground arith)
        | inr e' ↦ (ground arith)
      ]
    ]

enforce_scope-names :
    {R : Type 0} (json : Json R) (scope params : List ℕ)
    → enforce_scope json scope params ≡ none
    → names json scope params ≡ true
unfolding enforce_scope
enforce_scope-names json scope [] h = cc
enforce_scope-names json scope (c ∷ params) h =
    checked_scope-holder_names json scope (json.holder (c ∷ params)) h

scope_error-names :
    {World R : Type 0} (json : Json R) (conn : Conn) (req : Request) (entry : MethodEntry World R)
    (scope : List ℕ)
    → is_empty scope ≡ false
    → conn.mcp_scope ≡ scope
    → scope_error json conn req entry ≡ none
    → (entry.is_site_scoped ≡ false) ⊎ (names json scope req.params ≡ true)
scope_error-names json conn req entry scope set q h = elim (Bool-cases entry.is_site_scoped) [
  | inr e ↦ inl e
  | inl e ↦
      let h' : enforce_scope json scope req.params ≡ none = (rw (e, q, set) at h) in
      inr (enforce_scope-names json scope req.params h')
]

denial-names :
    {World R : Type 0} (json : Json R) (conn : Conn) (req : Request) (entry : MethodEntry World R)
    (scope : List ℕ)
    → is_empty scope ≡ false
    → conn.mcp_scope ≡ scope
    → denial json conn req entry ≡ none
    → (entry.is_site_scoped ≡ false) ⊎ (names json scope req.params ≡ true)
unfolding denial
denial-names json conn req entry scope set q h =
    elim (Bool-cases (equals conn.profile profile_readonly && not entry.is_read_only)) [
      | inl e ↦ (ground arith)
      | inr e ↦ scope_error-names json conn req entry scope set q (rw e at h)
    ]

-- Whatever is kept by the handlers that are not site-scoped, and by the site-scoped ones called with
-- parameters that name the scope, a connection with this scope, which is not empty, keeps through
-- any frames of which none is a hello that names another scope or none.
pub handle_frames_scope :
    {World R : Type 0} (P : World → Type 0) (s : Server World R) (scope : List ℕ) (w : World)
    (conn : Conn) (frames : List Arrival)
    → ((method : List ℕ) (entry : MethodEntry World R) (w : World) (conn : Conn) (params : List ℕ)
        → lookup method s.handlers ≡ some entry
        → (entry.is_site_scoped ≡ false) ⊎ (names s.json scope params ≡ true)
        → P w
        → P (entry.handler w conn params).0)
    → is_empty scope ≡ false
    → conn.mcp_scope ≡ scope
    → All (λ a. rescopes s.json scope (s.json.request a.line) ≡ false) frames
    → P w
    → P (handle_frames s w conn frames).world
handle_frames_scope P s scope w conn frames keeps set q hellos p =
    handle_frames_keeps P (λ conn. conn.mcp_scope ≡ scope) s
      (λ w conn req entry found gate q p.
        keeps req.method entry w conn req.params found
          (denial-names s.json conn req entry scope set q gate) p)
      w conn frames (All-KeepsHello P s scope frames hellos) p q
