-- ===== src/Ipc/Tests.antt =====
-- A daemon with a method that reads and one that stops a site. The world counts the stops of other
-- sites than "mine".
use locorum.Common.{
  ℕ, String, ◌+◌, ◌≡◌, ◌≢◌, ◌⊎◌, refl, sym, ap, ◌∙◌, true, false, none, some, List, [], ◌∷◌, map,
  inl, inr, Bool-cases, All, if◌then◌else◌, arith,
}
use mathlib.Core.Path.{subst}
use locorum.Common.Text.{codes, equals, equals-≡, has_prefix, contains}
use locorum.Secrets.{member, redact_string}
use locorum.Secrets.Redact.{IsSecret}
use locorum.Ipc.{
  code_internal_error, profile_full, profile_readonly, Request, Outcome, value, other, Conn,
  MethodEntry, read_only, site_scoped, HelloParams, Holder, Coded, ok, bad, Json, Server,
}
use locorum.Ipc.Serve.{
  lookup, register, matches, denial, enforce_scope, handle_hello, greet, handle_server_info, report,
  call, dispatch,
}
use locorum.Ipc.Loop.{Arrival, turn, handle_frames, handle_conn}
use locorum.Ipc.Answers.{IsAnswer, all_asked, served, handle_conn-served}
use locorum.Ipc.Failures.{IsCleanRefusal, dispatch-IsCleanRefusal}
use locorum.Ipc.Profiles.{handle_frames-readonly}
use locorum.Ipc.Scopes.{handle_frames_scope}
use locorum.Ipc.Resolve.{Site, site, resolve_site, escapes, InScope, resolve_site-enforce_scope}

abbrev request : String → String → String → Request
request id method params = record {
  jsonrpc = codes "2.0";
  id = codes id;
  method = codes method;
  params = codes params;
}

-- The JSON of the test: a frame is a letter, and parameters are a word.
abbrev read_request : List ℕ → Coded Request
read_request line =
    if equals line (codes "l")
    then ok (request "1" "site.list" "")
    else if equals line (codes "s")
    then ok (request "2" "site.stop" "mine")
    else if equals line (codes "o")
    then ok (request "3" "site.stop" "yours")
    else if equals line (codes "h")
    then ok (request "4" "client.hello" "ro")
    else bad (codes "unexpected end of JSON input")

abbrev read_hello : List ℕ → Coded HelloParams
read_hello params =
    ok (record { peer_kind = codes "mcp"; profile = codes "readonly"; mcp_scope = codes "mine" })

abbrev read_holder : List ℕ → Coded Holder
read_holder params = ok (record { site_id = []; slug = params })

abbrev json : Json (List ℕ)
json = record {
  request = read_request;
  hello = read_hello;
  holder = read_holder;
  body = λ r. ok r;
  info = λ i. i.profile;
  quoted = λ s. s;
}

abbrev list_sites : ℕ → Conn → List ℕ → ℕ × Outcome (List ℕ)
list_sites w conn params = (w, value (codes "[]"))

abbrev stop_site : ℕ → Conn → List ℕ → ℕ × Outcome (List ℕ)
stop_site w conn params =
    if equals params (codes "mine")
    then (w, value (codes "{}"))
    else (w + 1, other (codes "bad password hunter2-hunter2"))

abbrev server : Server ℕ (List ℕ)
server = record {
  handlers =
      (
        codes "site.stop",
        record { handler = stop_site; is_read_only = false; is_site_scoped = true },
      )
      ∷ (
        codes "site.list",
        record { handler = list_sites; is_read_only = true; is_site_scoped = false },
      )
      ∷ [];
  json = json;
  secrets = λ w. codes "hunter2-hunter2" ∷ [];
}

registered :
    register
      (codes "site.stop")
      stop_site
      (site_scoped ∷ [])
      (register (codes "site.list") list_sites (read_only ∷ []) (record server { handlers = [] }))
    ≡ server
unfolding register read_only site_scoped
registered = refl

abbrev conn : List ℕ → List ℕ → Conn
conn scope profile = record { peer_kind = codes "mcp"; mcp_scope = scope; profile = profile }

abbrev frame : String → Arrival
frame line = record { line = codes line; is_shutdown = false }

abbrev frames : List Arrival
frames = frame "l" ∷ frame "" ∷ frame "x" ∷ frame "h" ∷ frame "o" ∷ frame "s" ∷ []

-- A call of another site's method is refused after the hello, and counts before it.
runs :
    ((handle_conn server 0 frames).world ≡ 0)
    × ((handle_conn server 0 (frame "o" ∷ frames)).world ≡ 1)
    × (map (λ r. r.id) (handle_conn server 0 frames).responses
        ≡ codes "1" ∷ [] ∷ codes "4" ∷ codes "3" ∷ codes "2" ∷ [])
unfolding handle_conn handle_frames turn dispatch call lookup denial enforce_scope handle_hello
    greet handle_server_info report redact_string equals contains has_prefix
runs = (refl, refl, refl)

handle_conn-served_example :
    (map (λ r. r.id) (handle_conn server 0 frames).responses ≡ all_asked json (served json frames))
    × All IsAnswer (handle_conn server 0 frames).responses
handle_conn-served_example = handle_conn-served server 0 frames

abbrev password : List ℕ
password = codes "hunter2-hunter2"

password-IsSecret : (v : List ℕ) → member v (password ∷ []) ≡ true → IsSecret v
password-IsSecret v h = elim (Bool-cases (equals v password)) [
  | inl e ↦ subst IsSecret (sym (equals-≡ v password e)) (omega arith, refl)
  | inr e ↦ absurd (ground arith)
]

abbrev stop_yours : Request
stop_yours = request "3" "site.stop" "yours"

dispatch-IsCleanRefusal_example :
    let (w, c, resp) = dispatch server 0 (conn [] profile_full) stop_yours in
    (w ≡ 1)
    × (c ≡ conn [] profile_full)
    × IsCleanRefusal (password ∷ []) stop_yours code_internal_error resp
unfolding equals lookup denial
dispatch-IsCleanRefusal_example =
    dispatch-IsCleanRefusal server 0 (conn [] profile_full) stop_yours
      (record { handler = stop_site; is_read_only = false; is_site_scoped = true })
      code_internal_error refl refl refl refl refl refl password-IsSecret

-- The handlers of the test, by the registration that a name has.
lookup-server :
    (method : List ℕ) (entry : MethodEntry ℕ (List ℕ))
    → lookup method server.handlers ≡ some entry
    → (entry ≡ record { handler = stop_site; is_read_only = false; is_site_scoped = true })
      ⊎ (entry ≡ record { handler = list_sites; is_read_only = true; is_site_scoped = false })
unfolding lookup
lookup-server method entry h = elim (Bool-cases (equals method (codes "site.stop"))) [
  | inl e ↦ inl (let h' = rw e at h in cc)
  | inr e ↦ elim (Bool-cases (equals method (codes "site.list"))) [
    | inl e' ↦ inr (let h' = rw (e, e') at h in cc)
    | inr e' ↦ absurd (let h' : none ≡ some entry = rw (e, e') at h in cc)
  ]
]

handle_frames-readonly_example :
    (handle_frames server 0 (conn [] profile_readonly) (frame "o" ∷ frames)).world ≡ 0
unfolding equals
handle_frames-readonly_example =
    handle_frames-readonly (λ w. w ≡ 0) server 0 (conn [] profile_readonly) (frame "o" ∷ frames)
      (λ method entry w c params found readonly p. elim (lookup-server method entry found) [
        | inl e ↦ absurd (let a : false ≡ true = ap (λ m. m.is_read_only) (sym e) ∙ readonly in cc)
        | inr e ↦ rw e p
      ])
      refl (refl, (refl, (refl, (refl, (refl, (refl, (refl, tt))))))) refl

abbrev mine : List ℕ
mine = codes "mine"

handle_frames_scope_example :
    (handle_frames server 0 (conn mine profile_full) (frame "o" ∷ frame "s" ∷ frame "x" ∷ [])).world
    ≡ 0
unfolding equals
handle_frames_scope_example =
    handle_frames_scope (λ w. w ≡ 0) server mine 0 (conn mine profile_full)
      (frame "o" ∷ frame "s" ∷ frame "x" ∷ [])
      (λ method entry w c params found gate p. elim (lookup-server method entry found) [
        | inl e ↦ elim gate [
          | inl unscoped ↦
              absurd (let a : true ≡ false = ap (λ m. m.is_site_scoped) (sym e) ∙ unscoped in cc)
          | inr named ↦ let own : equals params mine ≡ true = named in rw (e, own) p
        ]
        | inr e ↦ rw e p
      ])
      refl refl (refl, (refl, (refl, tt))) refl

-- Parameters with the scope as slug and another site's identifier.
abbrev pivot : Holder
pivot = record { site_id = codes "id-of-yours"; slug = mine }

abbrev rows : Coded (List Site)
rows = ok (
    record { id = codes "id-of-mine"; slug = mine }
    ∷ record { id = codes "id-of-yours"; slug = codes "yours" }
    ∷ [])

pivots :
    (enforce_scope (record json { holder = λ params. ok pivot }) mine (codes "{}") ≡ none)
    × (resolve_site rows pivot ≡ site (codes "id-of-yours"))
unfolding enforce_scope resolve_site equals
pivots = (refl, refl)

resolve_site-enforce_scope_example :
    ((escapes mine pivot ≡ false) × InScope mine rows (codes "id-of-yours"))
    ⊎ ((matches pivot.slug mine ≡ true)
        × (codes "id-of-yours" ≡ pivot.site_id)
        × (codes "id-of-yours" ≢ mine))
resolve_site-enforce_scope_example =
    resolve_site-enforce_scope (record json { holder = λ params. ok pivot }) mine (codes "{}") rows
      pivot (codes "id-of-yours") refl pivots.0 pivots.1
