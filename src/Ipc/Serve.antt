-- ===== src/Ipc/Serve.antt =====
-- internal/daemon/server.go: registration, the handshake, the gates, and dispatch.
use locorum.Common.{
  ℕ, ◌&&◌, ◌||◌, not, Bool, true, false, Option, none, some, List, [], ◌∷◌, ◌++◌, if◌then◌else◌,
}
use locorum.Common.Int.{ℤ}
use locorum.Common.Text.{codes, equals}
use locorum.Secrets.{redact_string}
use locorum.Ipc.{
  json_rpc_version, code_invalid_request, code_method_not_found, code_invalid_params,
  code_internal_error, code_forbidden, profile_full, profile_readonly, Request, Response,
  MethodError, error_text, Outcome, value, typed, other, panics, Conn, MethodEntry, HelloParams,
  Holder, Coded, ok, bad, Json, Server,
}

abbrev pub is_empty : List ℕ → Bool
is_empty [] = true
is_empty (c ∷ s) = false

-- The map's value for a key: the latest registration.
unfoldable pub lookup : {A : Type 0} → List ℕ → List (List ℕ × A) → Option A
lookup key [] = none
lookup key ((k, v) ∷ rest) = let later = lookup key rest in if equals key k then some v else later

abbrev apply_options : {A : Type 0} → List (A → A) → A → A
apply_options [] entry = entry
apply_options (opt ∷ opts) entry = apply_options opts (opt entry)

unfoldable pub register :
    {World R : Type 0}
    → List ℕ
    → (World → Conn → List ℕ → World × Outcome R)
    → List (MethodEntry World R → MethodEntry World R)
    → Server World R
    → Server World R
register method h opts s =
    let entry =
      apply_options opts (record { handler = h; is_read_only = false; is_site_scoped = false }) in
    record s { handlers = (method, entry) ∷ s.handlers }

-- firstNonEmpty, of two texts.
abbrev first_non_empty : List ℕ → List ℕ → List ℕ
first_non_empty s t = if is_empty s then t else s

abbrev pub matches : List ℕ → List ℕ → Bool
matches field scope = not (is_empty field) && equals field scope

abbrev pub in_scope : List ℕ → Holder → Bool
in_scope scope h = if matches h.site_id scope then true else matches h.slug scope

abbrev pub checked_scope : {R : Type 0} → Json R → List ℕ → Coded Holder → Option (List ℕ)
checked_scope json scope (bad e) = some (codes "mcp scope: params must include siteId or slug")
checked_scope json scope (ok h) =
    if in_scope scope h
    then none
    else some (
        codes "mcp scope: requested "
        ++ json.quoted (first_non_empty h.site_id h.slug)
        ++ codes " does not match conn scope "
        ++ json.quoted scope)

-- enforceScope: the text of its error, if any.
unfoldable pub enforce_scope : {R : Type 0} → Json R → List ℕ → List ℕ → Option (List ℕ)
enforce_scope json scope params =
    if is_empty params
    then some (codes "mcp scope: method requires site id but params are empty")
    else checked_scope json scope (json.holder params)

abbrev pub refusal : Request → ℤ → List ℕ → Response
refusal req c m = record {
  jsonrpc = json_rpc_version;
  id = req.id;
  result = none;
  error = some (record { code = c; message = m });
}

abbrev pub success : Request → List ℕ → Response
success req body = record {
  jsonrpc = json_rpc_version;
  id = req.id;
  result = some body;
  error = none;
}

unfoldable pub handle_server_info : {R : Type 0} → Json R → Conn → Request → Response
handle_server_info json conn req =
    success req (json.info (record { version = json_rpc_version; profile = conn.profile }))

abbrev pub known_profile : List ℕ → Bool
known_profile p = equals p profile_full || equals p profile_readonly

-- The connection after the parameters of a hello that could be read, and the answer to it.
unfoldable pub greet : {R : Type 0} → Json R → Conn → Request → HelloParams → Conn × Response
unfolding handle_server_info
greet json conn req p =
    let named = record conn { peer_kind = p.peer_kind } in
    let profiled = if is_empty p.profile then named else record named { profile = p.profile } in
    let scoped = record profiled { mcp_scope = p.mcp_scope } in
    if is_empty p.profile || known_profile p.profile
    then (scoped, handle_server_info json scoped req)
    else (named, refusal req code_invalid_params (codes "unknown profile: " ++ p.profile))

abbrev pub greet_coded :
    {R : Type 0} → Json R → Conn → Request → Coded HelloParams → Conn × Response
greet_coded json conn req (bad e) = (conn, refusal req code_invalid_params (codes "hello: " ++ e))
greet_coded json conn req (ok p) = greet json conn req p

-- The zero value of the parameters, where a hello has none.
abbrev pub hello_params : {R : Type 0} → Json R → List ℕ → Coded HelloParams
hello_params json params =
    if is_empty params
    then ok (record { peer_kind = []; profile = []; mcp_scope = [] })
    else json.hello params

-- handleHello
unfoldable pub handle_hello : {R : Type 0} → Json R → Conn → Request → Conn × Response
handle_hello json conn req = greet_coded json conn req (hello_params json req.params)

abbrev pub scope_error :
    {World R : Type 0} → Json R → Conn → Request → MethodEntry World R → Option (List ℕ)
scope_error json conn req entry =
    if entry.is_site_scoped && not (is_empty conn.mcp_scope)
    then enforce_scope json conn.mcp_scope req.params
    else none

-- The two gates before a handler: the profile, and the scope.
unfoldable pub denial :
    {World R : Type 0} → Json R → Conn → Request → MethodEntry World R → Option (List ℕ)
denial json conn req entry =
    if equals conn.profile profile_readonly && not entry.is_read_only
    then some (codes "method not permitted in readonly profile: " ++ req.method)
    else scope_error json conn req entry

abbrev pub encoded : Request → Coded (List ℕ) → Response
encoded req (ok body) = success req body
encoded req (bad e) = refusal req code_internal_error (codes "marshal result: " ++ e)

-- The answer to what a handler ended with, or to the error of a result that cannot be encoded.
unfoldable pub report : {R : Type 0} → Json R → List (List ℕ) → Request → Outcome R → Response
unfolding error_text
report json values req (typed e) = refusal req e.code (redact_string values (error_text e))
report json values req (other e) = refusal req code_internal_error (redact_string values e)
report json values req panics =
    let e : MethodError = record {
      code = code_internal_error;
      message = codes "internal error";
      cause = none;
    } in
    refusal req e.code (redact_string values (error_text e))
report json values req (value v) = encoded req (json.body v)

abbrev pub run_handler :
    {World R : Type 0}
    → Server World R
    → Request
    → World × Outcome R
    → Conn
    → World × Conn × Response
run_handler s req (w, outcome) conn = (w, conn, report s.json (s.secrets w) req outcome)

-- The handler runs where no gate is shut.
abbrev pub admitted :
    {World R : Type 0}
    → Server World R
    → World
    → Conn
    → Request
    → MethodEntry World R
    → Option (List ℕ)
    → World × Conn × Response
admitted s w conn req entry (some e) = (w, conn, refusal req code_forbidden e)
admitted s w conn req entry none = run_handler s req (entry.handler w conn req.params) conn

unfoldable pub call :
    {World R : Type 0}
    → Server World R
    → World
    → Conn
    → Request
    → Option (MethodEntry World R)
    → World × Conn × Response
unfolding denial
call s w conn req none =
    (w, conn, refusal req code_method_not_found (codes "method not found: " ++ req.method))
call s w conn req (some entry) = admitted s w conn req entry (denial s.json conn req entry)

abbrev pub bad_version : Request → Bool
bad_version req = not (is_empty req.jsonrpc) && not (equals req.jsonrpc json_rpc_version)

abbrev pub is_hello : Request → Bool
is_hello req = equals req.method (codes "client.hello")

abbrev pub is_info : Request → Bool
is_info req = equals req.method (codes "server.info")

unfoldable pub dispatch :
    {World R : Type 0} → Server World R → World → Conn → Request → World × Conn × Response
unfolding handle_server_info
dispatch s w conn req =
    if bad_version req
    then (w, conn, refusal req code_invalid_request (codes "unsupported jsonrpc version"))
    else if is_hello req
    then (let (conn', resp) = handle_hello s.json conn req in (w, conn', resp))
    else if is_info req
    then (w, conn, handle_server_info s.json conn req)
    else call s w conn req (lookup req.method s.handlers)
