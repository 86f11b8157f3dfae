-- ===== src/Ipc/Failures.antt =====
-- internal/daemon/server.go: what a client is told when a handler fails.
use locorum.Common.{ℕ, ◌≡◌, refl, true, false, Option, none, some, List}
use locorum.Common.Int.{ℤ}
use locorum.Common.Text.{codes}
use locorum.Secrets.{member, redact_string}
use locorum.Secrets.Redact.{IsSecret, IsClean, redact_string-IsClean}
use locorum.Ipc.{
  code_internal_error, Request, Response, error_text, Outcome, value, typed, other, panics, Conn,
  MethodEntry, Json, Server,
}
use locorum.Ipc.Serve.{
  lookup, bad_version, is_hello, is_info, denial, refusal, report, call, dispatch,
}

-- The code of a handler's failure: its own, or that of an internal error.
abbrev pub failure_code : {R : Type 0} → Outcome R → Option ℤ
failure_code (value v) = none
failure_code (typed e) = some e.code
failure_code (other e) = some code_internal_error
failure_code panics = some code_internal_error

-- A refusal with this code, and a message that holds none of the secrets.
abbrev pub IsCleanRefusal : List (List ℕ) → Request → ℤ → Response → Type 0
IsCleanRefusal values req c r =
    (m : List ℕ) × (r ≡ refusal req c m) × ((v : List ℕ) → member v values ≡ true → IsClean m v)

report-IsCleanRefusal :
    {R : Type 0} (json : Json R) (values : List (List ℕ)) (req : Request) (o : Outcome R) (c : ℤ)
    → ((v : List ℕ) → member v values ≡ true → IsSecret v)
    → failure_code o ≡ some c
    → IsCleanRefusal values req c (report json values req o)
unfolding report
report-IsCleanRefusal json values req (value v) c secrets h = cc
report-IsCleanRefusal json values req (typed e) c secrets h = (
  redact_string values (error_text e),
  cc,
  λ v known. redact_string-IsClean values (error_text e) v secrets known,
)
report-IsCleanRefusal json values req (other e) c secrets h =
    (redact_string values e, cc, λ v known. redact_string-IsClean values e v secrets known)
report-IsCleanRefusal json values req panics c secrets h =
    let text =
      error_text
        (record { code = code_internal_error; message = codes "internal error"; cause = none }) in
    (redact_string values text, cc, λ v known. redact_string-IsClean values text v secrets known)

-- A request that reaches its handler, which then fails, by an error or a panic, is refused with the
-- failure's code and a message that holds none of the secrets known by then, where each of these has
-- eight bytes at least and none of the bytes of the marker. The handler's changes stay, and the
-- connection is as before.
pub dispatch-IsCleanRefusal :
    {World R : Type 0} (s : Server World R) (w : World) (conn : Conn) (req : Request)
    (entry : MethodEntry World R) (c : ℤ)
    → bad_version req ≡ false
    → is_hello req ≡ false
    → is_info req ≡ false
    → lookup req.method s.handlers ≡ some entry
    → denial s.json conn req entry ≡ none
    → failure_code (entry.handler w conn req.params).1 ≡ some c
    → ((v : List ℕ) → member v (s.secrets (entry.handler w conn req.params).0) ≡ true → IsSecret v)
    → let (w', conn', resp) = dispatch s w conn req in
      (w' ≡ (entry.handler w conn req.params).0)
      × (conn' ≡ conn)
      × IsCleanRefusal (s.secrets (entry.handler w conn req.params).0) req c resp
unfolding dispatch call
dispatch-IsCleanRefusal s w conn req entry c version hello info found open_ fails secrets =
    rw (version, hello, info, found, open_)
      (
        refl,
        refl,
        report-IsCleanRefusal s.json (s.secrets (entry.handler w conn req.params).0) req
            (entry.handler w conn req.params).1 c secrets fails,
      )
