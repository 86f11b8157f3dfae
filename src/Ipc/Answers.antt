-- ===== src/Ipc/Answers.antt =====
-- internal/daemon/server.go: what a connection's frames are answered with.
use locorum.Common.{
  ℕ, ◌≡◌, refl, sym, ap, ◌∙◌, not, ◌||◌, Bool, true, false, Option, none, some, List, [], ◌∷◌, ◌++◌,
  map, inl, inr, Bool-cases, is_some, All, All-append, if◌then◌else◌, append-nil,
}
use mathlib.Core.List.{map-append}
use locorum.Common.Text.{codes}
use locorum.Ipc.{
  profile_full, code_invalid_request, Request, Response, Outcome, value, typed, other, panics, Conn,
  MethodEntry, HelloParams, Coded, ok, bad, Json, Server,
}
use locorum.Ipc.Serve.{
  is_empty, lookup, bad_version, is_hello, is_info, hello_params, known_profile, greet, greet_coded,
  handle_hello, handle_server_info, denial, encoded, refusal, report, admitted, call, dispatch,
}
use locorum.Ipc.Loop.{Arrival, on_frame, turn, handle_frames, handle_conn}

-- A result or an error, and not both.
abbrev pub IsAnswer : Response → Type 0
IsAnswer r = is_some r.result ≡ not (is_some r.error)

abbrev wanted : Coded Request → List (List ℕ)
wanted (ok req) = req.id ∷ []
wanted (bad e) = [] ∷ []

abbrev leaves : Bool → Coded Request → Bool
leaves down (ok req) = down
leaves down (bad e) = false

-- The identifiers that a frame asks an answer for: its own, or none if it is no request.
abbrev pub asked : {R : Type 0} → Json R → List ℕ → List (List ℕ)
asked json line = if is_empty line then [] else wanted (json.request line)

-- Does the loop leave after this frame?
abbrev pub ends : {R : Type 0} → Json R → Arrival → Bool
ends json a = if is_empty a.line then false else leaves a.is_shutdown (json.request a.line)

-- The frames up to the first request after which the server is seen to shut down.
abbrev pub served : {R : Type 0} → Json R → List Arrival → List Arrival
served json [] = []
served json (a ∷ rest) = a ∷ (if ends json a then [] else served json rest)

abbrev pub all_asked : {R : Type 0} → Json R → List Arrival → List (List ℕ)
all_asked json [] = []
all_asked json (a ∷ rest) = asked json a.line ++ all_asked json rest

abbrev response_of : {World : Type 0} → World × Conn × Response → Response
response_of (w, conn, r) = r

abbrev Answers : Request → Response → Type 0
Answers req r = (r.id ≡ req.id) × IsAnswer r

encoded-Answers : (req : Request) (b : Coded (List ℕ)) → Answers req (encoded req b)
encoded-Answers req (ok body) = (refl, refl)
encoded-Answers req (bad e) = (refl, refl)

report-Answers :
    {R : Type 0} (json : Json R) (values : List (List ℕ)) (req : Request) (o : Outcome R)
    → Answers req (report json values req o)
unfolding report
report-Answers json values req (typed e) = (refl, refl)
report-Answers json values req (other e) = (refl, refl)
report-Answers json values req panics = (refl, refl)
report-Answers json values req (value v) = encoded-Answers req (json.body v)

greet-Answers :
    {R : Type 0} (json : Json R) (conn : Conn) (req : Request) (p : HelloParams)
    → Answers req (greet json conn req p).1
unfolding greet handle_server_info
greet-Answers json conn req p = elim (Bool-cases (is_empty p.profile || known_profile p.profile)) [
  | inl e ↦ rw e (refl, refl)
  | inr e ↦ rw e (refl, refl)
]

greet_coded-Answers :
    {R : Type 0} (json : Json R) (conn : Conn) (req : Request) (p : Coded HelloParams)
    → Answers req (greet_coded json conn req p).1
greet_coded-Answers json conn req (bad e) = (refl, refl)
greet_coded-Answers json conn req (ok p) = greet-Answers json conn req p

module _ {World R : Type 0} (s : Server World R) where
  admitted-Answers :
      (w : World) (conn : Conn) (req : Request) (entry : MethodEntry World R)
      (gate : Option (List ℕ))
      → Answers req (response_of (admitted s w conn req entry gate))
  admitted-Answers w conn req entry (some e) = (refl, refl)
  admitted-Answers w conn req entry none =
      report-Answers s.json (s.secrets (entry.handler w conn req.params).0) req
        (entry.handler w conn req.params).1

  call-Answers :
      (w : World) (conn : Conn) (req : Request) (entry : Option (MethodEntry World R))
      → Answers req (response_of (call s w conn req entry))
  unfolding call
  call-Answers w conn req none = (refl, refl)
  call-Answers w conn req (some entry) =
      admitted-Answers w conn req entry (denial s.json conn req entry)

  -- What holds of the four ways in which a dispatch ends holds of the dispatch.
  pub dispatch_by {ℓ} :
      (P : World × Conn × Response → Type ℓ) (w : World) (conn : Conn) (req : Request)
      → P (w, conn, refusal req code_invalid_request (codes "unsupported jsonrpc version"))
      → (is_hello req ≡ true
          → P (w, (handle_hello s.json conn req).0, (handle_hello s.json conn req).1))
      → P (w, conn, handle_server_info s.json conn req)
      → P (call s w conn req (lookup req.method s.handlers))
      → P (dispatch s w conn req)
  unfolding dispatch
  dispatch_by P w conn req old greeted told called = elim (Bool-cases (bad_version req)) [
    | inl e ↦ rw e old
    | inr e ↦ rw e (elim (Bool-cases (is_hello req)) [
      | inl hello ↦ rw hello (greeted hello)
      | inr named ↦ rw named (elim (Bool-cases (is_info req)) [
        | inl info ↦ rw info told
        | inr method ↦ rw method called
      ])
    ])
  ]

  dispatch-Answers :
      (w : World) (conn : Conn) (req : Request) → Answers req (response_of (dispatch s w conn req))
  unfolding handle_hello handle_server_info
  dispatch-Answers w conn req =
      dispatch_by (λ r. Answers req (response_of r)) w conn req (refl, refl)
        (λ hello. greet_coded-Answers s.json conn req (hello_params s.json req.params)) (refl, refl)
        (call-Answers w conn req (lookup req.method s.handlers))

  on_frame_ids :
      (w : World) (conn : Conn) (down : Bool) (c : Coded Request)
      → map (λ r. r.id) (on_frame s w conn down c).responses ≡ wanted c
  on_frame_ids w conn down (bad e) = refl
  on_frame_ids w conn down (ok req) = ap (λ i. i ∷ []) (dispatch-Answers w conn req).0

  on_frame-IsAnswer :
      (w : World) (conn : Conn) (down : Bool) (c : Coded Request)
      → All IsAnswer (on_frame s w conn down c).responses
  on_frame-IsAnswer w conn down (bad e) = (refl, tt)
  on_frame-IsAnswer w conn down (ok req) = ((dispatch-Answers w conn req).1, tt)

  on_frame_stopped :
      (w : World) (conn : Conn) (down : Bool) (c : Coded Request)
      → (on_frame s w conn down c).stopped ≡ leaves down c
  on_frame_stopped w conn down (bad e) = refl
  on_frame_stopped w conn down (ok req) = refl

  turn_ids :
      (w : World) (conn : Conn) (a : Arrival)
      → map (λ r. r.id) (turn s w conn a).responses ≡ asked s.json a.line
  unfolding turn
  turn_ids w conn a = elim (Bool-cases (is_empty a.line)) [
    | inl e ↦ rw e refl
    | inr e ↦ rw e (on_frame_ids w conn a.is_shutdown (s.json.request a.line))
  ]

  turn-IsAnswer : (w : World) (conn : Conn) (a : Arrival) → All IsAnswer (turn s w conn a).responses
  unfolding turn
  turn-IsAnswer w conn a = elim (Bool-cases (is_empty a.line)) [
    | inl e ↦ rw e tt
    | inr e ↦ rw e (on_frame-IsAnswer w conn a.is_shutdown (s.json.request a.line))
  ]

  turn_stopped : (w : World) (conn : Conn) (a : Arrival) → (turn s w conn a).stopped ≡ ends s.json a
  unfolding turn
  turn_stopped w conn a = elim (Bool-cases (is_empty a.line)) [
    | inl e ↦ rw e refl
    | inr e ↦ rw e (on_frame_stopped w conn a.is_shutdown (s.json.request a.line))
  ]

  handle_frames_answers :
      (w : World) (conn : Conn) (frames : List Arrival)
      → (map (λ r. r.id) (handle_frames s w conn frames).responses
          ≡ all_asked s.json (served s.json frames))
        × All IsAnswer (handle_frames s w conn frames).responses
  unfolding handle_frames
  handle_frames_answers w conn [] = (refl, tt)
  handle_frames_answers w conn (a ∷ rest) =
      let first = turn s w conn a in
      let ih = handle_frames_answers first.world first.conn rest in
      elim (Bool-cases (ends s.json a)) [
        | inl e ↦
            rw (turn_stopped w conn a, e)
              (turn_ids w conn a ∙ sym (append-nil (asked s.json a.line)), turn-IsAnswer w conn a)
        | inr e ↦
            rw (turn_stopped w conn a, e)
              (
                map-append (λ r. r.id) first.responses
                      (handle_frames s first.world first.conn rest).responses
                    ∙ cc (turn_ids w conn a, ih.0),
                All-append IsAnswer first.responses _ (turn-IsAnswer w conn a) ih.1,
              )
      ]

-- A connection is answered in order: its responses bear the identifiers of its non-empty frames, none
-- for a frame that is no request, up to the first request after which the server is seen to shut
-- down, and of all frames if there is none. Each response has a result or an error, and not both.
pub handle_conn-served :
    {World R : Type 0} (s : Server World R) (w : World) (frames : List Arrival)
    → (map (λ r. r.id) (handle_conn s w frames).responses ≡ all_asked s.json (served s.json frames))
      × All IsAnswer (handle_conn s w frames).responses
unfolding handle_conn
handle_conn-served s w frames =
    handle_frames_answers s w (record { peer_kind = []; mcp_scope = []; profile = profile_full })
      frames
