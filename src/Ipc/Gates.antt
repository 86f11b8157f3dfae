-- ===== src/Ipc/Gates.antt =====
-- internal/daemon/server.go: which handlers a connection can reach.
use locorum.Common.{
  ◌≡◌, refl, Bool, true, Option, none, some, List, [], ◌∷◌, inl, inr, Bool-cases, Option-cases, All,
}
use locorum.Ipc.{Request, Conn, MethodEntry, Coded, ok, bad, Server}
use locorum.Ipc.Serve.{is_empty, lookup, is_hello, handle_hello, denial, call, dispatch}
use locorum.Ipc.Loop.{Arrival, on_frame, turn, handle_frames}
use locorum.Ipc.Answers.{dispatch_by}

module _ {World R : Type 0} (P : World → Type 0) (Q : Conn → Type 0) (s : Server World R) where
  -- What an admitted call has to keep.
  abbrev pub KeepsCalls : Type 0
  KeepsCalls =
      (w : World) (conn : Conn) (req : Request) (entry : MethodEntry World R)
      → lookup req.method s.handlers ≡ some entry
      → denial s.json conn req entry ≡ none
      → Q conn
      → P w
      → P (entry.handler w conn req.params).0

  -- What a hello of these frames has to keep.
  abbrev pub KeepsHello : Coded Request → Type 0
  KeepsHello (bad e) = Unit
  KeepsHello (ok req) =
      is_hello req ≡ true → (conn : Conn) → Q conn → Q (handle_hello s.json conn req).0

  abbrev Holds : World × Conn → Type 0
  Holds (w, conn) = P w × Q conn

  call_keeps :
      KeepsCalls
      → (w : World) (conn : Conn) (req : Request) (entry : Option (MethodEntry World R))
      → lookup req.method s.handlers ≡ entry
      → P w
      → Q conn
      → let (w', conn', r) = call s w conn req entry in P w' × Q conn'
  unfolding call
  call_keeps keeps w conn req none found p q = (p, q)
  call_keeps keeps w conn req (some entry) found p q =
      elim (Option-cases (denial s.json conn req entry)) [
        | inl e ↦ rw e (keeps w conn req entry found e q p, q)
        | inr (why, e) ↦ rw e (p, q)
      ]

  dispatch_keeps :
      KeepsCalls
      → (w : World) (conn : Conn) (req : Request) → KeepsHello (ok req)
      → P w
      → Q conn
      → let (w', conn', r) = dispatch s w conn req in P w' × Q conn'
  dispatch_keeps keeps w conn req hello p q =
      dispatch_by s (λ r. let (w', conn', resp) = r in P w' × Q conn') w conn req (p, q)
        (λ e. (p, hello e conn q)) (p, q)
        (call_keeps keeps w conn req (lookup req.method s.handlers) refl p q)

  on_frame_keeps :
      KeepsCalls
      → (w : World) (conn : Conn) (down : Bool) (c : Coded Request) → KeepsHello c
      → P w
      → Q conn
      → P (on_frame s w conn down c).world × Q (on_frame s w conn down c).conn
  on_frame_keeps keeps w conn down (bad e) hello p q = (p, q)
  on_frame_keeps keeps w conn down (ok req) hello p q = dispatch_keeps keeps w conn req hello p q

  turn_keeps :
      KeepsCalls
      → (w : World) (conn : Conn) (a : Arrival) → KeepsHello (s.json.request a.line)
      → P w
      → Q conn
      → P (turn s w conn a).world × Q (turn s w conn a).conn
  unfolding turn
  turn_keeps keeps w conn a hello p q = elim (Bool-cases (is_empty a.line)) [
    | inl e ↦ rw e (p, q)
    | inr e ↦ rw e (on_frame_keeps keeps w conn a.is_shutdown (s.json.request a.line) hello p q)
  ]

  pub handle_frames_keeps :
      KeepsCalls
      → (w : World) (conn : Conn) (frames : List Arrival)
      → All (λ a. KeepsHello (s.json.request a.line)) frames
      → P w
      → Q conn
      → P (handle_frames s w conn frames).world
  unfolding handle_frames
  handle_frames_keeps keeps w conn [] hellos p q = p
  handle_frames_keeps keeps w conn (a ∷ rest) hellos p q =
      let first = turn s w conn a in
      let kept = turn_keeps keeps w conn a hellos.0 p q in
      elim (Bool-cases first.stopped) [
        | inl e ↦ rw e kept.0
        | inr e ↦
            rw e (handle_frames_keeps keeps first.world first.conn rest hellos.1 kept.0 kept.1)
      ]
