-- ===== src/Ipc/Profiles.antt =====
-- internal/daemon/server.go: the gate of the read-only profile.
use locorum.Common.{
  ℕ, ◌≡◌, ap, ◌∙◌, ◌&&◌, Bool, true, false, none, some, List, [], ◌∷◌, inl, inr, Bool-cases, All,
  arith,
}
use locorum.Common.Text.{equals, equals-≡, equals_refl}
use locorum.Ipc.{
  profile_full, profile_readonly, Request, Conn, MethodEntry, HelloParams, Coded, ok, bad, Json,
  Server,
}
use locorum.Ipc.Serve.{
  is_empty, lookup, is_hello, hello_params, greet, greet_coded, handle_hello, denial,
}
use locorum.Ipc.Loop.{Arrival, handle_frames}
use locorum.Ipc.Gates.{KeepsHello, handle_frames_keeps}

abbrev names_full : Coded HelloParams → Bool
names_full (bad e) = false
names_full (ok p) = equals p.profile profile_full

-- Does a frame greet with the full profile?
abbrev pub asks_full : {R : Type 0} → Json R → Coded Request → Bool
asks_full json (bad e) = false
asks_full json (ok req) = is_hello req && names_full (hello_params json req.params)

greet-readonly :
    {R : Type 0} (json : Json R) (conn : Conn) (req : Request) (p : HelloParams)
    → equals p.profile profile_full ≡ false
    → conn.profile ≡ profile_readonly
    → (greet json conn req p).0.profile ≡ profile_readonly
unfolding greet
greet-readonly json conn req p full h = elim (Bool-cases (is_empty p.profile)) [
  | inl e ↦ rw e h
  | inr e ↦
      rw (e, full)
        (elim (Bool-cases (equals p.profile profile_readonly)) [
          | inl known ↦ rw known (equals-≡ p.profile profile_readonly known)
          | inr unknown ↦ rw unknown h
        ])
]

greet_coded-readonly :
    {R : Type 0} (json : Json R) (conn : Conn) (req : Request) (p : Coded HelloParams)
    → names_full p ≡ false
    → conn.profile ≡ profile_readonly
    → (greet_coded json conn req p).0.profile ≡ profile_readonly
greet_coded-readonly json conn req (bad e) full h = h
greet_coded-readonly json conn req (ok p) full h = greet-readonly json conn req p full h

asks_full-KeepsHello :
    {World R : Type 0} (P : World → Type 0) (s : Server World R) (c : Coded Request)
    → asks_full s.json c ≡ false
    → KeepsHello P (λ conn. conn.profile ≡ profile_readonly) s c
unfolding handle_hello
asks_full-KeepsHello P s (bad e) h = tt
asks_full-KeepsHello P s (ok req) h = λ hello conn q.
    greet_coded-readonly s.json conn req (hello_params s.json req.params) (rw hello at h) q

All-KeepsHello :
    {World R : Type 0} (P : World → Type 0) (s : Server World R) (frames : List Arrival)
    → All (λ a. asks_full s.json (s.json.request a.line) ≡ false) frames
    → All
        (λ a. KeepsHello P (λ conn. conn.profile ≡ profile_readonly) s (s.json.request a.line))
        frames
All-KeepsHello P s [] h = tt
All-KeepsHello P s (a ∷ rest) h =
    (asks_full-KeepsHello P s (s.json.request a.line) h.0, All-KeepsHello P s rest h.1)

denial-readonly :
    {World R : Type 0} (json : Json R) (conn : Conn) (req : Request) (entry : MethodEntry World R)
    → conn.profile ≡ profile_readonly
    → denial json conn req entry ≡ none
    → entry.is_read_only ≡ true
unfolding denial
denial-readonly json conn req entry readonly h = elim (Bool-cases entry.is_read_only) [
  | inl e ↦ e
  | inr e ↦
      let shut : equals conn.profile profile_readonly ≡ true =
        ap (λ p. equals p profile_readonly) readonly ∙ equals_refl profile_readonly in
      (ground arith)
]

-- Whatever the handlers that are registered as read-only keep, a connection in the read-only profile
-- keeps, through any frames of which none is a hello that names the full profile.
pub handle_frames-readonly :
    {World R : Type 0} (P : World → Type 0) (s : Server World R) (w : World) (conn : Conn)
    (frames : List Arrival)
    → ((method : List ℕ) (entry : MethodEntry World R) (w : World) (conn : Conn) (params : List ℕ)
        → lookup method s.handlers ≡ some entry
        → entry.is_read_only ≡ true
        → P w
        → P (entry.handler w conn params).0)
    → conn.profile ≡ profile_readonly
    → All (λ a. asks_full s.json (s.json.request a.line) ≡ false) frames
    → P w
    → P (handle_frames s w conn frames).world
handle_frames-readonly P s w conn frames keeps readonly hellos p =
    handle_frames_keeps P (λ conn. conn.profile ≡ profile_readonly) s
      (λ w conn req entry found gate q p.
        keeps req.method entry w conn req.params found
          (denial-readonly s.json conn req entry q gate) p)
      w conn frames (All-KeepsHello P s frames hellos) p readonly
