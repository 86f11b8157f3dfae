-- ===== src/Ipc/Loop.antt =====
-- internal/daemon/server.go: the loop over a connection's frames.
use locorum.Common.{ℕ, Bool, false, none, some, List, [], ◌∷◌, ◌++◌, if◌then◌else◌}
use locorum.Common.Text.{codes}
use locorum.Ipc.{
  json_rpc_version, code_parse_error, profile_full, Request, Response, Conn, Coded, ok, bad, Server,
}
use locorum.Ipc.Serve.{is_empty, dispatch}

-- A frame as the scanner returns it, and whether the server is seen to shut down after it. The scanner
-- ends the frames at the end of the stream, and at a line above `MaxMessageBytes`.
pub record Arrival : Type 0 where
  pub line : List ℕ
  pub is_shutdown : Bool

-- The world and the connection, the answers so far, and whether the loop goes on.
pub record Session (World : Type 0) : Type 0 where
  pub world : World
  pub conn : Conn
  pub responses : List Response
  pub stopped : Bool

abbrev parse_error : List ℕ → Response
parse_error e = record {
  jsonrpc = json_rpc_version;
  id = [];
  result = none;
  error = some (record { code = code_parse_error; message = codes "parse error: " ++ e });
}

abbrev answered : {World : Type 0} → Bool → World × Conn × Response → Session World
answered down (w, conn, resp) = record {
  world = w;
  conn = conn;
  responses = resp ∷ [];
  stopped = down;
}

abbrev pub on_frame :
    {World R : Type 0} → Server World R → World → Conn → Bool → Coded Request → Session World
on_frame s w conn down (bad e) = record {
  world = w;
  conn = conn;
  responses = parse_error e ∷ [];
  stopped = false;
}
on_frame s w conn down (ok req) = answered down (dispatch s w conn req)

-- One turn of the loop of `handleConn`.
unfoldable pub turn : {World R : Type 0} → Server World R → World → Conn → Arrival → Session World
turn s w conn a =
    if is_empty a.line
    then record { world = w; conn = conn; responses = []; stopped = false }
    else on_frame s w conn a.is_shutdown (s.json.request a.line)

unfoldable pub handle_frames :
    {World R : Type 0} → Server World R → World → Conn → List Arrival → Session World
unfolding turn
handle_frames s w conn [] = record { world = w; conn = conn; responses = []; stopped = false }
handle_frames s w conn (a ∷ rest) =
    let first = turn s w conn a in
    let next = handle_frames s first.world first.conn rest in
    if first.stopped then first else record next { responses = first.responses ++ next.responses }

-- handleConn
unfoldable pub handle_conn :
    {World R : Type 0} → Server World R → World → List Arrival → Session World
unfolding handle_frames
handle_conn s w frames =
    handle_frames s w (record { peer_kind = []; mcp_scope = []; profile = profile_full }) frames
