-- ===== src/Ipc.antt =====
-- internal/daemon/protocol.go and internal/daemon/server.go: the JSON-RPC frames, and the server's dispatch
-- of a request to a handler. A text, and a raw JSON value, is the list of its bytes; a field that a
-- frame leaves out is empty. The JSON library is an argument.
pub mod Serve
pub mod Loop
pub mod Answers
pub mod Failures
pub mod Gates
pub mod Profiles
pub mod Scopes
pub mod Resolve
mod Tests
use locorum.Common.{
  ℕ, ◌&&◌, ◌||◌, not, Bool, true, false, Option, none, some, List, [], ◌∷◌, ◌++◌, if◌then◌else◌,
}
use locorum.Common.Int.{ℤ, negsuc}
use locorum.Common.Text.{codes, equals}
use locorum.Secrets.{redact_string}

abbrev pub json_rpc_version : List ℕ
json_rpc_version = codes "2.0"

-- `negsuc n` is -(n + 1).
abbrev pub code_parse_error : ℤ
code_parse_error = negsuc 32699

abbrev pub code_invalid_request : ℤ
code_invalid_request = negsuc 32599

abbrev pub code_method_not_found : ℤ
code_method_not_found = negsuc 32600

abbrev pub code_invalid_params : ℤ
code_invalid_params = negsuc 32601

abbrev pub code_internal_error : ℤ
code_internal_error = negsuc 32602

abbrev pub code_forbidden : ℤ
code_forbidden = negsuc 32001

abbrev pub profile_full : List ℕ
profile_full = codes "full"

abbrev pub profile_readonly : List ℕ
profile_readonly = codes "readonly"

pub record Request : Type 0 where
  pub jsonrpc : List ℕ
  pub id : List ℕ
  pub method : List ℕ
  pub params : List ℕ

-- The server sets no data.
pub record RpcError : Type 0 where
  pub code : ℤ
  pub message : List ℕ

pub record Response : Type 0 where
  pub jsonrpc : List ℕ
  pub id : List ℕ
  pub result : Option (List ℕ)
  pub error : Option RpcError

pub record MethodError : Type 0 where
  pub code : ℤ
  pub message : List ℕ
  pub cause : Option (List ℕ)

abbrev with_cause : List ℕ → Option (List ℕ) → List ℕ
with_cause message none = message
with_cause message (some cause) = message ++ codes ": " ++ cause

-- MethodError.Error
unfoldable pub error_text : MethodError → List ℕ
error_text e = with_cause e.message e.cause

-- What a handler ends with: a value, an error with a `MethodError` in its chain, another error by its
-- text, or a panic.
pub data Outcome (R : Type 0) : Type 0 where
  value : R → Outcome R
  typed : MethodError → Outcome R
  other : List ℕ → Outcome R
  panics : Outcome R

-- The connection's record, without the socket.
pub record Conn : Type 0 where
  pub peer_kind : List ℕ
  pub mcp_scope : List ℕ
  pub profile : List ℕ

-- A handler may change everything outside the server. None of the daemon's writes to its connection.
pub record MethodEntry (World R : Type 0) : Type 0 where
  pub handler : World → Conn → List ℕ → World × Outcome R
  pub is_read_only : Bool
  pub is_site_scoped : Bool

-- ReadOnly
unfoldable pub read_only : {World R : Type 0} → MethodEntry World R → MethodEntry World R
read_only m = record m { is_read_only = true }

-- SiteScoped
unfoldable pub site_scoped : {World R : Type 0} → MethodEntry World R → MethodEntry World R
site_scoped m = record m { is_site_scoped = true }

pub record HelloParams : Type 0 where
  pub peer_kind : List ℕ
  pub profile : List ℕ
  pub mcp_scope : List ℕ

pub record Holder : Type 0 where
  pub site_id : List ℕ
  pub slug : List ℕ

pub record ServerInfo : Type 0 where
  pub version : List ℕ
  pub profile : List ℕ

-- A result of the JSON library, or the text of its error.
pub data Coded (A : Type 0) : Type 0 where
  ok : A → Coded A
  bad : List ℕ → Coded A

-- What the server uses of encoding/json, with the verb %q of fmt.
pub record Json (R : Type 0) : Type 0 where
  pub request : List ℕ → Coded Request
  pub hello : List ℕ → Coded HelloParams
  pub holder : List ℕ → Coded Holder
  pub body : R → Coded (List ℕ)
  pub info : ServerInfo → List ℕ
  pub quoted : List ℕ → List ℕ

-- The handlers, the latest registration first, and the secrets that are known in a world.
pub record Server (World R : Type 0) : Type 0 where
  pub handlers : List (List ℕ × MethodEntry World R)
  pub json : Json R
  pub secrets : World → List (List ℕ)
