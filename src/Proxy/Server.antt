-- ===== src/Proxy/Server.antt =====
-- `UpstreamProxy` of gateway/proxy.rs. The HTTP client is a parameter, and what it sends to changes
-- with each request.
use mcp_shield.Json
use mcp_shield.Prelude.{
  ℕ, String, Bool, false, ◌&&◌, ◌||◌, Option, none, some, List, [], ◌∷◌, Result, ok, err, eqb, leb,
  map, guard, ◌>>=◌, ◌>>◌, if◌then◌else◌,
}
use mcp_shield.Text.Defs.{format}
use mcp_shield.Dict.{Dict, lookup, insert}
use mcp_shield.Json.{Value, object, integer, field, end}
use mcp_shield.Error.{McpError, code_parse_error, parse_error, upstream_error, to_string}
use mcp_shield.JsonRpc.Message.{JsonRpcMessage}
use mcp_shield.JsonRpc.Codec.{Codec}
use mcp_shield.JsonRpc.Parse.{parse, to_value}
use mcp_shield.Proxy.Echo.{forward_to_echo}

pub data UpstreamTransport : Type 0 where
  streamable_http sse stdio : UpstreamTransport

pub record UpstreamServer : Type 0 where
  pub id : String
  pub transport : UpstreamTransport
  pub url : Option String
  pub is_echo : Bool

pub record UpstreamProxy : Type 0 where
  pub servers : Dict UpstreamServer
  pub is_closed : Bool

-- A response of `reqwest`: its status, and its body or why it could not be read.
pub record Response : Type 0 where
  pub status : ℕ
  pub text : Result String String

-- `reqwest` and `serde_json`, with the texts of their errors.
pub record Client (U : Type 0) : Type 0 where
  pub codec : Codec
  pub post : (url body : String) → U → U × Result String Response
  pub status_text : ℕ → String
  pub write : Value → Result String String
  pub print : Value → String
  pub read : String → Result String Value

-- The semaphore is closed nowhere; a call waits for a permit.
abbrev pub new : UpstreamProxy
new = record { servers = []; is_closed = false }

unfoldable pub register_server : UpstreamServer → UpstreamProxy → UpstreamProxy
register_server server p = record p { servers = insert server.id server p.servers }

unfoldable pub list_servers : UpstreamProxy → List String
list_servers p = map (λ entry. entry.0) p.servers

abbrev first_key : Dict UpstreamServer → Option String
first_key [] = none
first_key (entry ∷ servers) = some entry.0

unfoldable pub default_server_id : UpstreamProxy → Option String
default_server_id p = first_key p.servers

abbrev serialization_error : Value
serialization_error = object (
    field "jsonrpc" (Json.string "2.0") (
      field "error"
        (object (
          field "code" (integer code_parse_error)
            (field "message" (Json.string "Serialization error") end)))
        end))

-- `map_err(|e| McpError::UpstreamError(format!(…, e)))`
abbrev or_upstream {ℓ} : {A : Type ℓ} → (String → String) → Result String A → Result McpError A
or_upstream text (ok a) = ok a
or_upstream text (err e) = err (upstream_error (text e))

-- `status.is_success()` is 200 to 299.
abbrev pub accepted : ℕ → Bool
accepted status = (leb 200 status && leb status 299) || eqb status 202

module _ {U : Type 0} (c : Client U) where
  unfoldable pub to_json_string : JsonRpcMessage → String
  unfolding to_value
  to_json_string message = elim (c.write (to_value c.codec message)) [
    | ok text ↦ text
    | err _ ↦ c.print serialization_error
  ]

  -- What is made of a body that was read.
  unfoldable pub parse_body : String → Result McpError JsonRpcMessage
  unfolding parse to_string format
  parse_body body = elim (c.read body) [
    | err e ↦ err (parse_error (format ("Invalid JSON from upstream: " ∷ e ∷ [])))
    | ok raw ↦ elim (parse c.codec raw) [
      | ok message ↦ ok message
      | err e ↦
          err (upstream_error (format ("Invalid JSON-RPC from upstream: " ∷ to_string e ∷ [])))
    ]
  ]

  unfoldable pub read_response : Result String Response → Result McpError JsonRpcMessage
  unfolding parse_body format
  read_response sent = do
    response ← or_upstream (λ e. format ("Upstream HTTP request failed: " ∷ e ∷ [])) sent
    body ← or_upstream (λ e. format ("Failed to read upstream response: " ∷ e ∷ [])) response.text
    guard (accepted response.status) (
        upstream_error
          (format ("Upstream returned HTTP " ∷ c.status_text response.status ∷ ": " ∷ body ∷ [])))
    parse_body body

  unfoldable pub forward_to_http : String → JsonRpcMessage → U → U × Result McpError JsonRpcMessage
  unfolding to_json_string read_response
  forward_to_http url message u =
      let sent = c.post url (to_json_string message) u in (sent.0, read_response sent.1)

  -- `server.url`, of a transport over HTTP.
  unfoldable pub forward_to_url :
      String → Option String → JsonRpcMessage → U → U × Result McpError JsonRpcMessage
  unfolding forward_to_http format
  forward_to_url server_id url message u = elim url [
    | some url ↦ forward_to_http url message u
    | none ↦ (u, err (upstream_error (format ("No URL configured for server " ∷ server_id ∷ []))))
  ]

  abbrev pub forward_to_server :
      String → String → UpstreamServer → JsonRpcMessage → U → U × Result McpError JsonRpcMessage
  forward_to_server now server_id server message u =
      if server.is_echo then (u, forward_to_echo now message) else elim server.transport [
        | streamable_http ↦ forward_to_url server_id server.url message u
        | sse ↦ forward_to_url server_id server.url message u
        | stdio ↦ (u, err (upstream_error "Stdio upstream transport not yet implemented"))
      ]

  unfoldable pub forward_request :
      UpstreamProxy → String → String → JsonRpcMessage → U → U × Result McpError JsonRpcMessage
  unfolding lookup format forward_to_url forward_to_echo
  forward_request p now server_id message u =
      if p.is_closed
      then (u, err (upstream_error "Upstream concurrency limit reached"))
      else elim (lookup server_id p.servers) [
        | none ↦ (u, err (upstream_error (format ("Unknown upstream server: " ∷ server_id ∷ []))))
        | some server ↦ forward_to_server now server_id server message u
      ]
