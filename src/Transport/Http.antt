-- ===== src/Transport/Http.antt =====
-- transport/streamable_http.rs: the handlers of `/mcp`, in front of the router.
use mcp_shield.Json
use mcp_shield.Prelude.{
  ℕ, String, Bool, true, false, ◌==◌, Option, none, some, [], ◌∷◌, Result, ok, err, is_some,
  if◌then◌else◌,
}
use mcp_shield.Text.Defs.{format, contains_text}
use mcp_shield.Dict.{Dict, lookup, insert, remove}
use mcp_shield.Json.{ℤ, negsuc, Value, object, field, end}
use mcp_shield.Error.{McpError, error_code, to_string, code_parse_error}
use mcp_shield.JsonRpc.Message.{JsonRpcMessage, method_of}
use mcp_shield.JsonRpc.Parse.{parse, to_value}
use mcp_shield.Scope.Enforcer.{ScopeEnforcer}
use mcp_shield.Router.State.{Moment, Router, Gateway}
use mcp_shield.Router.Route.{handle_message}

pub record SessionState : Type 0 where
  pub created_at : ℕ
  pub last_activity : ℕ
  pub initialized : Bool

-- `StreamableHttpState`: its sessions, and with them what its router changes.
pub record HttpState (U C : Type 0) : Type 0 where
  pub sessions : Dict SessionState
  pub gateway : Gateway U C

pub data Body : Type 0 where
  empty : Body
  json : Value → Body

pub record Response : Type 0 where
  pub status : ℕ
  pub session_header : Option String
  pub body : Body

abbrev plain : ℕ → Body → Response
plain status body = record { status = status; session_header = none; body = body }

unfoldable pub jsonrpc_error_response : ℤ → String → Response
jsonrpc_error_response code message = plain 200 (
    json (
      object (
        field "jsonrpc" (Json.string "2.0") (
          field "id" Json.null (
            field "error"
              (object
                (field "code" (Json.integer code) (field "message" (Json.string message) end)))
              end)))))

unfoldable pub parse_error_response : String → Response
unfolding jsonrpc_error_response
parse_error_response message = jsonrpc_error_response code_parse_error message

unfoldable pub error_response : ℕ → String → Response
error_response status message =
    plain status (json (object (field "error" (Json.string message) end)))

unknown_session : Response
unknown_session = plain 404 (
    json (
      object (
        field "jsonrpc" (Json.string "2.0") (
          field "error"
            (object (
              field "code" (Json.integer (negsuc 31999))
                (field "message" (Json.string "Unknown or expired session") end)))
            end))))

-- What a request finds: the clock, the new identifier, and the header `mcp-session-id`.
pub record Arrival : Type 0 where
  pub moment : Moment
  pub new_session_id : String
  pub created_at : ℕ
  pub last_activity : ℕ
  pub session_id : Option String

abbrev pub is_known : Option String → Dict SessionState → Bool
is_known none sessions = true
is_known (some sid) sessions = is_some (lookup sid sessions)

abbrev pub touch : ℕ → Option String → Dict SessionState → Dict SessionState
touch now none sessions = sessions
touch now (some sid) sessions = elim (lookup sid sessions) [
  | none ↦ sessions
  | some s ↦ insert sid (record s { last_activity = now; initialized = true }) sessions
]

abbrev pub is_initialize : JsonRpcMessage → Bool
is_initialize message = elim (method_of message) [
  | some method ↦ method == "initialize"
  | none ↦ false
]

module _ {U C : Type 0} (r : Router U C) (enforcer : ScopeEnforcer) (a : Arrival) where
  -- The answer to a message that was routed, and the sessions after it.
  unfoldable pub respond :
      Bool → Result McpError JsonRpcMessage → Dict SessionState → Dict SessionState × Response
  unfolding jsonrpc_error_response contains_text to_string error_code to_value lookup insert
  respond initializes (err e) sessions =
      if contains_text "notification" (to_string e)
      then (sessions, plain 202 empty)
      else (sessions, jsonrpc_error_response (error_code e) (to_string e))
  respond initializes (ok message) sessions =
      let body = json (to_value r.codec message) in
      if initializes
      then (
        insert a.new_session_id
            (record {
              created_at = a.created_at;
              last_activity = a.last_activity;
              initialized = false;
            })
            sessions,
        record { status = 200; session_header = some a.new_session_id; body = body },
      )
      else (touch a.last_activity a.session_id sessions, plain 200 body)

  unfoldable pub route : JsonRpcMessage → HttpState U C → HttpState U C × Response
  unfolding respond method_of
  route message st =
      let (gateway, result) = handle_message r a.moment enforcer a.session_id message st.gateway in
      let (sessions, response) = respond (is_initialize message) result st.sessions in
      (record { sessions = sessions; gateway = gateway }, response)

  -- `read` is the reader of JSON; a body that is not UTF-8 is `none`.
  unfoldable pub handle_mcp_post :
      (String → Result String Value) → Option String → HttpState U C → HttpState U C × Response
  unfolding route unknown_session error_response parse_error_response jsonrpc_error_response format
      to_string error_code parse
  handle_mcp_post read none st = (st, error_response 400 "Invalid UTF-8 in request body")
  handle_mcp_post read (some body) st = elim (read body) [
    | err e ↦ (st, parse_error_response (format ("Invalid JSON: " ∷ e ∷ [])))
    | ok raw ↦ elim (parse r.codec raw) [
      | err e ↦ (st, jsonrpc_error_response (error_code e) (to_string e))
      | ok message ↦
          if is_known a.session_id st.sessions then route message st else (st, unknown_session)
    ]
  ]

unfoldable pub handle_mcp_delete :
    {U C : Type 0} → Option String → HttpState U C → HttpState U C × Response
unfolding lookup remove error_response
handle_mcp_delete none st = (st, error_response 404 "Session not found")
handle_mcp_delete (some sid) st =
    if is_some (lookup sid st.sessions)
    then (
      record st { sessions = remove sid st.sessions },
      plain 200 (json (object (field "status" (Json.string "terminated") end))),
    )
    else (st, error_response 404 "Session not found")
