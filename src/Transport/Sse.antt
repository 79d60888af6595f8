-- ===== src/Transport/Sse.antt =====
-- transport/sse.rs: the handlers of `/sse` and `/messages`.
use mcp_shield.Json
use mcp_shield.Prelude.{
  ℕ, suc, String, Bool, not, ◌&&◌, Option, none, some, List, [], ◌∷◌, ◌++◌, Result, ok, err,
  unwrap_or, if◌then◌else◌,
}
use mcp_shield.Text.Defs.{format, contains_text}
use mcp_shield.Dict.{Dict, lookup, insert, remove}
use mcp_shield.Json.{Value, object, field, end}
use mcp_shield.Error.{McpError, RequestId, error_code, to_string}
use mcp_shield.JsonRpc.Message.{JsonRpcMessage, parse_error_response, error_obj, is_notification}
use mcp_shield.JsonRpc.Parse.{parse}
use mcp_shield.Scope.Enforcer.{ScopeEnforcer}
use mcp_shield.Router.State.{Moment, Router, Gateway}
use mcp_shield.Router.Route.{handle_message}
use mcp_shield.Transport.Http.{empty, json, Response}

-- A channel is the number of the stream that reads it, and `sent` is what was sent on them, in
-- order.
pub record SseState (U C : Type 0) : Type 0 where
  pub clients : Dict ℕ
  pub opened : ℕ
  pub sent : List (ℕ × JsonRpcMessage)
  pub gateway : Gateway U C

-- The stream that a GET opens: its first event, and the channel that gives the others.
pub record Stream : Type 0 where
  pub endpoint : String
  pub channel : ℕ

unfoldable pub handle_sse_get :
    {U C : Type 0} → Option String → String → SseState U C → SseState U C × Stream
unfolding insert format
handle_sse_get query generated st =
    let client_id = unwrap_or query generated in
    (
      record st { clients = insert client_id st.opened st.clients; opened = suc st.opened },
      record { endpoint = format ("/messages?client_id=" ∷ client_id ∷ []); channel = st.opened },
    )

abbrev pub reply : ℕ → String → Response
reply status text = record {
  status = status;
  session_header = none;
  body = json (object (field "error" (Json.string text) end));
}

abbrev pub accepted : Response
accepted = record { status = 202; session_header = none; body = empty }

-- `JsonRpcMessage::Error` of an error, without the identifier of the request.
abbrev pub error_message : McpError → JsonRpcMessage
error_message e = JsonRpcMessage.error RequestId.null (error_obj (error_code e) (to_string e))

-- What the result of a message sends to its client.
unfoldable pub answer : Bool → Result McpError JsonRpcMessage → List JsonRpcMessage
unfolding contains_text to_string error_code
answer notified (ok response) = response ∷ []
answer notified (err e) =
    if not notified && not (contains_text "notification" (to_string e))
    then error_message e ∷ []
    else []

-- `tx.send`, which fails on a channel whose stream is closed, and the failure is ignored.
unfoldable pub send_on :
    {U C : Type 0} → (ℕ → Bool) → ℕ → List JsonRpcMessage → SseState U C → SseState U C
send_on closed channel [] st = st
send_on closed channel (message ∷ rest) st =
    let tail = send_on closed channel rest in
    if closed channel
    then tail st
    else tail (record st { sent = st.sent ++ (channel, message) ∷ [] })

module _ {U C : Type 0} (r : Router U C) (enforcer : ScopeEnforcer) (now : Moment)
    (closed : ℕ → Bool) where
  -- The rest of a POST, once its client and channel are known.
  unfoldable pub routed : String → ℕ → JsonRpcMessage → SseState U C → SseState U C
  unfolding answer send_on is_notification
  routed client_id channel message st =
      let (gateway, result) = handle_message r now enforcer (some client_id) message st.gateway in
      send_on closed channel (answer (is_notification message) result)
        (record st { gateway = gateway })

  unfoldable pub received :
      (String → Result String Value) → String → ℕ → String → SseState U C → SseState U C
  unfolding routed send_on parse parse_error_response
  received read client_id channel text st = elim (read text) [
    | err e ↦ send_on closed channel (parse_error_response ∷ []) st
    | ok raw ↦ elim (parse r.codec raw) [
      | err e ↦ send_on closed channel (error_message e ∷ []) st
      | ok message ↦ routed client_id channel message st
    ]
  ]

  -- `read` is the reader of JSON; a body that is not UTF-8 is `none`.
  unfoldable pub handle_sse_post :
      (String → Result String Value)
      → Option String
      → Option String
      → SseState U C
      → SseState U C × Response
  unfolding received lookup
  handle_sse_post read none body st = (st, reply 400 "Missing client_id query parameter")
  handle_sse_post read (some client_id) body st = elim (lookup client_id st.clients) [
    | none ↦ (st, reply 404 "Unknown or disconnected client")
    | some channel ↦ elim body [
      | none ↦ (st, reply 400 "Invalid UTF-8 in request body")
      | some text ↦ (received read client_id channel text st, accepted)
    ]
  ]

unfoldable pub remove_client : {U C : Type 0} → String → SseState U C → SseState U C
unfolding remove
remove_client client_id st = record st { clients = remove client_id st.clients }
