-- ===== src/Transport/Silence.antt =====
-- Which notifications the transports (transport/streamable_http.rs, transport/sse.rs,
-- transport/stdio.rs) leave without an answer.
use mcp_shield.Prelude.{String, Bool, ◌==◌, ◌||◌, none}
use mcp_shield.Dict.{Dict}
use mcp_shield.Json
use mcp_shield.Json.{negsuc, object, field, end}
use mcp_shield.Error.{RequestId}
use mcp_shield.Message.{method_initialized, method_exited}
use mcp_shield.JsonRpc.Message.{JsonRpcMessage}
use mcp_shield.Router.State.{Router}
use mcp_shield.Transport.Http.{Response, json, empty}

-- The notifications of the start and the end of a client.
abbrev pub is_lifecycle : String → Bool
is_lifecycle method = method == method_initialized || method == method_exited

abbrev pub no_answer : Response
no_answer = record { status = 202; session_header = none; body = empty }

abbrev complaint : String
complaint = "Invalid request: Notification should not receive a response"

-- The error with which a notification is answered, as a response of HTTP and as a message.
abbrev pub complaint_response : Response
complaint_response = record {
  status = 200;
  session_header = none;
  body = json (
      object (
        field "jsonrpc" (Json.string "2.0") (
          field "id" Json.null (
            field "error"
              (object (
                field "code" (Json.integer (negsuc 32599))
                  (field "message" (Json.string complaint) end)))
              end))));
}

abbrev pub complaint_message : JsonRpcMessage
complaint_message =
    JsonRpcMessage.error RequestId.null
      (record { code = negsuc 32599; message = complaint; details = none })
