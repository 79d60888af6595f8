-- ===== src/Proxy/Echo.antt =====
-- `forward_to_echo` of gateway/proxy.rs, the built-in echo server.
use mcp_shield.Json
use mcp_shield.Prelude.{
  String, true, Option, [], ◌∷◌, Result, ok, err, ◌==◌, unwrap_or, if◌then◌else◌,
}
use mcp_shield.Text.Defs.{format}
use mcp_shield.Json.{Value, Fields, null, bool, array, object, end, field, get, str_of, of_items}
use mcp_shield.Error.{McpError, RequestId, method_not_found, integer_text}
use mcp_shield.JsonRpc.Message.{JsonRpcMessage, id_of, method_of, params_of, success_response}
use mcp_shield.Proxy.Number.{i64_or_zero, add_i64}

-- The protocol version of a client, echoed.
unfoldable pub echo_initialize : Value → Value
unfolding get
echo_initialize params = object (
    field "protocolVersion"
      (Json.string (unwrap_or (str_of (get params "protocolVersion")) "2025-03-26"))
      (field "capabilities"
        (object (
          field "tools" (object (field "listChanged" (bool true) end))
            (field "resources" (object end) (field "prompts" (object end) end))))
        (field "serverInfo"
          (object (
            field "name" (Json.string "mcp-shield-echo")
              (field "version" (Json.string "0.1.0") end)))
          end)))

abbrev typed : String → Value
typed type_name = object (field "type" (Json.string type_name) end)

abbrev schema : Fields → Fields → Value
schema properties required =
    object (field "type" (Json.string "object") (field "properties" (object properties) required))

abbrev listed : String → String → Value → Value
listed name description input_schema = object (
    field "name" (Json.string name)
      (field "description" (Json.string description) (field "inputSchema" input_schema end)))

unfoldable pub echo_tools : Value
echo_tools =
    let message = object (
      field "type" (Json.string "string")
        (field "description" (Json.string "Message to echo") end)) in
    object (
      field "tools"
        (array (
          of_items (
            listed "com.echo:echo" "Echoes back the input message" (
              schema (field "message" message end)
                (field "required" (array (of_items (Json.string "message" ∷ []))) end))
            ∷ listed "com.echo:add" "Adds two numbers together" (
                schema (field "a" (typed "integer") (field "b" (typed "integer") end)) (
                  field "required" (array (of_items (Json.string "a" ∷ Json.string "b" ∷ []))) end))
            ∷ listed "com.echo:get_time" "Returns the current server time" (schema end end)
            ∷ [])))
        end)

-- A result with one block of text.
unfoldable pub text_result : String → Value
text_result text = object (
    field "content"
      (array (
        of_items
          (object (field "type" (Json.string "text") (field "text" (Json.string text) end)) ∷ [])))
      end)

unfoldable pub call_tool : String → String → Value → Result McpError Value
unfolding get format text_result i64_or_zero add_i64 integer_text
call_tool now tool_name arguments =
    if tool_name == "com.echo:echo"
    then ok (
        text_result
          (format ("Echo: " ∷ unwrap_or (str_of (get arguments "message")) "no message" ∷ [])))
    else if tool_name == "com.echo:add"
    then (let a = i64_or_zero (get arguments "a") in
        let b = i64_or_zero (get arguments "b") in
        ok (
          text_result (
            format
              (integer_text a ∷ " + " ∷ integer_text b ∷ " = " ∷ integer_text (add_i64 a b) ∷ []))))
    else if tool_name == "com.echo:get_time"
    then ok (text_result now)
    else err (method_not_found (format ("Echo server: unknown tool '" ∷ tool_name ∷ "'" ∷ [])))

unfoldable pub echo_call : String → Value → Result McpError Value
unfolding get call_tool
echo_call now params =
    call_tool now (unwrap_or (str_of (get params "name")) "unknown")
      (unwrap_or (get params "arguments") null)

unfoldable pub echo_result : String → String → Option Value → Result McpError Value
unfolding echo_initialize echo_tools echo_call format
echo_result now method params =
    if method == "initialize"
    then ok (echo_initialize (unwrap_or params null))
    else if method == "tools/list"
    then ok echo_tools
    else if method == "tools/call"
    then echo_call now (unwrap_or params null)
    else if method == "ping"
    then ok (object end)
    else if method == "resources/list"
    then ok (object (field "resources" (array (of_items [])) end))
    else if method == "prompts/list"
    then ok (object (field "prompts" (array (of_items [])) end))
    else err (method_not_found (format ("Echo server: unknown method '" ∷ method ∷ "'" ∷ [])))

-- `now` is the time of the call.
unfoldable pub forward_to_echo : String → JsonRpcMessage → Result McpError JsonRpcMessage
unfolding echo_result id_of method_of params_of success_response
forward_to_echo now message =
    elim (echo_result now (unwrap_or (method_of message) "") (params_of message)) [
      | ok result ↦ ok (success_response (unwrap_or (id_of message) RequestId.null) result)
      | err e ↦ err e
    ]
