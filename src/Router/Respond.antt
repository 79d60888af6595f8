-- ===== src/Router/Respond.antt =====
-- The values that gateway/router.rs answers with: the written form of tools, and the handshake.
use mcp_shield.Json
use mcp_shield.Prelude.{String, true, ◌==◌, Option, none, some, Result, err, if◌then◌else◌}
use mcp_shield.Json.{
  Value, ℤ, negsuc, array, object, bool, end, field, get, put, str_of, Fields, of_items,
}
use mcp_shield.Error.{McpError, invalid_request}
use mcp_shield.Message.{Tool, ToolAnnotations, method_initialized, method_exited}
use mcp_shield.JsonRpc.Message.{JsonRpcMessage}

-- `#[serde(skip_serializing_if = "Option::is_none")]`
abbrev optional {ℓ} : {A : Type ℓ} → String → (A → Value) → Option A → Fields → Fields
optional key write none fields = fields
optional key write (some a) fields = field key (write a) fields

annotations_value : ToolAnnotations → Value
annotations_value a = object (
    optional "readOnlyHint" bool a.read_only_hint (
      optional "destructiveHint" bool a.destructive_hint (
        optional "idempotentHint" bool a.idempotent_hint (
          optional "openWorldHint" bool a.open_world_hint
            (optional "title" Json.string a.title end)))))

unfoldable pub tool_value : Tool → Value
unfolding annotations_value
tool_value t = object (
    field "name" (Json.string t.name) (
      optional "description" Json.string t.description (
        field "inputSchema" t.input_schema
          (optional "annotations" annotations_value t.annotations end))))

-- The arguments of `initialize` when it has none.
abbrev pub default_initialize : Value
default_initialize = object (
    field "protocolVersion" (Json.string "2025-03-26") (
      field "capabilities" (object end) (
        field "clientInfo"
          (object
            (field "name" (Json.string "unknown") (field "version" (Json.string "0.0.0") end)))
          end)))

abbrev instructions : String
instructions =
    "MCP-Shield security gateway. All requests are validated, authenticated, and authorized."

abbrev pub initialize_result : String → String → Value
initialize_result name version = object (
    field "protocolVersion" (Json.string "2025-03-26") (
      field "capabilities"
        (object (
          field "tools" (object (field "listChanged" (bool true) end))
            (field "resources" (object end) (field "prompts" (object end) end))))
        (field "serverInfo"
          (object (field "name" (Json.string name) (field "version" (Json.string version) end)))
          (field "instructions" (Json.string instructions) end))))

-- A notification is never answered.
unfoldable pub handle_notification : String → Result McpError JsonRpcMessage
handle_notification method =
    if method == method_initialized
    then err (
        invalid_request
          "notifications/initialized is a notification and should not receive a response")
    else if method == method_exited
    then err
        (invalid_request "notifications/exited is a notification and should not receive a response")
    else err (invalid_request "Notification should not receive a response")
