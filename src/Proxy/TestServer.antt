-- ===== src/Proxy/TestServer.antt =====
-- `EchoServer` of test_server/echo.rs, whose tools the gateway registers.
use mcp_shield.Json
use mcp_shield.Prelude.{
  String, true, false, Bool, Option, none, some, List, [], ◌∷◌, Result, ok, err, ok_or, ◌==◌, ◌>>=◌,
  if◌then◌else◌,
}
use mcp_shield.Text.Defs.{format}
use mcp_shield.Json.{ℤ, Value, Fields, bool, array, object, end, field, get, str_of, of_items, null}
use mcp_shield.Error.{integer_text}
use mcp_shield.Message.{Tool, ToolAnnotations}
use mcp_shield.Proxy.Number.{as_i64, add_i64}
use mcp_shield.Proxy.Echo.{text_result}

abbrev described : String → String → Value
described type_name description =
    object
      (field "type" (Json.string type_name) (field "description" (Json.string description) end))

abbrev hints : Bool → String → Option ToolAnnotations
hints idempotent title = some (record {
  read_only_hint = some true;
  destructive_hint = some false;
  idempotent_hint = some idempotent;
  open_world_hint = some false;
  title = some title;
})

abbrev echo_tool : Tool
echo_tool = record {
  name = "com.echo:echo";
  description = some "Echoes back the input message as text.";
  input_schema = object (
      field "type" (Json.string "object") (
        field "properties"
          (object (field "message" (described "string" "The message to echo back") end))
          (field "required" (array (of_items (Json.string "message" ∷ []))) end)));
  annotations = hints true "Echo";
}

abbrev add_tool : Tool
add_tool = record {
  name = "com.echo:add";
  description = some "Adds two integers and returns the sum.";
  input_schema = object (
      field "type" (Json.string "object") (
        field "properties"
          (object (
            field "a" (described "integer" "First addend")
              (field "b" (described "integer" "Second addend") end)))
          (field "required" (array (of_items (Json.string "a" ∷ Json.string "b" ∷ []))) end)));
  annotations = hints true "Add";
}

abbrev get_time_tool : Tool
get_time_tool = record {
  name = "com.echo:get_time";
  description = some "Returns the current server time in RFC 3339 format.";
  input_schema = object (
      field "type" (Json.string "object")
        (field "properties" (object end) (field "additionalProperties" (bool false) end)));
  annotations = hints false "Get Time";
}

abbrev uppercase_tool : Tool
uppercase_tool = record {
  name = "com.echo:uppercase";
  description = some "Converts a string to uppercase.";
  input_schema = object (
      field "type" (Json.string "object") (
        field "properties" (object (field "text" (described "string" "The text to convert") end))
          (field "required" (array (of_items (Json.string "text" ∷ []))) end)));
  annotations = hints true "Uppercase";
}

unfoldable pub list_tools : List Tool
list_tools = echo_tool ∷ add_tool ∷ get_time_tool ∷ uppercase_tool ∷ []

-- `v.and_then(|v| v.as_i64())`
abbrev pub i64_of : Option Value → Option ℤ
i64_of none = none
i64_of (some v) = as_i64 v

-- `to_uppercase` is that of `str`, and `now` the time of the call.
unfoldable pub handle_tool_call : (String → String) → String → String → Value → Result String Value
unfolding get format text_result add_i64 integer_text
handle_tool_call to_uppercase now name arguments =
    if name == "com.echo:echo"
    then (ok_or (str_of (get arguments "message")) "Missing required argument 'message'"
        >>= (λ message. ok (text_result (format ("Echo: " ∷ message ∷ [])))))
    else if name == "com.echo:add"
    then (ok_or (i64_of (get arguments "a")) "Missing required argument 'a'" >>= (λ a.
        ok_or (i64_of (get arguments "b")) "Missing required argument 'b'" >>= (λ b. ok (
          text_result (
            format (
              integer_text a
              ∷ " + "
              ∷ integer_text b
              ∷ " = "
              ∷ integer_text (add_i64 a b)
              ∷ []))))))
    else if name == "com.echo:get_time"
    then ok (text_result now)
    else if name == "com.echo:uppercase"
    then (ok_or (str_of (get arguments "text")) "Missing required argument 'text'"
        >>= (λ text. ok (text_result (to_uppercase text))))
    else err (format ("Unknown tool: " ∷ name ∷ []))
