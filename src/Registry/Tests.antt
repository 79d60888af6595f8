-- ===== src/Registry/Tests.antt =====
-- Runs of the registry, and its theorems at them.
use mcp_shield.Prelude.{String, ◌≡◌, ◌≢◌, ◌↔◌, refl, true, some, none, [], ok, err, eq_iff}
use mcp_shield.Text.Defs.{byte_len, is_whitespace, all_chars, contains_char, trim}
use mcp_shield.Dict.{lookup, insert, remove}
use mcp_shield.Json.{object, end, field, string}
use mcp_shield.Message.{Tool}
use mcp_shield.Registry.Errors.{collision}
use mcp_shield.Registry.Name.{is_prefix_char, is_name_char, parse_tool_name, qualify}
use mcp_shield.Registry.Canonical.{
  IsCanonical, parse_tool_name-IsCanonical, parse_tool_name-qualify,
}
use mcp_shield.Registry.State.{
  RegisteredTool, Registry, new, entry, register_tool, unregister_server, lookup_any, list_tools,
  list_tools_by_server, clear, count,
}
use mcp_shield.Registry.Index.{IsIndexed, Admitted, IsIndexed-with_config, register_tool-IsIndexed}
use mcp_shield.Registry.Ownership.{
  register_tool-eq-ok_iff, unregister_server_iff, here, next, Step, Reach-with_config-IsIndexed,
  Foreign, no_hijacking,
}

machine : Unit {0}
unfolding register_tool unregister_server lookup_any list_tools list_tools_by_server clear count
    lookup insert remove parse_tool_name qualify is_prefix_char is_name_char all_chars contains_char
    trim is_whitespace byte_len
machine = tt

abbrev make_tool : String → Tool
make_tool name = record {
  name = name;
  description = none;
  input_schema = object (field "type" (string "object") end);
  annotations = none;
}

abbrev one_tool : Registry
one_tool = (register_tool (make_tool "com.example:echo") "server-1" 7 new).0

abbrev echo_entry : RegisteredTool
echo_entry = entry (make_tool "com.example:echo") "server-1" 7 "com.example" "echo"

one_tool-IsIndexed : IsIndexed one_tool
one_tool-IsIndexed =
    register_tool-IsIndexed (make_tool "com.example:echo") "server-1" 7 new
      (IsIndexed-with_config true [])

parsed : parse_tool_name " com.example : echo " true ≡ ok ("com.example", "echo")
unfolding machine
parsed = refl

found : lookup "com.example:echo" one_tool.tools ≡ some echo_entry
unfolding machine
found = refl

rejected :
    (register_tool (make_tool "com.example:echo") "server-2" 8 one_tool).1
    ≡ err (collision "com.example:echo" "server-1" "server-2")
unfolding machine
rejected = refl

removed : (unregister_server "server-1" one_tool).1 ≡ 1
unfolding machine
removed = refl

parse_tool_name-IsCanonical_example : IsCanonical true "com.example" "echo"
parse_tool_name-IsCanonical_example = parse_tool_name-IsCanonical " com.example : echo " true parsed

parse_tool_name-qualify_example :
    parse_tool_name (qualify "com.example" "echo") true ≡ ok ("com.example", "echo")
parse_tool_name-qualify_example =
    parse_tool_name-qualify " com.example : echo " true "com.example" "echo" parsed

register_tool-eq-ok_iff_example :
    ((register_tool (make_tool "com.example:echo") "server-1" 7 new).1 ≡ ok tt)
    ↔ ((p : String) × (n : String) × Admitted (make_tool "com.example:echo") new p n)
register_tool-eq-ok_iff_example =
    register_tool-eq-ok_iff (make_tool "com.example:echo") "server-1" 7 new

unregister_server_iff_example :
    (lookup "com.example:echo" (unregister_server "server-2" one_tool).0.tools ≡ some echo_entry)
    ↔ ((lookup "com.example:echo" one_tool.tools ≡ some echo_entry)
        × (echo_entry.server_id ≢ "server-2"))
unregister_server_iff_example =
    unregister_server_iff "server-2" one_tool one_tool-IsIndexed "com.example:echo" echo_entry

Reach-with_config-IsIndexed_example : IsIndexed one_tool
Reach-with_config-IsIndexed_example =
    Reach-with_config-IsIndexed true []
      (next here (Step.register new (make_tool "com.example:echo") "server-1" 7))

not_the_owner : ◌≢◌ {A = String} "server-2" "server-1"
not_the_owner e = cc ((eq_iff "server-2" "server-1").1 e)

no_hijacking_example :
    lookup "com.example:echo"
      (unregister_server "server-2"
        (register_tool (make_tool "com.example:echo") "server-2" 8 one_tool).0).0.tools
    ≡ some echo_entry
no_hijacking_example =
    no_hijacking "server-1" one_tool _ "com.example:echo" echo_entry one_tool-IsIndexed found refl (
      Foreign.unregister "server-2" not_the_owner
        (Foreign.register (make_tool "com.example:echo") "server-2" 8 (Foreign.stay one_tool)))
