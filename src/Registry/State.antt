-- ===== src/Registry/State.antt =====
-- `ToolRegistry` of gateway/registry.rs. Each method holds the lock from its first access to its
-- last, so it is one step from a state to a state and a result.
use mcp_shield.Prelude.{
  ℕ, String, Bool, true, not, ◌&&◌, ◌||◌, Option, none, some, List, [], ◌∷◌, ◌++◌, Result, ok, err,
  ◌>>=◌, ◌>>◌, guard, length, is_empty, contains, unwrap_or, if◌then◌else◌,
}
use mcp_shield.Text.Defs.{contains_char}
use mcp_shield.Dict.{Dict, lookup, insert, remove}
use mcp_shield.Error.{McpError}
use mcp_shield.Message.{Tool}
use mcp_shield.Registry.Errors.{prefix_not_allowed, collision, ambiguous}
use mcp_shield.Registry.Name.{parse_tool_name, qualify}

pub record RegisteredTool : Type 0 where
  pub qualified_name : String
  pub prefix : String
  pub name : String
  pub tool : Tool
  pub server_id : String
  pub registered_at : ℕ

pub record Registry : Type 0 where
  pub tools : Dict RegisteredTool
  pub by_server : Dict (List String)
  pub enforce_prefix_format : Bool
  pub allowed_prefixes : List String

abbrev pub with_config : Bool → List String → Registry
with_config enforce allowed = record {
  tools = [];
  by_server = [];
  enforce_prefix_format = enforce;
  allowed_prefixes = allowed;
}

abbrev pub new : Registry
new = with_config true []

-- The names that a server has registered; none, if it is not a key.
abbrev pub names_of : String → Dict (List String) → List String
names_of server by_server = unwrap_or (lookup server by_server) []

no_collision : String → String → Option RegisteredTool → Result McpError (Unit {0})
no_collision qualified_name server_id none = ok tt
no_collision qualified_name server_id (some existing) =
    err (collision qualified_name existing.server_id server_id)

-- The checks of `register_tool`, in their order.
unfoldable pub admit : Tool → String → Registry → Result McpError (String × String)
unfolding no_collision
admit tool server_id r = do
  (prefix, name) ← parse_tool_name tool.name r.enforce_prefix_format
  guard (is_empty r.allowed_prefixes || contains r.allowed_prefixes prefix)
      (prefix_not_allowed prefix)
  no_collision (qualify prefix name) server_id (lookup (qualify prefix name) r.tools)
  ok (prefix, name)

abbrev pub entry : Tool → String → ℕ → String → String → RegisteredTool
entry tool server_id now prefix name = record {
  qualified_name = qualify prefix name;
  prefix = prefix;
  name = name;
  tool = tool;
  server_id = server_id;
  registered_at = now;
}

-- What `register_tool` writes once the checks have passed.
unfoldable pub commit : Tool → String → ℕ → Registry → String × String → Registry
commit tool server_id now r (prefix, name) = record r {
  by_server =
      insert server_id (names_of server_id r.by_server ++ qualify prefix name ∷ []) r.by_server;
  tools = insert (qualify prefix name) (entry tool server_id now prefix name) r.tools;
}

unfoldable pub register_tool : Tool → String → ℕ → Registry → Registry × Result McpError (Unit {0})
unfolding admit commit
register_tool tool server_id now r = elim (admit tool server_id r) [
  | ok names ↦ (commit tool server_id now r names, ok tt)
  | err e ↦ (r, err e)
]

unfoldable pub lookup_tool : String → Registry → Option RegisteredTool
lookup_tool qualified_name r = lookup qualified_name r.tools

unfoldable pub lookup_any : String → Registry → Result McpError (Option RegisteredTool)
unfolding lookup_tool
lookup_any name r = elim (lookup_tool name r) [
  | some tool ↦ ok (some tool)
  | none ↦
      if contains_char b'_' name && not (contains_char b':' name)
      then err (ambiguous name)
      else ok none
]

values : Dict RegisteredTool → List Tool
values [] = []
values ((k, t) ∷ m) = t.tool ∷ values m

unfoldable pub list_tools : Registry → List Tool
unfolding values
list_tools r = values r.tools

resolve : Dict RegisteredTool → List String → List Tool
resolve tools [] = []
resolve tools (name ∷ names) =
    let rest = resolve tools names in
    elim (lookup name tools) [ some t ↦ t.tool ∷ rest | none ↦ rest ]

unfoldable pub list_tools_by_server : String → Registry → List Tool
unfolding resolve
list_tools_by_server server_id r = resolve r.tools (names_of server_id r.by_server)

-- `for name in &names { tools.remove(name); }`
unfoldable pub remove_all : List String → Dict RegisteredTool → Dict RegisteredTool
remove_all [] tools = tools
remove_all (name ∷ names) tools = remove_all names (remove name tools)

unfoldable pub unregister_server : String → Registry → Registry × ℕ
unfolding remove_all
unregister_server server_id r = elim (lookup server_id r.by_server) [
  | some names ↦ (
    record r { by_server = remove server_id r.by_server; tools = remove_all names r.tools },
    length names,
  )
  | none ↦ (r, 0)
]

unfoldable pub count : Registry → ℕ
count r = length r.tools

unfoldable pub clear : Registry → Registry
clear r = record r { tools = []; by_server = [] }
