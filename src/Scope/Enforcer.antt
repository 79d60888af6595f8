-- ===== src/Scope/Enforcer.antt =====
-- `ScopeEnforcer` of auth/scope.rs. A `HashSet` is a list in its order of iteration.
use mcp_shield.Prelude.{
  String, Bool, true, false, ◌||◌, ◌==◌, Option, none, some, List, [], ◌∷◌, Result, ok, err,
  contains, starts_with, if◌then◌else◌,
}
use mcp_shield.Text.Defs.{split_once, format}
use mcp_shield.Error.{McpError, scope_denied}
use mcp_shield.Message.{
  method_initialize, method_initialized, method_ping, method_tools_list, method_tools_call,
  method_resources_list, method_resources_read, method_prompts_list, method_prompts_get,
  method_sampling_create, method_shutdown,
}

abbrev pub scope_tools_read : String
scope_tools_read = "mcp:tools:read"

abbrev pub scope_tools_call : String
scope_tools_call = "mcp:tools:call"

abbrev pub scope_resources_read : String
scope_resources_read = "mcp:resources:read"

abbrev pub scope_prompts_read : String
scope_prompts_read = "mcp:prompts:read"

abbrev pub scope_admin : String
scope_admin = "mcp:admin"

abbrev pub scope_sampling : String
scope_sampling = "mcp:sampling"

pub record ScopeEnforcer : Type 0 where
  pub granted_scopes : List String
  pub permissive : Bool

unfoldable pub insert_scope : String → List String → List String
insert_scope scope scopes = if contains scopes scope then scopes else scope ∷ scopes

collect : List String → List String
collect [] = []
collect (scope ∷ scopes) = insert_scope scope (collect scopes)

unfoldable pub new : List String → ScopeEnforcer
unfolding collect insert_scope
new scopes = record { granted_scopes = collect scopes; permissive = false }

unfoldable pub allow_all : ScopeEnforcer
allow_all = record { granted_scopes = []; permissive = true }

unfoldable pub has_scope : ScopeEnforcer → String → Bool
has_scope e scope = e.permissive || contains e.granted_scopes scope

any_prefix : String → List String → Bool
any_prefix prefix [] = false
any_prefix prefix (s ∷ ss) = (starts_with s prefix || s == prefix) || any_prefix prefix ss

unfoldable pub has_scope_prefix : ScopeEnforcer → String → Bool
unfolding any_prefix
has_scope_prefix e prefix = if e.permissive then true else any_prefix prefix e.granted_scopes

unfoldable pub add_scope : String → ScopeEnforcer → ScopeEnforcer
unfolding insert_scope
add_scope scope e = record e { granted_scopes = insert_scope scope e.granted_scopes }

-- The texts of the errors.
pub list_denied : String → String
list_denied method = format (
    "Scope required to access '" ∷ method ∷ "'. Need one of: " ∷ scope_tools_read ∷ ", "
    ∷ scope_resources_read ∷ ", " ∷ scope_prompts_read ∷ [])

pub denied_to : String → String → String
denied_to scope purpose = format ("Scope '" ∷ scope ∷ "' is required " ∷ purpose ∷ [])

pub tool_denied : String → String
tool_denied tool_name = format (
    "Access to tool '" ∷ tool_name ∷ "' denied. Scope '" ∷ scope_tools_call ∷ "' or '" ∷ scope_admin
    ∷ "' is required" ∷ [])

-- One arm of the `match`: allowed if the test passes.
abbrev require : Bool → String → Result McpError (Unit {0})
require true text = ok tt
require false text = err (scope_denied text)

unfoldable pub check_method : ScopeEnforcer → String → Result McpError (Unit {0})
check_method e method =
    if e.permissive
    then ok tt
    else if method == method_initialize || method == method_initialized || method == method_ping
    then ok tt
    else if method == method_tools_list
        || method == method_resources_list
        || method == method_prompts_list
    then require
        (has_scope e scope_tools_read
          || has_scope e scope_resources_read
          || has_scope e scope_prompts_read
          || has_scope e scope_admin)
        (list_denied method)
    else if method == method_tools_call
    then require (has_scope e scope_tools_call || has_scope e scope_admin)
        (denied_to scope_tools_call "to invoke tools")
    else if method == method_resources_read
    then require (has_scope e scope_resources_read || has_scope e scope_admin)
        (denied_to scope_resources_read "to read resources")
    else if method == method_prompts_get
    then require (has_scope e scope_prompts_read || has_scope e scope_admin)
        (denied_to scope_prompts_read "to get prompts")
    else if method == method_sampling_create
    then require (has_scope e scope_sampling || has_scope e scope_admin)
        (denied_to scope_sampling "for sampling")
    else if method == method_shutdown
    then require (has_scope e scope_admin) (denied_to scope_admin "to shutdown the gateway")
    else ok tt

-- `format!("{}:{}", SCOPE_TOOLS_CALL, name)`
unfoldable pub call_scope : String → String
unfolding format
call_scope name = format (scope_tools_call ∷ ":" ∷ name ∷ [])

-- The scopes for one prefix and for one tool.
abbrev pub has_call_scope : ScopeEnforcer → String → Option (String × String) → Bool
has_call_scope e tool_name none = false
has_call_scope e tool_name (some (prefix, name)) =
    has_scope e (call_scope prefix) || has_scope e (call_scope tool_name)

unfoldable pub check_tool_access : ScopeEnforcer → String → Result McpError (Unit {0})
check_tool_access e tool_name =
    if e.permissive
    then ok tt
    else if has_scope e scope_admin
    then ok tt
    else if has_scope e scope_tools_call
    then ok tt
    else if has_call_scope e tool_name (split_once b':' tool_name)
    then ok tt
    else err (scope_denied (tool_denied tool_name))
