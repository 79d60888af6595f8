-- ===== src/Message.antt =====
-- protocol/message.rs: the definition of a tool, and the names of the MCP methods.
use mcp_shield.Prelude.{String, Bool, Option, List, [], ◌∷◌, contains}
use mcp_shield.Json.{Value}

pub record ToolAnnotations : Type 0 where
  pub read_only_hint : Option Bool
  pub destructive_hint : Option Bool
  pub idempotent_hint : Option Bool
  pub open_world_hint : Option Bool
  pub title : Option String

pub record Tool : Type 0 where
  pub name : String
  pub description : Option String
  pub input_schema : Value
  pub annotations : Option ToolAnnotations

-- The methods of MCP.
abbrev pub method_initialize : String
method_initialize = "initialize"

abbrev pub method_initialized : String
method_initialized = "notifications/initialized"

abbrev pub method_ping : String
method_ping = "ping"

abbrev pub method_tools_list : String
method_tools_list = "tools/list"

abbrev pub method_tools_call : String
method_tools_call = "tools/call"

abbrev pub method_resources_list : String
method_resources_list = "resources/list"

abbrev pub method_resources_read : String
method_resources_read = "resources/read"

abbrev pub method_prompts_list : String
method_prompts_list = "prompts/list"

abbrev pub method_prompts_get : String
method_prompts_get = "prompts/get"

abbrev pub method_logging : String
method_logging = "notifications/message"

abbrev pub method_progress : String
method_progress = "notifications/progress"

abbrev pub method_tools_list_changed : String
method_tools_list_changed = "notifications/tools/list_changed"

abbrev pub method_resources_list_changed : String
method_resources_list_changed = "notifications/resources/list_changed"

abbrev pub method_prompts_list_changed : String
method_prompts_list_changed = "notifications/prompts/list_changed"

abbrev pub method_completion_complete : String
method_completion_complete = "completion/complete"

abbrev pub method_sampling_create : String
method_sampling_create = "sampling/createMessage"

abbrev pub method_shutdown : String
method_shutdown = "shutdown"

abbrev pub method_exited : String
method_exited = "notifications/exited"

unfoldable pub valid_methods : List String
valid_methods =
    method_initialize ∷ method_initialized ∷ method_ping ∷ method_tools_list ∷ method_tools_call
    ∷ method_resources_list ∷ method_resources_read ∷ method_prompts_list ∷ method_prompts_get
    ∷ method_logging ∷ method_progress ∷ method_tools_list_changed ∷ method_resources_list_changed
    ∷ method_prompts_list_changed ∷ method_completion_complete ∷ method_sampling_create
    ∷ method_shutdown ∷ method_exited ∷ []

unfoldable pub is_valid_method : String → Bool
unfolding valid_methods
is_valid_method method = contains valid_methods method
