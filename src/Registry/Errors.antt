-- ===== src/Registry/Errors.antt =====
-- The errors of gateway/registry.rs, with their texts.
use mcp_shield.Prelude.{String, [], ◌∷◌}
use mcp_shield.Text.Defs.{format}
use mcp_shield.Error.{McpError, registry_collision}

pub unqualified : String → McpError
unqualified raw = registry_collision (
    format (
      "Tool name '" ∷ raw
      ∷ "' must use qualified format 'prefix:name' (e.g., 'com.example:search'). "
      ∷ "Underscore-only concatenation is not allowed." ∷ []))

pub empty_prefix : McpError
empty_prefix = registry_collision "Tool prefix cannot be empty"

pub empty_name : McpError
empty_name = registry_collision "Tool name within prefix cannot be empty"

pub no_dot : String → McpError
no_dot prefix = registry_collision (
    format (
      "Tool prefix '" ∷ prefix ∷ "' must contain at least one dot "
      ∷ "(reverse DNS format, e.g., 'com.example')" ∷ []))

pub bad_prefix : String → McpError
bad_prefix prefix = registry_collision (
    format (
      "Tool prefix '" ∷ prefix ∷ "' contains invalid characters. "
      ∷ "Use only lowercase letters, digits, hyphens, and dots." ∷ []))

pub bad_length : String → McpError
bad_length name =
    registry_collision
      (format ("Tool name '" ∷ name ∷ "' length must be between 1 and 128 characters" ∷ []))

pub bad_name : String → McpError
bad_name name = registry_collision (
    format (
      "Tool name '" ∷ name ∷ "' contains invalid characters. "
      ∷ "Use only lowercase letters, digits, and underscores." ∷ []))

pub prefix_not_allowed : String → McpError
prefix_not_allowed prefix =
    registry_collision
      (format ("Tool prefix '" ∷ prefix ∷ "' is not in the allowed prefixes list" ∷ []))

pub collision : String → String → String → McpError
collision qualified_name existing_server server_id = registry_collision (
    format (
      "Tool name collision: '" ∷ qualified_name ∷ "' is already registered by server '"
      ∷ existing_server ∷ "'. Rejecting registration from server '" ∷ server_id
      ∷ "'. This prevents potential tool hijacking attacks." ∷ []))

pub ambiguous : String → McpError
ambiguous name = registry_collision (
    format (
      "Ambiguous tool name '" ∷ name ∷ "' uses underscore concatenation without a colon separator. "
      ∷ "This format is not allowed as it can be exploited for tool name collision attacks. "
      ∷ "Use the qualified format 'prefix:name' instead (e.g., 'com.example:tool_name')." ∷ []))
