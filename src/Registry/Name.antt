-- ===== src/Registry/Name.antt =====
-- `parse_tool_name` of gateway/registry.rs.
use mcp_shield.Prelude.{
  ℕ, String, Bool, not, ◌&&◌, ◌||◌, ◌==◌, [], ◌∷◌, Result, ok, ◌>>=◌, ◌>>◌, guard, ok_or, leb, eqb,
  true, false,
}
use mcp_shield.Text.Defs.{
  split_once, trim, contains_char, all_chars, format, byte_len, is_ascii_lowercase, is_ascii_digit,
}
use mcp_shield.Error.{McpError}
use mcp_shield.Registry.Errors.{
  unqualified, empty_prefix, empty_name, no_dot, bad_prefix, bad_length, bad_name,
}

abbrev pub max_tool_name_length : ℕ
max_tool_name_length = 128

abbrev pub min_tool_name_length : ℕ
min_tool_name_length = 1

-- The characters of a prefix and of a name.
unfoldable pub is_prefix_char : ℕ → Bool
is_prefix_char c = is_ascii_lowercase c || is_ascii_digit c || eqb c b'-' || eqb c b'.'

unfoldable pub is_name_char : ℕ → Bool
is_name_char c = is_ascii_lowercase c || is_ascii_digit c || eqb c b'_'

-- The block under `if enforce_prefix`.
unfoldable pub check_prefix : Bool → String → Result McpError (Unit {0})
check_prefix false prefix = ok tt
check_prefix true prefix = do
  guard (contains_char b'.' prefix) (no_dot prefix)
  guard (all_chars is_prefix_char prefix) (bad_prefix prefix)

-- What follows the split, over the trimmed parts.
unfoldable pub check_parts : Bool → String → String → Result McpError (String × String)
unfolding check_prefix
check_parts enforce_prefix prefix name = do
  guard (not (prefix == "")) empty_prefix
  guard (not (name == "")) empty_name
  check_prefix enforce_prefix prefix
  guard (leb min_tool_name_length (byte_len name) && leb (byte_len name) max_tool_name_length)
      (bad_length name)
  guard (all_chars is_name_char name) (bad_name name)
  ok (prefix, name)

unfoldable pub parse_tool_name : String → Bool → Result McpError (String × String)
unfolding check_parts split_once
parse_tool_name raw_name enforce_prefix = do
  parts ← ok_or (split_once b':' raw_name) (unqualified raw_name)
  check_parts enforce_prefix (trim parts.0) (trim parts.1)

-- `format!("{}:{}", prefix, name)`
unfoldable pub qualify : String → String → String
unfolding format
qualify prefix name = format (prefix ∷ ":" ∷ name ∷ [])
