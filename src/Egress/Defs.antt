-- ===== src/Egress/Defs.antt =====
-- The values of guardrail/egress.rs.
use mcp_shield.Prelude.{String, Bool, List}
use mcp_shield.Json.{Value}

pub record InspectableResult : Type 0 where
  pub tool_name : String
  pub content : List Value
  pub server_id : String

pub data PatternType : Type 0 where
  system_override data_exfiltration hidden_instruction : PatternType
  tool_invocation suspicious_url : PatternType

pub record InjectionPattern : Type 0 where
  pub pattern_type : PatternType
  pub location : String
  pub snippet : String

pub record InspectionResult : Type 0 where
  pub modified : Bool
  pub sanitized_content : List Value
  pub detected_patterns : List InjectionPattern
