-- ===== src/Egress/Inspector.antt =====
-- `PatternEgressInspector` and `StubEgressInspector` of guardrail/egress.rs, over the regular
-- expressions of a library.
use mcp_shield.Prelude.{
  ℕ, suc, String, false, not, ◌||◌, ◌==◌, Option, none, some, List, [], ◌∷◌, ◌++◌, Result, ok,
  is_empty,
}
use mcp_shield.Text.Defs.{format, take_chars}
use mcp_shield.Json.{Value, string, get, put, as_str, str_of}
use mcp_shield.Error.{number_text}
use mcp_shield.Egress.Defs.{
  InspectableResult, PatternType, system_override, data_exfiltration, hidden_instruction,
  tool_invocation, suspicious_url, InjectionPattern, InspectionResult,
}

-- `Regex`: the matches in a text, each with its first byte, and the text with all of them replaced.
pub record Regex : Type 0 where
  pub find_iter : String → List (ℕ × String)
  pub replace_all : String → String → String

pub record PatternEgressInspector : Type 0 where
  pub patterns : List (PatternType × Regex)
  pub replacement : String

-- `new`, given `Regex::new`.
unfoldable pub new_patterns : (String → Regex) → List (PatternType × Regex)
new_patterns compile =
    (system_override, compile "(?i)\\[system\\]:?")
    ∷ (system_override, compile "(?i)<\\s*system\\s*>")
    ∷ (system_override, compile "(?i)ignore\\s+(?:previous|all|above)\\s+instructions?")
    ∷ (system_override, compile "(?i)forget\\s+(?:previous|all|above)\\s+instructions?")
    ∷ (system_override, compile "(?i)disregard\\s+(?:previous|all|above)\\s+instructions?")
    ∷ (system_override, compile "(?i)you\\s+are\\s+now\\s+(?:a|an)\\s+")
    ∷ (system_override, compile "(?i)act\\s+as\\s+(?:a|an)\\s+")
    ∷ (data_exfiltration, compile "(?i)send\\s+(?:to|data\\s+to)\\s+[\\w\\.-]+@[\\w\\.-]+")
    ∷ (data_exfiltration, compile "(?i)exfiltrate\\s+(?:data|information)")
    ∷ (data_exfiltration, compile "(?i)post\\s+(?:to|data\\s+to)\\s+https?://")
    ∷ (data_exfiltration, compile "(?i)upload\\s+(?:to|data\\s+to)\\s+")
    ∷ (data_exfiltration, compile "(?i)leak\\s+(?:data|secrets|keys)")
    ∷ (
      data_exfiltration,
      compile
          "(?i)(?:send|upload|post|exfiltrate)\\s+(?:data|keys|secrets|information|the\\s+\\w+\\s+\\w+)?\\s+(?:to|into)\\s+https?://",
    )
    ∷ (hidden_instruction, compile "<!--\\s*[^>]*-->?")
    ∷ (hidden_instruction, compile "/\\*\\s*[^*]*\\*/")
    ∷ (hidden_instruction, compile "[\\u200B-\\u200D\\uFEFF]")
    ∷ (hidden_instruction, compile "(?i)style\\s*=\\s*[\"']display:\\s*none[\"']")
    ∷ (tool_invocation, compile "(?i)<\\s*(?:execute|use_tool|invoke|function|tool)\\s*>")
    ∷ (tool_invocation, compile "(?i)\\{\\s*[\"']tool[\"']\\s*:\\s*[\"']\\w+[\"']\\s*\\}")
    ∷ (tool_invocation, compile "(?i)function_call\\s*:\\s*\\{\\s*[\"']name[\"']")
    ∷ (
      suspicious_url,
      compile
          "(?i)(?:pastebin|ghostbin|hastebin|dpaste|gist\\.github|raw\\.githubusercontent)\\.com",
    )
    ∷ (suspicious_url, compile "(?i)(?:bit\\.ly|tinyurl|t\\.co|goo\\.gl|ow\\.ly)/\\w+")
    ∷ (suspicious_url, compile "(?i)https?://[^/]*\\.(?:xyz|top|club|online|site|info)/")
    ∷ []

unfoldable pub new : (String → Regex) → PatternEgressInspector
unfolding new_patterns
new compile = record {
  patterns = new_patterns compile;
  replacement = "[REDACTED: Potential prompt injection detected]";
}

unfoldable pub with_patterns :
    (String → Regex) → List (PatternType × Regex) → String → PatternEgressInspector
unfolding new
with_patterns compile patterns replacement = record {
  patterns = (new compile).patterns ++ patterns;
  replacement = replacement;
}

unfoldable pub detection : PatternType → ℕ → ℕ × String → InjectionPattern
unfolding take_chars format number_text
detection pattern_type block_idx mat = record {
  pattern_type = pattern_type;
  location = format ("block[" ∷ number_text block_idx ∷ "]:" ∷ number_text mat.0 ∷ []);
  snippet = take_chars 100 mat.1;
}

-- The loop over the matches of one pattern: a match adds a detection, and replaces all over again.
unfoldable pub inspect_matches :
    PatternType
    → Regex
    → String
    → ℕ
    → List (ℕ × String)
    → List InjectionPattern × String
    → List InjectionPattern × String
unfolding detection
inspect_matches pattern_type regex replacement idx [] found = found
inspect_matches pattern_type regex replacement idx (mat ∷ mats) found =
    inspect_matches pattern_type regex replacement idx mats
      (found.0 ++ detection pattern_type idx mat ∷ [], regex.replace_all found.1 replacement)

unfoldable pub inspect_patterns :
    String
    → String
    → ℕ
    → List (PatternType × Regex)
    → List InjectionPattern × String
    → List InjectionPattern × String
unfolding inspect_matches
inspect_patterns replacement text idx [] found = found
inspect_patterns replacement text idx (p ∷ patterns) found =
    inspect_patterns replacement text idx patterns
      (inspect_matches p.0 p.1 replacement idx (p.1.find_iter text) found)

unfoldable pub inspect_text : PatternEgressInspector → String → ℕ → List InjectionPattern × String
unfolding inspect_patterns
inspect_text i text block_idx = inspect_patterns i.replacement text block_idx i.patterns ([], text)

-- The text of a block: its field, or the block itself.
unfoldable pub text_of : Value → Option String
unfolding get
text_of block = elim (str_of (get block "text")) [ some text ↦ some text | none ↦ as_str block ]

-- `if let Some(text_field) = new_block.get_mut("text")`
unfoldable pub with_text : Value → String → Value
unfolding get put
with_text block text = elim (get block "text") [
  | some _ ↦ put block "text" (string text)
  | none ↦ block
]

-- One round of the loop of `sanitize_response`.
unfoldable pub sanitize_block :
    PatternEgressInspector → ℕ → Value → InspectionResult → InspectionResult
unfolding text_of inspect_text with_text
sanitize_block i idx block r = elim (text_of block) [
  | none ↦ record r { sanitized_content = r.sanitized_content ++ block ∷ [] }
  | some text ↦
      let (detected, sanitized_text) = inspect_text i text idx in
      record {
        modified = r.modified || not (is_empty detected) || not (sanitized_text == text);
        sanitized_content = r.sanitized_content ++ with_text block sanitized_text ∷ [];
        detected_patterns = r.detected_patterns ++ detected;
      }
]

unfoldable pub sanitize_blocks :
    PatternEgressInspector → ℕ → List Value → InspectionResult → InspectionResult
unfolding sanitize_block
sanitize_blocks i idx [] r = r
sanitize_blocks i idx (block ∷ blocks) r =
    sanitize_blocks i (suc idx) blocks (sanitize_block i idx block r)

unfoldable pub sanitize_response :
    PatternEgressInspector → InspectableResult → Result String InspectionResult
unfolding sanitize_blocks
sanitize_response i result = ok (
    sanitize_blocks i 0 result.content
      (record { modified = false; sanitized_content = []; detected_patterns = [] }))

-- `StubEgressInspector`
unfoldable pub sanitize_nothing : InspectableResult → Result String InspectionResult
sanitize_nothing result =
    ok (record { modified = false; sanitized_content = result.content; detected_patterns = [] })
