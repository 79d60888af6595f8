-- ===== src/Egress/Tests.antt =====
-- Runs of the egress inspector, and its theorem at one of them.
use mcp_shield.Prelude.{String, ◌≡◌, refl, ◌⊎◌, true, not, List, [], ◌∷◌, ok, ◌==◌, if◌then◌else◌}
use mcp_shield.Json.{Value, field, end, object, string}
use mcp_shield.Egress.Defs.{InspectableResult, InspectionResult, hidden_instruction}
use mcp_shield.Egress.Inspector.{Regex, PatternEgressInspector, sanitize_response}
use mcp_shield.Egress.Clean.{clean, sanitize_response-clean}

machine : Unit {0}
unfolding sanitize_response
machine = tt

-- An expression that matches whole texts.
abbrev whole : String → Regex
whole text = record {
  find_iter = λ s. if s == text then (0, text) ∷ [] else [];
  replace_all = λ s replacement. if s == text then replacement else s;
}

abbrev inspector : PatternEgressInspector
inspector = record {
  patterns = (hidden_instruction, whole "<!-- x -->") ∷ [];
  replacement = "[REDACTED]";
}

abbrev block : String → Value
block text = object (field "text" (string text) end)

abbrev answer : List Value → InspectableResult
answer blocks = record { tool_name = "com.example:echo"; content = blocks; server_id = "server" }

abbrev found : InspectionResult
found = record {
  modified = true;
  sanitized_content = block "hello" ∷ block "[REDACTED]" ∷ [];
  detected_patterns =
      (record {
        pattern_type = hidden_instruction;
        location = "block[1]:0";
        snippet = "<!-- x -->";
      })
      ∷ [];
}

redacts : sanitize_response inspector (answer (block "hello" ∷ block "<!-- x -->" ∷ [])) ≡ ok found
unfolding machine
redacts = refl

-- The text of a bare string is flagged and not redacted.
keeps_strings :
    sanitize_response inspector (answer (string "<!-- x -->" ∷ []))
    ≡ ok (record {
      modified = true;
      sanitized_content = string "<!-- x -->" ∷ [];
      detected_patterns =
          (record {
            pattern_type = hidden_instruction;
            location = "block[0]:0";
            snippet = "<!-- x -->";
          })
          ∷ [];
    })
unfolding machine
keeps_strings = refl

sanitize_response-clean_example :
    (r : InspectionResult) × (sanitize_response inspector
        (answer (block "hello" ∷ string "<!-- x -->" ∷ []))
      ≡ ok r)
    × (r.modified ≡ not (clean inspector (block "hello" ∷ string "<!-- x -->" ∷ [])))
    × ((r.modified ≡ true)
        ⊎ ((r.sanitized_content ≡ block "hello" ∷ string "<!-- x -->" ∷ [])
            × (r.detected_patterns ≡ [])))
sanitize_response-clean_example =
    sanitize_response-clean inspector (answer (block "hello" ∷ string "<!-- x -->" ∷ []))
