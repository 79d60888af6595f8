-- ===== src/Schema/Validator.antt =====
-- `SchemaValidator` of protocol/schema.rs. The `jsonschema` crate and the printer of `serde_json` are
-- parameters.
use mcp_shield.Prelude.{
  ℕ, String, Bool, true, Option, none, some, List, [], ◌∷◌, Result, ok, err, length, ltb, ◌==◌,
  contains, ◌||◌, is_some, map, if◌then◌else◌,
}
use mcp_shield.Text.Defs.{format, join, byte_len, slice_to}
use mcp_shield.Dict.{Dict, lookup, insert}
use mcp_shield.Json.{Value, get, str_of}
use mcp_shield.Error.{McpError, invalid_params, schema_invalid}

-- `jsonschema::validator_for` and `Validator::validate`, whose errors are pairs of the instance's
-- path and a text, and `serde_json::to_string`.
pub record Engine (V : Type 0) : Type 0 where
  pub compile : Value → Result String V
  pub check : V → Value → Result (List (String × String)) (Unit {0})
  pub serialize : Value → String

abbrev pub supported_dialects : List String
supported_dialects =
    "https://json-schema.org/draft/2020-12/schema" ∷ "http://json-schema.org/draft/2020-12/schema"
    ∷ []

abbrev dialect_verdict : Option String → Result McpError (Unit {0})
dialect_verdict none = ok tt
dialect_verdict (some dialect) =
    if contains supported_dialects dialect || dialect == ""
    then ok tt
    else err (
        schema_invalid (
          format (
            "Unsupported JSON Schema dialect: \"" ∷ dialect
            ∷ "\". MCP-Shield supports JSON Schema 2020-12 (draft/2020-12). Attempting best-effort validation."
            ∷ [])))

unfoldable pub check_dialect : Value → Result McpError (Unit {0})
check_dialect schema = dialect_verdict (str_of (get schema "$schema"))

unfoldable pub is_draft_2020_12_compatible : Value → Bool
is_draft_2020_12_compatible schema = elim (str_of (get schema "$schema")) [
  | some dialect ↦ contains supported_dialects dialect
  | none ↦ true
]

abbrev pub detail : String × String → String
detail (path, text) = if path == "" then text else format (path ∷ ": " ∷ text ∷ [])

-- The key of a text: all of it, or its first 1024 bytes.
unfoldable pub key_of : String → Option String
unfolding slice_to format
key_of json =
    if ltb 1024 (byte_len json)
    then elim (slice_to 1024 json) [ none ↦ none | some s ↦ some (format ("schema:" ∷ s ∷ [])) ]
    else some (format ("schema:" ∷ json ∷ []))

module _ {V : Type 0} (e : Engine V) where
  unfoldable pub schema_key : Value → Option String
  schema_key schema = key_of (e.serialize schema)

  unfoldable pub validate_with : V → Value → Result McpError (Unit {0})
  unfolding join format
  validate_with validator instance_value = elim (e.check validator instance_value) [
    | ok _ ↦ ok tt
    | err errors ↦ err (
        invalid_params (format ("Schema validation failed: " ∷ join "; " (map detail errors) ∷ [])))
  ]

  unfoldable pub compile_schema : Value → Result McpError V
  unfolding format
  compile_schema schema = elim (e.compile schema) [
    | ok validator ↦ ok validator
    | err text ↦ err (schema_invalid (format ("Failed to compile schema: " ∷ text ∷ [])))
  ]

  -- The validator of a schema: the cached one of its key, or a new one, which is cached.
  unfoldable pub validator_of : Value → String → Dict V → Dict V × Result McpError V
  unfolding compile_schema
  validator_of schema key cache = elim (lookup key cache) [
    | some validator ↦ (cache, ok validator)
    | none ↦ elim (compile_schema schema) [
      | ok validator ↦ (insert key validator cache, ok validator)
      | err failure ↦ (cache, err failure)
    ]
  ]

  abbrev pub finish : Value → Dict V × Result McpError V → Dict V × Result McpError (Unit {0})
  finish instance_value (cache, ok validator) = (cache, validate_with validator instance_value)
  finish instance_value (cache, err failure) = (cache, err failure)

  -- `none` is the panic of the key.
  unfoldable pub validate : Value → Value → Dict V → Option (Dict V × Result McpError (Unit {0}))
  unfolding schema_key validator_of
  validate schema instance_value cache = elim (check_dialect schema) [
    | err failure ↦ some (cache, err failure)
    | ok _ ↦ elim (schema_key schema) [
      | none ↦ none
      | some key ↦ some (finish instance_value (validator_of schema key cache))
    ]
  ]

  unfoldable pub precompile : Value → Dict V → Option (Dict V × Result McpError (Unit {0}))
  unfolding schema_key compile_schema
  precompile schema cache = elim (schema_key schema) [
    | none ↦ none
    | some key ↦
        if is_some (lookup key cache) then some (cache, ok tt) else elim (compile_schema schema) [
          | ok validator ↦ some (insert key validator cache, ok tt)
          | err failure ↦ some (cache, err failure)
        ]
  ]

  abbrev pub verdict_of :
      Option (Dict V × Result McpError (Unit {0})) → Option (Result McpError (Unit {0}))
  verdict_of none = none
  verdict_of (some (cache, verdict)) = some verdict

  unfoldable pub validate_once : Value → Value → Option (Result McpError (Unit {0}))
  validate_once schema instance_value = verdict_of (validate schema instance_value [])

unfoldable pub cache_size : {V : Type 0} → Dict V → ℕ
cache_size cache = length cache

unfoldable pub clear_cache : {V : Type 0} → Dict V → Dict V
clear_cache cache = []
