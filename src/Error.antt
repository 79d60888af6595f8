-- ===== src/Error.antt =====
-- error.rs: the error type of every component, its JSON-RPC code, its HTTP status and its text, and
-- the identifier of a request.
use mcp_shield.Prelude.{ℕ, suc, zero, String, [], ◌∷◌, eqb, ltb, if◌then◌else◌}
use Prim.Native.Nat.{◌/◌, ◌%◌}
use mcp_shield.Json.{ℤ, pos, negsuc}
use mcp_shield.Text.Defs.{format}

pub data McpError : Type 0 where
  parse_error invalid_request method_not_found invalid_params internal_error : String → McpError
  unauthorized scope_denied schema_invalid registry_collision session_locked : String → McpError
  ecpa_violation jwt_error oauth_error transport_error upstream_error : String → McpError

pub data RequestId : Type 0 where
  string : String → RequestId
  integer : ℤ → RequestId
  null : RequestId

-- The codes of JSON-RPC 2.0, and the gateway's own; `negsuc n` is -(n + 1).
abbrev pub code_parse_error : ℤ
code_parse_error = negsuc 32699

abbrev pub code_invalid_request : ℤ
code_invalid_request = negsuc 32599

abbrev pub code_method_not_found : ℤ
code_method_not_found = negsuc 32600

abbrev pub code_invalid_params : ℤ
code_invalid_params = negsuc 32601

abbrev pub code_internal_error : ℤ
code_internal_error = negsuc 32602

abbrev pub code_unauthorized : ℤ
code_unauthorized = negsuc 32000

abbrev pub code_scope_denied : ℤ
code_scope_denied = negsuc 32001

abbrev pub code_schema_invalid : ℤ
code_schema_invalid = negsuc 32002

abbrev pub code_registry_collision : ℤ
code_registry_collision = negsuc 32003

abbrev pub code_session_locked : ℤ
code_session_locked = negsuc 32004

abbrev pub code_epca_violation : ℤ
code_epca_violation = negsuc 32005

unfoldable pub error_code : McpError → ℤ
error_code (parse_error _) = code_parse_error
error_code (invalid_request _) = code_invalid_request
error_code (method_not_found _) = code_method_not_found
error_code (invalid_params _) = code_invalid_params
error_code (internal_error _) = code_internal_error
error_code (unauthorized _) = code_unauthorized
error_code (scope_denied _) = code_scope_denied
error_code (schema_invalid _) = code_schema_invalid
error_code (registry_collision _) = code_registry_collision
error_code (session_locked _) = code_session_locked
error_code (ecpa_violation _) = code_epca_violation
error_code (jwt_error _) = code_unauthorized
error_code (oauth_error _) = code_unauthorized
error_code (transport_error _) = code_internal_error
error_code (upstream_error _) = code_internal_error

unfoldable pub http_status : McpError → ℕ
http_status (parse_error _) = 400
http_status (invalid_request _) = 400
http_status (method_not_found _) = 404
http_status (invalid_params _) = 400
http_status (internal_error _) = 500
http_status (unauthorized _) = 401
http_status (scope_denied _) = 403
http_status (schema_invalid _) = 400
http_status (registry_collision _) = 409
http_status (session_locked _) = 409
http_status (ecpa_violation _) = 403
http_status (jwt_error _) = 401
http_status (oauth_error _) = 401
http_status (transport_error _) = 500
http_status (upstream_error _) = 500

-- The `Display` of an error, from its `#[error]` attributes.
unfoldable pub to_string : McpError → String
unfolding format
to_string (parse_error s) = format ("Parse error: " ∷ s ∷ [])
to_string (invalid_request s) = format ("Invalid request: " ∷ s ∷ [])
to_string (method_not_found s) = format ("Method not found: " ∷ s ∷ [])
to_string (invalid_params s) = format ("Invalid params: " ∷ s ∷ [])
to_string (internal_error s) = format ("Internal error: " ∷ s ∷ [])
to_string (unauthorized s) = format ("Unauthorized: " ∷ s ∷ [])
to_string (scope_denied s) = format ("Scope denied: " ∷ s ∷ [])
to_string (schema_invalid s) = format ("Schema validation failed: " ∷ s ∷ [])
to_string (registry_collision s) = format ("Registry collision: " ∷ s ∷ [])
to_string (session_locked s) = format ("Session locked: " ∷ s ∷ [])
to_string (ecpa_violation s) = format ("ePCA constraint violation: " ∷ s ∷ [])
to_string (jwt_error s) = format ("JWT error: " ∷ s ∷ [])
to_string (oauth_error s) = format ("OAuth error: " ∷ s ∷ [])
to_string (transport_error s) = format ("Transport error: " ∷ s ∷ [])
to_string (upstream_error s) = format ("Upstream error: " ∷ s ∷ [])

abbrev digit : ℕ → String
digit d =
    if eqb d 0
    then "0"
    else if eqb d 1
    then "1"
    else if eqb d 2
    then "2"
    else if eqb d 3
    then "3"
    else if eqb d 4
    then "4"
    else if eqb d 5
    then "5"
    else if eqb d 6
    then "6"
    else if eqb d 7
    then "7"
    else if eqb d 8
    then "8"
    else "9"

-- The decimal digits of a number, with fuel; a number has at most as many digits as it counts to.
decimal : ℕ → ℕ → String
unfolding format
decimal zero n = ""
decimal (suc fuel) n =
    let leading = decimal fuel (n / 10) in
    if ltb n 10 then digit n else format (leading ∷ digit (n % 10) ∷ [])

-- The `Display` of a number.
unfoldable pub number_text : ℕ → String
unfolding decimal
number_text n = decimal (suc n) n

unfoldable pub integer_text : ℤ → String
unfolding number_text format
integer_text (pos n) = number_text n
integer_text (negsuc n) = format ("-" ∷ number_text (suc n) ∷ [])

-- The `Display` of an identifier.
unfoldable pub id_text : RequestId → String
unfolding integer_text
id_text (string s) = s
id_text (integer n) = integer_text n
id_text null = "null"
