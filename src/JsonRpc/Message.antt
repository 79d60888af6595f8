-- ===== src/JsonRpc/Message.antt =====
-- `JsonRpcMessage` and `JsonRpcErrorObj` of protocol/jsonrpc.rs, their accessors and the responses
-- that the gateway builds.
use mcp_shield.Prelude.{String, Bool, true, false, Option, none, some, List, [], ◌∷◌}
use mcp_shield.Text.Defs.{format}
use mcp_shield.Json.{ℤ, Value}
use mcp_shield.Error.{
  RequestId, null, code_parse_error, code_invalid_request, code_method_not_found,
}

pub record JsonRpcErrorObj : Type 0 where
  pub code : ℤ
  pub message : String
  pub details : Option Value

-- `JsonRpcErrorObj::new` and `with_data`; `details` is the field `data`.
abbrev pub error_obj : ℤ → String → JsonRpcErrorObj
error_obj code message = record { code = code; message = message; details = none }

abbrev pub error_obj_with_data : ℤ → String → Value → JsonRpcErrorObj
error_obj_with_data code message v = record { code = code; message = message; details = some v }

mutual
  pub data JsonRpcMessage : Type 0 where
    request : (id : RequestId) (method : String) (params : Option Value) → JsonRpcMessage
    notification : (method : String) (params : Option Value) → JsonRpcMessage
    success : (id : RequestId) (result : Value) → JsonRpcMessage
    error : (id : RequestId) (body : JsonRpcErrorObj) → JsonRpcMessage
    batch : Messages → JsonRpcMessage

  pub data Messages : Type 0 where
    nil : Messages
    cons : JsonRpcMessage → Messages → Messages

abbrev pub messages : Messages → List JsonRpcMessage
messages nil = []
messages (cons m ms) = m ∷ messages ms

unfoldable pub id_of : JsonRpcMessage → Option RequestId
id_of (request id _ _) = some id
id_of (success id _) = some id
id_of (error id _) = some id
id_of (notification _ _) = none
id_of (batch _) = none

unfoldable pub method_of : JsonRpcMessage → Option String
method_of (request _ method _) = some method
method_of (notification method _) = some method
method_of _ = none

unfoldable pub params_of : JsonRpcMessage → Option Value
params_of (request _ _ params) = params
params_of (notification _ params) = params
params_of _ = none

unfoldable pub is_notification : JsonRpcMessage → Bool
is_notification (notification _ _) = true
is_notification _ = false

unfoldable pub is_batch : JsonRpcMessage → Bool
is_batch (batch _) = true
is_batch _ = false

unfoldable pub method_not_found_response : RequestId → String → JsonRpcMessage
unfolding format
method_not_found_response id method =
    error id (error_obj code_method_not_found (format ("Method not found: " ∷ method ∷ [])))

unfoldable pub success_response : RequestId → Value → JsonRpcMessage
success_response id result = success id result

unfoldable pub error_response : RequestId → ℤ → String → JsonRpcMessage
error_response id code message = error id (error_obj code message)

unfoldable pub error_response_with_data : RequestId → ℤ → String → Value → JsonRpcMessage
error_response_with_data id code message v = error id (error_obj_with_data code message v)

unfoldable pub parse_error_response : JsonRpcMessage
parse_error_response = error null (error_obj code_parse_error "Parse error")

unfoldable pub invalid_request_response : JsonRpcMessage
invalid_request_response = error null (error_obj code_invalid_request "Invalid Request")
