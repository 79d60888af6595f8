-- ===== src/JsonRpc/Parse.antt =====
-- `parse`, `parse_single` and `to_value` of protocol/jsonrpc.rs.
use mcp_shield.Prelude.{
  String, Bool, true, false, not, ◌&&◌, ◌||◌, ◌==◌, Option, none, some, [], ◌∷◌, Result, ok, err,
  ◌>>=◌, ◌>>◌, guard, ok_or, unwrap_or, is_some, if◌then◌else◌,
}
use mcp_shield.Text.Defs.{format}
use mcp_shield.Json.{
  Value, Items, nil, cons, end, field, string, array, object, get, put, is_object, str_of,
}
use mcp_shield.Error.{McpError, invalid_request, RequestId}
use mcp_shield.JsonRpc.Message
use mcp_shield.JsonRpc.Message.{
  JsonRpcErrorObj, JsonRpcMessage, request, notification, success, error, batch, Messages,
}
use mcp_shield.JsonRpc.Codec.{Codec}

abbrev pub jsonrpc_version : String
jsonrpc_version = "2.0"

-- The texts of the errors.
pub bad_version : String → String
bad_version version =
    format ("Invalid Request: expected jsonrpc \"2.0\", got \"" ∷ version ∷ "\"" ∷ [])

pub bad_id : String → String
bad_id e = format ("Invalid Request: id must be string, integer, or null: " ∷ e ∷ [])

pub bad_error : String → String
bad_error e = format ("Invalid Request: malformed error object: " ∷ e ∷ [])

-- `.map_err(|e| McpError::InvalidRequest(...))`
abbrev pub or_invalid {ℓ} : {A : Type ℓ} → Result String A → (String → String) → Result McpError A
or_invalid (ok a) text = ok a
or_invalid (err e) text = err (invalid_request (text e))

abbrev pub is_null : RequestId → Bool
is_null RequestId.null = true
is_null _ = false

module _ (c : Codec) where
  -- A message with a method: a request if it has an identifier.
  unfoldable pub parse_call : Value → Result McpError JsonRpcMessage
  parse_call raw = do
    method ←
        ok_or (str_of (get raw "method"))
          (invalid_request "Invalid Request: method must be a string")
    let params = get raw "params"
    elim (get raw "id") [
      | none ↦ ok (notification method params)
      | some v ↦ do
        id ← or_invalid (c.read_id v) bad_id
        guard (not (is_null id)) (invalid_request "Invalid Request: id must not be null")
        ok (request id method params)
    ]

  unfoldable pub parse_response : Value → Value → Result McpError JsonRpcMessage
  parse_response id_value raw = do
    id ← or_invalid (c.read_id id_value) bad_id
    elim (get raw "error") [
      | some e ↦ do body ← or_invalid (c.read_error e) bad_error; ok (error id body)
      | none ↦ ok (success id (unwrap_or (get raw "result") Value.null))
    ]

  unclassified : Result McpError JsonRpcMessage
  unclassified =
      err (invalid_request "Invalid Request: message must be a request, notification, or response")

  unfoldable pub classify : Value → Result McpError JsonRpcMessage
  unfolding parse_call parse_response unclassified
  classify raw =
      let has_result = is_some (get raw "result") in
      let has_error = is_some (get raw "error") in
      if is_some (get raw "method") && not has_result && not has_error
      then parse_call raw
      else if has_result || has_error
      then elim (get raw "id") [ some v ↦ parse_response v raw | none ↦ unclassified ]
      else unclassified

  unfoldable pub parse_single : Value → Result McpError JsonRpcMessage
  unfolding classify
  parse_single raw = do
    guard (is_object raw) (invalid_request "Invalid Request: message must be a JSON object")
    let version = unwrap_or (str_of (get raw "jsonrpc")) ""
    guard (version == jsonrpc_version) (invalid_request (bad_version version))
    classify raw

  unfoldable pub parse_all : Items → Result McpError Messages
  parse_all nil = ok Message.nil
  parse_all (cons v vs) = do m ← parse_single v; ms ← parse_all vs; ok (Message.cons m ms)

  unfoldable pub parse : Value → Result McpError JsonRpcMessage
  unfolding parse_all
  parse (array nil) = err (invalid_request "Invalid Request: empty batch")
  parse (array vs) = do ms ← parse_all vs; ok (batch ms)
  parse raw = parse_single raw

  -- `if let Some(p) = params { obj["params"] = p.clone(); }`
  abbrev with_params : Option Value → Value → Value
  with_params none obj = obj
  with_params (some p) obj = put obj "params" p

  unfoldable mutual
    pub to_value : JsonRpcMessage → Value
    to_value (request id method params) = with_params params (
        object (
          field "jsonrpc" (string jsonrpc_version)
            (field "id" (c.write_id id) (field "method" (string method) end))))
    to_value (notification method params) =
        with_params params
          (object (field "jsonrpc" (string jsonrpc_version) (field "method" (string method) end)))
    to_value (success id result) = object (
        field "jsonrpc" (string jsonrpc_version)
          (field "id" (c.write_id id) (field "result" result end)))
    to_value (error id body) = object (
        field "jsonrpc" (string jsonrpc_version)
          (field "id" (c.write_id id) (field "error" (c.write_error body) end)))
    to_value (batch ms) = array (to_values ms)

    pub to_values : Messages → Items
    to_values Message.nil = nil
    to_values (Message.cons m ms) = cons (to_value m) (to_values ms)
