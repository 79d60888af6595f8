-- ===== src/JsonRpc/Tests.antt =====
-- Messages that are parsed and written, and the theorems at them.
use mcp_shield.Prelude.{String, ◌≡◌, ◌≢◌, refl, none, some, ok, err, arith}
use mcp_shield.Json.{pos, Value, integer, string, object, field, end, array, nil, cons, get, put}
use mcp_shield.Error.{RequestId, error_code, code_invalid_request, invalid_request}
use mcp_shield.JsonRpc.Message
use mcp_shield.JsonRpc.Message.{JsonRpcMessage, request, notification, batch, Messages, messages}
use mcp_shield.JsonRpc.Parse.{parse_single, parse_all, parse, to_value}
use mcp_shield.JsonRpc.RoundTrip.{parse-to_value, parse-to_value_batch}
use mcp_shield.JsonRpc.Soundness.{parse-error_code, IsRequest, parse_single-request}
use mcp_shield.JsonRpc.Serde.{serde, serde-IsFaithful}

machine : Unit {0}
unfolding parse_single parse_all parse to_value get put
machine = tt

abbrev params : Value
params = object (field "name" (string "com.example:echo") end)

abbrev call : JsonRpcMessage
call = request (RequestId.integer (pos 3)) "tools/call" (some params)

abbrev ping : JsonRpcMessage
ping = notification "ping" none

call_id : ◌≢◌ {A = RequestId} (RequestId.integer (pos 3)) RequestId.null
call_id e = cc e

parse-to_value_example : parse serde (to_value serde call) ≡ ok call
parse-to_value_example = parse-to_value serde serde-IsFaithful call (omega arith, call_id)

abbrev both : Messages
both = Message.cons call (Message.cons ping Message.nil)

parse-to_value_batch_example : parse serde (to_value serde (batch both)) ≡ ok (batch both)
parse-to_value_batch_example =
    parse-to_value_batch serde serde-IsFaithful call (Message.cons ping Message.nil)
      ((omega arith, call_id), (tt, tt))

abbrev no_elements : String
no_elements = "Invalid Request: empty batch"

empty_batch : parse serde (array nil) ≡ err (invalid_request no_elements)
unfolding machine
empty_batch = refl

parse-error_code_example : error_code (invalid_request no_elements) ≡ code_invalid_request
parse-error_code_example =
    parse-error_code serde (array nil) (invalid_request no_elements) empty_batch

abbrev raw_call : Value
raw_call = object (
    field "jsonrpc" (string "2.0") (
      field "id" (integer (pos 3))
        (field "method" (string "tools/call") (field "params" params end))))

parsed_call : parse_single serde raw_call ≡ ok call
unfolding machine
parsed_call = refl

parse_single-request_example :
    IsRequest serde raw_call (RequestId.integer (pos 3)) "tools/call" (some params)
parse_single-request_example =
    parse_single-request serde raw_call (RequestId.integer (pos 3)) "tools/call" (some params)
      parsed_call

parsed_batch : parse serde (array (cons raw_call nil)) ≡ ok (batch (Message.cons call Message.nil))
unfolding machine
parsed_batch = refl
