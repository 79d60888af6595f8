-- ===== src/JsonRpc/Codec.antt =====
-- What `serde` derives for `RequestId` and `JsonRpcErrorObj`: a parameter of the model, with the
-- documented behaviour that the program relies on.
use mcp_shield.Prelude.{◌^◌, ◌<◌, String, Result, ok, ◌≡◌, ◌≢◌, some}
use mcp_shield.Json.{ℤ, pos, negsuc, Value, null}
use mcp_shield.Error.{RequestId, integer}
use mcp_shield.JsonRpc.Message.{JsonRpcErrorObj}

-- The values of `i64`.
abbrev pub IsI64 : ℤ → Type 0
IsI64 (pos n) = n < 2 ^ 63
IsI64 (negsuc n) = n < 2 ^ 63

-- The identifiers and errors that the types of the source can hold.
abbrev pub IsId : RequestId → Type 0
IsId (integer n) = IsI64 n
IsId _ = Unit

-- Reading back `data: null` gives no data, so such errors are left out.
pub record IsErrorObj (e : JsonRpcErrorObj) : Type 0 where
  pub code : IsI64 e.code
  pub details : e.details ≢ some null

-- `serde_json::from_value` and `json!`, with the text of a failure.
pub record Codec : Type 0 where
  pub read_id : Value → Result String RequestId
  pub write_id : RequestId → Value
  pub read_error : Value → Result String JsonRpcErrorObj
  pub write_error : JsonRpcErrorObj → Value

-- Reading what was written gives it back.
pub record IsFaithful (c : Codec) : Type 0 where
  pub id : (i : RequestId) → IsId i → c.read_id (c.write_id i) ≡ ok i
  pub error : (e : JsonRpcErrorObj) → IsErrorObj e → c.read_error (c.write_error e) ≡ ok e
