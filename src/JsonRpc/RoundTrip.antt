-- ===== src/JsonRpc/RoundTrip.antt =====
-- Parsing what was written.
use mcp_shield.Prelude.{◌≡◌, ◌≢◌, refl, ◌∙◌, true, false, none, some, ok, arith}
use mcp_shield.Json.{Value, get, put, array, object, is_object, nil}
use mcp_shield.Error.{RequestId}
use mcp_shield.JsonRpc.Message.{
  JsonRpcErrorObj, JsonRpcMessage, request, notification, success, error, batch, Messages, cons,
}
use mcp_shield.JsonRpc.Message
use mcp_shield.JsonRpc.Codec.{Codec, IsFaithful, IsId, IsErrorObj}
use mcp_shield.JsonRpc.Parse.{is_null, parse_single, parse_all, parse, to_value, to_values}

-- A message that stands alone and that the wire can carry: its identifier and error fit the types
-- of the source, and a request's identifier is not null.
abbrev pub IsWire : JsonRpcMessage → Type 0
IsWire (request id method params) = IsId id × (id ≢ RequestId.null)
IsWire (notification method params) = Unit
IsWire (success id result) = IsId id
IsWire (error id body) = IsId id × IsErrorObj body
IsWire (batch ms) = ⊥

abbrev pub AllWire : Messages → Type 0
AllWire Message.nil = Unit
AllWire (cons m ms) = IsWire m × AllWire ms

is_null-ne : (id : RequestId) → id ≢ RequestId.null → is_null id ≡ false
is_null-ne id h = ground arith

module _ (c : Codec) where
  parse-object : (raw : Value) → is_object raw ≡ true → parse c raw ≡ parse_single c raw
  unfolding parse
  parse-object (object fs) h = refl
  parse-object (array nil) h = cc
  parse-object _ h = cc

  is_object-to_value : (m : JsonRpcMessage) → IsWire m → is_object (to_value c m) ≡ true
  unfolding to_value put
  is_object-to_value (request id method none) h = refl
  is_object-to_value (request id method (some p)) h = refl
  is_object-to_value (notification method none) h = refl
  is_object-to_value (notification method (some p)) h = refl
  is_object-to_value (success id result) h = refl
  is_object-to_value (error id body) h = refl
  is_object-to_value (batch ms) h = elim h [ ]

module _ (c : Codec) (f : IsFaithful c) where
  parse_single-to_value : (m : JsonRpcMessage) → IsWire m → parse_single c (to_value c m) ≡ ok m
  unfolding parse_single to_value get put
  parse_single-to_value (request id method none) h = rw (f.id id h.0, is_null-ne id h.1)
  parse_single-to_value (request id method (some p)) h = rw (f.id id h.0, is_null-ne id h.1)
  parse_single-to_value (notification method none) h = refl
  parse_single-to_value (notification method (some p)) h = refl
  parse_single-to_value (success id result) h = rw (f.id id h)
  parse_single-to_value (error id body) h = rw (f.id id h.0, f.error body h.1)
  parse_single-to_value (batch ms) h = elim h [ ]

  parse_all-to_values : (ms : Messages) → AllWire ms → parse_all c (to_values c ms) ≡ ok ms
  unfolding parse_all to_value
  parse_all-to_values Message.nil h = refl
  parse_all-to_values (cons m ms) h = rw (parse_single-to_value m h.0, parse_all-to_values ms h.1)

  -- A message that is written and parsed comes back.
  pub parse-to_value : (m : JsonRpcMessage) → IsWire m → parse c (to_value c m) ≡ ok m
  parse-to_value m h =
      parse-object c (to_value c m) (is_object-to_value c m h) ∙ parse_single-to_value m h

  -- So does a batch of such messages that is not empty.
  pub parse-to_value_batch :
      (m : JsonRpcMessage) (ms : Messages)
      → AllWire (cons m ms)
      → parse c (to_value c (batch (cons m ms))) ≡ ok (batch (cons m ms))
  unfolding parse to_value
  parse-to_value_batch m ms h = rw (parse_all-to_values (cons m ms) h)
