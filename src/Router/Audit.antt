-- ===== src/Router/Audit.antt =====
-- The metrics and the audit event of `handle_message` of gateway/router.rs.
use mathlib.Core.Option
use mcp_shield.Json
use mcp_shield.Prelude.{
  ◌+◌, ℕ, String, Bool, false, ◌||◌, Option, none, some, List, [], ◌∷◌, ◌++◌, Result, ok, err,
  unwrap_or, is_ok, eqb, starts_with, if◌then◌else◌,
}
use mcp_shield.Json.{
  Value, ℤ, negsuc, array, object, bool, end, field, get, put, str_of, Fields, of_items,
}
use mcp_shield.Error.{McpError, error_code, id_text}
use mcp_shield.JsonRpc.Message.{JsonRpcMessage, id_of, method_of}
use mcp_shield.JsonRpc.Parse.{to_value}
use mcp_shield.Scope.Enforcer.{ScopeEnforcer}
use mcp_shield.Router.State.{
  Moment, Router, Gateway, AuthDecision, AuditEvent, record_request, measure,
}

abbrev pub first : List String → Option String
first [] = none
first (s ∷ ss) = some s

-- Is this the code of the error?
abbrev pub has_code : ℕ → McpError → Bool
has_code n e = elim (error_code e) [ negsuc k ↦ eqb (k + 1) n | Json.ℤ.pos k ↦ false ]

-- The decision that is audited. The last two arms of the source give the same.
unfoldable pub decide : Result McpError JsonRpcMessage → AuthDecision
decide (ok response) = AuthDecision.allow
decide (err e) =
    if has_code 32005 e || has_code 32006 e
    then AuthDecision.block
    else if has_code 32002 e
    then AuthDecision.deny_policy
    else AuthDecision.deny

abbrev pub transport_of : Option String → String
transport_of none = "http"
transport_of (some sid) = if starts_with sid "stdio" then "stdio" else "http"

abbrev pub value_of {ℓ κ μ} :
    {E : Type ℓ} {A : Type κ} {B : Type μ} → (A → B) → Result E A → Option B
value_of f (ok a) = some (f a)
value_of f (err e) = none

abbrev pub code_of {ℓ} : {A : Type ℓ} → Result McpError A → Option ℤ
code_of (ok a) = none
code_of (err e) = some (error_code e)

abbrev pub or_else {ℓ} : {A : Type ℓ} → Option A → Option A → Option A
or_else (some a) o = some a
or_else none o = o

module _ {U C : Type 0} (r : Router U C) (now : Moment) (enforcer : ScopeEnforcer)
    (session_id : Option String) where
  event : JsonRpcMessage → Result McpError JsonRpcMessage → AuditEvent
  unfolding decide
  event message result = record {
    event_id = now.event_id;
    timestamp = now.timestamp;
    method = unwrap_or (method_of message) "";
    request_id = Option.map id_text (id_of message);
    session_id = session_id;
    principal = or_else (first enforcer.granted_scopes) session_id;
    scopes = enforcer.granted_scopes;
    decision = decide result;
    request_payload = some (to_value r.codec message);
    response_payload = value_of (to_value r.codec) result;
    error_code = code_of result;
    duration_ms = now.duration_ms;
    transport = transport_of session_id;
  }

  -- The metrics and the audit event of a message, once it is handled.
  unfoldable pub publish :
      JsonRpcMessage
      → Gateway U C × Result McpError JsonRpcMessage
      → Gateway U C × Result McpError JsonRpcMessage
  unfolding event
  publish message (g, result) =
      let measured =
        measure
          (record_request (unwrap_or (method_of message) "") "gateway"
            (if is_ok result then "success" else "error") now.elapsed)
          g in
      (
        if r.has_audit_producer
            then record measured { audited = measured.audited ++ event message result ∷ [] }
            else measured,
        result,
      )
