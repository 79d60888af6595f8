-- ===== src/Router/State.antt =====
-- The state of the router of gateway/router.rs, the parts that it calls, and what it publishes. The
-- trait objects and the proxy are functions that the router is given; what they keep between calls
-- (the upstream servers, the cache of schemas) is of any type.
use mcp_shield.Prelude.{ℕ, String, Bool, Option, List, [], ◌∷◌, ◌++◌, Result, ok, err}
use mcp_shield.Dict.{Dict}
use mcp_shield.Json.{ℤ, Value}
use mcp_shield.Error.{McpError}
use mcp_shield.JsonRpc.Message.{JsonRpcMessage}
use mcp_shield.JsonRpc.Codec.{Codec}
use mcp_shield.Egress.Defs.{InspectableResult, InspectionResult}
use mcp_shield.Registry.State.{Registry}
use mcp_shield.Session.State.{Manager}

-- policy/cedar.rs
pub record AuthorizationRequest : Type 0 where
  pub principal : String
  pub action : String
  pub resource : String
  pub context : Dict Value

pub data Decision : Type 0 where
  allow deny : Decision

pub record AuthorizationResponse : Type 0 where
  pub decision : Decision
  pub deciding_policies : List String
  pub diagnostics : List String

-- guardrail/ecpa.rs
pub record PredicateEvaluation : Type 0 where
  pub name : String
  pub satisfied : Bool
  pub value : String
  pub explanation : String

pub record ConstraintResult : Type 0 where
  pub satisfied : Bool
  pub evaluations : List PredicateEvaluation
  pub summary : String

-- telemetry/producer.rs
pub data AuthDecision : Type 0 where
  allow deny deny_policy block : AuthDecision

pub record AuditEvent : Type 0 where
  pub event_id : String
  pub timestamp : String
  pub method : String
  pub request_id : Option String
  pub session_id : Option String
  pub principal : Option String
  pub scopes : List String
  pub decision : AuthDecision
  pub request_payload : Option Value
  pub response_payload : Option Value
  pub error_code : Option ℤ
  pub duration_ms : ℕ
  pub transport : String

-- The calls of `McpMetrics` that the router makes.
pub data Metric : Type 0 where
  record_request : (method server status : String) (elapsed : ℕ) → Metric
  increment_blocked_request : (reason : String) → Metric
  increment_validation_failure : (reason : String) → Metric

-- What the clock and the generator of identifiers give while a message is handled.
pub record Moment : Type 0 where
  pub event_id : String
  pub timestamp : String
  pub called_at : ℕ
  pub logged_at : ℕ
  pub elapsed : ℕ
  pub duration_ms : ℕ

-- The parts of the router. An error of a trait object is its text. `read_initialize` is the
-- derived reader of `InitializeParams`, whose result is only traced.
pub record Router (U C : Type 0) : Type 0 where
  pub registry : Registry
  pub server_name : String
  pub server_version : String
  pub forward_request : String → JsonRpcMessage → U → U × Result McpError JsonRpcMessage
  pub default_server_id : U → Option String
  pub validate : Value → Value → C → C × Result McpError (Unit {0})
  pub read_initialize : Value → Result String (Unit {0})
  pub authorizer : Option (AuthorizationRequest → Result String AuthorizationResponse)
  pub ecpa_guardrail : Option (String → Value → Result String ConstraintResult)
  pub egress_inspector : Option (InspectableResult → Result String InspectionResult)
  pub has_audit_producer : Bool
  pub codec : Codec

-- What a message changes: the upstream servers, the cache, the sessions, and what is published.
pub record Gateway (U C : Type 0) : Type 0 where
  pub upstream : U
  pub schema_validator : C
  pub sessions : Option Manager
  pub metrics : List Metric
  pub audited : List AuditEvent

-- `async fn … -> Result<A, McpError>` over the state.
abbrev pub M : (U C : Type 0) → Type 0 → Type 0
M U C A = Gateway U C → Gateway U C × Result McpError A

abbrev pub resume :
    {U C A B : Type 0}
    → (A → M U C B)
    → Gateway U C
    → Result McpError A
    → Gateway U C × Result McpError B
resume f g (ok a) = f a g
resume f g (err e) = (g, err e)

-- The `?` operator.
infixl 5 ◌>>=◌ ◌>>◌
abbrev pub ◌>>=◌ : {U C A B : Type 0} → M U C A → (A → M U C B) → M U C B
◌>>=◌ m f g = resume f (m g).0 (m g).1

abbrev pub ◌>>◌ : {U C B : Type 0} → M U C (Unit {0}) → M U C B → M U C B
m >> k = m >>= λ _. k

abbrev pub pure : {U C A : Type 0} → A → M U C A
pure a g = (g, ok a)

abbrev pub fail : {U C A : Type 0} → McpError → M U C A
fail e g = (g, err e)

-- A result that needs no state.
abbrev pub lift : {U C A : Type 0} → Result McpError A → M U C A
lift r g = (g, r)

-- `self.metrics.…`
abbrev pub measure : {U C : Type 0} → Metric → Gateway U C → Gateway U C
measure metric g = record g { metrics = g.metrics ++ metric ∷ [] }

-- A metric, and the error that is returned after it.
abbrev pub refuse : {U C A : Type 0} → Metric → McpError → M U C A
refuse metric e g = (measure metric g, err e)
