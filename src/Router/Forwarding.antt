-- ===== src/Router/Forwarding.antt =====
-- A call of a tool that is cleared is sent, and answered with what comes back.
use mcp_shield.Prelude.{
  String, ◌≡◌, refl, inl, inr, Option, none, some, Result, ok, err, ◌∙◌, ap, sym, arith, unwrap_or,
  Result-cases,
}
use mathlib.Core.Path.{subst}
use mcp_shield.Json.{Value, object, end}
use mcp_shield.Error.{RequestId, McpError}
use mcp_shield.Message.{method_tools_call}
use mcp_shield.JsonRpc.Message.{JsonRpcMessage, request}
use mcp_shield.Registry.State.{RegisteredTool}
use mcp_shield.Scope.Enforcer.{ScopeEnforcer}
use mcp_shield.Session.State.{Manager}
use mcp_shield.Router.State.{
  Moment, Router, Gateway, M, ConstraintResult, ◌>>=◌, ◌>>◌, pure, resume,
}
use mcp_shield.Router.Call.{
  check_schema, check_constraints, check_session, guarded, constraint_verdict, sessions_check,
  session_verdict, forward, inspect, find_tool, call_registered, handle_tools_call,
}
use mcp_shield.Router.Checks.{
  Validated, Satisfied, Admits, check_schema-upstream, check_schema-sessions, guarded-state,
  sessions_check-upstream,
}
use mcp_shield.Router.Gate.{Passes, Cleared, arguments_of}

-- A successful response goes through `f`.
abbrev pub on_ok : {A B E : Type 0} → (A → B) → Result E A → Result E B
on_ok f (ok a) = ok (f a)
on_ok f (err e) = err e

-- A run leaves the upstream servers as a request to a server does, and returns what the server
-- answers, inspected.
abbrev pub Answered :
    {U C : Type 0}
    → Router U C
    → JsonRpcMessage
    → String
    → String
    → U
    → Gateway U C × Result McpError JsonRpcMessage
    → Type 0
Answered r message tool_name server_id u run =
    (run.0.upstream ≡ (r.forward_request server_id message u).0)
    × (run.1 ≡ on_ok (inspect r tool_name server_id) (r.forward_request server_id message u).1)

module _ {U C : Type 0} (r : Router U C) where
  Validated-check_schema :
      (schema arguments : Value) (g : Gateway U C)
      → Validated r schema arguments g.schema_validator
      → (check_schema r schema arguments g).1 ≡ ok tt
  unfolding check_schema
  Validated-check_schema schema arguments g (inl absent) = rw absent refl
  Validated-check_schema schema arguments g (inr accepts) = ground (arith, accepts)

  Satisfied-guarded :
      (guardrail : Option (String → Value → Result String ConstraintResult)) (tool_name : String)
      (arguments : Value) (g : Gateway U C)
      → Satisfied guardrail tool_name arguments
      → (guarded r guardrail tool_name arguments g).1 ≡ ok tt
  unfolding guarded constraint_verdict
  Satisfied-guarded none tool_name arguments g s = refl
  Satisfied-guarded (some evaluate) tool_name arguments g (result, returns, satisfied) =
      rw returns (rw satisfied refl)

  Admits-sessions_check :
      (now : Moment) (sessions : Option Manager) (session_id : Option String) (tool_name : String)
      (arguments : Value) (g : Gateway U C)
      → Admits sessions session_id tool_name
      → (sessions_check r now sessions session_id tool_name arguments g).1 ≡ ok tt
  unfolding sessions_check session_verdict
  Admits-sessions_check now (some m) (some sid) tool_name arguments g (inl allows) = rw allows refl
  Admits-sessions_check now (some m) (some sid) tool_name arguments g (inr (e, fails)) =
      rw fails refl
  Admits-sessions_check now none _ tool_name arguments g a = refl
  Admits-sessions_check now (some m) none tool_name arguments g a = refl

  -- A check that passes is followed by the run behind it.
  runs-on :
      {B : Type 0} (m : M U C (Unit {0})) (k : M U C B) (g : Gateway U C)
      → (m g).1 ≡ ok tt
      → (m >> k) g ≡ k (m g).0
  runs-on m k g passes = ap (resume (λ _. k) (m g).0) passes

  forward-answer :
      (message : JsonRpcMessage) (tool_name server_id : String) (g : Gateway U C)
      → Answered r message tool_name server_id g.upstream (
          (forward r server_id message
              >>= (λ response. pure (inspect r tool_name server_id response)))
            g)
  unfolding forward
  forward-answer message tool_name server_id g =
      elim (Result-cases (r.forward_request server_id message g.upstream).1) [
        | inl (response, returns) ↦ (rw returns refl, rw returns refl)
        | inr (e, fails) ↦ (rw fails refl, rw fails refl)
      ]

module _ {U C : Type 0} (r : Router U C) (now : Moment) (id : RequestId)
    (session_id : Option String) where
  call_registered-Passes :
      (params : Value) (tool_name : String) (registered : RegisteredTool) (g : Gateway U C)
      → Passes r params session_id g tool_name registered
      → Answered r
          (request id method_tools_call (some params))
          tool_name
          registered.server_id
          g.upstream
          (call_registered r now id params session_id tool_name registered g)
  unfolding call_registered check_constraints check_session
  call_registered-Passes params tool_name registered g p =
      let args = arguments_of params in
      let g1 = (check_schema r registered.tool.input_schema args g).0 in
      let g2 = (check_constraints r tool_name args g1).0 in
      let g3 = (check_session r now session_id tool_name args g2).0 in
      let calls : M U C JsonRpcMessage =
        forward r registered.server_id (request id method_tools_call (some params))
        >>= (λ response. pure (inspect r tool_name registered.server_id response)) in
      let session_first : M U C JsonRpcMessage =
        check_session r now session_id tool_name args >> calls in
      let constraints_first : M U C JsonRpcMessage =
        check_constraints r tool_name args >> session_first in
      let state = guarded-state r r.ecpa_guardrail tool_name args g1 in
      let admitted : Admits g2.sessions session_id tool_name =
        subst (λ s. Admits s session_id tool_name)
          (sym (state.1 ∙ check_schema-sessions r registered.tool.input_schema args g))
          p.admitted in
      let run : call_registered r now id params session_id tool_name registered g ≡ calls g3 =
        runs-on r (check_schema r registered.tool.input_schema args) constraints_first g
          (Validated-check_schema r registered.tool.input_schema args g p.validated)
        ∙ (runs-on r (check_constraints r tool_name args) session_first g1
              (Satisfied-guarded r r.ecpa_guardrail tool_name args g1 p.satisfied)
            ∙ runs-on r (check_session r now session_id tool_name args) calls g2
                (Admits-sessions_check r now g2.sessions session_id tool_name args g2 admitted)) in
      let kept : g3.upstream ≡ g.upstream =
        sessions_check-upstream r now g2.sessions session_id tool_name args g2
        ∙ (state.0 ∙ check_schema-upstream r registered.tool.input_schema args g) in
      let message = request id method_tools_call (some params) in
      subst (Answered r message tool_name registered.server_id g.upstream) (sym run) (
        subst (λ u. Answered r message tool_name registered.server_id u (calls g3)) kept
          (forward-answer r message tool_name registered.server_id g3))

  -- A call that is cleared is sent to the tool's server, and is answered with the server's response
  -- after its inspection, or with the server's error.
  pub handle_tools_call-sends :
      (params : Option Value) (enforcer : ScopeEnforcer) (g : Gateway U C)
      (c : Cleared r (unwrap_or params (object end)) enforcer session_id g)
      → Answered r
          (request id method_tools_call (some (unwrap_or params (object end))))
          c.tool_name
          c.registered.server_id
          g.upstream
          (handle_tools_call r now id params enforcer session_id g)
  unfolding handle_tools_call find_tool
  handle_tools_call-sends params enforcer g c =
      let v = unwrap_or params (object end) in
      let found : find_tool r enforcer v ≡ ok (c.tool_name, c.registered) =
        rw (c.named, find_tool) (rw c.scoped (rw c.known refl)) in
      subst
        (Answered r (request id method_tools_call (some v)) c.tool_name c.registered.server_id
          g.upstream)
        (sym (ap (resume (λ x. call_registered r now id v session_id x.0 x.1) g) found))
        (call_registered-Passes v c.tool_name c.registered g c.passed)
