-- ===== src/Router/Gate.antt =====
-- A call of a tool reaches an upstream server only through all the checks of gateway/router.rs.
use mathlib.Core.Path.{subst}
use mcp_shield.Prelude.{
  String, ◌≡◌, refl, ◌⊎◌, inl, inr, Option, none, some, ok, Option-cases, Result-cases, ◌∙◌, ap,
  arith, unwrap_or,
}
use mcp_shield.Json.{Value, object, end, get, str_of}
use mcp_shield.Error.{RequestId}
use mcp_shield.Message.{method_tools_call}
use mcp_shield.JsonRpc.Message.{JsonRpcMessage, request}
use mcp_shield.Registry.State.{RegisteredTool, lookup_any}
use mcp_shield.Scope.Enforcer.{ScopeEnforcer, check_tool_access}
use mcp_shield.Router.State.{Moment, Router, Gateway, M, ◌>>=◌, ◌>>◌, pure, resume}
use mcp_shield.Router.Call.{
  check_schema, check_constraints, check_session, forward, inspect, find_tool, call_registered,
  handle_tools_call,
}
use mcp_shield.Router.Checks.{
  Validated, Satisfied, Admits, bind-upstream, check_schema-upstream, check_schema-eq-ok,
  check_schema-sessions, guarded-state, guarded-eq-ok, sessions_check-upstream,
  sessions_check-eq-ok,
}

-- `params.get("arguments").cloned().unwrap_or(json!({}))`
abbrev pub arguments_of : Value → Value
arguments_of params = unwrap_or (get params "arguments") (object end)

-- Every check after the lookup passes, in the state in which the call arrives.
pub record Passes {U C : Type 0} (r : Router U C) (params : Value) (session_id : Option String)
    (g : Gateway U C) (tool_name : String) (registered : RegisteredTool) : Type 0 where
  pub validated : Validated r registered.tool.input_schema (arguments_of params) g.schema_validator
  pub satisfied : Satisfied r.ecpa_guardrail tool_name (arguments_of params)
  pub admitted : Admits g.sessions session_id tool_name

-- The tool is named, its scopes are held, it is registered, and every check passes.
pub record Cleared {U C : Type 0} (r : Router U C) (params : Value) (enforcer : ScopeEnforcer)
    (session_id : Option String) (g : Gateway U C) : Type 0 where
  pub tool_name : String
  pub registered : RegisteredTool
  pub named : str_of (get params "name") ≡ some tool_name
  pub scoped : check_tool_access enforcer tool_name ≡ ok tt
  pub known : lookup_any tool_name r.registry ≡ ok (some registered)
  pub passed : Passes r params session_id g tool_name registered

-- What the upstream servers become when they are called for a tool of a server.
abbrev pub after_call : {U C : Type 0} → Router U C → RequestId → Value → RegisteredTool → U → U
after_call r id params registered u =
    (r.forward_request registered.server_id (request id method_tools_call (some params)) u).0

-- A run that leaves the upstream servers as they were, or changes them by `F` and shows `Q`.
abbrev pub Gated : {U C B : Type 0} → M U C B → Gateway U C → Type 0 → (U → U) → Type 0
Gated k g Q F = ((k g).0.upstream ≡ g.upstream) ⊎ (Q × ((k g).0.upstream ≡ F g.upstream))

-- A check in front of a run adds what it shows when it passes.
pub Gated-check :
    {U C B : Type 0} (m : M U C (Unit {0})) (k : M U C B) (g : Gateway U C) {P Q : Type 0}
    (F : U → U)
    → (m g).0.upstream ≡ g.upstream
    → ((m g).1 ≡ ok tt → P)
    → Gated k (m g).0 Q F
    → Gated (m >> k) g (P × Q) F
Gated-check m k g F kept shows gated = elim (bind-upstream m (λ _. k) g kept) [
  | inl same ↦ inl same
  | inr (tt, passes, continues) ↦ elim gated [
    | inl same ↦ inl (ap (λ x. x.0.upstream) continues ∙ (same ∙ kept))
    | inr (q, changed) ↦
        inr ((shows passes, q), ap (λ x. x.0.upstream) continues ∙ (changed ∙ ap F kept))
  ]
]

module _ {U C : Type 0} (r : Router U C) (now : Moment) (id : RequestId)
    (session_id : Option String) where
  answered :
      (params : Value) (tool_name : String) (registered : RegisteredTool) (g : Gateway U C)
      → ((forward r registered.server_id (request id method_tools_call (some params))
            >>= (λ response. pure (inspect r tool_name registered.server_id response)))
          g).0.upstream
        ≡ after_call r id params registered g.upstream
  unfolding forward
  answered params tool_name registered g =
      elim (Result-cases
        (r.forward_request registered.server_id (request id method_tools_call (some params))
          g.upstream).1) [ inl (response, e) ↦ rw e refl | inr (failure, e) ↦ rw e refl ]

  call_registered-gate :
      (params : Value) (tool_name : String) (registered : RegisteredTool) (g : Gateway U C)
      → Gated
          (call_registered r now id params session_id tool_name registered)
          g
          (Passes r params session_id g tool_name registered)
          (after_call r id params registered)
  unfolding call_registered check_constraints check_session
  call_registered-gate params tool_name registered g =
      let args = arguments_of params in
      let g1 = (check_schema r registered.tool.input_schema args g).0 in
      let g2 = (check_constraints r tool_name args g1).0 in
      let g3 = (check_session r now session_id tool_name args g2).0 in
      let shows_session : (check_session r now session_id tool_name args g2).1 ≡ ok tt
          → Admits g.sessions session_id tool_name =
        λ passes.
          subst (λ s. Admits s session_id tool_name)
            ((guarded-state r r.ecpa_guardrail tool_name args g1).1
              ∙ check_schema-sessions r registered.tool.input_schema args g)
            (sessions_check-eq-ok r now g2.sessions session_id tool_name args g2 passes) in
      let calls : M U C JsonRpcMessage =
        forward r registered.server_id (request id method_tools_call (some params))
        >>= (λ response. pure (inspect r tool_name registered.server_id response)) in
      let session_first : M U C JsonRpcMessage =
        check_session r now session_id tool_name args >> calls in
      let constraints_first : M U C JsonRpcMessage =
        check_constraints r tool_name args >> session_first in
      let F = after_call r id params registered in
      let last =
        Gated-check (check_session r now session_id tool_name args) calls g2 {Q = Unit {0}} F
          (sessions_check-upstream r now g2.sessions session_id tool_name args g2) shows_session
          (inr (tt, answered params tool_name registered g3)) in
      let middle =
        Gated-check (check_constraints r tool_name args) session_first g1 F
          (guarded-state r r.ecpa_guardrail tool_name args g1).0
          (guarded-eq-ok r r.ecpa_guardrail tool_name args g1) last in
      let whole =
        Gated-check (check_schema r registered.tool.input_schema args) constraints_first g F
          (check_schema-upstream r registered.tool.input_schema args g)
          (check_schema-eq-ok r registered.tool.input_schema args g) middle in
      elim whole [
        | inl same ↦ inl same
        | inr ((validated, (satisfied, (admitted, _))), changed) ↦
            inr (
              record { validated = validated; satisfied = satisfied; admitted = admitted },
              changed,
            )
      ]

  find_tool-eq-ok :
      (enforcer : ScopeEnforcer) (params : Value) {tool_name : String} {registered : RegisteredTool}
      → find_tool r enforcer params ≡ ok (tool_name, registered)
      → (str_of (get params "name") ≡ some tool_name)
        × (check_tool_access enforcer tool_name ≡ ok tt)
        × (lookup_any tool_name r.registry ≡ ok (some registered))
  unfolding find_tool
  find_tool-eq-ok enforcer params {tool_name} found =
      elim (Option-cases (str_of (get params "name"))) [
        | inl unnamed ↦ absurd (ground (arith, unnamed))
        | inr (name, named) ↦ elim (Result-cases (check_tool_access enforcer name)) [
          | inr (e, denied) ↦ absurd (ground (arith, named, denied))
          | inl (tt, scoped) ↦ elim (Result-cases (lookup_any name r.registry)) [
            | inr (e, fails) ↦ absurd (ground (arith, named, scoped, fails))
            | inl (none, unknown) ↦ absurd (ground (arith, named, scoped, unknown))
            | inl (some tool, known) ↦ ground (arith, named, scoped, known)
          ]
        ]
      ]

  -- Whatever a call of a tool does, the upstream servers are as they were, or the call was cleared
  -- and they are as the call of the tool's own server leaves them.
  pub handle_tools_call-gate :
      (params : Option Value) (enforcer : ScopeEnforcer) (g : Gateway U C)
      → let v = unwrap_or params (object end) in
        ((handle_tools_call r now id params enforcer session_id g).0.upstream ≡ g.upstream)
        ⊎ ((c : Cleared r v enforcer session_id g) × ((handle_tools_call r now id params enforcer
                session_id g).0.upstream
              ≡ after_call r id v c.registered g.upstream))
  unfolding handle_tools_call
  handle_tools_call-gate params enforcer g =
      let v = unwrap_or params (object end) in
      elim (Result-cases (find_tool r enforcer v)) [
        | inr (e, fails) ↦ inl (rw fails refl)
        | inl ((tool_name, registered), found) ↦
            let runs : handle_tools_call r now id params enforcer session_id g
                ≡ call_registered r now id v session_id tool_name registered g =
              ap (resume (λ x. call_registered r now id v session_id x.0 x.1) g) found in
            let (named, scoped, known) = find_tool-eq-ok enforcer v found in
            elim (call_registered-gate v tool_name registered g) [
              | inl same ↦ inl (ap (λ x. x.0.upstream) runs ∙ same)
              | inr (passed, changed) ↦ inr (
                record {
                  tool_name = tool_name;
                  registered = registered;
                  named = named;
                  scoped = scoped;
                  known = known;
                  passed = passed;
                },
                ap (λ x. x.0.upstream) runs ∙ changed,
              )
            ]
      ]
