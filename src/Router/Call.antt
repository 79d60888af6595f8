-- ===== src/Router/Call.antt =====
-- `handle_tools_call` and `proxy_to_upstream` of gateway/router.rs, the checks of a tool call in
-- their order.
use mcp_shield.Prelude
use mcp_shield.Json
use mcp_shield.Prelude.{
  ℕ, String, Bool, true, false, not, Option, none, some, List, [], ◌∷◌, Result, ok, err, ok_or,
  unwrap_or, is_empty, is_some, if◌then◌else◌,
}
use mcp_shield.Text.Defs.{split_once, format, join}
use mcp_shield.Json.{Value, null, array, object, end, get, put, str_of, array_of}
use mcp_shield.Error.{
  RequestId, McpError, invalid_params, method_not_found, ecpa_violation, session_locked,
  upstream_error,
}
use mcp_shield.Message.{method_tools_call}
use mcp_shield.JsonRpc.Message.{JsonRpcMessage, request, success}
use mcp_shield.Registry.State.{RegisteredTool, lookup_any}
use mcp_shield.Scope.Enforcer.{ScopeEnforcer, check_tool_access}
use mcp_shield.Session.State.{
  ContextScope, ToolCallRecord, Manager, AccessCheckResult, SessionError, deny, allow, private,
  check_context_access, log_tool_call, as_str,
}
use mcp_shield.Egress.Defs.{InspectionResult}
use mcp_shield.Router.State.{
  Moment, Router, M, PredicateEvaluation, ConstraintResult, increment_blocked_request,
  increment_validation_failure, refuse, pure, lift, ◌>>=◌, ◌>>◌,
}

-- The explanations of the evaluations that failed.
explanations : List PredicateEvaluation → List String
explanations [] = []
explanations (e ∷ es) =
    let rest = explanations es in if e.satisfied then rest else e.explanation ∷ rest

-- `tool_name.split(':').next().unwrap_or("unknown")`
unfoldable pub tool_prefix : String → String
tool_prefix tool_name = elim (split_once b':' tool_name) [
  | some (before, after) ↦ before
  | none ↦ tool_name
]

unfoldable pub tool_scope : String → ContextScope
tool_scope tool_name = record {
  context_type = "mcp_tool";
  identifier = tool_prefix tool_name;
  visibility = private;
}

unfoldable pub is_null : Value → Bool
is_null null = true
is_null _ = false

-- The content blocks that are inspected.
unfoldable pub inspected : JsonRpcMessage → List Value
inspected (success id result) = elim (array_of (get result "content")) [
  | some blocks ↦ blocks
  | none ↦ result ∷ []
]
inspected _ = []

-- `if let Some(content_field) = new_result.get_mut("content") { *content_field = … }`
unfoldable pub replace_content : Value → Value → Value
replace_content result content =
    if is_some (get result "content") then put result "content" content else result

-- The response after the inspector's verdict.
unfoldable pub rebuild : JsonRpcMessage → Result String InspectionResult → JsonRpcMessage
unfolding replace_content
rebuild (success id result) (ok inspection) =
    if inspection.modified
    then success id (replace_content result (array (Json.of_items inspection.sanitized_content)))
    else success id result
rebuild response _ = response

module _ {U C : Type 0} (r : Router U C) where
  -- Validation of the arguments, unless they are null.
  unfoldable pub check_schema : Value → Value → M U C (Unit {0})
  unfolding is_null
  check_schema schema arguments g =
      if is_null arguments
      then (g, ok tt)
      else (let (cache, verdict) = r.validate schema arguments g.schema_validator in
          elim verdict [
            | ok _ ↦ (record g { schema_validator = cache }, ok tt)
            | err e ↦
                refuse (increment_validation_failure "schema_mismatch") e
                  (record g { schema_validator = cache })
          ])

  unfoldable pub constraint_verdict : Result String ConstraintResult → M U C (Unit {0})
  unfolding explanations format join
  constraint_verdict (ok result) g =
      if result.satisfied
      then (g, ok tt)
      else refuse (increment_blocked_request "ecpa_violation")
          (ecpa_violation (
            format
              ("ePCA constraint violated: " ∷ join "; " (explanations result.evaluations) ∷ [])))
          g
  constraint_verdict (err text) g =
      refuse (increment_blocked_request "ecpa_error")
        (ecpa_violation (format ("ePCA evaluation failed: " ∷ text ∷ []))) g

  -- `if let Some(ref guardrail) = self.ecpa_guardrail`
  unfoldable pub guarded :
      Option (String → Value → Result String ConstraintResult) → String → Value → M U C (Unit {0})
  guarded (some evaluate_constraints) tool_name arguments =
      constraint_verdict (evaluate_constraints tool_name arguments)
  guarded none tool_name arguments = pure tt

  unfoldable pub check_constraints : String → Value → M U C (Unit {0})
  unfolding guarded
  check_constraints = guarded r.ecpa_guardrail

  -- `let _ = sessions.log_tool_call(sid, record).await;`
  abbrev pub log_call : Moment → String → String → Value → Manager → M U C (Unit {0})
  log_call now sid tool_name arguments sessions g =
      let call : ToolCallRecord = record {
        tool_name = tool_name;
        arguments = arguments;
        timestamp = now.called_at;
      } in
      (record g { sessions = some (log_tool_call sid call now.logged_at sessions).0 }, ok tt)

  -- An error of the session manager is only traced.
  unfoldable pub session_verdict :
      Result SessionError AccessCheckResult → M U C (Unit {0}) → M U C (Unit {0})
  unfolding format
  session_verdict (ok allow) log = log
  session_verdict (ok (deny reason locked_to)) log =
      refuse (increment_blocked_request "session_lock") (
        session_locked (
          format (
            "Session locked to "
            ∷ as_str locked_to.visibility
            ∷ " context '"
            ∷ locked_to.identifier
            ∷ "'. "
            ∷ reason
            ∷ [])))
  session_verdict (err e) log = log

  -- `if let (Some(ref sessions), Some(sid)) = (self.sessions.as_ref(), session_id)`
  unfoldable pub sessions_check :
      Moment → Option Manager → Option String → String → Value → M U C (Unit {0})
  unfolding session_verdict
  sessions_check now (some sessions) (some sid) tool_name arguments =
      session_verdict (check_context_access sid (tool_scope tool_name) sessions)
        (log_call now sid tool_name arguments sessions)
  sessions_check now _ _ tool_name arguments = pure tt

  unfoldable pub check_session : Moment → Option String → String → Value → M U C (Unit {0})
  unfolding sessions_check
  check_session now session_id tool_name arguments g =
      sessions_check now g.sessions session_id tool_name arguments g

  -- `self.proxy.forward_request(server_id, request)`
  unfoldable pub forward : String → JsonRpcMessage → M U C JsonRpcMessage
  forward server_id message g =
      let (upstream, response) = r.forward_request server_id message g.upstream in
      (record g { upstream = upstream }, response)

  -- The inspection of a response; an error of the inspector is only traced.
  unfoldable pub inspect : String → String → JsonRpcMessage → JsonRpcMessage
  inspect tool_name server_id response = elim r.egress_inspector [
    | none ↦ response
    | some sanitize_response ↦
        if is_empty (inspected response)
        then response
        else rebuild response (
            sanitize_response (record {
              tool_name = tool_name;
              content = inspected response;
              server_id = server_id;
            }))
  ]

  -- From the lookup of the tool on: the checks, and the call.
  unfoldable pub call_registered :
      Moment → RequestId → Value → Option String → String → RegisteredTool → M U C JsonRpcMessage
  call_registered now id params session_id tool_name registered = do
    let arguments = unwrap_or (get params "arguments") (object end)
    check_schema registered.tool.input_schema arguments
    check_constraints tool_name arguments
    check_session now session_id tool_name arguments
    response ← forward registered.server_id (request id method_tools_call (some params))
    pure (inspect tool_name registered.server_id response)

  -- The name of the tool, if the scopes allow to call it, and what is registered under it.
  unfoldable pub find_tool : ScopeEnforcer → Value → Result McpError (String × RegisteredTool)
  unfolding format
  find_tool enforcer params =
      Prelude.◌>>=◌
        (ok_or (str_of (get params "name"))
          (invalid_params "tools/call requires a 'name' parameter"))
        (λ tool_name. Prelude.◌>>◌ (check_tool_access enforcer tool_name) (
          Prelude.◌>>=◌ (lookup_any tool_name r.registry) (λ found.
            Prelude.◌>>=◌
              (ok_or found
                (method_not_found (format ("Tool '" ∷ tool_name ∷ "' not found in registry" ∷ []))))
              (λ registered. ok (tool_name, registered)))))

  unfoldable pub handle_tools_call :
      Moment → RequestId → Option Value → ScopeEnforcer → Option String → M U C JsonRpcMessage
  unfolding find_tool call_registered
  handle_tools_call now id params enforcer session_id = do
    let params' = unwrap_or params (object end)
    (tool_name, registered) ← lift (find_tool enforcer params')
    call_registered now id params' session_id tool_name registered

  unfoldable pub proxy_to_upstream : RequestId → String → Option Value → M U C JsonRpcMessage
  unfolding forward
  proxy_to_upstream id method params g = elim (r.default_server_id g.upstream) [
    | none ↦ (g, err (upstream_error "No upstream servers configured"))
    | some server_id ↦ forward server_id (request id method params) g
  ]
