-- ===== src/Router/Keeping.antt =====
-- The handlers of gateway/router.rs keep the sessions while they handle messages in an unknown
-- session.
use mcp_shield.Prelude.{
  String, ◌≡◌, ap, ◌∙◌, ◌||◌, ◌==◌, not, ◌&&◌, starts_with, inl, inr, Option, some, Bool, true,
  false, Bool-cases, Option-cases, Result-cases, unwrap_or, Result, if◌then◌else◌,
}
use mcp_shield.Json.{Value, object, end, get}
use mcp_shield.Error.{RequestId, McpError}
use mcp_shield.Message.{
  method_initialize, method_initialized, method_ping, method_tools_list, method_tools_call,
  method_resources_list, method_prompts_list, method_shutdown, is_valid_method,
}
use mcp_shield.JsonRpc.Message.{
  JsonRpcMessage, request, notification, success, error, batch, nil, cons,
  method_not_found_response,
}
use mcp_shield.Registry.State.{RegisteredTool}
use mcp_shield.Scope.Enforcer.{ScopeEnforcer, check_method}
use mcp_shield.Session.State.{Manager}
use mcp_shield.Router.State.{Moment, Router, Gateway, M, ◌>>=◌, ◌>>◌, resume, pure, lift}
use mcp_shield.Router.Call.{
  check_schema, check_constraints, sessions_check, check_session, forward, inspect, find_tool,
  call_registered, handle_tools_call, proxy_to_upstream,
}
use mcp_shield.Router.Checks.{check_schema-sessions, guarded-state}
use mcp_shield.Router.Audit.{publish}
use mcp_shield.Router.Route.{auth_request, check_policy, dispatch, handle_request, handle_message}
use mcp_shield.Router.Unknown.{Unknown, sessions-sessions_check, sessions-authorized}

pick :
    {U C A : Type 0} {s : Option Manager} (b : Bool) (x y : Gateway U C × Result McpError A)
    → x.0.sessions ≡ s
    → y.0.sessions ≡ s
    → (if b then x else y).0.sessions ≡ s
pick true x y h k = h
pick false x y h k = k

module _ {U C : Type 0} (r : Router U C) (now : Moment) (session_id : Option String)
    (s : Option Manager) (unknown : Unknown s session_id) where
  abbrev Keeps : {A : Type 0} → M U C A → Type 0
  Keeps m = (g : Gateway U C) → g.sessions ≡ s → (m g).0.sessions ≡ s

  Keeps-bind :
      {A B : Type 0} (m : M U C A) (f : A → M U C B)
      → Keeps m
      → ((a : A) → Keeps (f a))
      → Keeps (m >>= f)
  Keeps-bind m f kept keeps g same = elim (Result-cases (m g).1) [
    | inl (a, e) ↦ ap (λ x. (resume f (m g).0 x).0.sessions) e ∙ keeps a (m g).0 (kept g same)
    | inr (e, fails) ↦ ap (λ x. (resume f (m g).0 x).0.sessions) fails ∙ kept g same
  ]

  Keeps-if :
      {A : Type 0} (b : Bool) (m n : M U C A) → Keeps m → Keeps n → Keeps (if b then m else n)
  Keeps-if true m n h k = h
  Keeps-if false m n h k = k

  check_schema-Keeps : (schema arguments : Value) → Keeps (check_schema r schema arguments)
  check_schema-Keeps schema arguments g same = check_schema-sessions r schema arguments g ∙ same

  check_constraints-Keeps :
      (tool_name : String) (arguments : Value) → Keeps (check_constraints r tool_name arguments)
  unfolding check_constraints
  check_constraints-Keeps tool_name arguments g same =
      (guarded-state r r.ecpa_guardrail tool_name arguments g).1 ∙ same

  check_session-Keeps :
      (tool_name : String) (arguments : Value)
      → Keeps (check_session r now session_id tool_name arguments)
  unfolding check_session
  check_session-Keeps tool_name arguments g same =
      ap (λ q. (sessions_check r now q session_id tool_name arguments g).0.sessions) same
      ∙ sessions-sessions_check r now session_id s tool_name arguments g unknown same

  forward-Keeps :
      (server_id : String) (message : JsonRpcMessage) → Keeps (forward r server_id message)
  unfolding forward
  forward-Keeps server_id message g same = same

  call_registered-Keeps :
      (id : RequestId) (params : Value) (tool_name : String) (registered : RegisteredTool)
      → Keeps (call_registered r now id params session_id tool_name registered)
  unfolding call_registered
  call_registered-Keeps id params tool_name registered =
      let arguments = unwrap_or (get params "arguments") (object end) in
      let message = request id method_tools_call (some params) in
      let answer : JsonRpcMessage → M U C JsonRpcMessage =
        λ response. pure (inspect r tool_name registered.server_id response) in
      let last : M U C JsonRpcMessage = forward r registered.server_id message >>= answer in
      let third : M U C JsonRpcMessage =
        check_session r now session_id tool_name arguments >> last in
      let second : M U C JsonRpcMessage = check_constraints r tool_name arguments >> third in
      Keeps-bind (check_schema r registered.tool.input_schema arguments) (λ _. second)
        (check_schema-Keeps registered.tool.input_schema arguments)
        (λ _.
          Keeps-bind (check_constraints r tool_name arguments) (λ _. third)
            (check_constraints-Keeps tool_name arguments)
            (λ _.
              Keeps-bind (check_session r now session_id tool_name arguments) (λ _. last)
                (check_session-Keeps tool_name arguments)
                (λ _.
                  Keeps-bind (forward r registered.server_id message) answer
                    (forward-Keeps registered.server_id message) (λ response g same. same))))

  handle_tools_call-Keeps :
      (id : RequestId) (params : Option Value) (enforcer : ScopeEnforcer)
      → Keeps (handle_tools_call r now id params enforcer session_id)
  unfolding handle_tools_call
  handle_tools_call-Keeps id params enforcer g same =
      let v = unwrap_or params (object end) in
      elim (Result-cases (find_tool r enforcer v)) [
        | inl ((tool_name, registered), found) ↦
            rw (found, handle_tools_call) (call_registered-Keeps id v tool_name registered g same)
        | inr (e, fails) ↦ rw (fails, handle_tools_call) same
      ]

  proxy_to_upstream-Keeps :
      (id : RequestId) (method : String) (params : Option Value)
      → Keeps (proxy_to_upstream r id method params)
  unfolding proxy_to_upstream
  proxy_to_upstream-Keeps id method params g same =
      elim (Option-cases (r.default_server_id g.upstream)) [
        | inl nowhere ↦ rw (nowhere, proxy_to_upstream) same
        | inr (server_id, chosen) ↦
            rw (chosen, proxy_to_upstream)
              (forward-Keeps server_id (request id method params) g same)
      ]

  dispatch-Keeps :
      (enforcer : ScopeEnforcer) (id : RequestId) (method : String) (params : Option Value)
      → Keeps (dispatch r now enforcer session_id id method params)
  unfolding dispatch
  dispatch-Keeps enforcer id method params g same = pick (method == method_initialize) _ _ same (
      pick (method == method_ping) _ _ same (
        pick (method == method_tools_list) _ _ same (
          pick (method == method_tools_call) _ _ (handle_tools_call-Keeps id params enforcer g same)
            (pick (method == method_resources_list || method == method_prompts_list) _ _
              (proxy_to_upstream-Keeps id method params g same)
              (pick (method == method_shutdown) _ _ same (
                pick (method == method_initialized) _ _ same
                  (proxy_to_upstream-Keeps id method params g same)))))))

  check_policy-Keeps :
      (enforcer : ScopeEnforcer) (method : String) (params : Option Value)
      → Keeps (check_policy r now enforcer session_id method params)
  unfolding check_policy
  check_policy-Keeps enforcer method params g same =
      sessions-authorized r now enforcer session_id r.authorizer
        (auth_request method params enforcer) g
      ∙ same

  handle_request-Keeps :
      (enforcer : ScopeEnforcer) (id : RequestId) (method : String) (params : Option Value)
      → Keeps (handle_request r now enforcer session_id id method params)
  unfolding handle_request
  handle_request-Keeps enforcer id method params =
      let answers : M U C JsonRpcMessage = dispatch r now enforcer session_id id method params in
      let checked : M U C JsonRpcMessage =
        check_policy r now enforcer session_id method params >> answers in
      let scoped : M U C JsonRpcMessage = lift (check_method enforcer method) >> checked in
      Keeps-if (not (is_valid_method method) && not (starts_with method "notifications/"))
        (pure (method_not_found_response id method)) scoped (λ g same. same)
        (Keeps-bind (lift (check_method enforcer method)) (λ _. checked) (λ g same. same)
          (λ _.
            Keeps-bind (check_policy r now enforcer session_id method params) (λ _. answers)
              (check_policy-Keeps enforcer method params)
              (λ _. dispatch-Keeps enforcer id method params)))

  Keeps-publish :
      (enforcer : ScopeEnforcer) (message : JsonRpcMessage)
      (answer : Gateway U C × Result McpError JsonRpcMessage)
      → answer.0.sessions ≡ s
      → (publish r now enforcer session_id message answer).0.sessions ≡ s
  unfolding publish
  Keeps-publish enforcer message (g, result) same = elim (Bool-cases r.has_audit_producer) [
    | inl audits ↦ rw (audits, publish) same
    | inr silent ↦ rw (silent, publish) same
  ]

  -- A message in an unknown session leaves the sessions as they were.
  pub handle_message-Keeps :
      (enforcer : ScopeEnforcer) (message : JsonRpcMessage)
      → Keeps (handle_message r now enforcer session_id message)
  unfolding handle_message
  handle_message-Keeps enforcer (batch (cons m ms)) g same = handle_message-Keeps enforcer m g same
  handle_message-Keeps enforcer (batch nil) g same = Keeps-publish enforcer _ _ same
  handle_message-Keeps enforcer (notification method params) g same =
      Keeps-publish enforcer _ _ same
  handle_message-Keeps enforcer (request id method params) g same =
      Keeps-publish enforcer _ _ (handle_request-Keeps enforcer id method params g same)
  handle_message-Keeps enforcer (success id result) g same = Keeps-publish enforcer _ _ same
  handle_message-Keeps enforcer (error id body) g same = Keeps-publish enforcer _ _ same
