-- ===== src/Router/Route.antt =====
-- The rest of gateway/router.rs: the dispatch of a message, of a notification and of a request.
use mcp_shield.Json
use mcp_shield.Prelude.{
  String, not, ◌&&◌, ◌||◌, ◌==◌, Option, none, some, [], ◌∷◌, Result, ok, err, unwrap_or, is_empty,
  starts_with, map, if◌then◌else◌,
}
use mcp_shield.Text.Defs.{format, join}
use mcp_shield.Json.{
  Value, ℤ, negsuc, array, object, bool, end, field, get, put, str_of, Fields, of_items,
}
use mcp_shield.Error.{
  RequestId, McpError, invalid_params, invalid_request, scope_denied, internal_error,
}
use mcp_shield.Message.{
  method_initialize, method_initialized, method_ping, method_tools_list, method_tools_call,
  method_resources_list, method_prompts_list, method_shutdown, is_valid_method,
}
use mcp_shield.JsonRpc.Message.{
  JsonRpcMessage, request, notification, success, error, batch, nil, cons,
  method_not_found_response, success_response,
}
use mcp_shield.Registry.State.{list_tools}
use mcp_shield.Scope.Enforcer.{ScopeEnforcer, check_method}
use mcp_shield.Router.State.{
  Moment, Router, M, AuthorizationRequest, AuthorizationResponse, Decision,
  increment_blocked_request, refuse, pure, lift, fail, ◌>>◌,
}
use mcp_shield.Router.Call.{handle_tools_call, proxy_to_upstream}
use mcp_shield.Router.Respond.{
  default_initialize, initialize_result, tool_value, handle_notification,
}
use mcp_shield.Router.Audit.{first, publish}

-- The request to the policy engine.
unfoldable pub auth_request : String → Option Value → ScopeEnforcer → AuthorizationRequest
auth_request method params enforcer = record {
  principal = unwrap_or (first enforcer.granted_scopes) "anonymous";
  action = method;
  resource = unwrap_or (str_of (get (unwrap_or params Json.null) "name")) "any";
  context =
      if is_empty enforcer.granted_scopes
      then []
      else ("scopes", array (of_items (map Json.string enforcer.granted_scopes))) ∷ [];
}

module _ {U C : Type 0} (r : Router U C) (now : Moment) (enforcer : ScopeEnforcer)
    (session_id : Option String) where
  -- The evaluation of the policy, and what a denial returns.
  unfoldable pub policy_verdict : Result String AuthorizationResponse → M U C (Unit {0})
  unfolding format join
  policy_verdict (ok response) g = elim response.decision [
    | Decision.allow ↦ (g, ok tt)
    | Decision.deny ↦
        refuse (increment_blocked_request "cedar_deny")
          (scope_denied (format ("Cedar policy denied: " ∷ join ", " response.diagnostics ∷ []))) g
  ]
  policy_verdict (err text) g =
      refuse (increment_blocked_request "cedar_error")
        (internal_error (format ("Policy evaluation failed: " ∷ text ∷ []))) g

  unfoldable pub authorized :
      Option (AuthorizationRequest → Result String AuthorizationResponse)
      → AuthorizationRequest
      → M U C (Unit {0})
  unfolding policy_verdict
  authorized none wanted = pure tt
  authorized (some evaluate) wanted = policy_verdict (evaluate wanted)

  -- `if let Some(ref authorizer) = self.authorizer`
  unfoldable pub check_policy : String → Option Value → M U C (Unit {0})
  unfolding authorized auth_request
  check_policy method params = authorized r.authorizer (auth_request method params enforcer)

  unfoldable pub handle_initialize : RequestId → Option Value → Result McpError JsonRpcMessage
  unfolding format
  handle_initialize id params = elim (r.read_initialize (unwrap_or params default_initialize)) [
    | err text ↦ err (invalid_params (format ("Invalid initialize params: " ∷ text ∷ [])))
    | ok _ ↦ ok (success_response id (initialize_result r.server_name r.server_version))
  ]

  unfoldable pub handle_tools_list : RequestId → JsonRpcMessage
  unfolding tool_value
  handle_tools_list id =
      success_response id
        (object (field "tools" (array (of_items (map tool_value (list_tools r.registry)))) end))

  -- The `match` on the method.
  unfoldable pub dispatch : RequestId → String → Option Value → M U C JsonRpcMessage
  dispatch id method params g =
      if method == method_initialize
      then lift (handle_initialize id params) g
      else if method == method_ping
      then pure (success_response id (object end)) g
      else if method == method_tools_list
      then pure (handle_tools_list id) g
      else if method == method_tools_call
      then handle_tools_call r now id params enforcer session_id g
      else if method == method_resources_list || method == method_prompts_list
      then proxy_to_upstream r id method params g
      else if method == method_shutdown
      then pure (success_response id (object end)) g
      else if method == method_initialized
      then fail (invalid_request "notifications/initialized should be a notification (no id)") g
      else proxy_to_upstream r id method params g

  unfoldable pub handle_request : RequestId → String → Option Value → M U C JsonRpcMessage
  unfolding dispatch
  handle_request id method params =
      if not (is_valid_method method) && not (starts_with method "notifications/")
      then pure (method_not_found_response id method)
      else (do
        lift (check_method enforcer method)
        check_policy method params
        dispatch id method params)

  unexpected_response : McpError
  unexpected_response =
      invalid_request
        "Gateway received a response message. Only requests and notifications are expected."

  -- Of a batch, the first message is handled in its place.
  unfoldable pub handle_message : JsonRpcMessage → M U C JsonRpcMessage
  unfolding unexpected_response
  handle_message (batch (cons m ms)) g = handle_message m g
  handle_message (batch nil) g =
      publish r now enforcer session_id (batch nil) (g, err (invalid_request "Empty batch"))
  handle_message (notification method params) g =
      publish r now enforcer session_id (notification method params) (g, handle_notification method)
  handle_message (request id method params) g =
      publish r now enforcer session_id (request id method params)
        (handle_request id method params g)
  handle_message (success id result) g =
      publish r now enforcer session_id (success id result) (g, err unexpected_response)
  handle_message (error id body) g =
      publish r now enforcer session_id (error id body) (g, err unexpected_response)
