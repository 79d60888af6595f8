-- ===== src/Proxy/Gateway.antt =====
-- Calls of tools, from gateway/router.rs through gateway/proxy.rs to the HTTP client.
use mcp_shield.Prelude.{String, ◌≡◌, ◌⊎◌, inl, inr, Option, some, Result, unwrap_or, ap, ◌∙◌}
use mcp_shield.Json.{Value, object, end}
use mcp_shield.Error.{RequestId, McpError}
use mcp_shield.Message.{method_tools_call}
use mcp_shield.JsonRpc.Message.{JsonRpcMessage, request}
use mcp_shield.Scope.Enforcer.{ScopeEnforcer}
use mcp_shield.Router.State.{Moment, Router, Gateway}
use mcp_shield.Router.Call.{handle_tools_call}
use mcp_shield.Router.Gate.{Cleared, handle_tools_call-gate}
use mcp_shield.Proxy.Server.{
  UpstreamProxy, Client, to_json_string, forward_to_http, forward_request,
}
use mcp_shield.Proxy.Reach.{Reaches, forward_request-Sends}

-- What the network becomes when a call is posted to a URL.
abbrev pub posted : {U : Type 0} → Client U → String → RequestId → Value → U → U
posted c url id params u =
    (c.post url (to_json_string c (request id method_tools_call (some params))) u).0

-- Of a router over the proxy, a call of a tool sends nothing over HTTP, or the call was cleared, and
-- it was posted once, to the URL that requests for its tool's server reach.
pub handle_tools_call-Reaches :
    {U C : Type 0} (c : Client U) (p : UpstreamProxy) (time : String) (r : Router U C)
    (now : Moment) (id : RequestId) (session_id : Option String) (params : Option Value)
    (enforcer : ScopeEnforcer) (g : Gateway U C)
    → r.forward_request ≡ forward_request c p time
    → let v = unwrap_or params (object end) in
      let upstream = (handle_tools_call r now id params enforcer session_id g).0.upstream in
      (upstream ≡ g.upstream)
      ⊎ ((cleared : Cleared r v enforcer session_id g) × (url : String) × Reaches p
            cleared.registered.server_id url
          × (upstream ≡ posted c url id v g.upstream))
unfolding forward_to_http
handle_tools_call-Reaches {U} c p time r now id session_id params enforcer g over =
    let v = unwrap_or params (object end) in
    elim (handle_tools_call-gate r now id session_id params enforcer g) [
      | inl same ↦ inl same
      | inr (cleared, changed) ↦
          let message = request id method_tools_call (some v) in
          let server_id = cleared.registered.server_id in
          let called =
            changed
            ∙ ap
                (λ (f : String → JsonRpcMessage → U → U × Result McpError JsonRpcMessage).
                  (f server_id message g.upstream).0)
                over in
          elim (forward_request-Sends c p time server_id message g.upstream) [
            | inl (url, reaches, sent) ↦ inr (cleared, url, reaches, called ∙ ap (λ x. x.0) sent)
            | inr (nowhere, kept) ↦ inl (called ∙ kept)
          ]
    ]
