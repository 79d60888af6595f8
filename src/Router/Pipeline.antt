-- ===== src/Router/Pipeline.antt =====
-- What a message needs to pass in gateway/router.rs before an upstream server is called for it.
use mathlib.Core.Path.{subst}
use mcp_shield.Prelude.{
  String, ◌≡◌, ◌≢◌, refl, ◌⊎◌, inl, inr, true, false, ◌||◌, not, ◌&&◌, Option, some, List, [], ◌∷◌,
  Result, ok, Bool-cases, Option-cases, ◌∙◌, ap, sym, arith, unwrap_or, ◌==◌, eq_iff, contains,
  starts_with, All-contains,
}
use mcp_shield.Json.{Value, object, end}
use mcp_shield.Error.{RequestId, McpError}
use mcp_shield.Message.{
  method_initialize, method_initialized, method_ping, method_tools_list, method_tools_call,
  method_shutdown, method_resources_list, method_prompts_list, is_valid_method,
}
use mcp_shield.JsonRpc.Message.{
  JsonRpcMessage, method_not_found_response, request, notification, success, error, batch, nil,
  cons,
}
use mcp_shield.Scope.Enforcer.{ScopeEnforcer, check_method}
use mcp_shield.Router.State.{Moment, Router, Gateway, M, ◌>>◌, lift}
use mcp_shield.Router.Call.{proxy_to_upstream, forward}
use mcp_shield.Router.Audit.{publish}
use mcp_shield.Router.Route.{auth_request, check_policy, dispatch, handle_request, handle_message}
use mcp_shield.Router.Checks.{bind-upstream}
use mcp_shield.Router.Policy.{Allows, authorized-state, authorized-eq-ok}
use mcp_shield.Router.Gate.{Cleared, after_call, handle_tools_call-gate}

-- The methods that the gateway answers itself.
abbrev pub local_methods : List String
local_methods =
    method_initialize ∷ method_ping ∷ method_tools_list ∷ method_shutdown ∷ method_initialized ∷ []

-- A call of a tool is cleared and goes to the tool's server; a request for any other method goes to
-- the default server as it is, unless the gateway answers that method itself.
abbrev pub Sent :
    {U C : Type 0}
    → Router U C
    → ScopeEnforcer
    → Option String
    → Gateway U C
    → RequestId
    → String
    → Option Value
    → U
    → Type 0
Sent r enforcer session_id g id method params upstream =
    ((method ≡ method_tools_call)
      × ((c : Cleared r (unwrap_or params (object end)) enforcer session_id g) × (upstream
            ≡ after_call r id (unwrap_or params (object end)) c.registered g.upstream)))
    ⊎ ((method ≢ method_tools_call)
        × (contains local_methods method ≡ false)
        × (server_id : String) × (r.default_server_id g.upstream ≡ some server_id)
        × (upstream ≡ (r.forward_request server_id (request id method params) g.upstream).0))

-- Of a batch, the first message, as far down as batches go.
unfoldable pub head_message : JsonRpcMessage → JsonRpcMessage
head_message (batch (cons m ms)) = head_message m
head_message m = m

-- A request that is sent is for a known method, which its scopes and the policy engine allow.
pub record Approved {U C : Type 0} (r : Router U C) (enforcer : ScopeEnforcer)
    (session_id : Option String) (g : Gateway U C) (id : RequestId) (method : String)
    (params : Option Value) (upstream : U) : Type 0 where
  pub known : is_valid_method method || starts_with method "notifications/" ≡ true
  pub scoped : check_method enforcer method ≡ ok tt
  pub allowed : Allows r.authorizer (auth_request method params enforcer)
  pub sent : Sent r enforcer session_id g id method params upstream

eq-false→ne : (s t : String) → (s == t) ≡ false → s ≢ t
eq-false→ne s t differs same = ground (arith, eq_iff s t, differs, same)

module _ {U C : Type 0} (r : Router U C) (now : Moment) (enforcer : ScopeEnforcer)
    (session_id : Option String) where
  dispatch-local :
      (id : RequestId) (method : String) (params : Option Value) (g : Gateway U C)
      → contains local_methods method ≡ true
      → (dispatch r now enforcer session_id id method params g).0.upstream ≡ g.upstream
  unfolding dispatch
  dispatch-local id method params g is_local =
      All-contains (λ m. (dispatch r now enforcer session_id id m params g).0.upstream ≡ g.upstream)
        local_methods method (refl, (refl, (refl, (refl, (refl, tt))))) is_local

  dispatch-proxy :
      (id : RequestId) (method : String) (params : Option Value) (g : Gateway U C)
      → contains local_methods method ≡ false
      → (method == method_tools_call) ≡ false
      → dispatch r now enforcer session_id id method params g
        ≡ proxy_to_upstream r id method params g
  unfolding dispatch
  dispatch-proxy id method params g is_remote no_call =
      let no_initialize : (method == method_initialize) ≡ false = other method_initialize refl in
      let no_ping : (method == method_ping) ≡ false = other method_ping refl in
      let no_list : (method == method_tools_list) ≡ false = other method_tools_list refl in
      let no_shutdown : (method == method_shutdown) ≡ false = other method_shutdown refl in
      let no_initialized : (method == method_initialized) ≡ false = other method_initialized refl in
      elim (Bool-cases (method == method_resources_list || method == method_prompts_list)) [
        | inl listing ↦ rw (no_initialize, no_ping, no_list, no_call, listing) refl
        | inr no_listing ↦
            rw (no_initialize, no_ping, no_list, no_call, no_listing, no_shutdown, no_initialized)
              refl
      ]
    where
      other : (m : String) → contains local_methods m ≡ true → (method == m) ≡ false
      other m is_local = elim (Bool-cases (method == m)) [
        | inr differs ↦ differs
        | inl same ↦
            cc (is_local, is_remote, ap (contains local_methods) ((eq_iff method m).0 same))
      ]

  proxy-gate :
      (id : RequestId) (method : String) (params : Option Value) (g : Gateway U C)
      → contains local_methods method ≡ false
      → method ≢ method_tools_call
      → ((proxy_to_upstream r id method params g).0.upstream ≡ g.upstream)
        ⊎ Sent r enforcer session_id g id method params
            (proxy_to_upstream r id method params g).0.upstream
  unfolding proxy_to_upstream forward
  proxy-gate id method params g is_remote no_call =
      elim (Option-cases (r.default_server_id g.upstream)) [
        | inl nowhere ↦ inl (rw (nowhere, proxy_to_upstream) refl)
        | inr (server_id, is_default) ↦ inr (
            inr
              (no_call, is_remote, server_id, is_default, rw (is_default, proxy_to_upstream) refl))
      ]

  publish-upstream :
      (message : JsonRpcMessage) (run : Gateway U C × Result McpError JsonRpcMessage)
      → (publish r now enforcer session_id message run).0.upstream ≡ run.0.upstream
  unfolding publish
  publish-upstream message (g, result) = ground arith

  call-gate :
      (id : RequestId) {method : String} (params : Option Value) (g : Gateway U C)
      → method ≡ method_tools_call
      → let upstream = (dispatch r now enforcer session_id id method params g).0.upstream in
        (upstream ≡ g.upstream) ⊎ Sent r enforcer session_id g id method params upstream
  unfolding dispatch
  call-gate id {method} params g is_call =
      let run = ap (λ m. (dispatch r now enforcer session_id id m params g).0.upstream) is_call in
      elim (handle_tools_call-gate r now id session_id params enforcer g) [
        | inl same ↦ inl (run ∙ same)
        | inr (cleared, changed) ↦ inr (inl (is_call, (cleared, run ∙ changed)))
      ]

  dispatch-gate :
      (id : RequestId) (method : String) (params : Option Value) (g : Gateway U C)
      → let upstream = (dispatch r now enforcer session_id id method params g).0.upstream in
        (upstream ≡ g.upstream) ⊎ Sent r enforcer session_id g id method params upstream
  dispatch-gate id method params g = elim (Bool-cases (contains local_methods method)) [
    | inl is_local ↦ inl (dispatch-local id method params g is_local)
    | inr is_remote ↦ elim (Bool-cases (method == method_tools_call)) [
      | inl is_call ↦ call-gate id params g ((eq_iff method method_tools_call).0 is_call)
      | inr no_call ↦
          subst
            (λ run.
              (run.0.upstream ≡ g.upstream)
              ⊎ Sent r enforcer session_id g id method params run.0.upstream)
            (sym (dispatch-proxy id method params g is_remote no_call))
            (proxy-gate id method params g is_remote (eq-false→ne method method_tools_call no_call))
    ]
  ]

  handle_request-gate :
      (id : RequestId) (method : String) (params : Option Value) (g : Gateway U C)
      → let upstream = (handle_request r now enforcer session_id id method params g).0.upstream in
        (upstream ≡ g.upstream) ⊎ Approved r enforcer session_id g id method params upstream
  unfolding handle_request check_policy
  handle_request-gate id method params g =
      elim (Bool-cases
        (not (is_valid_method method) && not (starts_with method "notifications/"))) [
          | inl unknown ↦ inl (ap (λ x. x.0.upstream) (stops unknown))
          | inr known ↦
              elim (bind-upstream (lift (check_method enforcer method)) (λ _. checked) g refl) [
                | inl same ↦ inl (ap (λ x. x.0.upstream) (runs known) ∙ same)
                | inr (tt, scoped, continues) ↦
                    elim (bind-upstream (check_policy r now enforcer session_id method params)
                      (λ _. last) g
                      (authorized-state r now enforcer session_id r.authorizer
                        (auth_request method params enforcer) g)) [
                          | inl same ↦ inl (ap (λ x. x.0.upstream) (runs known ∙ continues) ∙ same)
                          | inr (tt, passes, goes_on) ↦
                              let (allowed, kept) =
                                authorized-eq-ok r now enforcer session_id r.authorizer
                                  (auth_request method params enforcer) g passes in
                              let run =
                                ap (λ x. x.0.upstream)
                                  (runs known ∙ (continues ∙ (goes_on ∙ ap last kept))) in
                              elim (dispatch-gate id method params g) [
                                | inl same ↦ inl (run ∙ same)
                                | inr sent ↦ inr (record {
                                  known = is_known known;
                                  scoped = scoped;
                                  allowed = allowed;
                                  sent =
                                      subst (Sent r enforcer session_id g id method params)
                                        (sym run) sent;
                                })
                              ]
                        ]
              ]
        ]
    where
      is_known :
          (not (is_valid_method method) && not (starts_with method "notifications/")) ≡ false
          → (is_valid_method method || starts_with method "notifications/") ≡ true
      is_known known = ground (arith, known)

      last : M U C JsonRpcMessage
      last = dispatch r now enforcer session_id id method params

      checked : M U C JsonRpcMessage
      checked = check_policy r now enforcer session_id method params >> last

      stops :
          (not (is_valid_method method) && not (starts_with method "notifications/")) ≡ true
          → handle_request r now enforcer session_id id method params g
            ≡ (g, ok (method_not_found_response id method))
      stops unknown = rw (unknown, handle_request) refl

      runs :
          (not (is_valid_method method) && not (starts_with method "notifications/")) ≡ false
          → handle_request r now enforcer session_id id method params g
            ≡ (lift (check_method enforcer method) >> checked) g
      runs known = rw (known, handle_request) refl

  -- Whatever a message does, the upstream servers are as they were, or the message, or the first of
  -- its batch, is an approved request.
  pub handle_message-gate :
      (message : JsonRpcMessage) (g : Gateway U C)
      → let upstream = (handle_message r now enforcer session_id message g).0.upstream in
        (upstream ≡ g.upstream)
        ⊎ ((id : RequestId) × (method : String) × (params : Option Value) × (head_message message
              ≡ request id method params)
            × Approved r enforcer session_id g id method params upstream)
  unfolding handle_message head_message
  handle_message-gate (batch (cons m ms)) g = handle_message-gate m g
  handle_message-gate (batch nil) g = inl (publish-upstream (batch nil) _)
  handle_message-gate (notification method params) g =
      inl (publish-upstream (notification method params) _)
  handle_message-gate (success id result) g = inl (publish-upstream (success id result) _)
  handle_message-gate (error id body) g = inl (publish-upstream (error id body) _)
  handle_message-gate (request id method params) g =
      let published =
        publish-upstream (request id method params)
          (handle_request r now enforcer session_id id method params g) in
      elim (handle_request-gate id method params g) [
        | inl same ↦ inl (published ∙ same)
        | inr approved ↦ inr (
          id,
          method,
          params,
          refl,
          subst (Approved r enforcer session_id g id method params) (sym published) approved,
        )
      ]
