-- ===== src/Router/Unknown.antt =====
-- A session that the session manager does not know: what gateway/router.rs does with its messages.
use mcp_shield.Prelude.{String, ◌≡◌, refl, ap, ◌∙◌, inr, Option, none, some, ok, err, arith, Result}
use mcp_shield.Dict.{lookup}
use mcp_shield.Json.{Value}
use mcp_shield.Scope.Enforcer.{ScopeEnforcer}
use mcp_shield.Session.State.{
  Manager, ToolCallRecord, not_found, modify, check_context_access, log_tool_call,
}
use mcp_shield.Router.State.{Moment, Router, Gateway, AuthorizationRequest, AuthorizationResponse}
use mcp_shield.Router.Call.{sessions_check, session_verdict, log_call, tool_scope}
use mcp_shield.Router.Checks.{Admits}
use mcp_shield.Router.Route.{policy_verdict, authorized}

-- There is no session manager or no session, or the manager does not know the session.
abbrev pub Unknown : Option Manager → Option String → Type 0
Unknown (some m) (some sid) = lookup sid m ≡ none
Unknown _ _ = Unit

-- The check of an unknown session passes.
pub Unknown-Admits :
    (sessions : Option Manager) (session_id : Option String) (tool_name : String)
    → Unknown sessions session_id
    → Admits sessions session_id tool_name
unfolding check_context_access
Unknown-Admits (some m) (some sid) tool_name unknown =
    inr (not_found sid, rw (unknown, check_context_access) refl)
Unknown-Admits none _ tool_name unknown = tt
Unknown-Admits (some m) none tool_name unknown = tt

-- Nothing is logged for an unknown session.
pub sessions-sessions_check :
    {U C : Type 0} (r : Router U C) (now : Moment) (session_id : Option String)
    (sessions : Option Manager) (tool_name : String) (arguments : Value) (g : Gateway U C)
    → Unknown sessions session_id
    → g.sessions ≡ sessions
    → (sessions_check r now sessions session_id tool_name arguments g).0.sessions ≡ sessions
unfolding sessions_check session_verdict check_context_access log_tool_call modify
sessions-sessions_check r now none none tool_name arguments g h same = same
sessions-sessions_check r now (some sid) none tool_name arguments g h same = same
sessions-sessions_check r now (some sid) (some m) tool_name arguments g h same =
    ap (λ v. (session_verdict r v (log_call r now sid tool_name arguments m) g).0.sessions) refused
    ∙ ap some kept
  where
    call : ToolCallRecord
    call = record { tool_name = tool_name; arguments = arguments; timestamp = now.called_at }

    refused : check_context_access sid (tool_scope tool_name) m ≡ err (not_found sid)
    refused = rw (h, check_context_access) refl

    kept : (log_tool_call sid call now.logged_at m).0 ≡ m
    kept = rw (h, modify) refl
sessions-sessions_check r now none (some m) tool_name arguments g h same = same

pub sessions-policy_verdict :
    {U C : Type 0} (r : Router U C) (now : Moment) (enforcer : ScopeEnforcer)
    (session_id : Option String) (v : Result String AuthorizationResponse) (g : Gateway U C)
    → (policy_verdict r now enforcer session_id v g).0.sessions ≡ g.sessions
unfolding policy_verdict
sessions-policy_verdict r now enforcer session_id (ok response) g = ground arith
sessions-policy_verdict r now enforcer session_id (err e) g = refl

pub sessions-authorized :
    {U C : Type 0} (r : Router U C) (now : Moment) (enforcer : ScopeEnforcer)
    (session_id : Option String)
    (engine : Option (AuthorizationRequest → Result String AuthorizationResponse))
    (wanted : AuthorizationRequest) (g : Gateway U C)
    → (authorized r now enforcer session_id engine wanted g).0.sessions ≡ g.sessions
unfolding authorized
sessions-authorized r now enforcer session_id none wanted g = refl
sessions-authorized r now enforcer session_id (some evaluate) wanted g =
    sessions-policy_verdict r now enforcer session_id (evaluate wanted) g
