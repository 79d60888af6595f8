-- ===== src/Router/Policy.antt =====
-- The policy engine's part in gateway/router.rs: what passing it means, and what it keeps.
use mcp_shield.Prelude.{
  String, ◌≡◌, refl, inl, inr, Option, none, some, Result, ok, Result-cases, arith,
}
use mcp_shield.Scope.Enforcer.{ScopeEnforcer}
use mcp_shield.Router.State.{
  Moment, Router, Gateway, Decision, AuthorizationRequest, AuthorizationResponse,
}
use mcp_shield.Router.Route.{authorized, policy_verdict}

-- There is no policy engine, or it allows the request.
abbrev pub Allows :
    Option (AuthorizationRequest → Result String AuthorizationResponse)
    → AuthorizationRequest
    → Type 0
Allows none wanted = Unit
Allows (some evaluate) wanted =
    (response : AuthorizationResponse) × (evaluate wanted ≡ ok response)
    × (response.decision ≡ Decision.allow)

module _ {U C : Type 0} (r : Router U C) (now : Moment) (enforcer : ScopeEnforcer)
    (session_id : Option String) where
  pub authorized-state :
      (authorizer : Option (AuthorizationRequest → Result String AuthorizationResponse))
      (wanted : AuthorizationRequest) (g : Gateway U C)
      → ((authorized r now enforcer session_id authorizer wanted g).0.upstream ≡ g.upstream)
  unfolding authorized policy_verdict
  authorized-state none wanted g = refl
  authorized-state (some evaluate) wanted g = elim (Result-cases (evaluate wanted)) [
    | inl (response, e) ↦ rw e (ground arith)
    | inr (text, e) ↦ rw e refl
  ]

  pub authorized-eq-ok :
      (authorizer : Option (AuthorizationRequest → Result String AuthorizationResponse))
      (wanted : AuthorizationRequest) (g : Gateway U C)
      → (authorized r now enforcer session_id authorizer wanted g).1 ≡ ok tt
      → Allows authorizer wanted
        × ((authorized r now enforcer session_id authorizer wanted g).0 ≡ g)
  unfolding authorized policy_verdict
  authorized-eq-ok none wanted g passes = (tt, refl)
  authorized-eq-ok (some evaluate) wanted g passes = elim (Result-cases (evaluate wanted)) [
    | inl (response, e) ↦ ((response, e, ground (arith, e)), rw e (ground (arith, e)))
    | inr (text, e) ↦ absurd (ground (arith, e))
  ]
