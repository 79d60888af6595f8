-- ===== src/Startup/Locking.antt =====
-- What session locking comes to in the gateway that main.rs starts.
use mcp_shield.Prelude.{
  String, ◌≡◌, refl, sym, ◌⊎◌, inl, inr, Option, none, some, [], ok, Bool-cases,
}
use mathlib.Core.Path.{subst}
use mcp_shield.Dict.{lookup}
use mcp_shield.JsonRpc.Message.{JsonRpcMessage}
use mcp_shield.Scope.Enforcer.{ScopeEnforcer}
use mcp_shield.Session.State.{Manager}
use mcp_shield.Router.State.{Moment, Gateway}
use mcp_shield.Router.Route.{handle_message}
use mcp_shield.Router.Checks.{Admits}
use mcp_shield.Router.Unknown.{Unknown, Unknown-Admits}
use mcp_shield.Router.Keeping.{handle_message-Keeps}
use mcp_shield.Startup.Config.{Config}
use mcp_shield.Startup.Assembly.{Surroundings, Started, start, started_with}
use mcp_shield.Startup.Open.{start-eq-ok}

-- The states of a started gateway, after messages in any sessions.
pub data Handles {U C : Type 0} (started : Started U C) : Gateway U C → Type 0 where
  begin : Handles started started.gateway
  next :
      (now : Moment) (enforcer : ScopeEnforcer) (session_id : Option String)
      (message : JsonRpcMessage) {g : Gateway U C}
      → Handles started g
      → Handles started (handle_message started.router now enforcer session_id message g).0

-- There are no sessions.
abbrev Bare : Option Manager → Type 0
Bare sessions = (sessions ≡ none) ⊎ (sessions ≡ some [])

Bare-Unknown :
    (sessions : Option Manager) (session_id : Option String)
    → Bare sessions
    → Unknown sessions session_id
unfolding lookup
Bare-Unknown sessions none (inl gone) = subst (λ s. Unknown s none) (sym gone) tt
Bare-Unknown sessions none (inr bare) = subst (λ s. Unknown s none) (sym bare) tt
Bare-Unknown sessions (some sid) (inl gone) = subst (λ s. Unknown s (some sid)) (sym gone) tt
Bare-Unknown sessions (some sid) (inr bare) = subst (λ s. Unknown s (some sid)) (sym bare) refl

module _ {U C : Type 0} (s : Surroundings U C) (c : Config) (u : U) (started : Started U C)
    (begins : start s c u ≡ ok started) where
  Bare-started : Bare started.gateway.sessions
  unfolding started_with
  Bare-started =
      let (authorizer, same) = start-eq-ok s c u begins in
      subst (λ g. Bare g.gateway.sessions) (sym same)
        (elim (Bool-cases c.guardrails.session_locking) [
          | inl on ↦ rw on (inr refl)
          | inr off ↦ rw off (inl refl)
        ])

  Bare-Handles : (g : Gateway U C) → Handles started g → Bare g.sessions
  Bare-Handles _ begin = Bare-started
  Bare-Handles _ (next now enforcer session_id message {g} run) =
      let bare = Bare-Handles g run in
      subst Bare
        (sym (
          handle_message-Keeps started.router now session_id g.sessions
            (Bare-Unknown g.sessions session_id bare) enforcer message g refl))
        bare

-- Whatever the configuration, with session locking or without, after any messages to a started
-- gateway the session check of every tool passes in every session: no session is ever made.
pub start-never_locks :
    {U C : Type 0} (s : Surroundings U C) (c : Config) (u : U) (started : Started U C)
    (g : Gateway U C) (session_id : Option String) (tool_name : String)
    → start s c u ≡ ok started
    → Handles started g
    → Admits g.sessions session_id tool_name
start-never_locks s c u started g session_id tool_name begins run =
    Unknown-Admits g.sessions session_id tool_name
      (Bare-Unknown g.sessions session_id (Bare-Handles s c u started begins g run))
