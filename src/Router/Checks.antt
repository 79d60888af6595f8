-- ===== src/Router/Checks.antt =====
-- What each check of a tool call keeps, and what it establishes when it passes.
use mcp_shield.Prelude.{
  String, ◌≡◌, refl, ◌⊎◌, inl, inr, true, Option, none, some, Result, ok, err, Bool-cases,
  Result-cases, ◌∙◌, ap, arith,
}
use mcp_shield.Json.{Value}
use mcp_shield.Session.State.{Manager, SessionError, allow, deny, check_context_access}
use mcp_shield.Router.State.{Moment, Router, Gateway, M, ConstraintResult, ◌>>=◌, resume}
use mcp_shield.Router.Call.{
  check_schema, guarded, sessions_check, constraint_verdict, session_verdict, tool_scope, is_null,
}

-- The arguments are null, or the validator accepts them.
abbrev pub Validated : {U C : Type 0} → Router U C → Value → Value → C → Type 0
Validated r schema arguments cache =
    (is_null arguments ≡ true) ⊎ ((r.validate schema arguments cache).1 ≡ ok tt)

-- There is no guardrail, or it evaluates the call and finds all constraints satisfied.
abbrev pub Satisfied :
    Option (String → Value → Result String ConstraintResult) → String → Value → Type 0
Satisfied none tool_name arguments = Unit
Satisfied (some evaluate) tool_name arguments =
    (result : ConstraintResult) × (evaluate tool_name arguments ≡ ok result)
    × (result.satisfied ≡ true)

-- There is no session manager or no session, or the manager does not deny the tool's context.
abbrev pub Admits : Option Manager → Option String → String → Type 0
Admits (some sessions) (some sid) tool_name =
    (check_context_access sid (tool_scope tool_name) sessions ≡ ok allow)
    ⊎ ((e : SessionError) × (check_context_access sid (tool_scope tool_name) sessions ≡ err e))
Admits _ _ tool_name = Unit

-- A step that keeps the upstream servers ends the run with them as they were, or goes on.
pub bind-upstream :
    {U C A B : Type 0} (m : M U C A) (f : A → M U C B) (g : Gateway U C)
    → (m g).0.upstream ≡ g.upstream
    → (((m >>= f) g).0.upstream ≡ g.upstream)
      ⊎ ((a : A) × ((m g).1 ≡ ok a) × ((m >>= f) g ≡ f a (m g).0))
bind-upstream m f g kept = elim (Result-cases (m g).1) [
  | inl (a, returns) ↦ inr (a, returns, ap (resume f (m g).0) returns)
  | inr (e, fails) ↦ inl (ap (λ x. (resume f (m g).0 x).0.upstream) fails ∙ kept)
]

module _ {U C : Type 0} (r : Router U C) where
  pub check_schema-upstream :
      (schema arguments : Value) (g : Gateway U C)
      → (check_schema r schema arguments g).0.upstream ≡ g.upstream
  unfolding check_schema
  check_schema-upstream schema arguments g = ground arith

  pub check_schema-eq-ok :
      (schema arguments : Value) (g : Gateway U C)
      → (check_schema r schema arguments g).1 ≡ ok tt
      → Validated r schema arguments g.schema_validator
  unfolding check_schema
  check_schema-eq-ok schema arguments g passes = elim (Bool-cases (is_null arguments)) [
    | inl absent ↦ inl absent
    | inr present ↦ inr (ground arith)
  ]

  pub check_schema-sessions :
      (schema arguments : Value) (g : Gateway U C)
      → (check_schema r schema arguments g).0.sessions ≡ g.sessions
  unfolding check_schema
  check_schema-sessions schema arguments g = ground arith

  pub guarded-state :
      (guardrail : Option (String → Value → Result String ConstraintResult)) (tool_name : String)
      (arguments : Value) (g : Gateway U C)
      → ((guarded r guardrail tool_name arguments g).0.upstream ≡ g.upstream)
        × ((guarded r guardrail tool_name arguments g).0.sessions ≡ g.sessions)
  unfolding guarded constraint_verdict
  guarded-state none tool_name arguments g = (refl, refl)
  guarded-state (some evaluate) tool_name arguments g =
      elim (Result-cases (evaluate tool_name arguments)) [
        | inl (result, is_ok) ↦ rw is_ok (ground arith)
        | inr (e, is_err) ↦ rw is_err (refl, refl)
      ]

  pub guarded-eq-ok :
      (guardrail : Option (String → Value → Result String ConstraintResult)) (tool_name : String)
      (arguments : Value) (g : Gateway U C)
      → (guarded r guardrail tool_name arguments g).1 ≡ ok tt
      → Satisfied guardrail tool_name arguments
  unfolding guarded constraint_verdict
  guarded-eq-ok none tool_name arguments g passes = tt
  guarded-eq-ok (some evaluate) tool_name arguments g passes =
      elim (Result-cases (evaluate tool_name arguments)) [
        | inl (result, is_ok) ↦ (result, is_ok, ground (arith, is_ok))
        | inr (e, is_err) ↦ absurd (ground (arith, is_err))
      ]

  pub sessions_check-upstream :
      (now : Moment) (sessions : Option Manager) (session_id : Option String) (tool_name : String)
      (arguments : Value) (g : Gateway U C)
      → (sessions_check r now sessions session_id tool_name arguments g).0.upstream ≡ g.upstream
  unfolding sessions_check session_verdict
  sessions_check-upstream now (some m) (some sid) tool_name arguments g =
      elim (Result-cases (check_context_access sid (tool_scope tool_name) m)) [
        | inl (allow, e) ↦ rw e refl
        | inl (deny reason held, e) ↦ rw e refl
        | inr (x, e) ↦ rw e refl
      ]
  sessions_check-upstream now none _ tool_name arguments g = refl
  sessions_check-upstream now (some m) none tool_name arguments g = refl

  pub sessions_check-eq-ok :
      (now : Moment) (sessions : Option Manager) (session_id : Option String) (tool_name : String)
      (arguments : Value) (g : Gateway U C)
      → (sessions_check r now sessions session_id tool_name arguments g).1 ≡ ok tt
      → Admits sessions session_id tool_name
  unfolding sessions_check session_verdict
  sessions_check-eq-ok now (some m) (some sid) tool_name arguments g passes =
      elim (Result-cases (check_context_access sid (tool_scope tool_name) m)) [
        | inl (allow, e) ↦ inl e
        | inl (deny reason held, e) ↦ absurd (ground (arith, e))
        | inr (x, e) ↦ inr (x, e)
      ]
  sessions_check-eq-ok now none _ tool_name arguments g passes = tt
  sessions_check-eq-ok now (some m) none tool_name arguments g passes = tt
