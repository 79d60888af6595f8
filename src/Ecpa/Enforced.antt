-- ===== src/Ecpa/Enforced.antt =====
-- The guardrail of guardrail/ecpa.rs in the router of gateway/router.rs.
use mcp_shield.Prelude.{
  String, ◌≡◌, refl, ◌⊎◌, inl, inr, Option, none, some, [], ◌∷◌, Result, ok, err, All, arith, ap,
  ◌∙◌, Option-cases, Result-cases, unwrap_or,
}
use mathlib.Core.Path.{subst}
use mcp_shield.Text.Defs.{format}
use mcp_shield.Dict.{lookup}
use mcp_shield.Json.{Value, object, end}
use mcp_shield.Error.{RequestId}
use mcp_shield.Scope.Enforcer.{ScopeEnforcer}
use mcp_shield.Router.State.{Moment, Router, Gateway, ConstraintResult}
use mcp_shield.Router.Call.{handle_tools_call}
use mcp_shield.Router.Checks.{Satisfied}
use mcp_shield.Router.Gate.{Cleared, arguments_of, handle_tools_call-gate}
use mcp_shield.Ecpa.Predicate.{
  Regexes, EcpaError, evaluation_error, unknown_tool, parse_error, regex_error, io_error,
}
use mcp_shield.Ecpa.Guardrail.{
  Store, ToolConstraint, evaluate_constraints, Holds, evaluate_constraints-Holds_iff,
}

-- The `Display` of an error.
unfoldable pub ecpa_text : EcpaError → String
unfolding format
ecpa_text (evaluation_error s) = format ("Constraint evaluation error: " ∷ s ∷ [])
ecpa_text (unknown_tool s) = format ("Unknown tool: " ∷ s ∷ [])
ecpa_text (parse_error s) = format ("Predicate parse error: " ∷ s ∷ [])
ecpa_text (regex_error s) = format ("Regex compilation error: " ∷ s ∷ [])
ecpa_text (io_error s) = format ("IO error: " ∷ s ∷ [])

abbrev pub with_text : {A : Type 0} → Result EcpaError A → Result String A
with_text (ok a) = ok a
with_text (err e) = err (ecpa_text e)

-- The guardrail as the router calls it.
unfoldable pub guardrail_of :
    {R : Type 0} → Regexes R → Store R → String → Value → Result String ConstraintResult
guardrail_of x store tool_name arguments =
    with_text (evaluate_constraints x store tool_name arguments)

module _ {R : Type 0} (x : Regexes R) (store : Store R) where
  -- The tool has constraints, all of whose predicates hold of the arguments.
  abbrev pub Constrained : String → Value → Type 0
  Constrained tool_name arguments =
      (constraint : ToolConstraint R) × (lookup tool_name store ≡ some constraint)
      × All (Holds x arguments) constraint.predicates

  Satisfied-Constrained :
      (tool_name : String) (arguments : Value)
      → Satisfied (some (guardrail_of x store)) tool_name arguments
      → Constrained tool_name arguments
  unfolding guardrail_of evaluate_constraints
  Satisfied-Constrained tool_name arguments (result, returns, satisfied) =
      elim (Option-cases (lookup tool_name store)) [
        | inl unknown ↦ absurd (ground (arith, refuses unknown, returns))
        | inr (constraint, found) ↦
            elim (Result-cases (evaluate_constraints x store tool_name arguments)) [
              | inr (e, fails) ↦ absurd (ground (arith, fails, returns))
              | inl (evaluated, runs) ↦
                  let same : evaluated ≡ result = ground (arith, runs, returns) in
                  (
                    constraint,
                    found,
                    (evaluate_constraints-Holds_iff x store tool_name constraint arguments found).0
                        (result, runs ∙ ap ok same, satisfied),
                  )
            ]
      ]
    where
      refuses :
          lookup tool_name store ≡ none
          → evaluate_constraints x store tool_name arguments ≡ err (unknown_tool tool_name)
      refuses unknown = rw (unknown, evaluate_constraints) refl

  -- With this guardrail, the upstream servers are as they were after a call of a tool, or the call
  -- was cleared and its tool has constraints that hold of its arguments, also where their
  -- `block_on_violation` is false.
  pub handle_tools_call-Constrained :
      {U C : Type 0} (r : Router U C) (now : Moment) (id : RequestId) (session_id : Option String)
      (params : Option Value) (enforcer : ScopeEnforcer) (g : Gateway U C)
      → r.ecpa_guardrail ≡ some (guardrail_of x store)
      → let v = unwrap_or params (object end) in
        ((handle_tools_call r now id params enforcer session_id g).0.upstream ≡ g.upstream)
        ⊎ ((c : Cleared r v enforcer session_id g) × Constrained c.tool_name (arguments_of v))
  handle_tools_call-Constrained r now id session_id params enforcer g guarded =
      let v = unwrap_or params (object end) in
      elim (handle_tools_call-gate r now id session_id params enforcer g) [
        | inl same ↦ inl same
        | inr (c, changed) ↦ inr (
          c,
          Satisfied-Constrained c.tool_name (arguments_of v) (
              subst (λ guardrail. Satisfied guardrail c.tool_name (arguments_of v)) guarded
                c.passed.satisfied),
        )
      ]
