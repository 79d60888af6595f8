-- ===== src/Ecpa/Guardrail.antt =====
-- `RuleEcpaGuardrail` of guardrail/ecpa.rs, whose results are those that the router reads, and what
-- its verdict means.
use mcp_shield.Prelude.{
  String, ◌≡◌, ◌⊎◌, ◌↔◌, refl, inl, inr, Bool, true, false, not, ◌&&◌, none, some, List, [], ◌∷◌,
  Result, ok, err, ◌>>=◌, ok_or, All, arith, if◌then◌else◌, Bool-cases, Option-cases, Result-cases,
  ap, sym, ◌∙◌, ok-injective,
}
use mcp_shield.Text.Defs.{format, join}
use mcp_shield.Dict.{Dict, lookup, insert}
use mcp_shield.Json.{Value, get}
use mcp_shield.Router.State.{PredicateEvaluation, ConstraintResult}
use mcp_shield.Ecpa.Predicate.{
  Regexes, Predicate, EcpaError, unknown_tool, compile_predicate_regex, evaluate_predicate,
  evaluate_fields, matches, text_of,
}

pub record ToolConstraint (R : Type 0) : Type 0 where
  pub tool_name : String
  pub description : String
  pub predicates : List (Predicate R)
  pub block_on_violation : Bool

abbrev pub Store : Type 0 → Type 0
Store R = Dict (ToolConstraint R)

module _ {R : Type 0} (x : Regexes R) where
  values_of : Value → List String → List String
  values_of arguments [] = []
  values_of arguments (f ∷ fs) =
      let rest = values_of arguments fs in
      elim (get arguments f) [ some v ↦ x.print v ∷ rest | none ↦ rest ]

  unfoldable pub extract_field_value : Predicate R → Value → String
  unfolding values_of join
  extract_field_value p arguments = join ", " (values_of arguments p.fields)

  abbrev explanation : Predicate R → Bool → String
  explanation p satisfied =
      if satisfied
      then format ("Predicate '" ∷ p.name ∷ "' satisfied" ∷ [])
      else format ("Predicate '" ∷ p.name ∷ "' violated: " ∷ p.expression ∷ [])

  abbrev evaluation : Predicate R → Value → PredicateEvaluation
  evaluation p arguments = record {
    name = p.name;
    satisfied = evaluate_predicate x p arguments;
    value = extract_field_value p arguments;
    explanation = explanation p (evaluate_predicate x p arguments);
  }

  -- The loop over the predicates: whether all that are required hold, and the evaluations.
  unfoldable pub evaluate_all :
      List (Predicate R) → Value → Result EcpaError (Bool × List PredicateEvaluation)
  evaluate_all [] arguments = ok (true, [])
  evaluate_all (p ∷ ps) arguments = do
    compiled ← compile_predicate_regex x p
    (all_satisfied, evaluations) ← evaluate_all ps arguments
    ok (
      not (not (evaluate_predicate x compiled arguments) && compiled.required) && all_satisfied,
      evaluation compiled arguments ∷ evaluations,
    )

  abbrev result_of : Bool × List PredicateEvaluation → ConstraintResult
  result_of (all_satisfied, evaluations) = record {
    satisfied = all_satisfied;
    evaluations = evaluations;
    summary =
        if all_satisfied
        then "All constraints satisfied"
        else "One or more required constraints violated";
  }

  unfoldable pub evaluate_constraints : Store R → String → Value → Result EcpaError ConstraintResult
  unfolding evaluate_all
  evaluate_constraints store tool_name arguments = do
    constraint ← ok_or (lookup tool_name store) (unknown_tool tool_name)
    evaluated ← evaluate_all constraint.predicates arguments
    ok (result_of evaluated)

  compile_all : List (Predicate R) → Result EcpaError (List (Predicate R))
  compile_all [] = ok []
  compile_all (p ∷ ps) = do p' ← compile_predicate_regex x p; ps' ← compile_all ps; ok (p' ∷ ps')

  -- An error leaves the store as it was.
  unfoldable pub register_constraints :
      ToolConstraint R → Store R → Store R × Result EcpaError (Unit {0})
  unfolding compile_all
  register_constraints constraints store = elim (compile_all constraints.predicates) [
    | ok compiled ↦
        (insert constraints.tool_name (record constraints { predicates = compiled }) store, ok tt)
    | err e ↦ (store, err e)
  ]

  -- A predicate compiles, and is satisfied unless it is not required.
  abbrev pub Holds : Value → Predicate R → Type 0
  Holds arguments p =
      (compiled : Predicate R) × (compile_predicate_regex x p ≡ ok compiled)
      × ((compiled.required ≡ false) ⊎ (evaluate_predicate x compiled arguments ≡ true))

  evaluate_all-Holds :
      (ps : List (Predicate R)) (arguments : Value) (evaluations : List PredicateEvaluation)
      → evaluate_all ps arguments ≡ ok (true, evaluations)
      → All (Holds arguments) ps
  unfolding evaluate_all
  evaluate_all-Holds [] arguments evaluations h = tt
  evaluate_all-Holds (p ∷ ps) arguments evaluations h =
      elim (Result-cases (compile_predicate_regex x p)) [
        | inr (e, fails) ↦ absurd (ground (arith, fails))
        | inl (compiled, compiles) ↦ elim (Result-cases (evaluate_all ps arguments)) [
          | inr (e, fails) ↦ absurd (ground (arith, compiles, fails))
          | inl ((all_satisfied, rest), evaluated) ↦
              let verdict : (not
                      (not (evaluate_predicate x compiled arguments) && compiled.required)
                    && all_satisfied)
                  ≡ true =
                ground (arith, compiles, evaluated) in
              let others : evaluate_all ps arguments ≡ ok (true, rest) =
                ground (arith, verdict, evaluated) in
              (
                (
                  compiled,
                  compiles,
                  elim (Bool-cases compiled.required) [
                    | inr optional ↦ inl optional
                    | inl required ↦ inr (ground (arith, verdict, required))
                  ],
                ),
                evaluate_all-Holds ps arguments rest others,
              )
        ]
      ]

  Holds-evaluate_all :
      (ps : List (Predicate R)) (arguments : Value)
      → All (Holds arguments) ps
      → (evaluations : List PredicateEvaluation) × (evaluate_all ps arguments
          ≡ ok (true, evaluations))
  unfolding evaluate_all
  Holds-evaluate_all [] arguments h = ([], refl)
  Holds-evaluate_all (p ∷ ps) arguments ((compiled, compiles, holds), others) =
      let (rest, evaluated) = Holds-evaluate_all ps arguments others in
      let verdict : (not (not (evaluate_predicate x compiled arguments) && compiled.required)
            && true)
          ≡ true =
        elim holds [
          | inl optional ↦ ground (arith, optional)
          | inr satisfied ↦ ground (arith, satisfied)
        ] in
      (
        evaluation compiled arguments ∷ rest,
        rw compiles (rw evaluated (ap (λ b. ok (b, evaluation compiled arguments ∷ rest)) verdict)),
      )

  -- A tool with constraints is found to satisfy them exactly if every predicate compiles and is
  -- satisfied or not required.
  pub evaluate_constraints-Holds_iff :
      (store : Store R) (tool_name : String) (constraint : ToolConstraint R) (arguments : Value)
      → lookup tool_name store ≡ some constraint
      → ((result : ConstraintResult) × (evaluate_constraints store tool_name arguments ≡ ok result)
          × (result.satisfied ≡ true))
        ↔ All (Holds arguments) constraint.predicates
  unfolding evaluate_constraints
  evaluate_constraints-Holds_iff store tool_name constraint arguments found = (
    λ (result, returns, satisfied).
        elim (Result-cases (evaluate_all constraint.predicates arguments)) [
          | inr (e, fails) ↦ absurd (ground (arith, found, fails, returns))
          | inl ((all_satisfied, evaluations), evaluated) ↦
              let same : result_of (all_satisfied, evaluations) ≡ result =
                ok-injective (sym (runs (all_satisfied, evaluations) evaluated) ∙ returns) in
              evaluate_all-Holds constraint.predicates arguments evaluations
                (evaluated ∙ ap (λ b. ok (b, evaluations)) (ap (λ r. r.satisfied) same ∙ satisfied))
        ],
    λ holds.
        let (evaluations, evaluated) = Holds-evaluate_all constraint.predicates arguments holds in
        (result_of (true, evaluations), runs (true, evaluations) evaluated, refl),
  )
    where
      runs :
          (evaluated : Bool × List PredicateEvaluation)
          → evaluate_all constraint.predicates arguments ≡ ok evaluated
          → evaluate_constraints store tool_name arguments ≡ ok (result_of evaluated)
      runs evaluated returns = rw (found, evaluate_constraints) (rw returns refl)

  -- A predicate with a regular expression is decided by its first field alone.
  pub evaluate_fields-first :
      (p : Predicate R) (regex : R) (arguments : Value) (f : String) (fs : List String)
      → p.compiled_regex ≡ some regex
      → evaluate_fields x p arguments (f ∷ fs) ≡ evaluate_fields x p arguments (f ∷ [])
  unfolding evaluate_fields
  evaluate_fields-first p regex arguments f fs compiled = elim (Option-cases (get arguments f)) [
    | inl absent ↦ misses absent fs ∙ sym (misses absent [])
    | inr (v, present) ↦ decides v present fs ∙ sym (decides v present [])
  ]
    where
      misses :
          get arguments f ≡ none
          → (rest : List String) → evaluate_fields x p arguments (f ∷ rest) ≡ not p.required
      misses absent rest = rw (absent, evaluate_fields) refl

      decides :
          (v : Value)
          → get arguments f ≡ some v
          → (rest : List String)
          → evaluate_fields x p arguments (f ∷ rest) ≡ matches x p.name regex (text_of x v)
      decides v present rest = rw (present, evaluate_fields) (rw compiled refl)
