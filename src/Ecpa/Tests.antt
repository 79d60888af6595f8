-- ===== src/Ecpa/Tests.antt =====
-- Constraints on a shell, and the theorems at them.
use mcp_shield.Json
use mcp_shield.Prelude.{
  false, ℕ, ◌+◌, ◌⊎◌, String, ◌≡◌, ◌↔◌, refl, true, none, some, [], ◌∷◌, ok, All, starts_with,
}
use mcp_shield.Dict.{lookup, insert}
use mcp_shield.Json.{Value, object, end, field, get}
use mcp_shield.Error.{RequestId}
use mcp_shield.JsonRpc.Serde.{serde}
use mcp_shield.Registry.State.{with_config, register_tool, lookup_any}
use mcp_shield.Message.{Tool}
use mcp_shield.Scope.Enforcer.{allow_all, check_tool_access}
use mcp_shield.Router.State.{Router, Moment, Gateway, ConstraintResult}
use mcp_shield.Router.Call.{
  handle_tools_call, check_schema, check_constraints, constraint_verdict, check_session, forward,
}
use mcp_shield.Router.Gate.{Cleared, arguments_of}
use mcp_shield.Ecpa.Enforced.{guardrail_of, Constrained, handle_tools_call-Constrained}
use mcp_shield.Text.Defs.{trim, is_whitespace, byte_len, all_chars}
use mcp_shield.Registry.Name.{parse_tool_name, is_name_char, qualify}
use mcp_shield.Ecpa.Predicate.{
  Regexes, Predicate, evaluate_fields, evaluate_predicate, compile_predicate_regex, matches,
  fallback, unquote,
}
use mcp_shield.Ecpa.Guardrail.{
  ToolConstraint, Store, evaluate_constraints, register_constraints, Holds,
  evaluate_constraints-Holds_iff, evaluate_fields-first,
}

machine : Unit {0}
unfolding evaluate_fields evaluate_predicate evaluate_constraints register_constraints
    compile_predicate_regex matches fallback get lookup insert unquote
machine = tt

-- Patterns that match where the text starts with them.
abbrev prefixes : Regexes String
prefixes = record {
  compile = λ pattern. ok pattern;
  is_match = λ pattern value. starts_with value pattern;
  escape = λ s. s;
  print = λ v. "…";
}

abbrev no_rm : Predicate String
no_rm = record {
  name = "no_dangerous_patterns";
  fields = "command" ∷ "args" ∷ [];
  expression = "rm -rf";
  required = true;
  compiled_regex = some "rm -rf";
}

abbrev echo_only : Predicate String
echo_only = record {
  name = "starts_with";
  fields = "command" ∷ [];
  expression = "'echo'";
  required = true;
  compiled_regex = none;
}

abbrev shell : ToolConstraint String
shell = record {
  tool_name = "shell:exec";
  description = "a shell";
  predicates = no_rm ∷ echo_only ∷ [];
  block_on_violation = true;
}

abbrev arguments : Value
arguments = object (field "command" (Json.string "echo") (field "args" (Json.string "rm -rf") end))

abbrev store : Store String
store = ("shell:exec", shell) ∷ []

-- The second field of the predicate is never read.
dangerous_args : evaluate_predicate prefixes no_rm arguments ≡ true
unfolding machine
dangerous_args = refl

found : lookup "shell:exec" store ≡ some shell
unfolding machine
found = refl

evaluate_constraints-Holds_iff_example :
    ((result : ConstraintResult) × (evaluate_constraints prefixes store "shell:exec" arguments
        ≡ ok result)
      × (result.satisfied ≡ true))
    ↔ All (Holds prefixes arguments) shell.predicates
evaluate_constraints-Holds_iff_example =
    evaluate_constraints-Holds_iff prefixes store "shell:exec" shell arguments found

evaluate_fields-first_example :
    evaluate_fields prefixes no_rm arguments ("command" ∷ "args" ∷ [])
    ≡ evaluate_fields prefixes no_rm arguments ("command" ∷ [])
evaluate_fields-first_example =
    evaluate_fields-first prefixes no_rm "rm -rf" arguments "command" ("args" ∷ []) refl

abbrev shell_tool : Tool
shell_tool = record {
  name = "shell:exec";
  description = none;
  input_schema = object end;
  annotations = none;
}

-- A router with this guardrail and a shell.
abbrev router : Router ℕ (Unit {0})
router = record {
  registry = (register_tool shell_tool "server" 1 (with_config false [])).0;
  server_name = "gateway";
  server_version = "1";
  forward_request = λ server message n. (n + 1, ok message);
  default_server_id = λ n. some "server";
  validate = λ schema instance_value cache. (cache, ok tt);
  read_initialize = λ v. ok tt;
  authorizer = none;
  ecpa_guardrail = some (guardrail_of prefixes store);
  egress_inspector = none;
  has_audit_producer = false;
  codec = serde;
}

abbrev now : Moment
now = record {
  event_id = "e";
  timestamp = "t";
  called_at = 1;
  logged_at = 2;
  elapsed = 3;
  duration_ms = 4;
}

abbrev idle : Gateway ℕ (Unit {0})
idle = record { upstream = 0; schema_validator = tt; sessions = none; metrics = []; audited = [] }

abbrev params : Value
params = object (field "name" (Json.string "shell:exec") (field "arguments" arguments end))

-- A set of constraints whose violations are said not to block stops the call all the same.
abbrev lenient : Router ℕ (Unit {0})
lenient = record router {
  ecpa_guardrail =
      some
        (guardrail_of prefixes (("shell:exec", record shell { block_on_violation = false }) ∷ []));
}

abbrev violating : Value
violating = object (
    field "name" (Json.string "shell:exec")
      (field "arguments" (object (field "command" (Json.string "rm") end)) end))

called : Unit {0}
unfolding machine handle_tools_call check_tool_access allow_all lookup_any register_tool
    parse_tool_name trim is_whitespace byte_len all_chars is_name_char qualify check_schema
    check_constraints constraint_verdict check_session forward guardrail_of
called = tt

lenient_stops :
    (handle_tools_call lenient now RequestId.null (some violating) allow_all none idle).0.upstream
    ≡ 0
unfolding called
lenient_stops = refl

lenient_passes :
    (handle_tools_call lenient now RequestId.null (some params) allow_all none idle).0.upstream ≡ 1
unfolding called
lenient_passes = refl

handle_tools_call-Constrained_example :
    ((handle_tools_call router now RequestId.null (some params) allow_all none idle).0.upstream ≡ 0)
    ⊎ ((c : Cleared router params allow_all none idle) × Constrained prefixes store c.tool_name
          (arguments_of params))
handle_tools_call-Constrained_example =
    handle_tools_call-Constrained prefixes store router now RequestId.null none (some params)
      allow_all idle refl
