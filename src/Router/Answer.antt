-- ===== src/Router/Answer.antt =====
-- What gateway/router.rs does with an answer: the inspection of a response, and the audit of a result.
use mcp_shield.Prelude.{
  String, ◌≡◌, ◌↔◌, refl, true, Option, none, some, List, [], ◌∷◌, Result, ok, err, arith, is_some,
  Option-cases, inl, inr, ap, if◌then◌else◌, eq_iff, ◌==◌,
}
use mcp_shield.Json.{
  Value, Fields, array, object, end, field, get, put, find_field, set_field, array_of, of_items,
}
use mcp_shield.Error.{RequestId, McpError, scope_denied, error_code}
use mcp_shield.JsonRpc.Message.{JsonRpcMessage, success}
use mcp_shield.Router.State.{Router, AuthDecision}
use mcp_shield.Egress.Defs.{InspectableResult, InspectionResult}
use mcp_shield.Router.Call.{inspect, inspected, rebuild, replace_content}
use mcp_shield.Router.Audit.{decide}

find_field-set_field :
    (k j : String) (v : Value) (fs : Fields)
    → find_field j (set_field k v fs) ≡ (if k == j then some v else find_field j fs)
unfolding find_field set_field
find_field-set_field k j v end = refl
find_field-set_field k j v (field i w fs) =
    ground (arith, eq_iff i k, eq_iff i j, eq_iff k j, find_field-set_field k j v fs)

-- The audit reports a denial by the policy exactly for the errors that say that a scope is denied,
-- whichever check raised them.
pub decide-deny_policy_iff :
    (result : Result McpError JsonRpcMessage)
    → (decide result ≡ AuthDecision.deny_policy)
      ↔ ((text : String) × (result ≡ err (scope_denied text)))
unfolding decide error_code
decide-deny_policy_iff (ok response) = (λ h. cc, λ h. cc)
decide-deny_policy_iff (err (scope_denied text)) = (λ h. (text, refl), λ h. refl)
decide-deny_policy_iff (err _) = (λ h. cc, λ h. cc)

inspected-success :
    (id : RequestId) (result : Value) {blocks : List Value}
    → array_of (get result "content") ≡ some blocks
    → inspected (success id result) ≡ blocks
unfolding inspected
inspected-success id result content =
    ap
      (λ o.
        let o' : Option (List Value) = o in elim o' [ some blocks ↦ blocks | none ↦ result ∷ [] ])
      content

-- With an inspector that changes the blocks of a successful response, what is returned has the
-- sanitized blocks as its content and is otherwise as it was.
pub inspect-sanitized :
    {U C : Type 0} (r : Router U C) (tool_name server_id key : String) (id : RequestId)
    (result : Value) (block : Value) (blocks : List Value)
    (sanitize : InspectableResult → Result String InspectionResult) (inspection : InspectionResult)
    → r.egress_inspector ≡ some sanitize
    → array_of (get result "content") ≡ some (block ∷ blocks)
    → sanitize (record { tool_name = tool_name; content = block ∷ blocks; server_id = server_id })
      ≡ ok inspection
    → inspection.modified ≡ true
    → (answer : Value) × (inspect r tool_name server_id (success id result) ≡ success id answer)
      × (get answer key ≡ (
          if "content" == key
          then some (array (of_items inspection.sanitized_content))
          else get result key))
unfolding inspect rebuild get put
inspect-sanitized r tool_name server_id key id (object fs) block blocks sanitize inspection
      has_inspector content verdict modified =
    (
      object (set_field "content" (array (of_items inspection.sanitized_content)) fs),
      runs,
      find_field-set_field "content" key _ fs,
    )
  where
    shown : inspected (success id (object fs)) ≡ block ∷ blocks
    shown = inspected-success id (object fs) content

    has_content : is_some (get (object fs) "content") ≡ true
    has_content = elim (Option-cases (find_field "content" fs)) [
      | inl absent ↦ absurd (ground (arith, ap array_of absent))
      | inr (v, present) ↦ rw present refl
    ]

    runs :
        inspect r tool_name server_id (success id (object fs))
        ≡ success id
            (object (set_field "content" (array (of_items inspection.sanitized_content)) fs))
    runs =
        rw (has_inspector, inspect)
          (rw shown (rw verdict (rw modified (rw (has_content, replace_content) refl))))
inspect-sanitized r tool_name server_id key id _ block blocks sanitize inspection has_inspector
      content verdict modified =
    cc
