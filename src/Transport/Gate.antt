-- ===== src/Transport/Gate.antt =====
-- Which requests transport/streamable_http.rs gives to the router, and which sessions it knows.
use mcp_shield.Prelude.{
  String, ◌≡◌, refl, ◌⊎◌, inl, inr, true, Option, none, some, Result, ok, Bool-cases, Result-cases,
}
use mcp_shield.Json.{Value}
use mcp_shield.JsonRpc.Message.{JsonRpcMessage}
use mcp_shield.JsonRpc.Parse.{parse}
use mcp_shield.Scope.Enforcer.{ScopeEnforcer}
use mcp_shield.Router.State.{Router}
use mcp_shield.Transport.Http.{HttpState, Arrival, is_known, route, handle_mcp_post}

-- The body is a message of JSON-RPC, and the request names no session or a known one.
pub record Routed {U C : Type 0} (r : Router U C) (a : Arrival)
    (read : String → Result String Value) (body : Option String) (st : HttpState U C)
    (message : JsonRpcMessage) : Type 0 where
  pub text : String
  pub raw : Value
  pub is_text : body ≡ some text
  pub is_json : read text ≡ ok raw
  pub parsed : parse r.codec raw ≡ ok message
  pub known : is_known a.session_id st.sessions ≡ true

module _ {U C : Type 0} (r : Router U C) (enforcer : ScopeEnforcer) (a : Arrival)
    (read : String → Result String Value) where
  -- A request is routed exactly if its body is a message of JSON-RPC and it names no session or a
  -- known one; one that is not routed changes neither the sessions nor what the router keeps.
  pub handle_mcp_post-Routed :
      (body : Option String) (st : HttpState U C)
      → ((message : JsonRpcMessage) × Routed r a read body st message
          × (handle_mcp_post r enforcer a read body st ≡ route r enforcer a message st))
        ⊎ (((message : JsonRpcMessage) → ¬ Routed r a read body st message)
            × ((handle_mcp_post r enforcer a read body st).0 ≡ st))
  unfolding handle_mcp_post
  handle_mcp_post-Routed none st = inr (λ message m. cc (m.is_text), refl)
  handle_mcp_post-Routed (some body) st = elim (Result-cases (read body)) [
    | inr (e, bad_json) ↦
        inr (λ message m. cc (m.is_text, m.is_json, bad_json), rw (bad_json, handle_mcp_post) refl)
    | inl (raw, is_json) ↦ elim (Result-cases (parse r.codec raw)) [
      | inr (e, bad_message) ↦ inr (
        λ message m. cc (m.is_text, m.is_json, is_json, m.parsed, bad_message),
        rw (is_json, bad_message, handle_mcp_post) refl,
      )
      | inl (message, parsed) ↦ elim (Bool-cases (is_known a.session_id st.sessions)) [
        | inr unknown ↦ inr (
          λ message m. cc (m.known, unknown),
          rw (is_json, parsed, unknown, handle_mcp_post) refl,
        )
        | inl known ↦ inl (
          message,
          record {
            text = body;
            raw = raw;
            is_text = refl;
            is_json = is_json;
            parsed = parsed;
            known = known;
          },
          rw (is_json, parsed, known, handle_mcp_post) refl,
        )
      ]
    ]
  ]
