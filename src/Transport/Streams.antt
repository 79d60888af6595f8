-- ===== src/Transport/Streams.antt =====
-- Which streams of transport/sse.rs a message reaches.
use mcp_shield.Prelude.{
  ℕ, ◌<◌, String, ◌≡◌, refl, ◌∙◌, inl, inr, Bool, false, eqb, Option, some, List, [], ◌∷◌, ◌++◌,
  Result, arith, eq_iff, Bool-cases, Result-cases, if◌then◌else◌, unwrap_or,
}
use mcp_shield.Dict.{lookup, lookup-insert, lookup-remove}
use mcp_shield.Json.{Value}
use mcp_shield.JsonRpc.Message.{JsonRpcMessage, parse_error_response, is_notification}
use mcp_shield.JsonRpc.Parse.{parse}
use mcp_shield.Scope.Enforcer.{ScopeEnforcer}
use mcp_shield.Router.State.{Moment, Router}
use mcp_shield.Router.Route.{handle_message}
use mcp_shield.Transport.Sse.{
  SseState, handle_sse_get, answer, send_on, routed, received, remove_client, error_message,
}

-- What was sent on a channel.
abbrev pub on : ℕ → List (ℕ × JsonRpcMessage) → List JsonRpcMessage
on n [] = []
on n ((channel, message) ∷ rest) =
    let later = on n rest in if eqb channel n then message ∷ later else later

on-other :
    (n channel : ℕ) (message : JsonRpcMessage) (sent : List (ℕ × JsonRpcMessage))
    → eqb channel n ≡ false
    → on n (sent ++ (channel, message) ∷ []) ≡ on n sent
on-other n channel message [] other = rw other refl
on-other n channel message ((c, m) ∷ rest) other =
    ground (arith, on-other n channel message rest other)

-- The clients and the channels as before, and what was sent on one channel too.
pub record Quiet {U C : Type 0} (n : ℕ) (before after : SseState U C) : Type 0 where
  pub clients : after.clients ≡ before.clients
  pub opened : after.opened ≡ before.opened
  pub sent : on n after.sent ≡ on n before.sent

send_on-Quiet :
    {U C : Type 0} (closed : ℕ → Bool) (channel n : ℕ) (messages : List JsonRpcMessage)
    (st : SseState U C)
    → eqb channel n ≡ false
    → Quiet n st (send_on closed channel messages st)
unfolding send_on
send_on-Quiet closed channel n [] st other = record { clients = refl; opened = refl; sent = refl }
send_on-Quiet closed channel n (message ∷ rest) st other = elim (Bool-cases (closed channel)) [
  | inl gone ↦ rw gone (send_on-Quiet closed channel n rest st other)
  | inr listens ↦
      let later =
        send_on-Quiet closed channel n rest
          (record st { sent = st.sent ++ (channel, message) ∷ [] }) other in
      rw listens (record {
        clients = later.clients;
        opened = later.opened;
        sent = later.sent ∙ on-other n channel message st.sent other;
      })
]

-- Every client has a channel of its own, one that was opened.
pub record IsSeparate {U C : Type 0} (st : SseState U C) : Type 0 where
  pub own :
      (a b : String) (n : ℕ) → lookup a st.clients ≡ some n → lookup b st.clients ≡ some n → a ≡ b
  pub below : (a : String) (n : ℕ) → lookup a st.clients ≡ some n → n < st.opened

pub handle_sse_get-IsSeparate :
    {U C : Type 0} (query : Option String) (generated : String) (st : SseState U C)
    → IsSeparate st
    → IsSeparate (handle_sse_get query generated st).0
unfolding handle_sse_get
handle_sse_get-IsSeparate query generated st old =
    let id = unwrap_or query generated in
    record {
      own = λ a b n at_a at_b. ground (
        arith,
        lookup-insert id a st.opened st.clients,
        lookup-insert id b st.opened st.clients,
        at_a,
        at_b,
        old.own a b n,
        old.below a n,
        old.below b n,
        eq_iff id a,
        eq_iff id b,
      );
      below =
          λ a n at_a. ground (arith, lookup-insert id a st.opened st.clients, at_a, old.below a n);
    }

pub remove_client-IsSeparate :
    {U C : Type 0} (id : String) (st : SseState U C)
    → IsSeparate st
    → IsSeparate (remove_client id st)
unfolding remove_client
remove_client-IsSeparate id st old = record {
  own = λ a b n at_a at_b. ground (
    arith,
    lookup-remove id a st.clients,
    lookup-remove id b st.clients,
    at_a,
    at_b,
    old.own a b n,
  );
  below = λ a n at_a. ground (arith, lookup-remove id a st.clients, at_a, old.below a n);
}

module _ {U C : Type 0} (r : Router U C) (enforcer : ScopeEnforcer) (now : Moment)
    (closed : ℕ → Bool) (read : String → Result String Value) where
  pub received-Quiet :
      (client_id : String) (channel n : ℕ) (text : String) (st : SseState U C)
      → eqb channel n ≡ false
      → Quiet n st (received r enforcer now closed read client_id channel text st)
  unfolding received routed
  received-Quiet client_id channel n text st other = elim (Result-cases (read text)) [
    | inr (e, bad_json) ↦
        rw (bad_json, received)
          (send_on-Quiet closed channel n (parse_error_response ∷ []) st other)
    | inl (raw, is_json) ↦ elim (Result-cases (parse r.codec raw)) [
      | inr (e, bad) ↦
          rw (is_json, bad, received)
            (send_on-Quiet closed channel n (error_message e ∷ []) st other)
      | inl (message, parsed) ↦
          let handled = handle_message r now enforcer (some client_id) message st.gateway in
          let rest =
            send_on-Quiet closed channel n (answer (is_notification message) handled.1)
              (record st { gateway = handled.0 }) other in
          rw (is_json, parsed, received)
            (record { clients = rest.clients; opened = rest.opened; sent = rest.sent })
    ]
  ]
