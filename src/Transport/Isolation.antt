-- ===== src/Transport/Isolation.antt =====
-- The messages of one client of transport/sse.rs stay off the streams of the others.
use mcp_shield.Prelude.{
  ℕ, suc, String, ◌≡◌, ◌≢◌, ◌∙◌, refl, sym, Bool, true, false, eqb, Option, none, some, [], Result,
  arith, ap, inl, inr, Bool-cases, Option-cases,
}
use mcp_shield.Dict.{lookup}
use mcp_shield.Json.{Value}
use mcp_shield.Scope.Enforcer.{ScopeEnforcer}
use mcp_shield.Router.State.{Moment, Router, Gateway}
use mcp_shield.Transport.Sse.{SseState, handle_sse_get, handle_sse_post, remove_client}
use mcp_shield.Transport.Streams.{
  on, Quiet, IsSeparate, received-Quiet, handle_sse_get-IsSeparate, remove_client-IsSeparate,
}

eqb-suc : (found channel : ℕ) → found ≡ channel → eqb channel (suc found) ≡ false
eqb-suc found channel same = ground (arith, same)

eqb-eq : (a b : ℕ) → eqb a b ≡ true → a ≡ b
eqb-eq a b h = ground (arith, h)

module _ {U C : Type 0} (r : Router U C) (enforcer : ScopeEnforcer)
    (read : String → Result String Value) where
  -- A POST leaves a channel as it was, unless its client has that channel.
  handle_sse_post-Quiet :
      (now : Moment) (closed : ℕ → Bool) (query body : Option String) (st : SseState U C) (n : ℕ)
      → ((id : String) (channel : ℕ)
          → query ≡ some id
          → lookup id st.clients ≡ some channel
          → eqb channel n ≡ false)
      → Quiet n st (handle_sse_post r enforcer now closed read query body st).0
  unfolding handle_sse_post
  handle_sse_post-Quiet now closed none body st n other = record {
    clients = refl;
    opened = refl;
    sent = refl;
  }
  handle_sse_post-Quiet now closed (some id) none st n other =
      elim (Option-cases (lookup id st.clients)) [
        | inl unknown ↦
            rw (unknown, handle_sse_post) (record { clients = refl; opened = refl; sent = refl })
        | inr (channel, known) ↦
            rw (known, handle_sse_post) (record { clients = refl; opened = refl; sent = refl })
      ]
  handle_sse_post-Quiet now closed (some id) (some text) st n other =
      elim (Option-cases (lookup id st.clients)) [
        | inl unknown ↦
            rw (unknown, handle_sse_post) (record { clients = refl; opened = refl; sent = refl })
        | inr (channel, known) ↦
            rw (known, handle_sse_post)
              (received-Quiet r enforcer now closed read id channel n text st
                (other id channel refl known))
      ]

  -- A channel that no client of that name has.
  spare :
      (query : Option String) (st : SseState U C)
      → (n : ℕ) × ((id : String) (channel : ℕ)
          → query ≡ some id
          → lookup id st.clients ≡ some channel
          → eqb channel n ≡ false)
  spare none st = (0, λ id channel named known. cc named)
  spare (some id) st = elim (Option-cases (lookup id st.clients)) [
    | inl unknown ↦ (0, λ other channel named known. cc (named, known, unknown))
    | inr (found, known) ↦ (
      suc found,
      λ other channel named at_other. eqb-suc found channel (cc (named, known, at_other)),
    )
  ]

  handle_sse_post-IsSeparate :
      (now : Moment) (closed : ℕ → Bool) (query body : Option String) (st : SseState U C)
      → IsSeparate st
      → IsSeparate (handle_sse_post r enforcer now closed read query body st).0
  handle_sse_post-IsSeparate now closed query body st old =
      let (n, other) = spare query st in
      let quiet = handle_sse_post-Quiet now closed query body st n other in
      record {
        own = λ a b n at_a at_b.
            old.own a b n (rw (sym quiet.clients) at_a) (rw (sym quiet.clients) at_b);
        below = λ a n at_a. rw quiet.opened (old.below a n (rw (sym quiet.clients) at_a));
      }

  -- The states that the handlers make of one without clients.
  pub data Streams : SseState U C → Type 0 where
    start :
        (gateway : Gateway U C)
        → Streams (record { clients = []; opened = 0; sent = []; gateway = gateway })
    get :
        (query : Option String) (generated : String) {st : SseState U C}
        → Streams st
        → Streams (handle_sse_get query generated st).0
    post :
        (now : Moment) (closed : ℕ → Bool) (query body : Option String) {st : SseState U C}
        → Streams st
        → Streams (handle_sse_post r enforcer now closed read query body st).0
    remove :
        (client_id : String) {st : SseState U C} → Streams st → Streams (remove_client client_id st)

  Streams-IsSeparate : (st : SseState U C) → Streams st → IsSeparate st
  unfolding lookup
  Streams-IsSeparate _ (start gateway) = record {
    own = λ a b n at_a at_b. cc at_a;
    below = λ a n at_a. cc at_a;
  }
  Streams-IsSeparate _ (get query generated {st} run) =
      handle_sse_get-IsSeparate query generated st (Streams-IsSeparate st run)
  Streams-IsSeparate _ (post now closed query body {st} run) =
      handle_sse_post-IsSeparate now closed query body st (Streams-IsSeparate st run)
  Streams-IsSeparate _ (remove client_id {st} run) =
      remove_client-IsSeparate client_id st (Streams-IsSeparate st run)

  -- After any run of the handlers, a POST that does not name a client sends nothing on its stream,
  -- whatever the message and its answer are.
  pub handle_sse_post-isolated :
      (now : Moment) (closed : ℕ → Bool) (query body : Option String) (st : SseState U C)
      (client_id : String) (channel : ℕ)
      → Streams st
      → query ≢ some client_id
      → lookup client_id st.clients ≡ some channel
      → on channel (handle_sse_post r enforcer now closed read query body st).0.sent
        ≡ on channel st.sent
  handle_sse_post-isolated now closed query body st client_id channel run unnamed has =
      let separate = Streams-IsSeparate st run in
      (handle_sse_post-Quiet now closed query body st channel (λ id other named at_id.
        elim (Bool-cases (eqb other channel)) [
          | inr different ↦ different
          | inl same ↦
              let shared =
                separate.own id client_id channel (at_id ∙ ap some (eqb-eq other channel same))
                  has in
              elim (unnamed (named ∙ ap some shared)) [ ]
        ])).sent
