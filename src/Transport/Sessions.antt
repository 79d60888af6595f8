-- ===== src/Transport/Sessions.antt =====
-- The sessions that transport/streamable_http.rs knows.
use mcp_shield.Prelude.{
  ℕ, String, ◌≡◌, refl, sym, ap, ◌∙◌, inl, inr, Bool, true, false, ◌||◌, ◌&&◌, not, ◌==◌, Option,
  none, some, [], Result, ok, err, arith, is_some, eq_iff, Bool-cases, Option-cases, Result-cases,
}
use mcp_shield.Text.Defs.{contains_text}
use mcp_shield.Dict.{Dict, lookup, insert, lookup-insert, lookup-remove}
use mcp_shield.Json.{Value}
use mcp_shield.Error.{McpError, to_string}
use mcp_shield.JsonRpc.Message.{JsonRpcMessage}
use mcp_shield.JsonRpc.Parse.{parse}
use mcp_shield.Scope.Enforcer.{ScopeEnforcer}
use mcp_shield.Router.State.{Router, Gateway}
use mcp_shield.Router.Route.{handle_message}
use mcp_shield.Transport.Http.{
  SessionState, HttpState, Response, Arrival, is_known, is_initialize, touch, respond, route,
  handle_mcp_post, handle_mcp_delete,
}

-- The response carries the identifier.
abbrev pub hands_out : Response → String → Bool
hands_out response sid = elim response.session_header [ none ↦ false | some given ↦ given == sid ]

abbrev pub knows : Dict SessionState → String → Bool
knows sessions sid = is_some (lookup sid sessions)

knows-insert :
    (k sid : String) (s : SessionState) (m : Dict SessionState)
    → knows (insert k s m) sid ≡ knows m sid || k == sid
knows-insert k sid s m = ground (arith, lookup-insert k sid s m)

knows-touch :
    (now : ℕ) (o : Option String) (m : Dict SessionState) (sid : String)
    → knows (touch now o m) sid ≡ knows m sid
knows-touch now none m sid = refl
knows-touch now (some k) m sid = elim (Option-cases (lookup k m)) [
  | inl absent ↦ rw (absent, touch) refl
  | inr (s, present) ↦
      rw (present, touch)
        (knows-insert k sid (record s { last_activity = now; initialized = true }) m
          ∙ known_already s present)
]
  where
    known_already :
        (s : SessionState) → lookup k m ≡ some s → (knows m sid || k == sid) ≡ knows m sid
    known_already s present = elim (Bool-cases (k == sid)) [
      | inr other ↦ ground (arith, other)
      | inl same ↦
          let stored = ap (λ j. lookup j m) (sym ((eq_iff k sid).0 same)) ∙ present in
          ground (arith, stored, same)
    ]

module _ {U C : Type 0} (r : Router U C) (enforcer : ScopeEnforcer) (a : Arrival)
    (sid : String) where
  knows-respond :
      (initializes : Bool) (result : Result McpError JsonRpcMessage) (m : Dict SessionState)
      → knows (respond r enforcer a initializes result m).0 sid
        ≡ knows m sid || hands_out (respond r enforcer a initializes result m).1 sid
  unfolding respond
  knows-respond initializes (err e) m =
      elim (Bool-cases (contains_text "notification" (to_string e))) [
        | inl silent ↦ rw (silent, respond) ground arith
        | inr told ↦ rw (told, respond) ground arith
      ]
  knows-respond true (ok message) m = knows-insert a.new_session_id sid _ m
  knows-respond false (ok message) m = knows-touch a.last_activity a.session_id m sid ∙ ground arith

  knows-route :
      (message : JsonRpcMessage) (st : HttpState U C)
      → knows (route r enforcer a message st).0.sessions sid
        ≡ knows st.sessions sid || hands_out (route r enforcer a message st).1 sid
  unfolding route
  knows-route message st =
      knows-respond (is_initialize message)
        (handle_message r a.moment enforcer a.session_id message st.gateway).1 st.sessions

  -- A session is known after a POST exactly if it was known before or the response hands it out.
  handle_mcp_post-knows :
      (read : String → Result String Value) (body : Option String) (st : HttpState U C)
      → knows (handle_mcp_post r enforcer a read body st).0.sessions sid
        ≡ knows st.sessions sid || hands_out (handle_mcp_post r enforcer a read body st).1 sid
  unfolding handle_mcp_post
  handle_mcp_post-knows read none st = ground arith
  handle_mcp_post-knows read (some body) st = elim (Result-cases (read body)) [
    | inr (e, bad_json) ↦ rw (bad_json, handle_mcp_post) ground arith
    | inl (raw, is_json) ↦ elim (Result-cases (parse r.codec raw)) [
      | inr (e, bad_message) ↦ rw (is_json, bad_message, handle_mcp_post) ground arith
      | inl (message, parsed) ↦ elim (Bool-cases (is_known a.session_id st.sessions)) [
        | inr unknown ↦ rw (is_json, parsed, unknown, handle_mcp_post) ground arith
        | inl known ↦ rw (is_json, parsed, known, handle_mcp_post) (knows-route message st)
      ]
    ]
  ]

-- After a DELETE, the session that it names is unknown, and every other as before.
handle_mcp_delete-knows :
    {U C : Type 0} (sid other : String) (st : HttpState U C)
    → knows (handle_mcp_delete (some sid) st).0.sessions other
      ≡ knows st.sessions other && not (sid == other)
unfolding handle_mcp_delete
handle_mcp_delete-knows sid other st = elim (Bool-cases (is_some (lookup sid st.sessions))) [
  | inl known ↦ rw (known, handle_mcp_delete) ground (arith, lookup-remove sid other st.sessions)
  | inr unknown ↦
      rw (unknown, handle_mcp_delete)
        (elim (Bool-cases (sid == other)) [
          | inr different ↦ ground (arith, different)
          | inl same ↦ ground (
            arith,
            same,
            sym (ap (λ s. lookup s st.sessions) ((eq_iff sid other).0 same)),
            unknown,
          )
        ])
]

-- The states that the two handlers make of one without sessions.
pub data Serves {U C : Type 0} (r : Router U C) (enforcer : ScopeEnforcer)
    (read : String → Result String Value) : HttpState U C → Type 0 where
  start :
      (gateway : Gateway U C) → Serves r enforcer read (record { sessions = []; gateway = gateway })
  post :
      (a : Arrival) (body : Option String) {st : HttpState U C}
      → Serves r enforcer read st
      → Serves r enforcer read (handle_mcp_post r enforcer a read body st).0
  delete :
      (header : Option String) {st : HttpState U C}
      → Serves r enforcer read st
      → Serves r enforcer read (handle_mcp_delete header st).0

module _ {U C : Type 0} (r : Router U C) (enforcer : ScopeEnforcer)
    (read : String → Result String Value) where
  -- The session was handed out, and not deleted since.
  abbrev pub alive : {st : HttpState U C} → String → Serves r enforcer read st → Bool
  alive sid (start gateway) = false
  alive sid (post a body {st} run) =
      alive sid run || hands_out (handle_mcp_post r enforcer a read body st).1 sid
  alive sid (delete none run) = alive sid run
  alive sid (delete (some header) run) = alive sid run && not (header == sid)

  -- After any run of the two handlers, a session is known exactly if a response to a POST handed it
  -- out and no DELETE has named it since.
  pub knows-alive :
      (st : HttpState U C) (sid : String) (run : Serves r enforcer read st)
      → knows st.sessions sid ≡ alive sid run
  unfolding lookup handle_mcp_delete
  knows-alive _ sid (start gateway) = refl
  knows-alive _ sid (post a body {st} run) =
      handle_mcp_post-knows r enforcer a sid read body st
      ∙ ap (λ b. b || hands_out (handle_mcp_post r enforcer a read body st).1 sid)
          (knows-alive st sid run)
  knows-alive _ sid (delete none {st} run) = knows-alive st sid run
  knows-alive _ sid (delete (some header) {st} run) =
      handle_mcp_delete-knows header sid st
      ∙ ap (λ b. b && not (header == sid)) (knows-alive st sid run)
