-- ===== src/Session/Frame.antt =====
-- What each method of the session manager changes: its own session only.
use mcp_shield.Prelude.{
  ℕ, String, ◌≡◌, ◌≢◌, refl, sym, ap, ◌∙◌, ◌==◌, Option, none, some, List, [], ◌∷◌, ◌++◌, err,
  arith, Option-cases, inl, inr, if◌then◌else◌, eq_iff, Bool-cases, ne→eq-false,
}
use mathlib.Core.Option
use mathlib.Core.List.{append_assoc, append-nil}
use mcp_shield.Dict.{lookup, lookup-insert, lookup-remove}
use mcp_shield.Session.State.{
  ContextScope, Session, ToolCallRecord, not_found, Manager, modify, lock_context, create_session,
  log_tool_call, terminate_session,
}

-- A change in place: of the session that is named, if it exists.
pub lookup-modify :
    (id j : String) (change : Session → Session) (m : Manager)
    → lookup j (modify id change m).0
      ≡ (if id == j then Option.map change (lookup id m) else lookup j m)
unfolding modify
lookup-modify id j change m = elim (Option-cases (lookup id m)) [
  | inl missing ↦ rw (missing, modify) (ground (arith, eq_iff id j, ap (λ k. lookup k m)))
  | inr (s, found) ↦ rw (found, modify) (lookup-insert id j (change s) m)
]

-- Of a session that does not exist a change is refused, and nothing is written.
pub modify-not_found :
    (id : String) (change : Session → Session) (m : Manager)
    → lookup id m ≡ none
    → modify id change m ≡ (m, err (not_found id))
unfolding modify
modify-not_found id change m h = rw (h, modify)

-- What anybody may do to the manager without locking or terminating the session `id`. A new
-- session's identifier is not in use.
pub data Run (id : String) (m : Manager) : Manager → Type 0 where
  start : Run id m m
  create :
      {m' : Manager} (j : String) (principal : Option String) (created_at last_activity : ℕ)
      → Run id m m'
      → lookup j m' ≡ none
      → Run id m (create_session j principal created_at last_activity m').0
  lock :
      {m' : Manager} (j : String) (scope : ContextScope) (now : ℕ)
      → Run id m m'
      → j ≢ id
      → Run id m (lock_context j scope now m').0
  log :
      {m' : Manager} (j : String) (call : ToolCallRecord) (now : ℕ)
      → Run id m m'
      → Run id m (log_tool_call j call now m').0
  terminate :
      {m' : Manager} (j : String) → Run id m m' → j ≢ id → Run id m (terminate_session j m').0

-- The same session later: its lock and its identity stay, and its log has grown at the end.
pub record Continues (s s' : Session) : Type 0 where
  pub session_id : s'.session_id ≡ s.session_id
  pub principal : s'.principal ≡ s.principal
  pub locked_context : s'.locked_context ≡ s.locked_context
  pub calls : List ToolCallRecord
  pub tool_calls : s'.tool_calls ≡ s.tool_calls ++ calls

Continues-refl : (s : Session) → Continues s s
Continues-refl s = record {
  session_id = refl;
  principal = refl;
  locked_context = refl;
  calls = [];
  tool_calls = sym (append-nil s.tool_calls);
}

Continues-log :
    (s s' : Session) (call : ToolCallRecord) (now : ℕ)
    → Continues s s'
    → Continues s (record s' { tool_calls = s'.tool_calls ++ call ∷ []; last_activity = now })
Continues-log s s' call now c = record {
  session_id = c.session_id;
  principal = c.principal;
  locked_context = c.locked_context;
  calls = c.calls ++ call ∷ [];
  tool_calls = rw (c.tool_calls, append_assoc);
}

modify-other :
    (id j : String) (change : Session → Session) (m : Manager)
    → j ≢ id
    → lookup id (modify j change m).0 ≡ lookup id m
modify-other id j change m other = lookup-modify j id change m ∙ rw (ne→eq-false j id other)

-- A key that is free is not one that is in use.
taken-ne :
    (j id : String) (m : Manager) {s : Session} → lookup j m ≡ none → lookup id m ≡ some s → j ≢ id
taken-ne j id m free found e = cc (free, found, ap (λ k. lookup k m) e)

-- A session that is not locked again nor terminated keeps its lock, and every call that was
-- logged, whatever happens to it and to the others.
pub Run-Continues :
    (id : String) (m m' : Manager) (s : Session)
    → lookup id m ≡ some s
    → Run id m m'
    → (s' : Session) × (lookup id m' ≡ some s') × Continues s s'
unfolding create_session lock_context log_tool_call terminate_session
Run-Continues id m m' s first start = (s, first, Continues-refl s)
Run-Continues id m _ s first (create {m'} j principal a b run free) =
    let (s', found, c) = Run-Continues id m m' s first run in
    (s', lookup-insert j id _ m' ∙ rw (ne→eq-false j id (taken-ne j id m' free found)) found, c)
Run-Continues id m _ s first (lock {m'} j scope now run other) =
    let (s', found, c) = Run-Continues id m m' s first run in
    (s', modify-other id j _ m' other ∙ found, c)
Run-Continues id m _ s first (log {m'} j call now run) =
    let (s', found, c) = Run-Continues id m m' s first run in
    elim (Bool-cases (j == id)) [
      | inl same ↦ (
        _,
        lookup-modify j id _ m' ∙ rw (same, (eq_iff j id).0 same, found),
        Continues-log s s' call now c,
      )
      | inr differs ↦ (s', lookup-modify j id _ m' ∙ rw differs found, c)
    ]
Run-Continues id m _ s first (terminate {m'} j run other) =
    let (s', found, c) = Run-Continues id m m' s first run in
    (s', lookup-remove j id m' ∙ rw (ne→eq-false j id other) found, c)
