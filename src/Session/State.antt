-- ===== src/Session/State.antt =====
-- `InMemorySessionManager` of session/state.rs. Each method is one step under the lock; the clock
-- and the new identifier are arguments.
use mcp_shield.Prelude.{
  ℕ, String, Bool, true, false, not, ◌&&◌, ◌==◌, Option, none, some, List, [], ◌∷◌, ◌++◌, Result,
  ok, err, ◌>>=◌, ok_or, if◌then◌else◌,
}
use mcp_shield.Text.Defs.{format}
use mcp_shield.Dict.{Dict, lookup, insert, remove}
use mcp_shield.Json.{Value}

pub data Visibility : Type 0 where
  public private internal : Visibility

pub record ContextScope : Type 0 where
  pub context_type : String
  pub identifier : String
  pub visibility : Visibility

pub record ContextAccess : Type 0 where
  pub scope : ContextScope
  pub timestamp : ℕ
  pub method : String

pub record ToolCallRecord : Type 0 where
  pub tool_name : String
  pub arguments : Value
  pub timestamp : ℕ

pub record Session : Type 0 where
  pub session_id : String
  pub principal : Option String
  pub locked_context : Option ContextScope
  pub accessed_contexts : List ContextAccess
  pub tool_calls : List ToolCallRecord
  pub created_at : ℕ
  pub last_activity : ℕ

pub data AccessCheckResult : Type 0 where
  allow : AccessCheckResult
  deny : (reason : String) (locked_to : ContextScope) → AccessCheckResult

pub data SessionError : Type 0 where
  not_found locked store_error : String → SessionError

-- The `PartialEq` of the two types.
unfoldable pub same_visibility : Visibility → Visibility → Bool
same_visibility public public = true
same_visibility private private = true
same_visibility internal internal = true
same_visibility _ _ = false

unfoldable pub same_scope : ContextScope → ContextScope → Bool
unfolding same_visibility
same_scope a b =
    a.context_type == b.context_type
    && a.identifier == b.identifier
    && same_visibility a.visibility b.visibility

unfoldable pub as_str : Visibility → String
as_str public = "public"
as_str private = "private"
as_str internal = "internal"

abbrev pub Manager : Type 0
Manager = Dict Session

abbrev pub new : Manager
new = []

abbrev fresh : String → Option String → ℕ → ℕ → Session
fresh id principal created_at last_activity = record {
  session_id = id;
  principal = principal;
  locked_context = none;
  accessed_contexts = [];
  tool_calls = [];
  created_at = created_at;
  last_activity = last_activity;
}

unfoldable pub create_session :
    String → Option String → ℕ → ℕ → Manager → Manager × Result SessionError Session
create_session id principal created_at last_activity m =
    let session = fresh id principal created_at last_activity in (insert id session m, ok session)

unfoldable pub get_session : String → Manager → Result SessionError (Option Session)
get_session id m = ok (lookup id m)

-- `get_mut(session_id).ok_or_else(NotFound)`, and a change in place.
unfoldable pub modify :
    String → (Session → Session) → Manager → Manager × Result SessionError (Unit {0})
modify id change m = elim (lookup id m) [
  | none ↦ (m, err (not_found id))
  | some session ↦ (insert id (change session) m, ok tt)
]

unfoldable pub lock_context :
    String → ContextScope → ℕ → Manager → Manager × Result SessionError (Unit {0})
unfolding modify
lock_context id scope now m =
    modify id (λ s. record s { locked_context = some scope; last_activity = now }) m

pub denial : ContextScope → ContextScope → String
denial held wanted = format (
    "Session is locked to "
    ∷ as_str held.visibility
    ∷ " context '"
    ∷ held.identifier
    ∷ "'. Access to "
    ∷ as_str wanted.visibility
    ∷ " context '"
    ∷ wanted.identifier
    ∷ "' is denied to prevent prompt injection."
    ∷ [])

-- The test on the lock that a session holds.
unfoldable pub check_lock : Option ContextScope → ContextScope → AccessCheckResult
unfolding same_scope
check_lock none scope = allow
check_lock (some held) scope =
    if not (same_scope held scope) && not (same_visibility held.visibility scope.visibility)
    then deny (denial held scope) held
    else allow

unfoldable pub check_context_access :
    String → ContextScope → Manager → Result SessionError AccessCheckResult
unfolding check_lock
check_context_access id scope m = do
  session ← ok_or (lookup id m) (not_found id)
  ok (check_lock session.locked_context scope)

unfoldable pub log_tool_call :
    String → ToolCallRecord → ℕ → Manager → Manager × Result SessionError (Unit {0})
unfolding modify
log_tool_call id call now m =
    modify id (λ s. record s { tool_calls = s.tool_calls ++ call ∷ []; last_activity = now }) m

unfoldable pub terminate_session : String → Manager → Manager × Result SessionError (Unit {0})
terminate_session id m = (remove id m, ok tt)
