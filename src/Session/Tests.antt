-- ===== src/Session/Tests.antt =====
-- Runs of the session manager, and its theorems at them.
use mcp_shield.Prelude.{String, ◌≡◌, ◌≢◌, ◌↔◌, refl, none, some, [], ok, eq_iff}
use mcp_shield.Dict.{lookup, insert, remove}
use mcp_shield.Json.{null}
use mcp_shield.Session.State.{
  public, private, ContextScope, ToolCallRecord, Session, deny, same_visibility, same_scope,
  Manager, new, create_session, modify, lock_context, denial, check_context_access, log_tool_call,
  terminate_session,
}
use mcp_shield.Session.Lock.{check_context_access-deny_iff}
use mcp_shield.Session.Frame.{Run, Continues, Run-Continues}

machine : Unit {0}
unfolding lookup insert remove create_session modify lock_context check_context_access log_tool_call
    terminate_session same_visibility same_scope
machine = tt

abbrev public_repo : ContextScope
public_repo = record {
  context_type = "github_repo";
  identifier = "owner/public-repo";
  visibility = public;
}

abbrev private_repo : ContextScope
private_repo = record {
  context_type = "github_repo";
  identifier = "owner/private-repo";
  visibility = private;
}

abbrev one_session : Manager
one_session = (create_session "s1" none 5 6 new).0

abbrev opened : Session
opened = record {
  session_id = "s1";
  principal = none;
  locked_context = none;
  accessed_contexts = [];
  tool_calls = [];
  created_at = 5;
  last_activity = 6;
}

found : lookup "s1" one_session ≡ some opened
unfolding machine
found = refl

abbrev locked_session : Manager
locked_session = (lock_context "s1" public_repo 7 one_session).0

denied :
    check_context_access "s1" private_repo locked_session
    ≡ ok (deny (denial public_repo private_repo) public_repo)
unfolding machine
denied = refl

check_context_access-deny_iff_example :
    ((reason : String) × (check_context_access "s1" private_repo locked_session
        ≡ ok (deny reason public_repo)))
    ↔ ((s : Session) × (lookup "s1" locked_session ≡ some s)
        × (s.locked_context ≡ some public_repo)
        × (public_repo.visibility ≢ private_repo.visibility))
check_context_access-deny_iff_example =
    check_context_access-deny_iff "s1" private_repo locked_session public_repo

abbrev call : ToolCallRecord
call = record { tool_name = "com.example:echo"; arguments = null; timestamp = 8 }

abbrev locked_one : Session
locked_one = record opened { locked_context = some public_repo; last_activity = 7 }

found_locked : lookup "s1" locked_session ≡ some locked_one
unfolding machine
found_locked = refl

other_id : ◌≢◌ {A = String} "s2" "s1"
other_id e = cc ((eq_iff "s2" "s1").1 e)

s2_free : lookup "s2" locked_session ≡ none
unfolding machine
s2_free = refl

abbrev later : Manager
later =
    (log_tool_call "s1" call 8
      (terminate_session "s2" (create_session "s2" none 8 8 locked_session).0).0).0

Run-Continues_example : (s' : Session) × (lookup "s1" later ≡ some s') × Continues locked_one s'
Run-Continues_example =
    Run-Continues "s1" locked_session later locked_one found_locked (
      Run.log "s1" call 8
        (Run.terminate "s2" (Run.create "s2" none 8 8 Run.start s2_free) other_id))
