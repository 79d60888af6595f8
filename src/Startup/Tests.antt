-- ===== src/Startup/Tests.antt =====
-- A gateway that main.rs starts, and the theorems at it.
use mcp_shield.Json
use mcp_shield.Prelude.{
  ℕ, ◌+◌, String, ◌≡◌, refl, true, false, Option, none, some, [], ◌∷◌, ok, err, ◌==◌, if◌then◌else◌,
}
use mcp_shield.Dict.{lookup, insert}
use mcp_shield.Json.{Value, null, pos, object, end, field}
use mcp_shield.Error.{RequestId}
use mcp_shield.JsonRpc.Message.{request}
use mcp_shield.JsonRpc.Serde.{serde}
use mcp_shield.Registry.State.{count}
use mcp_shield.Registry.Name.{qualify, parse_tool_name, is_prefix_char, is_name_char}
use mcp_shield.Text.Defs.{trim, is_whitespace, all_chars, contains_char, byte_len}
use mcp_shield.Router.State.{Moment, Gateway}
use mcp_shield.Router.Call.{handle_tools_call}
use mcp_shield.Scope.Enforcer.{check_method, check_tool_access}
use mcp_shield.Proxy.Server.{Client}
use mcp_shield.Startup.Config.{Config, UpstreamConfig, default, load_with_env, validate}
use mcp_shield.Startup.Assembly.{Surroundings, Started, registry_of, start, started_with}
use mcp_shield.Router.Route.{handle_message}
use mcp_shield.Router.Checks.{Admits}
use mcp_shield.Startup.Locking.{Handles, start-never_locks}
use mcp_shield.Startup.Open.{NotEcho, start-allows_all, start-no_upstream_calls}

machine : Unit {0}
unfolding start registry_of lookup insert load_with_env validate count parse_tool_name trim
    is_whitespace contains_char all_chars is_prefix_char byte_len is_name_char qualify
machine = tt

-- A network that counts the requests.
abbrev client : Client ℕ
client = record {
  codec = serde;
  post = λ url body n. (n + 1, err "connection refused");
  status_text = λ status. "";
  write = λ v. ok "{}";
  print = λ v. "{}";
  read = λ text. ok null;
}

abbrev surroundings : Surroundings ℕ (Unit {0})
surroundings = record {
  client = client;
  validate = λ schema instance_value cache. (cache, ok tt);
  new_validator = tt;
  read_initialize = λ v. ok tt;
  codec = serde;
  exists = λ path. false;
  from_file = λ path. err "No such file or directory";
  time = "now";
  now = 1;
  arrange = λ servers. servers;
}

abbrev files : UpstreamConfig
files = record {
  transport = "sse";
  url = some "http://localhost:9000/mcp";
  command = none;
  args = [];
  env = [];
  echo_server = false;
}

-- A configuration with everything switched on, from the environment and in the file.
abbrev variables : String → Option String
variables name = if name == "MCP_SHIELD_AUTH_ENABLED" then some "1" else none

abbrev base : Config
base = default "0.1.0"

abbrev guarded : Config
guarded =
    load_with_env (λ addr. none) variables
      (record base {
        proxy = record base.proxy { upstreams = ("files", files) ∷ [] };
        policy = record base.policy { enabled = true };
        guardrails = record { ecpa_enabled = true; egress_enabled = true; session_locking = false };
      })

issues : validate guarded ≡ "Auth is enabled but neither jwt_secret nor jwks_url is configured" ∷ []
unfolding machine
issues = refl

abbrev started : Started ℕ (Unit {0})
started = started_with surroundings guarded 0 none

starts : start surroundings guarded 0 ≡ ok started
unfolding machine
starts = refl

start-allows_all_example :
    (check_method started.scope_enforcer "tools/call" ≡ ok tt)
    × (check_tool_access started.scope_enforcer "com.files:read" ≡ ok tt)
    × (started.router.ecpa_guardrail ≡ none)
    × (started.router.egress_inspector ≡ none)
start-allows_all_example =
    start-allows_all surroundings guarded 0 started "tools/call" "com.files:read" starts

abbrev now : Moment
now = record {
  event_id = "e";
  timestamp = "t";
  called_at = 1;
  logged_at = 2;
  elapsed = 3;
  duration_ms = 4;
}

abbrev id : RequestId
id = RequestId.integer (pos 7)

abbrev params : Value
params = object (field "name" (Json.string "com.files:read") end)

others : NotEcho guarded.proxy.upstreams
unfolding machine
others = (λ same. cc, tt)

start-no_upstream_calls_example :
    (handle_tools_call started.router now id
      (some params)
      started.scope_enforcer
      none
      started.gateway).0.upstream
    ≡ started.gateway.upstream
start-no_upstream_calls_example =
    start-no_upstream_calls surroundings guarded 0 started now id none (some params)
      started.scope_enforcer started.gateway others starts

-- With no upstream servers, the four tools of the test server are registered.
four_tools : count (registry_of 1 base) ≡ 4
unfolding machine
four_tools = refl

abbrev locking : Config
locking = record base {
  guardrails = record { ecpa_enabled = false; egress_enabled = false; session_locking = true };
}

abbrev locked : Started ℕ (Unit {0})
locked = started_with surroundings locking 0 none

locked_starts : start surroundings locking 0 ≡ ok locked
unfolding machine
locked_starts = refl

abbrev called : Gateway ℕ (Unit {0})
called =
    (handle_message locked.router now locked.scope_enforcer (some "s1")
      (request id "tools/call" (some params)) locked.gateway).0

abbrev handles : Handles locked called
handles =
    Handles.next now locked.scope_enforcer (some "s1") (request id "tools/call" (some params))
      Handles.begin

start-never_locks_example : Admits called.sessions (some "s1") "com.files:read"
start-never_locks_example =
    start-never_locks surroundings locking 0 locked called (some "s1") "com.files:read"
      locked_starts handles
