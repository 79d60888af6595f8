-- ===== src/Proxy/Tests.antt =====
-- Runs of the proxy, and its theorems at them.
use mcp_shield.Json
use mcp_shield.Prelude.{ℕ, ◌+◌, String, ◌≡◌, ◌⊎◌, refl, true, false, none, some, [], ◌∷◌, ok, err}
use mcp_shield.Dict.{insert}
use mcp_shield.Json.{Value, null, pos, object, end, field, get, str_of}
use mcp_shield.Error.{RequestId, upstream_error}
use mcp_shield.Message.{Tool}
use mcp_shield.JsonRpc.Message.{JsonRpcMessage, request, success}
use mcp_shield.JsonRpc.Serde.{serde}
use mcp_shield.Registry.State
use mcp_shield.Registry.State.{register_tool}
use mcp_shield.Scope.Enforcer
use mcp_shield.Scope.Enforcer.{ScopeEnforcer, scope_tools_call}
use mcp_shield.Router.State.{Moment, Router, Gateway}
use mcp_shield.Router.Call.{handle_tools_call}
use mcp_shield.Router.Gate.{Cleared}
use mcp_shield.Proxy.Echo.{echo_call, text_result, forward_to_echo}
use mcp_shield.Proxy.Server.{
  streamable_http, UpstreamServer, UpstreamProxy, Client, new, register_server, default_server_id,
  forward_request,
}
use mcp_shield.Proxy.Reach.{Reaches}
use mcp_shield.Proxy.Gateway.{posted, handle_tools_call-Reaches}
use mcp_shield.Proxy.TestServer.{handle_tool_call}
use mcp_shield.Proxy.Agreement.{unknown_tool, echo_call-handle_tool_call}

machine : Unit {0}
unfolding register_server insert forward_request forward_to_echo echo_call handle_tool_call get
    default_server_id text_result
machine = tt

-- A network that counts the requests and answers none.
abbrev client : Client ℕ
client = record {
  codec = serde;
  post = λ url body n. (n + 1, err "connection refused");
  status_text = λ status. "";
  write = λ v. ok "{}";
  print = λ v. "{}";
  read = λ text. ok null;
}

abbrev remote : UpstreamServer
remote = record {
  id = "server";
  transport = streamable_http;
  url = some "http://localhost:9000/mcp";
  is_echo = false;
}

abbrev proxy : UpstreamProxy
proxy = register_server remote (register_server (record remote { id = "echo"; is_echo = true }) new)

abbrev id : RequestId
id = RequestId.integer (pos 7)

abbrev ping : JsonRpcMessage
ping = request id "ping" none

sends :
    forward_request client proxy "now" "server" ping 0
    ≡ (1, err (upstream_error "Upstream HTTP request failed: connection refused"))
unfolding machine
sends = refl

echoes : forward_request client proxy "now" "echo" ping 0 ≡ (0, ok (success id (object end)))
unfolding machine
echoes = refl

abbrev call : String → Value → Value
call name arguments = object (field "name" (Json.string name) (field "arguments" arguments end))

abbrev numbers : Value
numbers =
    object
      (field "a" (Json.integer (pos 9223372036854775807)) (field "b" (Json.integer (pos 1)) end))

-- The sum of a release build wraps around.
wraps :
    echo_call "now" (call "com.echo:add" numbers)
    ≡ ok (text_result "9223372036854775807 + 1 = -9223372036854775808")
unfolding machine
wraps = refl

abbrev shout : Value
shout = object (field "text" (Json.string "ann") end)

unknown : echo_call "now" (call "com.echo:uppercase" shout) ≡ unknown_tool "com.echo:uppercase"
unfolding machine
unknown = refl

abbrev uppercase : String
uppercase = "com.echo:uppercase"

echo_call-handle_tool_call_example :
    ((uppercase ≡ uppercase) × (echo_call "now" (call uppercase shout) ≡ unknown_tool uppercase))
    ⊎ (echo_call "now" (call uppercase shout) ≡ ok (text_result "ANN"))
unfolding machine
echo_call-handle_tool_call_example =
    echo_call-handle_tool_call (λ text. "ANN") "now" uppercase (call uppercase shout) shout
      (text_result "ANN") refl refl refl

abbrev tool : Tool
tool = record {
  name = "com.example:echo";
  description = none;
  input_schema = object end;
  annotations = none;
}

abbrev router : Router ℕ (Unit {0})
router = record {
  registry = (register_tool tool "server" 1 State.new).0;
  server_name = "gateway";
  server_version = "1";
  forward_request = forward_request client proxy "now";
  default_server_id = λ n. default_server_id proxy;
  validate = λ schema instance_value cache. (cache, ok tt);
  read_initialize = λ v. ok tt;
  authorizer = none;
  ecpa_guardrail = none;
  egress_inspector = none;
  has_audit_producer = true;
  codec = serde;
}

abbrev now : Moment
now = record {
  event_id = "e";
  timestamp = "t";
  called_at = 1;
  logged_at = 2;
  elapsed = 3;
  duration_ms = 4;
}

abbrev idle : Gateway ℕ (Unit {0})
idle = record { upstream = 0; schema_validator = tt; sessions = none; metrics = []; audited = [] }

abbrev caller : ScopeEnforcer
caller = Enforcer.new (scope_tools_call ∷ [])

abbrev params : Value
params = call "com.example:echo" (object end)

handle_tools_call-Reaches_example :
    ((handle_tools_call router now id (some params) caller none idle).0.upstream ≡ 0)
    ⊎ ((cleared : Cleared router params caller none idle) × (url : String) × Reaches proxy
          cleared.registered.server_id url
        × ((handle_tools_call router now id (some params) caller none idle).0.upstream
            ≡ posted client url id params 0))
handle_tools_call-Reaches_example =
    handle_tools_call-Reaches client proxy "now" router now id none (some params) caller idle refl
