-- ===== src/Startup/Assembly.antt =====
-- The gateway that main.rs makes of a configuration.
use mcp_shield.Prelude.{
  ℕ, String, Bool, true, false, ◌||◌, ◌==◌, Option, none, some, List, [], ◌∷◌, Result, ok, err,
  is_empty, if◌then◌else◌,
}
use mcp_shield.Dict.{Dict}
use mcp_shield.Json.{Value}
use mcp_shield.Error.{McpError}
use mcp_shield.Message.{Tool}
use mcp_shield.JsonRpc.Codec.{Codec}
use mcp_shield.Registry.State.{Registry, with_config, register_tool}
use mcp_shield.Scope.Enforcer.{ScopeEnforcer, allow_all}
use mcp_shield.Session.State.{Manager, new}
use mcp_shield.Router.State.{Router, Gateway, AuthorizationRequest, AuthorizationResponse}
use mcp_shield.Proxy.Server
use mcp_shield.Proxy.Server.{
  UpstreamTransport, streamable_http, sse, stdio, UpstreamServer, UpstreamProxy, Client,
  register_server, forward_request, default_server_id,
}
use mcp_shield.Proxy.TestServer.{list_tools}
use mcp_shield.Startup.Config.{Config, UpstreamConfig}

-- A policy engine, as the router calls it.
abbrev pub Engine : Type 0
Engine = AuthorizationRequest → Result String AuthorizationResponse

-- What the libraries, the file system and the clock give: the HTTP client, the validator of schemas
-- with its empty cache, the reader of `initialize`, the policy files and the engines made of them,
-- and the order in which the entries of a map of servers are iterated.
pub record Surroundings (U C : Type 0) : Type 0 where
  pub client : Client U
  pub validate : Value → Value → C → C × Result McpError (Unit {0})
  pub new_validator : C
  pub read_initialize : Value → Result String (Unit {0})
  pub codec : Codec
  pub exists : String → Bool
  pub from_file : String → Result String Engine
  pub time : String
  pub now : ℕ
  pub arrange : Dict UpstreamServer → Dict UpstreamServer

-- The transport listens with these.
pub record Started (U C : Type 0) : Type 0 where
  pub router : Router U C
  pub gateway : Gateway U C
  pub scope_enforcer : ScopeEnforcer

-- An error of a registration is logged.
unfoldable pub register_all : String → ℕ → List Tool → Registry → Registry
unfolding register_tool
register_all server_id now [] r = r
register_all server_id now (tool ∷ tools) r =
    register_all server_id now tools (register_tool tool server_id now r).0

unfoldable pub has_echo_upstream : Dict UpstreamConfig → Bool
has_echo_upstream [] = false
has_echo_upstream (entry ∷ upstreams) = entry.1.echo_server || has_echo_upstream upstreams

unfoldable pub registry_of : ℕ → Config → Registry
unfolding register_all list_tools has_echo_upstream
registry_of now c =
    let r = with_config c.registry.enforce_prefix_format c.registry.allowed_prefixes in
    if is_empty c.proxy.upstreams || has_echo_upstream c.proxy.upstreams
    then register_all "echo" now list_tools r
    else r

abbrev pub echo_server : UpstreamServer
echo_server = record { id = "echo"; transport = streamable_http; url = none; is_echo = true }

abbrev transport_of : String → UpstreamTransport
transport_of name =
    if name == "sse" then sse else if name == "stdio" then stdio else streamable_http

abbrev pub server_of : String × UpstreamConfig → UpstreamServer
server_of (id, upstream) = record {
  id = id;
  transport = transport_of upstream.transport;
  url = upstream.url;
  is_echo = upstream.echo_server;
}

unfoldable pub register_upstreams : Dict UpstreamConfig → UpstreamProxy → UpstreamProxy
unfolding register_server
register_upstreams [] p = p
register_upstreams (entry ∷ upstreams) p =
    register_upstreams upstreams (register_server (server_of entry) p)

unfoldable pub proxy_of : Config → UpstreamProxy
unfolding register_upstreams register_server
proxy_of c = register_upstreams c.proxy.upstreams (register_server echo_server Server.new)

abbrev pub some_engine : Result String Engine → Result String (Option Engine)
some_engine (ok engine) = ok (some engine)
some_engine (err e) = err e

module _ {U C : Type 0} (s : Surroundings U C) where
  -- A policy file that is not there is logged.
  unfoldable pub authorizer_of : Config → Result String (Option Engine)
  authorizer_of c =
      if c.policy.enabled
      then (if s.exists c.policy.policy_file
          then some_engine (s.from_file c.policy.policy_file)
          else ok none)
      else ok none

  -- The servers in the order in which their map is iterated.
  abbrev arranged : UpstreamProxy → UpstreamProxy
  arranged p = record p { servers = s.arrange p.servers }

  -- `McpRouter::with_full_config`
  abbrev pub with_full_config : Config → Option Engine → Router U C
  with_full_config c authorizer = record {
    registry = registry_of s.now c;
    server_name = c.server.server_info.name;
    server_version = c.server.server_info.version;
    forward_request = forward_request s.client (proxy_of c) s.time;
    default_server_id = λ u. default_server_id (arranged (proxy_of c));
    validate = s.validate;
    read_initialize = s.read_initialize;
    authorizer = authorizer;
    ecpa_guardrail = none;
    egress_inspector = none;
    has_audit_producer = true;
    codec = s.codec;
  }

  abbrev pub sessions_of : Config → Option Manager
  sessions_of c = if c.guardrails.session_locking then some new else none

  -- The network is as it was found.
  unfoldable pub started_with : Config → U → Option Engine → Started U C
  unfolding allow_all
  started_with c u authorizer = record {
    router = with_full_config c authorizer;
    gateway = record {
      upstream = u;
      schema_validator = s.new_validator;
      sessions = sessions_of c;
      metrics = [];
      audited = [];
    };
    scope_enforcer = if c.auth.enabled then allow_all else allow_all;
  }

  unfoldable pub start : Config → U → Result String (Started U C)
  unfolding authorizer_of started_with
  start c u = elim (authorizer_of c) [
    | err e ↦ err e
    | ok authorizer ↦ ok (started_with c u authorizer)
  ]
