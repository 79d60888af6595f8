-- ===== src/Startup/Open.antt =====
-- What the gateway that main.rs starts does with calls of tools.
use mcp_shield.Prelude.{
  ℕ, String, ◌≡◌, ◌≢◌, refl, sym, ap, ◌∙◌, inl, inr, Bool, true, false, Option, none, some, List,
  [], ◌∷◌, All, Result, ok, err, ok-injective, arith, ◌==◌, ne→eq-false, Bool-cases, Result-cases,
  Option-cases, is_empty, ◌||◌, if◌then◌else◌,
}
use mcp_shield.Dict.{Dict, lookup, lookup-insert, lookup-insert_self}
use mcp_shield.Json.{Value}
use mcp_shield.Error.{RequestId}
use mcp_shield.Message.{Tool}
use mcp_shield.Registry.State.{
  Registry, RegisteredTool, with_config, register_tool, admit, commit, entry, lookup_any,
  lookup_tool,
}
use mcp_shield.Registry.Name.{qualify}
use mcp_shield.Router.State.{Moment, Gateway}
use mcp_shield.Router.Call.{handle_tools_call}
use mcp_shield.Scope.Enforcer.{ScopeEnforcer, allow_all, check_method, check_tool_access}
use mcp_shield.Proxy.Server
use mcp_shield.Proxy.Server.{UpstreamServer, UpstreamProxy, register_server}
use mcp_shield.Proxy.TestServer.{list_tools}
use mcp_shield.Proxy.Gateway.{handle_tools_call-Reaches}
use mcp_shield.Startup.Config.{Config, UpstreamConfig}
use mcp_shield.Startup.Assembly.{
  Surroundings, Started, Engine, echo_server, server_of, register_all, registry_of,
  register_upstreams, proxy_of, has_echo_upstream, authorizer_of, started_with, start,
}

-- Every tool belongs to the server.
abbrev BelongsTo : String → Registry → Type 0
BelongsTo server r =
    (name : String) (t : RegisteredTool) → lookup name r.tools ≡ some t → t.server_id ≡ server

BelongsTo-commit :
    (tool : Tool) (server : String) (now : ℕ) (r : Registry) (p n : String)
    → BelongsTo server r
    → BelongsTo server (commit tool server now r (p, n))
unfolding commit
BelongsTo-commit tool server now r p n all name t found = elim (Bool-cases (qualify p n == name)) [
  | inl same ↦
      ground
        (arith, found, same, lookup-insert (qualify p n) name (entry tool server now p n) r.tools)
  | inr other ↦ all name t (
      ground
        (arith, found, other, lookup-insert (qualify p n) name (entry tool server now p n) r.tools))
]

BelongsTo-register_tool :
    (tool : Tool) (server : String) (now : ℕ) (r : Registry)
    → BelongsTo server r
    → BelongsTo server (register_tool tool server now r).0
unfolding register_tool
BelongsTo-register_tool tool server now r all = elim (Result-cases (admit tool server r)) [
  | inl ((p, n), e) ↦ rw (e, register_tool) (BelongsTo-commit tool server now r p n all)
  | inr (e, failed) ↦ rw (failed, register_tool) all
]

BelongsTo-register_all :
    (server : String) (now : ℕ) (tools : List Tool) (r : Registry)
    → BelongsTo server r
    → BelongsTo server (register_all server now tools r)
unfolding register_all
BelongsTo-register_all server now [] r all = all
BelongsTo-register_all server now (tool ∷ tools) r all =
    BelongsTo-register_all server now tools (register_tool tool server now r).0
      (BelongsTo-register_tool tool server now r all)

BelongsTo-if :
    (b : Bool) (server : String) (r r' : Registry)
    → BelongsTo server r
    → BelongsTo server r'
    → BelongsTo server (if b then r else r')
BelongsTo-if true server r r' all all' = all
BelongsTo-if false server r r' all all' = all'

-- The registry has no tools but those of the echo server.
BelongsTo-registry_of : (now : ℕ) (c : Config) → BelongsTo "echo" (registry_of now c)
unfolding registry_of lookup
BelongsTo-registry_of now c =
    let r = with_config c.registry.enforce_prefix_format c.registry.allowed_prefixes in
    let nothing : BelongsTo "echo" r = λ name t found. cc in
    BelongsTo-if (is_empty c.proxy.upstreams || has_echo_upstream c.proxy.upstreams) "echo"
      (register_all "echo" now list_tools r) r
      (BelongsTo-register_all "echo" now list_tools r nothing) nothing

lookup_any-eq-ok :
    (name : String) (r : Registry) {t : RegisteredTool}
    → lookup_any name r ≡ ok (some t)
    → lookup name r.tools ≡ some t
unfolding lookup_any lookup_tool
lookup_any-eq-ok name r h = elim (Option-cases (lookup name r.tools)) [
  | inl absent ↦ absurd (ground (arith, absent, h))
  | inr (found, present) ↦ ground (arith, present, h)
]

-- The upstreams have other names than the echo server.
abbrev pub NotEcho : Dict UpstreamConfig → Type 0
NotEcho = All (λ entry. entry.0 ≢ "echo")

lookup-register_upstreams :
    (upstreams : Dict UpstreamConfig) (p : UpstreamProxy)
    → NotEcho upstreams
    → lookup "echo" (register_upstreams upstreams p).servers ≡ lookup "echo" p.servers
unfolding register_upstreams register_server
lookup-register_upstreams [] p all = refl
lookup-register_upstreams (entry ∷ upstreams) p (other, all) =
    lookup-register_upstreams upstreams (register_server (server_of entry) p) all
    ∙ lookup-insert entry.0 "echo" (server_of entry) p.servers
    ∙ ap (λ b. if b then some (server_of entry) else lookup "echo" p.servers)
        (ne→eq-false entry.0 "echo" other)

echo_server-proxy_of :
    (c : Config) → NotEcho c.proxy.upstreams → lookup "echo" (proxy_of c).servers ≡ some echo_server
unfolding proxy_of register_server
echo_server-proxy_of c others =
    lookup-register_upstreams c.proxy.upstreams (register_server echo_server Server.new) others
    ∙ lookup-insert_self "echo" echo_server []

module _ {U C : Type 0} (s : Surroundings U C) (c : Config) (u : U) where
  -- A start that succeeds has some policy engine, or none.
  pub start-eq-ok :
      {started : Started U C}
      → start s c u ≡ ok started
      → (authorizer : Option Engine) × (started ≡ started_with s c u authorizer)
  unfolding start
  start-eq-ok {started} begins = elim (Result-cases (authorizer_of s c)) [
    | inr (e, fails) ↦ absurd (cc (ap continue fails, begins))
    | inl (authorizer, found) ↦ (authorizer, ok-injective (sym begins ∙ ap continue found))
  ]
    where
      continue : Result String (Option Engine) → Result String (Started U C)
      continue (err e) = err e
      continue (ok authorizer) = ok (started_with s c u authorizer)

-- Whatever the configuration, a gateway that starts lets everybody call every method and every tool
-- by its scopes, and has neither a guardrail nor an inspector of responses.
pub start-allows_all :
    {U C : Type 0} (s : Surroundings U C) (c : Config) (u : U) (started : Started U C)
    (method tool_name : String)
    → start s c u ≡ ok started
    → (check_method started.scope_enforcer method ≡ ok tt)
      × (check_tool_access started.scope_enforcer tool_name ≡ ok tt)
      × (started.router.ecpa_guardrail ≡ none)
      × (started.router.egress_inspector ≡ none)
unfolding started_with check_method check_tool_access
start-allows_all s c u started method tool_name begins =
    let (authorizer, same) = start-eq-ok s c u begins in
    let opens : started.scope_enforcer ≡ allow_all =
      ap (λ g. g.scope_enforcer) same
      ∙ elim (Bool-cases c.auth.enabled) [ inl on ↦ rw on refl | inr off ↦ rw off refl ] in
    (
      ap (λ e. check_method e method) opens,
      ap (λ e. check_tool_access e tool_name) opens,
      ap (λ g. g.router.ecpa_guardrail) same,
      ap (λ g. g.router.egress_inspector) same,
    )

-- Unless an upstream server of the configuration is named echo, no call of a tool that a started
-- gateway handles sends anything over HTTP: whatever the configuration, the router knows no tools
-- but those of the built-in echo server.
pub start-no_upstream_calls :
    {U C : Type 0} (s : Surroundings U C) (c : Config) (u : U) (started : Started U C)
    (now : Moment) (id : RequestId) (session_id : Option String) (params : Option Value)
    (enforcer : ScopeEnforcer) (g : Gateway U C)
    → NotEcho c.proxy.upstreams
    → start s c u ≡ ok started
    → (handle_tools_call started.router now id params enforcer session_id g).0.upstream ≡ g.upstream
unfolding started_with
start-no_upstream_calls s c u started now id session_id params enforcer g others begins =
    let (authorizer, same) = start-eq-ok s c u begins in
    let is_router = ap (λ g. g.router) same in
    elim (handle_tools_call-Reaches s.client (proxy_of c) s.time started.router now id session_id
      params enforcer g (ap (λ r. r.forward_request) is_router)) [
        | inl same ↦ same
        | inr (cleared, url, reaches, sent) ↦
            let known =
              ap (λ r. lookup_any cleared.tool_name r.registry) (sym is_router) ∙ cleared.known in
            let server =
              BelongsTo-registry_of s.now c cleared.tool_name cleared.registered
                (lookup_any-eq-ok cleared.tool_name (registry_of s.now c) known) in
            let echo =
              sym reaches.registered
              ∙ ap (λ name. lookup name (proxy_of c).servers) server
              ∙ echo_server-proxy_of c others in
            absurd (cc (echo, reaches.remote))
      ]
