-- ===== src/Proxy/Reach.antt =====
-- When gateway/proxy.rs sends a request over HTTP.
use mathlib.Core.Path.{subst}
use mcp_shield.Prelude.{
  String, ◌≡◌, ◌≢◌, refl, sym, ap, ◌∙◌, ◌⊎◌, inl, inr, false, some, Result, Bool-cases,
  Option-cases, unwrap_or,
}
use mcp_shield.Dict.{lookup}
use mcp_shield.Error.{McpError}
use mcp_shield.JsonRpc.Message.{JsonRpcMessage}
use mcp_shield.Proxy.Server.{
  UpstreamTransport, streamable_http, sse, stdio, UpstreamServer, UpstreamProxy, Client,
  forward_to_http, forward_to_url, forward_to_server, forward_request,
}

-- Requests for a server go to the URL.
pub record Reaches (p : UpstreamProxy) (server_id url : String) : Type 0 where
  pub server : UpstreamServer
  pub is_open : p.is_closed ≡ false
  pub registered : lookup server_id p.servers ≡ some server
  pub remote : server.is_echo ≡ false
  pub over_http : server.transport ≢ stdio
  pub has_url : server.url ≡ some url

transport-cases : (t : UpstreamTransport) → (t ≡ streamable_http) ⊎ ((t ≡ sse) ⊎ (t ≡ stdio))
transport-cases streamable_http = inl refl
transport-cases sse = inr (inl refl)
transport-cases stdio = inr (inr refl)

module _ {U : Type 0} (c : Client U) (p : UpstreamProxy) (now server_id : String)
    (message : JsonRpcMessage) (u : U) where
  -- What the forwarding of a message comes to.
  abbrev pub Sends : U × Result McpError JsonRpcMessage → Type 0
  Sends answer =
      ((url : String) × Reaches p server_id url × (answer ≡ forward_to_http c url message u))
      ⊎ (((url : String) → ¬ Reaches p server_id url) × (answer.0 ≡ u))

  -- All that reach a URL agree with the server that is registered.
  same_server :
      {url : String} (server : UpstreamServer)
      → lookup server_id p.servers ≡ some server
      → (r : Reaches p server_id url) → r.server ≡ server
  same_server server found r = ap (λ o. unwrap_or o server) (sym r.registered ∙ found)

  Sends-url :
      (server : UpstreamServer)
      → p.is_closed ≡ false
      → lookup server_id p.servers ≡ some server
      → server.is_echo ≡ false
      → server.transport ≢ stdio
      → Sends (forward_to_url c server_id server.url message u)
  unfolding forward_to_url
  Sends-url server opens found remote over_http = elim (Option-cases server.url) [
    | inr (url, has_url) ↦ inl (
      url,
      record {
        server = server;
        is_open = opens;
        registered = found;
        remote = remote;
        over_http = over_http;
        has_url = has_url;
      },
      rw (has_url, forward_to_url) refl,
    )
    | inl absent ↦ inr (
      λ url r.
          cc (ap (λ (s : UpstreamServer). s.url) (same_server server found r), r.has_url, absent),
      rw (absent, forward_to_url) refl,
    )
  ]

  Sends-server :
      (server : UpstreamServer)
      → p.is_closed ≡ false
      → lookup server_id p.servers ≡ some server
      → Sends (forward_to_server c now server_id server message u)
  Sends-server server opens found = elim (Bool-cases server.is_echo) [
    | inl echo ↦ inr (
      λ url r.
          cc (ap (λ (s : UpstreamServer). s.is_echo) (same_server server found r), r.remote, echo),
      rw echo refl,
    )
    | inr remote ↦ elim (transport-cases server.transport) [
      | inl http ↦ rw remote (rw http (Sends-url server opens found remote (λ h. cc)))
      | inr (inl over_sse) ↦ rw remote (rw over_sse (Sends-url server opens found remote (λ h. cc)))
      | inr (inr unsupported) ↦ inr (
        λ url r.
            r.over_http
              (ap (λ (s : UpstreamServer). s.transport) (same_server server found r) ∙ unsupported),
        rw remote (rw unsupported refl),
      )
    ]
  ]

  -- A request for a server is posted, once, to the URL that requests for it reach; if they reach
  -- none, nothing is sent.
  pub forward_request-Sends : Sends (forward_request c p now server_id message u)
  unfolding forward_request
  forward_request-Sends = elim (Bool-cases p.is_closed) [
    | inl closed ↦ inr (λ url r. cc (r.is_open, closed), rw (closed, forward_request) refl)
    | inr opens ↦ elim (Option-cases (lookup server_id p.servers)) [
      | inl unknown ↦
          inr (λ url r. cc (r.registered, unknown), rw (opens, unknown, forward_request) refl)
      | inr (server, found) ↦
          let runs : forward_request c p now server_id message u
              ≡ forward_to_server c now server_id server message u =
            rw (opens, found, forward_request) refl in
          subst Sends (sym runs) (Sends-server server opens found)
    ]
  ]
