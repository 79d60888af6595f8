-- ===== src/Lib.antt =====
-- MCP-Shield, a security gateway for the Model Context Protocol: the core of the gateway (src/ of
-- the repository) as definitions that run, and theorems about them.
--
-- A message arrives as JSON and is parsed (protocol/jsonrpc.rs). The router (gateway/router.rs) takes
-- a request through the checks of its method, its scopes (auth/scope.rs) and the policy engine
-- (policy/cedar.rs); a call of a tool is looked up in the registry (gateway/registry.rs), its
-- arguments are validated (protocol/schema.rs), the guardrail (guardrail/ecpa.rs) and the session
-- manager (session/state.rs) are asked, the upstream server is called (gateway/proxy.rs), and the
-- response is inspected (guardrail/egress.rs). Metrics and an audit event follow.
--
-- Files and the code that they model:
--   Prelude, Text, Dict, Json    results, lists; `str`, `HashMap<String, _>`, `serde_json::Value`
--   Error, Message               src/error.rs, src/protocol/message.rs (tools, method names)
--   JsonRpc                      src/protocol/jsonrpc.rs: JsonRpc/Message the messages, JsonRpc/Parse
--                                `parse`, `parse_single`, `to_value`; JsonRpc/Codec what serde derives
--   Registry                     src/gateway/registry.rs: Registry/Name `parse_tool_name`,
--                                Registry/State `ToolRegistry` and its methods
--   Scope                        src/auth/scope.rs: Scope/Enforcer `ScopeEnforcer` and its methods
--   Session                      src/session/state.rs: Session/State `InMemorySessionManager`
--   Schema                       src/protocol/schema.rs: Schema/Validator `SchemaValidator`
--   Ecpa                         src/guardrail/ecpa.rs: Ecpa/Predicate the predicates,
--                                Ecpa/Guardrail `RuleEcpaGuardrail`, Ecpa/Enforced its use
--                                by the router
--   Router                       src/gateway/router.rs: Router/State the router and its state,
--                                Router/Call `handle_tools_call`, Router/Route the other handlers,
--                                Router/Respond the values, Router/Audit the metrics and audit event
--   RateLimit                    src/telemetry/rate_limiter.rs: RateLimit/Bucket `TokenBucket`,
--                                RateLimit/Limiter `RateLimiter` and the choice of a rule
--   Egress                       src/guardrail/egress.rs: Egress/Inspector `EgressInspector`
--   Proxy                        src/gateway/proxy.rs: Proxy/Server `UpstreamProxy`; and
--                                src/test_server/echo.rs: Proxy/Echo `EchoServer`
--   Jwt                          src/auth/jwt.rs: Jwt/Claims the claims, Jwt/Validator `JwtValidator`
--   ControlPlane                 src/control_plane/db.rs: ControlPlane/Store `InMemoryControlPlane`
--   Startup                      src/config.rs, src/main.rs: Startup/Config `Config`,
--                                Startup/Assembly and Startup/Limits what `main` makes of one
--   Transport                    src/transport: Transport/Http streamable_http.rs, the handlers of
--                                `/mcp`; Transport/Sse sse.rs, those of `/sse` and `/messages`;
--                                Transport/Stdio stdio.rs, the loop over lines
--   Audit                        src/telemetry/producer.rs: Audit/Producer the producers of events
-- The other files under a part hold its proofs, and its Tests runs at concrete inputs.
--
-- Functions keep the names of the source. A method that changes state takes the state last and
-- returns the new one with its result; `Result` and `?` are the type and the bind of Prelude, and in
-- the router a bind that also passes the state. A method under one lock is one step; sequences of
-- steps are lists or derivations, in any order.
--
-- Choices. A `HashMap` or `HashSet` is a list of entries in some order of iteration, and theorems
-- hold for each order. Times and generated identifiers are arguments. A text is a list of
-- characters; lengths that the source takes in bytes count UTF-8. `trim` removes the characters with
-- the property White_Space. A JSON number is an integer or the text of a float, and an object keeps
-- its fields in order. A panic is `none`. Printing a number takes as many steps as the number, and
-- has at most as many digits.
--
-- The operations of f64 and the printing of a double are parameters, with their exactness below
-- 2 ^ 53 as hypotheses; a sum of i64 wraps where the build does. A handler of the HTTP and SSE
-- transports is one step, and finds the clock and the new identifier in the request. A channel of the
-- SSE transport is a number, with what was sent on it.
--
-- Not modelled: the libraries (serde's derived readers, jsonschema, regex, jsonwebtoken, the HTTP
-- client, cedar-policy), which are parameters with the behaviour that a theorem needs as its
-- hypotheses; the inside of the policy engine (src/policy/cedar.rs), which the router takes as a
-- function; the documents of OAuth discovery; the exporter of the
-- metrics and the making of a Kafka client, which only call libraries; the control plane in PostgreSQL,
-- which is queries; reading TOML and files; log lines. The cache that the router carries is of any
-- type; that of Schema is one, where no key panics.
pub mod Prelude
pub mod Text
pub mod Dict
pub mod Json
pub mod Error
pub mod Message
pub mod Registry
pub mod Session
pub mod Scope
pub mod JsonRpc
pub mod Router
pub mod Schema
pub mod Ecpa
pub mod RateLimit
pub mod Egress
pub mod Proxy
pub mod Jwt
pub mod ControlPlane
pub mod Startup
pub mod Transport
pub mod Audit
