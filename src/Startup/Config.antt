-- ===== src/Startup/Config.antt =====
-- config.rs. A socket address is its text.
use mcp_shield.Prelude.{
  ℕ, String, Bool, true, false, ◌&&◌, ◌||◌, ◌==◌, Option, none, some, List, [], ◌∷◌, ◌++◌, is_some,
  not, unwrap_or, if◌then◌else◌,
}
use mcp_shield.Dict.{Dict}

pub record ServerInfo : Type 0 where
  pub name : String
  pub version : String
  pub instructions : String

pub record ServerConfig : Type 0 where
  pub bind_addr : String
  pub log_level : String
  pub json_logging : Bool
  pub cors_origins : List String
  pub enable_stdio : Bool
  pub enable_http : Bool
  pub enable_sse : Bool
  pub server_info : ServerInfo

pub record AuthConfig : Type 0 where
  pub enabled : Bool
  pub jwt_secret : Option String
  pub jwks_url : Option String
  pub issuer : Option String
  pub audience : Option String
  pub prm_url : String
  pub authorization_server : Option String
  pub required_scopes : List String

pub record UpstreamConfig : Type 0 where
  pub transport : String
  pub url : Option String
  pub command : Option String
  pub args : List String
  pub env : Dict String
  pub echo_server : Bool

pub record ProxyConfig : Type 0 where
  pub upstreams : Dict UpstreamConfig
  pub request_timeout_secs : ℕ
  pub max_concurrent_requests : ℕ

pub record RegistryConfig : Type 0 where
  pub allowed_prefixes : List String
  pub enforce_prefix_format : Bool

pub record PolicyConfig : Type 0 where
  pub enabled : Bool
  pub policy_file : String

pub record GuardrailsConfig : Type 0 where
  pub ecpa_enabled : Bool
  pub egress_enabled : Bool
  pub session_locking : Bool

pub record TelemetryConfig : Type 0 where
  pub metrics_path : String
  pub metrics_addr : String
  pub kafka_bootstrap_servers : List String
  pub kafka_topic : String
  pub clickhouse_url : Option String

pub record Config : Type 0 where
  pub server : ServerConfig
  pub auth : AuthConfig
  pub proxy : ProxyConfig
  pub registry : RegistryConfig
  pub policy : PolicyConfig
  pub guardrails : GuardrailsConfig
  pub telemetry : TelemetryConfig

-- `Config::default()`, given the version of the package.
abbrev default_server : String → ServerConfig
default_server version = record {
  bind_addr = "0.0.0.0:8080";
  log_level = "info";
  json_logging = true;
  cors_origins = [];
  enable_stdio = false;
  enable_http = true;
  enable_sse = true;
  server_info = record { name = "mcp-shield"; version = version; instructions = "" };
}

abbrev default_auth : AuthConfig
default_auth = record {
  enabled = false;
  jwt_secret = none;
  jwks_url = none;
  issuer = none;
  audience = none;
  prm_url = "/.well-known/oauth-protected-resource";
  authorization_server = none;
  required_scopes = "mcp:tools:read" ∷ "mcp:tools:call" ∷ [];
}

abbrev default_telemetry : TelemetryConfig
default_telemetry = record {
  metrics_path = "/metrics";
  metrics_addr = "0.0.0.0:9090";
  kafka_bootstrap_servers = [];
  kafka_topic = "mcp-shield-audit";
  clickhouse_url = none;
}

abbrev pub default : String → Config
default version = record {
  server = default_server version;
  auth = default_auth;
  proxy = record { upstreams = []; request_timeout_secs = 30; max_concurrent_requests = 100 };
  registry = record { allowed_prefixes = []; enforce_prefix_format = true };
  policy = record { enabled = false; policy_file = "policies/default.cedar" };
  guardrails = record { ecpa_enabled = false; egress_enabled = false; session_locking = false };
  telemetry = default_telemetry;
}

-- `if let Ok(value) = std::env::var(…)`
abbrev override {ℓ} : {A : Type ℓ} → (String → A) → Option String → A → A
override set none old = old
override set (some value) old = set value

abbrev override_some : Option String → Option String → Option String
override_some none old = old
override_some (some value) old = some value

abbrev override_addr : (String → Option String) → Option String → String → String
override_addr parse none old = old
override_addr parse (some addr) old = unwrap_or (parse addr) old

-- `parse_addr` is the reader of socket addresses.
unfoldable pub load_with_env : (String → Option String) → (String → Option String) → Config → Config
load_with_env parse_addr var c = record c {
  server = record c.server {
    bind_addr = override_addr parse_addr (var "MCP_SHIELD_SERVER_BIND_ADDR") c.server.bind_addr;
    log_level = override (λ level. level) (var "MCP_SHIELD_SERVER_LOG_LEVEL") c.server.log_level;
  };
  auth = record c.auth {
    enabled =
        override (λ val. val == "true" || val == "1") (var "MCP_SHIELD_AUTH_ENABLED")
          c.auth.enabled;
    jwt_secret = override_some (var "MCP_SHIELD_AUTH_JWT_SECRET") c.auth.jwt_secret;
    jwks_url = override_some (var "MCP_SHIELD_AUTH_JWKS_URL") c.auth.jwks_url;
  };
}

abbrev issue : Bool → String → List String
issue present text = if present then text ∷ [] else []

-- The issues are logged; the start goes on.
unfoldable pub validate : Config → List String
validate c =
    if c.auth.enabled
    then (issue (not (is_some c.auth.jwt_secret) && not (is_some c.auth.jwks_url))
          "Auth is enabled but neither jwt_secret nor jwks_url is configured"
        ++ issue (is_some c.auth.jwt_secret && is_some c.auth.jwks_url)
            "Both jwt_secret and jwks_url are set; only one should be used")
    else []
