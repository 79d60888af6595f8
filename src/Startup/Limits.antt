-- ===== src/Startup/Limits.antt =====
-- The rules that main.rs gives to the rate limiter, its own and those of the control plane.
use mcp_shield.Prelude.{String, true, none, some, List, [], ◌∷◌, ◌==◌, if◌then◌else◌}
use mcp_shield.Json.{pos}
use mcp_shield.ControlPlane.Store
use mcp_shield.ControlPlane.Store.{Tenant, load_tenants, load_rate_limit_rules}
use mcp_shield.RateLimit.Limiter.{
  RateLimitAlgorithm, token_bucket, sliding_window, fixed_window, RateLimitAction, reject, throttle,
  queue, RateLimitRule, Limiter, new, add_rule,
}

abbrev default_rate_limit : RateLimitRule
default_rate_limit = record {
  rule_id = "default";
  scope = "global";
  scope_value = none;
  algorithm = token_bucket;
  requests_per_window = 1000;
  window_seconds = 60;
  burst_allowance = some 100;
  action = reject;
  priority = pos 0;
  enabled = true;
}

abbrev algorithm_of : String → RateLimitAlgorithm
algorithm_of name =
    if name == "token_bucket"
    then token_bucket
    else if name == "sliding_window"
    then sliding_window
    else if name == "fixed_window"
    then fixed_window
    else token_bucket

abbrev action_of : String → RateLimitAction
action_of name =
    if name == "reject"
    then reject
    else if name == "throttle"
    then throttle
    else if name == "queue"
    then queue
    else reject

abbrev telemetry_rule : Store.RateLimitRule → RateLimitRule
telemetry_rule r = record {
  rule_id = r.rule_id;
  scope = r.scope;
  scope_value = r.scope_value;
  algorithm = algorithm_of r.algorithm;
  requests_per_window = r.requests_per_window;
  window_seconds = r.window_seconds;
  burst_allowance = r.burst_allowance;
  action = action_of r.action;
  priority = r.priority;
  enabled = r.enabled;
}

module _ {F : Type 0} where
  -- A rule whose identifier is taken is left out.
  add_rules : List Store.RateLimitRule → Limiter F → Limiter F
  unfolding add_rule
  add_rules [] l = l
  add_rules (r ∷ rules) l = add_rules rules (add_rule (telemetry_rule r) l).0

  add_tenants : Store.Store → List Tenant → Limiter F → Limiter F
  unfolding add_rules load_rate_limit_rules
  add_tenants s [] l = l
  add_tenants s (t ∷ tenants) l =
      add_tenants s tenants (add_rules (load_rate_limit_rules t.tenant_id s) l)

  unfoldable pub rate_limiter : Store.Store → Limiter F
  unfolding add_tenants load_tenants
  rate_limiter s = add_tenants s (load_tenants s) (add_rule default_rate_limit new).0
