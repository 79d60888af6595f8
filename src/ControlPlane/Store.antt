-- ===== src/ControlPlane/Store.antt =====
-- `InMemoryControlPlane` of control_plane/db.rs. Each method holds one lock, and is one step.
use mcp_shield.Prelude.{
  ℕ, String, Bool, true, ◌&&◌, ◌==◌, Option, List, [], ◌∷◌, Result, ok, err, is_some, if◌then◌else◌,
}
use mcp_shield.Text.Defs.{format}
use mcp_shield.Dict.{Dict, lookup, insert}
use mcp_shield.Json.{ℤ, Value, object, end}

pub record Tenant : Type 0 where
  pub tenant_id : String
  pub name : String
  pub active : Bool
  pub config : Value
  pub created_at : ℕ
  pub updated_at : ℕ

pub record PolicyEntry : Type 0 where
  pub policy_id : String
  pub tenant_id : String
  pub policy_text : String
  pub enabled : Bool
  pub version : ℕ
  pub created_at : ℕ
  pub updated_at : ℕ

pub record UpstreamEntry : Type 0 where
  pub server_id : String
  pub tenant_id : String
  pub transport : String
  pub url : Option String
  pub active : Bool
  pub created_at : ℕ
  pub updated_at : ℕ

pub record RateLimitRule : Type 0 where
  pub rule_id : String
  pub tenant_id : String
  pub name : String
  pub scope : String
  pub scope_value : Option String
  pub algorithm : String
  pub requests_per_window : ℕ
  pub window_seconds : ℕ
  pub burst_allowance : Option ℕ
  pub action : String
  pub priority : ℤ
  pub enabled : Bool
  pub created_at : ℕ
  pub updated_at : ℕ

pub data ControlPlaneError : Type 0 where
  database tenant_not_found policy_not_found conflict io_error : String → ControlPlaneError

pub record Store : Type 0 where
  pub tenants : Dict Tenant
  pub policies : Dict PolicyEntry
  pub upstreams : Dict UpstreamEntry
  pub rate_limit_rules : Dict RateLimitRule

abbrev default_tenant : ℕ → ℕ → Tenant
default_tenant created updated = record {
  tenant_id = "default";
  name = "Default Tenant";
  active = true;
  config = object end;
  created_at = created;
  updated_at = updated;
}

unfoldable pub new : ℕ → ℕ → Store
unfolding insert
new created updated = record {
  tenants = insert "default" (default_tenant created updated) [];
  policies = [];
  upstreams = [];
  rate_limit_rules = [];
}

-- `map(|v| (key(v), v)).collect()`: a later value replaces an earlier one of its key.
unfoldable pub collect : {V : Type 0} → (V → String) → List V → Dict V → Dict V
unfolding insert
collect key [] m = m
collect key (v ∷ vs) m = collect key vs (insert (key v) v m)

unfoldable pub with_config :
    List Tenant → List PolicyEntry → List UpstreamEntry → List RateLimitRule → Store
unfolding collect
with_config tenants policies upstreams rules = record {
  tenants = collect (λ t. t.tenant_id) tenants [];
  policies = collect (λ p. p.policy_id) policies [];
  upstreams = collect (λ u. u.server_id) upstreams [];
  rate_limit_rules = collect (λ r. r.rule_id) rules [];
}

-- `values().filter(keeps)`
unfoldable pub select : {V : Type 0} → (V → Bool) → Dict V → List V
select keeps [] = []
select keeps (entry ∷ m) =
    let rest = select keeps m in if keeps entry.1 then entry.1 ∷ rest else rest

unfoldable pub load_tenants : Store → List Tenant
unfolding select
load_tenants s = select (λ t. t.active) s.tenants

unfoldable pub load_policies : String → Store → List PolicyEntry
unfolding select
load_policies tenant s = select (λ p. p.tenant_id == tenant && p.enabled) s.policies

unfoldable pub load_upstreams : String → Store → List UpstreamEntry
unfolding select
load_upstreams tenant s = select (λ u. u.tenant_id == tenant && u.active) s.upstreams

unfoldable pub load_rate_limit_rules : String → Store → List RateLimitRule
unfolding select
load_rate_limit_rules tenant s = select (λ r. r.tenant_id == tenant && r.enabled) s.rate_limit_rules

unfoldable pub update_policy : PolicyEntry → Store → Store
update_policy p s = record s { policies = insert p.policy_id p s.policies }

unfoldable pub create_tenant : Tenant → Store → Store × Result ControlPlaneError (Unit {0})
unfolding lookup insert format
create_tenant t s =
    if is_some (lookup t.tenant_id s.tenants)
    then (s, err (conflict (format ("Tenant " ∷ t.tenant_id ∷ " already exists" ∷ []))))
    else (record s { tenants = insert t.tenant_id t s.tenants }, ok tt)

unfoldable pub get_tenant : String → Store → Option Tenant
get_tenant tenant s = lookup tenant s.tenants

unfoldable pub add_upstream : UpstreamEntry → Store → Store
add_upstream u s = record s { upstreams = insert u.server_id u s.upstreams }

unfoldable pub add_rate_limit_rule : RateLimitRule → Store → Store
add_rate_limit_rule r s = record s { rate_limit_rules = insert r.rule_id r s.rate_limit_rules }
