-- ===== src/ControlPlane/Tests.antt =====
-- A run of the control plane, and its theorem at it.
use mcp_shield.Prelude.{ℕ, String, ◌≡◌, ◌↔◌, refl, true, some, [], ◌∷◌}
use mcp_shield.Dict.{insert, lookup}
use mcp_shield.ControlPlane.Store.{PolicyEntry, Store, new, load_policies, update_policy}
use mcp_shield.ControlPlane.Loading.{Among, Run, latest, load_policies_iff}

machine : Unit {0}
unfolding new load_policies update_policy insert lookup
machine = tt

abbrev of_tenant : String → ℕ → PolicyEntry
of_tenant tenant version = record {
  policy_id = "base";
  tenant_id = tenant;
  policy_text = "permit(principal, action, resource);";
  enabled = true;
  version = version;
  created_at = 1;
  updated_at = 2;
}

-- Another tenant's update, of a lower version, takes the policy away.
abbrev store : Store
store = update_policy (of_tenant "b" 1) (update_policy (of_tenant "a" 2) (new 0 0))

abbrev run : Run store
run = Run.policy (of_tenant "b" 1) (Run.policy (of_tenant "a" 2) (Run.start 0 0))

taken : load_policies "a" store ≡ []
unfolding machine
taken = refl

kept : load_policies "b" store ≡ of_tenant "b" 1 ∷ []
unfolding machine
kept = refl

load_policies_iff_example : Among (of_tenant "b" 1) (load_policies "b" store) ↔ (
    (latest "base" run ≡ some (of_tenant "b" 1))
    × ((of_tenant "b" 1).tenant_id ≡ "b")
    × ((of_tenant "b" 1).enabled ≡ true))
load_policies_iff_example = load_policies_iff store "b" (of_tenant "b" 1) run
