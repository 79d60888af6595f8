-- ===== src/Scope/Grants.antt =====
-- What the scopes of a token permit.
use mcp_shield.Prelude.{
  String, ◌≡◌, ◌↔◌, refl, Bool, true, false, ◌||◌, ◌==◌, Option, none, some, List, [], ◌∷◌, ok,
  contains, arith, eq_iff, ◌⊎◌, inl, inr, Bool-cases, is_ok, ap, All, All-contains, eq_sym,
  Option-cases,
}
use mcp_shield.Text.Defs.{split_once}
use mcp_shield.Dict.{Dict, lookup}
use mcp_shield.Message.{
  method_initialize, method_initialized, method_ping, method_tools_list, method_tools_call,
  method_resources_list, method_resources_read, method_prompts_list, method_prompts_get,
  method_sampling_create, method_shutdown,
}
use mcp_shield.Scope.Enforcer.{
  ScopeEnforcer, has_scope, insert_scope, add_scope, check_method, call_scope, check_tool_access,
  scope_tools_call, scope_admin, scope_tools_read, scope_resources_read, scope_prompts_read,
  scope_sampling, has_call_scope,
}

-- The policy as a table: the scopes any one of which opens a method. A method that is not in the
-- table is open to all.
abbrev readers : List String
readers = scope_tools_read ∷ scope_resources_read ∷ scope_prompts_read ∷ scope_admin ∷ []

abbrev pub policy : Dict (List String)
policy =
    (method_tools_list, readers)
    ∷ (method_resources_list, readers)
    ∷ (method_prompts_list, readers)
    ∷ (method_tools_call, scope_tools_call ∷ scope_admin ∷ [])
    ∷ (method_resources_read, scope_resources_read ∷ scope_admin ∷ [])
    ∷ (method_prompts_get, scope_prompts_read ∷ scope_admin ∷ [])
    ∷ (method_sampling_create, scope_sampling ∷ scope_admin ∷ [])
    ∷ (method_shutdown, scope_admin ∷ [])
    ∷ []

abbrev pub holds_one : ScopeEnforcer → List String → Bool
holds_one e [] = false
holds_one e (s ∷ ss) = has_scope e s || holds_one e ss

abbrev pub meets : ScopeEnforcer → Option (List String) → Bool
meets e none = true
meets e (some scopes) = holds_one e scopes

abbrev known : List String
known =
    method_initialize ∷ method_initialized ∷ method_ping ∷ method_tools_list ∷ method_resources_list
    ∷ method_prompts_list ∷ method_tools_call ∷ method_resources_read ∷ method_prompts_get
    ∷ method_sampling_create ∷ method_shutdown ∷ []

abbrev ByPolicy : ScopeEnforcer → String → Type 0
ByPolicy e method = is_ok (check_method e method) ≡ (e.permissive || meets e (lookup method policy))

ByPolicy-known : (e : ScopeEnforcer) → All (ByPolicy e) known
unfolding check_method lookup
ByPolicy-known e = ground arith

ByPolicy-other :
    (e : ScopeEnforcer) (method : String) → contains known method ≡ false → ByPolicy e method
unfolding check_method lookup
ByPolicy-other e method h = ground (
  arith,
  eq_sym method method_initialize,
  eq_sym method method_initialized,
  eq_sym method method_ping,
  eq_sym method method_tools_list,
  eq_sym method method_resources_list,
  eq_sym method method_prompts_list,
  eq_sym method method_tools_call,
  eq_sym method method_resources_read,
  eq_sym method method_prompts_get,
  eq_sym method method_sampling_create,
  eq_sym method method_shutdown,
)

-- `check_method` decides by the table: a permissive enforcer, a method that needs no scope, or one
-- of the method's scopes.
pub check_method-policy :
    (e : ScopeEnforcer) (method : String)
    → is_ok (check_method e method) ≡ (e.permissive || meets e (lookup method policy))
check_method-policy e method = elim (Bool-cases (contains known method)) [
  | inl listed ↦ All-contains (ByPolicy e) known method (ByPolicy-known e) listed
  | inr other ↦ ByPolicy-other e method other
]

-- Whoever may call `tools/call` may call every tool.
pub check_tool_access-check_method :
    (e : ScopeEnforcer) (tool : String)
    → check_method e method_tools_call ≡ ok tt
    → check_tool_access e tool ≡ ok tt
unfolding check_method check_tool_access
check_tool_access-check_method e tool h = ground arith

contains-insert_scope :
    (scope s : String) (scopes : List String)
    → contains (insert_scope scope scopes) s ≡ contains scopes s || scope == s
unfolding insert_scope
contains-insert_scope scope s scopes = elim (Bool-cases (contains scopes scope)) [
  | inl old ↦ rw old (ground (arith, eq_iff scope s, ap (contains scopes)))
  | inr fresh ↦ rw fresh (ground arith)
]

pub has_scope-add_scope :
    (scope s : String) (e : ScopeEnforcer)
    → has_scope (add_scope scope e) s ≡ has_scope e s || scope == s
unfolding has_scope add_scope
has_scope-add_scope scope s e = ground (arith, contains-insert_scope scope s e.granted_scopes)

meets-add_scope :
    (e : ScopeEnforcer) (scope : String) (scopes : List String)
    → holds_one e scopes ≡ true
    → holds_one (add_scope scope e) scopes ≡ true
meets-add_scope e scope [] h = cc
meets-add_scope e scope (s ∷ ss) h =
    ground (arith, has_scope-add_scope scope s e, meets-add_scope e scope ss)

permissive-add_scope :
    (e : ScopeEnforcer) (scope : String) → (add_scope scope e).permissive ≡ e.permissive
unfolding add_scope
permissive-add_scope e scope = refl

-- A further scope takes no method away.
pub check_method-add_scope :
    (e : ScopeEnforcer) (scope method : String)
    → is_ok (check_method e method) ≡ true
    → is_ok (check_method (add_scope scope e) method) ≡ true
check_method-add_scope e scope method h =
    let before = check_method-policy e method in
    rw (check_method-policy (add_scope scope e) method) elim (Option-cases (lookup method policy)) [
      | inl open_to_all ↦ rw open_to_all (ground (arith, permissive-add_scope e scope))
      | inr (scopes, needed) ↦
          rw needed
            (ground (arith, needed, permissive-add_scope e scope, meets-add_scope e scope scopes))
    ]

-- The administrative scope opens every method and every tool.
pub admin_scope :
    (e : ScopeEnforcer) (method tool : String)
    → has_scope e scope_admin ≡ true
    → (is_ok (check_method e method) ≡ true) × (is_ok (check_tool_access e tool) ≡ true)
unfolding lookup check_tool_access
admin_scope e method tool h = (rw (check_method-policy e method) (ground arith), ground arith)

call_scope_of :
    (e : ScopeEnforcer) (tool : String) (parts : Option (String × String))
    → has_call_scope e tool parts ≡ true
    → (prefix : String) × (name : String) × (parts ≡ some (prefix, name))
      × ((has_scope e (call_scope prefix) ≡ true) ⊎ (has_scope e (call_scope tool) ≡ true))
call_scope_of e tool none h = cc
call_scope_of e tool (some (prefix, name)) h = (prefix, name, refl, ground arith)

-- A tool may be called exactly with the scope for administration, for all calls, for the prefix of
-- its name, or for the tool itself; the last two only where its name has a prefix, before a colon,
-- and the scope for the tool has the whole name with its colon.
pub check_tool_access_iff :
    (e : ScopeEnforcer) (tool : String)
    → e.permissive ≡ false
    → (check_tool_access e tool ≡ ok tt) ↔ (
        (has_scope e scope_admin ≡ true)
        ⊎ (has_scope e scope_tools_call ≡ true)
        ⊎ ((prefix : String) × (name : String) × (split_once b':' tool ≡ some (prefix, name))
            × ((has_scope e (call_scope prefix) ≡ true) ⊎ (has_scope e (call_scope tool) ≡ true))))
unfolding check_tool_access
check_tool_access_iff e tool h = (
  λ k. elim (Bool-cases (has_scope e scope_admin)) [
    | inl admin ↦ inl admin
    | inr plain ↦ elim (Bool-cases (has_scope e scope_tools_call)) [
      | inl all ↦ inr (inl all)
      | inr some_only ↦ inr (inr (call_scope_of e tool _ (ground arith)))
    ]
  ],
  λ k. elim k [
    | inl admin ↦ ground arith
    | inr rest ↦ elim rest [ inl all ↦ ground arith | inr w ↦ ground (arith, w.2, w.3) ]
  ],
)
