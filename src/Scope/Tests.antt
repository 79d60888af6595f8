-- ===== src/Scope/Tests.antt =====
-- Runs of the scope enforcer, and its theorems at them.
use mcp_shield.Prelude.{String, ◌≡◌, ◌↔◌, ◌⊎◌, ◌||◌, refl, true, false, some, [], ◌∷◌, ok, is_ok}
use mcp_shield.Text.Defs.{split_once}
use mcp_shield.Dict.{lookup}
use mcp_shield.Scope.Enforcer.{
  ScopeEnforcer, new, has_scope, has_scope_prefix, add_scope, check_method, call_scope,
  check_tool_access, scope_tools_read, scope_tools_call, scope_admin,
}
use mcp_shield.Scope.Grants.{
  policy, meets, check_method-policy, check_tool_access-check_method, check_tool_access_iff,
}

machine : Unit {0}
unfolding new has_scope has_scope_prefix add_scope check_method call_scope check_tool_access
    split_once lookup
machine = tt

abbrev reader : ScopeEnforcer
reader = new (scope_tools_read ∷ [])

abbrev one_prefix : ScopeEnforcer
one_prefix = new ("mcp:tools:call:com.example" ∷ [])

abbrev root : ScopeEnforcer
root = new (scope_admin ∷ [])

reader_lists : is_ok (check_method reader "resources/list") ≡ true
unfolding machine
reader_lists = refl

reader_calls_nothing : is_ok (check_method reader "tools/call") ≡ false
unfolding machine
reader_calls_nothing = refl

one_prefix_tool : check_tool_access one_prefix "com.example:echo" ≡ ok tt
unfolding machine
one_prefix_tool = refl

one_prefix_other : is_ok (check_tool_access one_prefix "com.other:search") ≡ false
unfolding machine
one_prefix_other = refl

-- The scope of one tool has the tool's own name in it, with a colon; with a dot it allows nothing.
one_tool_dotted :
    is_ok (check_tool_access (new ("mcp:tools:call:com.example.echo" ∷ [])) "com.example:echo")
    ≡ false
unfolding machine
one_tool_dotted = refl

one_tool_named :
    check_tool_access (new ("mcp:tools:call:com.example:echo" ∷ [])) "com.example:echo" ≡ ok tt
unfolding machine
one_tool_named = refl

one_prefix_method : is_ok (check_method one_prefix "tools/call") ≡ false
unfolding machine
one_prefix_method = refl

prefixes : has_scope_prefix one_prefix "mcp:tools:call" ≡ true
unfolding machine
prefixes = refl

check_method-policy_example :
    is_ok (check_method reader "shutdown")
    ≡ (reader.permissive || meets reader (lookup "shutdown" policy))
check_method-policy_example = check_method-policy reader "shutdown"

caller_may_call : check_method (new (scope_tools_call ∷ [])) "tools/call" ≡ ok tt
unfolding machine
caller_may_call = refl

check_tool_access-check_method_example :
    check_tool_access (new (scope_tools_call ∷ [])) "com.other:search" ≡ ok tt
check_tool_access-check_method_example =
    check_tool_access-check_method (new (scope_tools_call ∷ [])) "com.other:search" caller_may_call

is_root : has_scope root scope_admin ≡ true
unfolding machine
is_root = refl

not_permissive : one_prefix.permissive ≡ false
unfolding machine
not_permissive = refl

check_tool_access_iff_example : (check_tool_access one_prefix "com.example:echo" ≡ ok tt) ↔ (
    (has_scope one_prefix scope_admin ≡ true)
    ⊎ (has_scope one_prefix scope_tools_call ≡ true)
    ⊎ ((prefix : String) × (name : String) × (split_once b':' "com.example:echo"
          ≡ some (prefix, name))
        × ((has_scope one_prefix (call_scope prefix) ≡ true)
            ⊎ (has_scope one_prefix (call_scope "com.example:echo") ≡ true))))
check_tool_access_iff_example = check_tool_access_iff one_prefix "com.example:echo" not_permissive
