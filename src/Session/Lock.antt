-- ===== src/Session/Lock.antt =====
-- When a session's lock denies an access.
use mcp_shield.Prelude.{
  ℕ, String, ◌≡◌, ◌≢◌, ◌↔◌, true, false, Option, none, some, ok, arith, Option-cases, inl, inr,
  if◌then◌else◌, ok-injective, ap, eq_refl,
}
use mcp_shield.Dict.{lookup}
use mcp_shield.Session.Frame.{lookup-modify}
use mcp_shield.Session.State.{
  Visibility, ContextScope, Session, allow, deny, same_visibility, Manager, lock_context, denial,
  check_lock, check_context_access,
}

same_visibility_iff : (a b : Visibility) → (same_visibility a b ≡ true) ↔ (a ≡ b)
unfolding same_visibility
same_visibility_iff a b = ground arith

-- The first of the two tests in the code adds nothing: only the visibility decides.
pub check_lock-some :
    (held scope : ContextScope)
    → check_lock (some held) scope ≡ (
        if same_visibility held.visibility scope.visibility
        then allow
        else deny (denial held scope) held)
unfolding check_lock
check_lock-some held scope = ground arith

check_lock-deny :
    (lock : Option ContextScope) (scope : ContextScope) {reason : String} {held : ContextScope}
    → check_lock lock scope ≡ deny reason held
    → (lock ≡ some held) × (held.visibility ≢ scope.visibility)
unfolding check_lock
check_lock-deny none scope h = cc
check_lock-deny (some c) scope {reason} {held} h =
    let decided = check_lock-some c scope in
    let differ : (same_visibility c.visibility scope.visibility ≡ false) × (c ≡ held) =
      ground arith in
    (
      ap some differ.1,
      ground (arith, differ.1, same_visibility_iff held.visibility scope.visibility),
    )

-- An access is denied exactly if the session exists and is locked to a context of another
-- visibility; the context's type and identifier play no part.
pub check_context_access-deny_iff :
    (id : String) (scope : ContextScope) (m : Manager) (held : ContextScope)
    → ((reason : String) × (check_context_access id scope m ≡ ok (deny reason held))) ↔ (
        (s : Session) × (lookup id m ≡ some s)
        × (s.locked_context ≡ some held)
        × (held.visibility ≢ scope.visibility))
unfolding check_context_access
check_context_access-deny_iff id scope m held = (
  λ denied. elim (Option-cases (lookup id m)) [
    | inl missing ↦ absurd (cc (rw (missing, check_context_access) at denied.1))
    | inr (s, found) ↦
        let lock =
          check_lock-deny s.locked_context scope
            (ok-injective (rw (found, check_context_access) at denied.1)) in
        (s, found, lock.0, lock.1)
  ],
  λ locked. (
    denial held scope,
    rw (locked.1, check_context_access)
        (rw (locked.2, check_lock-some held scope)
          (ground (arith, same_visibility_iff held.visibility scope.visibility, locked.3))),
  ),
)

-- A session that was just locked is denied what has another visibility, and allowed the rest.
pub check_context_access-lock_context :
    (id : String) (held scope : ContextScope) (now : ℕ) (m : Manager) (s : Session)
    → lookup id m ≡ some s
    → check_context_access id scope (lock_context id held now m).0
      ≡ ok (
          if same_visibility held.visibility scope.visibility
          then allow
          else deny (denial held scope) held)
unfolding check_context_access lock_context
check_context_access-lock_context id held scope now m s h =
    rw (lookup-modify id id _ m, h, eq_refl) (rw (check_lock-some held scope))
