-- ===== src/Scope.antt =====
-- auth/scope.rs: OAuth 2.1 scopes.
pub mod Enforcer
pub mod Grants
mod Tests
