-- ===== src/Registry.antt =====
-- gateway/registry.rs: the registry of tools, and the names under which they are registered.
pub mod Errors
pub mod Name
pub mod State
pub mod Canonical
pub mod Index
pub mod Unregister
pub mod Ownership
mod Tests
