-- ===== src/ControlPlane.antt =====
-- control_plane/db.rs: the store of tenants, policies, servers and rules.
pub mod Store
pub mod Loading
mod Tests
