-- ===== src/Egress.antt =====
-- guardrail/egress.rs: what the inspector makes of a response.
pub mod Defs
pub mod Inspector
pub mod Clean
mod Tests
