-- ===== src/Ecpa.antt =====
-- guardrail/ecpa.rs: constraints on the arguments of critical tools.
pub mod Predicate
pub mod Guardrail
pub mod Enforced
mod Tests
