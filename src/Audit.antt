-- ===== src/Audit.antt =====
-- telemetry/producer.rs: where audit events go.
pub mod Producer
pub mod Fanout
mod Tests
