-- ===== src/Router.antt =====
-- gateway/router.rs: the pipeline of a message through the gateway.
pub mod State
pub mod Call
pub mod Respond
pub mod Audit
pub mod Route
pub mod Checks
pub mod Gate
pub mod Forwarding
pub mod Policy
pub mod Pipeline
pub mod Answer
pub mod Unknown
pub mod Keeping
mod Tests
