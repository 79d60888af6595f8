-- ===== src/Proxy.antt =====
-- gateway/proxy.rs: the upstream servers, and how a request is forwarded to them.
pub mod Number
pub mod Echo
pub mod Server
pub mod Reach
pub mod Gateway
pub mod TestServer
pub mod Agreement
mod Tests
