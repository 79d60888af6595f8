-- ===== src/JsonRpc.antt =====
-- protocol/jsonrpc.rs: JSON-RPC 2.0 messages.
pub mod Message
pub mod Codec
pub mod Parse
pub mod RoundTrip
pub mod Soundness
pub mod Serde
mod Tests
