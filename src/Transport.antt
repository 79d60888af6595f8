-- ===== src/Transport.antt =====
-- transport/streamable_http.rs, transport/sse.rs, transport/stdio.rs: how messages come and go.
pub mod Http
pub mod Gate
pub mod Sessions
pub mod Sse
pub mod Streams
pub mod Isolation
pub mod Stdio
pub mod Silence
pub mod Transcript
mod Tests
