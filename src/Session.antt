-- ===== src/Session.antt =====
-- session/state.rs: sessions, and the lock of a session to a context.
pub mod State
pub mod Lock
pub mod Frame
mod Tests
