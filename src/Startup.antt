-- ===== src/Startup.antt =====
-- config.rs and main.rs: the configuration, and the gateway that is made of it.
pub mod Config
pub mod Limits
pub mod Assembly
pub mod Open
pub mod Locking
mod Tests
