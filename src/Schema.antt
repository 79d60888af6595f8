-- ===== src/Schema.antt =====
-- protocol/schema.rs: the validation of arguments against schemas, with a cache of validators.
pub mod Validator
pub mod Key
pub mod Cache
mod Tests
