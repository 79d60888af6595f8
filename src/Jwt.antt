-- ===== src/Jwt.antt =====
-- auth/jwt.rs: the validation of bearer tokens.
pub mod Claims
pub mod Validator
pub mod Accepts
mod Tests
