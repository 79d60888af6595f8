-- ===== src/RateLimit.antt =====
-- telemetry/rate_limiter.rs: token buckets, and the rules that they follow.
pub mod Bucket
pub mod Limiter
pub mod Choice
pub mod Burst
mod Tests
