-- ===== src/RateLimit/Bucket.antt =====
-- `TokenBucket` of telemetry/rate_limiter.rs, over the operations of `f64` that it uses. An instant
-- is a number of nanoseconds.
use mcp_shield.Prelude.{ℕ, ◌-◌, Bool, true, false, if◌then◌else◌}

-- `f64`: numbers, arithmetic, `>=`, `floor() as u64`, and `as_secs_f64` of nanoseconds.
pub record Floats (F : Type 0) : Type 0 where
  pub of_nat : ℕ → F
  pub add : F → F → F
  pub sub : F → F → F
  pub mul : F → F → F
  pub div : F → F → F
  pub min : F → F → F
  pub ge : F → F → Bool
  pub floor : F → ℕ
  pub seconds : ℕ → F

pub record TokenBucket (F : Type 0) : Type 0 where
  pub tokens : F
  pub last_refill : ℕ
  pub capacity : ℕ
  pub refill_rate : F

module _ {F : Type 0} (f : Floats F) where
  unfoldable pub new_bucket : ℕ → F → ℕ → TokenBucket F
  new_bucket capacity refill_rate now = record {
    tokens = f.of_nat capacity;
    last_refill = now;
    capacity = capacity;
    refill_rate = refill_rate;
  }

  -- `now.duration_since(last_refill)` stops at zero.
  unfoldable pub refill : ℕ → TokenBucket F → TokenBucket F
  refill now b = record b {
    tokens =
        f.min (f.add b.tokens (f.mul (f.seconds (now - b.last_refill)) b.refill_rate))
          (f.of_nat b.capacity);
    last_refill = now;
  }

  unfoldable pub try_consume : ℕ → F → TokenBucket F → TokenBucket F × Bool
  unfolding refill
  try_consume now tokens b =
      let b' = refill now b in
      if f.ge b'.tokens tokens
      then (record b' { tokens = f.sub b'.tokens tokens }, true)
      else (b', false)

  unfoldable pub remaining : ℕ → TokenBucket F → TokenBucket F × ℕ
  unfolding refill
  remaining now b = let b' = refill now b in (b', f.floor b'.tokens)

  unfoldable pub reset_after_secs : TokenBucket F → F
  reset_after_secs b =
      if f.ge b.tokens (f.of_nat 1)
      then f.of_nat 0
      else f.div (f.sub (f.of_nat 1) b.tokens) b.refill_rate
