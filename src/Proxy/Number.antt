-- ===== src/Proxy/Number.antt =====
-- `i64`, as the built-in echo server of gateway/proxy.rs reads and adds it.
use Prim.Native.Nat.{◌%◌}
use mcp_shield.Prelude.{ℕ, ◌+◌, ◌-◌, ◌^◌, Option, none, some, ltb, unwrap_or, if◌then◌else◌}
use mcp_shield.Json.{ℤ, pos, negsuc, Value, integer}

-- `v.as_i64()`
abbrev pub as_i64 : Value → Option ℤ
as_i64 (integer (pos n)) = if ltb n (2 ^ 63) then some (pos n) else none
as_i64 (integer (negsuc n)) = if ltb n (2 ^ 63) then some (negsuc n) else none
as_i64 _ = none

-- `v.and_then(|v| v.as_i64()).unwrap_or(0)`
unfoldable pub i64_or_zero : Option Value → ℤ
i64_or_zero none = pos 0
i64_or_zero (some v) = unwrap_or (as_i64 v) (pos 0)

-- The bits of an `i64`, as a number, and back.
unfoldable pub bits : ℤ → ℕ
bits (pos n) = n % 2 ^ 64
bits (negsuc n) = 2 ^ 64 - 1 - n % 2 ^ 64

unfoldable pub of_bits : ℕ → ℤ
of_bits n = if ltb n (2 ^ 63) then pos n else negsuc (2 ^ 64 - 1 - n)

-- `a + b` of a release build, which wraps around; a debug build panics where it overflows.
unfoldable pub add_i64 : ℤ → ℤ → ℤ
unfolding bits of_bits
add_i64 a b = of_bits ((bits a + bits b) % 2 ^ 64)
