-- ===== src/RateLimit/Tests.antt =====
-- Runs of the rate limiter, and its theorems at them.
use Prim.Native.Nat.{◌/◌}
use mcp_shield.Prelude.{ℕ, ◌+◌, ◌-◌, ◌*◌, ◌≡◌, refl, ◌⊎◌, true, false, none, some, arith, leb, All}
use mcp_shield.Dict.{lookup}
use mcp_shield.Json.{pos}
use mcp_shield.RateLimit.Bucket.{Floats}
use mcp_shield.RateLimit.Limiter.{
  RateLimitKey, RateLimitRule, token_bucket, reject, Limiter, new, add_rule, rule_matches,
  as_string, find_matching_rule, check,
}
use mcp_shield.RateLimit.Choice.{Within, IsHighest, IsPriority, find_matching_rule-IsHighest}
use mcp_shield.RateLimit.Burst.{IsExact, admitted, min, admitted-fresh}

machine : Unit {0}
unfolding add_rule find_matching_rule check lookup admitted
machine = tt

-- Whole numbers for `f64`: they are exact.
abbrev numbers : Floats ℕ
numbers = record {
  of_nat = λ n. n;
  add = λ a b. a + b;
  sub = λ a b. a - b;
  mul = λ a b. a * b;
  div = λ a b. a / b;
  min = λ a b. min a b;
  ge = λ a b. leb b a;
  floor = λ n. n;
  seconds = λ n. n / 1000000000;
}

numbers-IsExact : IsExact numbers
numbers-IsExact = record {
  ge_one = λ k. ground arith;
  not_ge_one = refl;
  sub_one = λ k h. ground arith;
  add_zero = λ k. ground arith;
  min_left = λ k c h. ground arith;
}

abbrev per_user : RateLimitRule
per_user = record {
  rule_id = "user";
  scope = "user";
  scope_value = none;
  algorithm = token_bucket;
  requests_per_window = 60;
  window_seconds = 60;
  burst_allowance = some 2;
  action = reject;
  priority = pos 5;
  enabled = true;
}

abbrev everyone : RateLimitRule
everyone = record per_user { rule_id = "all"; scope = "global"; priority = pos 1 }

abbrev limiter : Limiter ℕ
limiter = (add_rule per_user (add_rule everyone new).0).0

abbrev ann : RateLimitKey
ann = record { scope = "user"; value = "ann" }

abbrev somebody : RateLimitKey
somebody = record { scope = "ip"; value = "10.0.0.1" }

found : find_matching_rule ann limiter ≡ some per_user
unfolding machine
found = refl

fallback : find_matching_rule somebody limiter ≡ some everyone
unfolding machine
fallback = refl

fresh : lookup (as_string ann) limiter.buckets ≡ none
unfolding machine
fresh = refl

priorities : All (λ r. IsPriority r.priority) limiter.rules
unfolding machine
priorities = (omega arith, (omega arith, tt))

find_matching_rule-IsHighest_example :
    (Within per_user limiter.rules
      × (rule_matches ann per_user ≡ true)
      × IsHighest ann per_user limiter.rules)
    ⊎ (All (λ r. rule_matches ann r ≡ false) limiter.rules × (limiter.default_rule ≡ some per_user))
find_matching_rule-IsHighest_example =
    find_matching_rule-IsHighest limiter ann per_user priorities found

admitted-fresh_example : admitted numbers 3 ann 7 limiter ≡ 2
admitted-fresh_example =
    admitted-fresh numbers numbers-IsExact ann per_user 3 7 limiter refl (omega arith) found fresh
