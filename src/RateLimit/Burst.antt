-- ===== src/RateLimit/Burst.antt =====
-- How many requests telemetry/rate_limiter.rs lets through at one instant.
use mcp_shield.Prelude.{
  ℕ, suc, zero, ◌+◌, ◌-◌, ◌^◌, ◌≤◌, ◌<◌, ◌≡◌, refl, ap, ◌∙◌, Bool, true, false, none, some, Result,
  ok, err, arith, leb, unwrap_or, if◌then◌else◌,
}
use mcp_shield.Dict.{lookup, lookup-insert_self}
use mcp_shield.RateLimit.Bucket.{Floats, TokenBucket, refill, try_consume}
use mcp_shield.RateLimit.Limiter.{
  RateLimitKey, RateLimitRule, RateLimitResult, RateLimitError, Limiter, as_string,
  find_matching_rule, fresh_bucket, bucket_of, with_bucket, consume, check,
}

abbrev pub admits : {F : Type 0} → Result RateLimitError (RateLimitResult F) → Bool
admits (ok result) = result.allowed
admits (err e) = false

abbrev pub min : ℕ → ℕ → ℕ
min n c = if leb n c then n else c

-- IEEE 754 doubles hold the integers up to 2^53, and calculate exactly with them.
pub record IsExact {F : Type 0} (f : Floats F) : Type 0 where
  pub ge_one : (k : ℕ) → f.ge (f.of_nat (suc k)) (f.of_nat 1) ≡ true
  pub not_ge_one : f.ge (f.of_nat 0) (f.of_nat 1) ≡ false
  pub sub_one : (k : ℕ) → k < 2 ^ 53 → f.sub (f.of_nat (suc k)) (f.of_nat 1) ≡ f.of_nat k
  pub add_zero : (k : ℕ) → f.add (f.of_nat k) (f.of_nat 0) ≡ f.of_nat k
  pub min_left : (k c : ℕ) → k ≤ c → f.min (f.of_nat k) (f.of_nat c) ≡ f.of_nat k

module _ {F : Type 0} (f : Floats F) where
  -- The number of requests that `n` calls of `check` at one instant let through.
  unfoldable pub admitted : ℕ → RateLimitKey → ℕ → Limiter F → ℕ
  admitted zero key now l = 0
  admitted (suc n) key now l =
      let answer = check f key now now now l in
      (if admits answer.1 then 1 else 0) + admitted n key now answer.0

  abbrev rate_of : RateLimitRule → F
  rate_of rule = f.div (f.of_nat rule.requests_per_window) (f.of_nat rule.window_seconds)

module _ {F : Type 0} (f : Floats F) (exact : IsExact f) (rate : F)
    (still : f.mul (f.seconds 0) rate ≡ f.of_nat 0) (capacity now : ℕ)
    (small : capacity < 2 ^ 53) where
  abbrev holding : ℕ → TokenBucket F
  holding tokens = record {
    tokens = f.of_nat tokens;
    last_refill = now;
    capacity = capacity;
    refill_rate = rate;
  }

  refill-holding : (j : ℕ) → j ≤ capacity → refill f now (holding j) ≡ holding j
  unfolding refill
  refill-holding j le =
      let idle : now - now ≡ 0 = omega arith in
      let same : f.min (f.add (f.of_nat j) (f.mul (f.seconds (now - now)) rate)) (f.of_nat capacity)
          ≡ f.of_nat j =
        ap (λ e. f.min (f.add (f.of_nat j) (f.mul (f.seconds e) rate)) (f.of_nat capacity)) idle
        ∙ ap (λ x. f.min (f.add (f.of_nat j) x) (f.of_nat capacity)) still
        ∙ ap (λ x. f.min x (f.of_nat capacity)) (exact.add_zero j)
        ∙ exact.min_left j capacity le in
      ap
        (λ (x : F). record {
          tokens = x;
          last_refill = now;
          capacity = capacity;
          refill_rate = rate;
        })
        same

  try_consume-suc :
      (k : ℕ)
      → suc k ≤ capacity
      → try_consume f now (f.of_nat 1) (holding (suc k)) ≡ (holding k, true)
  unfolding try_consume
  try_consume-suc k le =
      ap
        (λ (b : TokenBucket F).
          if f.ge b.tokens (f.of_nat 1)
          then (record b { tokens = f.sub b.tokens (f.of_nat 1) }, true)
          else (b, false))
        (refill-holding (suc k) le)
      ∙ ap
          (λ (t : Bool).
            if t
            then (record (holding (suc k)) { tokens = f.sub (f.of_nat (suc k)) (f.of_nat 1) }, true)
            else (holding (suc k), false))
          (exact.ge_one k)
      ∙ ap (λ (x : F). (record (holding (suc k)) { tokens = x }, true))
          (exact.sub_one k (omega arith))

  try_consume-zero : try_consume f now (f.of_nat 1) (holding 0) ≡ (holding 0, false)
  unfolding try_consume
  try_consume-zero =
      ap
        (λ (b : TokenBucket F).
          if f.ge b.tokens (f.of_nat 1)
          then (record b { tokens = f.sub b.tokens (f.of_nat 1) }, true)
          else (b, false))
        (refill-holding 0 (omega arith))
      ∙ ap
          (λ (t : Bool).
            if t
            then (record (holding 0) { tokens = f.sub (f.of_nat 0) (f.of_nat 1) }, true)
            else (holding 0, false))
          exact.not_ge_one

  -- A bucket with a token gives one.
  consume-suc :
      (rule : RateLimitRule) (k : ℕ)
      → suc k ≤ capacity
      → ((consume f rule now now (holding (suc k))).0 ≡ holding k)
        × ((consume f rule now now (holding (suc k))).1.allowed ≡ true)
  unfolding consume
  consume-suc rule k le = rw (try_consume-suc k le) (refill-holding k (omega arith), refl)

  consume-zero :
      (rule : RateLimitRule)
      → ((consume f rule now now (holding 0)).0 ≡ holding 0)
        × ((consume f rule now now (holding 0)).1.allowed ≡ false)
  unfolding consume
  consume-zero rule = rw try_consume-zero (refl, refl)

module _ {F : Type 0} (f : Floats F) (key : RateLimitKey) (rule : RateLimitRule) (now : ℕ) where
  check-some :
      (l : Limiter F)
      → find_matching_rule key l ≡ some rule
      → check f key now now now l ≡ (
        with_bucket
            (as_string key)
            (consume f rule now now (bucket_of f (as_string key) rule now l)).0
            l,
        ok (consume f rule now now (bucket_of f (as_string key) rule now l)).1,
      )
  unfolding check
  check-some l found = rw (found, check) refl

  -- A call answers from the bucket and keeps it, and the rule stays the same.
  check-bucket :
      (l : Limiter F) (b : TokenBucket F)
      → find_matching_rule key l ≡ some rule
      → bucket_of f (as_string key) rule now l ≡ b
      → (admits (check f key now now now l).1 ≡ (consume f rule now now b).1.allowed)
        × (bucket_of f (as_string key) rule now (check f key now now now l).0
            ≡ (consume f rule now now b).0)
        × (find_matching_rule key (check f key now now now l).0 ≡ some rule)
  unfolding bucket_of find_matching_rule
  check-bucket l b found holds = rw (check-some l found) (rw holds (refl, kept, same))
    where
      kept :
          bucket_of f
            (as_string key)
            rule
            now
            (with_bucket (as_string key) (consume f rule now now b).0 l)
          ≡ (consume f rule now now b).0
      kept =
          rw (lookup-insert_self (as_string key) (consume f rule now now b).0 l.buckets, bucket_of)
            refl

      same :
          find_matching_rule key (with_bucket (as_string key) (consume f rule now now b).0 l)
          ≡ some rule
      same = found

module _ {F : Type 0} (f : Floats F) (exact : IsExact f) (key : RateLimitKey) (rule : RateLimitRule)
    (still : f.mul (f.seconds 0) (rate_of f rule) ≡ f.of_nat 0) (capacity now : ℕ)
    (small : capacity < 2 ^ 53) where
  -- As many pass as there are tokens.
  admitted-holding :
      (n j : ℕ) (l : Limiter F)
      → j ≤ capacity
      → find_matching_rule key l ≡ some rule
      → bucket_of f (as_string key) rule now l
        ≡ holding f exact (rate_of f rule) still capacity now small j
      → admitted f n key now l ≡ min n j
  unfolding admitted
  admitted-holding zero j l le found holds = ground arith
  admitted-holding (suc n) zero l le found holds =
      let (answer, kept, same) = check-bucket f key rule now l _ found holds in
      let (left, refused) = consume-zero f exact (rate_of f rule) still capacity now small rule in
      let later = admitted-holding n zero (check f key now now now l).0 le same (kept ∙ left) in
      ground (arith, answer, refused, later)
  admitted-holding (suc n) (suc j) l le found holds =
      let (answer, kept, same) = check-bucket f key rule now l _ found holds in
      let (left, passed) =
        consume-suc f exact (rate_of f rule) still capacity now small rule j le in
      let later =
        admitted-holding n j (check f key now now now l).0 (omega arith) same (kept ∙ left) in
      ground (arith, answer, passed, later)

-- From a key that has no bucket, as many requests pass at one instant as the rule's burst allowance,
-- or its requests per window where it has none, if the refill rate is finite.
pub admitted-fresh :
    {F : Type 0} (f : Floats F) (exact : IsExact f) (key : RateLimitKey) (rule : RateLimitRule)
    (n now : ℕ) (l : Limiter F)
    → f.mul (f.seconds 0) (rate_of f rule) ≡ f.of_nat 0
    → unwrap_or rule.burst_allowance rule.requests_per_window < 2 ^ 53
    → find_matching_rule key l ≡ some rule
    → lookup (as_string key) l.buckets ≡ none
    → admitted f n key now l ≡ min n (unwrap_or rule.burst_allowance rule.requests_per_window)
unfolding bucket_of
admitted-fresh f exact key rule n now l still small found new_key =
    admitted-holding f exact key rule still
      (unwrap_or rule.burst_allowance rule.requests_per_window) now small n
      (unwrap_or rule.burst_allowance rule.requests_per_window) l (omega arith) found
      (ap (λ b. unwrap_or b (fresh_bucket f rule now)) new_key)
