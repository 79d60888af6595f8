-- ===== src/RateLimit/Limiter.antt =====
-- `TokenBucketRateLimiter` of telemetry/rate_limiter.rs. The instants at which a method reads the
-- clock are arguments.
use mcp_shield.Prelude.{
  ℕ, suc, zero, ◌^◌, String, Bool, true, false, ◌&&◌, ◌||◌, ◌==◌, Option, none, some, List, [], ◌∷◌,
  ◌++◌, Result, ok, err, leb, ltb, eqb, unwrap_or, if◌then◌else◌,
}
use mcp_shield.Text.Defs.{format}
use mcp_shield.Json.{ℤ, pos, negsuc}
use mcp_shield.Dict.{Dict, lookup, insert, remove}
use mcp_shield.RateLimit.Bucket.{
  Floats, TokenBucket, new_bucket, try_consume, remaining, reset_after_secs,
}

pub record RateLimitKey : Type 0 where
  pub scope : String
  pub value : String

unfoldable pub as_string : RateLimitKey → String
unfolding format
as_string key = format (key.scope ∷ ":" ∷ key.value ∷ [])

pub data RateLimitAlgorithm : Type 0 where
  token_bucket sliding_window fixed_window : RateLimitAlgorithm

pub data RateLimitAction : Type 0 where
  reject throttle queue : RateLimitAction

pub record RateLimitRule : Type 0 where
  pub rule_id : String
  pub scope : String
  pub scope_value : Option String
  pub algorithm : RateLimitAlgorithm
  pub requests_per_window : ℕ
  pub window_seconds : ℕ
  pub burst_allowance : Option ℕ
  pub action : RateLimitAction
  pub priority : ℤ
  pub enabled : Bool

pub record RateLimitResult (F : Type 0) : Type 0 where
  pub allowed : Bool
  pub remaining : ℕ
  pub reset_after_secs : F
  pub limit : ℕ
  pub rule_id : Option String
  pub action : Option RateLimitAction

pub data RateLimitError : Type 0 where
  exceeded rule_not_found invalid_config : String → RateLimitError

pub record Limiter (F : Type 0) : Type 0 where
  pub buckets : Dict (TokenBucket F)
  pub rules : List RateLimitRule
  pub default_rule : Option RateLimitRule

abbrev pub new : {F : Type 0} → Limiter F
new = record { buckets = []; rules = []; default_rule = none }

abbrev pub with_default_rule : {F : Type 0} → RateLimitRule → Limiter F
with_default_rule rule = record { buckets = []; rules = []; default_rule = some rule }

-- `-r.priority` of an `i32`: in a release build, the least value is its own negation.
unfoldable pub neg_i32 : ℤ → ℤ
neg_i32 (pos zero) = pos zero
neg_i32 (pos (suc n)) = negsuc n
neg_i32 (negsuc n) = if eqb (suc n) (2 ^ 31) then negsuc n else pos (suc n)

unfoldable pub le_int : ℤ → ℤ → Bool
le_int (pos a) (pos b) = leb a b
le_int (pos a) (negsuc b) = false
le_int (negsuc a) (pos b) = true
le_int (negsuc a) (negsuc b) = leb b a

-- `sort_by_key(|r| -r.priority)`, which keeps the order of equal keys.
unfoldable pub insert_rule : RateLimitRule → List RateLimitRule → List RateLimitRule
unfolding le_int neg_i32
insert_rule r [] = r ∷ []
insert_rule r (s ∷ rules) =
    let rest = insert_rule r rules in
    if le_int (neg_i32 r.priority) (neg_i32 s.priority) then r ∷ s ∷ rules else s ∷ rest

unfoldable pub sort_rules : List RateLimitRule → List RateLimitRule
unfolding insert_rule
sort_rules [] = []
sort_rules (r ∷ rules) = insert_rule r (sort_rules rules)

-- The filter of `find_matching_rule`.
unfoldable pub rule_matches : RateLimitKey → RateLimitRule → Bool
rule_matches key r =
    r.enabled
    && (r.scope == "global"
        || (r.scope == key.scope
            && elim r.scope_value [ none ↦ true | some value ↦ value == key.value ]))

unfoldable pub matching_rules : RateLimitKey → List RateLimitRule → List RateLimitRule
unfolding rule_matches
matching_rules key [] = []
matching_rules key (r ∷ rules) =
    let rest = matching_rules key rules in if rule_matches key r then r ∷ rest else rest

abbrev pub first_or : Option RateLimitRule → List RateLimitRule → Option RateLimitRule
first_or default [] = default
first_or default (r ∷ rules) = some r

abbrev has_rule : String → List RateLimitRule → Bool
has_rule id [] = false
has_rule id (r ∷ rules) = r.rule_id == id || has_rule id rules

-- `rules.remove(pos)` of the first position with the identifier.
remove_first : String → List RateLimitRule → List RateLimitRule
remove_first id [] = []
remove_first id (r ∷ rules) =
    let rest = remove_first id rules in if r.rule_id == id then rules else r ∷ rest

module _ {F : Type 0} where
  abbrev pub with_bucket : String → TokenBucket F → Limiter F → Limiter F
  with_bucket key bucket l = record l { buckets = insert key bucket l.buckets }

  unfoldable pub find_matching_rule : RateLimitKey → Limiter F → Option RateLimitRule
  unfolding sort_rules matching_rules
  find_matching_rule key l = first_or l.default_rule (sort_rules (matching_rules key l.rules))

  unfoldable pub reset : RateLimitKey → Limiter F → Limiter F × Result RateLimitError (Unit {0})
  unfolding as_string
  reset key l = (record l { buckets = remove (as_string key) l.buckets }, ok tt)

  unfoldable pub add_rule : RateLimitRule → Limiter F → Limiter F × Result RateLimitError (Unit {0})
  unfolding sort_rules
  add_rule rule l =
      if has_rule rule.rule_id l.rules
      then (
        l,
        err (invalid_config (format ("Rule with ID '" ∷ rule.rule_id ∷ "' already exists" ∷ []))),
      )
      else (record l { rules = sort_rules (l.rules ++ rule ∷ []) }, ok tt)

  unfoldable pub remove_rule : String → Limiter F → Limiter F × Result RateLimitError (Unit {0})
  unfolding remove_first
  remove_rule rule_id l =
      if has_rule rule_id l.rules
      then (record l { rules = remove_first rule_id l.rules }, ok tt)
      else (l, err (rule_not_found rule_id))

module _ {F : Type 0} (f : Floats F) where
  -- The bucket that a rule makes for a key.
  unfoldable pub fresh_bucket : RateLimitRule → ℕ → TokenBucket F
  unfolding new_bucket
  fresh_bucket rule now =
      new_bucket f (unwrap_or rule.burst_allowance rule.requests_per_window)
        (f.div (f.of_nat rule.requests_per_window) (f.of_nat rule.window_seconds)) now

  -- `buckets.entry(key).or_insert_with(…)`
  unfoldable pub bucket_of : String → RateLimitRule → ℕ → Limiter F → TokenBucket F
  unfolding fresh_bucket
  bucket_of key rule now l = unwrap_or (lookup key l.buckets) (fresh_bucket rule now)

  abbrev outcome :
      RateLimitRule → TokenBucket F → Bool → ℕ → Option RateLimitAction → RateLimitResult F
  outcome rule bucket allowed left action = record {
    allowed = allowed;
    remaining = left;
    reset_after_secs = reset_after_secs f bucket;
    limit = rule.requests_per_window;
    rule_id = some rule.rule_id;
    action = action;
  }

  -- The closure of `check`: the clock is read when the bucket is made, when a token is taken, and
  -- when the rest is counted.
  unfoldable pub consume : RateLimitRule → ℕ → ℕ → TokenBucket F → TokenBucket F × RateLimitResult F
  unfolding try_consume remaining reset_after_secs
  consume rule now later bucket =
      let (taken, allowed) = try_consume f now (f.of_nat 1) bucket in
      let (counted, left) = remaining f later taken in
      if allowed
      then (counted, outcome rule counted true left none)
      else (taken, outcome rule taken false 0 (some rule.action))

  unfoldable pub check :
      RateLimitKey → ℕ → ℕ → ℕ → Limiter F → Limiter F × Result RateLimitError (RateLimitResult F)
  unfolding find_matching_rule as_string bucket_of consume
  check key made now later l = elim (find_matching_rule key l) [
    | none ↦ (l, err (invalid_config "No matching rate limit rule found"))
    | some rule ↦
        let (bucket, result) = consume rule now later (bucket_of (as_string key) rule made l) in
        (with_bucket (as_string key) bucket l, ok result)
  ]

  unfoldable pub peek :
      RateLimitKey → ℕ → ℕ → Limiter F → Limiter F × Result RateLimitError (RateLimitResult F)
  unfolding find_matching_rule as_string bucket_of remaining reset_after_secs
  peek key made now l = elim (find_matching_rule key l) [
    | none ↦ (l, err (invalid_config "No matching rate limit rule found"))
    | some rule ↦
        let (bucket, left) = remaining f now (bucket_of (as_string key) rule made l) in
        (with_bucket (as_string key) bucket l, ok (outcome rule bucket (ltb 0 left) left none))
  ]
