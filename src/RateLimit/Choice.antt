-- ===== src/RateLimit/Choice.antt =====
-- The rule that telemetry/rate_limiter.rs applies to a key.
use mathlib.Core.Path.{subst}
use mcp_shield.Prelude.{
  List-cases, unwrap_or, suc, zero, ◌^◌, ◌+◌, ◌<◌, ◌≡◌, refl, ◌⊎◌, inl, inr, true, false, some,
  List, [], ◌∷◌, All, arith, Bool-cases, ap, sym, ◌∙◌, if◌then◌else◌,
}
use mcp_shield.Json.{ℤ, pos, negsuc}
use mcp_shield.RateLimit.Limiter.{
  RateLimitKey, RateLimitRule, Limiter, neg_i32, le_int, insert_rule, sort_rules, rule_matches,
  matching_rules, first_or, find_matching_rule,
}

-- The values of `i32` that have a negation.
abbrev pub IsPriority : ℤ → Type 0
IsPriority (pos n) = n < 2 ^ 31
IsPriority (negsuc n) = n + 1 < 2 ^ 31

-- A rule is one of a list.
abbrev pub Within : RateLimitRule → List RateLimitRule → Type 0
Within r [] = ⊥
Within r (s ∷ rules) = (r ≡ s) ⊎ Within r rules

-- No rule that matches the key is above the rule.
abbrev pub IsHighest : RateLimitKey → RateLimitRule → List RateLimitRule → Type 0
IsHighest key rule =
    All (λ r. (rule_matches key r ≡ false) ⊎ (le_int r.priority rule.priority ≡ true))

le_int_refl : (a : ℤ) → le_int a a ≡ true
unfolding le_int
le_int_refl (pos a) = ground arith
le_int_refl (negsuc a) = ground arith

le_int_trans : (a b c : ℤ) → le_int a b ≡ true → le_int b c ≡ true → le_int a c ≡ true
unfolding le_int
le_int_trans (pos a) (pos b) (pos c) p q = ground arith
le_int_trans (negsuc a) (pos b) (pos c) p q = refl
le_int_trans (negsuc a) (negsuc b) (pos c) p q = refl
le_int_trans (negsuc a) (negsuc b) (negsuc c) p q = ground arith
le_int_trans (pos a) (negsuc b) _ p q = cc
le_int_trans (pos a) (pos b) (negsuc c) p q = cc
le_int_trans (negsuc a) (pos b) (negsuc c) p q = cc

le_int_total : (a b : ℤ) → le_int a b ≡ false → le_int b a ≡ true
unfolding le_int
le_int_total (pos a) (pos b) h = ground arith
le_int_total (pos a) (negsuc b) h = refl
le_int_total (negsuc a) (pos b) h = cc
le_int_total (negsuc a) (negsuc b) h = ground arith

-- Negation turns the order round.
neg_i32-le :
    (a b : ℤ)
    → IsPriority a
    → IsPriority b
    → le_int (neg_i32 a) (neg_i32 b) ≡ true
    → le_int b a ≡ true
unfolding le_int neg_i32
neg_i32-le (pos zero) (pos zero) p q h = refl
neg_i32-le (pos zero) (pos (suc b)) p q h = cc
neg_i32-le (pos (suc a)) (pos zero) p q h = ground arith
neg_i32-le (pos (suc a)) (pos (suc b)) p q h = ground arith
neg_i32-le (pos a) (negsuc b) p q h = refl
neg_i32-le (negsuc a) (pos zero) p q h = ground arith
neg_i32-le (negsuc a) (pos (suc b)) p q h = ground arith
neg_i32-le (negsuc a) (negsuc b) p q h = ground arith

abbrev Before : RateLimitRule → RateLimitRule → Type 0
Before r s = le_int (neg_i32 r.priority) (neg_i32 s.priority) ≡ true

All-Before :
    (x r : RateLimitRule) (rules : List RateLimitRule)
    → Before x r
    → All (Before r) rules
    → All (Before x) rules
All-Before x r [] h all = tt
All-Before x r (s ∷ rules) h (first, others) = (
  le_int_trans (neg_i32 x.priority) (neg_i32 r.priority) (neg_i32 s.priority) h first,
  All-Before x r rules h others,
)

-- The head of a sorted list is one of the rules, and before all of them.
sort_rules-head :
    (x : RateLimitRule) (rules : List RateLimitRule)
    → (r : RateLimitRule) × (rest : List RateLimitRule) × (sort_rules (x ∷ rules) ≡ r ∷ rest)
      × Within r (x ∷ rules)
      × All (Before r) (x ∷ rules)
unfolding sort_rules insert_rule
sort_rules-head x [] = (x, [], refl, inl refl, (le_int_refl (neg_i32 x.priority), tt))
sort_rules-head x (y ∷ rules) =
    let (r, rest, sorted, within, all) = sort_rules-head y rules in
    elim (Bool-cases (le_int (neg_i32 x.priority) (neg_i32 r.priority))) [
      | inl first ↦ (
        x,
        r ∷ rest,
        ap (insert_rule x) sorted
            ∙ ap (λ b. if b then x ∷ r ∷ rest else r ∷ insert_rule x rest) first,
        inl refl,
        (le_int_refl (neg_i32 x.priority), All-Before x r (y ∷ rules) first all),
      )
      | inr later ↦ (
        r,
        insert_rule x rest,
        ap (insert_rule x) sorted
            ∙ ap (λ b. if b then x ∷ r ∷ rest else r ∷ insert_rule x rest) later,
        inr within,
        (le_int_total (neg_i32 x.priority) (neg_i32 r.priority) later, all),
      )
    ]

module _ (key : RateLimitKey) (s : RateLimitRule) (rules : List RateLimitRule) where
  drops : rule_matches key s ≡ false → matching_rules key (s ∷ rules) ≡ matching_rules key rules
  unfolding matching_rules
  drops differs = rw (differs, matching_rules) refl

  keeps : rule_matches key s ≡ true → matching_rules key (s ∷ rules) ≡ s ∷ matching_rules key rules
  unfolding matching_rules
  keeps fits = rw (fits, matching_rules) refl

Within-matching_rules :
    (key : RateLimitKey) (r : RateLimitRule) (rules : List RateLimitRule)
    → Within r (matching_rules key rules)
    → Within r rules × (rule_matches key r ≡ true)
unfolding matching_rules
Within-matching_rules key r [] h = absurd h
Within-matching_rules key r (s ∷ rules) h = elim (Bool-cases (rule_matches key s)) [
  | inr differs ↦
      let (within, matches) =
        Within-matching_rules key r rules (subst (Within r) (drops key s rules differs) h) in
      (inr within, matches)
  | inl fits ↦
      let h' : (r ≡ s) ⊎ Within r (matching_rules key rules) =
        subst (Within r) (keeps key s rules fits) h in
      elim h' [
        | inl same ↦ (inl same, rw same fits)
        | inr within ↦
            let (within', matches) = Within-matching_rules key r rules within in
            (inr within', matches)
      ]
]

-- Before all that match is above all that match.
Before-IsHighest :
    (key : RateLimitKey) (rule : RateLimitRule) (rules : List RateLimitRule)
    → IsPriority rule.priority
    → All (λ r. IsPriority r.priority) rules
    → All (Before rule) (matching_rules key rules)
    → IsHighest key rule rules
Before-IsHighest key rule [] p all h = tt
Before-IsHighest key rule (s ∷ rules) p (q, all) h = elim (Bool-cases (rule_matches key s)) [
  | inr differs ↦ (
    inl differs,
    Before-IsHighest key rule rules p all (subst (All (Before rule)) (drops key s rules differs) h),
  )
  | inl fits ↦
      let h' : Before rule s × All (Before rule) (matching_rules key rules) =
        subst (All (Before rule)) (keeps key s rules fits) h in
      (
        inr (neg_i32-le rule.priority s.priority p q h'.0),
        Before-IsHighest key rule rules p all h'.1,
      )
]

none-match :
    (key : RateLimitKey) (rules : List RateLimitRule)
    → matching_rules key rules ≡ []
    → All (λ r. rule_matches key r ≡ false) rules
none-match key [] h = tt
none-match key (s ∷ rules) h = elim (Bool-cases (rule_matches key s)) [
  | inr differs ↦ (differs, none-match key rules (sym (drops key s rules differs) ∙ h))
  | inl fits ↦ absurd (cc (keeps key s rules fits, h))
]

All-Within :
    (P : RateLimitRule → Type 0) (r : RateLimitRule) (rules : List RateLimitRule)
    → All P rules
    → Within r rules
    → P r
All-Within P r [] all h = absurd h
All-Within P r (s ∷ rules) (first, others) (inl same) = subst P (sym same) first
All-Within P r (s ∷ rules) (first, others) (inr within) = All-Within P r rules others within

-- The rule for a key is a rule that matches it and has the highest priority of those, or, if none
-- matches, the default.
pub find_matching_rule-IsHighest :
    {F : Type 0} (l : Limiter F) (key : RateLimitKey) (rule : RateLimitRule)
    → All (λ r. IsPriority r.priority) l.rules
    → find_matching_rule key l ≡ some rule
    → (Within rule l.rules × (rule_matches key rule ≡ true) × IsHighest key rule l.rules)
      ⊎ (All (λ r. rule_matches key r ≡ false) l.rules × (l.default_rule ≡ some rule))
unfolding find_matching_rule
find_matching_rule-IsHighest l key rule all found = elim (List-cases (matching_rules key l.rules)) [
  | inl empty ↦ inr (
    none-match key l.rules empty,
    sym (ap (λ rs. first_or l.default_rule (sort_rules rs)) empty) ∙ found,
  )
  | inr (x, rest, some_match) ↦
      let (r, others, sorted, within, least) = sort_rules-head x rest in
      let same : r ≡ rule =
        ap (λ o. unwrap_or o r)
          (sym (
              ap (λ rs. first_or l.default_rule (sort_rules rs)) some_match
              ∙ ap (first_or l.default_rule) sorted)
            ∙ found) in
      let (member, fits) =
        Within-matching_rules key rule l.rules
          (subst (Within rule) (sym some_match) (subst (λ q. Within q (x ∷ rest)) same within)) in
      inl (
        member,
        fits,
        Before-IsHighest key rule l.rules
            (All-Within (λ q. IsPriority q.priority) rule l.rules all member) all
            (subst (All (Before rule)) (sym some_match)
              (subst (λ q. All (Before q) (x ∷ rest)) same least)),
      )
]
