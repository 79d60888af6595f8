-- ===== src/Ecpa/Predicate.antt =====
-- The predicates of guardrail/ecpa.rs and their evaluation. Regular expressions and the printer of
-- JSON are parameters.
use Prim.Native.String.{[], ◌∷◌}
use mathlib.Core.List
use mcp_shield.Prelude.{
  ℕ, ◌+◌, ◌*◌, ◌-◌, ◌^◌, String, Bool, true, false, not, ◌&&◌, ◌||◌, ◌==◌, Char, code, Option, none,
  some, Result, ok, err, leb, ltb, eqb, contains, starts_with, map, if◌then◌else◌,
}
use mcp_shield.Text.Defs.{format, join, trim, is_ascii_digit, byte_len}
use mcp_shield.Json
use mcp_shield.Json.{Value, get}

-- The `regex` crate, and `Value::to_string`.
pub record Regexes (R : Type 0) : Type 0 where
  pub compile : String → Result String R
  pub is_match : R → String → Bool
  pub escape : String → String
  pub print : Value → String

pub data EcpaError : Type 0 where
  evaluation_error unknown_tool parse_error regex_error io_error : String → EcpaError

pub record Predicate (R : Type 0) : Type 0 where
  pub name : String
  pub fields : List.List String
  pub expression : String
  pub required : Bool
  pub compiled_regex : Option R

-- `.replace(r"\/", "/")`
unfoldable pub unescape_slash : String → String
unescape_slash [] = []
unescape_slash (c ∷ []) = c ∷ []
unescape_slash (c ∷ d ∷ s) =
    let replaced = d ∷ unescape_slash s in
    let kept = c ∷ unescape_slash (d ∷ s) in
    if eqb (code c) 92 && eqb (code d) b'/' then replaced else kept

-- `.split(',')`
abbrev onto_first : Char → List.List String → List.List String
onto_first c List.[] = List.◌∷◌ (c ∷ []) List.[]
onto_first c (List.◌∷◌ s ss) = List.◌∷◌ (c ∷ s) ss

unfoldable pub split_commas : String → List.List String
split_commas [] = List.◌∷◌ "" List.[]
split_commas (c ∷ s) =
    let rest = split_commas s in if eqb (code c) b',' then List.◌∷◌ "" rest else onto_first c rest

-- `expression.split(',').map(|s| s.trim()).collect().join("|")`
unfoldable pub alternatives : String → String
unfolding split_commas
alternatives expression = join "|" (map trim (split_commas expression))

-- `trim_matches(|c| c == '\'' || c == '"')`
abbrev is_quote : Char → Bool
is_quote c = eqb (code c) 39 || eqb (code c) 34

unquote_start : String → String
unquote_start [] = []
unquote_start (c ∷ s) = if is_quote c then unquote_start s else c ∷ s

unquote_end : String → String
unquote_end [] = []
unquote_end (c ∷ s) = let rest = unquote_end s in if is_quote c && rest == "" then [] else c ∷ rest

unfoldable pub unquote : String → String
unfolding unquote_start unquote_end
unquote s = unquote_end (unquote_start s)

unfoldable pub ends_with : String → String → Bool
ends_with [] suffix = suffix == ""
ends_with (c ∷ s) suffix = (c ∷ s) == suffix || ends_with s suffix

-- `parse::<usize>()` on 64 bits: digits, after one optional plus sign, in range.
read_digits : ℕ → String → Option ℕ
read_digits n [] = if ltb n (2 ^ 64) then some n else none
read_digits n (c ∷ s) =
    if is_ascii_digit (code c) then read_digits (n * 10 + (code c - b'0')) s else none

unfoldable pub parse_usize : String → Option ℕ
unfolding read_digits
parse_usize [] = none
parse_usize (c ∷ []) = if is_ascii_digit (code c) then read_digits 0 (c ∷ []) else none
parse_usize (c ∷ d ∷ s) =
    if eqb (code c) b'+' then read_digits 0 (d ∷ s) else read_digits 0 (c ∷ d ∷ s)

-- The predicates that look for a bad pattern, and those that are compiled from their expression.
abbrev pub bad_patterns : List.List String
bad_patterns = List.◌∷◌ "not_matches" (
    List.◌∷◌ "no_path_traversal"
      (List.◌∷◌ "not_system_path" (List.◌∷◌ "no_dangerous_patterns" List.[])))

module _ {R : Type 0} (x : Regexes R) where
  -- The pattern of a predicate; none, if it needs no regular expression.
  unfoldable pub regex_pattern : String → String → Option String
  unfolding unescape_slash alternatives format
  regex_pattern name expression =
      if contains bad_patterns name || name == "regex_matches"
      then some expression
      else if name == "path_within_root"
      then some (
          format (
            List.◌∷◌ "^"
              (List.◌∷◌ (unescape_slash (x.escape expression)) (List.◌∷◌ "(.*)?$" List.[]))))
      else if name == "command_in_allowlist"
      then some
          (format (List.◌∷◌ "^(" (List.◌∷◌ (alternatives expression) (List.◌∷◌ ")$" List.[]))))
      else if name == "url_host_in_allowlist"
      then some (
          format
            (List.◌∷◌ "^https?://(" (List.◌∷◌ (alternatives expression) (List.◌∷◌ ")" List.[]))))
      else if name == "url_scheme_allowed"
      then some (format (List.◌∷◌ "^" (List.◌∷◌ (x.escape expression) List.[])))
      else none

  with_regex : Predicate R → String → Result String R → Result EcpaError (Predicate R)
  unfolding format
  with_regex p pattern (ok regex) = ok (record p { compiled_regex = some regex })
  with_regex p pattern (err text) = err (
      regex_error (
        format (
          List.◌∷◌ "Failed to compile regex '"
            (List.◌∷◌ pattern (List.◌∷◌ "': " (List.◌∷◌ text List.[]))))))

  unfoldable pub compile_predicate_regex : Predicate R → Result EcpaError (Predicate R)
  unfolding with_regex regex_pattern
  compile_predicate_regex p = elim p.compiled_regex [
    | some regex ↦ ok p
    | none ↦ elim (regex_pattern p.name p.expression) [
      | none ↦ ok p
      | some pattern ↦ with_regex p pattern (x.compile pattern)
    ]
  ]

  abbrev pub text_of : Value → String
  text_of (Json.string s) = s
  text_of v = x.print v

  abbrev within : (ℕ → Bool) → Option ℕ → Bool
  within test none = true
  within test (some n) = test n

  -- The predicates without a regular expression.
  unfoldable pub fallback : String → String → String → Bool
  unfolding unquote ends_with parse_usize
  fallback name expression value =
      if name == "starts_with"
      then starts_with value (unquote expression)
      else if name == "ends_with"
      then ends_with value (unquote expression)
      else if name == "equals"
      then value == unquote expression
      else if name == "not_equals"
      then not (value == unquote expression)
      else if name == "length_le"
      then within (λ n. leb (byte_len value) n) (parse_usize expression)
      else if name == "length_ge"
      then within (λ n. leb n (byte_len value)) (parse_usize expression)
      else false

  -- A predicate with a regular expression, at the value of a field.
  unfoldable pub matches : String → R → String → Bool
  matches name regex value =
      if contains bad_patterns name then not (x.is_match regex value) else x.is_match regex value

  unfoldable pub evaluate_fields : Predicate R → Value → List.List String → Bool
  unfolding matches fallback
  evaluate_fields p arguments List.[] = true
  evaluate_fields p arguments (List.◌∷◌ f fs) =
      let rest = evaluate_fields p arguments fs in
      elim (get arguments f) [
        | none ↦ not p.required
        | some v ↦ elim p.compiled_regex [
          | some regex ↦ matches p.name regex (text_of v)
          | none ↦ fallback p.name p.expression (text_of v) && rest
        ]
      ]

  unfoldable pub evaluate_predicate : Predicate R → Value → Bool
  unfolding evaluate_fields
  evaluate_predicate p arguments = evaluate_fields p arguments p.fields
