-- ===== src/Jwt/Claims.antt =====
-- `JwtClaims` of auth/jwt.rs, and how they are read from the payload of a token.
use mcp_shield.Prelude.{
  ℕ, ◌^◌, String, Option, none, some, List, [], ◌∷◌, Char, code, ltb, ◌==◌, if◌then◌else◌,
}
use mcp_shield.Text.Defs.{is_whitespace}
use mcp_shield.Json.{Value, integer, string, array, pos, Items, nil, cons, get, str_of}

pub record JwtClaims : Type 0 where
  pub sub : Option String
  pub iss : Option String
  pub aud : Option (List String)
  pub exp : Option ℕ
  pub nbf : Option ℕ
  pub iat : Option ℕ
  pub scope : Option (List String)
  pub jti : Option String
  pub extra : Value

-- `v.as_u64()`
abbrev as_u64 : Value → Option ℕ
as_u64 (integer (pos n)) = if ltb n (2 ^ 64) then some n else none
as_u64 _ = none

abbrev u64_of : Option Value → Option ℕ
u64_of none = none
u64_of (some v) = as_u64 v

-- `filter_map(|item| item.as_str())`
strings : Items → List String
strings nil = []
strings (cons (string s) vs) = s ∷ strings vs
strings (cons v vs) = strings vs

-- The audience: a text, or the texts of an array.
abbrev audience : Option Value → Option (List String)
audience (some (string s)) = some (s ∷ [])
audience (some (array vs)) = some (strings vs)
audience _ = none

-- `s.split_whitespace()`: the word that a character stands in front of, and the words after it.
abbrev begin : Char → String × List String → String × List String
begin c (word, words) =
    if is_whitespace (code c)
    then ("", if word == "" then words else word ∷ words)
    else (String.◌∷◌ c word, words)

words_of : String → String × List String
words_of String.[] = ("", [])
words_of (String.◌∷◌ c s) = begin c (words_of s)

unfoldable pub split_whitespace : String → List String
unfolding words_of
split_whitespace s = let (word, words) = words_of s in if word == "" then words else word ∷ words

abbrev words_of_claim : Option String → Option (List String)
words_of_claim none = none
words_of_claim (some s) = some (split_whitespace s)

unfoldable pub extract_claims : Value → JwtClaims
unfolding get strings split_whitespace
extract_claims claims = record {
  sub = str_of (get claims "sub");
  iss = str_of (get claims "iss");
  aud = audience (get claims "aud");
  exp = u64_of (get claims "exp");
  nbf = u64_of (get claims "nbf");
  iat = u64_of (get claims "iat");
  scope = words_of_claim (str_of (get claims "scope"));
  jti = str_of (get claims "jti");
  extra = claims;
}
