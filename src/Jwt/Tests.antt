-- ===== src/Jwt/Tests.antt =====
-- Runs of the validator of tokens, and its theorem at one of them.
use mcp_shield.Json
use mcp_shield.Prelude.{String, ◌≡◌, ◌↔◌, refl, none, some, [], ◌∷◌, ok, err, ◌==◌, if◌then◌else◌}
use mcp_shield.Json.{Value, object, end, field}
use mcp_shield.Text.Defs.{is_whitespace}
use mcp_shield.Error.{unauthorized}
use mcp_shield.Jwt.Claims.{JwtClaims, extract_claims}
use mcp_shield.Jwt.Validator.{
  hs512, Tokens, JwtValidator, with_hmac_secret, new, validate_token, extract_bearer_token,
}
use mcp_shield.Jwt.Accepts.{Accepted, validate_token-eq-ok_iff}

machine : Unit {0}
unfolding validate_token extract_bearer_token extract_claims is_whitespace
machine = tt

abbrev payload : Value
payload = object (
    field "sub" (Json.string "ann")
      (field "scope" (Json.string " mcp:tools:read  mcp:tools:call") end))

-- Every token is signed by HS512 with the same secret.
abbrev tokens : Tokens String
tokens = record {
  decode_header = λ token. ok hs512;
  from_secret = λ secret. secret;
  decode = λ token key rules. if key == "secret" then ok payload else err "InvalidSignature";
  debug = λ alg. "HS512";
}

abbrev validator : JwtValidator String
validator = with_hmac_secret "secret" none

abbrev claims : JwtClaims
claims = record {
  sub = some "ann";
  iss = none;
  aud = none;
  exp = none;
  nbf = none;
  iat = none;
  scope = some ("mcp:tools:read" ∷ "mcp:tools:call" ∷ []);
  jti = none;
  extra = payload;
}

-- A validator whose algorithms are HS256 alone takes a token of HS512.
other_algorithm : validate_token tokens validator "token" ≡ ok claims
unfolding machine
other_algorithm = refl

bearer : extract_bearer_token "Bearer  abc " ≡ ok "abc"
unfolding machine
bearer = refl

empty_bearer : extract_bearer_token "Bearer  " ≡ err (unauthorized "Empty Bearer token")
unfolding machine
empty_bearer = refl

validate_token-eq-ok_iff_example :
    (validate_token tokens (new validator.config) "token" ≡ ok claims)
    ↔ Accepted tokens validator.config "token" claims
validate_token-eq-ok_iff_example = validate_token-eq-ok_iff tokens validator.config "token" claims
