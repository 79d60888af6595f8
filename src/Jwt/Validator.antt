-- ===== src/Jwt/Validator.antt =====
-- `JwtValidator` of auth/jwt.rs, over the library that decodes and verifies tokens.
use mcp_shield.Prelude.{
  ℕ, String, Bool, true, Option, none, some, List, [], ◌∷◌, Result, ok, err, ◌==◌, ◌>>=◌,
  if◌then◌else◌,
}
use mcp_shield.Text.Defs.{format, split_once, trim}
use mcp_shield.Json.{Value}
use mcp_shield.Error.{McpError, jwt_error, unauthorized}
use mcp_shield.Jwt.Claims.{JwtClaims, extract_claims}

-- `jsonwebtoken::Algorithm`; the code does not name the others.
pub data Algorithm : Type 0 where
  hs256 hs384 hs512 rs256 rs384 rs512 es256 es384 : Algorithm
  other : String → Algorithm

-- `Validation::new(header.alg)` with what the code sets. A token is verified by the algorithm `alg`
-- alone.
pub record Validation : Type 0 where
  pub alg : Algorithm
  pub issuer : Option (List String)
  pub audience : Option (List String)
  pub validate_exp : Bool
  pub leeway : ℕ
  pub required_spec_claims : List String

-- `jsonwebtoken`, with the texts of its errors. Of a header, the code reads the algorithm.
pub record Tokens (K : Type 0) : Type 0 where
  pub decode_header : String → Result String Algorithm
  pub from_secret : String → K
  pub decode : String → K → Validation → Result String Value
  pub debug : Algorithm → String

pub record JwtValidatorConfig : Type 0 where
  pub hmac_secret : Option String
  pub jwks_url : Option String
  pub issuer : Option String
  pub audience : Option String
  pub algorithms : List Algorithm
  pub validate_exp : Bool
  pub leeway : ℕ

pub record JwtValidator (K : Type 0) : Type 0 where
  pub config : JwtValidatorConfig
  pub jwks_keys : List K

abbrev pub default : JwtValidatorConfig
default = record {
  hmac_secret = none;
  jwks_url = none;
  issuer = none;
  audience = none;
  algorithms = rs256 ∷ rs384 ∷ rs512 ∷ es256 ∷ es384 ∷ hs256 ∷ hs384 ∷ hs512 ∷ [];
  validate_exp = true;
  leeway = 30;
}

abbrev pub new : {K : Type 0} → JwtValidatorConfig → JwtValidator K
new config = record { config = config; jwks_keys = [] }

abbrev pub with_hmac_secret : {K : Type 0} → String → Option String → JwtValidator K
with_hmac_secret secret issuer =
    new (record default { hmac_secret = some secret; issuer = issuer; algorithms = hs256 ∷ [] })

abbrev only : Option String → Option (List String)
only none = none
only (some s) = some (s ∷ [])

abbrev pub rules : JwtValidatorConfig → Algorithm → Validation
rules config alg = record {
  alg = alg;
  issuer = only config.issuer;
  audience = only config.audience;
  validate_exp = config.validate_exp;
  leeway = config.leeway;
  required_spec_claims = [];
}

abbrev pub or_jwt {ℓ} : {A : Type ℓ} → String → Result String A → Result McpError A
or_jwt text (ok a) = ok a
or_jwt text (err e) = err (jwt_error (format (text ∷ e ∷ [])))

module _ {K : Type 0} (t : Tokens K) where
  -- The first of the loaded keys.
  abbrev first_key : Algorithm → List K → Result McpError K
  first_key alg [] = err (
      jwt_error (
        format ("No JWKS keys loaded for algorithm " ∷ t.debug alg ∷ ". Configure jwks_url." ∷ [])))
  first_key alg (key ∷ keys) = ok key

  abbrev pub hmac_key : Option String → Result McpError K
  hmac_key none = err (jwt_error "HMAC algorithm requires a configured jwt_secret")
  hmac_key (some secret) = ok (t.from_secret secret)

  abbrev pub get_decoding_key : JwtValidator K → Algorithm → Result McpError K
  get_decoding_key v hs256 = hmac_key v.config.hmac_secret
  get_decoding_key v hs384 = hmac_key v.config.hmac_secret
  get_decoding_key v hs512 = hmac_key v.config.hmac_secret
  get_decoding_key v rs256 = first_key rs256 v.jwks_keys
  get_decoding_key v rs384 = first_key rs384 v.jwks_keys
  get_decoding_key v rs512 = first_key rs512 v.jwks_keys
  get_decoding_key v es256 = first_key es256 v.jwks_keys
  get_decoding_key v es384 = first_key es384 v.jwks_keys
  get_decoding_key v (other name) =
      err (jwt_error (format ("Unsupported JWT algorithm: " ∷ t.debug (other name) ∷ [])))

  unfoldable pub validate_token : JwtValidator K → String → Result McpError JwtClaims
  unfolding format
  validate_token v token = do
    alg ← or_jwt "Failed to decode JWT header: " (t.decode_header token)
    decoding_key ← get_decoding_key v alg
    claims ← or_jwt "JWT validation failed: " (t.decode token decoding_key (rules v.config alg))
    ok (extract_claims claims)

-- The second of two parts at the first space, where the first is `Bearer`.
unfoldable pub extract_bearer_token : String → Result McpError String
unfolding split_once trim
extract_bearer_token auth_header = elim (split_once b' ' auth_header) [
  | none ↦ err (unauthorized "Invalid Authorization header format. Expected: Bearer <token>")
  | some (scheme, rest) ↦
      if scheme == "Bearer"
      then (if trim rest == "" then err (unauthorized "Empty Bearer token") else ok (trim rest))
      else err (unauthorized "Invalid Authorization header format. Expected: Bearer <token>")
]

-- `refresh_jwks` logs, and loads nothing.
abbrev pub refresh_jwks :
    {K : Type 0} → JwtValidator K → JwtValidator K × Result McpError (Unit {0})
refresh_jwks v = (v, ok tt)
