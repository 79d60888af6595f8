-- ===== src/Jwt/Accepts.antt =====
-- Which tokens auth/jwt.rs accepts.
use mcp_shield.Prelude.{
  String, ◌≡◌, ◌↔◌, refl, ◌∙◌, ap, Option, none, some, Result, ok, err, >>=-eq-ok, ok-injective,
  ◌>>=◌,
}
use mcp_shield.Json.{Value}
use mcp_shield.Error.{McpError}
use mcp_shield.Jwt.Claims.{JwtClaims, extract_claims}
use mcp_shield.Jwt.Validator.{
  Algorithm, hs256, hs384, hs512, rs256, rs384, rs512, es256, es384, other, Tokens,
  JwtValidatorConfig, new, rules, get_decoding_key, hmac_key, or_jwt, validate_token,
}

-- The algorithms with a shared secret.
abbrev pub IsHmac : Algorithm → Type 0
IsHmac hs256 = Unit
IsHmac hs384 = Unit
IsHmac hs512 = Unit
IsHmac _ = ⊥

-- The token says that it is signed with a shared secret, one is configured, and with it the library
-- verifies the token under the configured rules, for the claims.
pub record Accepted {K : Type 0} (t : Tokens K) (config : JwtValidatorConfig) (token : String)
    (claims : JwtClaims) : Type 0 where
  pub alg : Algorithm
  pub secret : String
  pub payload : Value
  pub header : t.decode_header token ≡ ok alg
  pub hmac : IsHmac alg
  pub configured : config.hmac_secret ≡ some secret
  pub verified : t.decode token (t.from_secret secret) (rules config alg) ≡ ok payload
  pub same : extract_claims payload ≡ claims

module _ {K : Type 0} (t : Tokens K) (config : JwtValidatorConfig) where
  hmac_key-eq-ok :
      {key : K} (o : Option String)
      → hmac_key t o ≡ ok key
      → (secret : String) × (o ≡ some secret) × (t.from_secret secret ≡ key)
  hmac_key-eq-ok none h = cc
  hmac_key-eq-ok (some secret) h = (secret, refl, ok-injective h)

  -- The keys of a new validator are secrets.
  key-secret :
      {key : K} (alg : Algorithm)
      → get_decoding_key t (new config) alg ≡ ok key
      → IsHmac alg
        × ((secret : String) × (config.hmac_secret ≡ some secret) × (t.from_secret secret ≡ key))
  key-secret hs256 h = (tt, hmac_key-eq-ok config.hmac_secret h)
  key-secret hs384 h = (tt, hmac_key-eq-ok config.hmac_secret h)
  key-secret hs512 h = (tt, hmac_key-eq-ok config.hmac_secret h)
  key-secret rs256 h = cc
  key-secret rs384 h = cc
  key-secret rs512 h = cc
  key-secret es256 h = cc
  key-secret es384 h = cc
  key-secret (other name) h = cc

  secret-key :
      (alg : Algorithm) (secret : String)
      → IsHmac alg
      → config.hmac_secret ≡ some secret
      → get_decoding_key t (new config) alg ≡ ok (t.from_secret secret)
  secret-key hs256 secret h configured = ap (hmac_key t) configured
  secret-key hs384 secret h configured = ap (hmac_key t) configured
  secret-key hs512 secret h configured = ap (hmac_key t) configured
  secret-key rs256 secret h configured = absurd h
  secret-key rs384 secret h configured = absurd h
  secret-key rs512 secret h configured = absurd h
  secret-key es256 secret h configured = absurd h
  secret-key es384 secret h configured = absurd h
  secret-key (other name) secret h configured = absurd h

or_jwt-eq-ok :
    {A : Type 0} {a : A} (text : String) (r : Result String A) → or_jwt text r ≡ ok a → r ≡ ok a
or_jwt-eq-ok text (ok b) h = ap (λ v. ok v) (ok-injective h)
or_jwt-eq-ok text (err e) h = cc

-- A new validator accepts a token exactly if the token's header names an algorithm with a shared
-- secret, a secret is configured, and the library verifies the token with it under the rules of the
-- configuration; the claims are those of the payload.
pub validate_token-eq-ok_iff :
    {K : Type 0} (t : Tokens K) (config : JwtValidatorConfig) (token : String) (claims : JwtClaims)
    → (validate_token t (new config) token ≡ ok claims) ↔ Accepted t config token claims
unfolding validate_token
validate_token-eq-ok_iff {K} t config token claims = (reads, accepts)
  where
    finish : Algorithm → K → Result McpError JwtClaims
    finish alg key =
        or_jwt "JWT validation failed: " (t.decode token key (rules config alg))
        >>= (λ payload. ok (extract_claims payload))

    reads : validate_token t (new config) token ≡ ok claims → Accepted t config token claims
    reads h =
        let (alg, header, after_header) =
          >>=-eq-ok (or_jwt "Failed to decode JWT header: " (t.decode_header token))
            (λ alg. get_decoding_key t (new config) alg >>= finish alg) h in
        let (key, keyed, after_key) =
          >>=-eq-ok (get_decoding_key t (new config) alg) (finish alg) after_header in
        let (payload, decoded, same) =
          >>=-eq-ok (or_jwt "JWT validation failed: " (t.decode token key (rules config alg)))
            (λ payload. ok (extract_claims payload)) after_key in
        let (hmac, (secret, configured, is_key)) = key-secret t config alg keyed in
        record {
          alg = alg;
          secret = secret;
          payload = payload;
          header = or_jwt-eq-ok _ (t.decode_header token) header;
          hmac = hmac;
          configured = configured;
          verified =
              ap (λ k. t.decode token k (rules config alg)) is_key ∙ or_jwt-eq-ok _ _ decoded;
          same = ok-injective same;
        }

    accepts : Accepted t config token claims → validate_token t (new config) token ≡ ok claims
    accepts a =
        ap
          (λ r.
            or_jwt "Failed to decode JWT header: " r
            >>= (λ alg. get_decoding_key t (new config) alg >>= finish alg))
          a.header
        ∙ ap (λ k. k >>= finish a.alg) (secret-key t config a.alg a.secret a.hmac a.configured)
        ∙ ap (λ r. or_jwt "JWT validation failed: " r >>= (λ payload. ok (extract_claims payload)))
            a.verified
        ∙ ap (λ c. ok c) a.same
