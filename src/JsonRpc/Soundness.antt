-- ===== src/JsonRpc/Soundness.antt =====
-- What a successful parse says of the text that was parsed, and what a failed one answers.
use mcp_shield.Prelude.{
  String, ◌≡◌, ◌≢◌, refl, ap, true, Option, none, some, ok, err, arith, Option-cases, inl, inr,
  length, >>=-eq-ok, unwrap_or, ◌==◌, eq_iff, ok-injective, suc,
}
use mcp_shield.Json.{Value, Items, items, nil, cons, string, array, get, str_of}
use mcp_shield.Error.{RequestId, McpError, error_code, code_invalid_request}
use mcp_shield.JsonRpc.Message
use mcp_shield.JsonRpc.Message.{
  JsonRpcMessage, request, notification, success, error, batch, Messages, messages,
}
use mcp_shield.JsonRpc.Codec.{Codec}
use mcp_shield.JsonRpc.Parse.{parse_single, parse_all, parse, jsonrpc_version}

version-of :
    (o : Option Value)
    → (unwrap_or (str_of o) "" == jsonrpc_version) ≡ true
    → o ≡ some (string "2.0")
version-of none h = cc
version-of (some (string s)) h = ap (λ t. some (string t)) ((eq_iff s "2.0").0 h)
version-of (some v) h = cc

module _ (c : Codec) where
  parse_single-error_code :
      (raw : Value) (e : McpError)
      → parse_single c raw ≡ err e
      → error_code e ≡ code_invalid_request
  unfolding parse_single error_code
  parse_single-error_code raw e h = ground arith

  parse_all-error_code :
      (vs : Items) (e : McpError) → parse_all c vs ≡ err e → error_code e ≡ code_invalid_request
  unfolding parse_all
  parse_all-error_code nil e h = cc
  parse_all-error_code (cons v vs) e h =
      ground (arith, parse_single-error_code v e, parse_all-error_code vs e)

  -- Every value that is refused is answered with the code of an invalid request.
  pub parse-error_code :
      (raw : Value) (e : McpError) → parse c raw ≡ err e → error_code e ≡ code_invalid_request
  unfolding parse error_code
  parse-error_code (array nil) e h = ground arith
  parse-error_code (array (cons v vs)) e h = ground (arith, parse_all-error_code (cons v vs) e)
  parse-error_code raw e h = parse_single-error_code raw e h

  -- What a request was parsed from.
  pub record IsRequest (raw : Value) (id : RequestId) (method : String) (params : Option Value)
      : Type 0 where
    pub versioned : get raw "jsonrpc" ≡ some (string "2.0")
    pub id_value : Value
    pub has_id : get raw "id" ≡ some id_value
    pub id_read : c.read_id id_value ≡ ok id
    pub id_present : id ≢ RequestId.null
    pub has_method : get raw "method" ≡ some (string method)
    pub has_params : get raw "params" ≡ params
    pub no_result : get raw "result" ≡ none
    pub no_error : get raw "error" ≡ none

  id-of :
      (raw : Value) (id : RequestId) (method : String) (params : Option Value)
      → parse_single c raw ≡ ok (request id method params)
      → (v : Value) × (get raw "id" ≡ some v) × (c.read_id v ≡ ok id)
  unfolding parse_single
  id-of raw id method params h = elim (Option-cases (get raw "id")) [
    | inl missing ↦ absurd (ground (arith, missing))
    | inr (v, found) ↦ (v, found, ground (arith, found))
  ]

  -- A request is read from an object of version 2.0 with an identifier that is not null and a
  -- method, and with neither a result nor an error.
  pub parse_single-request :
      (raw : Value) (id : RequestId) (method : String) (params : Option Value)
      → parse_single c raw ≡ ok (request id method params)
      → IsRequest raw id method params
  unfolding parse_single
  parse_single-request raw id method params h = record {
    versioned = version-of (get raw "jsonrpc") (ground arith);
    id_value = (id-of raw id method params h).0;
    has_id = (id-of raw id method params h).1;
    id_read = (id-of raw id method params h).2;
    id_present = ground arith;
    has_method = ground arith;
    has_params = ground arith;
    no_result = ground arith;
    no_error = ground arith;
  }

  length-parse_all :
      (vs : Items) {ms : Messages}
      → parse_all c vs ≡ ok ms
      → length (messages ms) ≡ length (items vs)
  unfolding parse_all
  length-parse_all nil {ms} h =
      let e : ◌≡◌ {A = Messages} Message.nil ms = ok-injective h in rw (← e)
  length-parse_all (cons v vs) {ms} h =
      let (m, _, rest) = >>=-eq-ok (parse_single c v) _ h in
      let (ms', parsed, e) = >>=-eq-ok (parse_all c vs) _ rest in
      rw (← ok-injective e) (ap suc (length-parse_all vs parsed))

  parse_single-ne-batch : (raw : Value) (ms : Messages) → parse_single c raw ≢ ok (batch ms)
  unfolding parse_single
  parse_single-ne-batch raw ms h = ground arith

  -- A batch is never empty, and has a message for each element: one that is refused refuses all.
  pub parse-batch :
      (raw : Value) (ms : Messages)
      → parse c raw ≡ ok (batch ms)
      → (vs : Items) × (raw ≡ array vs)
        × (vs ≢ nil)
        × (parse_all c vs ≡ ok ms)
        × (length (messages ms) ≡ length (items vs))
  unfolding parse
  parse-batch (array nil) ms h = cc
  parse-batch (array (cons v vs)) ms h =
      let (ms', parsed, e) = >>=-eq-ok (parse_all c (cons v vs)) _ h in
      let same : ms' ≡ ms = ground arith in
      (
        cons v vs,
        refl,
        λ empty. cc empty,
        rw (← same) parsed,
        rw (← same) (length-parse_all (cons v vs) parsed),
      )
  parse-batch raw ms h = absurd (parse_single-ne-batch raw ms h)
