-- ===== src/Proxy/Agreement.antt =====
-- The echo server that gateway/proxy.rs has built in, beside that of test_server/echo.rs.
use mathlib.Core.Path.{subst}
use mcp_shield.Prelude.{
  String, ◌≡◌, refl, sym, ap, ◌∙◌, ◌⊎◌, inl, inr, Option, none, some, [], ◌∷◌, Result, ok, err,
  ok_or, ◌==◌, ◌>>=◌, >>=-eq-ok, ok-injective, eq_iff, arith, unwrap_or, Bool-cases,
}
use mcp_shield.Text.Defs.{format}
use mcp_shield.Json.{ℤ, pos, Value, get, str_of, null}
use mcp_shield.Error.{McpError, method_not_found, integer_text}
use mcp_shield.Proxy.Number.{add_i64, i64_or_zero}
use mcp_shield.Proxy.Echo.{echo_call, call_tool, text_result}
use mcp_shield.Proxy.TestServer.{i64_of, handle_tool_call}

ok_or-eq-ok : {A : Type 0} (o : Option A) (e : String) {a : A} → ok_or o e ≡ ok a → o ≡ some a
ok_or-eq-ok none e h = cc
ok_or-eq-ok (some a) e h = cc

i64_or_zero-some : (o : Option Value) {n : ℤ} → i64_of o ≡ some n → i64_or_zero o ≡ n
unfolding i64_or_zero
i64_or_zero-some none h = cc
i64_or_zero-some (some v) h = ap (λ m. unwrap_or m (pos 0)) h

-- The answer to a tool that the gateway's own echo server does not know.
abbrev pub unknown_tool : String → Result McpError Value
unknown_tool name =
    err (method_not_found (format ("Echo server: unknown tool '" ∷ name ∷ "'" ∷ [])))

module _ (to_uppercase : String → String) (now : String) (arguments result : Value) where
  -- What a call of a tool comes to where the test server answers it.
  abbrev Agrees : String → Type 0
  Agrees name =
      handle_tool_call to_uppercase now name arguments ≡ ok result
      → ((name ≡ "com.echo:uppercase") × (call_tool now name arguments ≡ unknown_tool name))
        ⊎ (call_tool now name arguments ≡ ok result)

  Agrees-echo : Agrees "com.echo:echo"
  unfolding handle_tool_call call_tool
  Agrees-echo answers =
      let (message, found, same) =
        >>=-eq-ok (ok_or (str_of (get arguments "message")) "Missing required argument 'message'")
          (λ message. ok (text_result (format ("Echo: " ∷ message ∷ [])))) answers in
      let reads = ok_or-eq-ok (str_of (get arguments "message")) _ found in
      inr (
        ap (λ o. ok (text_result (format ("Echo: " ∷ unwrap_or o "no message" ∷ [])))) reads
        ∙ ap (λ v. ok v) (ok-injective same))

  Agrees-add : Agrees "com.echo:add"
  unfolding handle_tool_call call_tool
  Agrees-add answers =
      let sum = λ (a b : ℤ). text_result (
        format
          (integer_text a ∷ " + " ∷ integer_text b ∷ " = " ∷ integer_text (add_i64 a b) ∷ [])) in
      let (a, found_a, more) =
        >>=-eq-ok (ok_or (i64_of (get arguments "a")) "Missing required argument 'a'")
          (λ a.
            ok_or (i64_of (get arguments "b")) "Missing required argument 'b'"
            >>= (λ b. ok (sum a b)))
          answers in
      let (b, found_b, same) =
        >>=-eq-ok (ok_or (i64_of (get arguments "b")) "Missing required argument 'b'")
          (λ b. ok (sum a b)) more in
      let is_a =
        i64_or_zero-some (get arguments "a") (ok_or-eq-ok (i64_of (get arguments "a")) _ found_a) in
      let is_b =
        i64_or_zero-some (get arguments "b") (ok_or-eq-ok (i64_of (get arguments "b")) _ found_b) in
      inr (
        ap (λ n. ok (sum n (i64_or_zero (get arguments "b")))) is_a
        ∙ ap (λ n. ok (sum a n)) is_b
        ∙ ap (λ v. ok v) (ok-injective same))

  Agrees-get_time : Agrees "com.echo:get_time"
  unfolding handle_tool_call call_tool
  Agrees-get_time answers = inr (ap (λ v. ok v) (ok-injective answers))

  Agrees-uppercase : Agrees "com.echo:uppercase"
  unfolding handle_tool_call call_tool
  Agrees-uppercase answers = inl (refl, refl)

  Agrees-all : (name : String) → Agrees name
  unfolding handle_tool_call
  Agrees-all name answers = elim (Bool-cases (name == "com.echo:echo")) [
    | inl same ↦ subst Agrees (sym ((eq_iff name _).0 same)) Agrees-echo answers
    | inr not_echo ↦ elim (Bool-cases (name == "com.echo:add")) [
      | inl same ↦ subst Agrees (sym ((eq_iff name _).0 same)) Agrees-add answers
      | inr not_add ↦ elim (Bool-cases (name == "com.echo:get_time")) [
        | inl same ↦ subst Agrees (sym ((eq_iff name _).0 same)) Agrees-get_time answers
        | inr not_time ↦ elim (Bool-cases (name == "com.echo:uppercase")) [
          | inl same ↦ subst Agrees (sym ((eq_iff name _).0 same)) Agrees-uppercase answers
          | inr not_upper ↦ absurd (ground (arith, not_echo, not_add, not_time, not_upper, answers))
        ]
      ]
    ]
  ]

-- The gateway's own echo server answers a call with the result of the test server, where that has
-- one, unless the tool is the one that turns text to upper case, which it does not know.
pub echo_call-handle_tool_call :
    (to_uppercase : String → String) (now name : String) (params arguments result : Value)
    → str_of (get params "name") ≡ some name
    → get params "arguments" ≡ some arguments
    → handle_tool_call to_uppercase now name arguments ≡ ok result
    → ((name ≡ "com.echo:uppercase") × (echo_call now params ≡ unknown_tool name))
      ⊎ (echo_call now params ≡ ok result)
unfolding echo_call
echo_call-handle_tool_call to_uppercase now name params arguments result named given answers =
    let calls : echo_call now params ≡ call_tool now name arguments =
      ap (λ o. call_tool now (unwrap_or o "unknown") (unwrap_or (get params "arguments") null))
        named
      ∙ ap (λ o. call_tool now name (unwrap_or o null)) given in
    elim (Agrees-all to_uppercase now arguments result name answers) [
      | inl (upper, unknown) ↦ inl (upper, calls ∙ unknown)
      | inr same ↦ inr (calls ∙ same)
    ]
