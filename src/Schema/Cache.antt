-- ===== src/Schema/Cache.antt =====
-- What the cache of protocol/schema.rs holds, and when it changes no verdict.
use mathlib.Core.Path.{subst}
use mcp_shield.Prelude.{
  ◌<◌, String, ◌≡◌, refl, inl, inr, Option, none, some, List, Result, ok, err, is_some, unwrap_or,
  if◌then◌else◌, [], ◌∷◌, Bool-cases, Option-cases, Result-cases, eq_iff, ◌==◌, ap, sym, ◌∙◌,
}
use mcp_shield.Text.Defs.{byte_len}
use mcp_shield.Dict.{Dict, lookup, insert, lookup-insert}
use mcp_shield.Json.{Value}
use mcp_shield.Error.{McpError}
use mcp_shield.Schema.Key.{key_of-short}
use mcp_shield.Schema.Validator.{
  Engine, schema_key, compile_schema, check_dialect, validator_of, validate, precompile, verdict_of,
  validate_once, finish, clear_cache,
}

-- The calls that reach the cache.
pub data Call : Type 0 where
  validated : (schema instance_value : Value) → Call
  precompiled : (schema : Value) → Call
  cleared : Call

module _ {V : Type 0} (e : Engine V) where
  -- Every validator of the cache was compiled from a schema with its key.
  abbrev pub IsCompiled : Dict V → Type 0
  IsCompiled cache =
      (key : String) (validator : V)
      → lookup key cache ≡ some validator
      → (schema : Value) × (schema_key e schema ≡ some key)
        × (compile_schema e schema ≡ ok validator)

  insert-IsCompiled :
      (schema : Value) (key : String) (validator : V) (cache : Dict V)
      → schema_key e schema ≡ some key
      → compile_schema e schema ≡ ok validator
      → IsCompiled cache
      → IsCompiled (insert key validator cache)
  insert-IsCompiled schema key validator cache keyed compiles h k v found =
      elim (Bool-cases (key == k)) [
        | inl same ↦ (
          schema,
          keyed ∙ ap some ((eq_iff key k).0 same),
          compiles
              ∙ ap ok (
                  ap (λ o. unwrap_or o validator)
                    (sym (
                        lookup-insert key k validator cache
                        ∙ ap (λ b. if b then some validator else lookup k cache) same)
                      ∙ found)),
        )
        | inr other ↦ h k v (
            sym (
              lookup-insert key k validator cache
              ∙ ap (λ b. if b then some validator else lookup k cache) other)
            ∙ found)
      ]

  validator_of-IsCompiled :
      (schema : Value) (key : String) (cache : Dict V)
      → schema_key e schema ≡ some key
      → IsCompiled cache
      → IsCompiled (validator_of e schema key cache).0
  unfolding validator_of
  validator_of-IsCompiled schema key cache keyed h = elim (Option-cases (lookup key cache)) [
    | inr (v, hit) ↦ subst IsCompiled (sym (reuses v hit)) h
    | inl miss ↦ elim (Result-cases (compile_schema e schema)) [
      | inl (v, compiles) ↦
          subst IsCompiled (sym (adds v miss compiles))
            (insert-IsCompiled schema key v cache keyed compiles h)
      | inr (failure, fails) ↦ subst IsCompiled (sym (keeps failure miss fails)) h
    ]
  ]
    where
      reuses : (v : V) → lookup key cache ≡ some v → (validator_of e schema key cache).0 ≡ cache
      reuses v hit = rw (hit, validator_of) refl

      adds :
          (v : V)
          → lookup key cache ≡ none
          → compile_schema e schema ≡ ok v
          → (validator_of e schema key cache).0 ≡ insert key v cache
      adds v miss compiles = rw (miss, validator_of) (rw compiles refl)

      keeps :
          (failure : McpError)
          → lookup key cache ≡ none
          → compile_schema e schema ≡ err failure
          → (validator_of e schema key cache).0 ≡ cache
      keeps failure miss fails = rw (miss, validator_of) (rw fails refl)

  -- The verdict on an instance depends on the validator alone.
  finish-split :
      (instance_value : Value) (run : Dict V × Result McpError V)
      → finish e instance_value run ≡ (run.0, (finish e instance_value ([], run.1)).1)
  finish-split instance_value (cache, ok v) = refl
  finish-split instance_value (cache, err failure) = refl

  -- In a cache that holds what was compiled, a short schema gets its own validator.
  validator_of-short :
      (schema : Value) (key : String) (cache : Dict V)
      → ((t : Value) → e.serialize t ≡ e.serialize schema → t ≡ schema)
      → byte_len (e.serialize schema) < 1024
      → schema_key e schema ≡ some key
      → IsCompiled cache
      → (validator_of e schema key cache).1 ≡ compile_schema e schema
  unfolding schema_key validator_of
  validator_of-short schema key cache injective short keyed h =
      elim (Option-cases (lookup key cache)) [
        | inr (v, hit) ↦
            let (other, same_key, compiles) = h key v hit in
            let same = injective other (
              key_of-short (e.serialize schema) (e.serialize other) short (same_key ∙ sym keyed)) in
            reuses v hit ∙ (sym compiles ∙ ap (compile_schema e) same)
        | inl miss ↦ elim (Result-cases (compile_schema e schema)) [
          | inl (v, compiles) ↦ rw (miss, validator_of) (rw compiles refl)
          | inr (failure, fails) ↦ rw (miss, validator_of) (rw fails refl)
        ]
      ]
    where
      reuses : (v : V) → lookup key cache ≡ some v → (validator_of e schema key cache).1 ≡ ok v
      reuses v hit = rw (hit, validator_of) refl

  -- The cache after a call; a panic leaves it as it was.
  abbrev pub cache_after : Dict V → Option (Dict V × Result McpError (Unit {0})) → Dict V
  cache_after cache none = cache
  cache_after cache (some (cache', verdict)) = cache'

  validate-IsCompiled :
      (schema instance_value : Value) (cache : Dict V)
      → IsCompiled cache
      → IsCompiled (cache_after cache (validate e schema instance_value cache))
  unfolding validate
  validate-IsCompiled schema instance_value cache h = elim (Result-cases (check_dialect schema)) [
    | inr (failure, unsupported) ↦ subst IsCompiled (sym (stops failure unsupported)) h
    | inl (tt, supported) ↦ elim (Option-cases (schema_key e schema)) [
      | inl panics ↦ subst IsCompiled (sym (rw (supported, validate) (rw panics refl))) h
      | inr (key, keyed) ↦
          subst IsCompiled (sym (goes_on key supported keyed))
            (validator_of-IsCompiled schema key cache keyed h)
    ]
  ]
    where
      after : Dict V
      after = cache_after cache (validate e schema instance_value cache)

      stops : (failure : McpError) → check_dialect schema ≡ err failure → after ≡ cache
      stops failure unsupported = rw (unsupported, validate) refl

      goes_on :
          (key : String)
          → check_dialect schema ≡ ok tt
          → schema_key e schema ≡ some key
          → after ≡ (validator_of e schema key cache).0
      goes_on key supported keyed =
          rw (supported, validate)
            (rw keyed
              (ap (λ run. run.0) (finish-split instance_value (validator_of e schema key cache))))

  precompile-IsCompiled :
      (schema : Value) (cache : Dict V)
      → IsCompiled cache
      → IsCompiled (cache_after cache (precompile e schema cache))
  unfolding precompile
  precompile-IsCompiled schema cache h = elim (Option-cases (schema_key e schema)) [
    | inl panics ↦ subst IsCompiled (sym (rw (panics, precompile) refl)) h
    | inr (key, keyed) ↦ elim (Bool-cases (is_some (lookup key cache))) [
      | inl hit ↦ subst IsCompiled (sym (rw (keyed, precompile) (rw hit refl))) h
      | inr miss ↦ elim (Result-cases (compile_schema e schema)) [
        | inl (v, compiles) ↦
            subst IsCompiled (sym (rw (keyed, precompile) (rw miss (rw compiles refl))))
              (insert-IsCompiled schema key v cache keyed compiles h)
        | inr (failure, fails) ↦
            subst IsCompiled (sym (rw (keyed, precompile) (rw miss (rw fails refl)))) h
      ]
    ]
  ]

  -- A call of the cache, and the calls of a list in their order.
  unfoldable pub run_call : Call → Dict V → Dict V
  run_call (validated schema instance_value) cache =
      cache_after cache (validate e schema instance_value cache)
  run_call (precompiled schema) cache = cache_after cache (precompile e schema cache)
  run_call cleared cache = clear_cache cache

  unfoldable pub run_calls : List Call → Dict V → Dict V
  unfolding run_call
  run_calls [] cache = cache
  run_calls (call ∷ calls) cache = run_calls calls (run_call call cache)

  run_call-IsCompiled :
      (call : Call) (cache : Dict V) → IsCompiled cache → IsCompiled (run_call call cache)
  unfolding run_call clear_cache lookup
  run_call-IsCompiled (validated schema instance_value) cache h =
      validate-IsCompiled schema instance_value cache h
  run_call-IsCompiled (precompiled schema) cache h = precompile-IsCompiled schema cache h
  run_call-IsCompiled cleared cache h = λ key v found. cc

  run_calls-IsCompiled :
      (calls : List Call) (cache : Dict V) → IsCompiled cache → IsCompiled (run_calls calls cache)
  unfolding run_calls
  run_calls-IsCompiled [] cache h = h
  run_calls-IsCompiled (call ∷ calls) cache h =
      run_calls-IsCompiled calls (run_call call cache) (run_call-IsCompiled call cache h)

  -- Two caches with the same validator for the key of the schema give the same verdict.
  verdict-eq :
      (schema instance_value : Value) (cache cache' : Dict V)
      → ((key : String)
          → schema_key e schema ≡ some key
          → (validator_of e schema key cache).1 ≡ (validator_of e schema key cache').1)
      → verdict_of e (validate e schema instance_value cache)
        ≡ verdict_of e (validate e schema instance_value cache')
  unfolding validate
  verdict-eq schema instance_value cache cache' same = elim (Result-cases (check_dialect schema)) [
    | inr (failure, unsupported) ↦
        ap (verdict_of e) (stops cache failure unsupported)
        ∙ sym (ap (verdict_of e) (stops cache' failure unsupported))
    | inl (tt, supported) ↦ elim (Option-cases (schema_key e schema)) [
      | inl absent ↦
          ap (verdict_of e) (panics cache supported absent)
          ∙ sym (ap (verdict_of e) (panics cache' supported absent))
      | inr (key, keyed) ↦
          goes_on cache key supported keyed
          ∙ (ap (λ v. some (finish e instance_value ([], v)).1) (same key keyed)
              ∙ sym (goes_on cache' key supported keyed))
    ]
  ]
    where
      stops :
          (c : Dict V) (failure : McpError)
          → check_dialect schema ≡ err failure
          → validate e schema instance_value c ≡ some (c, err failure)
      stops c failure unsupported = rw (unsupported, validate) refl

      panics :
          (c : Dict V)
          → check_dialect schema ≡ ok tt
          → schema_key e schema ≡ none
          → validate e schema instance_value c ≡ none
      panics c supported absent = rw (supported, validate) (rw absent refl)

      goes_on :
          (c : Dict V) (key : String)
          → check_dialect schema ≡ ok tt
          → schema_key e schema ≡ some key
          → verdict_of e (validate e schema instance_value c)
            ≡ some (finish e instance_value ([], (validator_of e schema key c).1)).1
      goes_on c key supported keyed =
          let runs : validate e schema instance_value c
              ≡ some (finish e instance_value (validator_of e schema key c)) =
            rw (supported, validate) (rw keyed refl) in
          ap (verdict_of e)
            (runs ∙ ap some (finish-split instance_value (validator_of e schema key c)))

  empty-IsCompiled : IsCompiled []
  unfolding lookup
  empty-IsCompiled key v found = cc

  -- After any calls of the cache, a schema of less than 1024 bytes gets the verdict that it gets
  -- without a cache, if no other schema is printed as it is.
  pub validate-run_calls :
      (calls : List Call) (schema instance_value : Value)
      → ((t : Value) → e.serialize t ≡ e.serialize schema → t ≡ schema)
      → byte_len (e.serialize schema) < 1024
      → verdict_of e (validate e schema instance_value (run_calls calls []))
        ≡ validate_once e schema instance_value
  unfolding validate_once
  validate-run_calls calls schema instance_value injective short =
      let compiled = run_calls-IsCompiled calls [] empty-IsCompiled in
      verdict-eq schema instance_value (run_calls calls []) [] (λ key keyed.
        validator_of-short schema key (run_calls calls []) injective short keyed compiled
        ∙ sym (validator_of-short schema key [] injective short keyed empty-IsCompiled))
