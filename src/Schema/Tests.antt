-- ===== src/Schema/Tests.antt =====
-- A validator of two schemas, and the theorem at it.
use mcp_shield.Prelude.{◌<◌, String, ◌≡◌, refl, List, [], ◌∷◌, Result, ok, err, arith}
use mcp_shield.Text.Defs.{format, byte_len, slice_to}
use mcp_shield.Dict.{lookup, insert}
use mcp_shield.Json.{Value, object, end, get, null}
use mcp_shield.Schema.Validator.{
  Engine, check_dialect, validate, precompile, verdict_of, validate_once, cache_size, key_of,
}
use mcp_shield.Schema.Cache.{Call, validated, precompiled, run_calls, validate-run_calls}

machine : Unit {0}
unfolding validate precompile validate_once check_dialect cache_size run_calls lookup insert
    byte_len slice_to get format key_of
machine = tt

-- Only the empty schema compiles, and it accepts objects.
abbrev check : Value → Value → Result (List (String × String)) (Unit {0})
check schema (object fs) = ok tt
check schema _ = err (("/", "not an object") ∷ [])

abbrev compile : Value → Result String Value
compile (object end) = ok (object end)
compile _ = err "not a schema"

abbrev serialize : Value → String
serialize (object end) = "{}"
serialize _ = "null"

abbrev engine : Engine Value
engine = record { compile = compile; check = check; serialize = serialize }

abbrev any_object : Value
any_object = object end

printed_apart : (t : Value) → serialize t ≡ "{}" → t ≡ any_object
printed_apart (object end) h = refl
printed_apart _ h = cc

abbrev calls : List Call
calls = validated any_object null ∷ precompiled null ∷ []

cached_once : cache_size (run_calls engine calls []) ≡ 1
unfolding machine
cached_once = refl

short : byte_len "{}" < 1024
unfolding machine
short = omega arith

validate-run_calls_example :
    verdict_of engine (validate engine any_object null (run_calls engine calls []))
    ≡ validate_once engine any_object null
validate-run_calls_example = validate-run_calls engine calls any_object null printed_apart short
