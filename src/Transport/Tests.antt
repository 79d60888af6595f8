-- ===== src/Transport/Tests.antt =====
-- Requests to `/mcp` and `/messages` and lines, and the theorems at them (transport/*.rs).
use mcp_shield.Json
use mcp_shield.Prelude.{
  List, ◌++◌, ℕ, length, ◌≢◌, Bool, ap, ◌∷◌, String, ◌≡◌, ◌⊎◌, refl, false, Option, none, some, [],
  Result, ok, err, ◌==◌, if◌then◌else◌,
}
use mcp_shield.Text.Defs.{is_whitespace, trim_start, trim_end, contains_char, format, contains_text}
use mcp_shield.Dict.{lookup, insert}
use mcp_shield.Json.{Value, pos, object, end, field, get}
use mcp_shield.Error.{upstream_error, error_code, to_string}
use mcp_shield.Message.{is_valid_method}
use mcp_shield.JsonRpc.Message.{JsonRpcMessage}
use mcp_shield.JsonRpc.Parse.{parse, parse_single, to_value}
use mcp_shield.JsonRpc.Serde.{serde}
use mcp_shield.Registry.State.{new, lookup_any}
use mcp_shield.Scope.Enforcer.{allow_all, check_method, check_tool_access}
use mcp_shield.Router.State.{Moment, Router, Gateway}
use mcp_shield.Router.Call.{handle_tools_call}
use mcp_shield.Router.Route.{handle_message, handle_request, handle_initialize, check_policy}
use mcp_shield.Router.Audit.{publish}
use mcp_shield.Transport.Http.{HttpState, Arrival, empty, route, handle_mcp_post, handle_mcp_delete}
use mcp_shield.Transport.Gate.{Routed, handle_mcp_post-Routed}
use mcp_shield.Transport.Sse.{SseState, handle_sse_get, handle_sse_post}
use mcp_shield.Transport.Streams.{on}
use mcp_shield.Transport.Isolation.{Streams, handle_sse_post-isolated}
use mcp_shield.Transport.Stdio.{Terminal, run, write_all_of}
use mcp_shield.Transport.Transcript.{Keeps, read_lines, printed, transcript, run-transcript}
use mcp_shield.Transport.Sessions.{Serves, knows, alive, knows-alive}

machine : Unit {0}
unfolding handle_mcp_post handle_mcp_delete handle_message handle_request handle_tools_call publish
    lookup insert lookup_any check_method check_tool_access is_valid_method contains_char get
    contains_text check_policy handle_initialize allow_all parse parse_single to_value error_code
    to_string format
machine = tt

abbrev router : Router ℕ (Unit {0})
router = record {
  registry = new;
  server_name = "gateway";
  server_version = "1";
  forward_request = λ server message n. (n, err (upstream_error "none"));
  default_server_id = λ n. none;
  validate = λ schema instance_value cache. (cache, ok tt);
  read_initialize = λ v. ok tt;
  authorizer = none;
  ecpa_guardrail = none;
  egress_inspector = none;
  has_audit_producer = false;
  codec = serde;
}

abbrev idle : Gateway ℕ (Unit {0})
idle = record { upstream = 0; schema_validator = tt; sessions = none; metrics = []; audited = [] }

abbrev now : Moment
now = record {
  event_id = "e";
  timestamp = "t";
  called_at = 1;
  logged_at = 2;
  elapsed = 3;
  duration_ms = 4;
}

abbrev arrival : Option String → Arrival
arrival session_id = record {
  moment = now;
  new_session_id = "s1";
  created_at = 5;
  last_activity = 6;
  session_id = session_id;
}

abbrev message : String → Value → Value
message method params = object (
    field "jsonrpc" (Json.string "2.0") (
      field "id" (Json.integer (pos 1))
        (field "method" (Json.string method) (field "params" params end))))

abbrev call : Value
call = message "tools/call" (object (field "name" (Json.string "com.example:notification") end))

-- The body "initialize" is that request, and any other body a call.
abbrev read : String → Result String Value
read text = if text == "initialize" then ok (message "initialize" (object end)) else ok call

abbrev first : HttpState ℕ (Unit {0})
first = record { sessions = []; gateway = idle }

abbrev opened : HttpState ℕ (Unit {0})
opened = (handle_mcp_post router allow_all (arrival none) read (some "initialize") first).0

handed_out :
    (handle_mcp_post router allow_all
      (arrival none)
      read
      (some "initialize")
      first).1.session_header
    ≡ some "s1"
unfolding machine
handed_out = refl

-- A call of a tool that is not registered and has "notification" in its name is not answered.
unanswered :
    (handle_mcp_post router allow_all (arrival (some "s1")) read (some "call") opened).1
    ≡ record { status = 202; session_header = none; body = empty }
unfolding machine
unanswered = refl

handle_mcp_post-Routed_example :
    ((message : JsonRpcMessage) × Routed router
        (arrival (some "s1"))
        read
        (some "call")
        opened
        message
      × (handle_mcp_post router allow_all (arrival (some "s1")) read (some "call") opened
          ≡ route router allow_all (arrival (some "s1")) message opened))
    ⊎ (((message : JsonRpcMessage)
          → ¬ Routed router (arrival (some "s1")) read (some "call") opened message)
        × ((handle_mcp_post router allow_all (arrival (some "s1")) read (some "call") opened).0
            ≡ opened))
handle_mcp_post-Routed_example =
    handle_mcp_post-Routed router allow_all (arrival (some "s1")) read (some "call") opened

abbrev served : Serves router allow_all read (handle_mcp_delete (some "s1") opened).0
served =
    Serves.delete (some "s1") (Serves.post (arrival none) (some "initialize") (Serves.start idle))

knows-alive_example :
    knows (handle_mcp_delete (some "s1") opened).0.sessions "s1"
    ≡ alive router allow_all read "s1" served
knows-alive_example =
    knows-alive router allow_all read (handle_mcp_delete (some "s1") opened).0 "s1" served

abbrev connected : SseState ℕ (Unit {0})
connected =
    (handle_sse_get (some "b") "x"
      (handle_sse_get (some "a") "y"
        (record { clients = []; opened = 0; sent = []; gateway = idle })).0).0

has_channel : lookup "b" connected.clients ≡ some 1
unfolding lookup insert handle_sse_get
has_channel = refl

is_b : Option String → Bool
is_b none = false
is_b (some id) = id == "b"

a_is_not_b : ◌≢◌ {A = Option String} (some "a") (some "b")
unfolding is_b
a_is_not_b same = let absurd = ap is_b same in cc absurd

handle_sse_post-isolated_example :
    on 1
      (handle_sse_post router allow_all now
        (λ n. false)
        read
        (some "a")
        (some "initialize")
        connected).0.sent
    ≡ on 1 connected.sent
handle_sse_post-isolated_example =
    handle_sse_post-isolated router allow_all read now (λ n. false) (some "a") (some "initialize")
      connected "b" 1 (Streams.get (some "b") "x" (Streams.get (some "a") "y" (Streams.start idle)))
      a_is_not_b has_channel

-- The client that asked gets the answer.
answered :
    length (
      on 0
        (handle_sse_post router allow_all now
          (λ n. false)
          read
          (some "a")
          (some "initialize")
          connected).0.sent)
    ≡ 1
unfolding machine handle_sse_get handle_sse_post
answered = refl

abbrev terminal : Terminal String
terminal = record {
  write_all = λ text written. (format (written ∷ text ∷ []), ok tt);
  flush = λ written. (written, ok tt);
  read = read;
  print = λ v. "{}";
}

-- Two lines, of which the first is empty: one answer.
spoken :
    (run router terminal allow_all ((now, ok "  ") ∷ (now, ok "initialize") ∷ []) idle "").0.1
    ≡ "{}\n"
unfolding machine run write_all_of is_whitespace trim_start trim_end
spoken = refl

abbrev keeping : Terminal (List String)
keeping = record {
  write_all = λ text written. (written ++ text ∷ [], ok tt);
  flush = λ written. (written, ok tt);
  read = read;
  print = λ v. "{}";
}

keeping-Keeps : Keeps keeping
keeping-Keeps = record { write = λ text w. refl; flush = λ w. refl }

abbrev two_lines : List (Moment × String)
two_lines = (now, "initialize") ∷ (now, "call") ∷ []

run-transcript_example : run router keeping allow_all (read_lines two_lines) idle [] ≡ (
  (
    (transcript router keeping allow_all two_lines idle).0,
    [] ++ printed router keeping (transcript router keeping allow_all two_lines idle).1,
  ),
  ok tt,
)
run-transcript_example = run-transcript router keeping allow_all two_lines idle [] keeping-Keeps
