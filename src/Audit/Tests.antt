-- ===== src/Audit/Tests.antt =====
-- Events that are published to producers, and the theorem at them.
use mcp_shield.Prelude.{ℕ, suc, String, none, [], ◌∷◌, ◌++◌, ok, err, ◌≡◌, refl}
use mcp_shield.Text.Defs.{format}
use mcp_shield.Router.State.{AuditEvent, AuthDecision}
use mcp_shield.Audit.Producer.{
  EventProducer, topic, buffering, fanout, nil, cons, kafka, Broker, Sinks, publish_audit_event,
  publish_to, sent, drain,
}
use mcp_shield.Audit.Fanout.{publish_all, all_copies, drain-publish_all}

-- A broker that is not reached, and counts.
abbrev broker : Broker ℕ
broker = record {
  serialize = λ event. ok event.event_id;
  send = λ name key payload n. (suc n, err "timed out");
  flush = λ n. n;
}

abbrev event : String → AuditEvent
event id = record {
  event_id = id;
  timestamp = "t";
  method = "tools/call";
  request_id = none;
  session_id = none;
  principal = none;
  scopes = [];
  decision = AuthDecision.allow;
  request_payload = none;
  response_payload = none;
  error_code = none;
  duration_ms = 4;
  transport = "http";
}

abbrev both : EventProducer
both = fanout (cons (topic "audit") (cons (buffering 7) nil))

abbrev unused : Sinks ℕ
unused = record { buffers = λ n. []; logged = []; remote = 0 }

-- The failure of the broker is the result of the whole.
reported :
    (publish_audit_event broker both (event "a") unused).1
    ≡ err (kafka "Kafka send failed: timed out")
unfolding publish_audit_event format publish_to sent
reported = refl

drain-publish_all_example :
    ((drain 7 (publish_all broker both (event "a" ∷ event "b" ∷ []) unused)).1
      ≡ [] ++ all_copies 7 both (event "a" ∷ event "b" ∷ []))
    × ((drain 7 (publish_all broker both (event "a" ∷ event "b" ∷ []) unused)).0.buffers 7 ≡ [])
drain-publish_all_example = drain-publish_all broker 7 both (event "a" ∷ event "b" ∷ []) unused
