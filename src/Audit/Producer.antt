-- ===== src/Audit/Producer.antt =====
-- The producers of telemetry/producer.rs.
use mcp_shield.Prelude.{
  ℕ, String, Option, none, some, List, [], ◌∷◌, ◌++◌, Result, ok, err, unwrap_or, eqb,
  if◌then◌else◌,
}
use mcp_shield.Text.Defs.{format}
use mcp_shield.Router.State.{AuditEvent}

pub data ProducerError : Type 0 where
  kafka serialization : String → ProducerError
  channel_full not_connected : ProducerError

-- A buffering producer is the number of its buffer, since it is shared.
mutual
  pub data EventProducer : Type 0 where
    noop logging : EventProducer
    buffering : ℕ → EventProducer
    topic : String → EventProducer
    fanout : EventProducers → EventProducer

  pub data EventProducers : Type 0 where
    nil : EventProducers
    cons : EventProducer → EventProducers → EventProducers

-- The writer of JSON, and the broker with what it keeps.
pub record Broker (K : Type 0) : Type 0 where
  pub serialize : AuditEvent → Result String String
  pub send : (topic key payload : String) → K → K × Result String (Unit {0})
  pub flush : K → K

pub record Sinks (K : Type 0) : Type 0 where
  pub buffers : ℕ → List AuditEvent
  pub logged : List String
  pub remote : K

abbrev pub put : ℕ → List AuditEvent → (ℕ → List AuditEvent) → ℕ → List AuditEvent
put id events buffers other = if eqb id other then events else buffers other

-- `last_err`, after the result of one more producer.
abbrev pub last_of : Option ProducerError → Result ProducerError (Unit {0}) → Option ProducerError
last_of last (ok _) = last
last_of last (err e) = some e

-- `last_err.map_or(Ok(()), Err)`
abbrev pub outcome : Option ProducerError → Result ProducerError (Unit {0})
outcome none = ok tt
outcome (some e) = err e

module _ {K : Type 0} (k : Broker K) where
  unfoldable pub sent :
      K × Result String (Unit {0}) → Sinks K → Sinks K × Result ProducerError (Unit {0})
  unfolding format
  sent (remote, ok _) w = (record w { remote = remote }, ok tt)
  sent (remote, err e) w =
      (record w { remote = remote }, err (kafka (format ("Kafka send failed: " ∷ e ∷ []))))

  unfoldable pub publish_to :
      String → AuditEvent → Sinks K → Sinks K × Result ProducerError (Unit {0})
  unfolding sent
  publish_to name event w = elim (k.serialize event) [
    | err e ↦ (w, err (serialization e))
    | ok payload ↦ sent (k.send name (unwrap_or event.session_id event.event_id) payload w.remote) w
  ]

  unfoldable pub log_event : AuditEvent → Sinks K → Sinks K × Result ProducerError (Unit {0})
  log_event event w = elim (k.serialize event) [
    | err e ↦ (w, err (serialization e))
    | ok text ↦ (record w { logged = w.logged ++ text ∷ [] }, ok tt)
  ]

  unfoldable mutual
    unfolding publish_to log_event

    pub publish_audit_event :
        EventProducer → AuditEvent → Sinks K → Sinks K × Result ProducerError (Unit {0})
    publish_audit_event noop event w = (w, ok tt)
    publish_audit_event logging event w = log_event event w
    publish_audit_event (buffering id) event w =
        (record w { buffers = put id (w.buffers id ++ event ∷ []) w.buffers }, ok tt)
    publish_audit_event (topic name) event w = publish_to name event w
    publish_audit_event (fanout producers) event w =
        let (w, last) = publish_each producers event none w in (w, outcome last)

    pub publish_each :
        EventProducers
        → AuditEvent
        → Option ProducerError
        → Sinks K
        → Sinks K × Option ProducerError
    publish_each nil event last w = (w, last)
    publish_each (cons producer rest) event last w =
        let (w, result) = publish_audit_event producer event w in
        publish_each rest event (last_of last result) w

  -- A flush of a producer cannot fail.
  unfoldable mutual
    pub flush : EventProducer → Sinks K → Sinks K
    flush noop w = w
    flush logging w = w
    flush (buffering id) w = w
    flush (topic name) w = record w { remote = k.flush w.remote }
    flush (fanout producers) w = flush_each producers w

    pub flush_each : EventProducers → Sinks K → Sinks K
    flush_each nil w = w
    flush_each (cons producer rest) w = flush_each rest (flush producer w)

-- `FanoutProducer::add_producer`
unfoldable pub add_producer : EventProducer → EventProducers → EventProducers
add_producer producer nil = cons producer nil
add_producer producer (cons first rest) = cons first (add_producer producer rest)

-- `BufferingProducer::drain`
unfoldable pub drain : {K : Type 0} → ℕ → Sinks K → Sinks K × List AuditEvent
drain id w = (record w { buffers = put id [] w.buffers }, w.buffers id)
