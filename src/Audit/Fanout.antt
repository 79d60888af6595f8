-- ===== src/Audit/Fanout.antt =====
-- What a buffer of telemetry/producer.rs gets of the events that are published.
use mcp_shield.Prelude.{
  ℕ, String, true, ◌≡◌, refl, ap, ◌∙◌, sym, Option, none, List, [], ◌∷◌, ◌++◌, Result, ok, err, eqb,
  arith, Bool-cases, Result-cases, inl, inr, if◌then◌else◌,
}
use mathlib.Core.List.{append_assoc, append-nil}
use mcp_shield.Router.State.{AuditEvent}
use mcp_shield.Audit.Producer.{
  EventProducer, EventProducers, noop, logging, buffering, topic, fanout, nil, cons, Broker, Sinks,
  ProducerError, publish_audit_event, publish_each, publish_to, log_event, sent, last_of, drain,
}

eqb_eq : (a b : ℕ) → eqb a b ≡ true → a ≡ b
eqb_eq a b h = ground (arith, h)

-- One copy of the event for every place at which the producer reaches the buffer.
unfoldable mutual
  pub copies : ℕ → AuditEvent → EventProducer → List AuditEvent
  copies id event noop = []
  copies id event logging = []
  copies id event (buffering other) = if eqb other id then event ∷ [] else []
  copies id event (topic name) = []
  copies id event (fanout producers) = copies_each id event producers

  pub copies_each : ℕ → AuditEvent → EventProducers → List AuditEvent
  copies_each id event nil = []
  copies_each id event (cons producer rest) = copies id event producer ++ copies_each id event rest

abbrev pub all_copies : ℕ → EventProducer → List AuditEvent → List AuditEvent
all_copies id producer [] = []
all_copies id producer (event ∷ events) = copies id event producer ++ all_copies id producer events

module _ {K : Type 0} (k : Broker K) where
  sent-buffers :
      (reply : K × Result String (Unit {0})) (w : Sinks K) → (sent k reply w).0.buffers ≡ w.buffers
  unfolding sent
  sent-buffers (remote, ok _) w = refl
  sent-buffers (remote, err e) w = refl

  publish_to-buffers :
      (name : String) (event : AuditEvent) (w : Sinks K)
      → (publish_to k name event w).0.buffers ≡ w.buffers
  unfolding publish_to
  publish_to-buffers name event w = elim (Result-cases (k.serialize event)) [
    | inl (payload, written) ↦ rw (written, publish_to) (sent-buffers _ w)
    | inr (e, bad) ↦ rw (bad, publish_to) refl
  ]

  log_event-buffers :
      (event : AuditEvent) (w : Sinks K) → (log_event k event w).0.buffers ≡ w.buffers
  unfolding log_event
  log_event-buffers event w = elim (Result-cases (k.serialize event)) [
    | inl (text, written) ↦ rw (written, log_event) refl
    | inr (e, bad) ↦ rw (bad, log_event) refl
  ]

  module _ (id : ℕ) (event : AuditEvent) where
    unchanged : {before after : ℕ → List AuditEvent} → after ≡ before → after id ≡ before id ++ []
    unchanged {before} same = ap (λ b. b id) same ∙ sym (append-nil (before id))

    mutual
      unfolding publish_audit_event copies

      publish_audit_event-buffers :
          (producer : EventProducer) (w : Sinks K)
          → (publish_audit_event k producer event w).0.buffers id
            ≡ w.buffers id ++ copies id event producer
      publish_audit_event-buffers noop w = unchanged {before = w.buffers} refl
      publish_audit_event-buffers logging w = unchanged (log_event-buffers event w)
      publish_audit_event-buffers (buffering other) w = elim (Bool-cases (eqb other id)) [
        | inl same ↦ rw same (ap (λ n. w.buffers n ++ event ∷ []) (eqb_eq other id same))
        | inr different ↦ rw different (unchanged {before = w.buffers} refl)
      ]
      publish_audit_event-buffers (topic name) w = unchanged (publish_to-buffers name event w)
      publish_audit_event-buffers (fanout producers) w = publish_each-buffers producers none w

      publish_each-buffers :
          (producers : EventProducers) (last : Option ProducerError) (w : Sinks K)
          → (publish_each k producers event last w).0.buffers id
            ≡ w.buffers id ++ copies_each id event producers
      publish_each-buffers nil last w = unchanged {before = w.buffers} refl
      publish_each-buffers (cons producer rest) last w =
          let after = publish_audit_event k producer event w in
          publish_each-buffers rest (last_of last after.1) after.0
          ∙ ap (λ b. b ++ copies_each id event rest) (publish_audit_event-buffers producer w)
          ∙ append_assoc (w.buffers id) (copies id event producer) (copies_each id event rest)

  -- One event after another, whatever the results are.
  abbrev pub publish_all : EventProducer → List AuditEvent → Sinks K → Sinks K
  publish_all producer [] w = w
  publish_all producer (event ∷ events) w =
      publish_all producer events (publish_audit_event k producer event w).0

  -- After any events are published to a producer, draining a buffer gives what it held, then for
  -- each event, in order, one copy for every place at which the producer reaches the buffer, whether
  -- or not other producers fail; the buffer is empty afterwards.
  pub drain-publish_all :
      (id : ℕ) (producer : EventProducer) (events : List AuditEvent) (w : Sinks K)
      → ((drain id (publish_all producer events w)).1
          ≡ w.buffers id ++ all_copies id producer events)
        × ((drain id (publish_all producer events w)).0.buffers id ≡ [])
  unfolding drain
  drain-publish_all id producer events w = (kept events w, emptied)
    where
      emptied : (if eqb id id then [] else (publish_all producer events w).buffers id) ≡ []
      emptied = ground arith

      kept :
          (events : List AuditEvent) (w : Sinks K)
          → (publish_all producer events w).buffers id
            ≡ w.buffers id ++ all_copies id producer events
      kept [] w = sym (append-nil (w.buffers id))
      kept (event ∷ events) w =
          kept events (publish_audit_event k producer event w).0
          ∙ ap (λ b. b ++ all_copies id producer events)
              (publish_audit_event-buffers id event producer w)
          ∙ append_assoc (w.buffers id) (copies id event producer) (all_copies id producer events)
