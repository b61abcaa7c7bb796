-- ===== src/Messaging/Outbox.antt =====
-- A pending event: src/domain/messaging/outbox-message.ts. The plain state has the same fields, so
-- `rehydrate` and `toState` copy them.
pub mod Delivery
use jungle_challenge.Common.{ℕ, ◌+◌, ◌*◌, Bool, true, false, ◌&&◌, String, Option, none, some, leb}
use jungle_challenge.Messaging.Event.{IntegrationEvent, IntegrationEventEnvelope, envelope_of}
use jungle_challenge.Wagering.Transaction.{backoff_delay}

abbrev pub max_backoff_ms : ℕ
max_backoff_ms = 60 * 60 * 1000

pub record OutboxMessage : Type 0 where
  pub id : String
  pub aggregate_id : String
  pub event_type : String
  pub payload : IntegrationEventEnvelope
  pub occurred_at : ℕ
  pub attempts : ℕ
  pub next_attempt_at : Option ℕ
  pub published_at : Option ℕ

unfoldable pub enqueue : IntegrationEvent → OutboxMessage
unfolding envelope_of
enqueue event =
    let envelope = envelope_of event in
    record {
      id = envelope.event_id;
      aggregate_id = envelope.aggregate_id;
      event_type = envelope.event_type;
      payload = envelope;
      occurred_at = event.occurred_at;
      attempts = 0;
      next_attempt_at = none;
      published_at = none;
    }

abbrev absent : Option ℕ → Bool
absent none = true
absent (some _) = false

-- `undefined`, or at the latest `now`
abbrev no_later : Option ℕ → ℕ → Bool
no_later none now = true
no_later (some t) now = leb t now

-- `??=`
abbrev set_once : Option ℕ → ℕ → Option ℕ
set_once none t = some t
set_once (some s) _ = some s

unfoldable pub is_pending : OutboxMessage → Bool
is_pending m = absent m.published_at

unfoldable pub is_due : OutboxMessage → ℕ → Bool
unfolding is_pending
is_due m now = is_pending m && no_later m.next_attempt_at now

unfoldable pub mark_published : OutboxMessage → ℕ → OutboxMessage
mark_published m at = record m { next_attempt_at = none; published_at = set_once m.published_at at }

unfoldable pub schedule_retry : OutboxMessage → ℕ → ℕ → OutboxMessage
schedule_retry m now base =
    let attempts = m.attempts + 1 in
    record m {
      attempts = attempts;
      next_attempt_at = some (now + backoff_delay base attempts max_backoff_ms);
    }
