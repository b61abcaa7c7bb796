-- ===== src/Messaging/Examples.antt =====
-- Runs of the messages, and their theorems at concrete messages.
use jungle_challenge.Common.{ℕ, ◌+◌, ◌≤◌, ◌≡◌, refl, ◌↔◌, true, false, none, some}
use jungle_challenge.Messaging.Event.{IntegrationEvent, reference_pending}
use jungle_challenge.Messaging.Outbox.{OutboxMessage, enqueue, is_pending, is_due, schedule_retry}
use jungle_challenge.Messaging.Outbox.Delivery.{
  IsBackoff, born, lived, retrying, Life-is_due, schedule_retry-is_due,
}
use jungle_challenge.Wagering.Vocabulary.{WagerTransactionKind}

abbrev event : IntegrationEvent
event = record {
  event_id = "e1";
  aggregate_id = "t1";
  correlation_id = "c1";
  causation_id = none;
  occurred_at = 5;
  payload = reference_pending (record {
    transaction_id = "t1";
    provider_id = "acme";
    external_transaction_id = "x1";
    wallet_id = "w1";
    kind = WagerTransactionKind.refund;
    reference_external_transaction_id = some "x0";
    attempts = 0;
  });
}

abbrev message : OutboxMessage
message = unfold enqueue in enqueue event

message_due : is_due message 5 ≡ true
unfolding is_due enqueue
message_due = refl

abbrev published : OutboxMessage
published = record message { published_at = some 7 }

Life-is_due_example :
    (is_due (schedule_retry published 8 500) 9 ≡ false)
    × ((schedule_retry published 8 500).published_at ≡ some 7)
    × ((schedule_retry published 8 500).id ≡ published.id)
    × ((schedule_retry published 8 500).payload ≡ published.payload)
Life-is_due_example = Life-is_due 7 9 refl (lived born (retrying 8 500 refl))

schedule_retry-is_due_example :
    (delay : ℕ) × IsBackoff 500 message.attempts delay
    × ((schedule_retry message 8 500).attempts ≡ message.attempts + 1)
    × ((is_due (schedule_retry message 8 500) 600 ≡ true) ↔ (8 + delay ≤ 600))
unfolding is_pending enqueue
schedule_retry-is_due_example = schedule_retry-is_due message 8 500 600 refl
