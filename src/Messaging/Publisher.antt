-- ===== src/Messaging/Publisher.antt =====
-- The publisher: src/infrastructure/messaging/sqs/sqs-message-publisher.ts. `JSON.stringify` of an
-- envelope and the client of SQS are parameters.
use jungle_challenge.Common.{
  Bool, false, String, Option, none, some, ◌==◌, string_eq, if◌then◌else◌,
}
use jungle_challenge.Messaging.Event.{IntegrationEventEnvelope}

-- `SendMessageCommand`
pub record SendMessage : Type 0 where
  pub queue_url : String
  pub message_body : String
  pub message_group_id : String
  pub message_deduplication_id : String
  pub event_type : String

module _ (stringify : IntegrationEventEnvelope → String) (returns : SendMessage → Bool) where
  abbrev pub message_of : String → IntegrationEventEnvelope → SendMessage
  message_of url envelope = record {
    queue_url = url;
    message_body = stringify envelope;
    message_group_id = envelope.aggregate_id;
    message_deduplication_id = envelope.event_id;
    event_type = envelope.event_type;
  }

  -- Whether it returns; without the URL of a queue it throws, as it does where the client throws.
  unfoldable pub publish : Option String → IntegrationEventEnvelope → Bool
  publish none envelope = false
  publish (some url) envelope = if url == "" then false else returns (message_of url envelope)
