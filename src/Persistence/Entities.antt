-- ===== src/Persistence/Entities.antt =====
-- The rows as the ORM hydrates them: src/infrastructure/persistence/mikro-orm/entities.ts. A numeric
-- column holds its text, a time its number of milliseconds, `null` is `none`, and the text of a kind, a
-- status, a failure code or a direction is the member that it names.
use jungle_challenge.Common.{ℕ, String, Option}
use jungle_challenge.Messaging.Event.{IntegrationEventEnvelope}
use jungle_challenge.Wagering.Vocabulary.{
  WagerTransactionKind, WagerTransactionStatus, FailureCode, LedgerDirection,
}

pub record WalletEntity : Type 0 where
  pub id : String
  pub player_id : String
  pub currency : String
  pub balance : String
  pub version : ℕ
  pub created_at : ℕ
  pub updated_at : ℕ

pub record WagerTransactionEntity : Type 0 where
  pub id : String
  pub provider_id : String
  pub external_transaction_id : String
  pub idempotency_key : String
  pub payload_hash : String
  pub wallet_id : String
  pub player_id : String
  pub round_id : Option String
  pub game_id : Option String
  pub kind : WagerTransactionKind
  pub amount : String
  pub currency : String
  pub reference_external_transaction_id : Option String
  pub reference_transaction_id : Option String
  pub status : WagerTransactionStatus
  pub failure_code : Option FailureCode
  pub reference_attempts : ℕ
  pub next_attempt_at : Option ℕ
  pub pending_reference_since : Option ℕ
  pub observed_balance : Option String
  pub created_at : ℕ
  pub processed_at : Option ℕ

pub record WalletLedgerEntryEntity : Type 0 where
  pub id : String
  pub wallet_id : String
  pub transaction_id : String
  pub direction : LedgerDirection
  pub amount : String
  pub currency : String
  pub balance_before : String
  pub balance_after : String
  pub created_at : ℕ

pub record InboxMessageEntity : Type 0 where
  pub consumer_name : String
  pub message_id : String
  pub payload_hash : String
  pub received_at : ℕ
  pub processed_at : Option ℕ

pub record OutboxMessageEntity : Type 0 where
  pub id : String
  pub aggregate_id : String
  pub event_type : String
  pub payload : IntegrationEventEnvelope
  pub occurred_at : ℕ
  pub attempts : ℕ
  pub next_attempt_at : Option ℕ
  pub published_at : Option ℕ
  pub created_at : ℕ
