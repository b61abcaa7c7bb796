-- ===== src/Messaging/Event.antt =====
-- The integration events: src/domain/messaging/integration-event.ts and events.ts. The ISO text of an
-- instant is represented by the instant.
use jungle_challenge.Common.{ℕ, Bool, String, Option, none, some}
use jungle_challenge.Money.{MoneyProps, to_json}
use jungle_challenge.Money.Decimal.{Decimals}
use jungle_challenge.Wagering.State.{WagerTransaction}
use jungle_challenge.Wagering.Transaction.{affects_balance}
use jungle_challenge.Wagering.Vocabulary.{WagerTransactionKind, FailureCode, LedgerDirection}
use jungle_challenge.Wallet.{Wallet}
use jungle_challenge.Wallet.Entry.{WalletLedgerEntry}

pub record EventContext : Type 0 where
  pub event_id : String
  pub correlation_id : String
  pub causation_id : Option String
  pub occurred_at : ℕ

pub record WagerTransactionProcessedData : Type 0 where
  pub transaction_id : String
  pub provider_id : String
  pub external_transaction_id : String
  pub wallet_id : String
  pub player_id : String
  pub round_id : Option String
  pub game_id : Option String
  pub kind : WagerTransactionKind
  pub money : MoneyProps
  pub affected_balance : Bool
  pub reference_transaction_id : Option String
  pub processed_at : ℕ

pub record WagerTransactionRejectedData : Type 0 where
  pub transaction_id : String
  pub provider_id : String
  pub external_transaction_id : String
  pub wallet_id : String
  pub kind : WagerTransactionKind
  pub money : MoneyProps
  pub failure_code : FailureCode

pub record WalletBalanceChangedData : Type 0 where
  pub wallet_id : String
  pub transaction_id : String
  pub direction : LedgerDirection
  pub money : MoneyProps
  pub balance_before : MoneyProps
  pub balance_after : MoneyProps
  pub wallet_version : ℕ

pub record WagerTransactionPendingReferenceData : Type 0 where
  pub transaction_id : String
  pub provider_id : String
  pub external_transaction_id : String
  pub wallet_id : String
  pub kind : WagerTransactionKind
  pub reference_external_transaction_id : Option String
  pub attempts : ℕ

-- The data of an event; the constructor stands for the subclass.
pub data EventData : Type 0 where
  transaction_processed : WagerTransactionProcessedData → EventData
  transaction_rejected : WagerTransactionRejectedData → EventData
  balance_changed : WalletBalanceChangedData → EventData
  reference_pending : WagerTransactionPendingReferenceData → EventData

-- `eventType` of each subclass
abbrev pub event_type_of : EventData → String
event_type_of (transaction_processed _) = "WagerTransactionProcessed"
event_type_of (transaction_rejected _) = "WagerTransactionRejected"
event_type_of (balance_changed _) = "WalletBalanceChanged"
event_type_of (reference_pending _) = "WagerTransactionPendingReference"

pub record IntegrationEvent : Type 0 where
  pub event_id : String
  pub aggregate_id : String
  pub correlation_id : String
  pub causation_id : Option String
  pub occurred_at : ℕ
  pub payload : EventData

pub record IntegrationEventEnvelope : Type 0 where
  pub event_id : String
  pub event_type : String
  pub aggregate_id : String
  pub correlation_id : String
  pub causation_id : Option String
  pub occurred_at : ℕ
  pub version : ℕ
  pub payload : EventData

-- `toJSON`; every subclass has version 1.
unfoldable pub envelope_of : IntegrationEvent → IntegrationEventEnvelope
envelope_of event = record {
  event_id = event.event_id;
  event_type = event_type_of event.payload;
  aggregate_id = event.aggregate_id;
  correlation_id = event.correlation_id;
  causation_id = event.causation_id;
  occurred_at = event.occurred_at;
  version = 1;
  payload = event.payload;
}

abbrev event_for : String → EventContext → EventData → IntegrationEvent
event_for aggregate_id ctx payload = record {
  event_id = ctx.event_id;
  aggregate_id = aggregate_id;
  correlation_id = ctx.correlation_id;
  causation_id = ctx.causation_id;
  occurred_at = ctx.occurred_at;
  payload = payload;
}

abbrev time_or : Option ℕ → ℕ → ℕ
time_or none t = t
time_or (some s) _ = s

module _ {V : Type 0} ⦃D : Decimals V⦄ where
  -- `WagerTransactionProcessed.from`
  unfoldable pub processed_event : WagerTransaction V → EventContext → IntegrationEvent
  processed_event tx ctx = event_for tx.id ctx (
      transaction_processed (record {
        transaction_id = tx.id;
        provider_id = tx.provider_id;
        external_transaction_id = tx.external_transaction_id;
        wallet_id = tx.wallet_id;
        player_id = tx.player_id;
        round_id = tx.round_id;
        game_id = tx.game_id;
        kind = tx.kind;
        money = to_json tx.money;
        affected_balance = affects_balance tx;
        reference_transaction_id = tx.reference_transaction_id;
        processed_at = time_or tx.processed_at ctx.occurred_at;
      }))

  -- `WagerTransactionRejected.from`
  unfoldable pub rejected_event : WagerTransaction V → FailureCode → EventContext → IntegrationEvent
  rejected_event tx failure_code ctx = event_for tx.id ctx (
      transaction_rejected (record {
        transaction_id = tx.id;
        provider_id = tx.provider_id;
        external_transaction_id = tx.external_transaction_id;
        wallet_id = tx.wallet_id;
        kind = tx.kind;
        money = to_json tx.money;
        failure_code = failure_code;
      }))

  -- `WalletBalanceChanged.from`
  unfoldable pub balance_changed_event :
      Wallet V → WalletLedgerEntry V → EventContext → IntegrationEvent
  balance_changed_event wallet entry ctx = event_for wallet.id ctx (
      balance_changed (record {
        wallet_id = wallet.id;
        transaction_id = entry.transaction_id;
        direction = entry.direction;
        money = to_json entry.money;
        balance_before = to_json entry.balance_before;
        balance_after = to_json entry.balance_after;
        wallet_version = wallet.version;
      }))

module _ {V : Type 0} where
  -- `WagerTransactionPendingReference.from`
  unfoldable pub reference_pending_event : WagerTransaction V → ℕ → EventContext → IntegrationEvent
  reference_pending_event tx attempts ctx = event_for tx.id ctx (
      reference_pending (record {
        transaction_id = tx.id;
        provider_id = tx.provider_id;
        external_transaction_id = tx.external_transaction_id;
        wallet_id = tx.wallet_id;
        kind = tx.kind;
        reference_external_transaction_id = tx.reference_external_transaction_id;
        attempts = attempts;
      }))
