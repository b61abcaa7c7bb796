-- ===== src/Persistence/Mappers.antt =====
-- Rows to domain objects and back: src/infrastructure/persistence/mikro-orm/mappers.ts.
pub mod RoundTrip
mod Examples
use jungle_challenge.Common.{
  ℕ, Bool, true, false, String, Option, none, some, ◌==◌, string_eq, if◌then◌else◌,
}
use jungle_challenge.Errors.{Checked}
use jungle_challenge.Messaging.Inbox.{InboxMessage}
use jungle_challenge.Messaging.Outbox.{OutboxMessage}
use jungle_challenge.Money.{MoneyProps}
use jungle_challenge.Money.Decimal.{Decimals}
use jungle_challenge.Persistence.Entities.{
  WalletEntity, WagerTransactionEntity, WalletLedgerEntryEntity, InboxMessageEntity,
  OutboxMessageEntity,
}
use jungle_challenge.Wagering.Factory
use jungle_challenge.Wagering.State.{WagerTransaction}
use jungle_challenge.Wagering.Vocabulary.{WagerTransactionStatus, FailureCode}
use jungle_challenge.Wallet
use jungle_challenge.Wallet.Entry

-- A text is true unless it is empty.
abbrev pub observed_of : String → Option String → Option MoneyProps
observed_of currency none = none
observed_of currency (some amount) =
    if amount == "" then none else some (record { amount = amount; currency = currency })

abbrev pub amount_of : Option MoneyProps → Option String
amount_of none = none
amount_of (some props) = some props.amount

-- The columns that an update of a transaction writes.
pub record TransactionMutableFields : Type 0 where
  pub status : WagerTransactionStatus
  pub failure_code : Option FailureCode
  pub reference_transaction_id : Option String
  pub reference_attempts : ℕ
  pub next_attempt_at : Option ℕ
  pub pending_reference_since : Option ℕ
  pub processed_at : Option ℕ
  pub observed_balance : Option String

pub record OutboxMutableFields : Type 0 where
  pub attempts : ℕ
  pub next_attempt_at : Option ℕ
  pub published_at : Option ℕ

module _ {V : Type 0} ⦃D : Decimals V⦄ where
  unfoldable pub wallet_to_domain : WalletEntity → Checked (Wallet.Wallet V)
  unfolding Wallet.rehydrate
  wallet_to_domain e = Wallet.rehydrate (record {
    id = e.id;
    player_id = e.player_id;
    currency = e.currency;
    balance = record { amount = e.balance; currency = e.currency };
    version = e.version;
    created_at = e.created_at;
    updated_at = e.updated_at;
  })

  unfoldable pub wallet_to_new_entity : Wallet.Wallet V → WalletEntity
  unfolding Wallet.to_state
  wallet_to_new_entity w =
      let s = Wallet.to_state w in
      record {
        id = s.id;
        player_id = s.player_id;
        currency = s.currency;
        balance = s.balance.amount;
        version = s.version;
        created_at = s.created_at;
        updated_at = s.updated_at;
      }

  unfoldable pub transaction_to_domain : WagerTransactionEntity → Checked (WagerTransaction V)
  unfolding Factory.rehydrate
  transaction_to_domain e = Factory.rehydrate (record {
    id = e.id;
    provider_id = e.provider_id;
    external_transaction_id = e.external_transaction_id;
    idempotency_key = e.idempotency_key;
    payload_hash = e.payload_hash;
    wallet_id = e.wallet_id;
    player_id = e.player_id;
    round_id = e.round_id;
    game_id = e.game_id;
    kind = e.kind;
    money = record { amount = e.amount; currency = e.currency };
    reference_external_transaction_id = e.reference_external_transaction_id;
    created_at = e.created_at;
    status = e.status;
    reference_transaction_id = e.reference_transaction_id;
    failure_code = e.failure_code;
    processed_at = e.processed_at;
    reference_attempts = e.reference_attempts;
    next_attempt_at = e.next_attempt_at;
    pending_reference_since = e.pending_reference_since;
    observed_balance = observed_of e.currency e.observed_balance;
  })

  unfoldable pub transaction_to_new_entity : WagerTransaction V → WagerTransactionEntity
  unfolding Factory.to_state
  transaction_to_new_entity tx =
      let s = Factory.to_state tx in
      record {
        id = s.id;
        provider_id = s.provider_id;
        external_transaction_id = s.external_transaction_id;
        idempotency_key = s.idempotency_key;
        payload_hash = s.payload_hash;
        wallet_id = s.wallet_id;
        player_id = s.player_id;
        round_id = s.round_id;
        game_id = s.game_id;
        kind = s.kind;
        amount = s.money.amount;
        currency = s.money.currency;
        reference_external_transaction_id = s.reference_external_transaction_id;
        reference_transaction_id = s.reference_transaction_id;
        status = s.status;
        failure_code = s.failure_code;
        reference_attempts = s.reference_attempts;
        next_attempt_at = s.next_attempt_at;
        pending_reference_since = s.pending_reference_since;
        observed_balance = amount_of s.observed_balance;
        created_at = s.created_at;
        processed_at = s.processed_at;
      }

  unfoldable pub transaction_mutable_fields : WagerTransaction V → TransactionMutableFields
  unfolding Factory.to_state
  transaction_mutable_fields tx =
      let s = Factory.to_state tx in
      record {
        status = s.status;
        failure_code = s.failure_code;
        reference_transaction_id = s.reference_transaction_id;
        reference_attempts = s.reference_attempts;
        next_attempt_at = s.next_attempt_at;
        pending_reference_since = s.pending_reference_since;
        processed_at = s.processed_at;
        observed_balance = amount_of s.observed_balance;
      }

  unfoldable pub ledger_entry_to_domain :
      WalletLedgerEntryEntity → Checked (Entry.WalletLedgerEntry V)
  unfolding Entry.rehydrate
  ledger_entry_to_domain e = Entry.rehydrate (record {
    id = e.id;
    wallet_id = e.wallet_id;
    transaction_id = e.transaction_id;
    direction = e.direction;
    money = record { amount = e.amount; currency = e.currency };
    balance_before = record { amount = e.balance_before; currency = e.currency };
    balance_after = record { amount = e.balance_after; currency = e.currency };
    created_at = e.created_at;
  })

  unfoldable pub ledger_entry_to_new_entity : Entry.WalletLedgerEntry V → WalletLedgerEntryEntity
  unfolding Entry.to_state
  ledger_entry_to_new_entity entry =
      let s = Entry.to_state entry in
      record {
        id = s.id;
        wallet_id = s.wallet_id;
        transaction_id = s.transaction_id;
        direction = s.direction;
        amount = s.money.amount;
        currency = s.money.currency;
        balance_before = s.balance_before.amount;
        balance_after = s.balance_after.amount;
        created_at = s.created_at;
      }

unfoldable pub inbox_to_domain : InboxMessageEntity → InboxMessage
inbox_to_domain e = record {
  message_id = e.message_id;
  consumer_name = e.consumer_name;
  payload_hash = e.payload_hash;
  received_at = e.received_at;
  processed_at = e.processed_at;
}

unfoldable pub inbox_to_new_entity : InboxMessage → InboxMessageEntity
inbox_to_new_entity m = record {
  consumer_name = m.consumer_name;
  message_id = m.message_id;
  payload_hash = m.payload_hash;
  received_at = m.received_at;
  processed_at = m.processed_at;
}

unfoldable pub outbox_to_domain : OutboxMessageEntity → OutboxMessage
outbox_to_domain e = record {
  id = e.id;
  aggregate_id = e.aggregate_id;
  event_type = e.event_type;
  payload = e.payload;
  occurred_at = e.occurred_at;
  attempts = e.attempts;
  next_attempt_at = e.next_attempt_at;
  published_at = e.published_at;
}

unfoldable pub outbox_to_new_entity : OutboxMessage → OutboxMessageEntity
outbox_to_new_entity m = record {
  id = m.id;
  aggregate_id = m.aggregate_id;
  event_type = m.event_type;
  payload = m.payload;
  occurred_at = m.occurred_at;
  attempts = m.attempts;
  next_attempt_at = m.next_attempt_at;
  published_at = m.published_at;
  created_at = m.occurred_at;
}

unfoldable pub outbox_mutable_fields : OutboxMessage → OutboxMutableFields
outbox_mutable_fields m = record {
  attempts = m.attempts;
  next_attempt_at = m.next_attempt_at;
  published_at = m.published_at;
}
