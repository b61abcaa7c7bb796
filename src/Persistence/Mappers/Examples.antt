-- ===== src/Persistence/Mappers/Examples.antt =====
-- Rows of an entry and of a transaction that was rejected.
use jungle_challenge.Common.{Option, sym, ap, ◌≡◌, refl, none, some, arith}
use jungle_challenge.Common.Int.{ℤ, pos}
use jungle_challenge.Messaging.Inbox.{InboxMessage}
use jungle_challenge.Messaging.Outbox.{OutboxMessage}
use jungle_challenge.Money.Cents.{cents}
use jungle_challenge.Money.{Money}
use jungle_challenge.Persistence.Mappers.{
  transaction_to_domain, transaction_to_new_entity, transaction_mutable_fields, inbox_to_domain,
  inbox_to_new_entity, outbox_to_domain, outbox_to_new_entity, outbox_mutable_fields,
}
use jungle_challenge.Persistence.Mappers.RoundTrip.{
  TransactionReadBack, updated_row, transaction_to_domain-TransactionReadBack,
}
use jungle_challenge.Persistence.Repositories.{overwrite_transaction}
use jungle_challenge.Wagering.State.{WagerTransaction}
use jungle_challenge.Wagering.Vocabulary.{
  WagerTransactionKind, WagerTransactionStatus, FailureCode, LedgerDirection,
}
use jungle_challenge.Wallet.Entry.{WalletLedgerEntry}

abbrev ten : Money ℤ
ten = record { value = pos 1000; currency = "BRL" }

abbrev opening_entry : WalletLedgerEntry ℤ
opening_entry = record {
  id = "e1";
  wallet_id = "w1";
  transaction_id = "t1";
  direction = LedgerDirection.credit;
  money = ten;
  balance_before = record { value = pos 0; currency = "BRL" };
  balance_after = ten;
  created_at = 1;
}

abbrev wager : WagerTransaction ℤ
wager = record {
  id = "t2";
  provider_id = "acme";
  external_transaction_id = "x2";
  idempotency_key = "k2";
  payload_hash = "h2";
  wallet_id = "w1";
  player_id = "p1";
  round_id = some "r1";
  game_id = some "g1";
  kind = WagerTransactionKind.bet;
  money = record { value = pos 250; currency = "BRL" };
  reference_external_transaction_id = none;
  created_at = 2;
  status = WagerTransactionStatus.pending;
  reference_transaction_id = none;
  failure_code = none;
  processed_at = none;
  reference_attempts = 0;
  next_attempt_at = none;
  pending_reference_since = none;
  observed_balance = none;
}

abbrev rejected : WagerTransaction ℤ
rejected = record wager {
  status = WagerTransactionStatus.rejected;
  failure_code = some FailureCode.insufficient_funds;
  observed_balance = some ten;
}

abbrev observed_or_ten : Option (Money ℤ) → Money ℤ
observed_or_ten none = ten
observed_or_ten (some m) = m

observed_own :
    (m : Money ℤ) → rejected.observed_balance ≡ some m → m.currency ≡ wager.money.currency
observed_own m e = sym (ap (λ o. (observed_or_ten o).currency) e)

transaction_to_domain-TransactionReadBack_example :
    TransactionReadBack (overwrite_transaction rejected wager) (
      transaction_to_domain
        (updated_row (transaction_mutable_fields rejected) (transaction_to_new_entity wager)))
transaction_to_domain-TransactionReadBack_example =
    transaction_to_domain-TransactionReadBack cents wager rejected refl (omega arith) observed_own

read_inbox : (m : InboxMessage) → inbox_to_domain (inbox_to_new_entity m) ≡ m
unfolding inbox_to_domain inbox_to_new_entity
read_inbox m = refl

read_outbox : (m : OutboxMessage) → outbox_to_domain (outbox_to_new_entity m) ≡ m
unfolding outbox_to_domain outbox_to_new_entity
read_outbox m = refl

outbox_fields : (m : OutboxMessage) → (outbox_mutable_fields m).attempts ≡ m.attempts
unfolding outbox_mutable_fields
outbox_fields m = refl
