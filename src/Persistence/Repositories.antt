-- ===== src/Persistence/Repositories.antt =====
-- The repositories: src/infrastructure/persistence/mikro-orm/repositories.ts over the tables, with the
-- unique indexes and the range of the amounts of migrations/Migration20260903000000_init.ts. A write
-- that violates an index raises; it raises `UniqueConstraintError` where the code translates the
-- driver's exception. An amount out of range raises an error that the code does not translate.
use jungle_challenge.Common.{
  ℕ, ◌+◌, Bool, true, false, not, ◌&&◌, String, Option, none, some, List, [], ◌∷◌, Result, ok,
  ◌>>=◌, ◌>>◌, throw_if, ◌==◌, nat_eq, string_eq, ltb, leb, ◌||◌,
}
use jungle_challenge.Application.Fault.{
  Fault, unique_constraint, concurrent_modification, unexpected,
}
use jungle_challenge.Messaging.Inbox.{InboxMessage}
use jungle_challenge.Messaging.Outbox.{OutboxMessage}
use jungle_challenge.Money.Decimal.{Decimals}
use jungle_challenge.Persistence.Columns.{fits, fits_nullable}
use jungle_challenge.Persistence.Store.{Store}
use jungle_challenge.Persistence.Tables.{
  find_row, has_row, update_rows, count_rows, select_rows, sort_rows, take,
}
use jungle_challenge.Wagering.State.{WagerTransaction}
use jungle_challenge.Wagering.Vocabulary.{
  WagerTransactionKind, WagerTransactionStatus, is_reversal_kind, kind_eq, status_eq,
}
use jungle_challenge.Wallet.{Wallet}
use jungle_challenge.Wallet.Entry.{WalletLedgerEntry}

-- `status in ('PENDING', 'PENDING_REFERENCE', 'PROCESSED')`
abbrev pub is_active_status : WagerTransactionStatus → Bool
is_active_status WagerTransactionStatus.rejected = false
is_active_status WagerTransactionStatus.failed = false
is_active_status _ = true

-- SQL equality: NULL equals nothing.
abbrev pub sql_equal : Option String → Option String → Bool
sql_equal (some a) (some b) = a == b
sql_equal _ _ = false

-- `next_attempt_at <= now`, or NULL
abbrev no_later : Option ℕ → ℕ → Bool
no_later none now = true
no_later (some t) now = leb t now

abbrev time_before : Option ℕ → Option ℕ → ℕ → ℕ → Bool
time_before (some s) (some t) c d = ltb s t || s == t && leb c d
time_before (some s) none c d = true
time_before none (some t) c d = false
time_before none none c d = leb c d

-- `order by next_attempt_at asc, created_at asc`, where NULL comes last
abbrev attempt_before : {V : Type 0} → WagerTransaction V → WagerTransaction V → Bool
attempt_before a b = time_before a.next_attempt_at b.next_attempt_at a.created_at b.created_at

module _ {V : Type 0} ⦃D : Decimals V⦄ where
  unfoldable pub find_wallet : String → Store V → Option (Wallet V)
  find_wallet id s = find_row (λ w. w.id == id) s.wallets

  unfoldable pub find_wallet_by_player_and_currency : String → String → Store V → Option (Wallet V)
  find_wallet_by_player_and_currency player_id currency s =
      find_row (λ w. w.player_id == player_id && w.currency == currency) s.wallets

  unfoldable pub insert_wallet : Wallet V → Store V → Result Fault (Store V)
  insert_wallet wallet s = do
    throw_if (has_row (λ w. w.id == wallet.id) s.wallets) (unique_constraint "wallet_pkey")
    throw_if
        (has_row (λ w. w.player_id == wallet.player_id && w.currency == wallet.currency) s.wallets)
        (unique_constraint "wallet_player_currency_uq")
    throw_if (not (fits wallet.balance)) unexpected
    ok (record s { wallets = wallet ∷ s.wallets })

  -- The row of the wallet, one version back.
  abbrev pub is_previous : Wallet V → Wallet V → Bool
  is_previous wallet w = w.id == wallet.id && w.version + 1 == wallet.version

  -- The row keeps its currency; the balance is stored as an amount.
  abbrev pub overwrite_wallet : Wallet V → Wallet V → Wallet V
  overwrite_wallet wallet w = record w {
    balance = record { value = wallet.balance.value; currency = w.currency };
    version = wallet.version;
    updated_at = wallet.updated_at;
  }

  unfoldable pub save_wallet : Wallet V → Store V → Result Fault (Store V)
  save_wallet wallet s = do
    throw_if (not (fits wallet.balance)) unexpected
    throw_if (not (count_rows (is_previous wallet) s.wallets == 1))
        (concurrent_modification "wallet" wallet.id)
    ok (record s { wallets = update_rows (is_previous wallet) (overwrite_wallet wallet) s.wallets })

  unfoldable pub find_transaction : String → Store V → Option (WagerTransaction V)
  find_transaction id s = find_row (λ t. t.id == id) s.transactions

  unfoldable pub find_by_idempotency_key : String → Store V → Option (WagerTransaction V)
  find_by_idempotency_key key s = find_row (λ t. t.idempotency_key == key) s.transactions

  unfoldable pub find_by_provider_and_external_id :
      String → String → Store V → Option (WagerTransaction V)
  find_by_provider_and_external_id provider_id external_id s =
      find_row (λ t. t.provider_id == provider_id && t.external_transaction_id == external_id)
        s.transactions

  unfoldable pub find_active_reversal_of :
      String → WagerTransactionKind → Store V → Option (WagerTransaction V)
  find_active_reversal_of reference_id kind s =
      find_row
        (λ t.
          sql_equal t.reference_transaction_id (some reference_id)
          && (t.kind == kind && is_active_status t.status))
        s.transactions

  -- PENDING_REFERENCE, with an attempt that is due
  abbrev is_due_pending : ℕ → WagerTransaction V → Bool
  is_due_pending now t =
      t.status == WagerTransactionStatus.pending_reference && no_later t.next_attempt_at now

  unfoldable pub list_due_pending_reference : ℕ → ℕ → Store V → List (WagerTransaction V)
  list_due_pending_reference limit now s =
      take limit (sort_rows attempt_before (select_rows (is_due_pending now) s.transactions))

  -- Two rows that the index `wt_one_active_reversal_per_kind` keeps apart.
  abbrev pub is_rival : WagerTransaction V → WagerTransaction V → Bool
  is_rival tx t =
      is_reversal_kind tx.kind
      && (is_active_status tx.status
          && (sql_equal t.reference_transaction_id tx.reference_transaction_id
              && (t.kind == tx.kind && is_active_status t.status)))

  unfoldable pub insert_transaction : WagerTransaction V → Store V → Result Fault (Store V)
  insert_transaction tx s = do
    throw_if (not (fits tx.money)) unexpected
    throw_if (has_row (λ t. t.id == tx.id) s.transactions)
        (unique_constraint "wager_transaction_pkey")
    throw_if (has_row (λ t. t.idempotency_key == tx.idempotency_key) s.transactions)
        (unique_constraint "wt_idempotency_key_uq")
    throw_if
        (has_row
          (λ t.
            t.provider_id == tx.provider_id
            && t.external_transaction_id == tx.external_transaction_id)
          s.transactions)
        (unique_constraint "wt_provider_external_uq")
    throw_if (has_row (is_rival tx) s.transactions)
        (unique_constraint "wt_one_active_reversal_per_kind")
    ok (record s { transactions = tx ∷ s.transactions })

  -- `transactionMutableFields`
  abbrev pub overwrite_transaction : WagerTransaction V → WagerTransaction V → WagerTransaction V
  overwrite_transaction tx t = record t {
    status = tx.status;
    reference_transaction_id = tx.reference_transaction_id;
    failure_code = tx.failure_code;
    processed_at = tx.processed_at;
    reference_attempts = tx.reference_attempts;
    next_attempt_at = tx.next_attempt_at;
    pending_reference_since = tx.pending_reference_since;
    observed_balance = tx.observed_balance;
  }

  -- The driver's exception for the index is not translated here.
  unfoldable pub save_transaction : WagerTransaction V → Store V → Result Fault (Store V)
  save_transaction tx s = do
    throw_if (not (fits_nullable tx.observed_balance)) unexpected
    throw_if (has_row (λ t. not (t.id == tx.id) && is_rival tx t) s.transactions) unexpected
    ok (record s {
      transactions = update_rows (λ t. t.id == tx.id) (overwrite_transaction tx) s.transactions;
    })

  unfoldable pub insert_entry : WalletLedgerEntry V → Store V → Result Fault (Store V)
  insert_entry entry s = do
    throw_if (not (fits entry.money && (fits entry.balance_before && fits entry.balance_after)))
        unexpected
    throw_if (has_row (λ e. e.id == entry.id) s.ledger) (unique_constraint "wle_pkey")
    throw_if
        (has_row (λ e. e.wallet_id == entry.wallet_id && e.transaction_id == entry.transaction_id)
          s.ledger)
        (unique_constraint "wle_wallet_transaction_uq")
    ok (record s { ledger = entry ∷ s.ledger })

  unfoldable pub count_by_wallet : String → Store V → ℕ
  count_by_wallet wallet_id s = count_rows (λ e. e.wallet_id == wallet_id) s.ledger

  unfoldable pub find_inbox : String → String → Store V → Option InboxMessage
  find_inbox consumer_name message_id s =
      find_row (λ m. m.consumer_name == consumer_name && m.message_id == message_id) s.inbox

  unfoldable pub insert_inbox : InboxMessage → Store V → Result Fault (Store V)
  insert_inbox message s = do
    throw_if
        (has_row
          (λ m. m.consumer_name == message.consumer_name && m.message_id == message.message_id)
          s.inbox)
        (unique_constraint "inbox_message_pkey")
    ok (record s { inbox = message ∷ s.inbox })

  unfoldable pub insert_outbox : OutboxMessage → Store V → Result Fault (Store V)
  insert_outbox message s = do
    throw_if (has_row (λ m. m.id == message.id) s.outbox) (unique_constraint "outbox_message_pkey")
    ok (record s { outbox = message ∷ s.outbox })

  unfoldable pub insert_many_outbox : List OutboxMessage → Store V → Result Fault (Store V)
  unfolding insert_outbox
  insert_many_outbox [] s = ok s
  insert_many_outbox (m ∷ ms) s = do s' ← insert_outbox m s; insert_many_outbox ms s'
