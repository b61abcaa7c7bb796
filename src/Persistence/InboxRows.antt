-- ===== src/Persistence/InboxRows.antt =====
-- The operations of src/infrastructure/persistence/mikro-orm/repositories.ts that its interface names and nothing calls yet:
-- the update of a consumed message, and the look-up of the ledger entry of a transaction on a wallet.
use jungle_challenge.Common.{
  ◌≡◌, refl, ◌∙◌, ◌&&◌, String, Option, some, ok, arith, ◌==◌, string_eq, ==_refl,
}
use jungle_challenge.Messaging.Inbox.{InboxMessage}
use jungle_challenge.Money.Decimal.{Decimals}
use jungle_challenge.Persistence.Laws.{find_row-update_rows, find_row_holds}
use jungle_challenge.Persistence.Repositories.{find_inbox, insert_entry}
use jungle_challenge.Persistence.Store.{Store}
use jungle_challenge.Persistence.Tables.{find_row, update_rows}
use jungle_challenge.Wallet.Entry.{WalletLedgerEntry}

-- The column that an update writes.
abbrev pub overwrite_inbox : InboxMessage → InboxMessage → InboxMessage
overwrite_inbox message m = record m { processed_at = message.processed_at }

module _ {V : Type 0} ⦃D : Decimals V⦄ where
  unfoldable pub save_inbox : InboxMessage → Store V → Store V
  save_inbox message s = record s {
    inbox =
        update_rows
          (λ m. m.consumer_name == message.consumer_name && m.message_id == message.message_id)
          (overwrite_inbox message) s.inbox;
  }

  unfoldable pub find_by_wallet_and_transaction :
      String → String → Store V → Option (WalletLedgerEntry V)
  find_by_wallet_and_transaction wallet_id transaction_id s =
      find_row (λ e. e.wallet_id == wallet_id && e.transaction_id == transaction_id) s.ledger

  -- A message that is saved is found with the time of its processing, and as it was otherwise.
  pub find_inbox-save_inbox :
      (message found : InboxMessage) (s : Store V)
      → find_inbox message.consumer_name message.message_id s ≡ some found
      → find_inbox message.consumer_name message.message_id (save_inbox message s)
        ≡ some (overwrite_inbox message found)
  unfolding find_inbox save_inbox
  find_inbox-save_inbox message found s e =
      let key = λ (m : InboxMessage).
        m.consumer_name == message.consumer_name && m.message_id == message.message_id in
      let hit = find_row_holds key s.inbox e in
      find_row-update_rows key key (overwrite_inbox message) (λ _. refl) s.inbox
      ∙ rw e (rw hit refl)

  -- An entry that was inserted is found by its wallet and its transaction.
  pub find_by_wallet_and_transaction-insert_entry :
      (entry : WalletLedgerEntry V) (s : Store V) {s' : Store V}
      → insert_entry entry s ≡ ok s'
      → find_by_wallet_and_transaction entry.wallet_id entry.transaction_id s' ≡ some entry
  unfolding find_by_wallet_and_transaction insert_entry
  find_by_wallet_and_transaction-insert_entry entry s e =
      ground (arith, ==_refl entry.wallet_id, ==_refl entry.transaction_id)
