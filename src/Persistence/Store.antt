-- ===== src/Persistence/Store.antt =====
-- The tables of the schema, each a list of rows. A row is kept as the domain object that it stands
-- for.
use jungle_challenge.Common.{List}
use jungle_challenge.Messaging.Inbox.{InboxMessage}
use jungle_challenge.Messaging.Outbox.{OutboxMessage}
use jungle_challenge.Wagering.State.{WagerTransaction}
use jungle_challenge.Wallet.{Wallet}
use jungle_challenge.Wallet.Entry.{WalletLedgerEntry}

pub record Store (V : Type 0) : Type 0 where
  pub wallets : List (Wallet V)
  pub transactions : List (WagerTransaction V)
  pub ledger : List (WalletLedgerEntry V)
  pub inbox : List InboxMessage
  pub outbox : List OutboxMessage
