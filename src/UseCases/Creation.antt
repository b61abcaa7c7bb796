-- ===== src/UseCases/Creation.antt =====
-- Opening a wallet: src/application/use-cases/create-wallet/create-wallet.use-case.ts.
pub mod Conservation
pub mod Calls
mod Examples
use jungle_challenge.Common.{
  ℕ, ◌≡◌, Bool, true, false, String, Option, none, some, List, [], ◌∷◌, ok, err, ◌==◌, string_eq,
  if◌then◌else◌,
}
use jungle_challenge.Application.Action.{
  System, Action, pure, throw, reading, lift, writing, attempt, run, next_id, ◌>>=◌, ◌>>◌,
}
use jungle_challenge.Application.Fault.{
  Fault, application_fault, wallet_exists, unique_constraint, unexpected,
}
use jungle_challenge.Errors.{Checked}
use jungle_challenge.Messaging.Event.{processed_event, balance_changed_event}
use jungle_challenge.Messaging.Outbox.{enqueue}
use jungle_challenge.Money.{Money, MoneyProps, from, to_json}
use jungle_challenge.Money.Decimal.{Decimals}
use jungle_challenge.Persistence.Repositories.{
  find_wallet_by_player_and_currency, insert_wallet, insert_transaction, insert_entry,
  insert_many_outbox,
}
use jungle_challenge.UseCases.Command.{invalid}
use jungle_challenge.UseCases.Processing.{ProcessingContext, event_context}
use jungle_challenge.Wagering.Factory.{opening}
use jungle_challenge.Wagering.State.{WagerTransaction}
use jungle_challenge.Wagering.Transaction.{mark_processed, record_observed_balance}
use jungle_challenge.Wallet.{Wallet, open_wallet, has_opening_balance, opening_ledger_entry}
use jungle_challenge.Wallet.Entry.{WalletLedgerEntry}

pub record CreateWalletCommand : Type 0 where
  pub wallet_id : Option String
  pub player_id : String
  pub initial_balance : MoneyProps
  pub correlation_id : Option String

pub record CreateWalletResult : Type 0 where
  pub id : String
  pub player_id : String
  pub balance : MoneyProps
  pub version : ℕ

module _ {V : Type 0} ⦃D : Decimals V⦄ (sys : System) where
  -- `given ?? this.ids.next()`
  abbrev pub given_or_next : Option String → Action V String
  given_or_next none = next_id sys
  given_or_next (some s) = pure s

  -- The transaction and the entry of the opening balance, with their events.
  unfoldable pub record_opening :
      Wallet V → WagerTransaction V → String → Option (WalletLedgerEntry V) → Action V (Unit {0})
  record_opening wallet tx correlation_id none = throw unexpected
  record_opening wallet tx correlation_id (some entry) = do
    marked ← lift (mark_processed tx none sys.now)
    let done = record_observed_balance marked wallet.balance
    writing (insert_transaction done)
    writing (insert_entry entry)
    let ctx : ProcessingContext = record { correlation_id = correlation_id; causation_id = none }
    first ← event_context sys ctx
    second ← event_context sys ctx
    writing (
        insert_many_outbox (
          enqueue (processed_event done first)
          ∷ enqueue (balance_changed_event wallet entry second)
          ∷ []))

  unfoldable pub post_opening : Wallet V → Money V → String → Action V (Unit {0})
  post_opening wallet initial correlation_id = do
    id ← next_id sys
    tx ← lift (opening id wallet.id wallet.player_id initial sys.now)
    entry_id ← next_id sys
    entry ← lift (opening_ledger_entry wallet tx.id entry_id sys.now)
    record_opening wallet tx correlation_id entry

  -- A wallet that violates an index exists already.
  abbrev pub translated : String → String → Fault → Action V (Unit {0})
  translated player_id currency (unique_constraint _) =
      throw (application_fault (wallet_exists player_id currency))
  translated player_id currency fault = throw fault

  unfoldable pub insert_new : Wallet V → Action V (Unit {0})
  insert_new wallet =
      attempt (writing (insert_wallet wallet)) pure
        (translated wallet.player_id wallet.balance.currency)

  abbrev pub opened : Wallet V → CreateWalletResult
  opened wallet = record {
    id = wallet.id;
    player_id = wallet.player_id;
    balance = to_json wallet.balance;
    version = wallet.version;
  }

  -- The wallet was made.
  unfoldable pub store_wallet : Money V → String → Wallet V → Action V CreateWalletResult
  store_wallet initial correlation_id wallet = do
    insert_new wallet
    if has_opening_balance wallet then post_opening wallet initial correlation_id else pure tt
    pure (opened wallet)

  -- The wallet of the player and the currency, if there is one.
  abbrev pub open_unless :
      String → Money V → String → String → Option (Wallet V) → Action V CreateWalletResult
  open_unless wallet_id initial player_id correlation_id (some _) =
      throw (application_fault (wallet_exists player_id initial.currency))
  open_unless wallet_id initial player_id correlation_id none = do
    wallet ← lift (open_wallet wallet_id player_id initial sys.now)
    store_wallet initial correlation_id wallet

  abbrev pub create_with : CreateWalletCommand → Checked (Money V) → Action V CreateWalletResult
  create_with command (err _) = throw invalid
  create_with command (ok initial) = do
    wallet_id ← given_or_next command.wallet_id
    correlation_id ← given_or_next command.correlation_id
    run (do
      existing ← reading (find_wallet_by_player_and_currency command.player_id initial.currency)
      open_unless wallet_id initial command.player_id correlation_id existing)

  -- `execute`
  unfoldable pub create_wallet : CreateWalletCommand → Action V CreateWalletResult
  create_wallet command = create_with command (from command.initial_balance)
