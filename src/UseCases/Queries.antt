-- ===== src/UseCases/Queries.antt =====
-- The queries: src/application/use-cases/queries. Times stay numbers in the views.
pub mod Answers
use jungle_challenge.Common.{ℕ, String, Option, none, some, List, map, Result, ok, err}
use jungle_challenge.Application.Action.{Action, pure, throw, reading, run, ◌>>=◌}
use jungle_challenge.Application.CanonicalJson.{◌<>◌}
use jungle_challenge.Application.Fault.{
  Fault, application_fault, wallet_missing, transaction_missing,
}
use jungle_challenge.Money.{Money, MoneyProps, to_json}
use jungle_challenge.Money.Decimal.{Decimals}
use jungle_challenge.Persistence.LedgerPages.{Paging, LedgerPage, list_by_wallet}
use jungle_challenge.Persistence.Repositories.{
  find_wallet, find_transaction, find_by_provider_and_external_id,
}
use jungle_challenge.Wagering.State.{WagerTransaction}
use jungle_challenge.Wagering.Vocabulary.{
  WagerTransactionKind, WagerTransactionStatus, FailureCode, LedgerDirection,
}
use jungle_challenge.Wallet.{Wallet}
use jungle_challenge.Wallet.Entry.{WalletLedgerEntry}

pub record WalletView : Type 0 where
  pub id : String
  pub player_id : String
  pub balance : MoneyProps
  pub version : ℕ
  pub created_at : ℕ
  pub updated_at : ℕ

pub record LedgerEntryView : Type 0 where
  pub id : String
  pub transaction_id : String
  pub direction : LedgerDirection
  pub money : MoneyProps
  pub balance_before : MoneyProps
  pub balance_after : MoneyProps
  pub created_at : ℕ

pub record LedgerPageView : Type 0 where
  pub entries : List LedgerEntryView
  pub next_cursor : Option String

pub record WagerTransactionView : Type 0 where
  pub id : String
  pub provider_id : String
  pub external_transaction_id : String
  pub wallet_id : String
  pub player_id : String
  pub round_id : Option String
  pub game_id : Option String
  pub kind : WagerTransactionKind
  pub money : MoneyProps
  pub status : WagerTransactionStatus
  pub failure_code : Option FailureCode
  pub reference_external_transaction_id : Option String
  pub reference_transaction_id : Option String
  pub observed_balance : Option MoneyProps
  pub reference_attempts : ℕ
  pub created_at : ℕ
  pub processed_at : Option ℕ

module _ {V : Type 0} ⦃D : Decimals V⦄ where
  abbrev nullable_json : Option (Money V) → Option MoneyProps
  nullable_json none = none
  nullable_json (some m) = some (to_json m)

  unfoldable pub to_transaction_view : WagerTransaction V → WagerTransactionView
  to_transaction_view s = record {
    id = s.id;
    provider_id = s.provider_id;
    external_transaction_id = s.external_transaction_id;
    wallet_id = s.wallet_id;
    player_id = s.player_id;
    round_id = s.round_id;
    game_id = s.game_id;
    kind = s.kind;
    money = to_json s.money;
    status = s.status;
    failure_code = s.failure_code;
    reference_external_transaction_id = s.reference_external_transaction_id;
    reference_transaction_id = s.reference_transaction_id;
    observed_balance = nullable_json s.observed_balance;
    reference_attempts = s.reference_attempts;
    created_at = s.created_at;
    processed_at = s.processed_at;
  }

  abbrev to_wallet_view : Wallet V → WalletView
  to_wallet_view wallet = record {
    id = wallet.id;
    player_id = wallet.player_id;
    balance = to_json wallet.balance;
    version = wallet.version;
    created_at = wallet.created_at;
    updated_at = wallet.updated_at;
  }

  abbrev pub to_entry_view : WalletLedgerEntry V → LedgerEntryView
  to_entry_view e = record {
    id = e.id;
    transaction_id = e.transaction_id;
    direction = e.direction;
    money = to_json e.money;
    balance_before = to_json e.balance_before;
    balance_after = to_json e.balance_after;
    created_at = e.created_at;
  }

  -- What was found, or the error.
  abbrev pub found_or : {A : Type 0} → Fault → Option A → Action V A
  found_or fault none = throw fault
  found_or fault (some a) = pure a

  unfoldable pub get_wallet : String → Action V WalletView
  get_wallet wallet_id = do
    found ← run (reading (find_wallet wallet_id))
    wallet ← found_or (application_fault (wallet_missing wallet_id)) found
    pure (to_wallet_view wallet)

  unfoldable pub by_id : String → Action V WagerTransactionView
  unfolding to_transaction_view
  by_id transaction_id = do
    found ← run (reading (find_transaction transaction_id))
    tx ← found_or (application_fault (transaction_missing transaction_id)) found
    pure (to_transaction_view tx)

  unfoldable pub by_provider_and_external_id : String → String → Action V WagerTransactionView
  unfolding to_transaction_view
  by_provider_and_external_id provider_id external_transaction_id = do
    found ← run (reading (find_by_provider_and_external_id provider_id external_transaction_id))
    tx ←
        found_or
          (application_fault (transaction_missing (provider_id <> ":" <> external_transaction_id)))
          found
    pure (to_transaction_view tx)

  abbrev pub to_page_view : LedgerPage V → LedgerPageView
  to_page_view page = record {
    entries = map to_entry_view page.entries;
    next_cursor = page.next_cursor;
  }

  abbrev settled : {A : Type 0} → Result Fault A → Action V A
  settled (ok a) = pure a
  settled (err fault) = throw fault

  unfoldable pub get_wallet_ledger : Paging → String → Option String → ℕ → Action V LedgerPageView
  get_wallet_ledger P wallet_id cursor limit = run (do
    found ← reading (find_wallet wallet_id)
    wallet ← found_or (application_fault (wallet_missing wallet_id)) found
    listed ← reading (list_by_wallet P wallet_id cursor limit)
    page ← settled listed
    pure (to_page_view page))
