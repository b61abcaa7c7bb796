-- ===== src/UseCases/Reconciliation.antt =====
-- The reconciliation: src/application/use-cases/reconcile-wallet/reconcile-wallet.use-case.ts, with the
-- sum and the count that it asks of src/infrastructure/persistence/mikro-orm/repositories.ts.
pub mod Balance
mod Examples
use jungle_challenge.Common.{
  ℕ, Bool, true, false, not, String, Option, none, some, List, [], ◌∷◌, Result, ok, err, ◌==◌,
  string_eq, if◌then◌else◌,
}
use jungle_challenge.Common.Int.{ℤ, pos, ◌+ℤ◌, ◌-ℤ◌}
use jungle_challenge.Application.Action.{Action, pure, throw, reading, lift, run, ◌>>=◌}
use jungle_challenge.Application.Fault.{Fault, application_fault, wallet_missing, unexpected}
use jungle_challenge.Money.{Money, MoneyProps, from_computed, subtract, is_zero, to_json}
use jungle_challenge.Money.Decimal.{Decimals}
use jungle_challenge.Money.Text.{fixed_text}
use jungle_challenge.Persistence.Repositories.{find_wallet, count_by_wallet}
use jungle_challenge.Persistence.Store.{Store}
use jungle_challenge.Persistence.Tables.{select_rows}
use jungle_challenge.UseCases.Queries.{found_or}
use jungle_challenge.Wagering.Vocabulary.{LedgerDirection, direction_eq}
use jungle_challenge.Wallet.{Wallet}
use jungle_challenge.Wallet.Entry.{WalletLedgerEntry}

pub record ReconciliationView : Type 0 where
  pub wallet_id : String
  pub stored_balance : MoneyProps
  pub calculated_balance : MoneyProps
  pub difference : MoneyProps
  pub consistent : Bool
  pub checked_entries : ℕ

module _ {V : Type 0} ⦃D : Decimals V⦄ where
  -- `case when le.direction = 'CREDIT' then le.amount else -le.amount end`, in hundredths
  abbrev pub signed_column : WalletLedgerEntry V → ℤ
  signed_column e =
      let amount = D.hundredths e.money.value in
      if e.direction == LedgerDirection.credit then amount else pos 0 -ℤ amount

  abbrev pub sum_columns : List (WalletLedgerEntry V) → ℤ
  sum_columns [] = pos 0
  sum_columns (e ∷ es) = signed_column e +ℤ sum_columns es

  -- `coalesce(sum(…), 0)`: a sum of a numeric(20,2) has two decimal places, the 0 has none.
  abbrev pub sum_text : List (WalletLedgerEntry V) → String
  sum_text [] = "0"
  sum_text (e ∷ es) = fixed_text (sum_columns (e ∷ es))

  abbrev pub sum_row : List (WalletLedgerEntry V) → Option (Wallet V) → Option MoneyProps
  sum_row es none = none
  sum_row es (some w) = some (record { amount = sum_text es; currency = w.currency })

  abbrev pub of_wallet : String → WalletLedgerEntry V → Bool
  of_wallet wallet_id e = e.wallet_id == wallet_id

  unfoldable pub sum_signed_by_wallet : String → Action V (Money V)
  sum_signed_by_wallet wallet_id = do
    row ←
        reading
          (λ s. sum_row (select_rows (of_wallet wallet_id) s.ledger) (find_wallet wallet_id s))
    props ← found_or unexpected row
    lift (from_computed props)

  unfoldable pub compare_sum : String → Wallet V → Money V → Action V ReconciliationView
  compare_sum wallet_id wallet calculated = do
    difference ← lift (subtract wallet.balance calculated)
    checked_entries ← reading (count_by_wallet wallet_id)
    pure (record {
      wallet_id = wallet_id;
      stored_balance = to_json wallet.balance;
      calculated_balance = to_json calculated;
      difference = to_json difference;
      consistent = is_zero difference;
      checked_entries = checked_entries;
    })

  unfoldable pub compare_wallet : String → Wallet V → Action V ReconciliationView
  unfolding compare_sum
  compare_wallet wallet_id wallet = do
    calculated ← sum_signed_by_wallet wallet_id
    compare_sum wallet_id wallet calculated

  -- What runs in the unit of work.
  unfoldable pub compare_balance : String → Action V ReconciliationView
  unfolding compare_wallet
  compare_balance wallet_id = do
    found ← reading (find_wallet wallet_id)
    wallet ← found_or (application_fault (wallet_missing wallet_id)) found
    compare_wallet wallet_id wallet

  abbrev pub observed : ReconciliationView → Action V (ReconciliationView × List ReconciliationView)
  observed view = pure (view, if not view.consistent then view ∷ [] else [])

  -- `execute`, with what the observer is told
  unfoldable pub reconcile : String → Action V (ReconciliationView × List ReconciliationView)
  unfolding compare_balance
  reconcile wallet_id = do view ← run (compare_balance wallet_id); observed view
