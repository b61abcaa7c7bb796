-- ===== src/Wallet/Entry.antt =====
-- Ledger entries: src/domain/wallet/wallet-ledger-entry.ts. No operation changes an entry.
use jungle_challenge.Common.{ℕ, Bool, not, String, ok, ◌>>=◌, ◌>>◌, throw_if, ◌==◌, if◌then◌else◌}
use jungle_challenge.Errors.{Checked, wallet_error, non_positive_movement, unbalanced_ledger_entry}
use jungle_challenge.Money.{
  Money, MoneyProps, from, add, subtract, negate, is_positive, equals, to_json,
}
use jungle_challenge.Money.Decimal.{Decimals}
use jungle_challenge.Wagering.Vocabulary.{LedgerDirection, direction_eq}

pub record LedgerEntryState : Type 0 where
  pub id : String
  pub wallet_id : String
  pub transaction_id : String
  pub direction : LedgerDirection
  pub money : MoneyProps
  pub balance_before : MoneyProps
  pub balance_after : MoneyProps
  pub created_at : ℕ

-- Also `CreateLedgerEntryProps`, which has the same fields.
pub record WalletLedgerEntry (V : Type 0) : Type 0 where
  pub id : String
  pub wallet_id : String
  pub transaction_id : String
  pub direction : LedgerDirection
  pub money : Money V
  pub balance_before : Money V
  pub balance_after : Money V
  pub created_at : ℕ

module _ {V : Type 0} ⦃D : Decimals V⦄ where
  unfoldable pub is_balanced : WalletLedgerEntry V → Checked Bool
  is_balanced e = do
    expected ←
        if e.direction == LedgerDirection.credit
        then add e.balance_before e.money
        else subtract e.balance_before e.money
    ok (equals expected e.balance_after)

  unfoldable pub create : WalletLedgerEntry V → Checked (WalletLedgerEntry V)
  unfolding is_balanced
  create props = do
    throw_if (not (is_positive props.money)) (wallet_error non_positive_movement)
    balanced ← is_balanced props
    throw_if (not balanced) (wallet_error unbalanced_ledger_entry)
    ok props

  unfoldable pub rehydrate : LedgerEntryState → Checked (WalletLedgerEntry V)
  rehydrate state = do
    money ← from state.money
    before ← from state.balance_before
    after ← from state.balance_after
    ok (record {
      id = state.id;
      wallet_id = state.wallet_id;
      transaction_id = state.transaction_id;
      direction = state.direction;
      money = money;
      balance_before = before;
      balance_after = after;
      created_at = state.created_at;
    })

  unfoldable pub signed_amount : WalletLedgerEntry V → Money V
  signed_amount e = if e.direction == LedgerDirection.credit then e.money else negate e.money

  unfoldable pub to_state : WalletLedgerEntry V → LedgerEntryState
  to_state e = record {
    id = e.id;
    wallet_id = e.wallet_id;
    transaction_id = e.transaction_id;
    direction = e.direction;
    money = to_json e.money;
    balance_before = to_json e.balance_before;
    balance_after = to_json e.balance_after;
    created_at = e.created_at;
  }
