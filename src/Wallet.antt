-- ===== src/Wallet.antt =====
-- The wallet aggregate: src/domain/wallet/wallet.ts. A method that mutates the wallet returns the
-- new one; where it throws, the wallet is left as it was, since every check comes first.
pub mod Entry
pub mod Movements
pub mod Replay
mod Examples
use jungle_challenge.Common.{
  ℕ, ◌+◌, ◌-◌, ◌≡◌, Bool, true, false, not, String, Option, none, some, ok, err, ◌>>=◌, ◌>>◌,
  throw_if, ◌==◌, string_eq, if◌then◌else◌,
}
use jungle_challenge.Errors.{
  DomainError, Checked, WalletError, wallet_error, insufficient_funds, reversal_would_overdraw,
  wallet_currency_mismatch, non_positive_movement, negative_opening_balance,
}
use jungle_challenge.Money.{
  Money, MoneyProps, from, zero_of, add, subtract, is_positive, is_negative, to_json,
}
use jungle_challenge.Money.Decimal.{Decimals}
use jungle_challenge.Wagering.Vocabulary.{LedgerDirection}
use Entry.{WalletLedgerEntry, create}

pub record WalletState : Type 0 where
  pub id : String
  pub player_id : String
  pub currency : String
  pub balance : MoneyProps
  pub version : ℕ
  pub created_at : ℕ
  pub updated_at : ℕ

pub record Wallet (V : Type 0) : Type 0 where
  pub id : String
  pub player_id : String
  pub currency : String
  pub balance : Money V
  pub version : ℕ
  pub created_at : ℕ
  pub updated_at : ℕ

-- `MovementProps`
pub record Movement (V : Type 0) : Type 0 where
  pub transaction_id : String
  pub ledger_entry_id : String
  pub amount : Money V
  pub at : ℕ

abbrev overdraw_error : Bool → String → WalletError
overdraw_error reversal id = if reversal then reversal_would_overdraw id else insufficient_funds id

module _ {V : Type 0} ⦃D : Decimals V⦄ where
  -- `Wallet.open`; the caller gives the time.
  unfoldable pub open_wallet : String → String → Money V → ℕ → Checked (Wallet V)
  open_wallet id player_id initial_balance now = do
    throw_if (is_negative initial_balance) (wallet_error negative_opening_balance)
    ok (record {
      id = id;
      player_id = player_id;
      currency = initial_balance.currency;
      balance = initial_balance;
      version = 1;
      created_at = now;
      updated_at = now;
    })

  unfoldable pub rehydrate : WalletState → Checked (Wallet V)
  rehydrate state = do
    balance ← from state.balance
    ok (record {
      id = state.id;
      player_id = state.player_id;
      currency = state.currency;
      balance = balance;
      version = state.version;
      created_at = state.created_at;
      updated_at = state.updated_at;
    })

  unfoldable pub has_opening_balance : Wallet V → Bool
  has_opening_balance w = is_positive w.balance

  -- `undefined` is `none`.
  unfoldable pub opening_ledger_entry :
      Wallet V → String → String → ℕ → Checked (Option (WalletLedgerEntry V))
  opening_ledger_entry w transaction_id ledger_entry_id at =
      if not (is_positive w.balance) then ok none else do
        nothing ← zero_of w.currency
        entry ← create (record {
          id = ledger_entry_id;
          wallet_id = w.id;
          transaction_id = transaction_id;
          direction = LedgerDirection.credit;
          money = w.balance;
          balance_before = nothing;
          balance_after = w.balance;
          created_at = at;
        })
        ok (some entry)

  unfoldable pub apply_movement : Wallet V → Money V → ℕ → Wallet V
  apply_movement w new_balance at = record w {
    balance = new_balance;
    version = w.version + 1;
    updated_at = at;
  }

  unfoldable pub assert_same_currency : Wallet V → Money V → Checked (Unit {0})
  assert_same_currency w money =
      throw_if (not (money.currency == w.currency))
        (wallet_error (wallet_currency_mismatch w.currency money.currency))

  unfoldable pub debit : Wallet V → Movement V → Bool → Checked (Wallet V × WalletLedgerEntry V)
  unfolding assert_same_currency apply_movement
  debit w params reversal = do
    assert_same_currency w params.amount
    throw_if (not (is_positive params.amount)) (wallet_error non_positive_movement)
    after ← subtract w.balance params.amount
    throw_if (is_negative after) (wallet_error (overdraw_error reversal w.id))
    entry ← create (record {
      id = params.ledger_entry_id;
      wallet_id = w.id;
      transaction_id = params.transaction_id;
      direction = LedgerDirection.debit;
      money = params.amount;
      balance_before = w.balance;
      balance_after = after;
      created_at = params.at;
    })
    ok (apply_movement w after params.at, entry)

  unfoldable pub credit : Wallet V → Movement V → Checked (Wallet V × WalletLedgerEntry V)
  unfolding assert_same_currency apply_movement
  credit w params = do
    assert_same_currency w params.amount
    throw_if (not (is_positive params.amount)) (wallet_error non_positive_movement)
    after ← add w.balance params.amount
    entry ← create (record {
      id = params.ledger_entry_id;
      wallet_id = w.id;
      transaction_id = params.transaction_id;
      direction = LedgerDirection.credit;
      money = params.amount;
      balance_before = w.balance;
      balance_after = after;
      created_at = params.at;
    })
    ok (apply_movement w after params.at, entry)

  unfoldable pub to_state : Wallet V → WalletState
  to_state w = record {
    id = w.id;
    player_id = w.player_id;
    currency = w.currency;
    balance = to_json w.balance;
    version = w.version;
    created_at = w.created_at;
    updated_at = w.updated_at;
  }
