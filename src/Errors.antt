-- ===== src/Errors.antt =====
-- The domain errors: src/domain/shared/domain-error.ts and the `*.errors.ts` files beside it, less
-- their message texts. `DomainError` is the base class, with a constructor for each file.
use jungle_challenge.Common.{String, Result}
use jungle_challenge.Wagering.Vocabulary.{WagerTransactionKind, WagerTransactionStatus}

pub data MoneyError : Type 0 where
  -- the text received, and the reason
  invalid_money_amount : String → String → MoneyError
  invalid_currency : String → MoneyError
  currency_mismatch : String → String → MoneyError

pub data WalletError : Type 0 where
  insufficient_funds : String → WalletError
  reversal_would_overdraw : String → WalletError
  wallet_currency_mismatch : String → String → WalletError
  non_positive_movement unbalanced_ledger_entry negative_opening_balance : WalletError

pub data TransactionError : Type 0 where
  invalid_transaction_state : String → WagerTransactionStatus → String → TransactionError
  reference_required : WagerTransactionKind → TransactionError
  transaction_context_required : String → TransactionError
  opening_not_submittable non_positive_transaction_amount : TransactionError
  no_ledger_direction : WagerTransactionKind → TransactionError

pub data DomainError : Type 0 where
  money_error : MoneyError → DomainError
  wallet_error : WalletError → DomainError
  transaction_error : TransactionError → DomainError

-- What a method of the domain does: it returns, or it throws a `DomainError`.
abbrev pub Checked {ℓ} : Type ℓ → Type ℓ
Checked A = Result DomainError A
