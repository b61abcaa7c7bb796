-- ===== src/Wagering/Vocabulary.antt =====
-- The closed vocabularies of src/domain/wagering/wager-transaction.ts, failure-code.ts and
-- src/domain/wallet/wallet-ledger-entry.ts.
use jungle_challenge.Common.{ℕ, ◌≡◌, ◌↔◌, Bool, true, false, arith, StrictEq, nat_beq}

pub data WagerTransactionKind : Type 0 where
  opening bet win loss refund rollback : WagerTransactionKind

pub data WagerTransactionStatus : Type 0 where
  pending pending_reference processed rejected failed : WagerTransactionStatus

pub data FailureCode : Type 0 where
  validation_error unauthenticated forbidden wallet_not_found wallet_already_exists : FailureCode
  transaction_not_found wallet_currency_mismatch insufficient_funds : FailureCode
  reversal_would_overdraw idempotency_conflict missing_reference reference_not_found : FailureCode
  reference_not_processed reference_kind_mismatch reference_attributes_mismatch : FailureCode
  amount_mismatch already_reversed internal_error : FailureCode

pub data LedgerDirection : Type 0 where
  debit credit : LedgerDirection

-- `REVERSAL_KINDS.has`
abbrev pub is_reversal_kind : WagerTransactionKind → Bool
is_reversal_kind refund = true
is_reversal_kind rollback = true
is_reversal_kind _ = false

-- `TERMINAL_STATUSES.has`
abbrev pub is_terminal_status : WagerTransactionStatus → Bool
is_terminal_status processed = true
is_terminal_status rejected = true
is_terminal_status failed = true
is_terminal_status _ = false

-- `isRetryable`
unfoldable pub is_retryable : FailureCode → Bool
is_retryable reference_not_processed = true
is_retryable _ = false

abbrev kind_rank : WagerTransactionKind → ℕ
kind_rank opening = 0
kind_rank bet = 1
kind_rank win = 2
kind_rank loss = 3
kind_rank refund = 4
kind_rank rollback = 5

abbrev kind_beq : WagerTransactionKind → WagerTransactionKind → Bool
kind_beq a b = nat_beq (kind_rank a) (kind_rank b)

pub kind_beq_iff : (a b : WagerTransactionKind) → (kind_beq a b ≡ true) ↔ (a ≡ b)
kind_beq_iff a b = ground arith

instance abbrev pub kind_eq : StrictEq WagerTransactionKind
kind_eq = record { same = kind_beq; same_iff = kind_beq_iff }

abbrev status_rank : WagerTransactionStatus → ℕ
status_rank pending = 0
status_rank pending_reference = 1
status_rank processed = 2
status_rank rejected = 3
status_rank failed = 4

abbrev status_beq : WagerTransactionStatus → WagerTransactionStatus → Bool
status_beq a b = nat_beq (status_rank a) (status_rank b)

pub status_beq_iff : (a b : WagerTransactionStatus) → (status_beq a b ≡ true) ↔ (a ≡ b)
status_beq_iff a b = ground arith

instance abbrev pub status_eq : StrictEq WagerTransactionStatus
status_eq = record { same = status_beq; same_iff = status_beq_iff }

abbrev pub direction_beq : LedgerDirection → LedgerDirection → Bool
direction_beq debit debit = true
direction_beq credit credit = true
direction_beq _ _ = false

pub direction_beq_iff : (a b : LedgerDirection) → (direction_beq a b ≡ true) ↔ (a ≡ b)
direction_beq_iff a b = ground arith

instance abbrev pub direction_eq : StrictEq LedgerDirection
direction_eq = record { same = direction_beq; same_iff = direction_beq_iff }
