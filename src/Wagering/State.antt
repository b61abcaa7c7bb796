-- ===== src/Wagering/State.antt =====
-- One operation of a provider, and its plain persisted form: the types of
-- src/domain/wagering/wager-transaction.ts. A `Date` is its number of milliseconds, and `null` and
-- `undefined` are `none`.
use jungle_challenge.Common.{ℕ, String, Option}
use jungle_challenge.Money.{Money, MoneyProps}
use jungle_challenge.Wagering.Vocabulary.{WagerTransactionKind, WagerTransactionStatus, FailureCode}

pub record CreateWagerTransactionProps (V : Type 0) : Type 0 where
  pub id : String
  pub provider_id : String
  pub external_transaction_id : String
  pub idempotency_key : String
  pub payload_hash : String
  pub wallet_id : String
  pub player_id : String
  pub round_id : String
  pub game_id : String
  pub kind : WagerTransactionKind
  pub money : Money V
  pub reference_external_transaction_id : Option String
  pub created_at : ℕ

pub record WagerTransaction (V : Type 0) : Type 0 where
  pub id : String
  pub provider_id : String
  pub external_transaction_id : String
  pub idempotency_key : String
  pub payload_hash : String
  pub wallet_id : String
  pub player_id : String
  pub round_id : Option String
  pub game_id : Option String
  pub kind : WagerTransactionKind
  pub money : Money V
  pub reference_external_transaction_id : Option String
  pub created_at : ℕ
  pub status : WagerTransactionStatus
  pub reference_transaction_id : Option String
  pub failure_code : Option FailureCode
  pub processed_at : Option ℕ
  pub reference_attempts : ℕ
  pub next_attempt_at : Option ℕ
  pub pending_reference_since : Option ℕ
  pub observed_balance : Option (Money V)

pub record WagerTransactionState : Type 0 where
  pub id : String
  pub provider_id : String
  pub external_transaction_id : String
  pub idempotency_key : String
  pub payload_hash : String
  pub wallet_id : String
  pub player_id : String
  pub round_id : Option String
  pub game_id : Option String
  pub kind : WagerTransactionKind
  pub money : MoneyProps
  pub reference_external_transaction_id : Option String
  pub created_at : ℕ
  pub status : WagerTransactionStatus
  pub reference_transaction_id : Option String
  pub failure_code : Option FailureCode
  pub processed_at : Option ℕ
  pub reference_attempts : ℕ
  pub next_attempt_at : Option ℕ
  pub pending_reference_since : Option ℕ
  pub observed_balance : Option MoneyProps
