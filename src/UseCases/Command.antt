-- ===== src/UseCases/Command.antt =====
-- The command and the result of processing a wager transaction, with the small conversions between
-- them: src/application/use-cases/process-wager-transaction/process-wager-transaction.use-case.ts.
use jungle_challenge.Common.{Bool, true, false, String, Option, none, some, string_eq}
use jungle_challenge.Application.Fault.{Fault, application_fault, domain_fault, validation_failed}
use jungle_challenge.Errors.{transaction_error, reference_required}
use jungle_challenge.Money.{Money, MoneyProps, to_json}
use jungle_challenge.Money.Decimal.{Decimals}
use jungle_challenge.UseCases.Processing.{ProcessingContext}
use jungle_challenge.Wagering.State.{WagerTransaction}
use jungle_challenge.Wagering.Vocabulary.{
  WagerTransactionKind, WagerTransactionStatus, FailureCode, kind_eq,
}

pub record InboxRef : Type 0 where
  pub consumer_name : String
  pub message_id : String
  pub payload_hash : String

pub record ProcessWagerTransactionCommand : Type 0 where
  pub idempotency_key : String
  pub provider_id : String
  pub external_transaction_id : String
  pub player_id : String
  pub wallet_id : String
  pub round_id : String
  pub game_id : String
  pub kind : WagerTransactionKind
  pub money : MoneyProps
  pub reference_external_transaction_id : Option String
  pub correlation_id : Option String
  pub causation_id : Option String
  pub inbox : Option InboxRef

pub record ProcessWagerTransactionResult : Type 0 where
  pub transaction_id : String
  pub status : WagerTransactionStatus
  pub balance : Option MoneyProps
  pub idempotent_replay : Bool
  pub failure_code : Option FailureCode

-- `a ?? b`
abbrev pub or_else {ℓ} : {A : Type ℓ} → Option A → Option A → Option A
or_else none b = b
or_else (some a) _ = some a

abbrev pub or_default : Option String → String → String
or_default none d = d
or_default (some s) _ = s

-- `new ValidationError(…)`, with its default code
abbrev pub invalid : Fault
invalid = application_fault (validation_failed FailureCode.validation_error)

-- What `execute` makes of an error of `WagerTransaction.create`.
abbrev pub creation_fault : Fault → Fault
creation_fault (domain_fault (transaction_error (reference_required _))) =
    application_fault (validation_failed FailureCode.missing_reference)
creation_fault (domain_fault _) = invalid
creation_fault fault = fault

abbrev pub context_of : ProcessWagerTransactionCommand → ProcessingContext
context_of command = record {
  correlation_id = or_default command.correlation_id command.idempotency_key;
  causation_id = command.causation_id;
}

-- An option that is known to be set.
abbrev pub required : Option String → String
required none = ""
required (some s) = s

module _ {V : Type 0} ⦃D : Decimals V⦄ where
  abbrev optional_json : Option (Money V) → Option MoneyProps
  optional_json none = none
  optional_json (some m) = some (to_json m)

  unfoldable pub replay_result : WagerTransaction V → ProcessWagerTransactionResult
  replay_result tx = record {
    transaction_id = tx.id;
    status = tx.status;
    balance = optional_json tx.observed_balance;
    idempotent_replay = true;
    failure_code = tx.failure_code;
  }

  unfoldable pub persisted_result : WagerTransaction V → Money V → ProcessWagerTransactionResult
  persisted_result tx balance = record {
    transaction_id = tx.id;
    status = tx.status;
    balance = some (to_json balance);
    idempotent_replay = false;
    failure_code = tx.failure_code;
  }
