-- ===== src/Application/Fault.antt =====
-- Everything that a use case may throw: src/application/application-error.ts, the errors of
-- src/application/ports/unit-of-work.port.ts and of the repositories, less their message texts.
use jungle_challenge.Common.{String}
use jungle_challenge.Errors.{DomainError}
use jungle_challenge.Wagering.Vocabulary.{FailureCode}

pub data ApplicationError : Type 0 where
  validation_failed : FailureCode → ApplicationError
  wallet_missing : String → ApplicationError
  transaction_missing : String → ApplicationError
  wallet_exists : String → String → ApplicationError
  idempotency_conflict : String → ApplicationError

pub data ApplicationErrorKind : Type 0 where
  validation conflict not_found : ApplicationErrorKind

-- `failureCode` of each subclass
unfoldable pub failure_code_of : ApplicationError → FailureCode
failure_code_of (validation_failed code) = code
failure_code_of (wallet_missing _) = FailureCode.wallet_not_found
failure_code_of (transaction_missing _) = FailureCode.transaction_not_found
failure_code_of (wallet_exists _ _) = FailureCode.wallet_already_exists
failure_code_of (idempotency_conflict _) = FailureCode.idempotency_conflict

-- `kind` of each subclass; none of them is "transient".
unfoldable pub kind_of : ApplicationError → ApplicationErrorKind
kind_of (validation_failed _) = validation
kind_of (wallet_missing _) = not_found
kind_of (transaction_missing _) = not_found
kind_of (wallet_exists _ _) = conflict
kind_of (idempotency_conflict _) = conflict

pub data Fault : Type 0 where
  application_fault : ApplicationError → Fault
  domain_fault : DomainError → Fault
  -- `UniqueConstraintError`, with the constraint's name
  unique_constraint : String → Fault
  -- `ConcurrentModificationError`, with the entity and its id
  concurrent_modification : String → String → Fault
  -- `TransientInfrastructureError`
  transient_failure : Fault
  -- any other `Error`
  unexpected : Fault

-- `normalizeError` of src/infrastructure/persistence/mikro-orm/mikro-unit-of-work.ts, for the errors
-- that the model has.
abbrev pub normalize_error : Fault → Fault
normalize_error (concurrent_modification _ _) = transient_failure
normalize_error fault = fault
