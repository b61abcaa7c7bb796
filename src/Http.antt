-- ===== src/Http.antt =====
-- The HTTP interface: src/infrastructure/http. What the schemas of zod make of a body, and the texts of
-- messages, are left to the parameters; metrics are left out.
pub mod Submission
pub mod Routes
mod Examples
use jungle_challenge.Common.{
  ℕ, Bool, true, false, not, ◌&&◌, ◌||◌, String, Option, none, some, List, [], ◌∷◌, Result, ok, err,
  ◌==◌, nat_eq, leb, if◌then◌else◌,
}
use jungle_challenge.Application.Action.{System, World}
use jungle_challenge.Application.Fault.{
  Fault, ApplicationErrorKind, application_fault, domain_fault, unique_constraint,
  concurrent_modification, transient_failure, unexpected, kind_of, failure_code_of,
}
use jungle_challenge.Auth.Guard.{Access, allowed, unauthenticated, forbidden}
use jungle_challenge.Errors.{DomainError}
use jungle_challenge.Money.Amount.{codes}
use jungle_challenge.Money.Decimal.{Decimals}
use jungle_challenge.Money.{MoneyProps}
use jungle_challenge.UseCases.Command.{
  ProcessWagerTransactionCommand, ProcessWagerTransactionResult, invalid,
}
use jungle_challenge.UseCases.Process.{execute}
use jungle_challenge.Wagering.Vocabulary.{WagerTransactionKind, WagerTransactionStatus, FailureCode}

-- What reaches the filter: an error of a use case, or an exception of the framework with its status.
pub data Thrown : Type 0 where
  fault_of : Fault → Thrown
  http_exception : ℕ → Thrown

-- The member `failureCode` of the body: a code, or the code of the domain error's class.
pub data FailureName : Type 0 where
  coded : FailureCode → FailureName
  named_by : DomainError → FailureName

-- A response: a status with a result, or with an error's body.
pub data Reply (A : Type 0) : Type 0 where
  replied : ℕ → A → Reply A
  failed : ℕ → FailureName → Reply A

abbrev pub status_of_kind : ApplicationErrorKind → ℕ
status_of_kind ApplicationErrorKind.validation = 400
status_of_kind ApplicationErrorKind.not_found = 404
status_of_kind ApplicationErrorKind.conflict = 409

abbrev pub code_of_status : ℕ → FailureCode
code_of_status status =
    if status == 401
    then FailureCode.unauthenticated
    else (if status == 403 then FailureCode.forbidden else FailureCode.validation_error)

-- `DomainExceptionFilter.map`
unfoldable pub map_exception : Thrown → ℕ × FailureName
map_exception (fault_of (application_fault error)) =
    (status_of_kind (kind_of error), coded (failure_code_of error))
map_exception (fault_of transient_failure) = (503, coded FailureCode.internal_error)
map_exception (fault_of (unique_constraint _)) = (409, coded FailureCode.validation_error)
map_exception (fault_of (domain_fault error)) = (422, named_by error)
map_exception (http_exception status) = (status, coded (code_of_status status))
map_exception _ = (500, coded FailureCode.internal_error)

abbrev pub catching : {A : Type 0} → Thrown → Reply A
catching thrown = failed (map_exception thrown).0 (map_exception thrown).1

abbrev pub fresh_status : WagerTransactionStatus → ℕ
fresh_status WagerTransactionStatus.processed = 201
fresh_status WagerTransactionStatus.pending_reference = 202
fresh_status WagerTransactionStatus.rejected = 422
fresh_status WagerTransactionStatus.failed = 422
fresh_status _ = 200

unfoldable pub status_for_result : ProcessWagerTransactionResult → ℕ
status_for_result result = if result.idempotent_replay then 200 else fresh_status result.status

-- What `trim` cuts off.
abbrev is_white : ℕ → Bool
is_white c =
    leb 9 c && leb c 13
    || (c == 32
        || (c == 160
            || (c == 5760
                || (leb 8192 c && leb c 8202
                    || (c == 8232
                        || (c == 8233
                            || (c == 8239 || (c == 8287 || (c == 12288 || c == 65279)))))))))

abbrev all_white : List ℕ → Bool
all_white [] = true
all_white (c ∷ s) = is_white c && all_white s

-- An absent, an empty or a blank header.
unfoldable pub is_blank : Option String → Bool
is_blank none = true
is_blank (some s) = all_white (codes s)

abbrev pub text_of : Option String → String
text_of none = ""
text_of (some s) = s

-- `submitTransactionSchema`
pub record SubmitTransactionBody : Type 0 where
  pub provider_id : String
  pub external_transaction_id : String
  pub player_id : String
  pub wallet_id : String
  pub round_id : String
  pub game_id : String
  pub kind : WagerTransactionKind
  pub money : MoneyProps
  pub reference_external_transaction_id : Option String

abbrev pub command_of_body :
    String → Option String → SubmitTransactionBody → ProcessWagerTransactionCommand
command_of_body idempotency_key correlation_id body = record {
  idempotency_key = idempotency_key;
  provider_id = body.provider_id;
  external_transaction_id = body.external_transaction_id;
  player_id = body.player_id;
  wallet_id = body.wallet_id;
  round_id = body.round_id;
  game_id = body.game_id;
  kind = body.kind;
  money = body.money;
  reference_external_transaction_id = body.reference_external_transaction_id;
  correlation_id = correlation_id;
  causation_id = none;
  inbox = none;
}

module _ {V : Type 0} where
  abbrev pub responded :
      Result Fault ProcessWagerTransactionResult × World V
      → Reply ProcessWagerTransactionResult × World V
  responded (ok result, w) = (replied (status_for_result result) result, w)
  responded (err fault, w) = (catching (fault_of fault), w)

module _ {V : Type 0} ⦃D : Decimals V⦄ (sys : System)
    (idempotency_key correlation_id : Option String) where
  -- `WageringController.submit`
  unfoldable pub submit :
      SubmitTransactionBody → World V → Reply ProcessWagerTransactionResult × World V
  submit body w =
      if is_blank idempotency_key
      then (catching (fault_of invalid), w)
      else responded (execute sys (command_of_body (text_of idempotency_key) correlation_id body) w)

  -- The guard, then the schema (`none` where it refuses the body), then the handler.
  unfoldable pub post_transaction :
      Access
      → Option SubmitTransactionBody
      → World V
      → Reply ProcessWagerTransactionResult × World V
  post_transaction (unauthenticated _) body w = (catching (http_exception 401), w)
  post_transaction forbidden body w = (catching (http_exception 403), w)
  post_transaction allowed none w = (catching (fault_of invalid), w)
  post_transaction allowed (some body) w = submit body w
