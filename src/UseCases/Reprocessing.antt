-- ===== src/UseCases/Reprocessing.antt =====
-- The worker's use case for transactions that wait for their reference:
-- src/application/use-cases/reprocess-pending-references/reprocess-pending-references.use-case.ts. Each one is
-- reprocessed in its own unit of work.
pub mod Effects
pub mod Rows
pub mod Progress
pub mod Settling
pub mod Liveness
pub mod Waiting
pub mod Conservation
mod Examples
use jungle_challenge.Common.{
  ℕ, zero, suc, ◌+◌, Bool, true, false, not, ◌&&◌, ◌||◌, String, Option, none, some, List, [], ◌∷◌,
  ok, err, ◌==◌, string_eq, nat_eq, ltb, leb, if◌then◌else◌,
}
use jungle_challenge.Common.Lists.{length}
use jungle_challenge.Application.Action.{
  System, World, Action, pure, throw, reading, lift, writing, attempt, run, ◌>>=◌, ◌>>◌,
}
use jungle_challenge.Application.Fault.{Fault}
use jungle_challenge.Messaging.Event.{rejected_event}
use jungle_challenge.Messaging.Outbox.{enqueue}
use jungle_challenge.Money.Decimal.{Decimals}
use jungle_challenge.Persistence.Repositories.{
  find_transaction, find_wallet, find_by_provider_and_external_id, find_active_reversal_of,
  list_due_pending_reference, save_transaction, insert_outbox,
}
use jungle_challenge.UseCases.Command.{required}
use jungle_challenge.UseCases.Processing.{
  ProcessingContext, to_failure_code, event_context, validate_reference_match, apply_and_enqueue,
  reject_transaction,
}
use jungle_challenge.UseCases.Settlement.{is_taken}
use jungle_challenge.Wagering.State.{WagerTransaction}
use jungle_challenge.Wagering.Transaction.{
  is_processed, is_pending_reference, schedule_reference_retry, should_give_up_on_reference, reject,
  fail,
}
use jungle_challenge.Wagering.Vocabulary.{FailureCode, kind_eq}
use jungle_challenge.Wallet.{Wallet}

pub record PendingReferenceConfig : Type 0 where
  pub batch_size : ℕ
  pub base_backoff_ms : ℕ
  pub max_attempts : ℕ
  pub ttl_ms : ℕ

pub data Outcome : Type 0 where
  processed rejected retried skipped : Outcome

pub record ReprocessSummary : Type 0 where
  pub scanned : ℕ
  pub processed : ℕ
  pub rejected : ℕ
  pub retried : ℕ
  pub skipped : ℕ

-- `summary[outcome] += 1`
unfoldable pub counted : Outcome → ReprocessSummary → ReprocessSummary
counted Outcome.processed s = record s { processed = s.processed + 1 }
counted Outcome.rejected s = record s { rejected = s.rejected + 1 }
counted Outcome.retried s = record s { retried = s.retried + 1 }
counted Outcome.skipped s = record s { skipped = s.skipped + 1 }

abbrev pub pending_context : {V : Type 0} → WagerTransaction V → ProcessingContext
pending_context tx = record { correlation_id = tx.id; causation_id = none }

module _ {V : Type 0} ⦃D : Decimals V⦄ (sys : System) where
  -- The reference did not come in time.
  unfoldable pub give_up : WagerTransaction V → Action V Outcome
  give_up tx = do
    done ← lift (reject tx FailureCode.reference_not_found)
    writing (save_transaction done)
    context ← event_context sys (pending_context tx)
    writing (insert_outbox (enqueue (rejected_event done FailureCode.reference_not_found context)))
    pure Outcome.rejected

  unfoldable pub reject_pending : Wallet V → WagerTransaction V → FailureCode → Action V Outcome
  reject_pending wallet tx code = do
    _ ← reject_transaction sys wallet tx code (pending_context tx)
    pure Outcome.rejected

  abbrev pub refusal : Wallet V → WagerTransaction V → Fault → Option FailureCode → Action V Outcome
  refusal wallet tx fault none = throw fault
  refusal wallet tx fault (some code) = reject_pending wallet tx code

  unfoldable pub settle_pending :
      Wallet V → WagerTransaction V → WagerTransaction V → Action V Outcome
  settle_pending wallet tx reference =
      attempt (apply_and_enqueue sys wallet tx (some reference) (pending_context tx))
        (λ _. pure Outcome.processed) (λ fault. refusal wallet tx fault (to_failure_code fault))

  -- The reference is processed, and the wallet was looked up.
  unfoldable pub match_pending :
      Wallet V → WagerTransaction V → WagerTransaction V → Action V Outcome
  match_pending wallet tx reference = elim (validate_reference_match tx reference) [
    | some mismatch ↦ reject_pending wallet tx mismatch
    | none ↦ do
      existing ← reading (find_active_reversal_of reference.id tx.kind)
      if is_taken tx existing
          then reject_pending wallet tx FailureCode.already_reversed
          else settle_pending wallet tx reference
  ]

  unfoldable pub fail_pending : WagerTransaction V → Action V Outcome
  fail_pending tx = do
    done ← lift (fail tx FailureCode.internal_error)
    writing (save_transaction done)
    pure Outcome.rejected

  abbrev pub reprocess_in :
      WagerTransaction V → WagerTransaction V → Option (Wallet V) → Action V Outcome
  reprocess_in tx reference none = fail_pending tx
  reprocess_in tx reference (some wallet) = match_pending wallet tx reference

module _ {V : Type 0} ⦃D : Decimals V⦄ (sys : System) (config : PendingReferenceConfig) where
  -- The reference is still missing or not processed.
  unfoldable pub retry_later : WagerTransaction V → Action V Outcome
  retry_later tx =
      let later = schedule_reference_retry tx sys.now config.base_backoff_ms in
      if should_give_up_on_reference later sys.now config.max_attempts config.ttl_ms
      then give_up sys later
      else (writing (save_transaction later) >> pure Outcome.retried)

  abbrev pub reprocess_with : WagerTransaction V → Option (WagerTransaction V) → Action V Outcome
  reprocess_with tx none = retry_later tx
  reprocess_with tx (some reference) =
      if not (is_processed reference)
      then retry_later tx
      else (reading (find_wallet tx.wallet_id) >>= reprocess_in sys tx reference)

  abbrev pub reprocess_found : Option (WagerTransaction V) → Action V Outcome
  reprocess_found none = pure Outcome.skipped
  reprocess_found (some tx) =
      if not (is_pending_reference tx)
      then pure Outcome.skipped
      else (reading (
            find_by_provider_and_external_id tx.provider_id
              (required tx.reference_external_transaction_id))
          >>= reprocess_with tx)

  unfoldable pub reprocess_one : String → Action V Outcome
  reprocess_one transaction_id = run (reading (find_transaction transaction_id) >>= reprocess_found)

module _ {V : Type 0} ⦃D : Decimals V⦄ (sys : System) (config : PendingReferenceConfig)
    (now_at : ℕ → ℕ) where
  -- The loop; the clock is read again for each transaction, and an error ends it.
  unfoldable pub reprocess_each :
      ℕ → List (WagerTransaction V) → ReprocessSummary → Action V ReprocessSummary
  reprocess_each i [] summary = pure summary
  reprocess_each i (stale ∷ due) summary = do
    outcome ← reprocess_one (record sys { now = now_at i }) config stale.id
    reprocess_each (i + 1) due (counted outcome summary)

  -- `execute`
  unfoldable pub reprocess : Action V ReprocessSummary
  reprocess = do
    due ← run (reading (list_due_pending_reference config.batch_size sys.now))
    reprocess_each 0 due
        (record { scanned = length due; processed = 0; rejected = 0; retried = 0; skipped = 0 })
