-- ===== src/UseCases/Settlement.antt =====
-- How a new transaction is settled: the part of execute in
-- src/application/use-cases/process-wager-transaction/process-wager-transaction.use-case.ts that resolves
-- the reference, checks it and applies the transaction or rejects it.
use jungle_challenge.Common.{Bool, false, not, Option, none, some, ◌==◌, string_eq, if◌then◌else◌}
use jungle_challenge.Application.Action.{
  System, Action, pure, throw, reading, lift, writing, attempt, ◌>>=◌, ◌>>◌,
}
use jungle_challenge.Application.Fault.{Fault}
use jungle_challenge.Messaging.Event.{reference_pending_event}
use jungle_challenge.Messaging.Outbox.{enqueue}
use jungle_challenge.Money.Decimal.{Decimals}
use jungle_challenge.Persistence.Repositories.{
  find_by_provider_and_external_id, find_active_reversal_of, save_transaction, insert_outbox,
}
use jungle_challenge.UseCases.Processing.{
  apply_and_enqueue, to_failure_code, event_context, validate_reference_match, reject_transaction,
}
use jungle_challenge.Wagering.State.{WagerTransaction}
use jungle_challenge.Wagering.Transaction.{is_processed, requires_reference, mark_pending_reference}
use jungle_challenge.Wagering.Vocabulary.{FailureCode, kind_eq}
use jungle_challenge.Wallet.{Wallet}
use jungle_challenge.UseCases.Command.{
  ProcessWagerTransactionCommand, ProcessWagerTransactionResult, context_of, required,
  persisted_result,
}

module _ {V : Type 0} where
  -- Another transaction that reverses the reference and is not this one.
  abbrev pub is_taken : WagerTransaction V → Option (WagerTransaction V) → Bool
  is_taken tx none = false
  is_taken tx (some other) = not (other.id == tx.id)

module _ {V : Type 0} ⦃D : Decimals V⦄ (sys : System)
    (command : ProcessWagerTransactionCommand) where
  -- The reference is missing or not processed.
  unfoldable pub await_reference : WagerTransaction V → Action V ProcessWagerTransactionResult
  unfolding event_context
  await_reference tx = do
    waiting ← lift (mark_pending_reference tx (some sys.now))
    writing (save_transaction waiting)
    context ← event_context sys (context_of command)
    writing (
        insert_outbox
          (enqueue (reference_pending_event waiting waiting.reference_attempts context)))
    pure (record {
      transaction_id = waiting.id;
      status = waiting.status;
      balance = none;
      idempotent_replay = false;
      failure_code = none;
    })

  unfoldable pub reject_with :
      Wallet V → WagerTransaction V → FailureCode → Action V ProcessWagerTransactionResult
  reject_with wallet tx code = do
    rejected ← reject_transaction sys wallet tx code (context_of command)
    pure (persisted_result rejected wallet.balance)

  abbrev pub rejection :
      Wallet V
      → WagerTransaction V
      → Fault
      → Option FailureCode
      → Action V ProcessWagerTransactionResult
  rejection wallet tx fault none = throw fault
  rejection wallet tx fault (some code) = reject_with wallet tx code

  -- Where the application throws, the wallet and the transaction are as they were before it.
  unfoldable pub settle :
      Wallet V
      → WagerTransaction V
      → Option (WagerTransaction V)
      → Action V ProcessWagerTransactionResult
  settle wallet tx reference =
      attempt (apply_and_enqueue sys wallet tx reference (context_of command))
        (λ (moved, done, _). pure (persisted_result done moved.balance))
        (λ fault. rejection wallet tx fault (to_failure_code fault))

  -- A reversal whose reference is processed.
  unfoldable pub settle_reversal :
      Wallet V → WagerTransaction V → WagerTransaction V → Action V ProcessWagerTransactionResult
  settle_reversal wallet tx found = elim (validate_reference_match tx found) [
    | some mismatch ↦ reject_with wallet tx mismatch
    | none ↦ do
      existing ← reading (find_active_reversal_of found.id tx.kind)
      if is_taken tx existing
          then reject_with wallet tx FailureCode.already_reversed
          else settle wallet tx (some found)
  ]

  -- A reversal with what the search for its reference found.
  abbrev pub resolve_with :
      Wallet V
      → WagerTransaction V
      → Option (WagerTransaction V)
      → Action V ProcessWagerTransactionResult
  resolve_with wallet tx none = await_reference tx
  resolve_with wallet tx (some found) =
      if not (is_processed found) then await_reference tx else settle_reversal wallet tx found

  unfoldable pub resolve_reference :
      Wallet V → WagerTransaction V → Action V ProcessWagerTransactionResult
  resolve_reference wallet tx = do
    found ← reading (
        find_by_provider_and_external_id tx.provider_id
          (required tx.reference_external_transaction_id))
    resolve_with wallet tx found

  unfoldable pub resolve_and_settle :
      Wallet V → WagerTransaction V → Action V ProcessWagerTransactionResult
  resolve_and_settle wallet tx =
      if requires_reference tx then resolve_reference wallet tx else settle wallet tx none
