-- ===== src/UseCases/Processing.antt =====
-- The steps that the use cases share: src/application/use-cases/wager-processing.ts. The wallet and the
-- transaction, which the source mutates, are passed on in their new state.
use jungle_challenge.Common.{
  Bool, true, false, not, ◌&&◌, ◌||◌, String, Option, none, some, List, [], ◌∷◌, ◌==◌, string_eq,
  option_eq, if◌then◌else◌, map,
}
use jungle_challenge.Application.Action.{System, Action, pure, lift, writing, next_id, ◌>>=◌, ◌>>◌}
use jungle_challenge.Application.Fault.{Fault, domain_fault}
use jungle_challenge.Errors.{wallet_error, WalletError}
use jungle_challenge.Messaging.Event.{
  EventContext, IntegrationEvent, processed_event, rejected_event, balance_changed_event,
}
use jungle_challenge.Messaging.Outbox.{enqueue}
use jungle_challenge.Money.{equals}
use jungle_challenge.Money.Decimal.{Decimals}
use jungle_challenge.Persistence.Repositories.{
  save_wallet, save_transaction, insert_entry, insert_outbox, insert_many_outbox,
}
use jungle_challenge.Wagering.State.{WagerTransaction}
use jungle_challenge.Wagering.Transaction.{
  affects_balance, requires_reference, ledger_direction_for, mark_processed, reject,
  record_observed_balance,
}
use jungle_challenge.Wagering.Vocabulary.{
  WagerTransactionKind, FailureCode, LedgerDirection, kind_eq, direction_eq,
}
use jungle_challenge.Wallet.{Wallet, Movement, debit, credit}

-- `ids` and `now` are the system's.
pub record ProcessingContext : Type 0 where
  pub correlation_id : String
  pub causation_id : Option String

-- `toFailureCode`
abbrev pub to_failure_code : Fault → Option FailureCode
to_failure_code (domain_fault (wallet_error (WalletError.insufficient_funds _))) =
    some FailureCode.insufficient_funds
to_failure_code (domain_fault (wallet_error (WalletError.reversal_would_overdraw _))) =
    some FailureCode.reversal_would_overdraw
to_failure_code (domain_fault (wallet_error (WalletError.wallet_currency_mismatch _ _))) =
    some FailureCode.wallet_currency_mismatch
to_failure_code _ = none

-- `ROLLBACK_REFERENCE_KINDS.has`
abbrev pub is_rollback_reference_kind : WagerTransactionKind → Bool
is_rollback_reference_kind WagerTransactionKind.bet = true
is_rollback_reference_kind WagerTransactionKind.win = true
is_rollback_reference_kind WagerTransactionKind.refund = true
is_rollback_reference_kind _ = false

-- What is left of an accepted transaction: the wallet, the transaction and the events to enqueue.
abbrev pub Accepted : Type 0 → Type 0
Accepted V = Wallet V × WagerTransaction V × List IntegrationEvent

-- `reference?.id`
abbrev pub reference_id : {V : Type 0} → Option (WagerTransaction V) → Option String
reference_id none = none
reference_id (some t) = some t.id

module _ {V : Type 0} ⦃D : Decimals V⦄ where
  unfoldable pub validate_reference_match :
      WagerTransaction V → WagerTransaction V → Option FailureCode
  validate_reference_match tx reference =
      if tx.kind == WagerTransactionKind.refund && not (reference.kind == WagerTransactionKind.bet)
      then some FailureCode.reference_kind_mismatch
      else (if tx.kind == WagerTransactionKind.rollback
            && not (is_rollback_reference_kind reference.kind)
          then some FailureCode.reference_kind_mismatch
          else (if not (reference.player_id == tx.player_id)
                || (not (reference.wallet_id == tx.wallet_id)
                    || (not (reference.round_id == tx.round_id)
                        || not (reference.money.currency == tx.money.currency)))
              then some FailureCode.reference_attributes_mismatch
              else (if not (equals reference.money tx.money)
                  then some FailureCode.amount_mismatch
                  else none)))

module _ {V : Type 0} ⦃D : Decimals V⦄ (sys : System) where
  unfoldable pub event_context : ProcessingContext → Action V EventContext
  event_context ctx = do
    id ← next_id sys
    pure (record {
      event_id = id;
      correlation_id = ctx.correlation_id;
      causation_id = ctx.causation_id;
      occurred_at = sys.now;
    })

  -- LOSS: recorded, with no ledger entry.
  unfoldable pub record_loss :
      Wallet V → WagerTransaction V → ProcessingContext → Action V (Accepted V)
  unfolding event_context
  record_loss wallet tx ctx = do
    marked ← lift (mark_processed tx none sys.now)
    let done = record_observed_balance marked wallet.balance
    writing (save_transaction done)
    first ← event_context ctx
    pure (wallet, done, processed_event done first ∷ [])

  -- Every other kind: one movement, one ledger entry.
  unfoldable pub move_balance :
      Wallet V
      → WagerTransaction V
      → Option (WagerTransaction V)
      → ProcessingContext
      → Action V (Accepted V)
  unfolding event_context
  move_balance wallet tx reference ctx = do
    direction ← lift (ledger_direction_for tx reference)
    entry_id ← next_id sys
    let movement : Movement V = record {
      transaction_id = tx.id;
      ledger_entry_id = entry_id;
      amount = tx.money;
      at = sys.now;
    }
    (moved, entry) ← lift (
        if direction == LedgerDirection.debit
        then debit wallet movement (requires_reference tx)
        else credit wallet movement)
    writing (save_wallet moved)
    writing (insert_entry entry)
    marked ← lift (mark_processed tx (reference_id reference) sys.now)
    let done = record_observed_balance marked moved.balance
    writing (save_transaction done)
    first ← event_context ctx
    second ← event_context ctx
    pure (moved, done, processed_event done first ∷ balance_changed_event moved entry second ∷ [])

  unfoldable pub apply_accepted_transaction :
      Wallet V
      → WagerTransaction V
      → Option (WagerTransaction V)
      → ProcessingContext
      → Action V (Accepted V)
  apply_accepted_transaction wallet tx reference ctx =
      if not (affects_balance tx)
      then record_loss wallet tx ctx
      else move_balance wallet tx reference ctx

  unfoldable pub reject_transaction :
      Wallet V
      → WagerTransaction V
      → FailureCode
      → ProcessingContext
      → Action V (WagerTransaction V)
  unfolding event_context
  reject_transaction wallet tx code ctx = do
    rejected ← lift (reject tx code)
    let done = record_observed_balance rejected wallet.balance
    writing (save_transaction done)
    context ← event_context ctx
    writing (insert_outbox (enqueue (rejected_event done code context)))
    pure done

  -- The `try` around the application: it returns what was applied and enqueued.
  unfoldable pub apply_and_enqueue :
      Wallet V
      → WagerTransaction V
      → Option (WagerTransaction V)
      → ProcessingContext
      → Action V (Accepted V)
  apply_and_enqueue wallet tx reference ctx = do
    (moved, done, events) ← apply_accepted_transaction wallet tx reference ctx
    writing (insert_many_outbox (map enqueue events))
    pure (moved, done, events)
