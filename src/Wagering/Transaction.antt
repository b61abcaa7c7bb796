-- ===== src/Wagering/Transaction.antt =====
-- The transitions and the queries of a transaction: src/domain/wagering/wager-transaction.ts. A
-- method that mutates the transaction returns the new one.
pub mod Lifecycle
pub mod Progress
pub mod Retries
use jungle_challenge.Common.{
  ℕ, ◌+◌, ◌-◌, ◌*◌, ◌^◌, min, Bool, true, false, not, String, Option, none, some, ok, err, ◌>>=◌,
  ◌>>◌, throw_if, ◌==◌, string_eq, leb, if◌then◌else◌,
}
use jungle_challenge.Errors.{
  Checked, transaction_error, invalid_transaction_state, reference_required, no_ledger_direction,
}
use jungle_challenge.Money.{Money}
use jungle_challenge.Wagering.State.{WagerTransaction}
use jungle_challenge.Wagering.Vocabulary.{
  WagerTransactionKind, WagerTransactionStatus, FailureCode, LedgerDirection, is_reversal_kind,
  is_terminal_status, kind_eq, status_eq, direction_eq,
}

abbrev pub default_reference_backoff_ms : ℕ
default_reference_backoff_ms = 2000

abbrev pub max_reference_backoff_ms : ℕ
max_reference_backoff_ms = 60 * 60 * 1000

-- `new Date(now.getTime() + min(base * 2 ** (attempts - 1), cap))`
abbrev pub backoff_delay : ℕ → ℕ → ℕ → ℕ
backoff_delay base attempts cap = min (base * 2 ^ (attempts - 1)) cap

abbrev pub opposite : LedgerDirection → LedgerDirection
opposite d = if d == LedgerDirection.debit then LedgerDirection.credit else LedgerDirection.debit

-- The time from which the reference is awaited is set once, if a time is given.
abbrev awaited_since : Option ℕ → Option ℕ → Option ℕ
awaited_since none (some now) = some now
awaited_since since _ = since

-- `now - since >= ttl` over signed numbers.
abbrev outlived : ℕ → Option ℕ → ℕ → Bool
outlived now none ttl = false
outlived now (some since) ttl = leb (since + ttl) now

-- `ledgerDirectionFor()` of a transaction with no reference at hand.
abbrev direction_alone : WagerTransactionKind → Checked LedgerDirection
direction_alone WagerTransactionKind.opening = ok LedgerDirection.credit
direction_alone WagerTransactionKind.win = ok LedgerDirection.credit
direction_alone WagerTransactionKind.refund = ok LedgerDirection.credit
direction_alone WagerTransactionKind.bet = ok LedgerDirection.debit
direction_alone WagerTransactionKind.rollback =
    err (transaction_error (reference_required WagerTransactionKind.rollback))
direction_alone WagerTransactionKind.loss =
    err (transaction_error (no_ledger_direction WagerTransactionKind.loss))

module _ {V : Type 0} where
  unfoldable pub is_terminal : WagerTransaction V → Bool
  is_terminal tx = is_terminal_status tx.status

  unfoldable pub is_processed : WagerTransaction V → Bool
  is_processed tx = tx.status == WagerTransactionStatus.processed

  unfoldable pub is_pending_reference : WagerTransaction V → Bool
  is_pending_reference tx = tx.status == WagerTransactionStatus.pending_reference

  -- `false` for LOSS.
  unfoldable pub affects_balance : WagerTransaction V → Bool
  affects_balance tx = not (tx.kind == WagerTransactionKind.loss)

  unfoldable pub requires_reference : WagerTransaction V → Bool
  requires_reference tx = is_reversal_kind tx.kind

  unfoldable pub matches_payload : WagerTransaction V → String → Bool
  matches_payload tx payload_hash = tx.payload_hash == payload_hash

  unfoldable pub assert_not_terminal : WagerTransaction V → String → Checked (Unit {0})
  unfolding is_terminal
  assert_not_terminal tx attempted =
      throw_if (is_terminal tx)
        (transaction_error (invalid_transaction_state tx.id tx.status attempted))

  unfoldable pub mark_processed :
      WagerTransaction V → Option String → ℕ → Checked (WagerTransaction V)
  unfolding assert_not_terminal
  mark_processed tx reference_id at = do
    assert_not_terminal tx "markProcessed"
    ok (record tx {
      status = WagerTransactionStatus.processed;
      reference_transaction_id = reference_id;
      failure_code = none;
      processed_at = some at;
      next_attempt_at = none;
    })

  unfoldable pub mark_pending_reference :
      WagerTransaction V → Option ℕ → Checked (WagerTransaction V)
  unfolding assert_not_terminal
  mark_pending_reference tx now = do
    assert_not_terminal tx "markPendingReference"
    ok (record tx {
      status = WagerTransactionStatus.pending_reference;
      pending_reference_since = awaited_since tx.pending_reference_since now;
    })

  unfoldable pub reject : WagerTransaction V → FailureCode → Checked (WagerTransaction V)
  unfolding assert_not_terminal
  reject tx code = do
    assert_not_terminal tx "reject"
    ok (record tx {
      status = WagerTransactionStatus.rejected;
      failure_code = some code;
      processed_at = none;
      next_attempt_at = none;
    })

  unfoldable pub fail : WagerTransaction V → FailureCode → Checked (WagerTransaction V)
  unfolding assert_not_terminal
  fail tx code = do
    assert_not_terminal tx "fail"
    ok (record tx {
      status = WagerTransactionStatus.failed;
      failure_code = some code;
      next_attempt_at = none;
    })

  unfoldable pub schedule_reference_retry : WagerTransaction V → ℕ → ℕ → WagerTransaction V
  schedule_reference_retry tx now base =
      let attempts = tx.reference_attempts + 1 in
      record tx {
        reference_attempts = attempts;
        next_attempt_at = some (now + backoff_delay base attempts max_reference_backoff_ms);
      }

  unfoldable pub record_observed_balance : WagerTransaction V → Money V → WagerTransaction V
  record_observed_balance tx balance = record tx {
    observed_balance = if balance.currency == tx.money.currency then some balance else none;
  }

  unfoldable pub should_give_up_on_reference : WagerTransaction V → ℕ → ℕ → ℕ → Bool
  should_give_up_on_reference tx now max_attempts ttl =
      if leb max_attempts tx.reference_attempts
      then true
      else outlived now tx.pending_reference_since ttl

  abbrev direction_of : WagerTransactionKind → Option (WagerTransaction V) → Checked LedgerDirection
  direction_of WagerTransactionKind.rollback (some reference) = do
    d ← direction_alone reference.kind
    ok (opposite d)
  direction_of kind _ = direction_alone kind

  unfoldable pub ledger_direction_for :
      WagerTransaction V → Option (WagerTransaction V) → Checked LedgerDirection
  ledger_direction_for tx reference = direction_of tx.kind reference
