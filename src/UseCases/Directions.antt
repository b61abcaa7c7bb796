-- ===== src/UseCases/Directions.antt =====
-- In which direction a posting moves the wallet, and which transaction it refers to: the reference of
-- src/application/use-cases/process-wager-transaction/process-wager-transaction.use-case.ts and `ledgerDirectionFor` of
-- src/domain/wagering/wager-transaction.ts.
use jungle_challenge.Common.{◌≡◌, ◌≢◌, Bool, true, false, Option, none, some, List, ◌∷◌, ok, arith}
use jungle_challenge.Money.Decimal.{Decimals}
use jungle_challenge.Persistence.Tables.{find_row}
use jungle_challenge.UseCases.Processing.{validate_reference_match}
use jungle_challenge.Wagering.State.{WagerTransaction}
use jungle_challenge.Wagering.Transaction.{requires_reference, ledger_direction_for, is_processed}
use jungle_challenge.Wagering.Vocabulary.{
  LedgerDirection, WagerTransactionKind, WagerTransactionStatus, kind_eq, status_eq,
}

-- A bet is debited and a win credited; a refund gives a bet back; a rollback gives a bet back and takes
-- a win or a refund back. Nothing else moves a wallet.
abbrev pub Moves : WagerTransactionKind → Option WagerTransactionKind → LedgerDirection → Type 0
Moves WagerTransactionKind.bet none d = d ≡ LedgerDirection.debit
Moves WagerTransactionKind.win none d = d ≡ LedgerDirection.credit
Moves WagerTransactionKind.refund (some WagerTransactionKind.bet) d = d ≡ LedgerDirection.credit
Moves WagerTransactionKind.rollback (some WagerTransactionKind.bet) d = d ≡ LedgerDirection.credit
Moves WagerTransactionKind.rollback (some WagerTransactionKind.win) d = d ≡ LedgerDirection.debit
Moves WagerTransactionKind.rollback (some WagerTransactionKind.refund) d = d ≡ LedgerDirection.debit
Moves _ _ d = ⊥

module _ {V : Type 0} ⦃D : Decimals V⦄ where
  pub Moves-alone :
      (tx : WagerTransaction V) (d : LedgerDirection)
      → tx.kind ≢ WagerTransactionKind.opening
      → requires_reference tx ≡ false
      → ledger_direction_for tx none ≡ ok d
      → Moves tx.kind none d
  unfolding requires_reference ledger_direction_for
  Moves-alone tx d plays alone directed = ground (arith, plays, alone, directed)

  pub Moves-reversal :
      (tx reference : WagerTransaction V) (d : LedgerDirection)
      → requires_reference tx ≡ true
      → validate_reference_match tx reference ≡ none
      → ledger_direction_for tx (some reference) ≡ ok d
      → Moves tx.kind (some reference.kind) d
  unfolding requires_reference ledger_direction_for validate_reference_match
  Moves-reversal tx reference d reversal matched directed =
      ground (arith, reversal, matched, directed)

  -- A processed row is found behind a row that is not processed.
  pub find_row_behind :
      (p : WagerTransaction V → Bool) (tx r : WagerTransaction V) (ts : List (WagerTransaction V))
      → tx.status ≡ WagerTransactionStatus.pending
      → is_processed r ≡ true
      → find_row p (tx ∷ ts) ≡ some r
      → find_row p ts ≡ some r
  unfolding is_processed
  find_row_behind p tx r ts pending processed f = ground (arith, pending, processed, f)
