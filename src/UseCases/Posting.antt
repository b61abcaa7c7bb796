-- ===== src/UseCases/Posting.antt =====
-- What applying a transaction does to the wallet and the ledger:
-- `applyAcceptedTransaction` of src/application/use-cases/wager-processing.ts.
use jungle_challenge.Common.{
  ◌≡◌, ◌⊎◌, inl, inr, Bool, true, false, String, Option, none, ◌∷◌, ok, err, arith, ◌==◌,
  if◌then◌else◌, Result-cases, Bool-cases,
}
use jungle_challenge.Application.Action.{System, World}
use jungle_challenge.Application.Fault.{Fault, domain_fault}
use jungle_challenge.Application.Rules.{After, After-weaken}
use jungle_challenge.Errors.{Checked, DomainError}
use jungle_challenge.Money.Decimal.{Decimals}
use jungle_challenge.Persistence.Columns.{fits}
use jungle_challenge.Persistence.Laws.{SameBooks}
use jungle_challenge.Persistence.Repositories.{
  save_wallet, save_transaction, insert_entry, is_previous, overwrite_wallet,
}
use jungle_challenge.Persistence.Store.{Store}
use jungle_challenge.Persistence.Tables.{update_rows}
use jungle_challenge.UseCases.Processing.{
  ProcessingContext, Accepted, to_failure_code, event_context, record_loss, move_balance,
  apply_accepted_transaction,
}
use jungle_challenge.Wagering.State.{WagerTransaction}
use jungle_challenge.Wagering.Transaction.{
  affects_balance, requires_reference, ledger_direction_for, mark_processed,
}
use jungle_challenge.Wagering.Vocabulary.{LedgerDirection, kind_eq, direction_eq}
use jungle_challenge.Wallet.{Wallet, Movement, debit, credit}
use jungle_challenge.Wallet.Entry.{WalletLedgerEntry}

module _ {V : Type 0} ⦃D : Decimals V⦄ where
  -- The movement that a direction stands for.
  abbrev pub booking :
      LedgerDirection → Wallet V → Movement V → Bool → Checked (Wallet V × WalletLedgerEntry V)
  booking direction wallet movement reversal =
      if direction == LedgerDirection.debit
      then debit wallet movement reversal
      else credit wallet movement

  -- The wallet moved by the amount of the transaction, with one new entry of the ledger.
  pub record Posted (tx : WagerTransaction V) (reference : Option (WagerTransaction V))
      (wallet moved : Wallet V) (direction : LedgerDirection) (movement : Movement V)
      (entry : WalletLedgerEntry V) (s s' : Store V) : Type 0 where
    pub directed : ledger_direction_for tx reference ≡ ok direction
    pub amount : movement.amount ≡ tx.money
    pub transaction : movement.transaction_id ≡ tx.id
    pub booked : booking direction wallet movement (requires_reference tx) ≡ ok (moved, entry)
    pub balance_fits : fits moved.balance ≡ true
    pub money_fits : fits entry.money ≡ true
    pub wallets : s'.wallets ≡ update_rows (is_previous moved) (overwrite_wallet moved) s.wallets
    pub ledger : s'.ledger ≡ entry ∷ s.ledger

  -- A LOSS moves nothing; every other kind is posted.
  abbrev pub Settled :
      WagerTransaction V
      → Option (WagerTransaction V)
      → Wallet V
      → Wallet V
      → Store V
      → Store V
      → Type 0
  Settled tx reference wallet moved s s' =
      (affects_balance tx ≡ false) × (moved ≡ wallet) × SameBooks s s'
      ⊎ (affects_balance tx ≡ true)
        × (direction : LedgerDirection) × (movement : Movement V) × (entry : WalletLedgerEntry V)
        × Posted tx reference wallet moved direction movement entry s s'

  -- Where the error is one that rejects the transaction, nothing was written.
  abbrev pub Untouched : Store V → Fault → World V → Type 0
  Untouched s fault w = (to_failure_code fault ≡ none) ⊎ (w.store ≡ s)

  abbrev pub Applied :
      WagerTransaction V
      → Option (WagerTransaction V)
      → Wallet V
      → Store V
      → Accepted V
      → World V
      → Type 0
  Applied tx reference wallet s (moved, done, events) w =
      Settled tx reference wallet moved s w.store

  mark_processed-to_failure_code :
      (tx : WagerTransaction V) (r : Option String) (at : _) {x : DomainError}
      → mark_processed tx r at ≡ err x
      → to_failure_code (domain_fault x) ≡ none
  unfolding mark_processed
  mark_processed-to_failure_code tx r at e = ground arith

  module _ (sys : System) where
    record_loss-Applied :
        (wallet : Wallet V) (tx : WagerTransaction V) (reference : Option (WagerTransaction V))
        (ctx : ProcessingContext) (w : World V)
        → affects_balance tx ≡ false
        → After
            (Applied tx reference wallet w.store)
            (Untouched w.store)
            (record_loss sys wallet tx ctx w)
    unfolding record_loss event_context mark_processed save_transaction
    record_loss-Applied wallet tx reference ctx w none_moved = ground arith

    abbrev pub movement_of : WagerTransaction V → World V → Movement V
    movement_of tx w = record {
      transaction_id = tx.id;
      ledger_entry_id = sys.id_at w.drawn;
      amount = tx.money;
      at = sys.now;
    }

    move_balance-Posted :
        (wallet moved : Wallet V) (tx : WagerTransaction V)
        (reference : Option (WagerTransaction V)) (ctx : ProcessingContext) (w : World V)
        (direction : LedgerDirection) (entry : WalletLedgerEntry V)
        → ledger_direction_for tx reference ≡ ok direction
        → booking direction wallet (movement_of tx w) (requires_reference tx) ≡ ok (moved, entry)
        → After
            (λ a w'.
              (a.0 ≡ moved)
              × Posted tx reference wallet moved direction
                  (movement_of tx w)
                  entry
                  w.store
                  w'.store)
            (Untouched w.store)
            (move_balance sys wallet tx reference ctx w)
    unfolding move_balance event_context mark_processed save_transaction insert_entry save_wallet
    move_balance-Posted wallet moved tx reference ctx w direction entry d b = ground (arith, d, b)

    move_balance-Applied :
        (wallet : Wallet V) (tx : WagerTransaction V) (reference : Option (WagerTransaction V))
        (ctx : ProcessingContext) (w : World V)
        → affects_balance tx ≡ true
        → After
            (Applied tx reference wallet w.store)
            (Untouched w.store)
            (move_balance sys wallet tx reference ctx w)
    unfolding move_balance
    move_balance-Applied wallet tx reference ctx w moves =
        elim (Result-cases (ledger_direction_for tx reference)) [
          | inr (x, e) ↦ ground (arith, e)
          | inl (d, e) ↦
              elim (Result-cases (booking d wallet (movement_of tx w) (requires_reference tx))) [
                | inr (x, e') ↦ ground (arith, e, e')
                | inl ((moved, entry), e') ↦
                    After-weaken (λ a w' p. inr (moves, d, movement_of tx w, entry, rw (p.0) (p.1)))
                      (λ x w' q. q) (move_balance sys wallet tx reference ctx w)
                      (move_balance-Posted wallet moved tx reference ctx w d entry e e')
              ]
        ]

    -- Applying a LOSS moves nothing, and applying any other transaction posts it; where it fails with
    -- an error that rejects the transaction, nothing was written.
    pub apply_accepted_transaction-Applied :
        (wallet : Wallet V) (tx : WagerTransaction V) (reference : Option (WagerTransaction V))
        (ctx : ProcessingContext) (w : World V)
        → After
            (Applied tx reference wallet w.store)
            (Untouched w.store)
            (apply_accepted_transaction sys wallet tx reference ctx w)
    unfolding apply_accepted_transaction
    apply_accepted_transaction-Applied wallet tx reference ctx w =
        elim (Bool-cases (affects_balance tx)) [
          | inl e ↦ rw e (move_balance-Applied wallet tx reference ctx w e)
          | inr e ↦ rw e (record_loss-Applied wallet tx reference ctx w e)
        ]
