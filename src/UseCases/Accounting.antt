-- ===== src/UseCases/Accounting.antt =====
-- What one call of `execute` may do to the wallets and the ledger:
-- src/application/use-cases/process-wager-transaction/process-wager-transaction.use-case.ts.
pub mod Settling
use jungle_challenge.Common.{
  ◌≡◌, refl, true, false, ok, sym, ◌∙◌, ◌⊎◌, inl, inr, Option, none, some, List, [], ◌∷◌, err,
  arith, Result, Bool-cases, Option-cases, map,
}
use jungle_challenge.Application.Action.{System, World, pure, writing, ◌>>◌}
use jungle_challenge.Application.Fault.{Fault}
use jungle_challenge.Application.Rules.{
  After, After-bind, After-attempt, After-writing, After-weaken,
}
use jungle_challenge.Messaging.Outbox.{OutboxMessage, enqueue}
use jungle_challenge.Money.Decimal.{Decimals}
use jungle_challenge.Persistence.Laws.{SameBooks, SameBooks-trans, insert_many_outbox-SameBooks}
use jungle_challenge.Persistence.Repositories.{
  insert_outbox, insert_many_outbox, save_transaction, find_active_reversal_of,
  find_by_provider_and_external_id,
}
use jungle_challenge.Persistence.Store.{Store}
use jungle_challenge.UseCases.Command.{
  ProcessWagerTransactionCommand, ProcessWagerTransactionResult, context_of, persisted_result,
  required,
}
use jungle_challenge.UseCases.Posting.{
  Posted, Settled, Untouched, apply_accepted_transaction-Applied,
}
use jungle_challenge.UseCases.Processing.{
  ProcessingContext, apply_and_enqueue, validate_reference_match, to_failure_code, event_context,
  apply_accepted_transaction, reject_transaction,
}
use jungle_challenge.UseCases.Settlement.{
  await_reference, reject_with, rejection, is_taken, settle, settle_reversal, resolve_with,
  resolve_reference, resolve_and_settle,
}
use jungle_challenge.Wagering.State.{WagerTransaction}
use jungle_challenge.Wagering.Transaction.{
  mark_pending_reference, reject, requires_reference, is_processed, ledger_direction_for,
}
use jungle_challenge.Wagering.Vocabulary.{FailureCode, LedgerDirection, kind_eq}
use jungle_challenge.Wallet.{Wallet, Movement}
use jungle_challenge.Wallet.Entry.{WalletLedgerEntry}

-- What is known of the reference and the direction of a posting.
abbrev pub Reason : Type 0 → Type 1
Reason V = Option (WagerTransaction V) → LedgerDirection → Type 0

-- Nothing is asked of them.
abbrev pub Anyhow : (V : Type 0) → Reason V
Anyhow V reference direction = Unit {0}

module _ {V : Type 0} ⦃D : Decimals V⦄ where
  -- Nothing is known where an error is thrown: it rolls the call back.
  abbrev pub Anything : Fault → World V → Type 0
  Anything _ _ = Unit {0}

  -- At most one posting of `tx` on `wallet`, as `P` says, and nothing else.
  abbrev pub Effect : Reason V → Wallet V → WagerTransaction V → Store V → Store V → Type 0
  Effect P wallet tx s s' =
      SameBooks s s'
      ⊎ (reference : Option (WagerTransaction V)) × (moved : Wallet V)
        × (direction : LedgerDirection) × (movement : Movement V) × (entry : WalletLedgerEntry V)
        × Posted tx reference wallet moved direction movement entry s s'
        × P reference direction

  Settled-Effect :
      {tx : WagerTransaction V} {reference : Option (WagerTransaction V)} {wallet moved : Wallet V}
      {s t u : Store V} (P : Reason V)
      → ((d : LedgerDirection) → ledger_direction_for tx reference ≡ ok d → P reference d)
      → Settled tx reference wallet moved s t
      → SameBooks t u
      → Effect P wallet tx s u
  Settled-Effect P k (inl (_, _, same)) b = inl (SameBooks-trans same b)
  Settled-Effect {reference = reference} {moved = moved} P k (inr (_, d, m, e, p)) b = inr (
    reference,
    moved,
    d,
    m,
    e,
    record {
      directed = p.directed;
      amount = p.amount;
      transaction = p.transaction;
      booked = p.booked;
      balance_fits = p.balance_fits;
      money_fits = p.money_fits;
      wallets = b.wallets ∙ p.wallets;
      ledger = b.ledger ∙ p.ledger;
    },
    k d (p.directed),
  )

  pub SameBooks-Effect :
      (P : Reason V) {tx : WagerTransaction V} {wallet : Wallet V} {s t u : Store V}
      → SameBooks s t
      → Effect P wallet tx t u
      → Effect P wallet tx s u
  SameBooks-Effect P b (inl same) = inl (SameBooks-trans b same)
  SameBooks-Effect P b (inr (r, moved, d, m, e, p, q)) = inr (
    r,
    moved,
    d,
    m,
    e,
    record {
      directed = p.directed;
      amount = p.amount;
      transaction = p.transaction;
      booked = p.booked;
      balance_fits = p.balance_fits;
      money_fits = p.money_fits;
      wallets = rw (sym (b.wallets)) (p.wallets);
      ledger = rw (sym (b.ledger)) (p.ledger);
    },
    q,
  )

  pub insert_many_outbox-to_failure_code :
      (ms : List OutboxMessage) (s : Store V) {x : Fault}
      → insert_many_outbox ms s ≡ err x
      → to_failure_code x ≡ none
  unfolding insert_many_outbox insert_outbox
  insert_many_outbox-to_failure_code [] s e = ground arith
  insert_many_outbox-to_failure_code (m ∷ ms) s {x} e =
      ground
        (arith, insert_many_outbox-to_failure_code ms (record s { outbox = m ∷ s.outbox }) {x = x})

  module _ (sys : System) where
    -- Applying a transaction posts it; an error that rejects it comes before any write.
    pub apply_and_enqueue-Effect :
        (wallet : Wallet V) (tx : WagerTransaction V) (reference : Option (WagerTransaction V))
        (ctx : ProcessingContext) (w : World V) (P : Reason V)
        → ((d : LedgerDirection) → ledger_direction_for tx reference ≡ ok d → P reference d)
        → After
            (λ _ w'. Effect P wallet tx w.store w'.store)
            (Untouched w.store)
            (apply_and_enqueue sys wallet tx reference ctx w)
    unfolding apply_and_enqueue
    apply_and_enqueue-Effect wallet tx reference ctx w P k =
        After-bind _ _ (apply_accepted_transaction sys wallet tx reference ctx)
          (λ (moved, done, events).
            writing (insert_many_outbox (map enqueue events)) >> pure (moved, done, events))
          w
          (After-weaken
            (λ (moved, done, events) w' settled.
              After-bind _ _ (writing (insert_many_outbox (map enqueue events)))
                (λ _. pure (moved, done, events)) w'
                (After-writing _ _ (insert_many_outbox (map enqueue events)) w'
                  (λ s e. Settled-Effect P k settled (insert_many_outbox-SameBooks _ w'.store e))
                  (λ x e. inl (insert_many_outbox-to_failure_code _ w'.store e))))
            (λ x w' u. u) (apply_accepted_transaction sys wallet tx reference ctx w)
            (apply_accepted_transaction-Applied sys wallet tx reference ctx w))

    pub reject_transaction-SameBooks :
        (wallet : Wallet V) (tx : WagerTransaction V) (code : FailureCode) (ctx : ProcessingContext)
        (w : World V)
        → After
            (λ _ w'. SameBooks w.store w'.store)
            Anything
            (reject_transaction sys wallet tx code ctx w)
    unfolding reject_transaction event_context reject save_transaction insert_outbox
    reject_transaction-SameBooks wallet tx code ctx w = ground arith
