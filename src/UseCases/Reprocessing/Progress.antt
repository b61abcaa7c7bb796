-- ===== src/UseCases/Reprocessing/Progress.antt =====
-- Every transaction that waits for its reference gets on: what one round of
-- src/application/use-cases/reprocess-pending-references does to its row.
use jungle_challenge.Common.{
  suc, ◌≡◌, ◌<◌, ◌⊎◌, ◌∙◌, inl, inr, Option, none, some, ok, arith, Result-cases, Bool-cases, map,
}
use jungle_challenge.Application.Action.{System, World, pure, writing, ◌>>◌}
use jungle_challenge.Application.Rules.{After, After-bind, After-weaken, After-writing}
use jungle_challenge.Messaging.Outbox.{enqueue}
use jungle_challenge.Money.{Money}
use jungle_challenge.Money.Decimal.{Decimals}
use jungle_challenge.Persistence.Repositories.{
  find_transaction, save_transaction, insert_outbox, insert_many_outbox,
}
use jungle_challenge.Persistence.Store.{Store}
use jungle_challenge.UseCases.Accounting.{Anything}
use jungle_challenge.UseCases.Processing.{
  ProcessingContext, event_context, reject_transaction, apply_accepted_transaction,
  apply_and_enqueue,
}
use jungle_challenge.UseCases.Reprocessing.{PendingReferenceConfig, Outcome}
use jungle_challenge.UseCases.Reprocessing.Rows.{
  LeftAs, save_transaction-LeftAs, find_transaction-kept, insert_many_outbox-kept,
  record_loss-LeftAs, move_balance-LeftAs,
}
use jungle_challenge.Wagering.State.{WagerTransaction}
use jungle_challenge.Wagering.Transaction.{reject, affects_balance, record_observed_balance}
use jungle_challenge.Wagering.Vocabulary.{FailureCode, WagerTransactionStatus, kind_eq, status_eq}
use jungle_challenge.Wallet.{Wallet}

module _ {V : Type 0} ⦃D : Decimals V⦄ where
  -- What the row of `tx` became, by the outcome: processed; rejected or failed; or it waits on, with one
  -- attempt more, which is less than all.
  abbrev pub Advanced :
      PendingReferenceConfig → WagerTransaction V → Outcome → Option (WagerTransaction V) → Type 0
  Advanced config tx outcome none = ⊥
  Advanced config tx Outcome.processed (some t) = t.status ≡ WagerTransactionStatus.processed
  Advanced config tx Outcome.rejected (some t) =
      (t.status ≡ WagerTransactionStatus.rejected) ⊎ (t.status ≡ WagerTransactionStatus.failed)
  Advanced config tx Outcome.retried (some t) =
      (t.status ≡ WagerTransactionStatus.pending_reference)
      × (t.reference_attempts ≡ suc tx.reference_attempts)
      × (t.reference_attempts < config.max_attempts)
  Advanced config tx Outcome.skipped (some t) = ⊥

  reject-status :
      (tx : WagerTransaction V) (code : FailureCode) (balance : Money V) {done : WagerTransaction V}
      → reject tx code ≡ ok done
      → ((record_observed_balance done balance).id ≡ tx.id)
        × ((record_observed_balance done balance).status ≡ WagerTransactionStatus.rejected)
  unfolding reject record_observed_balance
  reject-status tx code balance e = ground arith

  insert_outbox-kept :
      (m : jungle_challenge.Messaging.Outbox.OutboxMessage) (s : Store V) {s' : Store V}
      → insert_outbox m s ≡ ok s'
      → s'.transactions ≡ s.transactions
  unfolding insert_outbox
  insert_outbox-kept m s e = ground arith

  module _ (sys : System) (ctx : ProcessingContext) where
    apply_accepted_transaction-LeftAs :
        (wallet : Wallet V) (tx : WagerTransaction V) (reference : Option (WagerTransaction V))
        (w : World V)
        → find_transaction tx.id w.store ≡ some tx
        → After
            (λ a w'. ((a.1).status ≡ WagerTransactionStatus.processed) × LeftAs tx (a.1) w'.store)
            Anything
            (apply_accepted_transaction sys wallet tx reference ctx w)
    unfolding apply_accepted_transaction
    apply_accepted_transaction-LeftAs wallet tx reference w h =
        elim (Bool-cases (affects_balance tx)) [
          | inl e ↦ rw e (move_balance-LeftAs sys ctx wallet tx reference w h)
          | inr e ↦ rw e (record_loss-LeftAs sys ctx wallet tx w h)
        ]

    pub apply_and_enqueue-LeftAs :
        (wallet : Wallet V) (tx : WagerTransaction V) (reference : Option (WagerTransaction V))
        (w : World V)
        → find_transaction tx.id w.store ≡ some tx
        → After
            (λ a w'. ((a.1).status ≡ WagerTransactionStatus.processed) × LeftAs tx (a.1) w'.store)
            Anything
            (apply_and_enqueue sys wallet tx reference ctx w)
    unfolding apply_and_enqueue
    apply_and_enqueue-LeftAs wallet tx reference w h =
        let apply = apply_accepted_transaction sys wallet tx reference ctx in
        After-bind _ _ apply
          (λ (moved, done, events).
            writing (insert_many_outbox (map enqueue events)) >> pure (moved, done, events))
          w
          (After-weaken
            (λ (moved, done, events) w' (st, left).
              After-bind _ _ (writing (insert_many_outbox (map enqueue events)))
                (λ _. pure (moved, done, events)) w'
                (After-writing _ _ (insert_many_outbox (map enqueue events)) w'
                  (λ s e. (
                    st,
                    find_transaction-kept tx.id w'.store s (insert_many_outbox-kept _ w'.store e)
                        ∙ left,
                  ))
                  (λ x e. tt)))
            (λ x w' u. tt) (apply w) (apply_accepted_transaction-LeftAs wallet tx reference w h))

    pub reject_transaction-LeftAs :
        (wallet : Wallet V) (tx : WagerTransaction V) (code : FailureCode) (w : World V)
        → find_transaction tx.id w.store ≡ some tx
        → After
            (λ done w'. (done.status ≡ WagerTransactionStatus.rejected) × LeftAs tx done w'.store)
            Anything
            (reject_transaction sys wallet tx code ctx w)
    unfolding reject_transaction event_context insert_outbox find_transaction
    reject_transaction-LeftAs wallet tx code w h = elim (Result-cases (reject tx code)) [
      | inr (x, e) ↦ ground (arith, e)
      | inl (rejected, e) ↦
          let done = record_observed_balance rejected wallet.balance in
          let (i, st) = reject-status tx code wallet.balance e in
          elim (Result-cases (save_transaction done w.store)) [
            | inr (x, e') ↦ ground (arith, e, e')
            | inl (s, e') ↦
                let left = save_transaction-LeftAs done tx w.store h i e' in
                ground (arith, e, e', left, st)
          ]
    ]
