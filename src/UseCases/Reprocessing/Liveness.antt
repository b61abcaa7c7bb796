-- ===== src/UseCases/Reprocessing/Liveness.antt =====
-- A transaction that waits for its reference gets on: one round of
-- src/application/use-cases/reprocess-pending-references/reprocess-pending-references.use-case.ts.
use jungle_challenge.Common.{
  ℕ, suc, ◌≡◌, ◌<◌, refl, ◌∙◌, inl, inr, true, false, Option, none, some, ok, arith, Result-cases,
  Bool-cases,
}
use jungle_challenge.Application.Action.{System, World, Action, pure, reading, writing, ◌>>=◌}
use jungle_challenge.Application.Rules.{After, After-bind, After-weaken, After-writing, After-run}
use jungle_challenge.Money.Decimal.{Decimals}
use jungle_challenge.Persistence.Repositories.{find_transaction, save_transaction, insert_outbox}
use jungle_challenge.UseCases.Processing.{event_context}
use jungle_challenge.UseCases.Reprocessing.{
  PendingReferenceConfig, Outcome, give_up, retry_later, reprocess_with, reprocess_found,
  reprocess_one,
}
use jungle_challenge.UseCases.Reprocessing.Progress.{Advanced}
use jungle_challenge.UseCases.Reprocessing.Rows.{save_transaction-LeftAs}
use jungle_challenge.Wagering.State.{WagerTransaction}
use jungle_challenge.Wagering.Transaction.{
  is_processed, is_pending_reference, schedule_reference_retry, should_give_up_on_reference, reject,
}
use jungle_challenge.Wagering.Vocabulary.{FailureCode, WagerTransactionStatus, kind_eq, status_eq}
use jungle_challenge.UseCases.Reprocessing.Settling.{TakesOn, seen, reprocess_in-TakesOn}

module _ {V : Type 0} ⦃D : Decimals V⦄ (sys : System) (config : PendingReferenceConfig) where
  later_lem :
      (tx : WagerTransaction V) (now base : ℕ)
      → ((schedule_reference_retry tx now base).id ≡ tx.id)
        × ((schedule_reference_retry tx now base).status ≡ tx.status)
        × ((schedule_reference_retry tx now base).reference_attempts ≡ suc tx.reference_attempts)
  unfolding schedule_reference_retry
  later_lem tx now base = (refl, refl, omega arith)

  within_attempts :
      (tx : WagerTransaction V) (now max_attempts ttl : ℕ)
      → should_give_up_on_reference tx now max_attempts ttl ≡ false
      → tx.reference_attempts < max_attempts
  unfolding should_give_up_on_reference
  within_attempts tx now max_attempts ttl e = ground arith

  rejected-status :
      (tx : WagerTransaction V) (code : FailureCode) {done : WagerTransaction V}
      → reject tx code ≡ ok done
      → (done.id ≡ tx.id) × (done.status ≡ WagerTransactionStatus.rejected)
  unfolding reject
  rejected-status tx code e = ground arith

  give_up-TakesOn :
      (tx later : WagerTransaction V) (w : World V)
      → find_transaction tx.id w.store ≡ some tx
      → later.id ≡ tx.id
      → TakesOn sys config tx (give_up sys later) w
  unfolding give_up event_context insert_outbox find_transaction
  give_up-TakesOn tx later w h i =
      elim (Result-cases (reject later FailureCode.reference_not_found)) [
        | inr (x, e) ↦ ground (arith, e)
        | inl (done, e) ↦
            let (i', st) = rejected-status later FailureCode.reference_not_found e in
            elim (Result-cases (save_transaction done w.store)) [
              | inr (x, e') ↦ ground (arith, e, e')
              | inl (s, e') ↦
                  let left = save_transaction-LeftAs done tx w.store h (i' ∙ i) e' in
                  let on = seen sys config tx Outcome.rejected left (inl st) in
                  ground (arith, e, e', on)
            ]
      ]

  retry_later-TakesOn :
      (tx : WagerTransaction V) (w : World V)
      → find_transaction tx.id w.store ≡ some tx
      → tx.status ≡ WagerTransactionStatus.pending_reference
      → TakesOn sys config tx (retry_later sys config tx) w
  unfolding retry_later
  retry_later-TakesOn tx w h pending =
      let later = schedule_reference_retry tx sys.now config.base_backoff_ms in
      let (i, st, attempts) = later_lem tx sys.now config.base_backoff_ms in
      elim (Bool-cases
        (should_give_up_on_reference later sys.now config.max_attempts config.ttl_ms)) [
          | inl over ↦ rw (retry_later, over) (give_up-TakesOn tx later w h i)
          | inr on ↦
              rw (retry_later, on)
                (After-bind _ _ (writing (save_transaction later)) (λ _. pure Outcome.retried) w
                  (After-writing _ _ (save_transaction later) w
                    (λ s e.
                      seen sys config tx Outcome.retried
                        (save_transaction-LeftAs later tx w.store h i e)
                        (
                          st ∙ pending,
                          attempts,
                          within_attempts later sys.now config.max_attempts config.ttl_ms on,
                        ))
                    (λ _ _. tt)))
        ]

  reprocess_with-TakesOn :
      (tx : WagerTransaction V) (found : Option (WagerTransaction V)) (w : World V)
      → find_transaction tx.id w.store ≡ some tx
      → tx.status ≡ WagerTransactionStatus.pending_reference
      → TakesOn sys config tx (reprocess_with sys config tx found) w
  reprocess_with-TakesOn tx none w h pending = retry_later-TakesOn tx w h pending
  reprocess_with-TakesOn tx (some reference) w h pending =
      elim (Bool-cases (is_processed reference)) [
        | inr early ↦ rw early (retry_later-TakesOn tx w h pending)
        | inl done ↦ rw done (reprocess_in-TakesOn sys config tx reference _ w h)
      ]

  pub pending_lem :
      (tx : WagerTransaction V)
      → tx.status ≡ WagerTransactionStatus.pending_reference
      → is_pending_reference tx ≡ true
  unfolding is_pending_reference
  pending_lem tx e = rw e refl

  reprocess_found-TakesOn :
      (tx : WagerTransaction V) (found : Option (WagerTransaction V)) (w : World V)
      → found ≡ some tx
      → find_transaction tx.id w.store ≡ some tx
      → tx.status ≡ WagerTransactionStatus.pending_reference
      → TakesOn sys config tx (reprocess_found sys config found) w
  reprocess_found-TakesOn tx found w f h pending =
      rw f (rw (pending_lem tx pending) (reprocess_with-TakesOn tx _ w h pending))

  -- A round takes a transaction that waits for its reference on, unless it throws and leaves the store as it was:
  -- then the row is processed, or rejected or failed, or it waits with one attempt more, below `max_attempts`.
  -- The round is never skipped and the row never lost.
  pub reprocess_one-Advanced :
      (tx : WagerTransaction V) (w : World V)
      → find_transaction tx.id w.store ≡ some tx
      → tx.status ≡ WagerTransactionStatus.pending_reference
      → After
          (λ o w'. Advanced config tx o (find_transaction tx.id w'.store))
          (λ _ w'. w'.store ≡ w.store)
          (reprocess_one sys config tx.id w)
  unfolding reprocess_one
  reprocess_one-Advanced tx w h pending =
      let body : Action V Outcome =
        reading (find_transaction tx.id) >>= reprocess_found sys config in
      After-run _ _ body w (
        After-weaken (λ _ _ a. a) (λ _ _ _. refl) (body w)
          (reprocess_found-TakesOn tx (find_transaction tx.id w.store) w h h pending))
