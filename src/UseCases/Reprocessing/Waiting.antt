-- ===== src/UseCases/Reprocessing/Waiting.antt =====
-- A round of a transaction whose reference is still missing:
-- src/application/use-cases/reprocess-pending-references/reprocess-pending-references.use-case.ts.
use jungle_challenge.Common.{
  ◌≡◌, ◌⊎◌, refl, ◌∙◌, ap, inl, inr, true, false, not, Option, none, some, ok, arith, Bool-cases,
  Option-cases, List, [], ◌∷◌, ◌==◌, string_eq, ◌&&◌,
}
use jungle_challenge.Application.Action.{System, World, Action, reading, ◌>>=◌}
use jungle_challenge.Application.Fault.{Fault}
use jungle_challenge.Application.Rules.{After, After-weaken, After-both, After-run}
use jungle_challenge.Messaging.Event.{rejected_event, envelope_of}
use jungle_challenge.Messaging.Outbox.{enqueue}
use jungle_challenge.Money.Decimal.{Decimals}
use jungle_challenge.Persistence.Columns.{fits_nullable}
use jungle_challenge.Persistence.Repositories.{
  find_transaction, find_by_provider_and_external_id, is_rival, save_transaction, insert_outbox,
}
use jungle_challenge.Persistence.Store.{Store}
use jungle_challenge.Persistence.Tables.{has_row}
use jungle_challenge.UseCases.Command.{required}
use jungle_challenge.UseCases.Processing.{event_context}
use jungle_challenge.UseCases.Reprocessing.{
  PendingReferenceConfig, Outcome, give_up, retry_later, reprocess_with, reprocess_found,
  reprocess_one,
}
use jungle_challenge.UseCases.Reprocessing.Liveness.{pending_lem, reprocess_one-Advanced}
use jungle_challenge.UseCases.Reprocessing.Progress.{Advanced}
use jungle_challenge.Wagering.State.{WagerTransaction}
use jungle_challenge.Wagering.Transaction.{
  is_processed, schedule_reference_retry, should_give_up_on_reference, reject,
}
use jungle_challenge.Wagering.Vocabulary.{FailureCode, WagerTransactionStatus, kind_eq, status_eq}

-- No error is thrown.
abbrev pub Never : {V : Type 0} → Fault → World V → Type 0
Never _ _ = ⊥

-- `reference` is not there, or not processed.
abbrev pub Unready : {V : Type 0} → Option (WagerTransaction V) → Type 0
Unready none = Unit {0}
Unready (some reference) = is_processed reference ≡ false

module _ {V : Type 0} ⦃D : Decimals V⦄ where
  unrelated :
      (tx : WagerTransaction V) (ts : List (WagerTransaction V))
      → tx.reference_transaction_id ≡ none
      → has_row (λ t. not (t.id == tx.id) && is_rival tx t) ts ≡ false
  unrelated tx [] e = refl
  unrelated tx (t ∷ ts) e = elim (Option-cases (t.reference_transaction_id)) [
    | inl n ↦ ground (arith, unrelated tx ts e)
    | inr (r, n) ↦ ground (arith, unrelated tx ts e)
  ]

  saves :
      (tx : WagerTransaction V) (s : Store V)
      → tx.reference_transaction_id ≡ none
      → fits_nullable tx.observed_balance ≡ true
      → (s' : Store V) × (save_transaction tx s ≡ ok s') × (s'.outbox ≡ s.outbox)
  unfolding save_transaction
  saves tx s e f = rw f (rw (unrelated tx s.transactions e) (_, refl, refl))

module _ {V : Type 0} ⦃D : Decimals V⦄ (sys : System) (config : PendingReferenceConfig) where
  -- The next id is not one of the outbox.
  abbrev pub NextIsNew : World V → Type 0
  NextIsNew w = has_row (λ m. m.id == sys.id_at w.drawn) w.store.outbox ≡ false

  -- It throws nothing, and ends the wait or prolongs it.
  abbrev Returns : Action V Outcome → World V → Type 0
  Returns m w = After (λ o _. (o ≡ Outcome.retried) ⊎ (o ≡ Outcome.rejected)) Never (m w)

  rejects :
      (tx : WagerTransaction V) (code : FailureCode)
      → tx.status ≡ WagerTransactionStatus.pending_reference
      → (done : WagerTransaction V) × (reject tx code ≡ ok done)
        × (done.reference_transaction_id ≡ tx.reference_transaction_id)
        × (done.observed_balance ≡ tx.observed_balance)
  unfolding reject
  rejects tx code e = rw e (_, refl, refl, refl)

  give_up_ok :
      (later : WagerTransaction V) (w : World V)
      → later.status ≡ WagerTransactionStatus.pending_reference
      → later.reference_transaction_id ≡ none
      → fits_nullable later.observed_balance ≡ true
      → NextIsNew w
      → Returns (give_up sys later) w
  unfolding give_up event_context insert_outbox rejected_event enqueue envelope_of
  give_up_ok later w st r f fresh =
      let (done, e, re, oe) = rejects later FailureCode.reference_not_found st in
      let (s, e', same) = saves done w.store (re ∙ r) (ap fits_nullable oe ∙ f) in
      let unused : has_row (λ m. m.id == sys.id_at w.drawn) s.outbox ≡ false = rw same fresh in
      ground (arith, e, e', unused)

  retry_later-Returns :
      (tx : WagerTransaction V) (w : World V)
      → tx.status ≡ WagerTransactionStatus.pending_reference
      → tx.reference_transaction_id ≡ none
      → fits_nullable tx.observed_balance ≡ true
      → NextIsNew w
      → Returns (retry_later sys config tx) w
  unfolding retry_later schedule_reference_retry
  retry_later-Returns tx w st r f fresh =
      let later = schedule_reference_retry tx sys.now config.base_backoff_ms in
      elim (Bool-cases
        (should_give_up_on_reference later sys.now config.max_attempts config.ttl_ms)) [
          | inl over ↦ rw (retry_later, over) (give_up_ok later w st r f fresh)
          | inr on ↦
              let (s, e, _) = saves later w.store r f in rw (retry_later, on) (ground (arith, e))
        ]

  reprocess_with-Returns :
      (tx : WagerTransaction V) (found : Option (WagerTransaction V)) (w : World V)
      → Unready found
      → tx.status ≡ WagerTransactionStatus.pending_reference
      → tx.reference_transaction_id ≡ none
      → fits_nullable tx.observed_balance ≡ true
      → NextIsNew w
      → Returns (reprocess_with sys config tx found) w
  reprocess_with-Returns tx none w u st r f fresh = retry_later-Returns tx w st r f fresh
  reprocess_with-Returns tx (some reference) w u st r f fresh =
      rw u (retry_later-Returns tx w st r f fresh)

  reprocess_found-Returns :
      (tx : WagerTransaction V) (found : Option (WagerTransaction V)) (w : World V)
      → found ≡ some tx
      → Unready (
          find_by_provider_and_external_id tx.provider_id
            (required tx.reference_external_transaction_id)
            w.store)
      → tx.status ≡ WagerTransactionStatus.pending_reference
      → tx.reference_transaction_id ≡ none
      → fits_nullable tx.observed_balance ≡ true
      → NextIsNew w
      → Returns (reprocess_found sys config found) w
  reprocess_found-Returns tx found w e u st r f fresh =
      rw e (rw (pending_lem sys config tx st) (reprocess_with-Returns tx _ w u st r f fresh))

  reprocess_one-Returns :
      (tx : WagerTransaction V) (w : World V)
      → find_transaction tx.id w.store ≡ some tx
      → Unready (
          find_by_provider_and_external_id tx.provider_id
            (required tx.reference_external_transaction_id)
            w.store)
      → tx.status ≡ WagerTransactionStatus.pending_reference
      → tx.reference_transaction_id ≡ none
      → fits_nullable tx.observed_balance ≡ true
      → NextIsNew w
      → Returns (reprocess_one sys config tx.id) w
  unfolding reprocess_one
  reprocess_one-Returns tx w h u st r f fresh =
      let body : Action V Outcome =
        reading (find_transaction tx.id) >>= reprocess_found sys config in
      After-run _ _ body w (
        After-weaken (λ _ _ o. o) (λ _ _ never. never) (body w)
          (reprocess_found-Returns tx (find_transaction tx.id w.store) w h u st r f fresh))

  -- For a transaction that waits for its reference, with no reference resolved and an observed balance, if any,
  -- that fits its columns: where the reference is not there or not processed, and the next id is not yet one of
  -- the outbox, a round throws nothing. It answers that it retries, and the row still waits with one attempt more,
  -- below `max_attempts`; or that it rejects, and the row is rejected or failed.
  pub reprocess_one-Waited :
      (tx : WagerTransaction V) (w : World V)
      → find_transaction tx.id w.store ≡ some tx
      → Unready (
          find_by_provider_and_external_id tx.provider_id
            (required tx.reference_external_transaction_id)
            w.store)
      → tx.status ≡ WagerTransactionStatus.pending_reference
      → tx.reference_transaction_id ≡ none
      → fits_nullable tx.observed_balance ≡ true
      → NextIsNew w
      → After
          (λ o w'.
            Advanced config tx o (find_transaction tx.id w'.store)
            × ((o ≡ Outcome.retried) ⊎ (o ≡ Outcome.rejected)))
          Never
          (reprocess_one sys config tx.id w)
  reprocess_one-Waited tx w h u st r f fresh =
      After-weaken (λ _ _ both. both) (λ _ _ (_, never). never) (reprocess_one sys config tx.id w)
        (After-both _ _ _ _ (reprocess_one sys config tx.id w)
          (reprocess_one-Advanced sys config tx w h st)
          (reprocess_one-Returns tx w h u st r f fresh))
