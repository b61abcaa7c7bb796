-- ===== src/UseCases/Recording/Settling.antt =====
-- The row that settling a transaction leaves: the steps of UseCases/Settlement.
use jungle_challenge.Common.{
  ℕ, ◌≡◌, ◌∙◌, ◌⊎◌, inl, inr, Option, none, some, List, [], ◌∷◌, ok, arith, Result-cases,
  Bool-cases, Option-cases, map,
}
use jungle_challenge.Application.Action.{System, World, pure, writing, ◌>>◌}
use jungle_challenge.Application.Fault.{Fault}
use jungle_challenge.Application.Rules.{
  After, After-bind, After-attempt, After-writing, After-weaken, After-both,
}
use jungle_challenge.Messaging.Outbox.{OutboxMessage, enqueue}
use jungle_challenge.Money.Decimal.{Decimals}
use jungle_challenge.Persistence.Repositories.{
  save_transaction, insert_outbox, insert_many_outbox, find_active_reversal_of,
}
use jungle_challenge.Persistence.Store.{Store}
use jungle_challenge.UseCases.Accounting.{Anything, insert_many_outbox-to_failure_code}
use jungle_challenge.UseCases.Command.{ProcessWagerTransactionCommand, context_of, persisted_result}
use jungle_challenge.UseCases.Posting.{Untouched, apply_accepted_transaction-Applied}
use jungle_challenge.UseCases.Processing.{
  apply_and_enqueue, to_failure_code, event_context, validate_reference_match,
  apply_accepted_transaction, reject_transaction,
}
use jungle_challenge.UseCases.Recording.{
  Recorded, IsNew, Saved, Continues, save_transaction-first, told-Recorded,
  reject_transaction-Saved, record_loss-Saved, move_balance-Saved,
}
use jungle_challenge.UseCases.Settlement.{
  await_reference, reject_with, rejection, is_taken, settle, settle_reversal, resolve_with,
  resolve_reference, resolve_and_settle,
}
use jungle_challenge.Wagering.State.{WagerTransaction}
use jungle_challenge.Wagering.Transaction.{
  affects_balance, mark_pending_reference, requires_reference, is_processed,
}
use jungle_challenge.Wagering.Vocabulary.{FailureCode, kind_eq}
use jungle_challenge.Wallet.{Wallet}

module _ {V : Type 0} ⦃D : Decimals V⦄ where
  insert_many_outbox-transactions :
      (ms : List OutboxMessage) (s : Store V) {s' : Store V}
      → insert_many_outbox ms s ≡ ok s'
      → s'.transactions ≡ s.transactions
  unfolding insert_many_outbox insert_outbox
  insert_many_outbox-transactions [] s e = ground arith
  insert_many_outbox-transactions (m ∷ ms) s {s'} e =
      ground
        (arith, insert_many_outbox-transactions ms (record s { outbox = m ∷ s.outbox }) {s' = s'})

  mark_pending_reference-Continues :
      (tx : WagerTransaction V) (now : ℕ) {done : WagerTransaction V}
      → mark_pending_reference tx (some now) ≡ ok done
      → Continues tx done × (done.failure_code ≡ tx.failure_code)
  unfolding mark_pending_reference
  mark_pending_reference-Continues tx now e = ground arith

  module _ (sys : System) (command : ProcessWagerTransactionCommand) where
    apply_accepted_transaction-Saved :
        (wallet : Wallet V) (tx : WagerTransaction V) (reference : Option (WagerTransaction V))
        (ts : List (WagerTransaction V)) (w : World V)
        → w.store.transactions ≡ tx ∷ ts
        → IsNew tx ts
        → After
            (λ a w'. Saved tx (a.1) ts w'.store)
            Anything
            (apply_accepted_transaction sys wallet tx reference (context_of command) w)
    unfolding apply_accepted_transaction
    apply_accepted_transaction-Saved wallet tx reference ts w h new =
        elim (Bool-cases (affects_balance tx)) [
          | inl e ↦ rw e (move_balance-Saved sys command wallet tx reference ts w h new)
          | inr e ↦ rw e (record_loss-Saved sys command wallet tx ts w h new)
        ]

    apply_and_enqueue-Saved :
        (wallet : Wallet V) (tx : WagerTransaction V) (reference : Option (WagerTransaction V))
        (ts : List (WagerTransaction V)) (w : World V)
        → w.store.transactions ≡ tx ∷ ts
        → IsNew tx ts
        → After
            (λ a w'. Saved tx (a.1) ts w'.store)
            (Untouched w.store)
            (apply_and_enqueue sys wallet tx reference (context_of command) w)
    unfolding apply_and_enqueue
    apply_and_enqueue-Saved wallet tx reference ts w h new =
        let apply = apply_accepted_transaction sys wallet tx reference (context_of command) in
        After-bind _ _ apply
          (λ (moved, done, events).
            writing (insert_many_outbox (map enqueue events)) >> pure (moved, done, events))
          w
          (After-weaken
            (λ (moved, done, events) w' (c, head).
              After-bind _ _ (writing (insert_many_outbox (map enqueue events)))
                (λ _. pure (moved, done, events)) w'
                (After-writing _ _ (insert_many_outbox (map enqueue events)) w'
                  (λ s e. (c, insert_many_outbox-transactions _ w'.store e ∙ head))
                  (λ x e. inl (insert_many_outbox-to_failure_code _ w'.store e))))
            (λ x w' u. u) (apply w)
            (After-weaken (λ _ _ k. k.0) (λ _ _ k. k.1) (apply w)
              (After-both _ _ _ _ (apply w)
                (apply_accepted_transaction-Saved wallet tx reference ts w h new)
                (apply_accepted_transaction-Applied sys wallet tx reference (context_of command)
                  w))))

    reject_with-Recorded :
        (wallet : Wallet V) (tx : WagerTransaction V) (ts : List (WagerTransaction V))
        (code : FailureCode) (w : World V)
        → w.store.transactions ≡ tx ∷ ts
        → IsNew tx ts
        → After
            (λ r w'. Recorded tx ts r w'.store.transactions)
            Anything
            (reject_with sys command wallet tx code w)
    unfolding reject_with
    reject_with-Recorded wallet tx ts code w h new =
        let rejecting = reject_transaction sys wallet tx code (context_of command) in
        After-bind _ _ rejecting (λ done. pure (persisted_result done wallet.balance)) w
          (After-weaken
            (λ done w' saved. told-Recorded sys command tx done ts wallet.balance w'.store saved)
            (λ _ _ _. tt) (rejecting w)
            (reject_transaction-Saved sys command wallet tx ts code w h new))

    rejection-Recorded :
        (wallet : Wallet V) (tx : WagerTransaction V) (ts : List (WagerTransaction V))
        (fault : Fault) (s : Store V) (code : Option FailureCode) (w : World V)
        → s.transactions ≡ tx ∷ ts
        → IsNew tx ts
        → (code ≡ none) ⊎ (w.store ≡ s)
        → After
            (λ r w'. Recorded tx ts r w'.store.transactions)
            Anything
            (rejection sys command wallet tx fault code w)
    rejection-Recorded wallet tx ts fault s none w h new u = tt
    rejection-Recorded wallet tx ts fault s (some code) w h new (inl e) = cc
    rejection-Recorded wallet tx ts fault s (some code) w h new (inr e) =
        reject_with-Recorded wallet tx ts code w (rw e h) new

    settle-Recorded :
        (wallet : Wallet V) (tx : WagerTransaction V) (reference : Option (WagerTransaction V))
        (ts : List (WagerTransaction V)) (w : World V)
        → w.store.transactions ≡ tx ∷ ts
        → IsNew tx ts
        → After
            (λ r w'. Recorded tx ts r w'.store.transactions)
            Anything
            (settle sys command wallet tx reference w)
    unfolding settle
    settle-Recorded wallet tx reference ts w h new =
        After-attempt _ _ (apply_and_enqueue sys wallet tx reference (context_of command))
          (λ (moved, done, _). pure (persisted_result done moved.balance))
          (λ fault. rejection sys command wallet tx fault (to_failure_code fault)) w
          (After-weaken
            (λ (moved, done, _) w' saved.
              told-Recorded sys command tx done ts moved.balance w'.store saved)
            (λ fault w' u.
              rejection-Recorded wallet tx ts fault w.store (to_failure_code fault) w' h new u)
            (apply_and_enqueue sys wallet tx reference (context_of command) w)
            (apply_and_enqueue-Saved wallet tx reference ts w h new))

    await_reference-Recorded :
        (tx : WagerTransaction V) (ts : List (WagerTransaction V)) (w : World V)
        → w.store.transactions ≡ tx ∷ ts
        → IsNew tx ts
        → tx.failure_code ≡ none
        → After
            (λ r w'. Recorded tx ts r w'.store.transactions)
            Anything
            (await_reference sys command tx w)
    unfolding await_reference event_context insert_outbox
    await_reference-Recorded tx ts w h new blank =
        elim (Result-cases (mark_pending_reference tx (some sys.now))) [
          | inr (x, e) ↦ ground (arith, e)
          | inl (waiting, e) ↦
              let (c, f) = mark_pending_reference-Continues tx sys.now e in
              elim (Result-cases (save_transaction waiting w.store)) [
                | inr (x, e') ↦ ground (arith, e, e')
                | inl (s, e') ↦
                    let first = save_transaction-first waiting tx ts w.store h new c.id e' in
                    ground (arith, e, e', first, c, f, blank)
              ]
        ]

    settle_reversal-Recorded :
        (wallet : Wallet V) (tx found : WagerTransaction V) (ts : List (WagerTransaction V))
        (w : World V)
        → w.store.transactions ≡ tx ∷ ts
        → IsNew tx ts
        → After
            (λ r w'. Recorded tx ts r w'.store.transactions)
            Anything
            (settle_reversal sys command wallet tx found w)
    unfolding settle_reversal
    settle_reversal-Recorded wallet tx found ts w h new =
        elim (Option-cases (validate_reference_match tx found)) [
          | inr (code, e) ↦ rw (settle_reversal, e) (reject_with-Recorded wallet tx ts code w h new)
          | inl e ↦
              elim (Bool-cases (is_taken tx (find_active_reversal_of found.id tx.kind w.store))) [
                | inl taken ↦
                    rw (settle_reversal, e, taken)
                      (reject_with-Recorded wallet tx ts FailureCode.already_reversed w h new)
                | inr free ↦
                    rw (settle_reversal, e, free)
                      (settle-Recorded wallet tx (some found) ts w h new)
              ]
        ]

    resolve_with-Recorded :
        (wallet : Wallet V) (tx : WagerTransaction V) (found : Option (WagerTransaction V))
        (ts : List (WagerTransaction V)) (w : World V)
        → w.store.transactions ≡ tx ∷ ts
        → IsNew tx ts
        → tx.failure_code ≡ none
        → After
            (λ r w'. Recorded tx ts r w'.store.transactions)
            Anything
            (resolve_with sys command wallet tx found w)
    resolve_with-Recorded wallet tx none ts w h new blank =
        await_reference-Recorded tx ts w h new blank
    resolve_with-Recorded wallet tx (some found) ts w h new blank =
        elim (Bool-cases (is_processed found)) [
          | inr early ↦ rw early (await_reference-Recorded tx ts w h new blank)
          | inl done ↦ rw done (settle_reversal-Recorded wallet tx found ts w h new)
        ]

    -- Settling leaves the inserted row of `tx`, changed as the result tells, and no other.
    pub resolve_and_settle-Recorded :
        (wallet : Wallet V) (tx : WagerTransaction V) (ts : List (WagerTransaction V)) (w : World V)
        → w.store.transactions ≡ tx ∷ ts
        → IsNew tx ts
        → tx.failure_code ≡ none
        → After
            (λ r w'. Recorded tx ts r w'.store.transactions)
            Anything
            (resolve_and_settle sys command wallet tx w)
    unfolding resolve_and_settle resolve_reference
    resolve_and_settle-Recorded wallet tx ts w h new blank =
        elim (Bool-cases (requires_reference tx)) [
          | inr alone ↦ rw alone (settle-Recorded wallet tx none ts w h new)
          | inl reversal ↦ rw reversal (resolve_with-Recorded wallet tx _ ts w h new blank)
        ]
