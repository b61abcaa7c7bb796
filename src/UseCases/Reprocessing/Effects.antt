-- ===== src/UseCases/Reprocessing/Effects.antt =====
-- What reprocessing does to the wallets and the ledger.
use jungle_challenge.Common.{
  ◌≡◌, refl, sym, ◌⊎◌, inl, inr, String, Option, none, some, arith, Result, Bool-cases,
  Option-cases,
}
use jungle_challenge.Application.Action.{System, World, Action, pure, reading, ◌>>=◌}
use jungle_challenge.Application.Fault.{Fault}
use jungle_challenge.Application.Rules.{After, After-attempt, After-run, After-weaken}
use jungle_challenge.Money.Decimal.{Decimals}
use jungle_challenge.Persistence.Laws.{SameBooks}
use jungle_challenge.Persistence.Repositories.{
  find_transaction, find_wallet, find_active_reversal_of, save_transaction, insert_outbox,
}
use jungle_challenge.Persistence.Store.{Store}
use jungle_challenge.UseCases.Accounting.{Anyhow, Anything, Effect, apply_and_enqueue-Effect}
use jungle_challenge.UseCases.Processing.{
  to_failure_code, event_context, validate_reference_match, apply_and_enqueue, reject_transaction,
}
use jungle_challenge.UseCases.Reprocessing.{
  PendingReferenceConfig, Outcome, pending_context, give_up, reject_pending, refusal,
  settle_pending, match_pending, fail_pending, reprocess_in, retry_later, reprocess_with,
  reprocess_found, reprocess_one,
}
use jungle_challenge.UseCases.Settlement.{is_taken}
use jungle_challenge.Wagering.State.{WagerTransaction}
use jungle_challenge.Wagering.Transaction.{
  is_processed, is_pending_reference, schedule_reference_retry, should_give_up_on_reference, reject,
  fail,
}
use jungle_challenge.Wagering.Vocabulary.{FailureCode, kind_eq}
use jungle_challenge.Wallet.{Wallet}

module _ {V : Type 0} ⦃D : Decimals V⦄ where
  -- At most one posting of a transaction on the wallet that it names.
  abbrev pub Reprocessed : Store V → Store V → Type 0
  Reprocessed s s' =
      SameBooks s s'
      ⊎ (wallet : Wallet V) × (tx : WagerTransaction V) × (find_wallet tx.wallet_id s ≡ some wallet)
        × Effect (Anyhow V) wallet tx s s'

  unmoved :
      {A : Type 0} (s : Store V) (o : Result Fault A × World V)
      → After (λ _ w'. SameBooks s w'.store) Anything o
      → After (λ _ w'. Reprocessed s w'.store) Anything o
  unmoved s o h = After-weaken (λ _ _ b. inl b) (λ _ _ _. tt) o h

  unposted :
      {A : Type 0} (wallet : Wallet V) (tx : WagerTransaction V) (s : Store V)
      (o : Result Fault A × World V)
      → After (λ _ w'. SameBooks s w'.store) Anything o
      → After (λ _ w'. Effect (Anyhow V) wallet tx s w'.store) Anything o
  unposted wallet tx s o h = After-weaken (λ _ _ b. inl b) (λ _ _ _. tt) o h

  module _ (sys : System) where
    reject_pending-SameBooks :
        (wallet : Wallet V) (tx : WagerTransaction V) (code : FailureCode) (w : World V)
        → After (λ _ w'. SameBooks w.store w'.store) Anything (reject_pending sys wallet tx code w)
    unfolding reject_pending reject_transaction event_context reject save_transaction insert_outbox
    reject_pending-SameBooks wallet tx code w = ground arith

    refusal-Effect :
        (wallet : Wallet V) (tx : WagerTransaction V) (fault : Fault) (s : Store V)
        (code : Option FailureCode) (w : World V)
        → (code ≡ none) ⊎ (w.store ≡ s)
        → After
            (λ _ w'. Effect (Anyhow V) wallet tx s w'.store)
            Anything
            (refusal sys wallet tx fault code w)
    refusal-Effect wallet tx fault s none w h = tt
    refusal-Effect wallet tx fault s (some code) w (inl e) = cc
    refusal-Effect wallet tx fault s (some code) w (inr e) =
        After-weaken (λ _ w' b. inl (rw (sym e) b)) (λ _ _ _. tt)
          (reject_pending sys wallet tx code w) (reject_pending-SameBooks wallet tx code w)

    settle_pending-Effect :
        (wallet : Wallet V) (tx reference : WagerTransaction V) (w : World V)
        → After
            (λ _ w'. Effect (Anyhow V) wallet tx w.store w'.store)
            Anything
            (settle_pending sys wallet tx reference w)
    unfolding settle_pending
    settle_pending-Effect wallet tx reference w =
        let apply = apply_and_enqueue sys wallet tx (some reference) (pending_context tx) in
        After-attempt _ _ apply (λ _. pure Outcome.processed)
          (λ fault. refusal sys wallet tx fault (to_failure_code fault)) w
          (After-weaken (λ _ _ e. e)
            (λ fault w' u. refusal-Effect wallet tx fault w.store (to_failure_code fault) w' u)
            (apply w)
            (apply_and_enqueue-Effect sys wallet tx (some reference) (pending_context tx) w
              (Anyhow V) (λ _ _. tt)))

    match_pending-Effect :
        (wallet : Wallet V) (tx reference : WagerTransaction V) (w : World V)
        → After
            (λ _ w'. Effect (Anyhow V) wallet tx w.store w'.store)
            Anything
            (match_pending sys wallet tx reference w)
    unfolding match_pending
    match_pending-Effect wallet tx reference w =
        elim (Option-cases (validate_reference_match tx reference)) [
          | inr (code, e) ↦
              rw (match_pending, e)
                (unposted wallet tx w.store _ (reject_pending-SameBooks wallet tx code w))
          | inl e ↦
              elim (Bool-cases
                (is_taken tx (find_active_reversal_of reference.id tx.kind w.store))) [
                  | inl taken ↦
                      rw (match_pending, e, taken)
                        (unposted wallet tx w.store _
                          (reject_pending-SameBooks wallet tx FailureCode.already_reversed w))
                  | inr free ↦
                      rw (match_pending, e, free) (settle_pending-Effect wallet tx reference w)
                ]
        ]

    fail_pending-SameBooks :
        (tx : WagerTransaction V) (w : World V)
        → After (λ _ w'. SameBooks w.store w'.store) Anything (fail_pending sys tx w)
    unfolding fail_pending fail save_transaction
    fail_pending-SameBooks tx w = ground arith

    reprocess_in-Reprocessed :
        (tx reference : WagerTransaction V) (found : Option (Wallet V)) (w : World V)
        → find_wallet tx.wallet_id w.store ≡ found
        → After
            (λ _ w'. Reprocessed w.store w'.store)
            Anything
            (reprocess_in sys tx reference found w)
    reprocess_in-Reprocessed tx reference none w found =
        unmoved w.store _ (fail_pending-SameBooks tx w)
    reprocess_in-Reprocessed tx reference (some wallet) w found =
        After-weaken (λ _ _ e. inr (wallet, tx, found, e)) (λ _ _ _. tt)
          (match_pending sys wallet tx reference w) (match_pending-Effect wallet tx reference w)

  module _ (sys : System) (config : PendingReferenceConfig) where
    retry_later-SameBooks :
        (tx : WagerTransaction V) (w : World V)
        → After (λ _ w'. SameBooks w.store w'.store) Anything (retry_later sys config tx w)
    unfolding retry_later give_up event_context reject save_transaction insert_outbox
        schedule_reference_retry should_give_up_on_reference
    retry_later-SameBooks tx w = ground arith

    reprocess_with-Reprocessed :
        (tx : WagerTransaction V) (found : Option (WagerTransaction V)) (w : World V)
        → After
            (λ _ w'. Reprocessed w.store w'.store)
            Anything
            (reprocess_with sys config tx found w)
    reprocess_with-Reprocessed tx none w = unmoved w.store _ (retry_later-SameBooks tx w)
    reprocess_with-Reprocessed tx (some reference) w = elim (Bool-cases (is_processed reference)) [
      | inr early ↦ rw early (unmoved w.store _ (retry_later-SameBooks tx w))
      | inl done ↦ rw done (reprocess_in-Reprocessed sys tx reference _ w refl)
    ]

    reprocess_found-Reprocessed :
        (found : Option (WagerTransaction V)) (w : World V)
        → After (λ _ w'. Reprocessed w.store w'.store) Anything (reprocess_found sys config found w)
    reprocess_found-Reprocessed none w = inl (record { wallets = refl; ledger = refl })
    reprocess_found-Reprocessed (some tx) w = elim (Bool-cases (is_pending_reference tx)) [
      | inr over ↦ rw over (inl (record { wallets = refl; ledger = refl }))
      | inl waits ↦ rw waits (reprocess_with-Reprocessed tx _ w)
    ]

    -- Reprocessing one transaction leaves the store where it fails, and posts at most that
    -- transaction, on its wallet as it was found.
    pub reprocess_one-Reprocessed :
        (id : String) (w : World V)
        → After
            (λ _ w'. Reprocessed w.store w'.store)
            (λ _ w'. w'.store ≡ w.store)
            (reprocess_one sys config id w)
    unfolding reprocess_one
    reprocess_one-Reprocessed id w =
        let body : Action V Outcome =
          reading (find_transaction id) >>= reprocess_found sys config in
        After-run _ _ body w (
          After-weaken (λ _ _ r. r) (λ _ _ _. refl) (body w)
            (reprocess_found-Reprocessed (find_transaction id w.store) w))
