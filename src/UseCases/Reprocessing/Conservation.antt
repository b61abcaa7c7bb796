-- ===== src/UseCases/Reprocessing/Conservation.antt =====
-- Reprocessing conserves money, and so do calls of both use cases in any order.
use jungle_challenge.Common.{ℕ, ◌+◌, inl, inr, String, List, [], ◌∷◌, ok, err, Result}
use jungle_challenge.Application.Action.{System, World}
use jungle_challenge.Application.Fault.{Fault}
use jungle_challenge.Application.Rules.{After, After-bind, After-weaken}
use jungle_challenge.Money.Decimal.{Decimals}
use jungle_challenge.Persistence.Repositories.{list_due_pending_reference}
use jungle_challenge.Persistence.Store.{Store}
use jungle_challenge.UseCases.Conservation.{IsReconciled}
use jungle_challenge.UseCases.Conservation.Calls.{Posted-IsReconciled, SameBooks-IsReconciled}
use jungle_challenge.UseCases.Reprocessing.{
  PendingReferenceConfig, ReprocessSummary, counted, reprocess_one, reprocess_each, reprocess,
}
use jungle_challenge.UseCases.Reprocessing.Effects.{Reprocessed, reprocess_one-Reprocessed}
use jungle_challenge.Wagering.State.{WagerTransaction}

module _ {V : Type 0} ⦃D : Decimals V⦄ where
  Reprocessed-IsReconciled : {s s' : Store V} → Reprocessed s s' → IsReconciled s → IsReconciled s'
  Reprocessed-IsReconciled (inl b) r = SameBooks-IsReconciled b r
  Reprocessed-IsReconciled (inr (wallet, tx, found, inl b)) r = SameBooks-IsReconciled b r
  Reprocessed-IsReconciled (inr (wallet, tx, found, inr (reference, moved, d, m, e, p, _))) r =
      Posted-IsReconciled tx.wallet_id found p r

  -- Whatever the outcome, the store is reconciled.
  abbrev Reconciles : {A : Type 0} → Result Fault A × World V → Type 0
  Reconciles o = After (λ _ w. IsReconciled w.store) (λ _ w. IsReconciled w.store) o

  ended : {A : Type 0} (o : Result Fault A × World V) → Reconciles o → IsReconciled (o.1.store)
  ended (ok a, w) r = r
  ended (err e, w) r = r

  reprocess_one-IsReconciled :
      (sys : System) (config : PendingReferenceConfig) (id : String) (w : World V)
      → IsReconciled w.store
      → Reconciles (reprocess_one sys config id w)
  reprocess_one-IsReconciled sys config id w r =
      After-weaken (λ _ w' e. Reprocessed-IsReconciled e r) (λ _ w' same. rw same r)
        (reprocess_one sys config id w) (reprocess_one-Reprocessed sys config id w)

  module _ (sys : System) (config : PendingReferenceConfig) (now_at : ℕ → ℕ) where
    reprocess_each-IsReconciled :
        (i : ℕ) (due : List (WagerTransaction V)) (summary : ReprocessSummary) (w : World V)
        → IsReconciled w.store
        → Reconciles (reprocess_each sys config now_at i due summary w)
    unfolding reprocess_each
    reprocess_each-IsReconciled i [] summary w r = r
    reprocess_each-IsReconciled i (stale ∷ due) summary w r =
        let sys' = record sys { now = now_at i } in
        After-bind _ _ (reprocess_one sys' config stale.id)
          (λ outcome. reprocess_each sys config now_at (i + 1) due (counted outcome summary)) w
          (After-weaken
            (λ outcome w' r'.
              reprocess_each-IsReconciled (i + 1) due (counted outcome summary) w' r')
            (λ _ _ r'. r') (reprocess_one sys' config stale.id w)
            (reprocess_one-IsReconciled sys' config stale.id w r))

    -- A run of the worker, also one that an error ends in the middle, leaves every balance the sum of
    -- the wallet's ledger entries, if it was before.
    pub reprocess-IsReconciled :
        (w : World V)
        → IsReconciled w.store
        → IsReconciled ((reprocess sys config now_at w).1.store)
    unfolding reprocess
    reprocess-IsReconciled w r = ended (reprocess sys config now_at w) (
        reprocess_each-IsReconciled 0 (list_due_pending_reference config.batch_size sys.now w.store)
          _ w r)
