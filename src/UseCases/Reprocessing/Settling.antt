-- ===== src/UseCases/Reprocessing/Settling.antt =====
-- What settles a transaction whose reference came in takes its row on:
-- src/application/use-cases/reprocess-pending-references/reprocess-pending-references.use-case.ts.
use jungle_challenge.Common.{
  ◌≡◌, ◌⊎◌, ◌∙◌, ap, inl, inr, Option, none, some, ok, arith, Result-cases, Bool-cases,
  Option-cases,
}
use jungle_challenge.Application.Action.{System, World, Action, pure}
use jungle_challenge.Application.Fault.{Fault}
use jungle_challenge.Application.Rules.{After, After-bind, After-weaken, After-both, After-attempt}
use jungle_challenge.Money.Decimal.{Decimals}
use jungle_challenge.Persistence.Repositories.{
  find_transaction, find_active_reversal_of, save_transaction,
}
use jungle_challenge.Persistence.Store.{Store}
use jungle_challenge.UseCases.Accounting.{Anyhow, Anything, apply_and_enqueue-Effect}
use jungle_challenge.UseCases.Processing.{
  to_failure_code, validate_reference_match, reject_transaction, apply_and_enqueue,
}
use jungle_challenge.UseCases.Reprocessing.{
  PendingReferenceConfig, Outcome, pending_context, reject_pending, refusal, settle_pending,
  match_pending, fail_pending, reprocess_in,
}
use jungle_challenge.UseCases.Reprocessing.Progress.{
  Advanced, apply_and_enqueue-LeftAs, reject_transaction-LeftAs,
}
use jungle_challenge.UseCases.Reprocessing.Rows.{save_transaction-LeftAs}
use jungle_challenge.UseCases.Settlement.{is_taken}
use jungle_challenge.Wagering.State.{WagerTransaction}
use jungle_challenge.Wagering.Transaction.{fail}
use jungle_challenge.Wagering.Vocabulary.{FailureCode, WagerTransactionStatus, kind_eq, status_eq}
use jungle_challenge.Wallet.{Wallet}

module _ {V : Type 0} ⦃D : Decimals V⦄ (sys : System) (config : PendingReferenceConfig) where
  -- The action takes `tx` on.
  abbrev pub TakesOn : WagerTransaction V → Action V Outcome → World V → Type 0
  TakesOn tx m w =
      After (λ o w'. Advanced config tx o (find_transaction tx.id w'.store)) Anything (m w)

  pub seen :
      (tx : WagerTransaction V) (outcome : Outcome) {found : Option (WagerTransaction V)}
      {row : WagerTransaction V}
      → found ≡ some row
      → Advanced config tx outcome (some row)
      → Advanced config tx outcome found
  seen tx outcome e a = rw e a

  reject_pending-TakesOn :
      (wallet : Wallet V) (tx : WagerTransaction V) (code : FailureCode) (w : World V)
      → find_transaction tx.id w.store ≡ some tx
      → TakesOn tx (reject_pending sys wallet tx code) w
  unfolding reject_pending
  reject_pending-TakesOn wallet tx code w h =
      After-bind _ _ (reject_transaction sys wallet tx code (pending_context tx))
        (λ _. pure Outcome.rejected) w
        (After-weaken (λ _ _ (st, left). seen tx Outcome.rejected left (inl st)) (λ _ _ _. tt)
          (reject_transaction sys wallet tx code (pending_context tx) w)
          (reject_transaction-LeftAs sys (pending_context tx) wallet tx code w h))

  refusal-TakesOn :
      (wallet : Wallet V) (tx : WagerTransaction V) (fault : Fault) (s : Store V)
      (code : Option FailureCode) (w : World V)
      → find_transaction tx.id s ≡ some tx
      → (code ≡ none) ⊎ (w.store ≡ s)
      → TakesOn tx (refusal sys wallet tx fault code) w
  refusal-TakesOn wallet tx fault s none w h u = tt
  refusal-TakesOn wallet tx fault s (some code) w h (inl e) = cc
  refusal-TakesOn wallet tx fault s (some code) w h (inr e) =
      reject_pending-TakesOn wallet tx code w (ap (find_transaction tx.id) e ∙ h)

  settle_pending-TakesOn :
      (wallet : Wallet V) (tx reference : WagerTransaction V) (w : World V)
      → find_transaction tx.id w.store ≡ some tx
      → TakesOn tx (settle_pending sys wallet tx reference) w
  unfolding settle_pending
  settle_pending-TakesOn wallet tx reference w h =
      let apply = apply_and_enqueue sys wallet tx (some reference) (pending_context tx) in
      After-attempt _ _ apply (λ _. pure Outcome.processed)
        (λ fault. refusal sys wallet tx fault (to_failure_code fault)) w
        (After-weaken (λ _ _ ((st, left), _). seen tx Outcome.processed left st)
          (λ fault w' (_, u).
            refusal-TakesOn wallet tx fault w.store (to_failure_code fault) w' h u)
          (apply w)
          (After-both _ _ _ _ (apply w)
            (apply_and_enqueue-LeftAs sys (pending_context tx) wallet tx (some reference) w h)
            (apply_and_enqueue-Effect sys wallet tx (some reference) (pending_context tx) w
              (Anyhow V) (λ _ _. tt))))

  match_pending-TakesOn :
      (wallet : Wallet V) (tx reference : WagerTransaction V) (w : World V)
      → find_transaction tx.id w.store ≡ some tx
      → TakesOn tx (match_pending sys wallet tx reference) w
  unfolding match_pending
  match_pending-TakesOn wallet tx reference w h =
      elim (Option-cases (validate_reference_match tx reference)) [
        | inr (code, e) ↦ rw (match_pending, e) (reject_pending-TakesOn wallet tx code w h)
        | inl e ↦
            elim (Bool-cases (is_taken tx (find_active_reversal_of reference.id tx.kind w.store))) [
              | inl taken ↦
                  rw (match_pending, e, taken)
                    (reject_pending-TakesOn wallet tx FailureCode.already_reversed w h)
              | inr free ↦
                  rw (match_pending, e, free) (settle_pending-TakesOn wallet tx reference w h)
            ]
      ]

  fail-status :
      (tx : WagerTransaction V) (code : FailureCode) {done : WagerTransaction V}
      → fail tx code ≡ ok done
      → (done.id ≡ tx.id) × (done.status ≡ WagerTransactionStatus.failed)
  unfolding fail
  fail-status tx code e = ground arith

  fail_pending-TakesOn :
      (tx : WagerTransaction V) (w : World V)
      → find_transaction tx.id w.store ≡ some tx
      → TakesOn tx (fail_pending sys tx) w
  unfolding fail_pending
  fail_pending-TakesOn tx w h = elim (Result-cases (fail tx FailureCode.internal_error)) [
    | inr (x, e) ↦ ground (arith, e)
    | inl (done, e) ↦
        let (i, st) = fail-status tx FailureCode.internal_error e in
        elim (Result-cases (save_transaction done w.store)) [
          | inr (x, e') ↦ ground (arith, e, e')
          | inl (s, e') ↦
              let left = save_transaction-LeftAs done tx w.store h i e' in
              let on = seen tx Outcome.rejected left (inr st) in ground (arith, e, e', on)
        ]
  ]

  pub reprocess_in-TakesOn :
      (tx reference : WagerTransaction V) (found : Option (Wallet V)) (w : World V)
      → find_transaction tx.id w.store ≡ some tx
      → TakesOn tx (reprocess_in sys tx reference found) w
  reprocess_in-TakesOn tx reference none w h = fail_pending-TakesOn tx w h
  reprocess_in-TakesOn tx reference (some wallet) w h =
      match_pending-TakesOn wallet tx reference w h
