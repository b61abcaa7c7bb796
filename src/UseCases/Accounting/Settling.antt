-- ===== src/UseCases/Accounting/Settling.antt =====
-- What settling a new transaction does to the wallets and the ledger: the steps of UseCases/Settlement.
use jungle_challenge.Common.{
  ◌≡◌, refl, true, false, ok, sym, ◌⊎◌, inl, inr, Option, none, some, arith, Result, Bool-cases,
  Option-cases,
}
use jungle_challenge.Application.Action.{System, World, pure}
use jungle_challenge.Application.Fault.{Fault}
use jungle_challenge.Application.Rules.{After, After-attempt, After-weaken}
use jungle_challenge.Money.Decimal.{Decimals}
use jungle_challenge.Persistence.Laws.{SameBooks}
use jungle_challenge.Persistence.Repositories.{
  insert_outbox, save_transaction, find_active_reversal_of, find_by_provider_and_external_id,
}
use jungle_challenge.Persistence.Store.{Store}
use jungle_challenge.UseCases.Command.{
  ProcessWagerTransactionCommand, ProcessWagerTransactionResult, context_of, persisted_result,
  required,
}
use jungle_challenge.UseCases.Processing.{
  apply_and_enqueue, validate_reference_match, to_failure_code, event_context, reject_transaction,
}
use jungle_challenge.UseCases.Settlement.{
  await_reference, reject_with, rejection, is_taken, settle, settle_reversal, resolve_with,
  resolve_reference, resolve_and_settle,
}
use jungle_challenge.Wagering.State.{WagerTransaction}
use jungle_challenge.Wagering.Transaction.{
  mark_pending_reference, reject, requires_reference, is_processed, ledger_direction_for,
}
use jungle_challenge.Wagering.Vocabulary.{FailureCode, LedgerDirection, kind_eq}
use jungle_challenge.Wallet.{Wallet}
use jungle_challenge.UseCases.Accounting.{Reason, Anything, Effect, apply_and_enqueue-Effect}

module _ {V : Type 0} ⦃D : Decimals V⦄ where
  module _ (sys : System) (command : ProcessWagerTransactionCommand) where
    reject_with-SameBooks :
        (wallet : Wallet V) (tx : WagerTransaction V) (code : FailureCode) (w : World V)
        → After
            (λ _ w'. SameBooks w.store w'.store)
            Anything
            (reject_with sys command wallet tx code w)
    unfolding reject_with reject_transaction event_context reject save_transaction insert_outbox
    reject_with-SameBooks wallet tx code w = ground arith

    await_reference-SameBooks :
        (tx : WagerTransaction V) (w : World V)
        → After (λ _ w'. SameBooks w.store w'.store) Anything (await_reference sys command tx w)
    unfolding await_reference event_context mark_pending_reference save_transaction insert_outbox
    await_reference-SameBooks tx w = ground arith

    rejection-Effect :
        (P : Reason V) (wallet : Wallet V) (tx : WagerTransaction V) (fault : Fault) (s : Store V)
        (code : Option FailureCode) (w : World V)
        → (code ≡ none) ⊎ (w.store ≡ s)
        → After
            (λ _ w'. Effect P wallet tx s w'.store)
            Anything
            (rejection sys command wallet tx fault code w)
    rejection-Effect P wallet tx fault s none w h = tt
    rejection-Effect P wallet tx fault s (some code) w (inl e) = cc
    rejection-Effect P wallet tx fault s (some code) w (inr e) =
        After-weaken (λ _ w' b. inl (rw (sym e) b)) (λ _ _ _. tt)
          (reject_with sys command wallet tx code w) (reject_with-SameBooks wallet tx code w)

    settle-Effect :
        (P : Reason V) (wallet : Wallet V) (tx : WagerTransaction V)
        (reference : Option (WagerTransaction V)) (w : World V)
        → ((d : LedgerDirection) → ledger_direction_for tx reference ≡ ok d → P reference d)
        → After
            (λ _ w'. Effect P wallet tx w.store w'.store)
            Anything
            (settle sys command wallet tx reference w)
    unfolding settle
    settle-Effect P wallet tx reference w k =
        After-attempt _ _ (apply_and_enqueue sys wallet tx reference (context_of command))
          (λ (moved, done, _). pure (persisted_result done moved.balance))
          (λ fault. rejection sys command wallet tx fault (to_failure_code fault)) w
          (After-weaken (λ _ w' e. e)
            (λ fault w' u. rejection-Effect P wallet tx fault w.store (to_failure_code fault) w' u)
            (apply_and_enqueue sys wallet tx reference (context_of command) w)
            (apply_and_enqueue-Effect sys wallet tx reference (context_of command) w P k))

    unmoved-Effect :
        (P : Reason V) (wallet : Wallet V) (tx : WagerTransaction V) (w : World V)
        (o : Result Fault ProcessWagerTransactionResult × World V)
        → After (λ _ w'. SameBooks w.store w'.store) Anything o
        → After (λ _ w'. Effect P wallet tx w.store w'.store) Anything o
    unmoved-Effect P wallet tx w o h = After-weaken (λ _ _ b. inl b) (λ _ _ _. tt) o h

    settle_reversal-Effect :
        (P : Reason V) (wallet : Wallet V) (tx found : WagerTransaction V) (w : World V)
        → ((d : LedgerDirection)
            → validate_reference_match tx found ≡ none
            → ledger_direction_for tx (some found) ≡ ok d
            → P (some found) d)
        → After
            (λ _ w'. Effect P wallet tx w.store w'.store)
            Anything
            (settle_reversal sys command wallet tx found w)
    unfolding settle_reversal
    settle_reversal-Effect P wallet tx found w k =
        elim (Option-cases (validate_reference_match tx found)) [
          | inr (code, e) ↦
              rw (settle_reversal, e)
                (unmoved-Effect P wallet tx w _ (reject_with-SameBooks wallet tx code w))
          | inl e ↦
              elim (Bool-cases (is_taken tx (find_active_reversal_of found.id tx.kind w.store))) [
                | inl taken ↦
                    rw (settle_reversal, e, taken)
                      (unmoved-Effect P wallet tx w _
                        (reject_with-SameBooks wallet tx FailureCode.already_reversed w))
                | inr free ↦
                    rw (settle_reversal, e, free)
                      (settle-Effect P wallet tx (some found) w (λ d directed. k d e directed))
              ]
        ]

    resolve_with-Effect :
        (P : Reason V) (wallet : Wallet V) (tx : WagerTransaction V)
        (found : Option (WagerTransaction V)) (w : World V)
        → ((r : WagerTransaction V) (d : LedgerDirection)
            → found ≡ some r
            → is_processed r ≡ true
            → validate_reference_match tx r ≡ none
            → ledger_direction_for tx (some r) ≡ ok d
            → P (some r) d)
        → After
            (λ _ w'. Effect P wallet tx w.store w'.store)
            Anything
            (resolve_with sys command wallet tx found w)
    resolve_with-Effect P wallet tx none w k =
        unmoved-Effect P wallet tx w _ (await_reference-SameBooks tx w)
    resolve_with-Effect P wallet tx (some found) w k = elim (Bool-cases (is_processed found)) [
      | inr early ↦ rw early (unmoved-Effect P wallet tx w _ (await_reference-SameBooks tx w))
      | inl done ↦ rw done (
          settle_reversal-Effect P wallet tx found w
            (λ d m directed. k found d refl done m directed))
    ]

    -- Settling a new transaction posts it at most once, on its wallet.
    pub resolve_and_settle-Effect :
        (P : Reason V) (wallet : Wallet V) (tx : WagerTransaction V) (w : World V)
        → ((d : LedgerDirection)
            → requires_reference tx ≡ false
            → ledger_direction_for tx none ≡ ok d
            → P none d)
        → ((r : WagerTransaction V) (d : LedgerDirection)
            → requires_reference tx ≡ true
            → find_by_provider_and_external_id tx.provider_id
                (required tx.reference_external_transaction_id)
                w.store
              ≡ some r
            → is_processed r ≡ true
            → validate_reference_match tx r ≡ none
            → ledger_direction_for tx (some r) ≡ ok d
            → P (some r) d)
        → After
            (λ _ w'. Effect P wallet tx w.store w'.store)
            Anything
            (resolve_and_settle sys command wallet tx w)
    unfolding resolve_and_settle resolve_reference
    resolve_and_settle-Effect P wallet tx w k l = elim (Bool-cases (requires_reference tx)) [
      | inr alone ↦ rw alone (settle-Effect P wallet tx none w (λ d directed. k d alone directed))
      | inl reversal ↦ rw reversal (
          resolve_with-Effect P wallet tx _ w (λ r d f p m directed. l r d reversal f p m directed))
    ]
