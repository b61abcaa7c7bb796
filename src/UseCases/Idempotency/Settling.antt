-- ===== src/UseCases/Idempotency/Settling.antt =====
-- The settlement of a transaction leaves the inbox as it was, however it ends.
use jungle_challenge.Common.{
  ◌≡◌, refl, ◌∙◌, inl, inr, Option, none, some, List, [], ◌∷◌, map, ok, arith, Result-cases,
  Bool-cases, Option-cases, string_eq,
}
use jungle_challenge.Application.Action.{System, Action, pure, writing, ◌>>=◌}
use jungle_challenge.Application.Fault.{Fault}
use jungle_challenge.Application.Keeping.{Keeps, Keeps-bind, Keeps-attempt, Keeps-writing}
use jungle_challenge.Messaging.Inbox.{InboxMessage}
use jungle_challenge.Messaging.Outbox.{OutboxMessage, enqueue}
use jungle_challenge.Money.Decimal.{Decimals}
use jungle_challenge.Persistence.Repositories.{
  insert_transaction, save_transaction, insert_outbox, insert_many_outbox, save_wallet,
  insert_entry, find_active_reversal_of, find_by_provider_and_external_id,
}
use jungle_challenge.Persistence.Store.{Store}
use jungle_challenge.UseCases.Command.{
  ProcessWagerTransactionCommand, required, context_of, persisted_result,
}
use jungle_challenge.UseCases.Processing.{
  ProcessingContext, Accepted, event_context, record_loss, move_balance, apply_accepted_transaction,
  reject_transaction, apply_and_enqueue, to_failure_code, validate_reference_match,
}
use jungle_challenge.UseCases.Settlement.{
  is_taken, await_reference, reject_with, rejection, settle, settle_reversal, resolve_with,
  resolve_reference, resolve_and_settle,
}
use jungle_challenge.Wagering.State.{WagerTransaction}
use jungle_challenge.Wagering.Transaction.{affects_balance, is_processed, requires_reference}
use jungle_challenge.Wagering.Vocabulary.{FailureCode}
use jungle_challenge.Wallet.{Wallet}
use jungle_challenge.Wallet.Entry.{WalletLedgerEntry}

module _ {V : Type 0} ⦃D : Decimals V⦄ where
  abbrev pub inbox_of : Store V → List InboxMessage
  inbox_of s = s.inbox

  abbrev pub KeepsInbox : {A : Type 0} → Action V A → Type 0
  KeepsInbox m = Keeps inbox_of m

  save_transaction-inbox :
      (tx : WagerTransaction V) (s s' : Store V)
      → save_transaction tx s ≡ ok s'
      → inbox_of s' ≡ inbox_of s
  unfolding save_transaction
  save_transaction-inbox tx s s' e = ground arith

  pub insert_transaction-inbox :
      (tx : WagerTransaction V) (s s' : Store V)
      → insert_transaction tx s ≡ ok s'
      → inbox_of s' ≡ inbox_of s
  unfolding insert_transaction
  insert_transaction-inbox tx s s' e = ground arith

  insert_outbox-inbox :
      (m : OutboxMessage) (s s' : Store V) → insert_outbox m s ≡ ok s' → inbox_of s' ≡ inbox_of s
  unfolding insert_outbox
  insert_outbox-inbox m s s' e = ground arith

  insert_many_outbox-inbox :
      (ms : List OutboxMessage) (s s' : Store V)
      → insert_many_outbox ms s ≡ ok s'
      → inbox_of s' ≡ inbox_of s
  unfolding insert_many_outbox
  insert_many_outbox-inbox [] s s' e = ground arith
  insert_many_outbox-inbox (m ∷ ms) s s' e = elim (Result-cases (insert_outbox m s)) [
    | inl (t, saved) ↦
        insert_many_outbox-inbox ms t s' (rw saved at e) ∙ insert_outbox-inbox m s t saved
    | inr (x, refused) ↦ ground arith
  ]

  save_wallet-inbox :
      (w : Wallet V) (s s' : Store V) → save_wallet w s ≡ ok s' → inbox_of s' ≡ inbox_of s
  unfolding save_wallet
  save_wallet-inbox w s s' e = ground arith

  insert_entry-inbox :
      (x : WalletLedgerEntry V) (s s' : Store V)
      → insert_entry x s ≡ ok s'
      → inbox_of s' ≡ inbox_of s
  unfolding insert_entry
  insert_entry-inbox x s s' e = ground arith

  module _ (sys : System) where
    record_loss-KeepsInbox :
        (wallet : Wallet V) (tx : WagerTransaction V) (ctx : ProcessingContext)
        → KeepsInbox (record_loss sys wallet tx ctx)
    unfolding record_loss event_context save_transaction
    record_loss-KeepsInbox wallet tx ctx w = ground arith

    move_balance-KeepsInbox :
        (wallet : Wallet V) (tx : WagerTransaction V) (reference : Option (WagerTransaction V))
        (ctx : ProcessingContext)
        → KeepsInbox (move_balance sys wallet tx reference ctx)
    unfolding move_balance event_context save_transaction save_wallet insert_entry
    move_balance-KeepsInbox wallet tx reference ctx w = ground arith

    reject_transaction-KeepsInbox :
        (wallet : Wallet V) (tx : WagerTransaction V) (code : FailureCode) (ctx : ProcessingContext)
        → KeepsInbox (reject_transaction sys wallet tx code ctx)
    unfolding reject_transaction event_context save_transaction insert_outbox
    reject_transaction-KeepsInbox wallet tx code ctx w = ground arith

    module _ (command : ProcessWagerTransactionCommand) where
      await_reference-KeepsInbox :
          (tx : WagerTransaction V) → KeepsInbox (await_reference sys command tx)
      unfolding await_reference event_context save_transaction insert_outbox
      await_reference-KeepsInbox tx w = ground arith

    apply_accepted_transaction-KeepsInbox :
        (wallet : Wallet V) (tx : WagerTransaction V) (reference : Option (WagerTransaction V))
        (ctx : ProcessingContext)
        → KeepsInbox (apply_accepted_transaction sys wallet tx reference ctx)
    unfolding apply_accepted_transaction
    apply_accepted_transaction-KeepsInbox wallet tx reference ctx w =
        elim (Bool-cases (affects_balance tx)) [
          | inl moves ↦ rw moves (move_balance-KeepsInbox wallet tx reference ctx w)
          | inr still ↦ rw still (record_loss-KeepsInbox wallet tx ctx w)
        ]

    enqueue_all-KeepsInbox :
        (a : Accepted V)
        → KeepsInbox {A = Accepted V}
            (writing (insert_many_outbox (map enqueue a.2)) >>= λ _. pure a)
    enqueue_all-KeepsInbox a =
        Keeps-bind inbox_of (writing (insert_many_outbox (map enqueue a.2))) (λ _. pure a)
          (Keeps-writing inbox_of (insert_many_outbox (map enqueue a.2))
            (insert_many_outbox-inbox (map enqueue a.2)))
          (λ _ w. refl)

    apply_and_enqueue-KeepsInbox :
        (wallet : Wallet V) (tx : WagerTransaction V) (reference : Option (WagerTransaction V))
        (ctx : ProcessingContext)
        → KeepsInbox (apply_and_enqueue sys wallet tx reference ctx)
    unfolding apply_and_enqueue
    apply_and_enqueue-KeepsInbox wallet tx reference ctx =
        Keeps-bind inbox_of (apply_accepted_transaction sys wallet tx reference ctx)
          (λ a. writing (insert_many_outbox (map enqueue a.2)) >>= λ _. pure a)
          (apply_accepted_transaction-KeepsInbox wallet tx reference ctx) enqueue_all-KeepsInbox

    module _ (command : ProcessWagerTransactionCommand) where
      reject_with-KeepsInbox :
          (wallet : Wallet V) (tx : WagerTransaction V) (code : FailureCode)
          → KeepsInbox (reject_with sys command wallet tx code)
      unfolding reject_with
      reject_with-KeepsInbox wallet tx code =
          Keeps-bind inbox_of (reject_transaction sys wallet tx code (context_of command))
            (λ rejected. pure (persisted_result rejected wallet.balance))
            (reject_transaction-KeepsInbox wallet tx code (context_of command)) (λ _ w. refl)

      rejection-KeepsInbox :
          (wallet : Wallet V) (tx : WagerTransaction V) (fault : Fault) (code : Option FailureCode)
          → KeepsInbox (rejection sys command wallet tx fault code)
      rejection-KeepsInbox wallet tx fault none w = refl
      rejection-KeepsInbox wallet tx fault (some code) w = reject_with-KeepsInbox wallet tx code w

      settle-KeepsInbox :
          (wallet : Wallet V) (tx : WagerTransaction V) (reference : Option (WagerTransaction V))
          → KeepsInbox (settle sys command wallet tx reference)
      unfolding settle
      settle-KeepsInbox wallet tx reference =
          Keeps-attempt inbox_of (apply_and_enqueue sys wallet tx reference (context_of command))
            (λ a. pure (persisted_result a.1 a.0.balance))
            (λ fault. rejection sys command wallet tx fault (to_failure_code fault))
            (apply_and_enqueue-KeepsInbox wallet tx reference (context_of command)) (λ _ w. refl)
            (λ fault. rejection-KeepsInbox wallet tx fault (to_failure_code fault))

      settle_reversal-KeepsInbox :
          (wallet : Wallet V) (tx found : WagerTransaction V)
          → KeepsInbox (settle_reversal sys command wallet tx found)
      unfolding settle_reversal
      settle_reversal-KeepsInbox wallet tx found w =
          elim (Option-cases (validate_reference_match tx found)) [
            | inr (mismatch, e) ↦
                rw (e, settle_reversal) (reject_with-KeepsInbox wallet tx mismatch w)
            | inl e ↦
                rw (e, settle_reversal)
                  (elim (Bool-cases
                    (is_taken tx (find_active_reversal_of found.id tx.kind w.store))) [
                      | inl taken ↦
                          rw taken (reject_with-KeepsInbox wallet tx FailureCode.already_reversed w)
                      | inr free ↦ rw free (settle-KeepsInbox wallet tx (some found) w)
                    ])
          ]

      resolve_with-KeepsInbox :
          (wallet : Wallet V) (tx : WagerTransaction V) (found : Option (WagerTransaction V))
          → KeepsInbox (resolve_with sys command wallet tx found)
      resolve_with-KeepsInbox wallet tx none w = await_reference-KeepsInbox command tx w
      resolve_with-KeepsInbox wallet tx (some found) w = elim (Bool-cases (is_processed found)) [
        | inl done ↦ rw done (settle_reversal-KeepsInbox wallet tx found w)
        | inr waits ↦ rw waits (await_reference-KeepsInbox command tx w)
      ]

      pub resolve_and_settle-KeepsInbox :
          (wallet : Wallet V) (tx : WagerTransaction V)
          → KeepsInbox (resolve_and_settle sys command wallet tx)
      unfolding resolve_and_settle resolve_reference
      resolve_and_settle-KeepsInbox wallet tx w = elim (Bool-cases (requires_reference tx)) [
        | inl reverses ↦ rw reverses (
            resolve_with-KeepsInbox wallet tx
              (find_by_provider_and_external_id tx.provider_id
                (required tx.reference_external_transaction_id) w.store)
              w)
        | inr plain ↦ rw plain (settle-KeepsInbox wallet tx none w)
      ]
