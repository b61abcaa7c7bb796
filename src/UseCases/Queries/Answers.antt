-- ===== src/UseCases/Queries/Answers.antt =====
-- What a query of src/application/use-cases/queries shows of a transaction that was just processed.
use jungle_challenge.Common.{
  ◌≡◌, refl, sym, inl, inr, false, String, some, List, [], ◌∷◌, Result, ok, err, string_eq, ==_refl,
}
use jungle_challenge.Application.Action.{System, World}
use jungle_challenge.Application.Fault.{Fault}
use jungle_challenge.Money.{Money, from}
use jungle_challenge.Money.Decimal.{Decimals}
use jungle_challenge.Persistence.Repositories.{find_transaction}
use jungle_challenge.Persistence.Store.{Store}
use jungle_challenge.UseCases.Command.{
  ProcessWagerTransactionCommand, ProcessWagerTransactionResult,
}
use jungle_challenge.UseCases.Idempotency.{Added}
use jungle_challenge.UseCases.Idempotency.Replay.{execute-Answered}
use jungle_challenge.UseCases.Process.{payload_hash_of, execute}
use jungle_challenge.UseCases.Queries.{WagerTransactionView, by_id, to_transaction_view}
use jungle_challenge.UseCases.Recording.{Tells}
use jungle_challenge.Wagering.State.{WagerTransaction}

module _ {V : Type 0} ⦃D : Decimals V⦄ where
  -- The query shows the transaction, the status and the failure code of the answer, and changes
  -- nothing.
  abbrev pub IsShown :
      ProcessWagerTransactionResult → World V → Result Fault WagerTransactionView × World V → Type 0
  IsShown r w (ok view, w') =
      (view.id ≡ r.transaction_id)
      × (view.status ≡ r.status)
      × (view.failure_code ≡ r.failure_code)
      × (w' ≡ w)
  IsShown r w (err fault, w') = ⊥

  Added-find_transaction :
      (key hash : String) (ts us : List (WagerTransaction V)) (r : ProcessWagerTransactionResult)
      (s : Store V)
      → s.transactions ≡ us
      → Added key hash ts r us
      → (t : WagerTransaction V) × (find_transaction r.transaction_id s ≡ some t) × Tells r t
  unfolding find_transaction
  Added-find_transaction key hash ts [] r s e a = absurd a
  Added-find_transaction key hash ts (t ∷ us) r s e (o, k, p, free, told) =
      (t, rw e (rw (told.transaction_id) (rw (==_refl t.id) refl)), told)

  -- A transaction that a call answers for the first time is shown by its id at once, as the answer
  -- tells it.
  pub execute-IsShown :
      (sys : System) (command : ProcessWagerTransactionCommand) (money : Money V) (w w1 : World V)
      (r : ProcessWagerTransactionResult)
      → from command.money ≡ ok money
      → execute sys command w ≡ (ok r, w1)
      → r.idempotent_replay ≡ false
      → IsShown r w1 (by_id r.transaction_id w1)
  unfolding by_id to_transaction_view
  execute-IsShown sys command money w w1 r parsed e first =
      elim (rw e at (execute-Answered sys command money w parsed)) [
        | inl (replay, same) ↦ cc
        | inr added ↦
            let (t, found, told) =
              Added-find_transaction command.idempotency_key (payload_hash_of sys command money)
                w.store.transactions w1.store.transactions r w1.store refl added in
            rw found (sym told.transaction_id, sym told.status, sym told.failure_code, refl)
      ]
