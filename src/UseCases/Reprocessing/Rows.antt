-- ===== src/UseCases/Reprocessing/Rows.antt =====
-- How the row of a transaction is found after the steps of src/application/use-cases/wager-processing.ts
-- that settle it.
use jungle_challenge.Common.{
  ℕ, ◌≡◌, refl, ◌∙◌, inl, inr, String, Option, none, some, List, [], ◌∷◌, ok, arith, Result-cases,
  ◌==◌, string_eq, ==_refl,
}
use jungle_challenge.Application.Action.{System, World}
use jungle_challenge.Application.Rules.{After}
use jungle_challenge.Messaging.Outbox.{OutboxMessage}
use jungle_challenge.Money.{Money}
use jungle_challenge.Money.Decimal.{Decimals}
use jungle_challenge.Persistence.Laws.{find_row-update_rows}
use jungle_challenge.Persistence.Repositories.{
  find_transaction, save_wallet, insert_entry, save_transaction, insert_outbox, insert_many_outbox,
  overwrite_transaction,
}
use jungle_challenge.Persistence.Store.{Store}
use jungle_challenge.Persistence.Tables.{update_rows}
use jungle_challenge.UseCases.Accounting.{Anything}
use jungle_challenge.UseCases.Posting.{booking, movement_of}
use jungle_challenge.UseCases.Processing.{
  ProcessingContext, event_context, record_loss, move_balance, reference_id,
}
use jungle_challenge.Wagering.State.{WagerTransaction}
use jungle_challenge.Wagering.Transaction.{
  mark_processed, record_observed_balance, ledger_direction_for, requires_reference,
}
use jungle_challenge.Wagering.Vocabulary.{WagerTransactionStatus}
use jungle_challenge.Wallet.{Wallet}
use jungle_challenge.Wallet.Entry.{WalletLedgerEntry}

module _ {V : Type 0} ⦃D : Decimals V⦄ where
  -- The row of `tx` was overwritten with `done`.
  abbrev pub LeftAs : WagerTransaction V → WagerTransaction V → Store V → Type 0
  LeftAs tx done s = find_transaction tx.id s ≡ some (overwrite_transaction done tx)

  saved_rows :
      (done : WagerTransaction V) (s : Store V) {s' : Store V}
      → save_transaction done s ≡ ok s'
      → s'.transactions
        ≡ update_rows (λ t. t.id == done.id) (overwrite_transaction done) s.transactions
  unfolding save_transaction
  saved_rows done s e = ground arith

  pub save_transaction-LeftAs :
      (done tx : WagerTransaction V) (s : Store V) {s' : Store V}
      → find_transaction tx.id s ≡ some tx
      → done.id ≡ tx.id
      → save_transaction done s ≡ ok s'
      → LeftAs tx done s'
  unfolding find_transaction
  save_transaction-LeftAs done tx s h i e = rw (saved_rows done s e) (
      find_row-update_rows (λ t. t.id == tx.id) (λ t. t.id == done.id) (overwrite_transaction done)
        (λ _. refl) s.transactions
      ∙ rw h (rw i (rw (==_refl tx.id) refl)))

  pub find_transaction-kept :
      (id : String) (s s' : Store V)
      → s'.transactions ≡ s.transactions
      → find_transaction id s' ≡ find_transaction id s
  unfolding find_transaction
  find_transaction-kept id s s' e = rw e refl

  pub insert_many_outbox-kept :
      (ms : List OutboxMessage) (s : Store V) {s' : Store V}
      → insert_many_outbox ms s ≡ ok s'
      → s'.transactions ≡ s.transactions
  unfolding insert_many_outbox insert_outbox
  insert_many_outbox-kept [] s e = ground arith
  insert_many_outbox-kept (m ∷ ms) s {s'} e =
      ground (arith, insert_many_outbox-kept ms (record s { outbox = m ∷ s.outbox }) {s' = s'})

  books-kept :
      (moved : Wallet V) (entry : WalletLedgerEntry V) (s : Store V) {s1 s2 : Store V}
      → save_wallet moved s ≡ ok s1
      → insert_entry entry s1 ≡ ok s2
      → s2.transactions ≡ s.transactions
  unfolding save_wallet insert_entry
  books-kept moved entry s e1 e2 = ground arith

  mark_processed-status :
      (tx : WagerTransaction V) (reference : Option String) (at : ℕ) (balance : Money V)
      {done : WagerTransaction V}
      → mark_processed tx reference at ≡ ok done
      → ((record_observed_balance done balance).id ≡ tx.id)
        × ((record_observed_balance done balance).status ≡ WagerTransactionStatus.processed)
  unfolding mark_processed record_observed_balance
  mark_processed-status tx reference at balance e = ground arith

  module _ (sys : System) (ctx : ProcessingContext) where
    pub record_loss-LeftAs :
        (wallet : Wallet V) (tx : WagerTransaction V) (w : World V)
        → find_transaction tx.id w.store ≡ some tx
        → After
            (λ a w'. ((a.1).status ≡ WagerTransactionStatus.processed) × LeftAs tx (a.1) w'.store)
            Anything
            (record_loss sys wallet tx ctx w)
    unfolding record_loss event_context
    record_loss-LeftAs wallet tx w h = elim (Result-cases (mark_processed tx none sys.now)) [
      | inr (x, e) ↦ ground (arith, e)
      | inl (marked, e) ↦
          let done = record_observed_balance marked wallet.balance in
          let (i, st) = mark_processed-status tx none sys.now wallet.balance e in
          elim (Result-cases (save_transaction done w.store)) [
            | inr (x, e') ↦ ground (arith, e, e')
            | inl (s, e') ↦
                let left = save_transaction-LeftAs done tx w.store h i e' in
                ground (arith, e, e', left, st)
          ]
    ]

    pub move_balance-LeftAs :
        (wallet : Wallet V) (tx : WagerTransaction V) (reference : Option (WagerTransaction V))
        (w : World V)
        → find_transaction tx.id w.store ≡ some tx
        → After
            (λ a w'. ((a.1).status ≡ WagerTransactionStatus.processed) × LeftAs tx (a.1) w'.store)
            Anything
            (move_balance sys wallet tx reference ctx w)
    unfolding move_balance event_context
    move_balance-LeftAs wallet tx reference w h =
        elim (Result-cases (ledger_direction_for tx reference)) [
          | inr (x, e) ↦ ground (arith, e)
          | inl (d, e) ↦
              elim (Result-cases
                (booking d wallet (movement_of sys tx w) (requires_reference tx))) [
                  | inr (x, b) ↦ ground (arith, e, b)
                  | inl ((moved, entry), b) ↦ elim (Result-cases (save_wallet moved w.store)) [
                    | inr (x, e1) ↦ ground (arith, e, b, e1)
                    | inl (s1, e1) ↦ elim (Result-cases (insert_entry entry s1)) [
                      | inr (x, e2) ↦ ground (arith, e, b, e1, e2)
                      | inl (s2, e2) ↦
                          elim (Result-cases (mark_processed tx (reference_id reference) sys.now)) [
                            | inr (x, e3) ↦ ground (arith, e, b, e1, e2, e3)
                            | inl (marked, e3) ↦
                                let done = record_observed_balance marked moved.balance in
                                let (i, st) =
                                  mark_processed-status tx (reference_id reference) sys.now
                                    moved.balance e3 in
                                let h2 =
                                  find_transaction-kept tx.id w.store s2
                                    (books-kept moved entry w.store e1 e2)
                                  ∙ h in
                                elim (Result-cases (save_transaction done s2)) [
                                  | inr (x, e4) ↦ ground (arith, e, b, e1, e2, e3, e4)
                                  | inl (s3, e4) ↦
                                      let left = save_transaction-LeftAs done tx s2 h2 i e4 in
                                      ground (arith, e, b, e1, e2, e3, e4, left, st)
                                ]
                          ]
                    ]
                  ]
                ]
        ]
