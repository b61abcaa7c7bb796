-- ===== src/UseCases/Recording.antt =====
-- What a call records of its transaction: the row that it inserts, as later calls find it.
pub mod Settling
use jungle_challenge.Common.{
  ℕ, ◌≡◌, refl, ◌∙◌, ◌⊎◌, inl, inr, Bool, false, String, Option, none, List, [], ◌∷◌, ok, arith,
  Result-cases, ◌==◌, string_eq, ==_refl,
}
use jungle_challenge.Application.Action.{System, World}
use jungle_challenge.Application.Rules.{After}
use jungle_challenge.Money.Decimal.{Decimals}
use jungle_challenge.Money.{Money}
use jungle_challenge.Persistence.Repositories.{
  save_wallet, insert_entry, save_transaction, insert_outbox, overwrite_transaction,
}
use jungle_challenge.Persistence.Store.{Store}
use jungle_challenge.Persistence.Tables.{has_row, update_rows}
use jungle_challenge.UseCases.Accounting.{Anything}
use jungle_challenge.UseCases.Command.{
  ProcessWagerTransactionCommand, ProcessWagerTransactionResult, context_of, persisted_result,
}
use jungle_challenge.UseCases.Posting.{booking, movement_of}
use jungle_challenge.UseCases.Processing.{
  event_context, reject_transaction, record_loss, move_balance, reference_id,
}
use jungle_challenge.Wagering.State.{WagerTransaction}
use jungle_challenge.Wagering.Transaction.{
  mark_processed, reject, record_observed_balance, ledger_direction_for, requires_reference,
}
use jungle_challenge.Wagering.Vocabulary.{FailureCode, WagerTransactionStatus}
use jungle_challenge.Wallet.{Wallet}
use jungle_challenge.Wallet.Entry.{WalletLedgerEntry}

-- Processed, waiting for the reference, or rejected.
abbrev pub IsSettled : WagerTransactionStatus → Type 0
IsSettled status =
    (status ≡ WagerTransactionStatus.processed)
    ⊎ ((status ≡ WagerTransactionStatus.pending_reference)
        ⊎ (status ≡ WagerTransactionStatus.rejected))

-- Where no row meets the condition, an update changes nothing.
update_rows_none {ℓ} :
    {A : Type ℓ} (p : A → Bool) (f : A → A) (xs : List A)
    → has_row p xs ≡ false
    → update_rows p f xs ≡ xs
update_rows_none p f [] h = refl
update_rows_none p f (x ∷ xs) h = ground (arith, update_rows_none p f xs)

module _ {V : Type 0} where
  -- The result says what the row says.
  pub record Tells (r : ProcessWagerTransactionResult) (t : WagerTransaction V) : Type 0 where
    pub transaction_id : r.transaction_id ≡ t.id
    pub status : r.status ≡ t.status
    pub failure_code : r.failure_code ≡ t.failure_code
    pub first : r.idempotent_replay ≡ false
    pub settled : IsSettled r.status

  -- The first row is that of `tx`, as the result tells it, and the others are `ts`.
  abbrev pub Recorded :
      WagerTransaction V
      → List (WagerTransaction V)
      → ProcessWagerTransactionResult
      → List (WagerTransaction V)
      → Type 0
  Recorded tx ts r [] = ⊥
  Recorded tx ts r (t ∷ others) =
      (others ≡ ts)
      × (t.idempotency_key ≡ tx.idempotency_key)
      × (t.payload_hash ≡ tx.payload_hash)
      × Tells r t

  -- No other row has the id.
  abbrev pub IsNew : WagerTransaction V → List (WagerTransaction V) → Type 0
  IsNew tx ts = has_row (λ t. t.id == tx.id) ts ≡ false

module _ {V : Type 0} ⦃D : Decimals V⦄ where
  pub save_transaction-first :
      (done tx : WagerTransaction V) (ts : List (WagerTransaction V)) (s : Store V) {s' : Store V}
      → s.transactions ≡ tx ∷ ts
      → IsNew tx ts
      → done.id ≡ tx.id
      → save_transaction done s ≡ ok s'
      → s'.transactions ≡ overwrite_transaction done tx ∷ ts
  unfolding save_transaction
  save_transaction-first done tx ts s h new i e = ground (
    arith,
    ==_refl tx.id,
    update_rows_none (λ t. t.id == tx.id) (overwrite_transaction done) ts new,
  )

  -- Saving the wallet and the entry leaves the transactions.
  books-transactions :
      (moved : Wallet V) (entry : WalletLedgerEntry V) (s : Store V) {s1 s2 : Store V}
      → save_wallet moved s ≡ ok s1
      → insert_entry entry s1 ≡ ok s2
      → s2.transactions ≡ s.transactions
  unfolding save_wallet insert_entry
  books-transactions moved entry s e1 e2 = ground arith

  -- `done` is `tx` settled, with the same identity.
  pub record Continues (tx done : WagerTransaction V) : Type 0 where
    pub id : done.id ≡ tx.id
    pub key : done.idempotency_key ≡ tx.idempotency_key
    pub hash : done.payload_hash ≡ tx.payload_hash
    pub settled : IsSettled done.status

  reject-Continues :
      (tx : WagerTransaction V) (code : FailureCode) (balance : Money V) {done : WagerTransaction V}
      → reject tx code ≡ ok done
      → Continues tx (record_observed_balance done balance)
  unfolding reject record_observed_balance
  reject-Continues tx code balance e = ground arith

  mark_processed-Continues :
      (tx : WagerTransaction V) (reference : Option String) (at : ℕ) (balance : Money V)
      {done : WagerTransaction V}
      → mark_processed tx reference at ≡ ok done
      → Continues tx (record_observed_balance done balance)
  unfolding mark_processed record_observed_balance
  mark_processed-Continues tx reference at balance e = ground arith

  -- A row that was saved, at the head of the transactions.
  abbrev pub Saved :
      WagerTransaction V → WagerTransaction V → List (WagerTransaction V) → Store V → Type 0
  Saved tx done ts s = Continues tx done × (s.transactions ≡ overwrite_transaction done tx ∷ ts)

  module _ (sys : System) (command : ProcessWagerTransactionCommand) where
    pub told-Recorded :
        (tx done : WagerTransaction V) (ts : List (WagerTransaction V)) (balance : Money V)
        (s : Store V)
        → Saved tx done ts s
        → Recorded tx ts (persisted_result done balance) s.transactions
    unfolding persisted_result
    told-Recorded tx done ts balance s (c, h) = ground arith

    pub reject_transaction-Saved :
        (wallet : Wallet V) (tx : WagerTransaction V) (ts : List (WagerTransaction V))
        (code : FailureCode) (w : World V)
        → w.store.transactions ≡ tx ∷ ts
        → IsNew tx ts
        → After
            (λ done w'. Saved tx done ts w'.store)
            Anything
            (reject_transaction sys wallet tx code (context_of command) w)
    unfolding reject_transaction event_context insert_outbox
    reject_transaction-Saved wallet tx ts code w h new = elim (Result-cases (reject tx code)) [
      | inr (x, e) ↦ ground (arith, e)
      | inl (rejected, e) ↦
          let done = record_observed_balance rejected wallet.balance in
          let c = reject-Continues tx code wallet.balance e in
          elim (Result-cases (save_transaction done w.store)) [
            | inr (x, e') ↦ ground (arith, e, e')
            | inl (s, e') ↦
                let first = save_transaction-first done tx ts w.store h new c.id e' in
                ground (arith, e, e', first, c)
          ]
    ]

    pub record_loss-Saved :
        (wallet : Wallet V) (tx : WagerTransaction V) (ts : List (WagerTransaction V)) (w : World V)
        → w.store.transactions ≡ tx ∷ ts
        → IsNew tx ts
        → After
            (λ a w'. Saved tx (a.1) ts w'.store)
            Anything
            (record_loss sys wallet tx (context_of command) w)
    unfolding record_loss event_context
    record_loss-Saved wallet tx ts w h new = elim (Result-cases (mark_processed tx none sys.now)) [
      | inr (x, e) ↦ ground (arith, e)
      | inl (marked, e) ↦
          let done = record_observed_balance marked wallet.balance in
          let c = mark_processed-Continues tx none sys.now wallet.balance e in
          elim (Result-cases (save_transaction done w.store)) [
            | inr (x, e') ↦ ground (arith, e, e')
            | inl (s, e') ↦
                let first = save_transaction-first done tx ts w.store h new c.id e' in
                ground (arith, e, e', first, c)
          ]
    ]

    pub move_balance-Saved :
        (wallet : Wallet V) (tx : WagerTransaction V) (reference : Option (WagerTransaction V))
        (ts : List (WagerTransaction V)) (w : World V)
        → w.store.transactions ≡ tx ∷ ts
        → IsNew tx ts
        → After
            (λ a w'. Saved tx (a.1) ts w'.store)
            Anything
            (move_balance sys wallet tx reference (context_of command) w)
    unfolding move_balance event_context
    move_balance-Saved wallet tx reference ts w h new =
        elim (Result-cases (ledger_direction_for tx reference)) [
          | inr (x, e) ↦ ground (arith, e)
          | inl (d, e) ↦
              elim (Result-cases
                (booking d wallet (movement_of sys tx w) (requires_reference tx))) [
                  | inr (x, b) ↦ ground (arith, e, b)
                  | inl ((moved, entry), b) ↦ elim (Result-cases (save_wallet moved w.store)) [
                    | inr (x, e1) ↦ ground (arith, e, b, e1)
                    | inl (s1, e1) ↦ elim (Result-cases (insert_entry entry s1)) [
                      | inr (x, e2) ↦ ground (arith, e, b, e1, e2)
                      | inl (s2, e2) ↦
                          elim (Result-cases (mark_processed tx (reference_id reference) sys.now)) [
                            | inr (x, e3) ↦ ground (arith, e, b, e1, e2, e3)
                            | inl (marked, e3) ↦
                                let done = record_observed_balance marked moved.balance in
                                let c =
                                  mark_processed-Continues tx (reference_id reference) sys.now
                                    moved.balance e3 in
                                let h2 = books-transactions moved entry w.store e1 e2 ∙ h in
                                elim (Result-cases (save_transaction done s2)) [
                                  | inr (x, e4) ↦ ground (arith, e, b, e1, e2, e3, e4)
                                  | inl (s3, e4) ↦
                                      let first =
                                        save_transaction-first done tx ts s2 h2 new c.id e4 in
                                      ground (arith, e, b, e1, e2, e3, e4, first, c)
                                ]
                          ]
                    ]
                  ]
                ]
        ]
