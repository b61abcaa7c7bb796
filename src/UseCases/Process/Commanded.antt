-- ===== src/UseCases/Process/Commanded.antt =====
-- The transaction that a command of
-- src/application/use-cases/process-wager-transaction/process-wager-transaction.use-case.ts asks for, and the direction
-- in which it moves the wallet.
use jungle_challenge.Common.{
  ◌≡◌, ◌≢◌, sym, subst, true, ◌∷◌, ◌&&◌, string_eq, String, Option, none, some, ok, arith, ◌==◌,
}
use jungle_challenge.Application.Action.{System, World}
use jungle_challenge.Application.Rules.{After}
use jungle_challenge.Money.{Money, from}
use jungle_challenge.Money.Decimal.{Decimals}
use jungle_challenge.Persistence.Repositories.{insert_transaction, find_by_provider_and_external_id}
use jungle_challenge.Persistence.Store.{Store}
use jungle_challenge.Persistence.Tables.{find_row}
use jungle_challenge.UseCases.Accounting.{Reason, Anything, Effect}
use jungle_challenge.UseCases.Accounting.Settling.{resolve_and_settle-Effect}
use jungle_challenge.UseCases.Command.{ProcessWagerTransactionCommand, required}
use jungle_challenge.UseCases.Directions.{Moves, Moves-alone, Moves-reversal, find_row_behind}
use jungle_challenge.UseCases.Settlement.{resolve_and_settle}
use jungle_challenge.UseCases.Process.{creation_props}
use jungle_challenge.Wagering.Factory.{create}
use jungle_challenge.Wagering.State.{WagerTransaction}
use jungle_challenge.Wagering.Transaction.{is_processed}
use jungle_challenge.Wagering.Vocabulary.{
  LedgerDirection, WagerTransactionKind, WagerTransactionStatus, kind_eq, status_eq,
}
use jungle_challenge.Wallet.{Wallet}

module _ {V : Type 0} ⦃D : Decimals V⦄ (sys : System)
    (command : ProcessWagerTransactionCommand) where
  -- The transaction is the command's.
  pub record IsCommanded (tx : WagerTransaction V) : Type 0 where
    pub kind : tx.kind ≡ command.kind
    pub wallet_id : tx.wallet_id ≡ command.wallet_id
    pub money : from command.money ≡ ok tx.money
    pub provider_id : tx.provider_id ≡ command.provider_id
    pub reference : tx.reference_external_transaction_id ≡ command.reference_external_transaction_id
    pub pending : tx.status ≡ WagerTransactionStatus.pending
    pub plays : tx.kind ≢ WagerTransactionKind.opening

  -- The wallet moves in the direction of the command's kind; that of a reversal is told by the reference
  -- that the command names, a processed row.
  abbrev pub Directs : Store V → Reason V
  Directs s none d = Moves command.kind none d
  Directs s (some r) d =
      Moves command.kind (some r.kind) d
      × (r.status ≡ WagerTransactionStatus.processed)
      × (find_by_provider_and_external_id command.provider_id
            (required command.reference_external_transaction_id) s
          ≡ some r)

  pub created-IsCommanded :
      (hash : String) (money : Money V) (id : String) {tx : WagerTransaction V}
      → from command.money ≡ ok money
      → create (creation_props sys command hash money id) ≡ ok tx
      → IsCommanded tx
  unfolding create
  created-IsCommanded hash money id parsed e = ground (arith, parsed)

  commanded_kind :
      (tx : WagerTransaction V) (r : Option WagerTransactionKind) (d : LedgerDirection)
      → IsCommanded tx
      → Moves tx.kind r d
      → Moves command.kind r d
  commanded_kind tx r d given m = subst (λ k. Moves k r d) (given.kind) m

  pub inserted_rows :
      (tx : WagerTransaction V) (s : Store V) {s' : Store V}
      → insert_transaction tx s ≡ ok s'
      → s'.transactions ≡ tx ∷ s.transactions
  unfolding insert_transaction
  inserted_rows tx s e = ground arith

  -- The reference that the search found after the transaction was inserted was there before.
  found_before :
      (tx r : WagerTransaction V) (s s' : Store V)
      → IsCommanded tx
      → s'.transactions ≡ tx ∷ s.transactions
      → is_processed r ≡ true
      → find_by_provider_and_external_id tx.provider_id
          (required tx.reference_external_transaction_id)
          s'
        ≡ some r
      → find_by_provider_and_external_id command.provider_id
          (required command.reference_external_transaction_id)
          s
        ≡ some r
  unfolding find_by_provider_and_external_id
  found_before tx r s s' given e done f =
      let named = λ (t : WagerTransaction V).
        t.provider_id == tx.provider_id
        && t.external_transaction_id == required tx.reference_external_transaction_id in
      rw (sym (given.provider_id), sym (given.reference))
        (find_row_behind named tx r s.transactions given.pending done
          (subst (λ ts. find_row named ts ≡ some r) e f))

  processed_status :
      (r : WagerTransaction V) → is_processed r ≡ true → r.status ≡ WagerTransactionStatus.processed
  unfolding is_processed
  processed_status r e = ground (arith, e)

  pub settled-Directs :
      (wallet : Wallet V) (tx : WagerTransaction V) (s : Store V) (w : World V)
      → IsCommanded tx
      → w.store.transactions ≡ tx ∷ s.transactions
      → After
          (λ _ w'. Effect (Directs s) wallet tx w.store w'.store)
          Anything
          (resolve_and_settle sys command wallet tx w)
  settled-Directs wallet tx s w given e =
      resolve_and_settle-Effect sys command (Directs s) wallet tx w
        (λ d alone directed.
          commanded_kind tx none d given (Moves-alone tx d given.plays alone directed))
        (λ r d reversal f done matched directed. (
          commanded_kind tx (some r.kind) d given (Moves-reversal tx r d reversal matched directed),
          processed_status r done,
          found_before tx r s w.store given e done f,
        ))
