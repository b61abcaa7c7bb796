-- ===== src/UseCases/Process/Effects.antt =====
-- What `execute` of
-- src/application/use-cases/process-wager-transaction/process-wager-transaction.use-case.ts does to the wallets
-- and the ledger, from the start of the call to its end.
use jungle_challenge.Common.{
  ◌≡◌, refl, sym, string_eq, ◌+◌, ◌⊎◌, inl, inr, String, Option, none, some, ok, err, arith,
  Bool-cases, ◌==◌,
}
use jungle_challenge.Application.Action.{System, World, Action, writing, ◌>>=◌, ◌>>◌}
use jungle_challenge.Application.Rules.{After, After-bind, After-run, After-writing, After-weaken}
use jungle_challenge.Errors.{Checked}
use jungle_challenge.Money.{Money, from}
use jungle_challenge.Money.Decimal.{Decimals}
use jungle_challenge.Persistence.Laws.{SameBooks, SameBooks-trans, insert_transaction-SameBooks}
use jungle_challenge.Persistence.Repositories.{
  find_wallet, insert_transaction, insert_inbox, find_by_provider_and_external_id,
}
use jungle_challenge.Persistence.Store.{Store}
use jungle_challenge.UseCases.Accounting.{Anything, Effect, SameBooks-Effect}
use jungle_challenge.UseCases.Command.{
  InboxRef, ProcessWagerTransactionCommand, ProcessWagerTransactionResult,
}
use jungle_challenge.UseCases.Settlement.{resolve_and_settle}
use jungle_challenge.UseCases.Process.{
  check_inbox, check_prior, creation_props, created, process_in, process_new, unless_known, work,
  payload_hash_of, execute_with, execute,
}
use jungle_challenge.Wagering.Factory.{create}
use jungle_challenge.Wagering.State.{WagerTransaction}
use jungle_challenge.Wagering.Vocabulary.{LedgerDirection, WagerTransactionKind, kind_eq, status_eq}
use jungle_challenge.Wallet.{Wallet}
use jungle_challenge.UseCases.Process.Commanded.{
  IsCommanded, Directs, created-IsCommanded, inserted_rows, settled-Directs,
}

module _ {V : Type 0} ⦃D : Decimals V⦄ (sys : System)
    (command : ProcessWagerTransactionCommand) where
  -- The wallets, the ledger and the transactions are as they were.
  record SameRows (s s' : Store V) : Type 0 where
    books : SameBooks s s'
    transactions : s'.transactions ≡ s.transactions

  -- A call posts at most the command's transaction, on the command's wallet as it was found.
  abbrev pub Called : Store V → Store V → Type 0
  Called s s' =
      SameBooks s s'
      ⊎ (wallet : Wallet V) × (tx : WagerTransaction V) × (find_wallet command.wallet_id s
          ≡ some wallet)
        × IsCommanded sys command tx
        × Effect (Directs sys command s) wallet tx s s'

  check_inbox-SameRows :
      (inbox : Option InboxRef) (w : World V)
      → After (λ _ w'. SameRows w.store w'.store) Anything (check_inbox sys command inbox w)
  unfolding check_inbox insert_inbox
  check_inbox-SameRows none w = ground arith
  check_inbox-SameRows (some ref) w = ground arith

  check_prior-SameRows :
      (hash : String) (w : World V)
      → After (λ _ w'. SameRows w.store w'.store) Anything (check_prior sys command hash w)
  unfolding check_prior
  check_prior-SameRows hash w = ground arith

  created_then :
      (P : WagerTransaction V → World V → Type 0) (c : Checked (WagerTransaction V)) (w : World V)
      → ((tx : WagerTransaction V) → c ≡ ok tx → P tx w)
      → After P Anything (created sys command c w)
  created_then P (ok tx) w p = p tx refl
  created_then P (err e) w p = tt

  inserted-Called :
      (wallet : Wallet V) (tx : WagerTransaction V) (w : World V)
      → find_wallet command.wallet_id w.store ≡ some wallet
      → IsCommanded sys command tx
      → After
          (λ _ w'. Called w.store w'.store)
          Anything
          ((writing (insert_transaction tx) >> resolve_and_settle sys command wallet tx) w)
  inserted-Called wallet tx w found given =
      After-bind _ _ (writing (insert_transaction tx))
        (λ _. resolve_and_settle sys command wallet tx) w
        (After-writing _ _ (insert_transaction tx) w
          (λ s e.
            After-weaken
              (λ _ w' effect. inr (
                wallet,
                tx,
                found,
                given,
                SameBooks-Effect (Directs sys command w.store)
                    (insert_transaction-SameBooks tx w.store e) effect,
              ))
              (λ _ _ _. tt) (resolve_and_settle sys command wallet tx (record w { store = s }))
              (settled-Directs sys command wallet tx w.store (record w { store = s }) given
                (inserted_rows sys command tx w.store e)))
          (λ _ _. tt))

  process_in-Called :
      (hash : String) (money : Money V) (found : Option (Wallet V)) (w : World V)
      → from command.money ≡ ok money
      → find_wallet command.wallet_id w.store ≡ found
      → After (λ _ w'. Called w.store w'.store) Anything (process_in sys command hash money found w)
  process_in-Called hash money none w parsed found = tt
  process_in-Called hash money (some wallet) w parsed found =
      let props = creation_props sys command hash money (sys.id_at w.drawn) in
      After-bind _ _ (created sys command (create props))
        (λ tx. writing (insert_transaction tx) >> resolve_and_settle sys command wallet tx)
        (record w { drawn = w.drawn + 1 })
        (created_then _ (create props) _ (λ tx e.
          inserted-Called wallet tx (record w { drawn = w.drawn + 1 }) found
            (created-IsCommanded sys command hash money _ parsed e)))

  Directs-same :
      (s t : Store V) (r : Option (WagerTransaction V)) (d : LedgerDirection)
      → t.transactions ≡ s.transactions
      → Directs sys command t r d
      → Directs sys command s r d
  unfolding find_by_provider_and_external_id
  Directs-same s t none d e m = m
  Directs-same s t (some r) d e (m, done, f) = (m, done, rw (sym e) f)

  -- What came before changed neither the wallets nor the ledger nor the transactions.
  SameRows-Called : {s t u : Store V} → SameRows s t → Called t u → Called s u
  unfolding find_wallet
  SameRows-Called b (inl same) = inl (SameBooks-trans b.books same)
  SameRows-Called {s} {t} b (inr (wallet, tx, found, given, inl same)) =
      inr (wallet, tx, rw (sym (b.books.wallets)) found, given, inl (SameBooks-trans b.books same))
  SameRows-Called {s} {t} b (inr (wallet, tx, found, given, inr (r, moved, d, m, e, p, q))) = inr (
    wallet,
    tx,
    rw (sym (b.books.wallets)) found,
    given,
    SameBooks-Effect (Directs sys command s) b.books
        (inr (r, moved, d, m, e, p, Directs-same s t r d b.transactions q)),
  )

  unless_known-Called :
      (s : Store V) (rest : Action V ProcessWagerTransactionResult)
      (known : Option ProcessWagerTransactionResult) (w : World V)
      → SameRows s w.store
      → After (λ _ w'. Called w.store w'.store) Anything (rest w)
      → After (λ _ w'. Called s w'.store) Anything (unless_known sys command rest known w)
  unless_known-Called s rest none w b h =
      After-weaken (λ _ w' c. SameRows-Called b c) (λ _ _ _. tt) (rest w) h
  unless_known-Called s rest (some result) w b h = inl (b.books)

  prior_and_new-Called :
      (hash : String) (money : Money V) (w : World V)
      → from command.money ≡ ok money
      → After
          (λ _ w'. Called w.store w'.store)
          Anything
          ((check_prior sys command hash
              >>= unless_known sys command (process_new sys command hash money))
            w)
  unfolding process_new
  prior_and_new-Called hash money w parsed =
      After-bind _ _ (check_prior sys command hash)
        (unless_known sys command (process_new sys command hash money)) w
        (After-weaken
          (λ known w' b.
            unless_known-Called w.store (process_new sys command hash money) known w' b
              (process_in-Called hash money _ w' parsed refl))
          (λ _ _ _. tt) (check_prior sys command hash w) (check_prior-SameRows hash w))

  work-Called :
      (hash : String) (money : Money V) (w : World V)
      → from command.money ≡ ok money
      → After (λ _ w'. Called w.store w'.store) Anything (work sys command hash money w)
  unfolding work
  work-Called hash money w parsed =
      let rest =
        check_prior sys command hash
        >>= unless_known sys command (process_new sys command hash money) in
      After-bind _ _ (check_inbox sys command command.inbox) (unless_known sys command rest) w (
        After-weaken
          (λ known w' b.
            unless_known-Called w.store rest known w' b (prior_and_new-Called hash money w' parsed))
          (λ _ _ _. tt) (check_inbox sys command command.inbox w)
          (check_inbox-SameRows command.inbox w))

  execute_with-Called :
      (parsed : Checked (Money V)) (w : World V)
      → from command.money ≡ parsed
      → After
          (λ _ w'. Called w.store w'.store)
          (λ _ w'. w'.store ≡ w.store)
          (execute_with sys command parsed w)
  execute_with-Called (err e) w parsed = refl
  execute_with-Called (ok money) w parsed =
      elim (Bool-cases (command.kind == WagerTransactionKind.opening)) [
        | inl opens ↦ rw opens refl
        | inr plays ↦ rw plays (
            After-run _ _ (work sys command (payload_hash_of sys command money) money) w (
              After-weaken (λ _ _ c. c) (λ _ _ _. refl)
                (work sys command (payload_hash_of sys command money) money w)
                (work-Called (payload_hash_of sys command money) money w parsed)))
      ]

  -- A call that fails leaves the store as it was. A call that returns changes the wallets and the
  -- ledger at most by one posting: it moves the command's wallet, as it was found, by the amount of a
  -- transaction of the command's kind and money, and adds the entry that the wallet made of it. A bet
  -- is debited and a win credited; a refund credits a bet; a rollback credits a bet and debits a win or a
  -- refund. The reference of a refund or a rollback is the processed row that the command names.
  pub execute-Called :
      (w : World V)
      → After (λ _ w'. Called w.store w'.store) (λ _ w'. w'.store ≡ w.store) (execute sys command w)
  unfolding execute
  execute-Called w = execute_with-Called (from command.money) w refl
