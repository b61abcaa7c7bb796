-- ===== src/UseCases/Creation/Calls.antt =====
-- The use case that opens a wallet, from the start of the call to its end.
use jungle_challenge.Common.{
  ◌≡◌, refl, sym, ◌∙◌, ◌∷◌, inl, inr, true, String, Option, none, some, ok, err, arith, Result,
  Bool-cases, if◌then◌else◌,
}
use jungle_challenge.Application.Action.{
  System, World, Action, pure, reading, writing, lift, run, ◌>>=◌, ◌>>◌,
}
use jungle_challenge.Application.Fault.{Fault}
use jungle_challenge.Application.Rules.{
  After, After-bind, After-attempt, After-run, After-writing, After-lift, After-weaken,
}
use jungle_challenge.Errors.{Checked}
use jungle_challenge.Money.{Money, from}
use jungle_challenge.Money.Decimal.{Decimals}
use jungle_challenge.Persistence.Columns.{fits}
use jungle_challenge.Persistence.Repositories.{
  find_wallet, insert_wallet, find_wallet_by_player_and_currency,
}
use jungle_challenge.Persistence.Store.{Store}
use jungle_challenge.UseCases.Accounting.{Anything}
use jungle_challenge.UseCases.Conservation.{IsReconciled}
use jungle_challenge.UseCases.Creation.{
  CreateWalletCommand, CreateWalletResult, given_or_next, post_opening, translated, insert_new,
  store_wallet, opened, open_unless, create_with, create_wallet,
}
use jungle_challenge.UseCases.Creation.Conservation.{
  Opening, Opened-IsReconciled, insert_wallet_lem, open_wallet-IsSound, no_opening_balance, Posts,
  post_opening-Posts,
}
use jungle_challenge.Wallet.{Wallet, open_wallet, has_opening_balance}
use jungle_challenge.Wallet.Movements.{IsSound}

module _ {V : Type 0} ⦃D : Decimals V⦄ where
  -- The wallet was inserted as new.
  abbrev Inserted : Wallet V → Store V → Store V → Type 0
  Inserted wallet s s' =
      (fits wallet.balance ≡ true)
      × (s'.wallets ≡ wallet ∷ s.wallets)
      × (s'.ledger ≡ s.ledger)
      × (find_wallet wallet.id s ≡ none)

  Opening-from :
      (wallet : Wallet V) (s t u : Store V)
      → t.ledger ≡ s.ledger
      → Opening wallet t u
      → Opening wallet s u
  Opening-from wallet s t u l (inl (z, l')) = inl (z, l' ∙ l)
  Opening-from wallet s t u l (inr (e, o, l')) = inr (e, o, rw (sym l) l')

  module _ (sys : System) where
    refused :
        (wallet : Wallet V) (w : World V) (fault : Fault)
        → After
            (λ _ w'. Inserted wallet w.store w'.store)
            Anything
            (translated sys wallet.player_id wallet.balance.currency fault w)
    refused wallet w fault = ground arith

    insert_new-Inserted :
        (wallet : Wallet V) (w : World V)
        → After (λ _ w'. Inserted wallet w.store w'.store) Anything (insert_new sys wallet w)
    unfolding insert_new
    insert_new-Inserted wallet w =
        After-attempt _ _ (writing (insert_wallet wallet)) pure
          (translated sys wallet.player_id wallet.balance.currency) w
          (After-writing _ _ (insert_wallet wallet) w (λ s e. insert_wallet_lem wallet w.store e)
            (λ fault _. refused wallet w fault))

    balance-Posts :
        (wallet : Wallet V) (initial : Money V) (correlation_id : String) (w : World V)
        → IsSound wallet
        → After
            (λ _ w'. Posts sys wallet w.store w'.store)
            Anything
            ((if has_opening_balance wallet
                then post_opening sys wallet initial correlation_id
                else pure tt)
              w)
    balance-Posts wallet initial correlation_id w sound =
        elim (Bool-cases (has_opening_balance wallet)) [
          | inl opens ↦ rw opens (post_opening-Posts sys wallet initial correlation_id w)
          | inr empty ↦ rw empty (refl, inl (no_opening_balance wallet sound empty, refl))
        ]

    store_wallet-IsReconciled :
        (initial : Money V) (correlation_id : String) (wallet : Wallet V) (w : World V)
        → IsSound wallet
        → IsReconciled w.store
        → After
            (λ _ w'. IsReconciled w'.store)
            Anything
            (store_wallet sys initial correlation_id wallet w)
    unfolding store_wallet
    store_wallet-IsReconciled initial correlation_id wallet w sound r =
        let post : Action V (Unit {0}) =
          (if has_opening_balance wallet
            then post_opening sys wallet initial correlation_id
            else pure tt) in
        After-bind _ _ (insert_new sys wallet) (λ _. post >> pure (opened sys wallet)) w
          (After-weaken
            (λ _ w' (fit, ws, l, free).
              After-bind _ _ post (λ _. pure (opened sys wallet)) w'
                (After-weaken
                  (λ _ w'' (ws', opening).
                    Opened-IsReconciled wallet w.store w''.store sound fit free (ws' ∙ ws)
                      (Opening-from wallet w.store w'.store w''.store l opening) r)
                  (λ _ _ _. tt) (post w') (balance-Posts wallet initial correlation_id w' sound)))
            (λ _ _ _. tt) (insert_new sys wallet w) (insert_new-Inserted wallet w))

    open_unless-IsReconciled :
        (id : String) (initial : Money V) (player_id correlation_id : String)
        (existing : Option (Wallet V)) (w : World V)
        → IsReconciled w.store
        → After
            (λ _ w'. IsReconciled w'.store)
            Anything
            (open_unless sys id initial player_id correlation_id existing w)
    open_unless-IsReconciled id initial player_id correlation_id (some _) w r = tt
    open_unless-IsReconciled id initial player_id correlation_id none w r =
        let made = open_wallet id player_id initial sys.now in
        After-bind _ _ (lift made) (store_wallet sys initial correlation_id) w (
          After-lift _ _ made w
            (λ wallet e.
              store_wallet-IsReconciled initial correlation_id wallet w
                (open_wallet-IsSound id player_id initial sys.now e) r)
            (λ _ _. tt))

    run-IsReconciled :
        (id : String) (initial : Money V) (player_id correlation_id : String) (w : World V)
        → IsReconciled w.store
        → After
            (λ _ w'. IsReconciled w'.store)
            (λ _ w'. w'.store ≡ w.store)
            (run
              (reading (find_wallet_by_player_and_currency player_id initial.currency)
                >>= open_unless sys id initial player_id correlation_id)
              w)
    run-IsReconciled id initial player_id correlation_id w r =
        let body : Action V CreateWalletResult =
          reading (find_wallet_by_player_and_currency player_id initial.currency)
          >>= open_unless sys id initial player_id correlation_id in
        After-run _ _ body w (
          After-weaken (λ _ _ r'. r') (λ _ _ _. refl) (body w)
            (open_unless-IsReconciled id initial player_id correlation_id _ w r))

    -- Whatever the outcome, the store is reconciled.
    abbrev Reconciles : {A : Type 0} → Result Fault A × World V → Type 0
    Reconciles o = After (λ _ w. IsReconciled w.store) (λ _ w. IsReconciled w.store) o

    given_or_next-store :
        (given : Option String) (w : World V)
        → After
            (λ _ w'. w'.store ≡ w.store)
            (λ _ w'. w'.store ≡ w.store)
            (given_or_next sys given w)
    given_or_next-store none w = refl
    given_or_next-store (some s) w = refl

    create_with-IsReconciled :
        (command : CreateWalletCommand) (parsed : Checked (Money V)) (w : World V)
        → IsReconciled w.store
        → Reconciles (create_with sys command parsed w)
    create_with-IsReconciled command (err e) w r = r
    create_with-IsReconciled command (ok initial) w r =
        let rest : String → String → Action V CreateWalletResult = λ id correlation_id. run (
          reading (find_wallet_by_player_and_currency command.player_id initial.currency)
          >>= open_unless sys id initial command.player_id correlation_id) in
        After-bind _ _ (given_or_next sys command.wallet_id)
          (λ id. given_or_next sys command.correlation_id >>= rest id) w
          (After-weaken
            (λ id w1 same. After-bind _ _ (given_or_next sys command.correlation_id) (rest id) w1 (
              After-weaken
                (λ correlation_id w2 same'.
                  let back : w2.store ≡ w.store = same' ∙ same in
                  let r2 : IsReconciled ⦃D = D⦄ w2.store = rw back r in
                  After-weaken (λ _ _ r'. r') (λ _ w' e. rw e r2) (rest id correlation_id w2)
                    (run-IsReconciled id initial command.player_id correlation_id w2 r2))
                (λ _ w2 same'. let back : w2.store ≡ w.store = same' ∙ same in rw back r)
                (given_or_next sys command.correlation_id w1)
                (given_or_next-store command.correlation_id w1)))
            (λ _ w1 same. rw same r) (given_or_next sys command.wallet_id w)
            (given_or_next-store command.wallet_id w))

    ended : {A : Type 0} (o : Result Fault A × World V) → Reconciles o → IsReconciled (o.1.store)
    ended (ok a, w) r = r
    ended (err e, w) r = r

    -- Opening a wallet, whatever the outcome, leaves every wallet sound with the sum of its ledger
    -- entries as its balance, the new one included, if this was so of the others before.
    pub create_wallet-IsReconciled :
        (command : CreateWalletCommand) (w : World V)
        → IsReconciled w.store
        → IsReconciled ((create_wallet sys command w).1.store)
    unfolding create_wallet
    create_wallet-IsReconciled command w r =
        ended (create_wallet sys command w)
          (create_with-IsReconciled command (from command.initial_balance) w r)
