-- ===== src/UseCases/Creation/Conservation.antt =====
-- Opening a wallet conserves money: its balance is the sum of its entries from the start.
use jungle_challenge.Common.{
  different, ℕ, ◌+◌, ◌≡◌, ◌≢◌, refl, sym, ◌∙◌, ◌⊎◌, inl, inr, Bool, true, false, String, Option,
  none, some, List, [], ◌∷◌, ok, arith, Bool-cases, ◌==◌, string_eq, str_iff, ==_refl,
}
use jungle_challenge.Common.Int.{ℤ, pos, ◌+ℤ◌, int_laws, eq_of_parts}
use jungle_challenge.Application.Action.{System, World, lift, next_id, ◌>>=◌}
use jungle_challenge.Application.Rules.{After, After-bind, After-lift, After-weaken}
use jungle_challenge.Money.{Money}
use jungle_challenge.Money.Decimal.{Decimals}
use jungle_challenge.Money.Laws.{units, is_positive_false, is_negative_lem}
use jungle_challenge.Persistence.Columns.{fits}
use jungle_challenge.Persistence.Repositories.{
  find_wallet, insert_wallet, insert_transaction, insert_entry, insert_outbox, insert_many_outbox,
}
use jungle_challenge.Persistence.Store.{Store}
use jungle_challenge.Persistence.Tables.{find_row, has_row}
use jungle_challenge.UseCases.Accounting.{Anything}
use jungle_challenge.UseCases.Conservation.{posted_sum, IsReconciled, found_id}
use jungle_challenge.UseCases.Creation.{record_opening, post_opening}
use jungle_challenge.UseCases.Processing.{event_context}
use jungle_challenge.Wagering.Factory.{opening}
use jungle_challenge.Wagering.State.{WagerTransaction}
use jungle_challenge.Wagering.Vocabulary.{direction_eq}
use jungle_challenge.Wallet.{Wallet, open_wallet, has_opening_balance, opening_ledger_entry}
use jungle_challenge.Wallet.Entry.{WalletLedgerEntry, signed_amount, create}
use jungle_challenge.Wallet.Movements.{IsSound}

not_found {ℓ} :
    {A : Type ℓ} (p : A → Bool) (xs : List A) → has_row p xs ≡ false → find_row p xs ≡ none
not_found p [] e = refl
not_found p (x ∷ xs) e = ground (arith, not_found p xs)

plus_zero : (a : ℤ) → a +ℤ pos 0 ≡ a
plus_zero a = omega int_laws

module _ {V : Type 0} ⦃D : Decimals V⦄ where
  -- The entry stands for the whole balance of the wallet.
  pub record Opens (wallet : Wallet V) (entry : WalletLedgerEntry V) : Type 0 where
    pub wallet_id : entry.wallet_id ≡ wallet.id
    pub amount : units (signed_amount entry) ≡ units wallet.balance

  -- The ledger has the wallet's opening entry, if it has a balance.
  abbrev pub Opening : Wallet V → Store V → Store V → Type 0
  Opening wallet s s' =
      (units wallet.balance ≡ pos 0) × (s'.ledger ≡ s.ledger)
      ⊎ (entry : WalletLedgerEntry V) × Opens wallet entry × (s'.ledger ≡ entry ∷ s.ledger)

  sum_here :
      (wallet : Wallet V) (s s' : Store V)
      → Opening wallet s s'
      → posted_sum wallet.id s.ledger ≡ pos 0
      → units wallet.balance ≡ posted_sum wallet.id s'.ledger
  unfolding signed_amount
  sum_here wallet s s' (inl (z, l)) n = rw l (z ∙ sym n)
  sum_here wallet s s' (inr (entry, o, l)) n =
      rw (l, o.wallet_id, ==_refl wallet.id, n) (sym (o.amount) ∙ sym (plus_zero _))

  sum_elsewhere :
      (wallet : Wallet V) (s s' : Store V) (id : String)
      → wallet.id ≢ id
      → Opening wallet s s'
      → posted_sum id s'.ledger ≡ posted_sum id s.ledger
  sum_elsewhere wallet s s' id apart (inl (z, l)) = rw l refl
  sum_elsewhere wallet s s' id apart (inr (entry, o, l)) =
      rw l (ground (arith, str_iff entry.wallet_id id, o, apart))

  find_inserted :
      (wallet : Wallet V) (s s' : Store V) (id : String)
      → s'.wallets ≡ wallet ∷ s.wallets
      → (wallet.id == id) ≡ true
      → find_wallet id s' ≡ some wallet
  unfolding find_wallet
  find_inserted wallet s s' id ws same = rw (ws, same) refl

  find_others :
      (wallet : Wallet V) (s s' : Store V) (id : String)
      → s'.wallets ≡ wallet ∷ s.wallets
      → (wallet.id == id) ≡ false
      → find_wallet id s' ≡ find_wallet id s
  unfolding find_wallet
  find_others wallet s s' id ws other = rw (ws, other) refl

  -- A new wallet with its opening entry keeps the store reconciled.
  pub Opened-IsReconciled :
      (wallet : Wallet V) (s s' : Store V)
      → IsSound wallet
      → fits wallet.balance ≡ true
      → find_wallet wallet.id s ≡ none
      → s'.wallets ≡ wallet ∷ s.wallets
      → Opening wallet s s'
      → IsReconciled s
      → IsReconciled s'
  Opened-IsReconciled wallet s s' sound fit free ws opening r = record {
    covered = λ id w f. elim (Bool-cases (wallet.id == id)) [
      | inl same ↦
          let here = find_inserted wallet s s' id ws same in
          let whole = sum_here wallet s s' opening (r.strays wallet.id free) in
          let equal : w ≡ wallet = cc in
          rw equal (record { sound = sound; fitting = fit; balanced = whole })
      | inr other ↦
          let there = find_others wallet s s' id ws other in
          let c = r.covered id w (sym there ∙ f) in
          let apart = different wallet.id id other in
          record {
            sound = c.sound;
            fitting = c.fitting;
            balanced =
                c.balanced
                ∙ sym (
                    sum_elsewhere wallet s s' w.id (λ e. apart (e ∙ found_id id s (sym there ∙ f)))
                      opening);
          }
    ];
    strays = λ id f. elim (Bool-cases (wallet.id == id)) [
      | inl same ↦ let here = find_inserted wallet s s' id ws same in cc
      | inr other ↦
          let there = find_others wallet s s' id ws other in
          sum_elsewhere wallet s s' id (different wallet.id id other) opening
          ∙ r.strays id (sym there ∙ f)
    ];
  }

  pub insert_wallet_lem :
      (w : Wallet V) (s : Store V) {s' : Store V}
      → insert_wallet w s ≡ ok s'
      → (fits w.balance ≡ true)
        × (s'.wallets ≡ w ∷ s.wallets)
        × (s'.ledger ≡ s.ledger)
        × (find_wallet w.id s ≡ none)
  unfolding insert_wallet find_wallet
  insert_wallet_lem w s e = ground (arith, not_found (λ u. u.id == w.id) s.wallets)

  pub open_wallet-IsSound :
      (id player_id : String) (initial : Money V) (now : ℕ) {w : Wallet V}
      → open_wallet id player_id initial now ≡ ok w
      → IsSound w
  unfolding open_wallet
  open_wallet-IsSound id player_id initial now e = ground (arith, is_negative_lem initial)

  opening_ledger_entry-Opens :
      (w : Wallet V) (tx_id id : String) (at : ℕ) {entry : WalletLedgerEntry V}
      → opening_ledger_entry w tx_id id at ≡ ok (some entry)
      → Opens w entry
  unfolding opening_ledger_entry create signed_amount
  opening_ledger_entry-Opens w tx_id id at e = ground arith

  pub no_opening_balance :
      (w : Wallet V) → IsSound w → has_opening_balance w ≡ false → units w.balance ≡ pos 0
  unfolding has_opening_balance
  no_opening_balance w sound e =
      ground (arith, is_positive_false w.balance, eq_of_parts (units w.balance) (pos 0))

  module _ (sys : System) where
    record_opening-ledger :
        (wallet : Wallet V) (tx : WagerTransaction V) (correlation_id : String)
        (entry : WalletLedgerEntry V) (w : World V)
        → After
            (λ _ w'.
              (w'.store.wallets ≡ w.store.wallets) × (w'.store.ledger ≡ entry ∷ w.store.ledger))
            Anything
            (record_opening sys wallet tx correlation_id (some entry) w)
    unfolding record_opening event_context insert_transaction insert_entry insert_many_outbox
        insert_outbox
    record_opening-ledger wallet tx correlation_id entry w = ground arith

    -- The opening posted over a store that holds the wallet.
    abbrev pub Posts : Wallet V → Store V → Store V → Type 0
    Posts wallet s s' = (s'.wallets ≡ s.wallets) × Opening wallet s s'

    record_opening-Posts :
        (wallet : Wallet V) (tx : WagerTransaction V) (correlation_id id : String)
        (found : Option (WalletLedgerEntry V)) (w : World V)
        → opening_ledger_entry wallet tx.id id sys.now ≡ ok found
        → After
            (λ _ w'. Posts wallet w.store w'.store)
            Anything
            (record_opening sys wallet tx correlation_id found w)
    unfolding record_opening
    record_opening-Posts wallet tx correlation_id id none w e = tt
    record_opening-Posts wallet tx correlation_id id (some entry) w e =
        After-weaken
          (λ _ w' (ws, l).
            (ws, inr (entry, opening_ledger_entry-Opens wallet tx.id id sys.now e, l)))
          (λ _ _ _. tt) (record_opening sys wallet tx correlation_id (some entry) w)
          (record_opening-ledger wallet tx correlation_id entry w)

    -- Posting the opening leaves the wallets and adds the opening entry.
    pub post_opening-Posts :
        (wallet : Wallet V) (initial : Money V) (correlation_id : String) (w : World V)
        → After
            (λ _ w'. Posts wallet w.store w'.store)
            Anything
            (post_opening sys wallet initial correlation_id w)
    unfolding post_opening
    post_opening-Posts wallet initial correlation_id w =
        let w1 = record w { drawn = w.drawn + 1 } in
        let w2 = record w { drawn = w.drawn + 1 + 1 } in
        let made = opening (sys.id_at w.drawn) wallet.id wallet.player_id initial sys.now in
        After-bind _ _ (lift made)
          (λ tx. next_id sys >>= λ id.
            lift (opening_ledger_entry wallet tx.id id sys.now)
            >>= record_opening sys wallet tx correlation_id)
          w1
          (After-lift _ _ made w1
            (λ tx _.
              let entry = opening_ledger_entry wallet tx.id (sys.id_at w1.drawn) sys.now in
              After-bind _ _ (lift entry) (record_opening sys wallet tx correlation_id) w2 (
                After-lift _ _ entry w2
                  (λ found e. record_opening-Posts wallet tx correlation_id _ found w2 e)
                  (λ _ _. tt)))
            (λ _ _. tt))
