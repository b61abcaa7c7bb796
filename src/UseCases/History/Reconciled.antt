-- ===== src/UseCases/History/Reconciled.antt =====
-- The reconciliation of src/application/use-cases/reconcile-wallet after a history of requests.
use jungle_challenge.Common.{◌≡◌, true, String, some, List, [], Result, ok, err, inl, inr, arith}
use jungle_challenge.Common.Int.{ℤ, ◌-ℤ◌}
use jungle_challenge.Application.Action.{World}
use jungle_challenge.Application.Fault.{Fault}
use jungle_challenge.Money.Amount.{codes, is_currency}
use jungle_challenge.Money.Decimal.{Decimals, IsExact}
use jungle_challenge.Persistence.Repositories.{find_wallet}
use jungle_challenge.UseCases.Conservation.{found_id, posted_sum}
use jungle_challenge.UseCases.History.{Request, handle_all, empty_world, history-IsReconciled}
use jungle_challenge.UseCases.Reconciliation.{ReconciliationView, reconcile}
use jungle_challenge.UseCases.Reconciliation.Balance.{IsJudged, reconcile-IsJudged}
use jungle_challenge.Wallet.{Wallet}

difference-IsExact : (a b : ℤ) → a ≡ b → IsExact (a -ℤ b)
unfolding ◌-ℤ◌
difference-IsExact a b e = rw e (ground arith)

module _ {V : Type 0} where
  -- Consistent, nothing to tell, nothing changed.
  abbrev pub IsQuiet :
      World V → Result Fault (ReconciliationView × List ReconciliationView) × World V → Type 0
  IsQuiet w (ok (view, told), w') = (view.consistent ≡ true) × (told ≡ []) × (w' ≡ w)
  IsQuiet w (err fault, w') = ⊥

module _ {V : Type 0} (D : Decimals V) where
  judged-IsQuiet :
      (id : String) (wallet : Wallet V) (w : World V)
      (o : Result Fault (ReconciliationView × List ReconciliationView) × World V)
      → IsJudged ⦃D = D⦄ id wallet w o
      → D.hundredths wallet.balance.value ≡ posted_sum ⦃D = D⦄ id w.store.ledger
      → IsQuiet w o
  judged-IsQuiet id wallet w (ok (view, told), w') (kept, _, _, inl (_, c, t, _)) same =
      (c, t, kept)
  judged-IsQuiet id wallet w (ok (view, told), w') (kept, _, _, inr (apart, _, _)) same =
      absurd (apart same)
  judged-IsQuiet id wallet w (err fault, w') j same = absurd j

  -- After any history of requests from the empty store, the reconciliation of a wallet of a valid currency
  -- finds it consistent, tells the observer of nothing and changes nothing.
  pub history-IsQuiet :
      (requests : List Request) (id : String) (wallet : Wallet V)
      → find_wallet ⦃D = D⦄ id (handle_all ⦃D = D⦄ requests empty_world).store ≡ some wallet
      → is_currency (codes wallet.currency) ≡ true
      → IsQuiet
          (handle_all ⦃D = D⦄ requests empty_world)
          (reconcile ⦃D = D⦄ id (handle_all ⦃D = D⦄ requests empty_world))
  history-IsQuiet requests id wallet found valid =
      let w = handle_all ⦃D = D⦄ requests empty_world in
      let c = (history-IsReconciled D requests).covered id wallet found in
      let same = rw (found_id ⦃D = D⦄ id w.store found) at c.balanced in
      judged-IsQuiet id wallet w (reconcile ⦃D = D⦄ id w)
        (reconcile-IsJudged ⦃D = D⦄ id wallet w found valid c.sound.same_currency
          (difference-IsExact _ _ same))
        same
