-- ===== src/UseCases/Reconciliation/Balance.antt =====
-- What the reconciliation of src/application/use-cases/reconcile-wallet finds: the stored balance against
-- the sum of the ledger.
use jungle_challenge.Common.{
  ◌≡◌, ◌≢◌, ◌⊎◌, inl, inr, refl, sym, ◌∙◌, true, false, String, some, List, [], ◌∷◌, Result, ok,
  err, ◌==◌, string_eq, not, if◌then◌else◌, Bool-cases, ==_refl,
}
use jungle_challenge.Common.Int.{ℤ, pos, ◌-ℤ◌, eqb_ℤ, zero_difference, nonzero_difference}
use jungle_challenge.Application.Action.{World, run}
use jungle_challenge.Application.Fault.{Fault}
use jungle_challenge.Application.Rules.{>>=_ok, run_ok}
use jungle_challenge.Money.{Money, from_computed, subtract, is_zero, negate, to_json}
use jungle_challenge.Money.Amount.{codes, is_currency}
use jungle_challenge.Money.Decimal.{Decimals, IsExact}
use jungle_challenge.Money.Laws.{units}
use jungle_challenge.Money.RoundTrip.{from_computed-fixed_text, from_computed-zero, same_text}
use jungle_challenge.Persistence.Repositories.{find_wallet, count_by_wallet}
use jungle_challenge.Persistence.Store.{Store}
use jungle_challenge.Persistence.Tables.{select_rows}
use jungle_challenge.UseCases.Conservation.{posted_sum}
use jungle_challenge.UseCases.Reconciliation.{
  ReconciliationView, signed_column, sum_columns, sum_text, of_wallet, sum_signed_by_wallet,
  compare_sum, compare_wallet, compare_balance, observed, reconcile,
}
use jungle_challenge.Wagering.Vocabulary.{LedgerDirection, direction_eq}
use jungle_challenge.Wallet.{Wallet}
use jungle_challenge.Wallet.Entry.{WalletLedgerEntry, signed_amount}

-- The verdict on a wallet: no divergence exactly where the balance is the sum, which is then shown as
-- the balance is.
abbrev pub Verdict : ℤ → ℤ → ReconciliationView → List ReconciliationView → Type 0
Verdict balance sum view told =
    ((balance ≡ sum)
      × (view.consistent ≡ true)
      × (told ≡ [])
      × (view.calculated_balance ≡ view.stored_balance))
    ⊎ ((balance ≢ sum) × (view.consistent ≡ false) × (told ≡ view ∷ []))

module _ {V : Type 0} ⦃D : Decimals V⦄ where
  signed_column-units : (e : WalletLedgerEntry V) → signed_column e ≡ units (signed_amount e)
  unfolding signed_amount negate
  signed_column-units e = elim (Bool-cases (e.direction == LedgerDirection.credit)) [
    | inl h ↦ rw h refl
    | inr h ↦ rw h (sym (D.hundredths-negated e.money.value))
  ]

  sum_columns-posted_sum :
      (id : String) (es : List (WalletLedgerEntry V))
      → sum_columns (select_rows (of_wallet id) es) ≡ posted_sum id es
  sum_columns-posted_sum id [] = refl
  sum_columns-posted_sum id (e ∷ es) = elim (Bool-cases (e.wallet_id == id)) [
    | inl h ↦ rw h (rw (signed_column-units e, sum_columns-posted_sum id es) refl)
    | inr h ↦ rw h (sum_columns-posted_sum id es)
  ]

  abbrev pub IsJudged :
      String
      → Wallet V
      → World V
      → Result Fault (ReconciliationView × List ReconciliationView) × World V
      → Type 0
  IsJudged id w world (ok (view, told), world') =
      (world' ≡ world)
      × (view.stored_balance ≡ to_json w.balance)
      × (view.checked_entries ≡ count_by_wallet id world.store)
      × Verdict (units w.balance) (posted_sum id world.store.ledger) view told
  IsJudged id w world (err fault, world') = ⊥

  sum_text-read :
      (es : List (WalletLedgerEntry V)) (currency : String)
      → is_currency (codes currency) ≡ true
      → (m : Money V) × (from_computed (record { amount = sum_text es; currency = currency })
          ≡ ok m)
        × (m.currency ≡ currency)
        × (D.hundredths m.value ≡ sum_columns es)
  sum_text-read [] currency c = from_computed-zero D currency c
  sum_text-read (e ∷ es) currency c = from_computed-fixed_text D (sum_columns (e ∷ es)) currency c

  -- What the subtraction of the sum from the balance makes of the verdict.
  difference-units :
      (m n : Money V)
      → m.currency ≡ n.currency
      → IsExact (units m -ℤ units n)
      → (d : Money V) × (subtract m n ≡ ok d) × (units d ≡ units m -ℤ units n)
  unfolding subtract jungle_challenge.Money.assert_same_currency
  difference-units m n same exact = (
    record { value = D.minus m.value n.value; currency = m.currency },
    rw (same, ==_refl n.currency) refl,
    D.hundredths-minus m.value n.value exact,
  )

  abbrev view_of : String → Wallet V → Money V → Money V → Store V → ReconciliationView
  view_of id w calculated difference s = record {
    wallet_id = id;
    stored_balance = to_json w.balance;
    calculated_balance = to_json calculated;
    difference = to_json difference;
    consistent = is_zero difference;
    checked_entries = count_by_wallet id s;
  }

  sum_signed :
      (id : String) (w : Wallet V) (world : World V) (m : Money V)
      → find_wallet id world.store ≡ some w
      → from_computed (record {
        amount = sum_text (select_rows (of_wallet id) world.store.ledger);
        currency = w.currency;
      })
        ≡ ok m
      → sum_signed_by_wallet id world ≡ (ok m, world)
  unfolding sum_signed_by_wallet
  sum_signed id w world m found e = rw found (rw e refl)

  compare_sum-view_of :
      (id : String) (w : Wallet V) (world : World V) (m d : Money V)
      → subtract w.balance m ≡ ok d
      → compare_sum id w m world ≡ (ok (view_of id w m d world.store), world)
  unfolding compare_sum
  compare_sum-view_of id w world m d f = rw f refl

  compare_wallet-view_of :
      (id : String) (w : Wallet V) (world : World V) (m d : Money V)
      → sum_signed_by_wallet id world ≡ (ok m, world)
      → subtract w.balance m ≡ ok d
      → compare_wallet id w world ≡ (ok (view_of id w m d world.store), world)
  unfolding compare_wallet
  compare_wallet-view_of id w world m d e f =
      >>=_ok (sum_signed_by_wallet id) (compare_sum id w) e ∙ compare_sum-view_of id w world m d f

  compare_balance-view_of :
      (id : String) (w : Wallet V) (world : World V) (m d : Money V)
      → find_wallet id world.store ≡ some w
      → sum_signed_by_wallet id world ≡ (ok m, world)
      → subtract w.balance m ≡ ok d
      → compare_balance id world ≡ (ok (view_of id w m d world.store), world)
  unfolding compare_balance
  compare_balance-view_of id w world m d found e f =
      rw found (compare_wallet-view_of id w world m d e f)

  reconcile-view_of :
      (id : String) (world : World V) (view : ReconciliationView)
      → compare_balance id world ≡ (ok view, world)
      → reconcile id world ≡ (ok (view, if not view.consistent then view ∷ [] else []), world)
  unfolding reconcile
  reconcile-view_of id world view e =
      >>=_ok (run (compare_balance id)) observed (run_ok (compare_balance id) e)

  judged :
      (id : String) (w : Wallet V) (world : World V) (m d : Money V)
      → m.currency ≡ w.balance.currency
      → units m ≡ posted_sum id world.store.ledger
      → units d ≡ units w.balance -ℤ units m
      → IsJudged id w world (
        ok (
          view_of id w m d world.store,
          if not (is_zero d) then view_of id w m d world.store ∷ [] else [],
        ),
        world,
      )
  unfolding is_zero
  judged id w world m d c sum u = (
    refl,
    refl,
    refl,
    elim (Bool-cases (eqb_ℤ (units w.balance -ℤ units m) (pos 0))) [
      | inl h ↦
          let same = zero_difference (units w.balance) (units m) h in
          rw (D.is_zero_lem d.value, u, h)
            (inl (same ∙ sum, refl, refl, same_text D w.balance m (sym c) same))
      | inr h ↦
          let apart = nonzero_difference (units w.balance) (units m) h in
          rw (D.is_zero_lem d.value, u, h) (inr (λ same. apart (same ∙ sym sum), refl, refl))
    ],
  )

  -- The reconciliation of a wallet of a valid currency, whose balance and whose ledger's sum are not too
  -- far apart for an exact subtraction, changes nothing. It calls the wallet consistent, shows the sum
  -- as the same text as the balance and tells the observer of nothing, if the balance is the sum of the
  -- signed amounts of the ledger entries; otherwise it calls it inconsistent and tells the observer.
  pub reconcile-IsJudged :
      (id : String) (w : Wallet V) (world : World V)
      → find_wallet id world.store ≡ some w
      → is_currency (codes w.currency) ≡ true
      → w.balance.currency ≡ w.currency
      → IsExact (units w.balance -ℤ posted_sum id world.store.ledger)
      → IsJudged id w world (reconcile id world)
  reconcile-IsJudged id w world found c same exact =
      let (m, e, k, sum) =
        sum_text-read (select_rows (of_wallet id) world.store.ledger) w.currency c in
      let total = sum ∙ sum_columns-posted_sum id world.store.ledger in
      let (d, f, u) = difference-units w.balance m (same ∙ sym k) (rw total exact) in
      rw
        (reconcile-view_of id world (view_of id w m d world.store)
          (compare_balance-view_of id w world m d found (sum_signed id w world m found e) f))
        (judged id w world m d (k ∙ sym same) total u)
