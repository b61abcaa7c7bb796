-- ===== src/Wallet/Replay.antt =====
-- A wallet's balance is the replay of its ledger: sequences of movements, from any sound wallet.
use jungle_challenge.Common.{◌∙◌, ◌+◌, ◌≡◌, refl, Bool, List, [], ◌∷◌, arith, ok}
use jungle_challenge.Common.Int.{ℤ, pos, ◌+ℤ◌, ◌-ℤ◌, int_laws, +ℤ_parts, -ℤ_parts, eq_of_parts}
use jungle_challenge.Common.Lists.{length}
use jungle_challenge.Money.{Money, negate}
use jungle_challenge.Money.Laws.{units}
use jungle_challenge.Money.Decimal.{Decimals, IsExact}
use jungle_challenge.Wagering.Vocabulary.{LedgerDirection, direction_eq}
use jungle_challenge.Wallet.{Wallet, Movement, debit, credit}
use jungle_challenge.Wallet.Entry.{WalletLedgerEntry, signed_amount}
use jungle_challenge.Wallet.Movements.{IsSound, Debited, Credited, debit-Debited, credit-Credited}

module _ {V : Type 0} ⦃D : Decimals V⦄ where
  -- One successful movement, which leaves the entry.
  pub data Step : Wallet V → Wallet V → WalletLedgerEntry V → Type 0 where
    debited :
        {w w' : Wallet V} {e : WalletLedgerEntry V} (p : Movement V) (reversal : Bool)
        → IsExact (units w.balance -ℤ units p.amount)
        → debit w p reversal ≡ ok (w', e)
        → Step w w' e
    credited :
        {w w' : Wallet V} {e : WalletLedgerEntry V} (p : Movement V)
        → IsExact (units w.balance +ℤ units p.amount)
        → credit w p ≡ ok (w', e)
        → Step w w' e

  -- Movements in order, with the entries that they leave, oldest first.
  pub data Trace : Wallet V → List (WalletLedgerEntry V) → Wallet V → Type 0 where
    done : {w : Wallet V} → Trace w [] w
    next :
        {w w' w'' : Wallet V} {e : WalletLedgerEntry V} {es : List (WalletLedgerEntry V)}
        → Step w w' e
        → Trace w' es w''
        → Trace w (e ∷ es) w''

  -- The sum of the signed amounts.
  abbrev pub replay : List (WalletLedgerEntry V) → ℤ
  replay [] = pos 0
  replay (e ∷ es) = units (signed_amount e) +ℤ replay es

  -- Each entry starts from the balance that the one before it left.
  abbrev pub IsChain : Money V → List (WalletLedgerEntry V) → Money V → Type 0
  IsChain from [] to = from ≡ to
  IsChain from (e ∷ es) to =
      (e.balance_before ≡ from)
      × (units e.balance_after ≡ units e.balance_before +ℤ units (signed_amount e))
      × IsChain e.balance_after es to

  -- What one movement does.
  abbrev pub Stepped : Wallet V → Wallet V → WalletLedgerEntry V → Type 0
  Stepped w w' e =
      IsSound w'
      × (w'.id ≡ w.id)
      × (w'.version ≡ w.version + 1)
      × (e.wallet_id ≡ w.id)
      × (e.balance_before ≡ w.balance)
      × (e.balance_after ≡ w'.balance)
      × (units w'.balance ≡ units w.balance +ℤ units (signed_amount e))

  signed_credit :
      (e : WalletLedgerEntry V) → e.direction ≡ LedgerDirection.credit → signed_amount e ≡ e.money
  unfolding signed_amount
  signed_credit e h = ground arith

  signed_debit :
      (e : WalletLedgerEntry V)
      → e.direction ≡ LedgerDirection.debit
      → units (signed_amount e) ≡ pos 0 -ℤ units e.money
  unfolding signed_amount negate
  signed_debit e h = ground (arith, D.hundredths-negated e.money.value)

  debit_step :
      (w w' : Wallet V) (e : WalletLedgerEntry V) (p : Movement V) (reversal : Bool)
      → IsSound w
      → Debited w p reversal (ok (w', e))
      → Stepped w w' e
  debit_step w w' e p reversal s (_, pays, covers, a, m) = ground (
    arith,
    signed_debit e,
    -ℤ_parts (units w.balance) (units p.amount),
    -ℤ_parts (pos 0) (units p.amount),
    +ℤ_parts (units w.balance) (units (signed_amount e)),
    eq_of_parts (units w'.balance) (units w.balance +ℤ units (signed_amount e)),
  )

  credit_step :
      (w w' : Wallet V) (e : WalletLedgerEntry V) (p : Movement V)
      → IsSound w
      → Credited w p (ok (w', e))
      → Stepped w w' e
  credit_step w w' e p s (_, pays, a, m) =
      ground (arith, signed_credit e, +ℤ_parts (units w.balance) (units p.amount))

  -- One movement of a sound wallet.
  pub Step-Stepped :
      {w w' : Wallet V} {e : WalletLedgerEntry V} → IsSound w → Step w w' e → Stepped w w' e
  Step-Stepped {w} {w'} {e} s (debited p reversal h r) =
      debit_step w w' e p reversal s (rw r at (debit-Debited w p reversal s h))
  Step-Stepped {w} {w'} {e} s (credited p h r) =
      credit_step w w' e p s (rw r at (credit-Credited w p s h))

  -- After any sequence of successful debits and credits of a sound wallet it is sound (its balance is not
  -- negative), its balance has moved by exactly the replay of the entries, its version has grown by
  -- their number, and the entries form a chain of balances from the first to the last.
  pub Trace-replay :
      {w w' : Wallet V} {es : List (WalletLedgerEntry V)}
      → IsSound w
      → Trace w es w'
      → IsSound w'
        × (w'.id ≡ w.id)
        × (units w'.balance ≡ units w.balance +ℤ replay es)
        × (w'.version ≡ w.version + length es)
        × IsChain w.balance es w'.balance
  Trace-replay {w} s done = (s, refl, omega int_laws, omega arith, refl)
  Trace-replay {w} {w' = z} s (next {w' = w'} {e = e} {es = es} st more) =
      let (s', i, v, _, b, a, u) = Step-Stepped s st in
      let (sz, iz, uz, vz, c) = Trace-replay s' more in
      (sz, iz ∙ i, rw uz (rw u (omega int_laws)), omega arith, (b, simp (a, b) u, rw a c))
