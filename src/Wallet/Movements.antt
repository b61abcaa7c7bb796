-- ===== src/Wallet/Movements.antt =====
-- A debit and a credit of src/domain/wallet/wallet.ts, on every branch.
use jungle_challenge.Common.{
  ◌+◌, ◌≤◌, ◌≡◌, refl, ◌≢◌, ◌⊎◌, Bool, true, arith, ok, err, str_iff, Result-cases, inl, inr,
}
use jungle_challenge.Common.Int.{ℤ, pos, ◌+ℤ◌, ◌-ℤ◌, ◌≤ℤ◌, ◌<ℤ◌, -ℤ_parts}
use jungle_challenge.Errors.{Checked, wallet_error, wallet_currency_mismatch, non_positive_movement}
use jungle_challenge.Money.{Money, add, subtract, is_positive}
use jungle_challenge.Money.Laws.{
  units, equals_refl, add-Moved, subtract-Moved, is_positive_lem, is_positive_false,
  is_negative_lem, is_negative_true,
}
use jungle_challenge.Money.Decimal.{Decimals, IsExact}
use jungle_challenge.Wagering.Vocabulary.{LedgerDirection}
use jungle_challenge.Wallet.{Wallet, Movement, overdraw_error, debit, credit}
use jungle_challenge.Wallet.Entry.{WalletLedgerEntry, create, is_balanced}

module _ {V : Type 0} ⦃D : Decimals V⦄ where
  -- What the schema's checks and the code expect of a wallet.
  pub record IsSound (w : Wallet V) : Type 0 where
    pub same_currency : w.balance.currency ≡ w.currency
    pub nonneg : pos 0 ≤ℤ units w.balance
    pub versioned : 1 ≤ w.version

  -- The entry mirrors the movement that took `w` to `w'`.
  pub record Mirrors (w w' : Wallet V) (p : Movement V) (d : LedgerDirection)
      (e : WalletLedgerEntry V) : Type 0 where
    pub id : e.id ≡ p.ledger_entry_id
    pub wallet_id : e.wallet_id ≡ w.id
    pub transaction_id : e.transaction_id ≡ p.transaction_id
    pub direction : e.direction ≡ d
    pub money : e.money ≡ p.amount
    pub before : e.balance_before ≡ w.balance
    pub after : e.balance_after ≡ w'.balance
    pub created_at : e.created_at ≡ p.at

  -- `w'` is `w` with another balance, one version on.
  pub record Advances (w w' : Wallet V) (p : Movement V) (total : ℤ) : Type 0 where
    pub id : w'.id ≡ w.id
    pub player_id : w'.player_id ≡ w.player_id
    pub currency : w'.currency ≡ w.currency
    pub balance_currency : w'.balance.currency ≡ w.balance.currency
    pub balance : units w'.balance ≡ total
    pub version : w'.version ≡ w.version + 1
    pub created_at : w'.created_at ≡ w.created_at
    pub updated_at : w'.updated_at ≡ p.at

  -- How a debit ends, and when.
  abbrev pub Debited :
      Wallet V → Movement V → Bool → Checked (Wallet V × WalletLedgerEntry V) → Type 0
  Debited w p reversal (ok (w', e)) =
      (p.amount.currency ≡ w.currency)
      × (pos 0 <ℤ units p.amount)
      × (units p.amount ≤ℤ units w.balance)
      × Advances w w' p (units w.balance -ℤ units p.amount)
      × Mirrors w w' p LedgerDirection.debit e
  Debited w p reversal (err x) =
      (p.amount.currency ≢ w.currency)
        × (x ≡ wallet_error (wallet_currency_mismatch w.currency p.amount.currency))
      ⊎ ((p.amount.currency ≡ w.currency)
            × (units p.amount ≤ℤ pos 0)
            × (x ≡ wallet_error non_positive_movement)
          ⊎ (p.amount.currency ≡ w.currency)
            × (pos 0 <ℤ units p.amount)
            × (units w.balance <ℤ units p.amount)
            × (x ≡ wallet_error (overdraw_error reversal w.id)))

  -- How a credit ends, and when.
  abbrev pub Credited : Wallet V → Movement V → Checked (Wallet V × WalletLedgerEntry V) → Type 0
  Credited w p (ok (w', e)) =
      (p.amount.currency ≡ w.currency)
      × (pos 0 <ℤ units p.amount)
      × Advances w w' p (units w.balance +ℤ units p.amount)
      × Mirrors w w' p LedgerDirection.credit e
  Credited w p (err x) =
      (p.amount.currency ≢ w.currency)
        × (x ≡ wallet_error (wallet_currency_mismatch w.currency p.amount.currency))
      ⊎ (p.amount.currency ≡ w.currency)
        × (units p.amount ≤ℤ pos 0)
        × (x ≡ wallet_error non_positive_movement)

  -- An entry that `credit` makes closes.
  create-credit :
      (e : WalletLedgerEntry V)
      → e.direction ≡ LedgerDirection.credit
      → is_positive e.money ≡ true
      → add e.balance_before e.money ≡ ok e.balance_after
      → create e ≡ ok e
  unfolding create is_balanced
  create-credit e d m a = ground (arith, equals_refl e.balance_after)

  -- An entry that `debit` makes closes.
  create-debit :
      (e : WalletLedgerEntry V)
      → e.direction ≡ LedgerDirection.debit
      → is_positive e.money ≡ true
      → subtract e.balance_before e.money ≡ ok e.balance_after
      → create e ≡ ok e
  unfolding create is_balanced
  create-debit e d m a = ground (arith, equals_refl e.balance_after)

  credit_entry : Wallet V → Movement V → Money V → WalletLedgerEntry V
  credit_entry w p after = record {
    id = p.ledger_entry_id;
    wallet_id = w.id;
    transaction_id = p.transaction_id;
    direction = LedgerDirection.credit;
    money = p.amount;
    balance_before = w.balance;
    balance_after = after;
    created_at = p.at;
  }

  -- A credit of a wallet succeeds exactly for a positive amount in the wallet's currency; it then
  -- adds the amount, counts one version and returns the entry that mirrors it, and changes nothing
  -- else. Below the limit of the decimals.
  pub credit-Credited :
      (w : Wallet V) (p : Movement V)
      → IsSound w
      → IsExact (units w.balance +ℤ units p.amount)
      → Credited w p (credit w p)
  unfolding credit credit_entry
  credit-Credited w p s h = elim (Result-cases (add w.balance p.amount)) [
    | inl (r, e) ↦ ground (
      arith,
      str_iff p.amount.currency w.currency,
      add-Moved w.balance p.amount h,
      is_positive_lem p.amount,
      is_positive_false p.amount,
      create-credit (credit_entry w p r) refl,
    )
    | inr (x, e) ↦ ground (
      arith,
      str_iff p.amount.currency w.currency,
      add-Moved w.balance p.amount h,
      is_positive_lem p.amount,
      is_positive_false p.amount,
    )
  ]

  debit_entry : Wallet V → Movement V → Money V → WalletLedgerEntry V
  debit_entry w p after = record (credit_entry w p after) { direction = LedgerDirection.debit }

  pub debit-Debited :
      (w : Wallet V) (p : Movement V) (reversal : Bool)
      → IsSound w
      → IsExact (units w.balance -ℤ units p.amount)
      → Debited w p reversal (debit w p reversal)
  unfolding debit debit_entry credit_entry
  debit-Debited w p reversal s h = elim (Result-cases (subtract w.balance p.amount)) [
    | inl (r, e) ↦ ground (
      arith,
      str_iff p.amount.currency w.currency,
      subtract-Moved w.balance p.amount h,
      -ℤ_parts (units w.balance) (units p.amount),
      is_positive_lem p.amount,
      is_positive_false p.amount,
      is_negative_lem r,
      is_negative_true r,
      create-debit (debit_entry w p r) refl,
    )
    | inr (x, e) ↦ ground (
      arith,
      str_iff p.amount.currency w.currency,
      subtract-Moved w.balance p.amount h,
      is_positive_lem p.amount,
      is_positive_false p.amount,
    )
  ]
