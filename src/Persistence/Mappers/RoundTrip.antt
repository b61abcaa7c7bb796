-- ===== src/Persistence/Mappers/RoundTrip.antt =====
-- What src/infrastructure/persistence/mikro-orm/mappers.ts writes into a row, read back. Two objects are
-- the same to the program where their plain states are.
use jungle_challenge.Common.{
  sym, ◌∙◌, Option-cases, inl, inr, ◌≡◌, refl, ap, true, none, some, ok, err, string_eq,
}
use jungle_challenge.Common.Int.{pos, ◌≤ℤ◌}
use jungle_challenge.Errors.{Checked}
use jungle_challenge.Money.{Money, to_json}
use jungle_challenge.Money.Amount.{codes, is_currency}
use jungle_challenge.Money.Decimal.{Decimals}
use jungle_challenge.Money.Laws.{units}
use jungle_challenge.Money.RoundTrip.{from-kept, from_computed-kept}
use jungle_challenge.Persistence.Entities.{WagerTransactionEntity}
use jungle_challenge.Persistence.Mappers.{
  TransactionMutableFields, wallet_to_domain, wallet_to_new_entity, transaction_to_domain,
  transaction_to_new_entity, transaction_mutable_fields, ledger_entry_to_domain,
  ledger_entry_to_new_entity,
}
use jungle_challenge.Persistence.Repositories.{overwrite_transaction}
use jungle_challenge.Wagering.Factory
use jungle_challenge.Wagering.State.{WagerTransaction}
use jungle_challenge.Wallet
use jungle_challenge.Wallet.Entry

-- `nativeUpdate`: the columns that it names are overwritten.
abbrev pub updated_row : TransactionMutableFields → WagerTransactionEntity → WagerTransactionEntity
updated_row fields e = record e {
  status = fields.status;
  failure_code = fields.failure_code;
  reference_transaction_id = fields.reference_transaction_id;
  reference_attempts = fields.reference_attempts;
  next_attempt_at = fields.next_attempt_at;
  pending_reference_since = fields.pending_reference_since;
  processed_at = fields.processed_at;
  observed_balance = fields.observed_balance;
}

module _ {V : Type 0} ⦃D : Decimals V⦄ where
  abbrev pub WalletReadBack : Wallet.Wallet V → Checked (Wallet.Wallet V) → Type 0
  WalletReadBack w (ok w') = Wallet.to_state w' ≡ Wallet.to_state w
  WalletReadBack w (err e) = ⊥

  abbrev pub EntryReadBack :
      Entry.WalletLedgerEntry V → Checked (Entry.WalletLedgerEntry V) → Type 0
  EntryReadBack e (ok e') = Entry.to_state e' ≡ Entry.to_state e
  EntryReadBack e (err _) = ⊥

  abbrev pub TransactionReadBack : WagerTransaction V → Checked (WagerTransaction V) → Type 0
  TransactionReadBack tx (ok tx') = Factory.to_state tx' ≡ Factory.to_state tx
  TransactionReadBack tx (err e) = ⊥

module _ {V : Type 0} (D : Decimals V) where
  -- A wallet whose balance is of its own, valid currency and not negative is read back from its row as it
  -- was.
  pub wallet_to_domain-WalletReadBack :
      (w : Wallet.Wallet V)
      → is_currency (codes w.currency) ≡ true
      → w.balance.currency ≡ w.currency
      → pos 0 ≤ℤ units ⦃D = D⦄ w.balance
      → WalletReadBack ⦃D = D⦄ w (wallet_to_domain ⦃D = D⦄ (wallet_to_new_entity ⦃D = D⦄ w))
  unfolding wallet_to_domain wallet_to_new_entity Wallet.rehydrate Wallet.to_state
  wallet_to_domain-WalletReadBack w c same h =
      let (m, e, k) = from-kept D w.balance w.currency same c h in
      rw e (ap (λ b. record (Wallet.to_state ⦃D = D⦄ w) { balance = b }) k)

  -- An entry with one valid currency and no negative amount is read back from its row as it was.
  pub ledger_entry_to_domain-EntryReadBack :
      (e : Entry.WalletLedgerEntry V)
      → is_currency (codes e.money.currency) ≡ true
      → e.balance_before.currency ≡ e.money.currency
      → e.balance_after.currency ≡ e.money.currency
      → pos 0 ≤ℤ units ⦃D = D⦄ e.money
      → pos 0 ≤ℤ units ⦃D = D⦄ e.balance_before
      → pos 0 ≤ℤ units ⦃D = D⦄ e.balance_after
      → EntryReadBack ⦃D = D⦄ e
          (ledger_entry_to_domain ⦃D = D⦄ (ledger_entry_to_new_entity ⦃D = D⦄ e))
  unfolding ledger_entry_to_domain ledger_entry_to_new_entity Entry.rehydrate Entry.to_state to_json
  ledger_entry_to_domain-EntryReadBack e c before after h i j =
      let (m, em, km) = from-kept D e.money e.money.currency refl c h in
      let (b, eb, kb) = from-kept D e.balance_before e.money.currency before c i in
      let (a, ea, ka) = from-kept D e.balance_after e.money.currency after c j in
      rw (em, eb, ea)
        (λ t. record (Entry.to_state ⦃D = D⦄ e) {
          money = km t;
          balance_before = kb t;
          balance_after = ka t;
        })

  -- The row of a transaction after a later state of it was saved.
  abbrev saved_row : WagerTransaction V → WagerTransaction V → WagerTransactionEntity
  saved_row tx later =
      updated_row (transaction_mutable_fields ⦃D = D⦄ later) (transaction_to_new_entity ⦃D = D⦄ tx)

  -- A transaction with a valid currency and no negative amount, whose row was inserted and then updated
  -- with a later state, is read back as the later state of it, if the balance that it observed, if any,
  -- is of its own currency, as `recordObservedBalance` sees to.
  pub transaction_to_domain-TransactionReadBack :
      (tx later : WagerTransaction V)
      → is_currency (codes tx.money.currency) ≡ true
      → pos 0 ≤ℤ units ⦃D = D⦄ tx.money
      → ((m : Money V) → later.observed_balance ≡ some m → m.currency ≡ tx.money.currency)
      → TransactionReadBack ⦃D = D⦄
          (overwrite_transaction ⦃D = D⦄ later tx)
          (transaction_to_domain ⦃D = D⦄ (saved_row tx later))
  unfolding transaction_to_domain transaction_to_new_entity transaction_mutable_fields
      Factory.rehydrate Factory.to_state to_json
  transaction_to_domain-TransactionReadBack tx later c h own =
      let state = Factory.to_state ⦃D = D⦄ (overwrite_transaction ⦃D = D⦄ later tx) in
      let (m, e, k) = from-kept D tx.money tx.money.currency refl c h in
      elim (Option-cases later.observed_balance) [
        | inl gone ↦ rw (e, gone) (λ t. record state { money = k t; observed_balance = none })
        | inr (observed, there) ↦
            let (b, eb, kb, full) = from_computed-kept D observed tx.money.currency c in
            let whole : to_json ⦃D = D⦄ b ≡ to_json ⦃D = D⦄ observed =
              kb
              ∙ ap (λ r. record { amount = D.to_fixed observed.value; currency = r })
                  (sym (own observed there)) in
            rw (e, there, full, eb)
              (λ t. record state { money = k t; observed_balance = some (whole t) })
      ]
