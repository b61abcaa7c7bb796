-- ===== src/Persistence/Laws.antt =====
-- What the writes of src/infrastructure/persistence/mikro-orm/repositories.ts do to the wallets and the
-- ledger, and how a row is found after an update.
use jungle_challenge.Common.{
  ◌≡◌, refl, ◌∙◌, Bool, true, Option, none, some, List, [], ◌∷◌, arith, ok, Result-cases, inl, inr,
  if◌then◌else◌,
}
use jungle_challenge.Messaging.Inbox.{InboxMessage}
use jungle_challenge.Messaging.Outbox.{OutboxMessage}
use jungle_challenge.Money.Decimal.{Decimals}
use jungle_challenge.Persistence.Columns.{fits}
use jungle_challenge.Persistence.Repositories.{
  insert_transaction, save_transaction, insert_inbox, insert_outbox, insert_many_outbox,
  save_wallet, insert_entry, is_previous, overwrite_wallet,
}
use jungle_challenge.Persistence.Store.{Store}
use jungle_challenge.Persistence.Tables.{find_row, update_rows}
use jungle_challenge.Wagering.State.{WagerTransaction}
use jungle_challenge.Wallet.{Wallet}
use jungle_challenge.Wallet.Entry.{WalletLedgerEntry}

-- What an update makes of the row that a search finds.
abbrev pub updated {ℓ} : {A : Type ℓ} → (A → Bool) → (A → A) → Option A → Option A
updated q f none = none
updated q f (some x) = some (if q x then f x else x)

-- An update that keeps what a search looks at changes the row found, and finds no other.
pub find_row-update_rows {ℓ} :
    {A : Type ℓ} (p q : A → Bool) (f : A → A)
    → ((x : A) → p (f x) ≡ p x)
    → (xs : List A) → find_row p (update_rows q f xs) ≡ updated q f (find_row p xs)
find_row-update_rows p q f k [] = refl
find_row-update_rows p q f k (x ∷ xs) = ground (arith, k x, find_row-update_rows p q f k xs)

-- A row that is found satisfies the condition.
pub find_row_holds {ℓ} :
    {A : Type ℓ} (p : A → Bool) (xs : List A) {x : A} → find_row p xs ≡ some x → p x ≡ true
find_row_holds p [] e = cc
find_row_holds p (y ∷ ys) {x} e = ground (arith, find_row_holds p ys {x = x})

module _ {V : Type 0} ⦃D : Decimals V⦄ where
  -- The wallets and the ledger are as they were.
  pub record SameBooks (s s' : Store V) : Type 0 where
    pub wallets : s'.wallets ≡ s.wallets
    pub ledger : s'.ledger ≡ s.ledger

  pub SameBooks-trans : {s t u : Store V} → SameBooks s t → SameBooks t u → SameBooks s u
  SameBooks-trans a b = record { wallets = b.wallets ∙ a.wallets; ledger = b.ledger ∙ a.ledger }

  pub insert_transaction-SameBooks :
      (tx : WagerTransaction V) (s : Store V) {s' : Store V}
      → insert_transaction tx s ≡ ok s'
      → SameBooks s s'
  unfolding insert_transaction
  insert_transaction-SameBooks tx s e = ground arith

  pub save_transaction-SameBooks :
      (tx : WagerTransaction V) (s : Store V) {s' : Store V}
      → save_transaction tx s ≡ ok s'
      → SameBooks s s'
  unfolding save_transaction
  save_transaction-SameBooks tx s e = ground arith

  pub insert_inbox-SameBooks :
      (m : InboxMessage) (s : Store V) {s' : Store V} → insert_inbox m s ≡ ok s' → SameBooks s s'
  unfolding insert_inbox
  insert_inbox-SameBooks m s e = ground arith

  pub insert_outbox-SameBooks :
      (m : OutboxMessage) (s : Store V) {s' : Store V} → insert_outbox m s ≡ ok s' → SameBooks s s'
  unfolding insert_outbox
  insert_outbox-SameBooks m s e = ground arith

  pub insert_many_outbox-SameBooks :
      (ms : List OutboxMessage) (s : Store V) {s' : Store V}
      → insert_many_outbox ms s ≡ ok s'
      → SameBooks s s'
  unfolding insert_many_outbox
  insert_many_outbox-SameBooks [] s e = ground arith
  insert_many_outbox-SameBooks (m ∷ ms) s e = elim (Result-cases (insert_outbox m s)) [
    | inl (t, saved) ↦
        SameBooks-trans (insert_outbox-SameBooks m s saved)
          (insert_many_outbox-SameBooks ms t (rw saved at e))
    | inr (x, refused) ↦ ground arith
  ]

  pub insert_transaction-fits :
      (tx : WagerTransaction V) (s : Store V) {s' : Store V}
      → insert_transaction tx s ≡ ok s'
      → fits tx.money ≡ true
  unfolding insert_transaction
  insert_transaction-fits tx s e = ground arith

  -- A wallet that is saved fits its column and replaces the row one version back.
  pub save_wallet_lem :
      (w : Wallet V) (s : Store V) {s' : Store V}
      → save_wallet w s ≡ ok s'
      → (fits w.balance ≡ true)
        × (s'.wallets ≡ update_rows (is_previous w) (overwrite_wallet w) s.wallets)
        × (s'.ledger ≡ s.ledger)
  unfolding save_wallet
  save_wallet_lem w s e = ground arith

  -- An entry that is inserted fits its columns and is added to the ledger.
  pub insert_entry_lem :
      (entry : WalletLedgerEntry V) (s : Store V) {s' : Store V}
      → insert_entry entry s ≡ ok s'
      → (fits entry.money ≡ true) × (s'.wallets ≡ s.wallets) × (s'.ledger ≡ entry ∷ s.ledger)
  unfolding insert_entry
  insert_entry_lem entry s e = ground arith
