-- ===== src/UseCases/Conservation.antt =====
-- Money is conserved: every balance is the sum of the wallet's ledger, whatever calls of the use case
-- follow one another (src/application/use-cases/process-wager-transaction and the repositories).
pub mod Calls
use jungle_challenge.Common.{
  different, ◌≡◌, ◌≢◌, refl, sym, ◌∙◌, ◌+◌, ◌⊎◌, inl, inr, Bool, true, false, String, Option, none,
  some, List, [], ◌∷◌, ok, err, arith, Bool-cases, Option-cases, ◌==◌, str_iff, string_eq, nat_eq,
  if◌then◌else◌, ==_refl,
}
use jungle_challenge.Common.Int.{ℤ, pos, ◌+ℤ◌, ◌-ℤ◌, int_laws}
use jungle_challenge.Errors.{Checked}
use jungle_challenge.Money.{Money}
use jungle_challenge.Money.Decimal.{Decimals, IsExact}
use jungle_challenge.Money.Laws.{units}
use jungle_challenge.Persistence.Columns.{fits}
use jungle_challenge.Persistence.Laws.{updated, find_row-update_rows, find_row_holds, SameBooks}
use jungle_challenge.Persistence.Repositories.{find_wallet, is_previous, overwrite_wallet}
use jungle_challenge.Persistence.Store.{Store}
use jungle_challenge.Persistence.Tables.{update_rows}
use jungle_challenge.UseCases.Posting.{booking, Posted}
use jungle_challenge.Wagering.State.{WagerTransaction}
use jungle_challenge.Wagering.Transaction.{requires_reference}
use jungle_challenge.Wagering.Vocabulary.{LedgerDirection, direction_eq}
use jungle_challenge.Wallet.{Wallet, Movement, debit, credit}
use jungle_challenge.Wallet.Entry.{WalletLedgerEntry, signed_amount, create}
use jungle_challenge.Wallet.Movements.{IsSound}
use jungle_challenge.Wallet.Replay.{Step, debited, credited, Stepped, Step-Stepped}

module _ {V : Type 0} ⦃D : Decimals V⦄ where
  -- The sum of the signed amounts of a wallet's entries.
  abbrev pub posted_sum : String → List (WalletLedgerEntry V) → ℤ
  posted_sum id [] = pos 0
  posted_sum id (e ∷ es) =
      if e.wallet_id == id then units (signed_amount e) +ℤ posted_sum id es else posted_sum id es

  -- A sound wallet whose balance fits its column and is the sum of its entries.
  pub record IsCovered (es : List (WalletLedgerEntry V)) (w : Wallet V) : Type 0 where
    pub sound : IsSound w
    pub fitting : fits w.balance ≡ true
    pub balanced : units w.balance ≡ posted_sum w.id es

  -- Every wallet that is found in the store is.
  pub record IsReconciled (s : Store V) : Type 0 where
    pub covered : (id : String) (w : Wallet V) → find_wallet id s ≡ some w → IsCovered s.ledger w
    -- An id that has no wallet has no entries.
    pub strays : (id : String) → find_wallet id s ≡ none → posted_sum id s.ledger ≡ pos 0

  fits-IsExact_minus :
      (m n : Money V) → fits m ≡ true → fits n ≡ true → IsExact (units m -ℤ units n)
  unfolding ◌-ℤ◌
  fits-IsExact_minus m n a b = ground arith

  fits-IsExact_plus : (m n : Money V) → fits m ≡ true → fits n ≡ true → IsExact (units m +ℤ units n)
  unfolding ◌+ℤ◌
  fits-IsExact_plus m n a b = ground arith

  debit_money :
      (w : Wallet V) (p : Movement V) (r : Bool) {w' : Wallet V} {e : WalletLedgerEntry V}
      → debit w p r ≡ ok (w', e)
      → e.money ≡ p.amount
  unfolding debit create
  debit_money w p r h = ground arith

  credit_money :
      (w : Wallet V) (p : Movement V) {w' : Wallet V} {e : WalletLedgerEntry V}
      → credit w p ≡ ok (w', e)
      → e.money ≡ p.amount
  unfolding credit create
  credit_money w p h = ground arith

  pub booking-Step :
      (d : LedgerDirection) (w : Wallet V) (p : Movement V) (r : Bool) {w' : Wallet V}
      {e : WalletLedgerEntry V}
      → booking d w p r ≡ ok (w', e)
      → fits w.balance ≡ true
      → fits e.money ≡ true
      → Step w w' e
  booking-Step LedgerDirection.debit w p r h a b =
      debited p r (fits-IsExact_minus w.balance p.amount a (rw (sym (debit_money w p r h)) b)) h
  booking-Step LedgerDirection.credit w p r h a b =
      credited p (fits-IsExact_plus w.balance p.amount a (rw (sym (credit_money w p h)) b)) h

  -- How a wallet is found after the wallets were updated with `moved`.
  abbrev pub after_saving : Wallet V → Option (Wallet V) → Option (Wallet V)
  after_saving moved found = updated (is_previous moved) (overwrite_wallet moved) found

  pub found_after_saving :
      (id : String) (moved : Wallet V) (s s' : Store V)
      → s'.wallets ≡ update_rows (is_previous moved) (overwrite_wallet moved) s.wallets
      → find_wallet id s' ≡ after_saving moved (find_wallet id s)
  unfolding find_wallet
  found_after_saving id moved s s' h = rw h (
      find_row-update_rows (λ w. w.id == id) (is_previous moved) (overwrite_wallet moved)
        (λ _. refl) s.wallets)

  pub found_id : (id : String) (s : Store V) {w : Wallet V} → find_wallet id s ≡ some w → w.id ≡ id
  unfolding find_wallet
  found_id id s {w} h = (str_iff w.id id).0 (find_row_holds (λ w. w.id == id) s.wallets h)

  -- The row of the wallet that moved: it is the one that the save replaces, and its balance is the sum
  -- of the entries, the new one included.
  posting_here :
      (wallet moved : Wallet V) (entry : WalletLedgerEntry V) (s s' : Store V)
      → units wallet.balance ≡ posted_sum wallet.id s.ledger
      → Stepped wallet moved entry
      → s'.ledger ≡ entry ∷ s.ledger
      → (is_previous moved wallet ≡ true) × (units moved.balance ≡ posted_sum wallet.id s'.ledger)
  unfolding ◌+ℤ◌ signed_amount
  posting_here wallet moved entry s s' balanced (_, i, v, ei, _, _, u) l = (
    ground (arith, str_iff wallet.id moved.id),
    rw (l, ei, ==_refl wallet.id, u, balanced) (omega int_laws),
  )

  -- Any other row is left, and so is the sum of its entries.
  posting_elsewhere :
      (wallet moved other : Wallet V) (entry : WalletLedgerEntry V) (s s' : Store V)
      → other.id ≢ wallet.id
      → Stepped wallet moved entry
      → s'.ledger ≡ entry ∷ s.ledger
      → (is_previous moved other ≡ false)
        × (posted_sum other.id s'.ledger ≡ posted_sum other.id s.ledger)
  posting_elsewhere wallet moved other entry s s' apart (_, i, v, ei, _, _, u) l = (
    ground (arith, str_iff other.id moved.id),
    rw l (ground (arith, str_iff entry.wallet_id other.id)),
  )

  -- A row after a posting is covered by the ledger after it.
  pub posting_covers :
      (wallet moved other : Wallet V) (entry : WalletLedgerEntry V) (s s' : Store V)
      → IsCovered s.ledger wallet
      → IsCovered s.ledger other
      → (other.id ≡ wallet.id → other ≡ wallet)
      → Stepped wallet moved entry
      → fits moved.balance ≡ true
      → s'.ledger ≡ entry ∷ s.ledger
      → IsCovered s'.ledger
          (if is_previous moved other then overwrite_wallet moved other else other)
  posting_covers wallet moved other entry s s' c o unique step fit l =
      elim (Bool-cases (other.id == wallet.id)) [
        | inl same ↦
            let (here, total) = posting_here wallet moved entry s s' c.balanced step l in
            rw (unique ((str_iff other.id wallet.id).0 same), here)
              (record {
                sound = record {
                  same_currency = refl;
                  nonneg = step.0.nonneg;
                  versioned = step.0.versioned;
                };
                fitting = fit;
                balanced = total;
              })
        | inr apart ↦
            let (elsewhere, total) =
              posting_elsewhere wallet moved other entry s s' (different other.id wallet.id apart)
                step l in
            rw elsewhere
              (record { sound = o.sound; fitting = o.fitting; balanced = o.balanced ∙ sym total })
      ]

  pub found_covers :
      (moved : Wallet V) (es : List (WalletLedgerEntry V)) (found : Option (Wallet V))
      {w : Wallet V}
      → ((other : Wallet V)
          → found ≡ some other
          → IsCovered es (if is_previous moved other then overwrite_wallet moved other else other))
      → after_saving moved found ≡ some w
      → IsCovered es w
  found_covers moved es none h e = cc
  found_covers moved es (some other) {w} h e =
      let same : w ≡ (if is_previous moved other then overwrite_wallet moved other else other) =
        cc in
      rw same (h other refl)
