-- ===== src/Persistence/LedgerPages/Order.antt =====
-- The order of a listing of src/infrastructure/persistence/mikro-orm/repositories.ts: created_at, then id.
use jungle_challenge.Common.{
  ℕ, ◌≡◌, refl, Bool, true, false, String, List, [], ◌∷◌, ◌++◌, nat_eq, string_eq, Bool-cases, inl,
  inr, arith,
}
use jungle_challenge.Persistence.LedgerPages.{Paging, row_le, position, entry_before, is_after}
use jungle_challenge.Persistence.Rows.{All, All-both, Avoid, HasUniqueKeys}
use jungle_challenge.Persistence.Sorting.{IsSorted, select_rows-All, All-middle}
use jungle_challenge.Persistence.Tables.{select_rows}
use jungle_challenge.Wallet.Entry.{WalletLedgerEntry}

module _ (P : Paging) where
  pub row_le_total : (a b : ℕ × String) → row_le P a b ≡ false → row_le P b a ≡ true
  row_le_total (s, a) (t, b) h = let k = P.id_le_total a b in ground (arith, k)

  pub row_le_trans :
      (a b c : ℕ × String) → row_le P a b ≡ true → row_le P b c ≡ true → row_le P a c ≡ true
  row_le_trans (s, a) (t, b) (u, c) h k = let l = P.id_le_trans a b c in ground (arith, l)

  row_le_antisym : (a b : ℕ × String) → row_le P a b ≡ true → row_le P b a ≡ true → a.1 ≡ b.1
  row_le_antisym (s, a) (t, b) h k = let l = P.id_le_antisym a b in ground (arith, l)

module _ {V : Type 0} where
  abbrev pub id_of : WalletLedgerEntry V → String
  id_of e = e.id

module _ {V : Type 0} (P : Paging) where
  abbrev pub sorted_before : WalletLedgerEntry V → WalletLedgerEntry V → Bool
  sorted_before = entry_before P

  -- The rows after an entry of a sorted list are those that follow it.
  later-after :
      (x : WalletLedgerEntry V) (post : List (WalletLedgerEntry V))
      → All (λ y. sorted_before x y ≡ true) post
      → Avoid id_of x post
      → All (λ y. is_after P (position x) y ≡ true) post
  later-after x post h u =
      All-both
        (λ y le apart. elim (Bool-cases (row_le P (position y) (position x))) [
          | inl back ↦ absurd (apart (row_le_antisym P (position y) (position x) back le))
          | inr on ↦ rw on refl
        ])
        post h u

  pub after_entry :
      (pre : List (WalletLedgerEntry V)) (x : WalletLedgerEntry V)
      (post : List (WalletLedgerEntry V))
      → IsSorted sorted_before (pre ++ (x ∷ post))
      → HasUniqueKeys id_of (pre ++ (x ∷ post))
      → select_rows (is_after P (position x)) (pre ++ (x ∷ post)) ≡ post
  after_entry [] x post (h, s) (a, u) =
      let not_after : is_after P (position x) x ≡ false =
        elim (Bool-cases (row_le P (position x) (position x))) [
          | inl e ↦ rw e refl
          | inr e ↦ rw (row_le_total P (position x) (position x) e) refl
        ] in
      rw not_after (select_rows-All (is_after P (position x)) post (later-after x post h a))
  after_entry (y ∷ pre) x post (h, s) (a, u) =
      let le = All-middle (λ z. sorted_before y z ≡ true) pre x post h in
      let not_after : is_after P (position x) y ≡ false = rw le refl in
      rw not_after (after_entry pre x post s u)
