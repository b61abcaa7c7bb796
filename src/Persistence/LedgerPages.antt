-- ===== src/Persistence/LedgerPages.antt =====
-- The pages of a wallet's ledger: listByWallet, encodeCursor and decodeCursor of
-- src/infrastructure/persistence/mikro-orm/repositories.ts. The order of the column type uuid and the
-- text of a cursor (base64url of JSON) are parameters, with what is documented of them.
pub mod Order
pub mod Walk
mod Examples
use jungle_challenge.Common.{
  ℕ, suc, ◌≡◌, Bool, true, false, not, ◌&&◌, ◌||◌, String, Option, none, some, List, [], ◌∷◌,
  Result, ok, err, ◌>>=◌, ◌==◌, nat_eq, string_eq, ltb, if◌then◌else◌,
}
use jungle_challenge.Common.Lists.{length}
use jungle_challenge.Application.Fault.{Fault, unexpected}
use jungle_challenge.Persistence.Store.{Store}
use jungle_challenge.Persistence.Tables.{select_rows, sort_rows, take}
use jungle_challenge.Wallet.Entry.{WalletLedgerEntry}

pub record Paging : Type 0 where
  -- `<=` of the column type uuid
  pub id_le : String → String → Bool
  pub id_le_total : (a b : String) → id_le a b ≡ false → id_le b a ≡ true
  pub id_le_trans : (a b c : String) → id_le a b ≡ true → id_le b c ≡ true → id_le a c ≡ true
  pub id_le_antisym : (a b : String) → id_le a b ≡ true → id_le b a ≡ true → a ≡ b
  -- A cursor's text, and what it is read as; `none` where reading throws.
  pub encode : ℕ → String → String
  pub decode : String → Option (ℕ × String)
  pub decode-encode : (t : ℕ) (id : String) → decode (encode t id) ≡ some (t, id)
  pub encode-ne-empty : (t : ℕ) (id : String) → (encode t id == "") ≡ false

pub record LedgerPage (V : Type 0) : Type 0 where
  pub entries : List (WalletLedgerEntry V)
  pub next_cursor : Option String

module _ (P : Paging) where
  -- `(s, a) <= (t, b)`, as SQL compares rows
  abbrev pub row_le : ℕ × String → ℕ × String → Bool
  row_le (s, a) (t, b) = ltb s t || s == t && P.id_le a b

-- An empty cursor is no cursor.
abbrev pub read_cursor : Paging → Option String → Result Fault (Option (ℕ × String))
read_cursor P none = ok none
read_cursor P (some text) =
    if text == ""
    then ok none
    else elim (P.decode text) [ some p ↦ ok (some p) | none ↦ err unexpected ]

module _ {V : Type 0} where
  abbrev pub position : WalletLedgerEntry V → ℕ × String
  position e = (e.created_at, e.id)

  -- `page.at(-1)`
  abbrev pub last : List (WalletLedgerEntry V) → Option (WalletLedgerEntry V)
  last [] = none
  last (e ∷ []) = some e
  last (e ∷ f ∷ es) = last (f ∷ es)

module _ {V : Type 0} (P : Paging) where
  -- `order by created_at asc, id asc`
  abbrev pub entry_before : WalletLedgerEntry V → WalletLedgerEntry V → Bool
  entry_before a b = row_le P (position a) (position b)

  -- `(created_at, id) > (t, id)`
  abbrev pub is_after : ℕ × String → WalletLedgerEntry V → Bool
  is_after p e = not (row_le P (position e) p)

  -- The rows of a query: of one wallet, after a position if there is one.
  abbrev pub is_listed : String → Option (ℕ × String) → WalletLedgerEntry V → Bool
  is_listed wallet_id none e = e.wallet_id == wallet_id
  is_listed wallet_id (some p) e = e.wallet_id == wallet_id && is_after p e

  abbrev cursor_after : Option (WalletLedgerEntry V) → Option String
  cursor_after none = none
  cursor_after (some e) = some (P.encode e.created_at e.id)

  abbrev pub page_of : ℕ → List (WalletLedgerEntry V) → LedgerPage V
  page_of limit rows =
      if ltb limit (length rows)
      then record { entries = take limit rows; next_cursor = cursor_after (last (take limit rows)) }
      else record { entries = rows; next_cursor = none }

  unfoldable pub rows_after : String → Option (ℕ × String) → Store V → List (WalletLedgerEntry V)
  rows_after wallet_id from s =
      sort_rows entry_before (select_rows (is_listed wallet_id from) s.ledger)

  unfoldable pub list_by_wallet : String → Option String → ℕ → Store V → Result Fault (LedgerPage V)
  unfolding rows_after
  list_by_wallet wallet_id cursor limit s = do
    from ← read_cursor P cursor
    ok (page_of limit (take (suc limit) (rows_after wallet_id from s)))
