-- ===== src/Persistence/LedgerPages/Walk.antt =====
-- A client that follows the cursors of src/infrastructure/persistence/mikro-orm/repositories.ts from page
-- to page.
use jungle_challenge.Common.{
  ℕ, zero, suc, ◌≤◌, ◌<◌, ◌≡◌, refl, sym, ◌∙◌, ap, true, String, Option, none, some, List, [], ◌∷◌,
  ◌++◌, Result, ok, err, ◌==◌, nat_eq, string_eq, ltb, Bool-cases, inl, inr, arith,
}
use mathlib.Core.List.{append_assoc}
use jungle_challenge.Common.Lists.{length}
use jungle_challenge.Application.Fault.{Fault}
use jungle_challenge.Persistence.LedgerPages.{
  Paging, LedgerPage, position, last, is_after, page_of, rows_after, read_cursor, list_by_wallet,
}
use jungle_challenge.Persistence.Rows.{
  HasUniqueKeys-select_rows, HasUniqueKeys-sort_rows, HasUniqueKeys,
}
use jungle_challenge.Persistence.Sorting.{
  IsSorted, sort_rows-IsSorted, sort_rows-select_rows, select_rows-both, take-short,
}
use jungle_challenge.Persistence.Store.{Store}
use jungle_challenge.Persistence.Tables.{select_rows, sort_rows, take}
use jungle_challenge.Wallet.Entry.{WalletLedgerEntry}
use jungle_challenge.Persistence.LedgerPages.Order.{
  row_le_total, row_le_trans, sorted_before, id_of, after_entry,
}

module _ {A : Type 0} where
  -- Where a limit of `k + 1` cuts.
  cut :
      (k : ℕ) (xs : List A)
      → ltb (suc k) (length (take (suc (suc k)) xs)) ≡ true
      → (pre : List A) × (x : A) × (post : List A) × (xs ≡ pre ++ (x ∷ post))
        × (take (suc k) (take (suc (suc k)) xs) ≡ pre ++ (x ∷ []))
        × (suc (length post) ≤ length xs)
  cut k [] h = let none_left : ⊥ = ground arith in absurd none_left
  cut zero (x ∷ []) h = let none_left : ⊥ = ground arith in absurd none_left
  cut zero (x ∷ y ∷ xs) h = ([], x, y ∷ xs, refl, refl, omega arith)
  cut (suc k) (x ∷ xs) h =
      let (pre, y, post, e, f, l) = cut k xs (ground arith) in
      (x ∷ pre, y, post, ap (λ r. x ∷ r) e, ap (λ r. x ∷ r) f, omega (arith, l))

module _ {V : Type 0} where
  last-append :
      (pre : List (WalletLedgerEntry V)) (x : WalletLedgerEntry V) → last (pre ++ (x ∷ [])) ≡ some x
  last-append [] x = refl
  last-append (y ∷ []) x = refl
  last-append (y ∷ z ∷ pre) x = last-append (z ∷ pre) x

module _ {V : Type 0} (P : Paging) where
  -- The wallet's entries in order.
  abbrev listing : String → Store V → List (WalletLedgerEntry V)
  listing wallet_id s = rows_after P wallet_id none s

  rows_after-select_rows :
      (wallet_id : String) (p : ℕ × String) (s : Store V)
      → rows_after P wallet_id (some p) s ≡ select_rows (is_after P p) (listing wallet_id s)
  unfolding rows_after
  rows_after-select_rows wallet_id p s =
      ap (sort_rows (sorted_before P))
        (select_rows-both (λ e. e.wallet_id == wallet_id) (is_after P p) s.ledger)
      ∙ sort_rows-select_rows (sorted_before P) (λ a b. row_le_total P (position a) (position b))
          (λ a b c. row_le_trans P (position a) (position b) (position c)) (is_after P p)
          (select_rows (λ e. e.wallet_id == wallet_id) s.ledger)

  listing-IsSorted :
      (wallet_id : String) (s : Store V) → IsSorted (sorted_before P) (listing wallet_id s)
  unfolding rows_after
  listing-IsSorted wallet_id s =
      sort_rows-IsSorted (sorted_before P) (λ a b. row_le_total P (position a) (position b))
        (λ a b c. row_le_trans P (position a) (position b) (position c))
        (select_rows (λ e. e.wallet_id == wallet_id) s.ledger)

  listing-HasUniqueKeys :
      (wallet_id : String) (s : Store V)
      → HasUniqueKeys id_of s.ledger
      → HasUniqueKeys id_of (listing wallet_id s)
  unfolding rows_after
  listing-HasUniqueKeys wallet_id s u =
      HasUniqueKeys-sort_rows id_of (sorted_before P)
        (select_rows (λ e. e.wallet_id == wallet_id) s.ledger)
        (HasUniqueKeys-select_rows id_of (λ e. e.wallet_id == wallet_id) s.ledger u)

  abbrev joined :
      List (WalletLedgerEntry V)
      → Option (List (WalletLedgerEntry V))
      → Option (List (WalletLedgerEntry V))
  joined entries none = none
  joined entries (some others) = some (entries ++ others)

  abbrev turned :
      (Option String → Option (List (WalletLedgerEntry V)))
      → List (WalletLedgerEntry V)
      → Option String
      → Option (List (WalletLedgerEntry V))
  turned more entries none = some entries
  turned more entries (some next) = joined entries (more (some next))

  abbrev read_page :
      (Option String → Option (List (WalletLedgerEntry V)))
      → Result Fault (LedgerPage V)
      → Option (List (WalletLedgerEntry V))
  read_page more (err fault) = none
  read_page more (ok page) = turned more page.entries page.next_cursor

  -- Page after page from a cursor on, at most `fuel` of them; `none` where a page throws or the fuel
  -- runs out.
  unfoldable pub all_pages :
      String → ℕ → Store V → ℕ → Option String → Option (List (WalletLedgerEntry V))
  all_pages wallet_id limit s zero cursor = none
  all_pages wallet_id limit s (suc fuel) cursor =
      read_page (all_pages wallet_id limit s fuel) (list_by_wallet P wallet_id cursor limit s)

  read_cursor-encode :
      (x : WalletLedgerEntry V)
      → read_cursor P (some (P.encode x.created_at x.id)) ≡ ok (some (position x))
  read_cursor-encode x =
      rw (P.encode-ne-empty x.created_at x.id) (rw (P.decode-encode x.created_at x.id) refl)

  -- A limit that cuts: what the page ends with, and what is left.
  page-cut :
      (k : ℕ) (pre : List (WalletLedgerEntry V)) (x : WalletLedgerEntry V)
      (rows : List (WalletLedgerEntry V))
      → ltb (suc k) (length rows) ≡ true
      → take (suc k) rows ≡ pre ++ (x ∷ [])
      → page_of P (suc k) rows
        ≡ record { entries = pre ++ (x ∷ []); next_cursor = some (P.encode x.created_at x.id) }
  page-cut k pre x rows more e = rw more (rw e (rw (last-append pre x) refl))

  module _ (wallet_id : String) (k : ℕ) (s : Store V) (u : HasUniqueKeys id_of s.ledger) where
    list_from :
        (cursor : Option String) (from : Option (ℕ × String)) (rest : List (WalletLedgerEntry V))
        → read_cursor P cursor ≡ ok from
        → rows_after P wallet_id from s ≡ rest
        → list_by_wallet P wallet_id cursor (suc k) s
          ≡ ok (page_of P (suc k) (take (suc (suc k)) rest))
    unfolding list_by_wallet
    list_from cursor from rest read e = rw read (rw e refl)

    -- The rows after an entry of the listing.
    left_after :
        (pre : List (WalletLedgerEntry V)) (x : WalletLedgerEntry V)
        (post : List (WalletLedgerEntry V))
        → listing wallet_id s ≡ pre ++ (x ∷ post)
        → rows_after P wallet_id (some (position x)) s ≡ post
    left_after pre x post e =
        rows_after-select_rows wallet_id (position x) s
        ∙ ap (select_rows (is_after P (position x))) e
        ∙ after_entry P pre x post (rw e at (listing-IsSorted wallet_id s))
            (rw e at (listing-HasUniqueKeys wallet_id s u))

    all_pages-rest :
        (fuel : ℕ) (cursor : Option String) (from : Option (ℕ × String))
        (pre rest : List (WalletLedgerEntry V))
        → read_cursor P cursor ≡ ok from
        → rows_after P wallet_id from s ≡ rest
        → listing wallet_id s ≡ pre ++ rest
        → length rest < fuel
        → all_pages wallet_id (suc k) s fuel cursor ≡ some rest
    unfolding all_pages
    all_pages-rest zero cursor from pre rest read e whole enough = elim enough [ ]
    all_pages-rest (suc fuel) cursor from pre rest read e whole enough =
        let rows = take (suc (suc k)) rest in
        let page = list_from cursor from rest read e in
        elim (Bool-cases (ltb (suc k) (length rows))) [
          | inr all ↦
              let short = take-short (suc k) rest all in
              ap (read_page (all_pages wallet_id (suc k) s fuel)) page ∙ rw all (ap some short)
          | inl more ↦
              let (pre', x, post, split, front, less) = cut k rest more in
              let here = page-cut k pre' x rows more front in
              let whole' : listing wallet_id s ≡ (pre ++ pre') ++ (x ∷ post) =
                whole ∙ ap (λ r. pre ++ r) split ∙ sym (append_assoc pre pre' (x ∷ post)) in
              let others =
                all_pages-rest fuel (some (P.encode x.created_at x.id)) (some (position x))
                  ((pre ++ pre') ++ (x ∷ [])) post (read_cursor-encode x)
                  (left_after (pre ++ pre') x post whole')
                  (whole' ∙ sym (append_assoc (pre ++ pre') (x ∷ []) post))
                  (omega (arith, less, enough)) in
              let more_pages = all_pages wallet_id (suc k) s fuel in
              ap (read_page more_pages) page
              ∙ ap (λ (o : LedgerPage V). read_page more_pages (ok o)) here
              ∙ ap (joined (pre' ++ (x ∷ []))) others
              ∙ ap some (append_assoc pre' (x ∷ []) post ∙ sym split)
        ]

    -- Following the cursors from the first page on, with at least one entry on a page, reads every
    -- ledger entry of the wallet exactly once, in the order of the listing, and comes to an end: no
    -- more pages are read than the wallet has entries, and one.
    pub all_pages-rows_after :
        all_pages wallet_id (suc k) s (suc (length (rows_after P wallet_id none s))) none
        ≡ some (rows_after P wallet_id none s)
    all_pages-rows_after =
        all_pages-rest (suc (length (listing wallet_id s))) none none [] (listing wallet_id s) refl
          refl refl (omega arith)
