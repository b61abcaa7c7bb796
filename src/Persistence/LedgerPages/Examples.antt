-- ===== src/Persistence/LedgerPages/Examples.antt =====
-- The pages of a ledger of three entries, with a page size of 2. The order of ids is that of their
-- characters, and a cursor's text holds the time in tally marks.
use Prim.Native.Char.{char, code}
use Prim.Native.String.compare
use text.Mathlib.Text.{is_eq}
use text.Mathlib.TextEquality.{Char-path}
use jungle_challenge.Common.{
  different, if◌then◌else◌, ℕ, zero, suc, ◌≡◌, refl, ap, Bool, true, false, ◌&&◌, ◌||◌, String,
  Option, none, some, [], ◌∷◌, ◌==◌, nat_eq, string_eq, ltb, arith,
}
use jungle_challenge.Common.Int.{ℤ, pos}
use jungle_challenge.Common.Lists.{length}
use jungle_challenge.Persistence.LedgerPages.{Paging, rows_after}
use jungle_challenge.Persistence.LedgerPages.Walk.{all_pages, all_pages-rows_after}
use jungle_challenge.Persistence.Store.{Store}
use jungle_challenge.Wagering.Vocabulary.{LedgerDirection}
use jungle_challenge.Wallet.Entry.{WalletLedgerEntry}

unfoldable text_le : String → String → Bool
text_le String.[] t = true
text_le (String.◌∷◌ c s) String.[] = false
text_le (String.◌∷◌ c s) (String.◌∷◌ d t) = ltb (code c) (code d) || code c == code d && text_le s t

text_le_total : (a b : String) → text_le a b ≡ false → text_le b a ≡ true
unfolding text_le
text_le_total String.[] t h = ground arith
text_le_total (String.◌∷◌ c s) String.[] h = refl
text_le_total (String.◌∷◌ c s) (String.◌∷◌ d t) h = let k = text_le_total s t in ground (arith, k)

text_le_trans : (a b c : String) → text_le a b ≡ true → text_le b c ≡ true → text_le a c ≡ true
unfolding text_le
text_le_trans String.[] b c h k = refl
text_le_trans (String.◌∷◌ x a) String.[] c h k = ground arith
text_le_trans (String.◌∷◌ x a) (String.◌∷◌ y b) String.[] h k = ground arith
text_le_trans (String.◌∷◌ x a) (String.◌∷◌ y b) (String.◌∷◌ z c) h k =
    let l = text_le_trans a b c in ground (arith, l)

text_le_antisym : (a b : String) → text_le a b ≡ true → text_le b a ≡ true → a ≡ b
unfolding text_le
text_le_antisym String.[] String.[] h k = refl
text_le_antisym String.[] (String.◌∷◌ d t) h k =
    let none_left : ⊥ = ground arith in absurd none_left
text_le_antisym (String.◌∷◌ c s) String.[] h k =
    let none_left : ⊥ = ground arith in absurd none_left
text_le_antisym (String.◌∷◌ c s) (String.◌∷◌ d t) h k =
    let same : code c ≡ code d = ground arith in
    let l : text_le s t ≡ true = ground arith in
    let r : text_le t s ≡ true = ground arith in
    rw (Char-path c d same) (ap (String.◌∷◌ d) (text_le_antisym s t l r))

-- `.` ends the tally marks.
unfoldable mark : ℕ → String → String
mark zero id = String.◌∷◌ (char 46 tt) id
mark (suc t) id = String.◌∷◌ (char 124 tt) (mark t id)

abbrev one_more : Option (ℕ × String) → Option (ℕ × String)
one_more none = none
one_more (some (t, id)) = some (suc t, id)

unfoldable unmark : String → Option (ℕ × String)
unmark String.[] = none
unmark (String.◌∷◌ c s) = let rest = unmark s in if code c == 46 then some (0, s) else one_more rest

unmark-mark : (t : ℕ) (id : String) → unmark (mark t id) ≡ some (t, id)
unfolding mark unmark
unmark-mark zero id = refl
unmark-mark (suc t) id = ap one_more (unmark-mark t id)

mark-ne-empty : (t : ℕ) (id : String) → (mark t id == "") ≡ false
unfolding mark
mark-ne-empty zero id = ap is_eq (compare.cons-nil (char 46 tt) id)
mark-ne-empty (suc t) id = ap is_eq (compare.cons-nil (char 124 tt) (mark t id))

abbrev paging : Paging
paging = record {
  id_le = text_le;
  id_le_total = text_le_total;
  id_le_trans = text_le_trans;
  id_le_antisym = text_le_antisym;
  encode = mark;
  decode = unmark;
  decode-encode = unmark-mark;
  encode-ne-empty = mark-ne-empty;
}

abbrev first_entry : WalletLedgerEntry ℤ
first_entry = record {
  id = "e1";
  wallet_id = "w1";
  transaction_id = "t1";
  direction = LedgerDirection.credit;
  money = record { value = pos 10; currency = "BRL" };
  balance_before = record { value = pos 0; currency = "BRL" };
  balance_after = record { value = pos 10; currency = "BRL" };
  created_at = 1;
}

-- Not in order, and two at one time.
abbrev three_entries : Store ℤ
three_entries = record {
  wallets = [];
  transactions = [];
  ledger =
      record first_entry { id = "e3"; created_at = 2 }
      ∷ record first_entry { id = "e2"; created_at = 2 }
      ∷ first_entry
      ∷ [];
  inbox = [];
  outbox = [];
}

all_pages-rows_after_example :
    all_pages paging "w1" 2 three_entries
      (suc (length (rows_after paging "w1" none three_entries)))
      none
    ≡ some (rows_after paging "w1" none three_entries)
all_pages-rows_after_example = all_pages-rows_after paging "w1" 1 three_entries (
  (different "e2" "e3" refl, (different "e1" "e3" refl, tt)),
  ((different "e1" "e2" refl, tt), (tt, tt)),
)
