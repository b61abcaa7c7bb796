-- ===== src/Money/Cents.antt =====
-- A value of the interface of Money/Decimal.antt: whole hundredths as integers. It shows that what
-- is assumed of the decimals can be met, and runs the tests.
use jungle_challenge.Common.{ℕ, ◌+◌, ◌≡◌, refl, true, String, List, [], ◌∷◌, if◌then◌else◌}
use jungle_challenge.Common.Int.{ℤ, pos, pos_part, neg_part, sub_ℕ, ◌+ℤ◌, ◌-ℤ◌, ltb_ℤ, leb_ℤ, eqb_ℤ}
use jungle_challenge.Money.Amount.{codes, matches_amount, matches_computed, amount_value}
use jungle_challenge.Money.Text.{signed, fixed_text, codes-signed}
use jungle_challenge.Money.Decimal.{Constructed, unparseable, exact, Decimals}

abbrev unsign : List ℕ → List ℕ
unsign [] = []
unsign (_ ∷ s) = s

abbrev read_text : String → Constructed ℤ
read_text s =
    if matches_amount (codes s)
    then exact (pos (amount_value (codes s)))
    else (if matches_computed (codes s)
        then exact (sub_ℕ 0 (amount_value (unsign (codes s))))
        else unparseable)

pub read_text_lem :
    (s : String)
    → matches_amount (codes s) ≡ true
    → (v : ℤ) × (read_text s ≡ exact v) × (v ≡ pos (amount_value (codes s)))
read_text_lem s h = (pos (amount_value (codes s)), rw h, refl)

pub read_negative_lem :
    (s : String)
    → matches_amount (codes s) ≡ true
    → (v : ℤ) × (read_text (signed s) ≡ exact v) × (v ≡ sub_ℕ 0 (amount_value (codes s)))
read_negative_lem s h = (sub_ℕ 0 (amount_value (codes s)), rw (codes-signed s) (rw h refl), refl)

abbrev absolute_of : ℤ → ℤ
absolute_of x = pos (pos_part x + neg_part x)

instance abbrev pub cents : Decimals ℤ
cents = record {
  construct = read_text;
  nought = pos 0;
  plus = ◌+ℤ◌;
  minus = ◌-ℤ◌;
  negated = λ a. pos 0 -ℤ a;
  absolute = absolute_of;
  is_zero = λ a. eqb_ℤ a (pos 0);
  greater_than = λ a b. ltb_ℤ b a;
  less_than = ltb_ℤ;
  greater_than_or_equal_to = λ a b. leb_ℤ b a;
  equals = eqb_ℤ;
  to_fixed = fixed_text;
  hundredths = λ a. a;
  construct_lem = read_text_lem;
  construct_negative_lem = read_negative_lem;
  hundredths-nought = refl;
  hundredths-plus = λ a b _. refl;
  hundredths-minus = λ a b _. refl;
  hundredths-negated = λ a. refl;
  is_zero_lem = λ a. refl;
  greater_than_lem = λ a b. refl;
  less_than_lem = λ a b. refl;
  greater_than_or_equal_to_lem = λ a b. refl;
  equals_lem = λ a b. refl;
  to_fixed_lem = λ a. refl;
}
