-- ===== src/Money/Decimal.antt =====
-- The interface of `decimal.js` as src/domain/money/money.ts configures it (`MoneyDecimal`).
-- The library is not part of the repository, so its operations are a parameter. `V` is the type of
-- its finite values with at most `MONEY_SCALE` (2) decimal places, the only ones that a `Money`
-- holds: a sum, a difference, a negation and an absolute value of such values are such values.
use jungle_challenge.Common.{ℕ, ◌+◌, ◌^◌, ◌<◌, ◌≡◌, Bool, true, String}
use jungle_challenge.Money.Amount.{codes, matches_amount, amount_value}
use jungle_challenge.Money.Text.{signed, fixed_text}
use jungle_challenge.Common.Int.{ℤ, pos, pos_part, neg_part, sub_ℕ, ◌+ℤ◌, ◌-ℤ◌, ltb_ℤ, leb_ℤ, eqb_ℤ}

-- What `new MoneyDecimal(text)` yields: it throws, or the value is NaN or infinite, or it is
-- finite with more than two decimal places, or it is a value of `V`.
pub data Constructed (V : Type 0) : Type 0 where
  unparseable not_finite too_many_places : Constructed V
  exact : V → Constructed V

-- With 40 significant digits a sum of hundredths below this bound is not rounded.
abbrev pub exact_limit : ℕ
exact_limit = 10 ^ 40

abbrev pub IsExact : ℤ → Type 0
IsExact x = pos_part x + neg_part x < exact_limit

pub record Decimals (V : Type 0) : Type 0 where
  pub construct : String → Constructed V
  pub nought : V
  pub plus : V → V → V
  pub minus : V → V → V
  pub negated : V → V
  pub absolute : V → V
  pub is_zero : V → Bool
  pub greater_than : V → V → Bool
  pub less_than : V → V → Bool
  pub greater_than_or_equal_to : V → V → Bool
  pub equals : V → V → Bool
  -- `toFixed(MONEY_SCALE)`
  pub to_fixed : V → String
  -- The value in hundredths, and what the library documents of each operation.
  pub hundredths : V → ℤ
  -- A plain decimal text with at most two decimal places is represented exactly.
  pub construct_lem :
      (s : String)
      → matches_amount (codes s) ≡ true
      → (v : V) × (construct s ≡ exact v) × (hundredths v ≡ pos (amount_value (codes s)))
  pub construct_negative_lem :
      (s : String)
      → matches_amount (codes s) ≡ true
      → (v : V) × (construct (signed s) ≡ exact v)
        × (hundredths v ≡ sub_ℕ 0 (amount_value (codes s)))
  pub hundredths-nought : hundredths nought ≡ pos 0
  pub hundredths-plus :
      (a b : V)
      → IsExact (hundredths a +ℤ hundredths b)
      → hundredths (plus a b) ≡ hundredths a +ℤ hundredths b
  pub hundredths-minus :
      (a b : V)
      → IsExact (hundredths a -ℤ hundredths b)
      → hundredths (minus a b) ≡ hundredths a -ℤ hundredths b
  pub hundredths-negated : (a : V) → hundredths (negated a) ≡ pos 0 -ℤ hundredths a
  pub is_zero_lem : (a : V) → is_zero a ≡ eqb_ℤ (hundredths a) (pos 0)
  pub greater_than_lem : (a b : V) → greater_than a b ≡ ltb_ℤ (hundredths b) (hundredths a)
  pub less_than_lem : (a b : V) → less_than a b ≡ ltb_ℤ (hundredths a) (hundredths b)
  pub greater_than_or_equal_to_lem :
      (a b : V) → greater_than_or_equal_to a b ≡ leb_ℤ (hundredths b) (hundredths a)
  pub equals_lem : (a b : V) → equals a b ≡ eqb_ℤ (hundredths a) (hundredths b)
  -- Two decimal places, no exponent, and no sign of a zero.
  pub to_fixed_lem : (a : V) → to_fixed a ≡ fixed_text (hundredths a)
