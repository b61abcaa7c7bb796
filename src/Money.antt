-- ===== src/Money.antt =====
-- Monetary values: src/domain/money/money.ts. A `Money` holds a decimal of the parameter's type.
pub mod Amount
pub mod Text
pub mod Decimal
pub mod Laws
pub mod RoundTrip
pub mod Cents
mod Examples
use Prim.Native.String
use jungle_challenge.Common.{
  ℕ, ◌≡◌, Bool, true, false, not, String, ok, err, ◌>>=◌, ◌>>◌, throw_if, ◌==◌, string_eq, ◌&&◌,
}
use jungle_challenge.Errors.{
  Checked, money_error, invalid_money_amount, invalid_currency, currency_mismatch,
}
use Amount.{codes, is_currency, matches_amount, matches_computed}
use Decimal.{Constructed, unparseable, not_finite, too_many_places, exact, Decimals}

pub record MoneyProps : Type 0 where
  pub amount : String
  pub currency : String

pub record Money (V : Type 0) : Type 0 where
  pub value : V
  pub currency : String

unfoldable pub parse_currency : String → Checked String
parse_currency input = do
  throw_if (not (is_currency (codes input))) (money_error (invalid_currency input))
  ok input

module _ {V : Type 0} ⦃D : Decimals V⦄ where
  -- The checks that follow `new MoneyDecimal(input)`.
  abbrev checked_value : String → Constructed V → Checked V
  checked_value input unparseable = err (money_error (invalid_money_amount input "unparseable"))
  checked_value input not_finite = err (money_error (invalid_money_amount input "not finite"))
  checked_value input too_many_places =
      err (money_error (invalid_money_amount input "more than 2 decimal places"))
  checked_value input (exact v) = ok v

  unfoldable pub parse_amount : String → Checked V
  parse_amount input = do
    throw_if (input == "") (money_error (invalid_money_amount input "empty string"))
    throw_if (not (matches_amount (codes input))) (
        money_error (
          invalid_money_amount input
            "expected a non-negative decimal string with at most 2 fraction digits, no sign, no exponent"))
    checked_value input (D.construct input)

  unfoldable pub from : MoneyProps → Checked (Money V)
  from props = do
    currency ← parse_currency props.currency
    value ← parse_amount props.amount
    ok (record { value = value; currency = currency })

  -- `zero`
  unfoldable pub zero_of : String → Checked (Money V)
  zero_of currency = do
    parsed ← parse_currency currency
    ok (record { value = D.nought; currency = parsed })

  abbrev computed_value : String → Constructed V → Checked V
  computed_value amount (exact v) = ok v
  computed_value amount _ =
      err (money_error (invalid_money_amount amount "not finite or too many decimals"))

  unfoldable pub from_computed : MoneyProps → Checked (Money V)
  from_computed props = do
    currency ← parse_currency props.currency
    throw_if (not (matches_computed (codes props.amount)))
        (money_error (invalid_money_amount props.amount "invalid computed decimal string"))
    value ← computed_value props.amount (D.construct props.amount)
    ok (record { value = value; currency = currency })

  unfoldable pub assert_same_currency : Money V → Money V → Checked (Unit {0})
  assert_same_currency m other =
      throw_if (not (m.currency == other.currency))
        (money_error (currency_mismatch m.currency other.currency))

  unfoldable pub add : Money V → Money V → Checked (Money V)
  unfolding assert_same_currency
  add m other = do
    assert_same_currency m other
    ok (record { value = D.plus m.value other.value; currency = m.currency })

  unfoldable pub subtract : Money V → Money V → Checked (Money V)
  unfolding assert_same_currency
  subtract m other = do
    assert_same_currency m other
    ok (record { value = D.minus m.value other.value; currency = m.currency })

  unfoldable pub negate : Money V → Money V
  negate m = record m { value = D.negated m.value }

  unfoldable pub abs : Money V → Money V
  abs m = record m { value = D.absolute m.value }

  unfoldable pub is_zero : Money V → Bool
  is_zero m = D.is_zero m.value

  unfoldable pub is_positive : Money V → Bool
  is_positive m = D.greater_than m.value D.nought

  unfoldable pub is_negative : Money V → Bool
  is_negative m = D.less_than m.value D.nought

  unfoldable pub is_less_than : Money V → Money V → Checked Bool
  unfolding assert_same_currency
  is_less_than m other = do assert_same_currency m other; ok (D.less_than m.value other.value)

  unfoldable pub is_greater_than : Money V → Money V → Checked Bool
  unfolding assert_same_currency
  is_greater_than m other = do assert_same_currency m other; ok (D.greater_than m.value other.value)

  unfoldable pub is_greater_than_or_equal_to : Money V → Money V → Checked Bool
  unfolding assert_same_currency
  is_greater_than_or_equal_to m other = do
    assert_same_currency m other
    ok (D.greater_than_or_equal_to m.value other.value)

  unfoldable pub equals : Money V → Money V → Bool
  equals m other = m.currency == other.currency && D.equals m.value other.value

  unfoldable pub to_json : Money V → MoneyProps
  to_json m = record { amount = D.to_fixed m.value; currency = m.currency }

  unfoldable pub to_string : Money V → String
  to_string m = String.◌++◌ (D.to_fixed m.value) (String.◌++◌ " " m.currency)
