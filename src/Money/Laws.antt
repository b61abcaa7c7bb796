-- ===== src/Money/Laws.antt =====
-- What the operations of src/domain/money/money.ts do to the number of hundredths.
use jungle_challenge.Common.{
  refl, Bool-cases, inl, inr, ◌≡◌, ◌≢◌, ◌⊎◌, true, false, arith, ok, err, is_ok, String, str_iff,
  string_eq, ◌==◌,
}
use jungle_challenge.Money.Text.{read-ne-empty}
use jungle_challenge.Common.Int.{ℤ, pos, ◌+ℤ◌, ◌-ℤ◌, ◌≤ℤ◌, ◌<ℤ◌}
use jungle_challenge.Errors.{Checked, money_error, currency_mismatch}
use jungle_challenge.Money.{
  Money, MoneyProps, parse_currency, parse_amount, from, add, subtract, is_positive, is_negative,
  equals,
}
use jungle_challenge.Money.Amount.{codes, is_currency, matches_amount, amount_value}
use jungle_challenge.Money.Decimal.{Decimals, IsExact}

pub not_empty : (s : String) → matches_amount (codes s) ≡ true → (s == "") ≡ false
not_empty s h = read-ne-empty matches_amount s refl h

module _ {V : Type 0} ⦃D : Decimals V⦄ where
  -- The amount of a `Money`, in hundredths.
  abbrev pub units : Money V → ℤ
  units m = D.hundredths m.value

  pub is_positive_lem : (m : Money V) → is_positive m ≡ true → pos 0 <ℤ units m
  unfolding is_positive
  is_positive_lem m h = ground (arith, D.greater_than_lem m.value D.nought, D.hundredths-nought)

  pub is_positive_false : (m : Money V) → is_positive m ≡ false → units m ≤ℤ pos 0
  unfolding is_positive
  is_positive_false m h = ground (arith, D.greater_than_lem m.value D.nought, D.hundredths-nought)

  pub is_negative_lem : (m : Money V) → is_negative m ≡ false → pos 0 ≤ℤ units m
  unfolding is_negative
  is_negative_lem m h = ground (arith, D.less_than_lem m.value D.nought, D.hundredths-nought)

  pub is_negative_true : (m : Money V) → is_negative m ≡ true → units m <ℤ pos 0
  unfolding is_negative
  is_negative_true m h = ground (arith, D.less_than_lem m.value D.nought, D.hundredths-nought)

  pub equals_refl : (m : Money V) → equals m m ≡ true
  unfolding equals
  equals_refl m = ground (arith, str_iff m.currency m.currency, D.equals_lem m.value m.value)

  -- What an addition (or a subtraction) of `m` and `n` must do, with `total` the exact result.
  abbrev pub Moved : Money V → Money V → ℤ → Checked (Money V) → Type 0
  Moved m n total (ok r) = (m.currency ≡ n.currency) × (r.currency ≡ m.currency) × (units r ≡ total)
  Moved m n total (err e) =
      (m.currency ≢ n.currency) × (e ≡ money_error (currency_mismatch m.currency n.currency))

  -- A sum is returned only between equal currencies, keeps the currency and, below the limit of
  -- the decimals, adds the hundredths; other operands raise `CurrencyMismatchError`.
  pub add-Moved :
      (m n : Money V) → IsExact (units m +ℤ units n) → Moved m n (units m +ℤ units n) (add m n)
  unfolding add
  add-Moved m n h =
      ground (arith, str_iff m.currency n.currency, D.hundredths-plus m.value n.value h)

  -- The same of a difference.
  pub subtract-Moved :
      (m n : Money V) → IsExact (units m -ℤ units n) → Moved m n (units m -ℤ units n) (subtract m n)
  unfolding subtract
  subtract-Moved m n h =
      ground (arith, str_iff m.currency n.currency, D.hundredths-minus m.value n.value h)

  -- What the untrusted factory must make of a pair of texts: a `Money` of that currency and of
  -- exactly the hundredths that the amount spells, if both texts are well formed, and an error if
  -- one is not.
  abbrev pub Parsed : MoneyProps → Checked (Money V) → Type 0
  Parsed props (ok m) =
      (is_currency (codes props.currency) ≡ true)
      × (matches_amount (codes props.amount) ≡ true)
      × (m.currency ≡ props.currency)
      × (units m ≡ pos (amount_value (codes props.amount)))
  Parsed props (err _) =
      (is_currency (codes props.currency) ≡ false) ⊎ (matches_amount (codes props.amount) ≡ false)

module _ {V : Type 0} (D : Decimals V) where
  parse_amount_lem :
      (s : String)
      → matches_amount (codes s) ≡ true
      → (v : V) × (parse_amount ⦃D = D⦄ s ≡ ok v) × (D.hundredths v ≡ pos (amount_value (codes s)))
  unfolding parse_amount
  parse_amount_lem s h =
      let (v, made, worth) = D.construct_lem s h in (v, ground (arith, not_empty s h, made), worth)

  pub parse_amount_fails :
      (s : String) → matches_amount (codes s) ≡ false → is_ok (parse_amount ⦃D = D⦄ s) ≡ false
  unfolding parse_amount
  parse_amount_fails s h = elim (Bool-cases (s == "")) [ inl e ↦ rw e | inr e ↦ rw (e, h) ]

  -- `Money.from` accepts exactly the pairs of a three-letter currency and a plain decimal amount,
  -- and gives the value of that amount, exactly.
  pub from-Parsed : (props : MoneyProps) → Parsed ⦃D = D⦄ props (from ⦃D = D⦄ props)
  unfolding from parse_currency
  from-Parsed props = elim (Bool-cases (matches_amount (codes props.amount))) [
    | inl h ↦ let (v, e, w) = parse_amount_lem props.amount h in ground (arith, e, w)
    | inr h ↦ ground (arith, parse_amount_fails props.amount h)
  ]
