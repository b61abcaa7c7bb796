-- ===== src/Money/RoundTrip.antt =====
-- What `Money.toJSON` of src/domain/money/money.ts writes, read back by its two factories.
use jungle_challenge.Common.{
  sym, suc, ◌≡◌, refl, ◌∙◌, ap, true, false, ok, err, String, ◌==◌, string_eq, sym, Bool-cases, inl,
  inr, is_ok, arith,
}
use jungle_challenge.Common.Int.{ℤ, pos, negsuc, ◌≤ℤ◌, ◌<ℤ◌, leb_ℤ}
use jungle_challenge.Errors.{Checked}
use jungle_challenge.Money.{
  Money, MoneyProps, parse_currency, parse_amount, from, from_computed, to_json,
}
use jungle_challenge.Money.Amount.{codes, is_currency, matches_amount}
use jungle_challenge.Money.Decimal.{Decimals, exact}
use jungle_challenge.Money.Laws.{units, not_empty, parse_amount_fails}
use jungle_challenge.Money.Text.{
  fixed_text, unsigned_text, unsigned_text-read, fixed_text-computed, fixed_text-amount,
  fixed_text-ne-empty,
}

module _ {V : Type 0} ⦃D : Decimals V⦄ where
  -- The same currency and the same amount.
  abbrev pub IsSameMoney : Money V → Money V → Type 0
  IsSameMoney m n = (n.currency ≡ m.currency) × (units n ≡ units m)

  abbrev pub ReadBack : Money V → Checked (Money V) → Type 0
  ReadBack m (ok n) = IsSameMoney m n
  ReadBack m (err e) = ⊥

  abbrev pub ReadBackUnsigned : Money V → Checked (Money V) → Type 0
  ReadBackUnsigned m (ok n) = (pos 0 ≤ℤ units m) × IsSameMoney m n
  ReadBackUnsigned m (err e) = units m <ℤ pos 0

module _ {V : Type 0} (D : Decimals V) where
  construct-fixed_text :
      (x : ℤ) → (v : V) × (D.construct (fixed_text x) ≡ exact v) × (D.hundredths v ≡ x)
  construct-fixed_text (pos n) =
      let (m, r) = unsigned_text-read n in
      let (v, e, w) = D.construct_lem (unsigned_text n) m in (v, e, w ∙ ap pos r)
  construct-fixed_text (negsuc n) =
      let (m, r) = unsigned_text-read (suc n) in
      let (v, e, w) = D.construct_negative_lem (unsigned_text (suc n)) m in
      (v, e, w ∙ rw r (ground arith))

  -- A text that stands for hundredths.
  pub from_computed-fixed_text :
      (x : ℤ) (currency : String)
      → is_currency (codes currency) ≡ true
      → (m : Money V) × (from_computed ⦃D = D⦄
            (record { amount = fixed_text x; currency = currency })
          ≡ ok m)
        × (m.currency ≡ currency)
        × (D.hundredths m.value ≡ x)
  unfolding from_computed parse_currency
  from_computed-fixed_text x currency c =
      let (v, e, w) = construct-fixed_text x in
      (record { value = v; currency = currency }, rw (c, fixed_text-computed x, e) refl, refl, w)

  pub from-fixed_text :
      (x : ℤ) (currency : String)
      → is_currency (codes currency) ≡ true
      → leb_ℤ (pos 0) x ≡ true
      → (m : Money V) × (from ⦃D = D⦄ (record { amount = fixed_text x; currency = currency })
          ≡ ok m)
        × (m.currency ≡ currency)
        × (D.hundredths m.value ≡ x)
  unfolding from parse_currency parse_amount
  from-fixed_text x currency c h =
      let (v, e, w) = construct-fixed_text x in
      let amount : matches_amount (codes (fixed_text x)) ≡ true = fixed_text-amount x ∙ h in
      (
        record { value = v; currency = currency },
        rw (c, not_empty (fixed_text x) amount, amount, e) refl,
        refl,
        w,
      )

  from-refused :
      (props : MoneyProps)
      → matches_amount (codes props.amount) ≡ false
      → is_ok (from ⦃D = D⦄ props) ≡ false
  unfolding from parse_currency
  from-refused props h = ground (arith, parse_amount_fails D props.amount h)

  read_refused :
      (m : Money V) (r : Checked (Money V))
      → is_ok r ≡ false
      → units ⦃D = D⦄ m <ℤ pos 0
      → ReadBackUnsigned ⦃D = D⦄ m r
  read_refused m (ok n) h l = cc
  read_refused m (err e) h l = l

  -- What is written of money of a valid currency, `fromComputed` reads back as the same currency and the
  -- same amount; so does `from` where the amount is not negative, and it refuses every negative one.
  pub to_json-ReadBack :
      (m : Money V)
      → is_currency (codes m.currency) ≡ true
      → ReadBack ⦃D = D⦄ m (from_computed ⦃D = D⦄ (to_json ⦃D = D⦄ m))
        × ReadBackUnsigned ⦃D = D⦄ m (from ⦃D = D⦄ (to_json ⦃D = D⦄ m))
  unfolding to_json
  to_json-ReadBack m c =
      let x = D.hundredths m.value in
      let (n, e, k, w) = from_computed-fixed_text x m.currency c in
      rw (D.to_fixed_lem m.value) (
        rw e (k, w),
        elim (Bool-cases (leb_ℤ (pos 0) x)) [
          | inl h ↦
              let (u, f, l, v) = from-fixed_text x m.currency c h in
              rw f (ground (arith, h), (l, v))
          | inr h ↦
              read_refused m
                (from ⦃D = D⦄ (record { amount = fixed_text x; currency = m.currency }))
                (from-refused (record { amount = fixed_text x; currency = m.currency })
                  (fixed_text-amount x ∙ h))
                (ground (arith, h))
        ],
      )

  -- The text of an empty sum.
  pub from_computed-zero :
      (currency : String)
      → is_currency (codes currency) ≡ true
      → (m : Money V) × (from_computed ⦃D = D⦄ (record { amount = "0"; currency = currency })
          ≡ ok m)
        × (m.currency ≡ currency)
        × (D.hundredths m.value ≡ pos 0)
  unfolding from_computed parse_currency
  from_computed-zero currency c =
      let (v, e, w) = D.construct_lem "0" refl in
      (record { value = v; currency = currency }, rw (c, e) refl, refl, w)

  -- Money of one currency and one amount is written as one text.
  pub same_text :
      (m n : Money V)
      → m.currency ≡ n.currency
      → D.hundredths m.value ≡ D.hundredths n.value
      → to_json ⦃D = D⦄ n ≡ to_json ⦃D = D⦄ m
  unfolding to_json
  same_text m n c u = rw (D.to_fixed_lem m.value, D.to_fixed_lem n.value, c, u) refl

  -- The text of an amount, with a currency, read back and written again.
  pub from-kept :
      (m : Money V) (currency : String)
      → m.currency ≡ currency
      → is_currency (codes currency) ≡ true
      → pos 0 ≤ℤ units ⦃D = D⦄ m
      → (n : Money V) × (from ⦃D = D⦄
            (record { amount = (to_json ⦃D = D⦄ m).amount; currency = currency })
          ≡ ok n)
        × (to_json ⦃D = D⦄ n ≡ to_json ⦃D = D⦄ m)
  unfolding to_json
  from-kept m currency same c h =
      let (n, e, k, w) = from-fixed_text (D.hundredths m.value) currency c (ground (arith, h)) in
      (n, rw (D.to_fixed_lem m.value) e, same_text m n (same ∙ sym k) (sym w))

  pub from_computed-kept :
      (m : Money V) (currency : String)
      → is_currency (codes currency) ≡ true
      → (n : Money V) × (from_computed ⦃D = D⦄
            (record { amount = (to_json ⦃D = D⦄ m).amount; currency = currency })
          ≡ ok n)
        × (to_json ⦃D = D⦄ n ≡ record { amount = (to_json ⦃D = D⦄ m).amount; currency = currency })
        × (((to_json ⦃D = D⦄ m).amount == "") ≡ false)
  unfolding to_json
  from_computed-kept m currency c =
      let (n, e, k, w) = from_computed-fixed_text (D.hundredths m.value) currency c in
      (
        n,
        rw (D.to_fixed_lem m.value) e,
        rw (D.to_fixed_lem m.value, D.to_fixed_lem n.value, k, w) refl,
        rw (D.to_fixed_lem m.value) (fixed_text-ne-empty (D.hundredths m.value)),
      )
