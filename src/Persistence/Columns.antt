-- ===== src/Persistence/Columns.antt =====
-- The columns of type numeric(20,2) of
-- src/infrastructure/persistence/mikro-orm/migrations/Migration20260903000000_init.ts: twenty digits, so an amount of
-- 10 ^ 20 hundredths or more does not fit.
use jungle_challenge.Common.{ℕ, ◌+◌, ◌^◌, Bool, true, Option, none, some, ltb}
use jungle_challenge.Common.Int.{pos_part, neg_part}
use jungle_challenge.Money.{Money}
use jungle_challenge.Money.Decimal.{Decimals}

abbrev pub column_limit : ℕ
column_limit = 10 ^ 20

module _ {V : Type 0} ⦃D : Decimals V⦄ where
  abbrev pub fits : Money V → Bool
  fits m = let n = D.hundredths m.value in ltb (pos_part n + neg_part n) column_limit

  abbrev pub fits_nullable : Option (Money V) → Bool
  fits_nullable none = true
  fits_nullable (some m) = fits m
