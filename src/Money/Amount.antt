-- ===== src/Money/Amount.antt =====
-- The two regular expressions of src/domain/money/money.ts, over the code points of a text, and
-- the number of hundredths that an amount stands for.
use Prim.Native.Char.{code}
use jungle_challenge.Common.{
  ℕ, ◌+◌, ◌-◌, ◌*◌, Bool, true, false, ◌&&◌, List, [], ◌∷◌, String, leb, ◌==◌, nat_eq,
  if◌then◌else◌,
}

abbrev pub codes : String → List ℕ
codes String.[] = []
codes (String.◌∷◌ first rest) = code first ∷ codes rest

abbrev pub is_digit : ℕ → Bool
is_digit c = leb b'0' c && leb c b'9'

abbrev pub is_upper : ℕ → Bool
is_upper c = leb b'A' c && leb c b'Z'

-- `/^[A-Z]{3}$/`
abbrev pub is_currency : List ℕ → Bool
is_currency (a ∷ b ∷ c ∷ []) = is_upper a && (is_upper b && is_upper c)
is_currency _ = false

-- `\d{1,2}$`
abbrev pub matches_fraction : List ℕ → Bool
matches_fraction (a ∷ []) = is_digit a
matches_fraction (a ∷ b ∷ []) = is_digit a && is_digit b
matches_fraction _ = false

-- `\d*(\.\d{1,2})?$`
abbrev pub matches_rest : List ℕ → Bool
matches_rest [] = true
matches_rest (c ∷ s) = if is_digit c then matches_rest s else c == b'.' && matches_fraction s

-- `/^\d+(\.\d{1,2})?$/`
abbrev pub matches_amount : List ℕ → Bool
matches_amount [] = false
matches_amount (c ∷ s) = is_digit c && matches_rest s

-- `/^-?\d+(\.\d{1,2})?$/`
abbrev pub matches_computed : List ℕ → Bool
matches_computed [] = false
matches_computed (c ∷ s) = if c == b'-' then matches_amount s else matches_amount (c ∷ s)

abbrev pub fraction_value : ℕ → List ℕ → ℕ
fraction_value units (a ∷ b ∷ _) = units * 100 + (a - b'0') * 10 + (b - b'0')
fraction_value units (a ∷ []) = units * 100 + (a - b'0') * 10
fraction_value units [] = units * 100

abbrev pub rest_value : ℕ → List ℕ → ℕ
rest_value units [] = units * 100
rest_value units (c ∷ s) =
    if is_digit c then rest_value (units * 10 + (c - b'0')) s else fraction_value units s

-- The hundredths of a matched amount, read digit by digit.
abbrev pub amount_value : List ℕ → ℕ
amount_value s = rest_value 0 s
