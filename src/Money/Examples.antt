-- ===== src/Money/Examples.antt =====
-- Runs of the money operations, and their theorems at concrete amounts.
use jungle_challenge.Common.{◌≡◌, refl, ok, is_ok, false, arith}
use jungle_challenge.Common.Int.{ℤ, pos, negsuc, ◌+ℤ◌}
use jungle_challenge.Money.{
  Money, MoneyProps, parse_currency, parse_amount, from, from_computed, add, abs, to_json,
}
use jungle_challenge.Money.Cents.{cents}
use jungle_challenge.Money.RoundTrip.{ReadBack, ReadBackUnsigned, to_json-ReadBack}
use jungle_challenge.Money.Laws.{Moved, add-Moved, Parsed, from-Parsed}

abbrev brl : ℤ → Money ℤ
brl n = record { value = n; currency = "BRL" }

abbrev props : MoneyProps
props = record { amount = "25.5"; currency = "BRL" }

from_25 : from props ≡ ok (brl (pos 2550))
unfolding from parse_currency parse_amount
from_25 = refl

from_signed : is_ok (from {V = ℤ} (record { amount = "-25.50"; currency = "BRL" })) ≡ false
unfolding from parse_currency parse_amount
from_signed = refl

from_computed_signed :
    from_computed (record { amount = "-25.50"; currency = "BRL" }) ≡ ok (brl (negsuc 2549))
unfolding from_computed parse_currency
from_computed_signed = refl

to_json_fixed : to_json (brl (pos 2505)) ≡ record { amount = "25.05"; currency = "BRL" }
unfolding to_json
to_json_fixed = refl

from-Parsed_example : Parsed {V = ℤ} props (from props)
from-Parsed_example = from-Parsed cents props

add-Moved_example :
    Moved (brl (pos 5)) (brl (pos 7)) (pos 5 +ℤ pos 7) (add (brl (pos 5)) (brl (pos 7)))
unfolding ◌+ℤ◌
add-Moved_example = add-Moved (brl (pos 5)) (brl (pos 7)) (omega arith)

to_json-ReadBack_example :
    ReadBack (brl (negsuc 1249)) (from_computed (to_json (brl (negsuc 1249))))
    × ReadBackUnsigned (brl (negsuc 1249)) (from (to_json (brl (negsuc 1249))))
to_json-ReadBack_example = to_json-ReadBack cents (brl (negsuc 1249)) refl

absolute_amount : abs (brl (negsuc 4)) ≡ brl (pos 5)
unfolding abs
absolute_amount = refl
