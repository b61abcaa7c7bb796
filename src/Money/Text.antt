-- ===== src/Money/Text.antt =====
-- The text of a number of hundredths with two decimal places, as `toFixed(2)` of decimal.js and a
-- column of type numeric(20,2) write it, and how the patterns of src/domain/money/money.ts read it.
use Prim.Native.String
use Prim.Native.Char.{code}
use mathlib.Core.List.{append_assoc}
use text.Mathlib.TextLemmas.{cons-append, nil-append, cons-ne-nil}
use jungle_challenge.Common.{
  Bool, false, str_iff, string_eq, ◌==◌, ℕ, zero, suc, ◌+◌, ◌-◌, ◌*◌, ◌/◌, ◌%◌, ◌<◌, ◌≡◌, refl, sym,
  ◌∙◌, ap, true, String, List, [], ◌∷◌, ◌++◌, ltb, if◌then◌else◌, Bool-cases, inl, inr, arith,
}
use jungle_challenge.Common.Int.{ℤ, pos, negsuc, leb_ℤ}
use jungle_challenge.Money.Amount.{
  codes, matches_rest, matches_amount, matches_computed, rest_value, amount_value,
}

abbrev digit : ℕ → String
digit n =
    if ltb n 5
    then (if ltb n 2
        then (if ltb n 1 then "0" else "1")
        else (if ltb n 3 then "2" else (if ltb n 4 then "3" else "4")))
    else (if ltb n 7
        then (if ltb n 6 then "5" else "6")
        else (if ltb n 8 then "7" else (if ltb n 9 then "8" else "9")))

-- The decimal digits of a number; one more than the number is fuel enough.
abbrev digits_of : ℕ → ℕ → String
digits_of zero n = ""
digits_of (suc fuel) n =
    let more = String.◌++◌ (digits_of fuel (n / 10)) (digit (n % 10)) in
    if ltb n 10 then digit n else more

abbrev pub unsigned_text : ℕ → String
unsigned_text n =
    String.◌++◌ (digits_of (suc (n / 100)) (n / 100))
      (String.◌++◌ "." (String.◌++◌ (digit (n / 10 % 10)) (digit (n % 10))))

abbrev pub signed : String → String
signed s = String.◌++◌ "-" s

abbrev pub fixed_text : ℤ → String
fixed_text (pos n) = unsigned_text n
fixed_text (negsuc n) = signed (unsigned_text (suc n))

pub codes-append : (s t : String) → codes (String.◌++◌ s t) ≡ codes s ++ codes t
codes-append String.[] t = ap codes (nil-append t)
codes-append (String.◌∷◌ c s) t =
    ap codes (cons-append c s t) ∙ ap (λ r. code c ∷ r) (codes-append s t)

codes-digit : (n : ℕ) → n < 10 → codes (digit n) ≡ (48 + n) ∷ []
codes-digit zero h = refl
codes-digit (suc zero) h = refl
codes-digit (suc (suc zero)) h = refl
codes-digit (suc (suc (suc zero))) h = refl
codes-digit (suc (suc (suc (suc zero)))) h = refl
codes-digit (suc (suc (suc (suc (suc zero))))) h = refl
codes-digit (suc (suc (suc (suc (suc (suc zero)))))) h = refl
codes-digit (suc (suc (suc (suc (suc (suc (suc zero))))))) h = refl
codes-digit (suc (suc (suc (suc (suc (suc (suc (suc zero)))))))) h = refl
codes-digit (suc (suc (suc (suc (suc (suc (suc (suc (suc zero))))))))) h = refl
codes-digit (suc (suc (suc (suc (suc (suc (suc (suc (suc (suc n)))))))))) h =
    let none_left : ⊥ = omega (arith, h) in absurd none_left

-- A digit goes on.
matches_rest-digit :
    (n : ℕ) (t : List ℕ) → n < 10 → matches_rest (codes (digit n) ++ t) ≡ matches_rest t
matches_rest-digit n t h = rw (codes-digit n h) (ground arith)

rest_value-digit :
    (u n : ℕ) (t : List ℕ)
    → n < 10
    → rest_value u (codes (digit n) ++ t) ≡ rest_value (u * 10 + n) t
rest_value-digit u n t h =
    let same : 48 + n - 48 ≡ n = omega arith in rw (codes-digit n h) (ground (arith, same))

matches_amount-digit :
    (n : ℕ) (t : List ℕ) → n < 10 → matches_amount (codes (digit n) ++ t) ≡ matches_rest t
matches_amount-digit n t h = rw (codes-digit n h) (ground arith)

-- The digits of a number read as the number, whatever follows.
digits_of-read :
    (fuel n : ℕ) (t : List ℕ)
    → n < fuel
    → (matches_amount (codes (digits_of fuel n) ++ t) ≡ matches_rest t)
      × (rest_value 0 (codes (digits_of fuel n) ++ t) ≡ rest_value n t)
digits_of-read zero n t h = elim h [ ]
digits_of-read (suc fuel) n t h = elim (Bool-cases (ltb n 10)) [
  | inl small ↦
      let below : n < 10 = ground arith in
      rw small (
        matches_amount-digit n t below,
        rest_value-digit 0 n t below ∙ ap (λ u. rest_value u t) (omega arith),
      )
  | inr large ↦
      let smaller : n / 10 < fuel = ground arith in
      let units : n % 10 < 10 = omega arith in
      let (m, v) = digits_of-read fuel (n / 10) (codes (digit (n % 10)) ++ t) smaller in
      let split : codes (String.◌++◌ (digits_of fuel (n / 10)) (digit (n % 10))) ++ t
          ≡ codes (digits_of fuel (n / 10)) ++ (codes (digit (n % 10)) ++ t) =
        ap (λ r. r ++ t) (codes-append (digits_of fuel (n / 10)) (digit (n % 10)))
        ∙ append_assoc (codes (digits_of fuel (n / 10))) (codes (digit (n % 10))) t in
      let whole : n / 10 * 10 + n % 10 ≡ n = omega arith in
      rw large (
        rw split (
          m ∙ matches_rest-digit (n % 10) t units,
          v ∙ rest_value-digit (n / 10) (n % 10) t units ∙ ap (λ u. rest_value u t) whole,
        ))
]

-- What a point and two digits add to a text of whole units.
point_read :
    (w a b : String) (u x y : ℕ)
    → ((t : List ℕ)
        → (matches_amount (codes w ++ t) ≡ matches_rest t)
          × (rest_value 0 (codes w ++ t) ≡ rest_value u t))
    → codes a ≡ (48 + x) ∷ []
    → codes b ≡ (48 + y) ∷ []
    → x < 10
    → y < 10
    → (matches_amount (codes (String.◌++◌ w (String.◌++◌ "." (String.◌++◌ a b)))) ≡ true)
      × (amount_value (codes (String.◌++◌ w (String.◌++◌ "." (String.◌++◌ a b))))
          ≡ u * 100 + x * 10 + y)
point_read w a b u x y whole ea eb hx hy =
    let all : codes (String.◌++◌ w (String.◌++◌ "." (String.◌++◌ a b)))
        ≡ codes w ++ (46 ∷ (48 + x) ∷ (48 + y) ∷ []) =
      codes-append w (String.◌++◌ "." (String.◌++◌ a b))
      ∙ ap (λ r. codes w ++ r)
          (codes-append "." (String.◌++◌ a b)
            ∙ ap (λ r. 46 ∷ r) (codes-append a b ∙ rw (ea, eb) refl)) in
    let (m, v) = whole (46 ∷ (48 + x) ∷ (48 + y) ∷ []) in
    let tens : 48 + x - 48 ≡ x = omega arith in
    let ones : 48 + y - 48 ≡ y = omega arith in rw all (m ∙ ground arith, v ∙ rw (tens, ones) refl)

-- The text of hundredths is an amount, and reads as them.
pub unsigned_text-read :
    (n : ℕ)
    → (matches_amount (codes (unsigned_text n)) ≡ true)
      × (amount_value (codes (unsigned_text n)) ≡ n)
unsigned_text-read n =
    let tens : n / 10 % 10 < 10 = omega arith in
    let ones : n % 10 < 10 = omega arith in
    let enough : n / 100 < suc (n / 100) = omega arith in
    let (m, v) =
      point_read (digits_of (suc (n / 100)) (n / 100)) (digit (n / 10 % 10)) (digit (n % 10))
        (n / 100) (n / 10 % 10) (n % 10) (λ t. digits_of-read (suc (n / 100)) (n / 100) t enough)
        (codes-digit (n / 10 % 10) tens) (codes-digit (n % 10) ones) tens ones in
    let total : n / 100 * 100 + n / 10 % 10 * 10 + n % 10 ≡ n = omega arith in (m, v ∙ total)

-- A text of hundredths is one that `Money.fromComputed` accepts.
pub codes-signed : (s : String) → codes (signed s) ≡ 45 ∷ codes s
codes-signed s = codes-append "-" s

matches_amount-computed : (s : List ℕ) → matches_amount s ≡ true → matches_computed s ≡ true
matches_amount-computed [] h = ground arith
matches_amount-computed (c ∷ s) h = ground (arith, h)

pub fixed_text-computed : (x : ℤ) → matches_computed (codes (fixed_text x)) ≡ true
fixed_text-computed (pos n) =
    matches_amount-computed (codes (unsigned_text n)) (unsigned_text-read n).0
fixed_text-computed (negsuc n) =
    ap matches_computed (codes-signed (unsigned_text (suc n))) ∙ (unsigned_text-read (suc n)).0

-- Without a sign it is an amount.
pub fixed_text-amount : (x : ℤ) → matches_amount (codes (fixed_text x)) ≡ leb_ℤ (pos 0) x
fixed_text-amount (pos n) = (unsigned_text-read n).0 ∙ sym (ground arith)
fixed_text-amount (negsuc n) =
    ap matches_amount (codes-signed (unsigned_text (suc n))) ∙ sym (ground arith)

-- A text that is read as something is not empty.
pub read-ne-empty :
    (p : List ℕ → Bool) (s : String) → p [] ≡ false → p (codes s) ≡ true → (s == "") ≡ false
read-ne-empty p String.[] none_read h = cc
read-ne-empty p (String.◌∷◌ c s) none_read h = elim (Bool-cases (String.◌∷◌ c s == "")) [
  | inl e ↦ absurd (cons-ne-nil c s ((str_iff _ _).0 e))
  | inr e ↦ e
]

pub fixed_text-ne-empty : (x : ℤ) → (fixed_text x == "") ≡ false
fixed_text-ne-empty x = read-ne-empty matches_computed (fixed_text x) refl (fixed_text-computed x)
