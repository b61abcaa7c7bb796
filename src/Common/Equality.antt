-- ===== src/Common/Equality.antt =====
-- `===` of the source, as an interface: one operator for each type whose values the code compares.
use Prim.Native.Nat.{ℕ}
use Prim.Native.String.{String}
use mathlib.Core.Path.{◌≡◌, refl}
use mathlib.Core.Logic.{◌≢◌, ◌↔◌}
use mathlib.Core.Bool.{Bool, true, false}
use mathlib.Core.Option.{Option, none, some}
use native.Mathlib.Omega.{arith}
use text.Mathlib.Text.{◌==◌ as str_eq}
use text.Mathlib.TextEquality.{eq_iff}
use jungle_challenge.Common.Tests.{nat_beq, nat_beq_iff}

-- A type whose values the code compares, with a test that decides equality.
pub record StrictEq {ℓ} (A : Type ℓ) : Type ℓ where
  pub same : A → A → Bool
  pub same_iff : (x y : A) → (same x y ≡ true) ↔ (x ≡ y)

infix 50 ◌==◌
abbrev pub ◌==◌ {ℓ} : {A : Type ℓ} ⦃c : StrictEq A⦄ → A → A → Bool
◌==◌ ⦃c⦄ x y = c.same x y

instance abbrev pub string_eq : StrictEq String
string_eq = record { same = str_eq; same_iff = eq_iff }

instance abbrev pub nat_eq : StrictEq ℕ
nat_eq = record { same = nat_beq; same_iff = nat_beq_iff }

module _ {ℓ} {A : Type ℓ} ⦃c : StrictEq A⦄ where
  abbrev option_beq : Option A → Option A → Bool
  option_beq none none = true
  option_beq (some a) (some b) = a == b
  option_beq _ _ = false

  pub option_beq_iff : (a b : Option A) → (option_beq a b ≡ true) ↔ (a ≡ b)
  option_beq_iff none none = ground arith
  option_beq_iff none (some b) = ground arith
  option_beq_iff (some a) none = ground arith
  option_beq_iff (some a) (some b) = ground (arith, c.same_iff a b)

  instance abbrev pub option_eq : StrictEq (Option A)
  option_eq = record { same = option_beq; same_iff = option_beq_iff }

pub ==_refl {ℓ} : {A : Type ℓ} ⦃c : StrictEq A⦄ (a : A) → (a == a) ≡ true
==_refl ⦃c⦄ a = (c.same_iff a a).1 refl

pub str_iff : (s t : String) → ((s == t) ≡ true) ↔ (s ≡ t)
str_iff s t = eq_iff s t

pub different : (a b : String) → (a == b) ≡ false → a ≢ b
different a b e = ground (arith, str_iff a b)
