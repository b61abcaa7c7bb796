-- ===== src/Application/Rules.antt =====
-- How an action ends: rules that follow the combinators of Application/Action.
use jungle_challenge.Common.{◌≡◌, refl, ap, Result, ok, err, Result-cases, inl, inr}
use jungle_challenge.Application.Action.{World, Action, lift, writing, run, attempt, ◌>>=◌}
use jungle_challenge.Application.Fault.{Fault, domain_fault, normalize_error}
use jungle_challenge.Errors.{Checked, DomainError}
use jungle_challenge.Persistence.Store.{Store}

module _ {V A : Type 0} where
  -- `P` of what is returned and the world then, `Q` of what is thrown.
  abbrev pub After :
      (A → World V → Type 0) → (Fault → World V → Type 0) → Result Fault A × World V → Type 0
  After P Q (ok a, w) = P a w
  After P Q (err e, w) = Q e w

module _ {V : Type 0} where
  -- An action that goes on after another one whose outcome is known.
  pub >>=_ok :
      {A B : Type 0} (m : Action V A) (f : A → Action V B) {w w' : World V} {a : A}
      → m w ≡ (ok a, w')
      → (m >>= f) w ≡ f a w'
  >>=_ok m f {w} {w'} {a} e = ap (λ o. ((λ (_ : World V). o) >>= f) w) e

  pub run_ok :
      {A : Type 0} (m : Action V A) {w w' : World V} {a : A}
      → m w ≡ (ok a, w')
      → run m w ≡ (ok a, w')
  run_ok m {w} e = ap (λ o. run (λ (_ : World V). o) w) e

  continued :
      {A B : Type 0} (P : B → World V → Type 0) (Q : Fault → World V → Type 0)
      (o : Result Fault A × World V) (f : A → Action V B) (w : World V)
      → After (λ a w'. After P Q (f a w')) Q o
      → After P Q (((λ _. o) >>= f) w)
  continued P Q (ok a, w') f w h = h
  continued P Q (err e, w') f w h = h

  pub After-bind :
      {A B : Type 0} (P : B → World V → Type 0) (Q : Fault → World V → Type 0) (m : Action V A)
      (f : A → Action V B) (w : World V)
      → After (λ a w'. After P Q (f a w')) Q (m w)
      → After P Q ((m >>= f) w)
  After-bind P Q m f w h = continued P Q (m w) f w h

  recovered :
      {A B : Type 0} (P : B → World V → Type 0) (Q : Fault → World V → Type 0)
      (o : Result Fault A × World V) (f : A → Action V B) (h : Fault → Action V B) (w : World V)
      → After (λ a w'. After P Q (f a w')) (λ e w'. After P Q (h e w')) o
      → After P Q (attempt (λ _. o) f h w)
  recovered P Q (ok a, w') f h w k = k
  recovered P Q (err e, w') f h w k = k

  pub After-attempt :
      {A B : Type 0} (P : B → World V → Type 0) (Q : Fault → World V → Type 0) (m : Action V A)
      (f : A → Action V B) (h : Fault → Action V B) (w : World V)
      → After (λ a w'. After P Q (f a w')) (λ e w'. After P Q (h e w')) (m w)
      → After P Q (attempt m f h w)
  After-attempt P Q m f h w k = recovered P Q (m w) f h w k

  rolled_back :
      {A : Type 0} (P : A → World V → Type 0) (Q : Fault → World V → Type 0)
      (o : Result Fault A × World V) (w : World V)
      → After P (λ e w'. Q (normalize_error e) (record w' { store = w.store })) o
      → After P Q (run (λ _. o) w)
  rolled_back P Q (ok a, w') w h = h
  rolled_back P Q (err e, w') w h = h

  pub After-run :
      {A : Type 0} (P : A → World V → Type 0) (Q : Fault → World V → Type 0) (m : Action V A)
      (w : World V)
      → After P (λ e w'. Q (normalize_error e) (record w' { store = w.store })) (m w)
      → After P Q (run m w)
  After-run P Q m w h = rolled_back P Q (m w) w h

  -- What is known of an end may be weakened.
  pub After-weaken :
      {A : Type 0} {P P' : A → World V → Type 0} {Q Q' : Fault → World V → Type 0}
      → ((a : A) (w : World V) → P a w → P' a w)
      → ((e : Fault) (w : World V) → Q e w → Q' e w)
      → (o : Result Fault A × World V) → After P Q o
      → After P' Q' o
  After-weaken p q (ok a, w) h = p a w h
  After-weaken p q (err e, w) h = q e w h

  pub After-both :
      {A : Type 0} (P P' : A → World V → Type 0) (Q Q' : Fault → World V → Type 0)
      (o : Result Fault A × World V)
      → After P Q o
      → After P' Q' o
      → After (λ a w. P a w × P' a w) (λ e w. Q e w × Q' e w) o
  After-both P P' Q Q' (ok a, w) h k = (h, k)
  After-both P P' Q Q' (err e, w) h k = (h, k)

  pub After-writing :
      (P : Unit {0} → World V → Type 0) (Q : Fault → World V → Type 0)
      (f : Store V → Result Fault (Store V)) (w : World V)
      → ((s : Store V) → f w.store ≡ ok s → P tt (record w { store = s }))
      → ((e : Fault) → f w.store ≡ err e → Q e w)
      → After P Q (writing f w)
  After-writing P Q f w p q = elim (Result-cases (f w.store)) [
    | inl (s, e) ↦ rw e (p s e)
    | inr (x, e) ↦ rw e (q x e)
  ]

  pub After-lift :
      {A : Type 0} (P : A → World V → Type 0) (Q : Fault → World V → Type 0) (c : Checked A)
      (w : World V)
      → ((a : A) → c ≡ ok a → P a w)
      → ((e : DomainError) → c ≡ err e → Q (domain_fault e) w)
      → After P Q (lift c w)
  After-lift P Q (ok a) w p q = p a refl
  After-lift P Q (err e) w p q = q e refl
