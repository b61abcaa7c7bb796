-- ===== src/Application/Keeping.antt =====
-- Parts of the store that an action leaves as they were, however it ends: rules that follow the
-- combinators of Application/Action.
use jungle_challenge.Common.{◌≡◌, refl, ◌∙◌, Result, ok, err, Result-cases, inl, inr}
use jungle_challenge.Application.Action.{World, Action, lift, writing, attempt, ◌>>=◌}
use jungle_challenge.Application.Fault.{Fault}
use jungle_challenge.Errors.{Checked}
use jungle_challenge.Persistence.Store.{Store}

module _ {V X : Type 0} (part : Store V → X) where
  abbrev pub Keeps : {A : Type 0} → Action V A → Type 0
  Keeps m = (w : World V) → part ((m w).1.store) ≡ part w.store

  bound :
      {A B : Type 0} (o : Result Fault A × World V) (f : A → Action V B) (w : World V)
      → part (o.1.store) ≡ part w.store
      → ((a : A) → Keeps (f a))
      → part ((((λ _. o) >>= f) w).1.store) ≡ part w.store
  bound (ok a, w') f w h k = k a w' ∙ h
  bound (err e, w') f w h k = h

  pub Keeps-bind :
      {A B : Type 0} (m : Action V A) (f : A → Action V B)
      → Keeps m
      → ((a : A) → Keeps (f a))
      → Keeps (m >>= f)
  Keeps-bind m f h k w = bound (m w) f w (h w) k

  recovered :
      {A B : Type 0} (o : Result Fault A × World V) (f : A → Action V B) (g : Fault → Action V B)
      (w : World V)
      → part (o.1.store) ≡ part w.store
      → ((a : A) → Keeps (f a))
      → ((e : Fault) → Keeps (g e))
      → part ((attempt (λ _. o) f g w).1.store) ≡ part w.store
  recovered (ok a, w') f g w h k l = k a w' ∙ h
  recovered (err e, w') f g w h k l = l e w' ∙ h

  pub Keeps-attempt :
      {A B : Type 0} (m : Action V A) (f : A → Action V B) (g : Fault → Action V B)
      → Keeps m
      → ((a : A) → Keeps (f a))
      → ((e : Fault) → Keeps (g e))
      → Keeps (attempt m f g)
  Keeps-attempt m f g h k l w = recovered (m w) f g w (h w) k l

  pub Keeps-writing :
      (f : Store V → Result Fault (Store V))
      → ((s s' : Store V) → f s ≡ ok s' → part s' ≡ part s)
      → Keeps (writing f)
  Keeps-writing f h w = elim (Result-cases (f w.store)) [
    | inl (s, e) ↦ rw e (h w.store s e)
    | inr (x, e) ↦ rw e refl
  ]

  pub Keeps-lift : {A : Type 0} (c : Checked A) → Keeps (lift c)
  Keeps-lift (ok a) w = refl
  Keeps-lift (err e) w = refl
