-- ===== src/Application/Action.antt =====
-- The atomic boundary: src/application/ports/unit-of-work.port.ts and
-- src/infrastructure/persistence/mikro-orm/mikro-unit-of-work.ts. An action reads and writes the store and
-- draws ids, and returns or throws; `run` commits what an action wrote if it returns and rolls it
-- back if it throws. Ids that were drawn stay drawn.
use jungle_challenge.Common.{ℕ, ◌+◌, String, Result, ok, err}
use jungle_challenge.Application.Fault.{Fault, domain_fault, normalize_error}
use jungle_challenge.Errors.{Checked}
use jungle_challenge.Persistence.Store.{Store}

-- What the service is given from outside: the clock's reading for this call, the id generator as
-- the stream of the ids that it returns, and SHA-256 as hexadecimal text.
pub record System : Type 0 where
  pub now : ℕ
  pub id_at : ℕ → String
  pub sha256 : String → String

pub record World (V : Type 0) : Type 0 where
  pub store : Store V
  pub drawn : ℕ

abbrev pub Action : Type 0 → Type 0 → Type 0
Action V A = World V → Result Fault A × World V

module _ {V A : Type 0} where
  abbrev pub pure : A → Action V A
  pure a w = (ok a, w)

  abbrev pub throw : Fault → Action V A
  throw e w = (err e, w)

  abbrev pub reading : (Store V → A) → Action V A
  reading f w = (ok (f w.store), w)

  -- A method of the domain; what it throws goes on as it is.
  abbrev pub lift : Checked A → Action V A
  lift (ok a) w = (ok a, w)
  lift (err e) w = (err (domain_fault e), w)

  -- `uow.run`
  abbrev pub run : Action V A → Action V A
  run m w =
      let (r, w') = m w in
      elim r [
        | ok a ↦ (ok a, w')
        | err e ↦ (err (normalize_error e), record w' { store = w.store })
      ]

infixl 5 ◌>>=◌ ◌>>◌
abbrev pub ◌>>=◌ : {V A B : Type 0} → Action V A → (A → Action V B) → Action V B
◌>>=◌ m f w = let (r, w') = m w in elim r [ ok a ↦ f a w' | err e ↦ (err e, w') ]

abbrev pub ◌>>◌ : {V B : Type 0} → Action V (Unit {0}) → Action V B → Action V B
m >> k = m >>= λ _. k

-- `try { … } catch`: what was written before the error stays written.
abbrev pub attempt :
    {V A B : Type 0} → Action V A → (A → Action V B) → (Fault → Action V B) → Action V B
attempt m f h w = let (r, w') = m w in elim r [ ok a ↦ f a w' | err e ↦ h e w' ]

module _ {V : Type 0} where
  abbrev written : World V → Result Fault (Store V) → Result Fault (Unit {0}) × World V
  written w (ok s) = (ok tt, record w { store = s })
  written w (err e) = (err e, w)

  abbrev pub writing : (Store V → Result Fault (Store V)) → Action V (Unit {0})
  writing f w = written w (f w.store)

  -- `ids.next()`
  abbrev pub next_id : System → Action V String
  next_id sys w = (ok (sys.id_at w.drawn), record w { drawn = w.drawn + 1 })
