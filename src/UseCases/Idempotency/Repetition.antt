-- ===== src/UseCases/Idempotency/Repetition.antt =====
-- A command that was recorded is answered from its row, whatever calls came between.
use jungle_challenge.Common.{
  ℕ, ◌≡◌, refl, sym, ap, ◌∙◌, inl, inr, Bool, true, false, String, none, some, List, [], ◌∷◌, ok,
  err, arith, Result, Result-cases, Bool-cases, ◌==◌, string_eq, str_iff,
}
use jungle_challenge.Application.Action.{System, World}
use jungle_challenge.Application.Fault.{Fault}
use jungle_challenge.Application.Payload.{hash_business_fields}
use jungle_challenge.Application.Rules.{After}
use jungle_challenge.Errors.{Checked, DomainError}
use jungle_challenge.Money.{Money, from}
use jungle_challenge.Money.Decimal.{Decimals}
use jungle_challenge.Persistence.Repositories.{find_by_idempotency_key}
use jungle_challenge.Persistence.Store.{Store}
use jungle_challenge.Persistence.Tables.{has_row, find_row}
use jungle_challenge.UseCases.Command.{
  ProcessWagerTransactionCommand, ProcessWagerTransactionResult, replay_result, invalid,
}
use jungle_challenge.UseCases.Process.{payload_hash_of, execute_with, execute}
use jungle_challenge.UseCases.Recording.{Tells}
use jungle_challenge.Wagering.State.{WagerTransaction}
use jungle_challenge.Wagering.Vocabulary.{WagerTransactionKind, kind_eq}
use jungle_challenge.UseCases.Conservation.Calls.{execute_all}
use jungle_challenge.UseCases.Idempotency.{Answered, Added}
use jungle_challenge.UseCases.Idempotency.Replay.{
  execute-Answered, Resubmitted, execute-Resubmitted,
}

found-has_row {ℓ} :
    {A : Type ℓ} (p : A → Bool) (xs : List A) {x : A} → find_row p xs ≡ some x → has_row p xs ≡ true
found-has_row p [] e = cc
found-has_row p (y ∷ ys) {x} e = ground (arith, found-has_row p ys {x = x})

module _ {V : Type 0} ⦃D : Decimals V⦄ where
  -- The row that is found under a key.
  abbrev has_key : String → WagerTransaction V → Bool
  has_key k t = t.idempotency_key == k

  -- The row of a key stays the row of the key.
  Added-find :
      (key hash k : String) (ts us : List (WagerTransaction V)) (r : ProcessWagerTransactionResult)
      (t : WagerTransaction V)
      → find_row (has_key k) ts ≡ some t
      → Added key hash ts r us
      → find_row (has_key k) us ≡ some t
  Added-find key hash k ts [] r t f a = absurd a
  Added-find key hash k ts (u ∷ us) r t f (o, uk, up, free, told) =
      elim (Bool-cases (u.idempotency_key == k)) [
        | inl same ↦
            let same_key = sym uk ∙ (str_iff u.idempotency_key k).0 same in
            let taken = found-has_row (has_key k) ts f in
            let unused : has_row (has_key k) ts ≡ false = rw (sym same_key) free in cc
        | inr other ↦ rw (other, o) f
      ]

module _ {V : Type 0} ⦃D : Decimals V⦄ where
  module _ (sys : System) (command : ProcessWagerTransactionCommand) where
    ended-find :
        (k : String) (t : WagerTransaction V) (s : Store V)
        (o : Result Fault ProcessWagerTransactionResult × World V) (hash : String)
        → After
            (λ r w'. Answered command.idempotency_key hash s r w'.store)
            (λ _ w'. w'.store ≡ s)
            o
        → find_by_idempotency_key k s ≡ some t
        → find_by_idempotency_key k o.1.store ≡ some t
    unfolding find_by_idempotency_key
    ended-find k t s (ok r, w') hash (inl (replay, same)) f = rw same f
    ended-find k t s (ok r, w') hash (inr added) f =
        Added-find command.idempotency_key hash k s.transactions w'.store.transactions r t f added
    ended-find k t s (err x, w') hash same f = rw same f

    execute_refused :
        (x : DomainError) (w : World V)
        → from {V = V} ⦃D = D⦄ command.money ≡ err x
        → (execute sys command w).1 ≡ w
    unfolding execute
    execute_refused x w e = rw (execute, e) refl

    execute-find :
        (k : String) (t : WagerTransaction V) (w : World V)
        → find_by_idempotency_key k w.store ≡ some t
        → find_by_idempotency_key k ((execute sys command w).1.store) ≡ some t
    execute-find k t w f = elim (Result-cases (from {V = V} ⦃D = D⦄ command.money)) [
      | inl (money, e) ↦
          ended-find k t w.store (execute sys command w) (payload_hash_of sys command money)
            (execute-Answered sys command money w e) f
      | inr (x, e) ↦ rw (ap (λ v. v.store) (execute_refused x w e)) f
    ]

    opening_refused :
        (c : Checked (Money V)) (w : World V)
        → (command.kind == WagerTransactionKind.opening) ≡ true
        → (execute_with sys command c w).0 ≡ err invalid
    opening_refused (ok money) w opens = rw opens refl
    opening_refused (err x) w opens = refl

    -- A command's kind is not OPENING, if the command was answered.
    pub answered_plays :
        (money : Money V) (w w1 : World V) (r : ProcessWagerTransactionResult)
        → from command.money ≡ ok money
        → execute sys command w ≡ (ok r, w1)
        → (command.kind == WagerTransactionKind.opening) ≡ false
    unfolding execute
    answered_plays money w w1 r parsed e =
        elim (Bool-cases (command.kind == WagerTransactionKind.opening)) [
          | inr plays ↦ plays
          | inl opens ↦
              let refused = opening_refused (from command.money) w opens in
              let answered = ap (λ o. o.0) e in cc
        ]

    -- The row that a first call leaves is found under its key.
    pub first-find :
        (hash : String) (w w1 : World V) (r : ProcessWagerTransactionResult)
        → r.idempotent_replay ≡ false
        → Answered command.idempotency_key hash w.store r w1.store
        → (t : WagerTransaction V) × (find_by_idempotency_key command.idempotency_key w1.store
            ≡ some t)
          × (t.payload_hash ≡ hash)
          × Tells r t
    unfolding find_by_idempotency_key
    first-find hash w w1 r first (inl (replay, same)) = cc
    first-find hash w w1 r first (inr added) =
        found_first hash w.store.transactions w1.store.transactions r added
      where
        found_first :
            (hash : String) (ts us : List (WagerTransaction V)) (r : ProcessWagerTransactionResult)
            → Added command.idempotency_key hash ts r us
            → (t : WagerTransaction V) × (find_row (has_key command.idempotency_key) us ≡ some t)
              × (t.payload_hash ≡ hash)
              × Tells r t
        found_first hash ts [] r a = absurd a
        found_first hash ts (t ∷ us) r (o, k, p, free, told) =
            (t, ground (arith, k, str_iff t.idempotency_key command.idempotency_key), p, told)

  pub execute_all-find :
      (calls : List (System × ProcessWagerTransactionCommand)) (k : String) (t : WagerTransaction V)
      (w : World V)
      → find_by_idempotency_key k w.store ≡ some t
      → find_by_idempotency_key k (execute_all calls w).store ≡ some t
  unfolding execute_all
  execute_all-find [] k t w f = f
  execute_all-find ((sys, command) ∷ calls) k t w f =
      execute_all-find calls k t ((execute sys command w).1) (execute-find sys command k t w f)

  -- What the repetition of an answered command must yield.
  abbrev pub Repeated :
      ProcessWagerTransactionResult
      → Store V
      → Result Fault ProcessWagerTransactionResult × World V
      → Type 0
  Repeated r s (ok again, w') =
      (again.idempotent_replay ≡ true)
      × (again.transaction_id ≡ r.transaction_id)
      × (again.status ≡ r.status)
      × (again.failure_code ≡ r.failure_code)
      × (w'.store ≡ s)
  Repeated r s (err _, _) = ⊥

  Resubmitted-Repeated :
      (sys : System) (command : ProcessWagerTransactionCommand) (r : ProcessWagerTransactionResult)
      (t : WagerTransaction V) (hash : String) (w : World V)
      (o : Result Fault ProcessWagerTransactionResult × World V)
      → t.payload_hash ≡ hash
      → Tells r t
      → Resubmitted sys command t hash w o
      → Repeated r w.store o
  unfolding replay_result
  Resubmitted-Repeated sys command r t hash w (ok again, w') p told h = ground arith
  Resubmitted-Repeated sys command r t hash w (err x, w') p told (n, _, _) = n p

  -- A command is processed at most once. After a first call that returned, and after any other calls,
  -- the same command, at whatever time, is answered with the transaction, the status and the failure
  -- code of the first answer, marked as a replay, and changes nothing in the store. The command comes
  -- without an inbox message.
  pub execute-Repeated :
      (sys : System) (command : ProcessWagerTransactionCommand) (money : Money V) (w w1 : World V)
      (r : ProcessWagerTransactionResult) (calls : List (System × ProcessWagerTransactionCommand))
      (later : ℕ)
      → from command.money ≡ ok money
      → command.inbox ≡ none
      → execute sys command w ≡ (ok r, w1)
      → r.idempotent_replay ≡ false
      → let w2 = execute_all calls w1 in
        Repeated r w2.store (execute (record sys { now = later }) command w2)
  unfolding payload_hash_of hash_business_fields
  execute-Repeated sys command money w w1 r calls later parsed alone e first =
      let hash = payload_hash_of sys command money in
      let (t, found, p, told) =
        first-find sys command hash w w1 r first
          (rw e at (execute-Answered sys command money w parsed)) in
      let w2 = execute_all calls w1 in
      let sys' = record sys { now = later } in
      Resubmitted-Repeated sys' command r t hash w2 (execute sys' command w2) p told (
        execute-Resubmitted sys' command money t w2 parsed
          (answered_plays sys command money w w1 r parsed e) alone
          (execute_all-find calls command.idempotency_key t w1 found))
