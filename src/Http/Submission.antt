-- ===== src/Http/Submission.antt =====
-- What the answer to a POST of src/infrastructure/http/controllers/wagering.controller.ts says of the
-- store.
use jungle_challenge.Common.{
  ℕ, ◌≤◌, ◌≡◌, ◌⊎◌, inl, inr, refl, true, false, String, Option, none, some, List, [], ◌∷◌, Result,
  ok, err, Result-cases, Bool-cases, arith,
}
use jungle_challenge.Application.Action.{System, World}
use jungle_challenge.Application.Fault.{Fault, kind_of}
use jungle_challenge.Application.Rules.{After}
use jungle_challenge.Auth.Guard.{Access, allowed, unauthenticated, forbidden}
use jungle_challenge.Errors.{DomainError}
use jungle_challenge.Http.{
  fault_of, Reply, replied, failed, map_exception, fresh_status, status_for_result, is_blank,
  text_of, SubmitTransactionBody, command_of_body, responded, submit, post_transaction,
}
use jungle_challenge.Money.{from}
use jungle_challenge.Money.Decimal.{Decimals}
use jungle_challenge.Persistence.Store.{Store}
use jungle_challenge.UseCases.Command.{
  ProcessWagerTransactionCommand, ProcessWagerTransactionResult, invalid,
}
use jungle_challenge.UseCases.Idempotency.{Answered, Added}
use jungle_challenge.UseCases.Idempotency.Replay.{execute-Answered}
use jungle_challenge.UseCases.Recording.{IsSettled}
use jungle_challenge.UseCases.Process.{execute, payload_hash_of}
use jungle_challenge.Wagering.State.{WagerTransaction}
use jungle_challenge.Wagering.Vocabulary.{WagerTransactionStatus}

-- Every fault is answered with the status of an error.
map_exception-status : (fault : Fault) → 400 ≤ (map_exception (fault_of fault)).0
unfolding map_exception kind_of
map_exception-status fault = ground arith

-- 201 for a processed transaction, 202 for one that waits for its reference, 422 for a rejected one.
abbrev pub IsStatusOf : ℕ → WagerTransactionStatus → Type 0
IsStatusOf n status =
    ((n ≡ 201) × (status ≡ WagerTransactionStatus.processed))
    ⊎ (((n ≡ 202) × (status ≡ WagerTransactionStatus.pending_reference))
        ⊎ ((n ≡ 422) × (status ≡ WagerTransactionStatus.rejected)))

fresh_status-IsStatusOf :
    (status : WagerTransactionStatus) → IsSettled status → IsStatusOf (fresh_status status) status
fresh_status-IsStatusOf status settled = ground (arith, settled)

module _ {V : Type 0} ⦃D : Decimals V⦄ where
  -- A new transaction under a key.
  abbrev pub IsAdded :
      String
      → List (WagerTransaction V)
      → ProcessWagerTransactionResult
      → List (WagerTransaction V)
      → Type 0
  IsAdded key ts r us = (hash : String) × Added key hash ts r us

  -- 200 for a replay, which adds no transaction; the status of its outcome for one that was added under the
  -- key; 400 or more with the store as it was.
  abbrev pub Responded : String → Store V → Reply ProcessWagerTransactionResult × World V → Type 0
  Responded key s (replied n r, w) =
      ((n ≡ 200) × (r.idempotent_replay ≡ true) × (w.store.transactions ≡ s.transactions))
      ⊎ (IsStatusOf n r.status × IsAdded key s.transactions r w.store.transactions)
  Responded key s (failed n name, w) = (400 ≤ n) × (w.store ≡ s)

  Added-first :
      (key hash : String) (ts us : List (WagerTransaction V)) (r : ProcessWagerTransactionResult)
      → Added key hash ts r us
      → r.idempotent_replay ≡ false
  Added-first key hash ts [] r a = absurd a
  Added-first key hash ts (t ∷ us) r (_, _, _, _, told) = told.first

  Added-settled :
      (key hash : String) (ts us : List (WagerTransaction V)) (r : ProcessWagerTransactionResult)
      → Added key hash ts r us
      → IsSettled r.status
  Added-settled key hash ts [] r a = absurd a
  Added-settled key hash ts (t ∷ us) r (_, _, _, _, told) = told.settled

  responded-Responded :
      (key hash : String) (s : Store V) (o : Result Fault ProcessWagerTransactionResult × World V)
      → After (λ r w. Answered key hash s r w.store) (λ _ w. w.store ≡ s) o
      → Responded key s (responded o)
  unfolding status_for_result
  responded-Responded key hash s (ok r, w) (inl (replay, same)) = inl (rw replay refl, replay, same)
  responded-Responded key hash s (ok r, w) (inr added) = inr (
    rw (Added-first key hash s.transactions w.store.transactions r added) (
        fresh_status-IsStatusOf r.status
          (Added-settled key hash s.transactions w.store.transactions r added)),
    (hash, added),
  )
  responded-Responded key hash s (err fault, w) same = (map_exception-status fault, same)

module _ {V : Type 0} ⦃D : Decimals V⦄ (sys : System)
    (idempotency_key correlation_id : Option String) where
  -- An amount that does not parse is refused before the store is read.
  execute-unparsed :
      (command : ProcessWagerTransactionCommand) (w : World V) (error : DomainError)
      → from {V = V} command.money ≡ err error
      → execute sys command w ≡ (err invalid, w)
  unfolding execute
  execute-unparsed command w error e = rw e refl

  submit-Responded :
      (body : SubmitTransactionBody) (w : World V)
      → Responded
          (text_of idempotency_key)
          w.store
          (submit sys idempotency_key correlation_id body w)
  unfolding submit
  submit-Responded body w =
      let command = command_of_body (text_of idempotency_key) correlation_id body in
      elim (Bool-cases (is_blank idempotency_key)) [
        | inl blank ↦ rw blank (map_exception-status invalid, refl)
        | inr given ↦ rw given (elim (Result-cases (from {V = V} body.money)) [
          | inl (money, parsed) ↦
              responded-Responded (text_of idempotency_key) (payload_hash_of sys command money)
                w.store (execute sys command w) (execute-Answered sys command money w parsed)
          | inr (error, refused) ↦
              rw (execute-unparsed command w error refused) (map_exception-status invalid, refl)
        ])
      ]

  -- The answer to a POST of a transaction: 200 for the replay of an earlier one, and no transaction was
  -- added; for one that was added under the key of the header 201 if it was processed, 202 if it waits
  -- for its reference and 422 if it was rejected, and no other is added; any
  -- other answer, for want of authentication, of a valid body or key, or for what the use case threw, is
  -- an error's with 400 or more, and the store is as it was.
  pub post_transaction-Responded :
      (access : Access) (body : Option SubmitTransactionBody) (w : World V)
      → Responded
          (text_of idempotency_key)
          w.store
          (post_transaction sys idempotency_key correlation_id access body w)
  unfolding post_transaction map_exception
  post_transaction-Responded (unauthenticated failure) body w = (omega arith, refl)
  post_transaction-Responded forbidden body w = (omega arith, refl)
  post_transaction-Responded allowed none w = (map_exception-status invalid, refl)
  post_transaction-Responded allowed (some body) w = submit-Responded body w
