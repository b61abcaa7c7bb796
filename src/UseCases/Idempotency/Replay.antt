-- ===== src/UseCases/Idempotency/Replay.antt =====
-- What a call answers to a command whose key has a row already.
use jungle_challenge.Common.{
  ◌≡◌, ◌≢◌, refl, inl, inr, false, String, none, some, ok, err, arith, Result, Bool-cases, ◌==◌,
  string_eq, str_iff,
}
use jungle_challenge.Application.Action.{System, World, run}
use jungle_challenge.Application.Fault.{Fault, application_fault, idempotency_conflict}
use jungle_challenge.Application.Rules.{After, After-run, After-weaken}
use jungle_challenge.Errors.{Checked}
use jungle_challenge.Money.{Money, from}
use jungle_challenge.Money.Decimal.{Decimals}
use jungle_challenge.Persistence.Repositories.{find_by_idempotency_key}
use jungle_challenge.UseCases.Command.{
  ProcessWagerTransactionCommand, ProcessWagerTransactionResult, replay_result,
}
use jungle_challenge.UseCases.Process.{
  check_inbox, check_prior, work, payload_hash_of, execute_with, execute,
}
use jungle_challenge.Wagering.State.{WagerTransaction}
use jungle_challenge.Wagering.Vocabulary.{WagerTransactionKind, kind_eq}
use jungle_challenge.UseCases.Idempotency.{Answered, work-Answered}
use jungle_challenge.Wagering.Transaction.{matches_payload}

module _ {V : Type 0} ⦃D : Decimals V⦄ where
  module _ (sys : System) (command : ProcessWagerTransactionCommand) where
    same_money : {m n : Money V} → ◌≡◌ {A = Checked (Money V)} (ok m) (ok n) → m ≡ n
    same_money e = cc

    execute_with-Answered :
        (parsed : Checked (Money V)) (money : Money V) (w : World V)
        → parsed ≡ ok money
        → After
            (λ r w'.
              Answered command.idempotency_key
                (payload_hash_of sys command money)
                w.store
                r
                w'.store)
            (λ _ w'. w'.store ≡ w.store)
            (execute_with sys command parsed w)
    execute_with-Answered (err e) money w parsed = refl
    execute_with-Answered (ok m) money w parsed =
        elim (Bool-cases (command.kind == WagerTransactionKind.opening)) [
          | inl opens ↦ rw opens refl
          | inr plays ↦
              rw (plays, same_money parsed)
                (After-run _ _ (work sys command (payload_hash_of sys command money) money) w (
                  After-weaken (λ _ _ a. a) (λ _ _ _. refl)
                    (work sys command (payload_hash_of sys command money) money w)
                    (work-Answered sys command (payload_hash_of sys command money) money w)))
        ]

    -- A call that fails leaves the store. A call that returns either is a replay and leaves the
    -- transactions, or it is the first with its key and adds one row, which holds the key, the hash of
    -- the command's fields, and the id, the status and the failure code of the result, and which is
    -- processed, waits for its reference or is rejected.
    pub execute-Answered :
        (money : Money V) (w : World V)
        → from command.money ≡ ok money
        → After
            (λ r w'.
              Answered command.idempotency_key
                (payload_hash_of sys command money)
                w.store
                r
                w'.store)
            (λ _ w'. w'.store ≡ w.store)
            (execute sys command w)
    unfolding execute
    execute-Answered money w parsed = execute_with-Answered (from command.money) money w parsed

    -- How the call ends where the row of the key is found and no inbox row is involved: with what the
    -- row says if the hash is the row's, else with a conflict, and with the store as it was.
    abbrev pub Resubmitted :
        WagerTransaction V
        → String
        → World V
        → Result Fault ProcessWagerTransactionResult × World V
        → Type 0
    Resubmitted t hash w (ok r, w') =
        (t.payload_hash ≡ hash) × (r ≡ replay_result t) × (w'.store ≡ w.store)
    Resubmitted t hash w (err x, w') =
        (t.payload_hash ≢ hash)
        × (x ≡ application_fault (idempotency_conflict command.idempotency_key))
        × (w'.store ≡ w.store)

    committed :
        (t : WagerTransaction V) (hash : String) (w : World V)
        (o : Result Fault ProcessWagerTransactionResult × World V)
        → Resubmitted t hash w o
        → Resubmitted t hash w (run (λ _. o) w)
    committed t hash w (ok r, w') h = h
    committed t hash w (err x, w') (n, e, same) = ground (arith, n, e)

    work-Resubmitted :
        (hash : String) (money : Money V) (t : WagerTransaction V) (w : World V)
        → command.inbox ≡ none
        → find_by_idempotency_key command.idempotency_key w.store ≡ some t
        → Resubmitted t hash w (work sys command hash money w)
    unfolding work check_inbox check_prior matches_payload
    work-Resubmitted hash money t w alone found =
        ground (arith, alone, found, str_iff t.payload_hash hash)

    -- The answer to a command whose key has a row.
    pub execute-Resubmitted :
        (money : Money V) (t : WagerTransaction V) (w : World V)
        → from command.money ≡ ok money
        → (command.kind == WagerTransactionKind.opening) ≡ false
        → command.inbox ≡ none
        → find_by_idempotency_key command.idempotency_key w.store ≡ some t
        → Resubmitted t (payload_hash_of sys command money) w (execute sys command w)
    unfolding execute
    execute-Resubmitted money t w parsed plays alone found = resubmitted (from command.money) parsed
      where
        resubmitted :
            (c : Checked (Money V))
            → c ≡ ok money
            → Resubmitted t (payload_hash_of sys command money) w (execute_with sys command c w)
        resubmitted c e =
            rw (e, plays)
              (committed t (payload_hash_of sys command money) w
                (work sys command (payload_hash_of sys command money) money w)
                (work-Resubmitted (payload_hash_of sys command money) money t w alone found))
