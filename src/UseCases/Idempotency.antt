-- ===== src/UseCases/Idempotency.antt =====
-- A command is processed at most once: what `execute` of
-- src/application/use-cases/process-wager-transaction/process-wager-transaction.use-case.ts records, and what
-- it answers to a command that it has recorded.
pub mod Replay
pub mod Settling
pub mod Inbox
pub mod Repetition
pub mod Redelivery
use jungle_challenge.Common.{
  ◌≡◌, ◌≢◌, refl, sym, ◌∙◌, ◌+◌, ◌⊎◌, inl, inr, Bool, true, false, String, Option, none, some, List,
  [], ◌∷◌, ok, err, arith, Result, Bool-cases, ◌==◌, string_eq, str_iff,
}
use jungle_challenge.Application.Action.{System, World, Action, writing, ◌>>=◌, ◌>>◌}
use jungle_challenge.Application.Fault.{Fault, application_fault, idempotency_conflict}
use jungle_challenge.Application.Rules.{After, After-bind, After-run, After-writing, After-weaken}
use jungle_challenge.Errors.{Checked}
use jungle_challenge.Money.{Money, from}
use jungle_challenge.Money.Decimal.{Decimals}
use jungle_challenge.Persistence.Repositories.{
  insert_transaction, insert_inbox, find_by_idempotency_key, find_by_provider_and_external_id,
}
use jungle_challenge.Persistence.Store.{Store}
use jungle_challenge.Persistence.Tables.{has_row, find_row}
use jungle_challenge.UseCases.Accounting.{Anything}
use jungle_challenge.UseCases.Command.{
  InboxRef, ProcessWagerTransactionCommand, ProcessWagerTransactionResult, replay_result, or_else,
}
use jungle_challenge.UseCases.Process.{
  check_inbox, check_prior, prior_result, creation_props, created, process_in, process_new,
  unless_known, work, payload_hash_of, execute_with, execute,
}
use jungle_challenge.UseCases.Recording.{Tells, Recorded, IsNew}
use jungle_challenge.UseCases.Recording.Settling.{resolve_and_settle-Recorded}
use jungle_challenge.UseCases.Settlement.{resolve_and_settle}
use jungle_challenge.Wagering.Factory.{create}
use jungle_challenge.Wagering.State.{WagerTransaction}
use jungle_challenge.Wagering.Vocabulary.{WagerTransactionKind, kind_eq}
use jungle_challenge.Wallet.{Wallet}

module _ {V : Type 0} ⦃D : Decimals V⦄ where
  -- A new first row holds the command's key and hash, and what the result tells; the rows before did
  -- not have the key.
  abbrev pub Added :
      String
      → String
      → List (WagerTransaction V)
      → ProcessWagerTransactionResult
      → List (WagerTransaction V)
      → Type 0
  Added key hash ts r [] = ⊥
  Added key hash ts r (t ∷ others) =
      (others ≡ ts)
      × (t.idempotency_key ≡ key)
      × (t.payload_hash ≡ hash)
      × (has_row (λ u. u.idempotency_key == key) ts ≡ false)
      × Tells r t

  -- A call that returns answers from an earlier row, or adds one.
  abbrev pub Answered : String → String → Store V → ProcessWagerTransactionResult → Store V → Type 0
  Answered key hash s r s' =
      (r.idempotent_replay ≡ true) × (s'.transactions ≡ s.transactions)
      ⊎ Added key hash s.transactions r s'.transactions

  insert_transaction-IsNew :
      (tx : WagerTransaction V) (s : Store V) {s' : Store V}
      → insert_transaction tx s ≡ ok s'
      → (s'.transactions ≡ tx ∷ s.transactions)
        × IsNew tx s.transactions
        × (has_row (λ u. u.idempotency_key == tx.idempotency_key) s.transactions ≡ false)
  unfolding insert_transaction
  insert_transaction-IsNew tx s e = ground arith

  Recorded-Added :
      (tx : WagerTransaction V) (ts : List (WagerTransaction V)) (key hash : String)
      (r : ProcessWagerTransactionResult) (us : List (WagerTransaction V))
      → tx.idempotency_key ≡ key
      → tx.payload_hash ≡ hash
      → has_row (λ u. u.idempotency_key == tx.idempotency_key) ts ≡ false
      → Recorded tx ts r us
      → Added key hash ts r us
  Recorded-Added tx ts key hash r [] k p n h = h
  Recorded-Added tx ts key hash r (t ∷ us) k p n (o, tk, tp, told) =
      (o, tk ∙ k, tp ∙ p, rw (sym k) n, told)

  -- What the checks before the processing leave.
  abbrev Prechecked : Store V → Option ProcessWagerTransactionResult → World V → Type 0
  Prechecked s none w = w.store.transactions ≡ s.transactions
  Prechecked s (some r) w = (w.store.transactions ≡ s.transactions) × (r.idempotent_replay ≡ true)

  module _ (sys : System) (command : ProcessWagerTransactionCommand) where
    create-given :
        (hash : String) (money : Money V) (id : String) {tx : WagerTransaction V}
        → create (creation_props sys command hash money id) ≡ ok tx
        → (tx.idempotency_key ≡ command.idempotency_key)
          × (tx.payload_hash ≡ hash)
          × (tx.failure_code ≡ none)
    unfolding create
    create-given hash money id e = ground arith

    inserted-Added :
        (wallet : Wallet V) (tx : WagerTransaction V) (hash : String) (w : World V)
        → tx.idempotency_key ≡ command.idempotency_key
        → tx.payload_hash ≡ hash
        → tx.failure_code ≡ none
        → After
            (λ r w'.
              Added command.idempotency_key hash w.store.transactions r w'.store.transactions)
            Anything
            ((writing (insert_transaction tx) >> resolve_and_settle sys command wallet tx) w)
    inserted-Added wallet tx hash w k p blank =
        After-bind _ _ (writing (insert_transaction tx))
          (λ _. resolve_and_settle sys command wallet tx) w
          (After-writing _ _ (insert_transaction tx) w
            (λ s e.
              let (head, new, free) = insert_transaction-IsNew tx w.store e in
              After-weaken
                (λ r w' h.
                  Recorded-Added tx w.store.transactions command.idempotency_key hash r
                    w'.store.transactions k p free h)
                (λ _ _ _. tt) (resolve_and_settle sys command wallet tx (record w { store = s }))
                (resolve_and_settle-Recorded sys command wallet tx w.store.transactions
                  (record w { store = s }) head new blank))
            (λ _ _. tt))

    created_then :
        (P : WagerTransaction V → World V → Type 0) (c : Checked (WagerTransaction V)) (w : World V)
        → ((tx : WagerTransaction V) → c ≡ ok tx → P tx w)
        → After P Anything (created sys command c w)
    created_then P (ok tx) w p = p tx refl
    created_then P (err e) w p = tt

    process_in-Added :
        (hash : String) (money : Money V) (found : Option (Wallet V)) (w : World V)
        → After
            (λ r w'.
              Added command.idempotency_key hash w.store.transactions r w'.store.transactions)
            Anything
            (process_in sys command hash money found w)
    process_in-Added hash money none w = tt
    process_in-Added hash money (some wallet) w =
        let props = creation_props sys command hash money (sys.id_at w.drawn) in
        After-bind _ _ (created sys command (create props))
          (λ tx. writing (insert_transaction tx) >> resolve_and_settle sys command wallet tx)
          (record w { drawn = w.drawn + 1 })
          (created_then _ (create props) _ (λ tx e.
            let (k, p, blank) = create-given hash money (sys.id_at w.drawn) e in
            inserted-Added wallet tx hash (record w { drawn = w.drawn + 1 }) k p blank))

    check_inbox-Prechecked :
        (inbox : Option InboxRef) (w : World V)
        → After (Prechecked w.store) Anything (check_inbox sys command inbox w)
    unfolding check_inbox insert_inbox replay_result
    check_inbox-Prechecked none w = ground arith
    check_inbox-Prechecked (some ref) w = ground arith

    check_prior-Prechecked :
        (hash : String) (w : World V)
        → After (Prechecked w.store) Anything (check_prior sys command hash w)
    unfolding check_prior replay_result
    check_prior-Prechecked hash w = ground arith

    unless_known-Answered :
        (hash : String) (s : Store V) (rest : Action V ProcessWagerTransactionResult)
        (known : Option ProcessWagerTransactionResult) (w : World V)
        → Prechecked s known w
        → After (λ r w'. Answered command.idempotency_key hash w.store r w'.store) Anything (rest w)
        → After
            (λ r w'. Answered command.idempotency_key hash s r w'.store)
            Anything
            (unless_known sys command rest known w)
    unless_known-Answered hash s rest none w same h =
        After-weaken (λ r w' a. rw (sym same) a) (λ _ _ _. tt) (rest w) h
    unless_known-Answered hash s rest (some r) w (same, replay) h = inl (replay, same)

    prior_and_new-Answered :
        (hash : String) (money : Money V) (w : World V)
        → After
            (λ r w'. Answered command.idempotency_key hash w.store r w'.store)
            Anything
            ((check_prior sys command hash
                >>= unless_known sys command (process_new sys command hash money))
              w)
    unfolding process_new
    prior_and_new-Answered hash money w =
        After-bind _ _ (check_prior sys command hash)
          (unless_known sys command (process_new sys command hash money)) w
          (After-weaken
            (λ known w' b.
              unless_known-Answered hash w.store (process_new sys command hash money) known w' b (
                After-weaken (λ _ _ a. inr a) (λ _ _ _. tt) (process_new sys command hash money w')
                  (process_in-Added hash money _ w')))
            (λ _ _ _. tt) (check_prior sys command hash w) (check_prior-Prechecked hash w))

    -- The body of the call.
    pub work-Answered :
        (hash : String) (money : Money V) (w : World V)
        → After
            (λ r w'. Answered command.idempotency_key hash w.store r w'.store)
            Anything
            (work sys command hash money w)
    unfolding work
    work-Answered hash money w =
        let rest =
          check_prior sys command hash
          >>= unless_known sys command (process_new sys command hash money) in
        After-bind _ _ (check_inbox sys command command.inbox) (unless_known sys command rest) w (
          After-weaken
            (λ known w' b.
              unless_known-Answered hash w.store rest known w' b
                (prior_and_new-Answered hash money w'))
            (λ _ _ _. tt) (check_inbox sys command command.inbox w)
            (check_inbox-Prechecked command.inbox w))
