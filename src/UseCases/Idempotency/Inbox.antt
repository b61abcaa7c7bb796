-- ===== src/UseCases/Idempotency/Inbox.antt =====
-- What a call of
-- src/application/use-cases/process-wager-transaction/process-wager-transaction.use-case.ts does to the
-- inbox.
use jungle_challenge.Common.{
  ◌≡◌, ◌+◌, refl, ◌∙◌, ◌⊎◌, inl, inr, String, Option, none, some, ◌∷◌, ok, err, arith, Result,
  Bool-cases, ◌==◌, ==_refl, string_eq,
}
use jungle_challenge.Application.Action.{System, World, Action, pure, writing, ◌>>=◌, ◌>>◌}
use jungle_challenge.Application.Fault.{Fault}
use jungle_challenge.Application.Keeping.{Keeps-bind, Keeps-writing}
use jungle_challenge.Application.Rules.{After, After-bind, After-run, After-writing, After-weaken}
use jungle_challenge.Errors.{Checked}
use jungle_challenge.Messaging.Inbox.{InboxMessage, receive}
use jungle_challenge.Money.{Money, from}
use jungle_challenge.Money.Decimal.{Decimals}
use jungle_challenge.Persistence.Repositories.{
  insert_transaction, insert_inbox, find_inbox, find_by_idempotency_key, find_wallet,
}
use jungle_challenge.Persistence.Store.{Store}
use jungle_challenge.UseCases.Accounting.{Anything}
use jungle_challenge.UseCases.Command.{
  InboxRef, ProcessWagerTransactionCommand, ProcessWagerTransactionResult,
}
use jungle_challenge.UseCases.Process.{
  check_inbox, check_prior, stored_result, creation_props, created, receive_once, process_in,
  process_new, unless_known, work, payload_hash_of, execute_with, execute,
}
use jungle_challenge.UseCases.Settlement.{resolve_and_settle}
use jungle_challenge.Wagering.Factory.{create}
use jungle_challenge.Wagering.State.{WagerTransaction}
use jungle_challenge.Wagering.Vocabulary.{WagerTransactionKind, kind_eq}
use jungle_challenge.Wallet.{Wallet}
use jungle_challenge.UseCases.Idempotency.Settling.{
  inbox_of, KeepsInbox, insert_transaction-inbox, resolve_and_settle-KeepsInbox,
}

module _ {V : Type 0} ⦃D : Decimals V⦄ where
  module _ (sys : System) (command : ProcessWagerTransactionCommand) where
    inserted-KeepsInbox :
        (wallet : Wallet V) (tx : WagerTransaction V)
        → KeepsInbox {A = ProcessWagerTransactionResult}
            (writing (insert_transaction tx) >> resolve_and_settle sys command wallet tx)
    inserted-KeepsInbox wallet tx =
        Keeps-bind inbox_of (writing (insert_transaction tx))
          (λ _. resolve_and_settle sys command wallet tx)
          (Keeps-writing inbox_of (insert_transaction tx) (insert_transaction-inbox tx))
          (λ _. resolve_and_settle-KeepsInbox sys command wallet tx)

    created-KeepsInbox : (c : Checked (WagerTransaction V)) → KeepsInbox (created sys command c)
    created-KeepsInbox (ok tx) w = refl
    created-KeepsInbox (err e) w = refl

    process_in-KeepsInbox :
        (hash : String) (money : Money V) (found : Option (Wallet V))
        → KeepsInbox (process_in sys command hash money found)
    process_in-KeepsInbox hash money none w = refl
    process_in-KeepsInbox hash money (some wallet) w =
        let props = creation_props sys command hash money (sys.id_at w.drawn) in
        Keeps-bind inbox_of (created sys command (create props))
          (λ tx. writing (insert_transaction tx) >> resolve_and_settle sys command wallet tx)
          (created-KeepsInbox (create props)) (inserted-KeepsInbox wallet)
          (record w { drawn = w.drawn + 1 })

    unless_known-KeepsInbox :
        (rest : Action V ProcessWagerTransactionResult)
        (known : Option ProcessWagerTransactionResult)
        → KeepsInbox rest
        → KeepsInbox (unless_known sys command rest known)
    unless_known-KeepsInbox rest none h w = h w
    unless_known-KeepsInbox rest (some r) h w = refl

    check_prior-KeepsInbox : (hash : String) → KeepsInbox {V = V} (check_prior sys command hash)
    unfolding check_prior
    check_prior-KeepsInbox hash w = ground arith

    -- What follows the check of the inbox.
    abbrev rest_of : String → Money V → Action V ProcessWagerTransactionResult
    rest_of hash money =
        check_prior sys command hash
        >>= unless_known sys command (process_new sys command hash money)

    rest-KeepsInbox : (hash : String) (money : Money V) → KeepsInbox (rest_of hash money)
    unfolding process_new
    rest-KeepsInbox hash money =
        Keeps-bind inbox_of (check_prior sys command hash)
          (unless_known sys command (process_new sys command hash money))
          (check_prior-KeepsInbox hash)
          (λ known.
            unless_known-KeepsInbox (process_new sys command hash money) known
              (λ w. process_in-KeepsInbox hash money (find_wallet command.wallet_id w.store) w))

  -- A store whose inbox has at most one message more, which it did not have.
  abbrev pub Grown : Store V → Store V → Type 0
  Grown s s' =
      (s'.inbox ≡ s.inbox)
      ⊎ (m : InboxMessage) × (s'.inbox ≡ m ∷ s.inbox)
        × (find_inbox m.consumer_name m.message_id s ≡ none)

  -- A call that came with a message leaves it in the inbox.
  abbrev pub Noted : Option InboxRef → Store V → Store V → Type 0
  Noted none s s' = s'.inbox ≡ s.inbox
  Noted (some ref) s s' =
      Grown s s' × (m : InboxMessage) × (find_inbox ref.consumer_name ref.message_id s' ≡ some m)

  pub Noted-Grown : (inbox : Option InboxRef) (s s' : Store V) → Noted inbox s s' → Grown s s'
  Noted-Grown none s s' same = inl same
  Noted-Grown (some ref) s s' (grown, _, _) = grown

  Noted-kept :
      (inbox : Option InboxRef) (s s' s'' : Store V)
      → Noted inbox s s'
      → s''.inbox ≡ s'.inbox
      → Noted inbox s s''
  unfolding find_inbox
  Noted-kept none s s' s'' same e = e ∙ same
  Noted-kept (some ref) s s' s'' (grown, m, found) e = (rw e grown, m, rw e found)

  insert_inbox-Noted :
      (ref : InboxRef) (m : InboxMessage) (s s' : Store V)
      → m.consumer_name ≡ ref.consumer_name
      → m.message_id ≡ ref.message_id
      → find_inbox ref.consumer_name ref.message_id s ≡ none
      → insert_inbox m s ≡ ok s'
      → Noted (some ref) s s'
  unfolding insert_inbox find_inbox
  insert_inbox-Noted ref m s s' c i fresh e =
      let added : s'.inbox ≡ m ∷ s.inbox = ground arith in
      (
        inr (m, added, rw (c, i) fresh),
        m,
        rw added (rw (c, i) (rw (==_refl ref.consumer_name) (rw (==_refl ref.message_id) refl))),
      )

  module _ (sys : System) (command : ProcessWagerTransactionCommand) where
    stored_result-store :
        (t : Option (WagerTransaction V)) (w : World V) → (stored_result sys command t w).1 ≡ w
    stored_result-store none w = refl
    stored_result-store (some t) w = refl

    receive_once-Noted :
        (ref : InboxRef) (seen : Option InboxMessage) (w : World V)
        → find_inbox ref.consumer_name ref.message_id w.store ≡ seen
        → After
            (λ _ w'. Noted (some ref) w.store w'.store)
            Anything
            (receive_once sys command ref seen w)
    unfolding receive
    receive_once-Noted ref none w fresh =
        let m = receive ref.message_id ref.consumer_name ref.payload_hash sys.now in
        After-bind _ _ (writing (insert_inbox m)) (λ _. pure none) w
          (After-writing _ _ (insert_inbox m) w
            (λ s e. insert_inbox-Noted ref m w.store s refl refl fresh e) (λ _ _. tt))
    receive_once-Noted ref (some m) w seen =
        recalled (find_by_idempotency_key command.idempotency_key w.store)
      where
        recalled :
            (t : Option (WagerTransaction V))
            → After
                (λ _ w'. Noted (some ref) w.store w'.store)
                Anything
                (stored_result sys command t w)
        recalled none = tt
        recalled (some t) = (inl refl, m, seen)

    check_inbox-Noted :
        (inbox : Option InboxRef) (w : World V)
        → After (λ _ w'. Noted inbox w.store w'.store) Anything (check_inbox sys command inbox w)
    unfolding check_inbox
    check_inbox-Noted none w = refl
    check_inbox-Noted (some ref) w = receive_once-Noted ref _ w refl

    After-kept :
        (inbox : Option InboxRef) (s : Store V) (m : Action V ProcessWagerTransactionResult)
        (w : World V)
        → Noted inbox s w.store
        → KeepsInbox m
        → After (λ _ w'. Noted inbox s w'.store) Anything (m w)
    After-kept inbox s m w n keeps = kept (m w) (keeps w)
      where
        kept :
            (o : Result Fault ProcessWagerTransactionResult × World V)
            → o.1.store.inbox ≡ w.store.inbox
            → After (λ _ w'. Noted inbox s w'.store) Anything o
        kept (ok r, w') e = Noted-kept inbox s w.store w'.store n e
        kept (err x, w') e = tt

    work-Noted :
        (hash : String) (money : Money V) (w : World V)
        → After
            (λ _ w'. Noted command.inbox w.store w'.store)
            Anything
            (work sys command hash money w)
    unfolding work
    work-Noted hash money w =
        let rest = rest_of sys command hash money in
        After-bind _ _ (check_inbox sys command command.inbox) (unless_known sys command rest) w (
          After-weaken
            (λ known w' n.
              After-kept command.inbox w.store (unless_known sys command rest known) w' n (
                unless_known-KeepsInbox sys command rest known
                  (rest-KeepsInbox sys command hash money)))
            (λ _ _ _. tt) (check_inbox sys command command.inbox w)
            (check_inbox-Noted command.inbox w))

    execute_with-Noted :
        (parsed : Checked (Money V)) (w : World V)
        → After
            (λ _ w'. Noted command.inbox w.store w'.store)
            (λ _ w'. w'.store ≡ w.store)
            (execute_with sys command parsed w)
    execute_with-Noted (err e) w = refl
    execute_with-Noted (ok money) w =
        elim (Bool-cases (command.kind == WagerTransactionKind.opening)) [
          | inl opens ↦ rw opens refl
          | inr plays ↦ rw plays (
              After-run _ _ (work sys command (payload_hash_of sys command money) money) w (
                After-weaken (λ _ _ a. a) (λ _ _ _. refl)
                  (work sys command (payload_hash_of sys command money) money w)
                  (work-Noted (payload_hash_of sys command money) money w)))
        ]

    -- A call that fails leaves the store. One that returns adds at most one message to the inbox, and
    -- leaves the one it came with there.
    pub execute-Noted :
        (w : World V)
        → After
            (λ _ w'. Noted command.inbox w.store w'.store)
            (λ _ w'. w'.store ≡ w.store)
            (execute sys command w)
    unfolding execute
    execute-Noted w = execute_with-Noted (from command.money) w
