-- ===== src/UseCases/Idempotency/Redelivery.antt =====
-- A command that came with a message and was recorded is answered from the inbox.
use jungle_challenge.Common.{
  ◌≡◌, ap, inl, inr, false, String, some, List, [], ◌∷◌, ok, err, arith, Result, Option, ◌==◌,
  string_eq, str_iff,
}
use jungle_challenge.Application.Action.{System, World, run}
use jungle_challenge.Application.Fault.{Fault}
use jungle_challenge.Application.Rules.{After}
use jungle_challenge.Messaging.Inbox.{InboxMessage}
use jungle_challenge.Money.{Money, from}
use jungle_challenge.Money.Decimal.{Decimals}
use jungle_challenge.Persistence.Repositories.{find_inbox, find_by_idempotency_key}
use jungle_challenge.Persistence.Store.{Store}
use jungle_challenge.UseCases.Command.{
  InboxRef, ProcessWagerTransactionCommand, ProcessWagerTransactionResult, replay_result,
}
use jungle_challenge.UseCases.Conservation.Calls.{execute_all}
use jungle_challenge.UseCases.Idempotency.Inbox.{Grown, Noted, Noted-Grown, execute-Noted}
use jungle_challenge.UseCases.Idempotency.Repetition.{
  Repeated, first-find, answered_plays, execute_all-find,
}
use jungle_challenge.UseCases.Idempotency.Replay.{execute-Answered}
use jungle_challenge.UseCases.Process.{check_inbox, work, payload_hash_of, execute}
use jungle_challenge.Wagering.State.{WagerTransaction}
use jungle_challenge.Wagering.Vocabulary.{WagerTransactionKind, kind_eq}

module _ {V : Type 0} ⦃D : Decimals V⦄ where
  -- A message that the inbox has stays.
  Grown-find :
      (c i : String) (m : InboxMessage) (s s' : Store V)
      → Grown s s'
      → find_inbox c i s ≡ some m
      → find_inbox c i s' ≡ some m
  unfolding find_inbox
  Grown-find c i m s s' (inl same) f = rw same f
  Grown-find c i m s s' (inr (n, added, fresh)) f =
      rw added (ground (arith, str_iff n.consumer_name c, str_iff n.message_id i, fresh, f))

  ended-find_inbox :
      (inbox : Option InboxRef) (c i : String) (m : InboxMessage) (s : Store V)
      (o : Result Fault ProcessWagerTransactionResult × World V)
      → After (λ _ w'. Noted inbox s w'.store) (λ _ w'. w'.store ≡ s) o
      → find_inbox c i s ≡ some m
      → find_inbox c i o.1.store ≡ some m
  ended-find_inbox inbox c i m s (ok r, w') n f =
      Grown-find c i m s w'.store (Noted-Grown inbox s w'.store n) f
  ended-find_inbox inbox c i m s (err x, w') same f = rw same f

  execute_all-find_inbox :
      (calls : List (System × ProcessWagerTransactionCommand)) (c i : String) (m : InboxMessage)
      (w : World V)
      → find_inbox c i w.store ≡ some m
      → find_inbox c i (execute_all calls w).store ≡ some m
  unfolding execute_all
  execute_all-find_inbox [] c i m w f = f
  execute_all-find_inbox ((sys, command) ∷ calls) c i m w f =
      execute_all-find_inbox calls c i m ((execute sys command w).1) (
        ended-find_inbox command.inbox c i m w.store (execute sys command w)
          (execute-Noted sys command w) f)

  module _ (sys : System) (command : ProcessWagerTransactionCommand) where
    -- The answer from the inbox.
    recalled :
        (hash : String) (money : Money V) (ref : InboxRef) (m : InboxMessage)
        (t : WagerTransaction V) (w : World V)
        → command.inbox ≡ some ref
        → find_inbox ref.consumer_name ref.message_id w.store ≡ some m
        → find_by_idempotency_key command.idempotency_key w.store ≡ some t
        → work sys command hash money w ≡ (ok (replay_result t), w)
    unfolding work check_inbox
    recalled hash money ref m t w came seen found = ground (arith, came, seen, found)

    execute-recalled :
        (money : Money V) (ref : InboxRef) (m : InboxMessage) (t : WagerTransaction V) (w : World V)
        → from command.money ≡ ok money
        → (command.kind == WagerTransactionKind.opening) ≡ false
        → command.inbox ≡ some ref
        → find_inbox ref.consumer_name ref.message_id w.store ≡ some m
        → find_by_idempotency_key command.idempotency_key w.store ≡ some t
        → execute sys command w ≡ (ok (replay_result t), w)
    unfolding execute
    execute-recalled money ref m t w parsed plays came seen found =
        rw (parsed, plays)
          (ap (λ o. run (λ _. o) w)
            (recalled (payload_hash_of sys command money) money ref m t w came seen found))

  -- The message that a call came with.
  noted :
      (inbox : Option InboxRef) (ref : InboxRef) (s : Store V) (r : ProcessWagerTransactionResult)
      (w1 : World V) (o : Result Fault ProcessWagerTransactionResult × World V)
      → After (λ _ w'. Noted inbox s w'.store) (λ _ w'. w'.store ≡ s) o
      → inbox ≡ some ref
      → o ≡ (ok r, w1)
      → (m : InboxMessage) × (find_inbox ref.consumer_name ref.message_id w1.store ≡ some m)
  noted inbox ref s r w1 o n came e = let (_, m, f) = rw (e, came) at n in (m, f)

  -- A message is consumed at most once. After a first call that came with a message and returned, and
  -- after any other calls, the same command with the same message, at whatever time and with whatever
  -- ids, is answered with the transaction, the status and the failure code of the first answer, marked
  -- as a replay, and changes nothing in the store.
  pub execute-Redelivered :
      (sys sys' : System) (command : ProcessWagerTransactionCommand) (ref : InboxRef)
      (money : Money V) (w w1 : World V) (r : ProcessWagerTransactionResult)
      (calls : List (System × ProcessWagerTransactionCommand))
      → from command.money ≡ ok money
      → command.inbox ≡ some ref
      → execute sys command w ≡ (ok r, w1)
      → r.idempotent_replay ≡ false
      → let w2 = execute_all calls w1 in Repeated r w2.store (execute sys' command w2)
  unfolding replay_result
  execute-Redelivered sys sys' command ref money w w1 r calls parsed came e first =
      let (t, found, p, told) =
        first-find sys command (payload_hash_of sys command money) w w1 r first
          (rw e at (execute-Answered sys command money w parsed)) in
      let (m, seen) =
        noted command.inbox ref w.store r w1 (execute sys command w) (execute-Noted sys command w)
          came e in
      let w2 = execute_all calls w1 in
      rw
        (execute-recalled sys' command money ref m t w2 parsed
          (answered_plays sys command money w w1 r parsed e) came
          (execute_all-find_inbox calls ref.consumer_name ref.message_id m w1 seen)
          (execute_all-find calls command.idempotency_key t w1 found))
        (ground (arith, told))
