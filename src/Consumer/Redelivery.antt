-- ===== src/Consumer/Redelivery.antt =====
-- A message that the queue delivers again, because its acknowledgement was lost or came too late:
-- handle of src/infrastructure/messaging/sqs/wager-transaction.consumer.ts.
use jungle_challenge.Common.{
  ℕ, ◌≡◌, refl, false, String, Option, some, List, Result, ok, err, if◌then◌else◌, Bool-cases, inl,
  inr,
}
use jungle_challenge.Application.Action.{System, World}
use jungle_challenge.Application.Fault.{Fault}
use jungle_challenge.Consumer.Message.{WagerMessageData, WagerMessage, ConsumerConfig, command_of}
use jungle_challenge.Consumer.Sqs.{SqsMessage, Host, Queues, body_or, ack}
use jungle_challenge.Consumer.{Handled, Site, after_execute, handle}
use jungle_challenge.Money.{Money, from}
use jungle_challenge.Money.Decimal.{Decimals}
use jungle_challenge.Persistence.Store.{Store}
use jungle_challenge.UseCases.Command.{
  ProcessWagerTransactionCommand, ProcessWagerTransactionResult,
}
use jungle_challenge.UseCases.Conservation.Calls.{execute_all}
use jungle_challenge.UseCases.Idempotency.Redelivery.{execute-Redelivered}
use jungle_challenge.UseCases.Idempotency.Repetition.{Repeated}
use jungle_challenge.UseCases.Process.{execute}

module _ {V : Type 0} ⦃D : Decimals V⦄ where
  -- Acknowledged, unless the client throws, with the store as it was.
  abbrev pub IsAcknowledged : Host → Queues → Store V → Option Handled × Site V → Type 0
  IsAcknowledged host q s o =
      (o.0 ≡ some (if host.returns q.calls then Handled.acked else Handled.retried))
      × (o.1.world.store ≡ s)

  Repeated-IsAcknowledged :
      (host : Host) (sys : System) (config : ConsumerConfig) (message : SqsMessage)
      (d : WagerMessageData) (q : Queues) (r : ProcessWagerTransactionResult) (s : Store V)
      (o : Result Fault ProcessWagerTransactionResult × World V)
      → Repeated r s o
      → IsAcknowledged host q s (after_execute host sys config message d q o)
  unfolding ack
  Repeated-IsAcknowledged host sys config message d q r s (err x, w') h = elim h [ ]
  Repeated-IsAcknowledged host sys config message d q r s (ok again, w') (_, _, _, _, same) =
      elim (Bool-cases (host.returns q.calls)) [
        | inl returns ↦ rw returns (refl, same)
        | inr throws ↦ rw throws (refl, same)
      ]

  -- Once a message's request was committed for the first time, and after any other calls of the use
  -- case, every further delivery of a message with the same request leaves the store as it is and is
  -- acknowledged, or is left for a further delivery if the client throws.
  pub handle-IsAcknowledged :
      (host : Host) (sys : System) (config : ConsumerConfig) (message : SqsMessage)
      (parsed : WagerMessage) (money : Money V) (w w1 : World V) (r : ProcessWagerTransactionResult)
      (calls : List (System × ProcessWagerTransactionCommand)) (later : ℕ) (ids : ℕ → String)
      (q : Queues)
      → from parsed.content.money ≡ ok money
      → host.accept (body_or message "") ≡ ok parsed
      → execute sys (command_of sys config parsed.message_id parsed.content) w ≡ (ok r, w1)
      → r.idempotent_replay ≡ false
      → let w2 = execute_all calls w1 in
        IsAcknowledged host q w2.store (
          handle host
            (record sys { now = later; id_at = ids })
            config
            message
            (record { world = w2; queues = q }))
  unfolding handle command_of
  handle-IsAcknowledged host sys config message parsed money w w1 r calls later ids q valid read e
        first =
      let sys' = record sys { now = later; id_at = ids } in
      let command = command_of sys config parsed.message_id parsed.content in
      let w2 = execute_all calls w1 in
      rw read (
        Repeated-IsAcknowledged host sys' config message parsed.content q r w2.store
          (execute sys' command w2)
          (execute-Redelivered sys sys' command _ money w w1 r calls valid refl e first))
