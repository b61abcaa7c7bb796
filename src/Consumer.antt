-- ===== src/Consumer.antt =====
-- The consumer of requests from the queue: src/infrastructure/messaging/sqs/wager-transaction.consumer.ts
-- and wager-message.schema.ts. What is outside is a parameter, `Host`. Metrics and logs are left out.
pub mod Message
pub mod Sqs
pub mod Handling
pub mod Batch
pub mod Polling
pub mod Redelivery
mod Examples
use jungle_challenge.Common.{
  ℕ, zero, suc, Bool, true, false, String, Option, none, some, List, [], ◌∷◌, Result, ok, err,
  if◌then◌else◌,
}
use jungle_challenge.Common.Lists.{length}
use jungle_challenge.Application.Action.{System, World}
use jungle_challenge.Application.CanonicalJson.{
  Json, Members, text, object, nil, member, canonical_json,
}
use jungle_challenge.Application.Fault.{
  Fault, application_fault, domain_fault, unique_constraint, concurrent_modification,
  transient_failure, unexpected,
}
use jungle_challenge.Application.Payload.{kind_text}
use jungle_challenge.Money.{MoneyProps}
use jungle_challenge.Money.Decimal.{Decimals}
use jungle_challenge.UseCases.Command.{
  InboxRef, ProcessWagerTransactionCommand, ProcessWagerTransactionResult,
}
use jungle_challenge.UseCases.Process.{execute}
use jungle_challenge.Wagering.Vocabulary.{WagerTransactionKind}
use jungle_challenge.Application.CanonicalJson.{◌<>◌}
use Message.{WagerMessageData, WagerMessage, ConsumerConfig, command_of}
use Sqs.{SqsMessage, Host, Queues, body_or, ack, to_dlq}

pub data Handled : Type 0 where
  acked dlq retried : Handled

pub record PollResult : Type 0 where
  pub received : ℕ
  pub acked : ℕ
  pub dlq : ℕ
  pub retried : ℕ

-- The store and the queues.
pub record Site (V : Type 0) : Type 0 where
  pub world : World V
  pub queues : Queues

-- None of the application's errors has the kind "transient".
unfoldable pub is_transient : Fault → Bool
is_transient (application_fault _) = false
is_transient _ = true

module _ {V : Type 0} ⦃D : Decimals V⦄ (host : Host) (sys : System) (config : ConsumerConfig) where
  -- Into the dead letter queue; `none` where the client throws.
  abbrev pub buried : World V → Bool × Queues → Option Handled × Site V
  buried w (true, q) = (some Handled.dlq, record { world = w; queues = q })
  buried w (false, q) = (none, record { world = w; queues = q })

  -- The end of the `try`, where the acknowledgement may throw, too.
  abbrev pub acknowledged : World V → Bool × Queues → Option Handled × Site V
  acknowledged w (true, q) = (some Handled.acked, record { world = w; queues = q })
  acknowledged w (false, q) = (some Handled.retried, record { world = w; queues = q })

  abbrev pub after_execute :
      SqsMessage
      → WagerMessageData
      → Queues
      → Result Fault ProcessWagerTransactionResult × World V
      → Option Handled × Site V
  after_execute message d q (ok r, w) = acknowledged w (ack host message q)
  after_execute message d q (err fault, w) =
      if is_transient fault
      then (some Handled.retried, record { world = w; queues = q })
      else buried w
          (to_dlq host sys config message ("permanent: " <> host.error_text fault) d.wallet_id q)

  abbrev pub handle_parsed :
      SqsMessage → Result String WagerMessage → Site V → Option Handled × Site V
  handle_parsed message (err error) site =
      buried site.world
        (to_dlq host sys config message ("parse_error: " <> error) "unparseable" site.queues)
  handle_parsed message (ok parsed) site =
      after_execute message parsed.content site.queues
        (execute sys (command_of sys config parsed.message_id parsed.content) site.world)

  -- One message; `none` where it throws.
  unfoldable pub handle : SqsMessage → Site V → Option Handled × Site V
  unfolding ack to_dlq is_transient command_of
  handle message site = handle_parsed message (host.accept (body_or message "")) site

abbrev pub counted : Handled → PollResult → PollResult
counted Handled.acked r = record r { acked = suc r.acked }
counted Handled.dlq r = record r { dlq = suc r.dlq }
counted Handled.retried r = record r { retried = suc r.retried }

module _ {V : Type 0} ⦃D : Decimals V⦄ (host : Host) (sys_at : ℕ → System) (config : ConsumerConfig)
    (stopping : ℕ → Bool) where
  -- The batch from its `n`-th message on, each with the clock and the ids that it is given;
  -- `stopping n` is the flag that `onModuleDestroy` sets. `none` where a message throws.
  unfoldable pub handle_from :
      ℕ → List SqsMessage → PollResult → Site V → Option PollResult × Site V
  handle_from n [] result site = (some result, site)
  handle_from n (message ∷ messages) result site =
      if stopping n
      then (some result, site)
      else (let (outcome, site') = handle host (sys_at n) config message site in
          elim outcome [
            | none ↦ (none, site')
            | some handled ↦ handle_from (suc n) messages (counted handled result) site'
          ])

  -- A cycle, from the messages that were received.
  unfoldable pub poll_once : List SqsMessage → Site V → Option PollResult × Site V
  unfolding handle_from
  poll_once messages site =
      handle_from 0 messages
        (record { received = length messages; acked = 0; dlq = 0; retried = 0 }) site
