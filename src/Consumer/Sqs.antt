-- ===== src/Consumer/Sqs.antt =====
-- The calls of the client of SQS: ack and toDlq of
-- src/infrastructure/messaging/sqs/wager-transaction.consumer.ts.
use jungle_challenge.Common.{
  ℕ, suc, Bool, true, false, String, Option, none, some, List, ◌∷◌, Result, if◌then◌else◌,
}
use jungle_challenge.Application.Action.{System}
use jungle_challenge.Application.Fault.{Fault}
use jungle_challenge.Consumer.Message.{ConsumerConfig, WagerMessage}

-- A message as SQS delivers it.
pub record SqsMessage : Type 0 where
  pub body : Option String
  pub message_id : Option String
  pub receipt_handle : Option String

-- `JSON.parse` with the schema's `safeParse`, which accept a body or give the error's text; the texts
-- of errors; whether the `n`-th call of the client of SQS returns or throws.
pub record Host : Type 0 where
  pub accept : String → Result String WagerMessage
  pub error_text : Fault → String
  pub returns : ℕ → Bool

-- What is sent to the dead letter queue; the reason before it is cut to 250 units.
pub record DeadLetter : Type 0 where
  pub body : String
  pub group_id : String
  pub deduplication_id : String
  pub reason : String

-- The queues: the calls made, the receipt handles deleted and the dead letters, the last first.
pub record Queues : Type 0 where
  pub calls : ℕ
  pub deleted : List (Option String)
  pub dead : List DeadLetter

-- A call of the client: what it does is done if it returns.
abbrev pub send : Host → (Queues → Queues) → Queues → Bool × Queues
send host f q =
    let q' = record q { calls = suc q.calls } in
    if host.returns q.calls then (true, f q') else (false, q')

abbrev pub delete_message : SqsMessage → Queues → Queues
delete_message message q = record q { deleted = message.receipt_handle ∷ q.deleted }

unfoldable pub ack : Host → SqsMessage → Queues → Bool × Queues
ack host message q = send host (delete_message message) q

-- `message.Body ?? other`
abbrev pub body_or : SqsMessage → String → String
body_or message other = elim message.body [ some body ↦ body | none ↦ other ]

abbrev deduplication : System → SqsMessage → String → String
deduplication sys message reason = elim message.message_id [
  | some id ↦ id
  | none ↦ sys.sha256 (body_or message reason)
]

abbrev pub dead_letter : System → SqsMessage → String → String → DeadLetter
dead_letter sys message reason group_id = record {
  body = body_or message "";
  group_id = group_id;
  deduplication_id = deduplication sys message reason;
  reason = reason;
}

abbrev pub bury : DeadLetter → Queues → Queues
bury letter q = record q { dead = letter ∷ q.dead }

abbrev then_ack : Host → SqsMessage → Bool × Queues → Bool × Queues
then_ack host message (true, q) = ack host message q
then_ack host message (false, q) = (false, q)

unfoldable pub to_dlq :
    Host → System → ConsumerConfig → SqsMessage → String → String → Queues → Bool × Queues
unfolding ack
to_dlq host sys config message reason group_id q = elim config.dlq_url [
  | none ↦ ack host message q
  | some url ↦ then_ack host message (send host (bury (dead_letter sys message reason group_id)) q)
]
