-- ===== src/Consumer/Message.antt =====
-- The request that a message carries, and the command made of it:
-- src/infrastructure/messaging/sqs/wager-message.schema.ts and the part of handle in
-- wager-transaction.consumer.ts that calls the use case.
use jungle_challenge.Common.{String, Option, none, some}
use jungle_challenge.Application.Action.{System}
use jungle_challenge.Application.CanonicalJson.{
  Json, Members, text, object, nil, member, canonical_json,
}
use jungle_challenge.Application.Payload.{kind_text}
use jungle_challenge.Money.{MoneyProps}
use jungle_challenge.UseCases.Command.{ProcessWagerTransactionCommand}
use jungle_challenge.Wagering.Vocabulary.{WagerTransactionKind}

pub record WagerMessageData : Type 0 where
  pub provider_id : String
  pub external_transaction_id : String
  pub idempotency_key : String
  pub player_id : String
  pub wallet_id : String
  pub round_id : String
  pub game_id : String
  pub kind : WagerTransactionKind
  pub money : MoneyProps
  pub reference_external_transaction_id : Option String

pub record WagerMessage : Type 0 where
  pub message_id : String
  pub occurred_at : String
  pub content : WagerMessageData

pub record ConsumerConfig : Type 0 where
  pub dlq_url : Option String
  pub consumer_name : String

abbrev optional_member : String → Option String → Members
optional_member key none = nil
optional_member key (some s) = member key (text s) nil

-- The data as the schema returns it: the declared members, less an absent one.
unfoldable pub data_json : WagerMessageData → Json
data_json d = object (
    member "providerId" (text d.provider_id) (
      member "externalTransactionId" (text d.external_transaction_id) (
        member "idempotencyKey" (text d.idempotency_key) (
          member "playerId" (text d.player_id) (
            member "walletId" (text d.wallet_id) (
              member "roundId" (text d.round_id) (
                member "gameId" (text d.game_id) (
                  member "kind" (text (kind_text d.kind)) (
                    member "money"
                      (object (
                        member "amount" (text d.money.amount)
                          (member "currency" (text d.money.currency) nil)))
                      (optional_member "referenceExternalTransactionId"
                        d.reference_external_transaction_id))))))))))

unfoldable pub command_of :
    System → ConsumerConfig → String → WagerMessageData → ProcessWagerTransactionCommand
command_of sys config message_id d = record {
  idempotency_key = d.idempotency_key;
  provider_id = d.provider_id;
  external_transaction_id = d.external_transaction_id;
  player_id = d.player_id;
  wallet_id = d.wallet_id;
  round_id = d.round_id;
  game_id = d.game_id;
  kind = d.kind;
  money = d.money;
  reference_external_transaction_id = d.reference_external_transaction_id;
  correlation_id = some message_id;
  causation_id = none;
  inbox = some (record {
    consumer_name = config.consumer_name;
    message_id = message_id;
    payload_hash = sys.sha256 (canonical_json (data_json d));
  });
}
