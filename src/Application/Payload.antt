-- ===== src/Application/Payload.antt =====
-- The fields that identify an operation, and their hash: src/application/wager-payload.ts.
use jungle_challenge.Common.{String, Option, none, some}
use jungle_challenge.Application.Action.{System}
use jungle_challenge.Application.CanonicalJson.{
  Json, null, text, object, nil, member, canonical_json,
}
use jungle_challenge.Money.{Money, to_json}
use jungle_challenge.Money.Decimal.{Decimals}
use jungle_challenge.Wagering.Vocabulary.{WagerTransactionKind}

pub record WagerBusinessFields : Type 0 where
  pub provider_id : String
  pub external_transaction_id : String
  pub player_id : String
  pub wallet_id : String
  pub round_id : String
  pub game_id : String
  pub kind : WagerTransactionKind
  pub amount : String
  pub currency : String
  pub reference_external_transaction_id : Option String

pub record WagerBusinessInput : Type 0 where
  pub provider_id : String
  pub external_transaction_id : String
  pub player_id : String
  pub wallet_id : String
  pub round_id : String
  pub game_id : String
  pub kind : WagerTransactionKind
  pub reference_external_transaction_id : Option String

-- The texts of the enumeration's members.
abbrev pub kind_text : WagerTransactionKind → String
kind_text WagerTransactionKind.opening = "OPENING"
kind_text WagerTransactionKind.bet = "BET"
kind_text WagerTransactionKind.win = "WIN"
kind_text WagerTransactionKind.loss = "LOSS"
kind_text WagerTransactionKind.refund = "REFUND"
kind_text WagerTransactionKind.rollback = "ROLLBACK"

module _ {V : Type 0} ⦃D : Decimals V⦄ where
  unfoldable pub to_business_fields : WagerBusinessInput → Money V → WagerBusinessFields
  to_business_fields input money =
      let m = to_json money in
      record {
        provider_id = input.provider_id;
        external_transaction_id = input.external_transaction_id;
        player_id = input.player_id;
        wallet_id = input.wallet_id;
        round_id = input.round_id;
        game_id = input.game_id;
        kind = input.kind;
        amount = m.amount;
        currency = m.currency;
        reference_external_transaction_id = input.reference_external_transaction_id;
      }

abbrev text_or_null : Option String → Json
text_or_null none = null
text_or_null (some s) = text s

-- The object literal that `toBusinessFields` returns, as JSON.
unfoldable pub fields_json : WagerBusinessFields → Json
fields_json f = object (
    member "providerId" (text f.provider_id) (
      member "externalTransactionId" (text f.external_transaction_id) (
        member "playerId" (text f.player_id) (
          member "walletId" (text f.wallet_id) (
            member "roundId" (text f.round_id) (
              member "gameId" (text f.game_id) (
                member "kind" (text (kind_text f.kind)) (
                  member "amount" (text f.amount) (
                    member "currency" (text f.currency) (
                      member "referenceExternalTransactionId"
                        (text_or_null f.reference_external_transaction_id) nil))))))))))

unfoldable pub hash_business_fields : System → WagerBusinessFields → String
hash_business_fields sys fields = sys.sha256 (canonical_json (fields_json fields))
