-- ===== src/UseCases/Process.antt =====
-- The use case behind the HTTP endpoint and the SQS consumer:
-- src/application/use-cases/process-wager-transaction/process-wager-transaction.use-case.ts. Its body runs as
-- one transaction with the wallet's row locked, so calls on one wallet follow one another; a call is a
-- step on the store.
pub mod Commanded
pub mod Effects
use jungle_challenge.Common.{
  not, String, Option, none, some, ok, err, ◌==◌, string_eq, if◌then◌else◌,
}
use jungle_challenge.Application.Action.{
  System, Action, pure, throw, reading, writing, run, next_id, ◌>>=◌, ◌>>◌,
}
use jungle_challenge.Application.Fault.{
  application_fault, domain_fault, unexpected, wallet_missing, idempotency_conflict,
}
use jungle_challenge.Application.Payload.{to_business_fields, hash_business_fields}
use jungle_challenge.Errors.{Checked}
use jungle_challenge.Messaging.Inbox.{InboxMessage, receive}
use jungle_challenge.Money.{Money, from}
use jungle_challenge.Money.Decimal.{Decimals}
use jungle_challenge.Persistence.Repositories.{
  find_wallet, find_by_idempotency_key, find_by_provider_and_external_id, insert_transaction,
  find_inbox, insert_inbox,
}
use jungle_challenge.Wagering.Factory.{create}
use jungle_challenge.Wagering.State.{WagerTransaction, CreateWagerTransactionProps}
use jungle_challenge.Wagering.Transaction.{matches_payload}
use jungle_challenge.Wagering.Vocabulary.{WagerTransactionKind, kind_eq}
use jungle_challenge.UseCases.Command.{
  InboxRef, ProcessWagerTransactionCommand, ProcessWagerTransactionResult, or_else, invalid,
  creation_fault, replay_result,
}
use jungle_challenge.UseCases.Settlement.{resolve_and_settle}
use jungle_challenge.Wallet.{Wallet}

module _ {V : Type 0} ⦃D : Decimals V⦄ (sys : System)
    (command : ProcessWagerTransactionCommand) where
  -- `done`, where the inbox has the message already
  abbrev pub stored_result :
      Option (WagerTransaction V) → Action V (Option ProcessWagerTransactionResult)
  stored_result none = throw unexpected
  stored_result (some tx) = pure (some (replay_result tx))

  abbrev pub receive_once :
      InboxRef → Option InboxMessage → Action V (Option ProcessWagerTransactionResult)
  receive_once ref none = do
    writing (insert_inbox (receive ref.message_id ref.consumer_name ref.payload_hash sys.now))
    pure none
  receive_once ref (some _) = do
    stored ← reading (find_by_idempotency_key command.idempotency_key)
    stored_result stored

  -- The inbox: `some` ends the call with the stored result.
  unfoldable pub check_inbox : Option InboxRef → Action V (Option ProcessWagerTransactionResult)
  check_inbox none = pure none
  check_inbox (some ref) = do
    seen ← reading (find_inbox ref.consumer_name ref.message_id)
    receive_once ref seen

  abbrev pub prior_result :
      String → Option (WagerTransaction V) → Action V (Option ProcessWagerTransactionResult)
  prior_result payload_hash none = pure none
  prior_result payload_hash (some prior) =
      if not (matches_payload prior payload_hash)
      then throw (application_fault (idempotency_conflict command.idempotency_key))
      else pure (some (replay_result prior))

  -- The check of idempotency: by the key, else by the provider's id.
  unfoldable pub check_prior : String → Action V (Option ProcessWagerTransactionResult)
  check_prior payload_hash = do
    by_key ← reading (find_by_idempotency_key command.idempotency_key)
    by_id ←
        reading
          (find_by_provider_and_external_id command.provider_id command.external_transaction_id)
    prior_result payload_hash (or_else by_key by_id)

  abbrev pub creation_props : String → Money V → String → CreateWagerTransactionProps V
  creation_props payload_hash money id = record {
    id = id;
    provider_id = command.provider_id;
    external_transaction_id = command.external_transaction_id;
    idempotency_key = command.idempotency_key;
    payload_hash = payload_hash;
    wallet_id = command.wallet_id;
    player_id = command.player_id;
    round_id = command.round_id;
    game_id = command.game_id;
    kind = command.kind;
    money = money;
    reference_external_transaction_id = command.reference_external_transaction_id;
    created_at = sys.now;
  }

  -- `create` inside its `try`.
  abbrev pub created : Checked (WagerTransaction V) → Action V (WagerTransaction V)
  created (ok tx) = pure tx
  created (err e) = throw (creation_fault (domain_fault e))

  -- A transaction that is new, with what the search for its wallet found.
  abbrev pub process_in :
      String → Money V → Option (Wallet V) → Action V ProcessWagerTransactionResult
  process_in payload_hash money none = throw (application_fault (wallet_missing command.wallet_id))
  process_in payload_hash money (some wallet) = do
    id ← next_id sys
    tx ← created (create (creation_props payload_hash money id))
    writing (insert_transaction tx)
    resolve_and_settle sys command wallet tx

  unfoldable pub process_new : String → Money V → Action V ProcessWagerTransactionResult
  process_new payload_hash money = do
    found ← reading (find_wallet command.wallet_id)
    process_in payload_hash money found

  -- `if (prior) return …`
  abbrev pub unless_known :
      Action V ProcessWagerTransactionResult
      → Option ProcessWagerTransactionResult
      → Action V ProcessWagerTransactionResult
  unless_known rest none = rest
  unless_known rest (some result) = pure result

  -- The body of the transaction.
  unfoldable pub work : String → Money V → Action V ProcessWagerTransactionResult
  work payload_hash money = do
    handled ← check_inbox command.inbox
    unless_known
        (do known ← check_prior payload_hash; unless_known (process_new payload_hash money) known)
        handled

  unfoldable pub payload_hash_of : Money V → String
  payload_hash_of money = hash_business_fields sys (
      to_business_fields
        (record {
          provider_id = command.provider_id;
          external_transaction_id = command.external_transaction_id;
          player_id = command.player_id;
          wallet_id = command.wallet_id;
          round_id = command.round_id;
          game_id = command.game_id;
          kind = command.kind;
          reference_external_transaction_id = command.reference_external_transaction_id;
        })
        money)

  abbrev pub execute_with : Checked (Money V) → Action V ProcessWagerTransactionResult
  execute_with (err _) = throw invalid
  execute_with (ok money) =
      if command.kind == WagerTransactionKind.opening
      then throw invalid
      else run (work (payload_hash_of money) money)

  unfoldable pub execute : Action V ProcessWagerTransactionResult
  execute = execute_with (from command.money)
