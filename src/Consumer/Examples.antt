-- ===== src/Consumer/Examples.antt =====
-- One message and one cycle of the consumer, on a store with one wallet.
use jungle_challenge.Common.{
  ◌≡◌, refl, ℕ, zero, suc, true, false, String, none, some, [], ◌∷◌, ok, err,
}
use jungle_challenge.Common.Int.{ℤ, pos, ◌-ℤ◌}
use jungle_challenge.Application.Action.{System, World}
use jungle_challenge.Application.CanonicalJson.{◌<>◌, canonical_json}
use jungle_challenge.Consumer.Handling.{HandledAs, handle-HandledAs}
use jungle_challenge.Consumer.Message.{ConsumerConfig, WagerMessage, data_json, command_of}
use jungle_challenge.Consumer.Polling.{Polled, poll_once-Polled}
use jungle_challenge.Consumer.Sqs.{Host, SqsMessage}
use jungle_challenge.Consumer.{Site, handle, poll_once}
use jungle_challenge.Messaging.Event.{envelope_of, processed_event, balance_changed_event}
use jungle_challenge.Messaging.Inbox.{receive}
use jungle_challenge.Messaging.Outbox.{enqueue}
use jungle_challenge.Persistence.Repositories.{
  find_by_idempotency_key, find_by_provider_and_external_id, insert_transaction, save_wallet,
  insert_entry, save_transaction, insert_many_outbox, insert_outbox, insert_inbox, find_inbox,
  find_wallet,
}
use jungle_challenge.UseCases.Command.{persisted_result}
use jungle_challenge.UseCases.Process.{work, check_inbox, check_prior, process_new}
use jungle_challenge.UseCases.Processing.{
  apply_and_enqueue, apply_accepted_transaction, move_balance, event_context,
}
use jungle_challenge.UseCases.Settlement.{resolve_and_settle, settle}
use jungle_challenge.Wagering.Transaction.{
  requires_reference, affects_balance, ledger_direction_for, mark_processed, assert_not_terminal,
  is_terminal, record_observed_balance,
}
use jungle_challenge.Wallet.{debit, apply_movement}
use jungle_challenge.Wallet.Entry.{is_balanced}
use jungle_challenge.Money.{
  from, parse_currency, parse_amount, is_positive, subtract, is_negative, equals, to_json,
}
use jungle_challenge.UseCases.Conservation.Calls.{execute_all}
use jungle_challenge.UseCases.Command.{
  ProcessWagerTransactionCommand, ProcessWagerTransactionResult,
}
use jungle_challenge.UseCases.Process.{execute}
use jungle_challenge.Wagering.Vocabulary.{WagerTransactionStatus}
use jungle_challenge.Consumer.Redelivery.{IsAcknowledged, handle-IsAcknowledged}
use jungle_challenge.Money.{Money}
use jungle_challenge.Money.Cents.{cents}
use jungle_challenge.Wagering.Vocabulary.{WagerTransactionKind}

abbrev id_number : ℕ → String
id_number zero = "i"
id_number (suc n) = "i" <> id_number n

abbrev system : System
system = record { now = 100; id_at = id_number; sha256 = λ s. s }

abbrev request : WagerMessage
request = record {
  message_id = "m1";
  occurred_at = "";
  content = record {
    provider_id = "acme";
    external_transaction_id = "x1";
    idempotency_key = "k1";
    player_id = "p1";
    wallet_id = "w1";
    round_id = "r1";
    game_id = "g1";
    kind = WagerTransactionKind.bet;
    money = record { amount = "2.50"; currency = "BRL" };
    reference_external_transaction_id = none;
  };
}

-- Every body but the empty one holds the request.
abbrev host : Host
host = record {
  accept = λ (s : String). elim s [ String.[] ↦ err "empty" | String.◌∷◌ _ _ ↦ ok request ];
  error_text = λ _. "";
  returns = λ _. true;
}

abbrev config : ConsumerConfig
config = record { dlq_url = some "dlq"; consumer_name = "wagers" }

abbrev full : SqsMessage
full = record { body = some "{}"; message_id = some "s1"; receipt_handle = some "h1" }

abbrev empty : SqsMessage
empty = record { body = none; message_id = some "s2"; receipt_handle = some "h2" }

abbrev site : Site ℤ
site = record {
  world = record {
    store = record {
      wallets =
          record {
            id = "w1";
            player_id = "p1";
            currency = "BRL";
            balance = record { value = pos 1000; currency = "BRL" };
            version = 1;
            created_at = 1;
            updated_at = 1;
          }
          ∷ [];
      transactions = [];
      ledger = [];
      inbox = [];
      outbox = [];
    };
    drawn = 0;
  };
  queues = record { calls = 0; deleted = []; dead = [] };
}

handle-HandledAs_example :
    HandledAs host system config full (ok request) site (handle host system config full site)
handle-HandledAs_example = handle-HandledAs host system config full site

poll_once-Polled_example :
    Polled host
      (λ _. system)
      config
      (λ _. false)
      (full ∷ empty ∷ [])
      site
      (poll_once host (λ _. system) config (λ _. false) (full ∷ empty ∷ []) site)
poll_once-Polled_example =
    poll_once-Polled host (λ _. system) config (λ _. false) (full ∷ empty ∷ []) site

abbrev command : ProcessWagerTransactionCommand
command = record {
  idempotency_key = "k1";
  provider_id = "acme";
  external_transaction_id = "x1";
  player_id = "p1";
  wallet_id = "w1";
  round_id = "r1";
  game_id = "g1";
  kind = WagerTransactionKind.bet;
  money = record { amount = "2.50"; currency = "BRL" };
  reference_external_transaction_id = none;
  correlation_id = some "m1";
  causation_id = none;
  inbox = some (record {
    consumer_name = "wagers";
    message_id = "m1";
    payload_hash = canonical_json (data_json request.content);
  });
}

abbrev accepted : ProcessWagerTransactionResult
accepted = record {
  transaction_id = "i";
  status = WagerTransactionStatus.processed;
  balance = some (record { amount = "7.50"; currency = "BRL" });
  idempotent_replay = false;
  failure_code = none;
}

abbrev after : World ℤ
after = (execute system command site.world).1

execute-command : execute system command site.world ≡ (ok accepted, after)
unfolding execute from parse_currency parse_amount work check_inbox check_prior
    find_by_idempotency_key find_by_provider_and_external_id process_new find_wallet
    jungle_challenge.Wagering.Factory.create is_positive insert_transaction resolve_and_settle
    requires_reference settle apply_and_enqueue apply_accepted_transaction affects_balance
    move_balance ledger_direction_for debit jungle_challenge.Money.assert_same_currency
    jungle_challenge.Wallet.assert_same_currency subtract is_negative
    jungle_challenge.Wallet.Entry.create is_balanced equals apply_movement save_wallet insert_entry
    mark_processed assert_not_terminal is_terminal record_observed_balance save_transaction
    event_context processed_event balance_changed_event insert_many_outbox insert_outbox enqueue
    envelope_of persisted_result to_json ◌-ℤ◌ insert_inbox find_inbox receive
execute-command = refl

abbrev two_fifty : Money ℤ
two_fifty = record { value = pos 250; currency = "BRL" }

-- The message again, after the same request came by HTTP.
handle-IsAcknowledged_example :
    let w2 = execute_all ((system, record command { inbox = none }) ∷ []) after in
    IsAcknowledged host site.queues w2.store (
      handle host
        (record system { now = 500; id_at = id_number })
        config
        full
        (record { world = w2; queues = site.queues }))
unfolding from parse_currency parse_amount command_of
handle-IsAcknowledged_example =
    handle-IsAcknowledged host system config full request two_fifty site.world after accepted
      ((system, record command { inbox = none }) ∷ []) 500 id_number site.queues refl refl
      execute-command refl
