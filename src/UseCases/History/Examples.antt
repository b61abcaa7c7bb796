-- ===== src/UseCases/History/Examples.antt =====
-- A history on the model of the decimals.
use jungle_challenge.Common.{ℕ, zero, suc, ◌+◌, true, false, String, none, some, List, [], ◌∷◌, ok}
use jungle_challenge.Application.Action.{System}
use jungle_challenge.Application.CanonicalJson.{◌<>◌}
use jungle_challenge.Consumer.Message.{ConsumerConfig}
use jungle_challenge.Consumer.Sqs.{Host, SqsMessage}
use jungle_challenge.Money.Cents.{cents}
use jungle_challenge.UseCases.Command.{ProcessWagerTransactionCommand}
use jungle_challenge.UseCases.Conservation.{IsReconciled}
use jungle_challenge.UseCases.Creation.{CreateWalletCommand}
use jungle_challenge.UseCases.History.{
  Request, creating, processing, reprocessing, polling, handle_all, empty_world,
  history-IsReconciled,
}
use jungle_challenge.Common.{◌≡◌, refl}
use jungle_challenge.Common.Int.{ℤ, pos}
use jungle_challenge.Persistence.Repositories.{find_wallet}
use jungle_challenge.UseCases.Creation.{create_wallet}
use jungle_challenge.UseCases.History.Reconciled.{IsQuiet, history-IsQuiet}
use jungle_challenge.UseCases.Reconciliation.{reconcile}
use jungle_challenge.Wallet.{Wallet}
use jungle_challenge.UseCases.Reprocessing.{PendingReferenceConfig}
use jungle_challenge.Wagering.Vocabulary.{WagerTransactionKind}

abbrev id_number : ℕ → String
id_number zero = "i"
id_number (suc n) = "i" <> id_number n

abbrev system : System
system = record { now = 100; id_at = id_number; sha256 = λ s. s }

abbrev purse : CreateWalletCommand
purse = record {
  wallet_id = some "w1";
  player_id = "p1";
  initial_balance = record { amount = "10.00"; currency = "BRL" };
  correlation_id = none;
}

abbrev bet : ProcessWagerTransactionCommand
bet = record {
  idempotency_key = "k1";
  provider_id = "acme";
  external_transaction_id = "x1";
  player_id = "p1";
  wallet_id = "w1";
  round_id = "r1";
  game_id = "g1";
  kind = WagerTransactionKind.bet;
  money = record { amount = "2.50"; currency = "BRL" };
  reference_external_transaction_id = none;
  correlation_id = none;
  causation_id = none;
  inbox = none;
}

-- The refund comes before its bet.
abbrev refund : ProcessWagerTransactionCommand
refund = record bet {
  idempotency_key = "k2";
  external_transaction_id = "x2";
  kind = WagerTransactionKind.refund;
  reference_external_transaction_id = some "x1";
}

abbrev config : PendingReferenceConfig
config = record { batch_size = 10; base_backoff_ms = 500; max_attempts = 3; ttl_ms = 60000 }

-- A queue whose only message wins, and whose client always returns.
abbrev host : Host
host = record {
  accept = λ _. ok (record {
    message_id = "m1";
    occurred_at = "";
    content = record {
      provider_id = "acme";
      external_transaction_id = "x3";
      idempotency_key = "k3";
      player_id = "p1";
      wallet_id = "w1";
      round_id = "r1";
      game_id = "g1";
      kind = WagerTransactionKind.win;
      money = record { amount = "4.00"; currency = "BRL" };
      reference_external_transaction_id = none;
    };
  });
  error_text = λ _. "";
  returns = λ _. true;
}

abbrev consumer : ConsumerConfig
consumer = record { dlq_url = some "dlq"; consumer_name = "wagers" }

abbrev wins : SqsMessage
wins = record { body = some "{}"; message_id = some "s1"; receipt_handle = some "h1" }

abbrev requests : List Request
requests =
    creating system purse
    ∷ processing system refund
    ∷ processing system bet
    ∷ polling host (λ n. record system { now = 150 + n }) consumer (λ _. false) (wins ∷ [])
        (record { calls = 0; deleted = []; dead = [] })
    ∷ reprocessing system config (λ _. 200)
    ∷ []

history-IsReconciled_example :
    IsReconciled ⦃D = cents⦄ (handle_all ⦃D = cents⦄ requests empty_world).store
history-IsReconciled_example = history-IsReconciled cents requests

abbrev opened : List Request
opened = creating system purse ∷ []

abbrev opened_purse : Wallet ℤ
opened_purse = record {
  id = "w1";
  player_id = "p1";
  currency = "BRL";
  balance = record { value = pos 1000; currency = "BRL" };
  version = 1;
  created_at = 100;
  updated_at = 100;
}

found_purse : find_wallet "w1" (handle_all ⦃D = cents⦄ opened empty_world).store ≡ some opened_purse
unfolding handle_all create_wallet find_wallet jungle_challenge.Money.from
    jungle_challenge.Money.parse_currency jungle_challenge.Money.parse_amount
    jungle_challenge.Persistence.Repositories.find_wallet_by_player_and_currency
    jungle_challenge.Wallet.open_wallet jungle_challenge.Money.is_negative
    jungle_challenge.UseCases.Creation.store_wallet jungle_challenge.UseCases.Creation.insert_new
    jungle_challenge.Persistence.Repositories.insert_wallet
    jungle_challenge.Wallet.has_opening_balance jungle_challenge.Money.is_positive
    jungle_challenge.UseCases.Creation.post_opening jungle_challenge.Wagering.Factory.opening
    jungle_challenge.Wallet.opening_ledger_entry jungle_challenge.Money.zero_of
    jungle_challenge.Wallet.Entry.create jungle_challenge.Money.add
    jungle_challenge.Money.assert_same_currency jungle_challenge.Wallet.Entry.is_balanced
    jungle_challenge.Money.equals jungle_challenge.Persistence.Repositories.insert_transaction
    jungle_challenge.Persistence.Repositories.insert_entry
    jungle_challenge.Wagering.Transaction.mark_processed
    jungle_challenge.Wagering.Transaction.assert_not_terminal
    jungle_challenge.Wagering.Transaction.is_terminal
    jungle_challenge.Wagering.Transaction.record_observed_balance
    jungle_challenge.UseCases.Processing.event_context
    jungle_challenge.Messaging.Event.processed_event
    jungle_challenge.Messaging.Event.balance_changed_event
    jungle_challenge.Persistence.Repositories.insert_many_outbox
    jungle_challenge.Persistence.Repositories.insert_outbox
    jungle_challenge.Messaging.Outbox.enqueue jungle_challenge.Messaging.Event.envelope_of
    jungle_challenge.Money.to_json jungle_challenge.Common.Int.◌+ℤ◌
    jungle_challenge.UseCases.Creation.record_opening
found_purse = refl

history-IsQuiet_example :
    IsQuiet
      (handle_all ⦃D = cents⦄ opened empty_world)
      (reconcile ⦃D = cents⦄ "w1" (handle_all ⦃D = cents⦄ opened empty_world))
history-IsQuiet_example = history-IsQuiet cents opened "w1" opened_purse found_purse refl
