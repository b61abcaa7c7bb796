-- ===== src/UseCases/Publication/Examples.antt =====
-- A cycle of the relay on an outbox of three messages.
use jungle_challenge.Common.{
  ℕ, ◌+◌, Bool, ◌≡◌, refl, none, some, [], ◌∷◌, map, ◌==◌, nat_eq, str_iff, arith,
}
use jungle_challenge.Common.Int.{ℤ}
use jungle_challenge.Common.Lists.{length}
use jungle_challenge.Messaging.Event.{IntegrationEventEnvelope, reference_pending}
use jungle_challenge.Messaging.Outbox.{OutboxMessage, mark_published, schedule_retry}
use jungle_challenge.Persistence.OutboxRows.{claim_due, save_message, count_pending}
use jungle_challenge.Persistence.Rows.{HasUniqueKeys}
use jungle_challenge.Persistence.Store.{Store}
use jungle_challenge.UseCases.Publication.{OutboxRelayConfig, relay_one, relay_all, publish_outbox}
use jungle_challenge.UseCases.Publication.Backlog.{publish_outbox-count_pending}
use jungle_challenge.UseCases.Publication.Relay.{message_id, outcome, publish_outbox-Relayed}
use jungle_challenge.Wagering.Vocabulary.{WagerTransactionKind}

abbrev first : OutboxMessage
first = record {
  id = "e1";
  aggregate_id = "t1";
  event_type = "WagerTransactionPendingReference";
  payload = record {
    event_id = "e1";
    event_type = "WagerTransactionPendingReference";
    aggregate_id = "t1";
    correlation_id = "c1";
    causation_id = none;
    occurred_at = 5;
    version = 1;
    payload = reference_pending (record {
      transaction_id = "t1";
      provider_id = "acme";
      external_transaction_id = "x1";
      wallet_id = "w1";
      kind = WagerTransactionKind.refund;
      reference_external_transaction_id = some "x0";
      attempts = 0;
    });
  };
  occurred_at = 5;
  attempts = 0;
  next_attempt_at = none;
  published_at = none;
}

abbrev second : OutboxMessage
second = record first { id = "e2"; occurred_at = 6; attempts = 1; next_attempt_at = some 9 }

abbrev third : OutboxMessage
third = record first { id = "e3"; occurred_at = 4; published_at = some 4 }

abbrev store : Store ℤ
store = record {
  wallets = [];
  transactions = [];
  ledger = [];
  inbox = [];
  outbox = second ∷ third ∷ first ∷ [];
}

-- Only the first call of the cycle returns.
abbrev accepts : ℕ → IntegrationEventEnvelope → Bool
accepts n envelope = n == 0

abbrev config : OutboxRelayConfig
config = record { batch_size = 10; base_backoff_ms = 500 }

store-HasUniqueKeys : HasUniqueKeys message_id store.outbox
store-HasUniqueKeys = (
  ((λ e. ground (arith, str_iff "e3" "e2")), ((λ e. ground (arith, str_iff "e1" "e2")), tt)),
  (((λ e. ground (arith, str_iff "e1" "e3")), tt), (tt, tt)),
)

cycle_outbox :
    (publish_outbox accepts config 10 store).2.outbox
    ≡ schedule_retry second 10 500 ∷ third ∷ mark_published first 10 ∷ []
unfolding publish_outbox claim_due relay_all relay_one save_message schedule_retry mark_published
cycle_outbox = refl

publish_outbox-Relayed_example :
    let (summary, taken, s') = publish_outbox accepts config 10 store in
    (s' ≡ record store {
      outbox = map (outcome accepts 500 10 0 (claim_due 10 10 store)) store.outbox;
    })
    × (summary.published + summary.retried ≡ summary.claimed)
    × (length taken ≡ summary.published)
publish_outbox-Relayed_example = publish_outbox-Relayed accepts config 10 store store-HasUniqueKeys

publish_outbox-count_pending_example :
    let (summary, _, _) = publish_outbox accepts config 10 store in
    summary.pending + summary.published ≡ count_pending store
publish_outbox-count_pending_example =
    publish_outbox-count_pending accepts config 10 store store-HasUniqueKeys
