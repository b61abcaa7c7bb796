-- ===== src/UseCases/Publication.antt =====
-- The relay of the outbox: src/application/use-cases/publish-outbox/publish-outbox.use-case.ts. The
-- broker is outside: `accepts n envelope` says whether the publisher's `n`-th call of the cycle
-- returns, or throws. The messages that it took are kept, the last first.
pub mod Relay
pub mod Backlog
mod Examples
use jungle_challenge.Common.{ℕ, suc, Bool, List, [], ◌∷◌, if◌then◌else◌}
use jungle_challenge.Common.Lists.{length}
use jungle_challenge.Messaging.Event.{IntegrationEventEnvelope}
use jungle_challenge.Messaging.Outbox.{OutboxMessage, mark_published, schedule_retry}
use jungle_challenge.Persistence.OutboxRows.{
  claim_due, save_message, count_pending, oldest_pending_age_ms,
}
use jungle_challenge.Persistence.Store.{Store}

pub record OutboxRelayConfig : Type 0 where
  pub batch_size : ℕ
  pub base_backoff_ms : ℕ

pub record OutboxRelaySummary : Type 0 where
  pub claimed : ℕ
  pub published : ℕ
  pub retried : ℕ
  pub pending : ℕ
  pub oldest_pending_age_ms : ℕ

-- What the loop has done so far.
pub record Cycle (V : Type 0) : Type 0 where
  pub published : ℕ
  pub retried : ℕ
  pub taken : List OutboxMessage
  pub store : Store V

module _ {V : Type 0} (accepts : ℕ → IntegrationEventEnvelope → Bool) where
  -- The loop's body for the `n`-th message.
  unfoldable pub relay_one : ℕ → ℕ → ℕ → OutboxMessage → Cycle V → Cycle V
  relay_one base now n message c =
      if accepts n message.payload
      then record {
        published = suc c.published;
        retried = c.retried;
        taken = message ∷ c.taken;
        store = save_message (mark_published message now) c.store;
      }
      else record {
        published = c.published;
        retried = suc c.retried;
        taken = c.taken;
        store = save_message (schedule_retry message now base) c.store;
      }

  unfoldable pub relay_all : ℕ → ℕ → ℕ → List OutboxMessage → Cycle V → Cycle V
  relay_all base now n [] c = c
  relay_all base now n (m ∷ due) c = relay_all base now (suc n) due (relay_one base now n m c)

  unfoldable pub publish_outbox :
      OutboxRelayConfig → ℕ → Store V → OutboxRelaySummary × List OutboxMessage × Store V
  publish_outbox config now s =
      let due = claim_due config.batch_size now s in
      let c =
        relay_all config.base_backoff_ms now 0 due
          (record { published = 0; retried = 0; taken = []; store = s }) in
      (
        record {
          claimed = length due;
          published = c.published;
          retried = c.retried;
          pending = count_pending c.store;
          oldest_pending_age_ms = oldest_pending_age_ms now c.store;
        },
        c.taken,
        c.store,
      )
