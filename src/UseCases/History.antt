-- ===== src/UseCases/History.antt =====
-- The service's history: requests and runs of the worker, one after the other, from the empty store.
-- The three use cases that change the balances are src/application/use-cases/create-wallet,
-- process-wager-transaction and reprocess-pending-references; the second is also called by the
-- consumer of src/infrastructure/messaging/sqs/wager-transaction.consumer.ts.
pub mod Reconciled
mod Examples
use jungle_challenge.Common.{ℕ, Bool, List, [], ◌∷◌, arith}
use jungle_challenge.Application.Action.{System, World}
use jungle_challenge.Consumer.Message.{ConsumerConfig}
use jungle_challenge.Consumer.Polling.{poll_once-IsReconciled}
use jungle_challenge.Consumer.Sqs.{Host, SqsMessage, Queues}
use jungle_challenge.Consumer.{poll_once}
use jungle_challenge.Money.Decimal.{Decimals}
use jungle_challenge.Persistence.Repositories.{find_wallet}
use jungle_challenge.Persistence.Store.{Store}
use jungle_challenge.UseCases.Command.{ProcessWagerTransactionCommand}
use jungle_challenge.UseCases.Conservation.{IsReconciled}
use jungle_challenge.UseCases.Conservation.Calls.{execute-IsReconciled}
use jungle_challenge.UseCases.Creation.{CreateWalletCommand, create_wallet}
use jungle_challenge.UseCases.Creation.Calls.{create_wallet-IsReconciled}
use jungle_challenge.UseCases.Process.{execute}
use jungle_challenge.UseCases.Reprocessing.{PendingReferenceConfig, reprocess}
use jungle_challenge.UseCases.Reprocessing.Conservation.{reprocess-IsReconciled}

-- One call of a use case, with the clock and the ids that it is given; the worker reads the clock
-- again for each transaction.
pub data Request : Type 0 where
  creating : System → CreateWalletCommand → Request
  processing : System → ProcessWagerTransactionCommand → Request
  reprocessing : System → PendingReferenceConfig → (ℕ → ℕ) → Request
  -- a cycle of the consumer, with the state of the queues
  polling : Host → (ℕ → System) → ConsumerConfig → (ℕ → Bool) → List SqsMessage → Queues → Request

module _ {V : Type 0} where
  abbrev pub empty_world : World V
  empty_world = record {
    store = record { wallets = []; transactions = []; ledger = []; inbox = []; outbox = [] };
    drawn = 0;
  }

module _ {V : Type 0} ⦃D : Decimals V⦄ where
  abbrev pub handle : Request → World V → World V
  handle (creating sys command) w = (create_wallet sys command w).1
  handle (processing sys command) w = (execute sys command w).1
  handle (reprocessing sys config now_at) w = (reprocess sys config now_at w).1
  handle (polling host sys_at config stopping messages queues) w =
      (poll_once host sys_at config stopping messages
        (record { world = w; queues = queues })).1.world

  unfoldable pub handle_all : List Request → World V → World V
  handle_all [] w = w
  handle_all (request ∷ requests) w = handle_all requests (handle request w)

  handle-IsReconciled :
      (request : Request) (w : World V)
      → IsReconciled w.store
      → IsReconciled (handle request w).store
  handle-IsReconciled (creating sys command) w r = create_wallet-IsReconciled sys command w r
  handle-IsReconciled (processing sys command) w r = execute-IsReconciled sys command w r
  handle-IsReconciled (reprocessing sys config now_at) w r =
      reprocess-IsReconciled sys config now_at w r
  handle-IsReconciled (polling host sys_at config stopping messages queues) w r =
      poll_once-IsReconciled host sys_at config stopping messages
        (record { world = w; queues = queues }) r

  handle_all-IsReconciled :
      (requests : List Request) (w : World V)
      → IsReconciled w.store
      → IsReconciled (handle_all requests w).store
  unfolding handle_all
  handle_all-IsReconciled [] w r = r
  handle_all-IsReconciled (request ∷ requests) w r =
      handle_all-IsReconciled requests (handle request w) (handle-IsReconciled request w r)

  empty_world-IsReconciled : IsReconciled {V = V} empty_world.store
  unfolding find_wallet
  empty_world-IsReconciled = record { covered = λ id w f. cc; strays = λ id f. ground arith }

module _ {V : Type 0} (D : Decimals V) where
  -- Whatever requests the service handles from the empty store, in whatever order and with whatever
  -- outcomes: no balance is negative, and the balance of each wallet is the sum of the signed amounts of
  -- its ledger entries.
  pub history-IsReconciled :
      (requests : List Request)
      → IsReconciled ⦃D = D⦄ (handle_all ⦃D = D⦄ requests empty_world).store
  history-IsReconciled requests =
      handle_all-IsReconciled ⦃D = D⦄ requests empty_world (empty_world-IsReconciled ⦃D = D⦄)
