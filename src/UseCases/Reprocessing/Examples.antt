-- ===== src/UseCases/Reprocessing/Examples.antt =====
-- The worker on a concrete store.
use jungle_challenge.Common.{
  ℕ, zero, suc, String, ◌≡◌, ◌⊎◌, refl, arith, str_iff, none, some, [], ◌∷◌,
}
use jungle_challenge.Common.Int.{ℤ, pos, ◌+ℤ◌}
use jungle_challenge.Application.Action.{System, World}
use jungle_challenge.Application.Rules.{After}
use jungle_challenge.Application.CanonicalJson.{◌<>◌}
use jungle_challenge.Money.Cents.{cents}
use jungle_challenge.Persistence.Repositories.{
  find_wallet, find_transaction, find_by_provider_and_external_id,
}
use jungle_challenge.UseCases.Conservation.{IsReconciled}
use jungle_challenge.UseCases.Reprocessing.{
  PendingReferenceConfig, Outcome, reprocess_one, reprocess,
}
use jungle_challenge.UseCases.Reprocessing.Conservation.{reprocess-IsReconciled}
use jungle_challenge.UseCases.Reprocessing.Liveness.{reprocess_one-Advanced}
use jungle_challenge.UseCases.Reprocessing.Progress.{Advanced}
use jungle_challenge.UseCases.Reprocessing.Waiting.{Never, reprocess_one-Waited}
use jungle_challenge.Wagering.State.{WagerTransaction}
use jungle_challenge.Wagering.Vocabulary.{
  WagerTransactionKind, WagerTransactionStatus, LedgerDirection,
}
use jungle_challenge.Wallet.{Wallet}
use jungle_challenge.Wallet.Entry.{WalletLedgerEntry, signed_amount}

abbrev purse : Wallet ℤ
purse = record {
  id = "w1";
  player_id = "p1";
  currency = "BRL";
  balance = record { value = pos 1000; currency = "BRL" };
  version = 1;
  created_at = 1;
  updated_at = 1;
}

abbrev opening_entry : WalletLedgerEntry ℤ
opening_entry = record {
  id = "e0";
  wallet_id = "w1";
  transaction_id = "t0";
  direction = LedgerDirection.credit;
  money = record { value = pos 1000; currency = "BRL" };
  balance_before = record { value = pos 0; currency = "BRL" };
  balance_after = record { value = pos 1000; currency = "BRL" };
  created_at = 1;
}

abbrev waiting : WagerTransaction ℤ
waiting = record {
  id = "t2";
  provider_id = "acme";
  external_transaction_id = "x2";
  idempotency_key = "k2";
  payload_hash = "h2";
  wallet_id = "w1";
  player_id = "p1";
  round_id = some "r1";
  game_id = some "g1";
  kind = WagerTransactionKind.refund;
  money = record { value = pos 250; currency = "BRL" };
  reference_external_transaction_id = some "x1";
  created_at = 5;
  status = WagerTransactionStatus.pending_reference;
  reference_transaction_id = none;
  failure_code = none;
  processed_at = none;
  reference_attempts = 0;
  next_attempt_at = none;
  pending_reference_since = some 5;
  observed_balance = none;
}

-- The bet that the refund waits for.
abbrev settled : WagerTransaction ℤ
settled = record waiting {
  id = "t1";
  external_transaction_id = "x1";
  idempotency_key = "k1";
  kind = WagerTransactionKind.bet;
  reference_external_transaction_id = none;
  status = WagerTransactionStatus.processed;
  processed_at = some 4;
  pending_reference_since = none;
}

abbrev world : World ℤ
world = record {
  store = record {
    wallets = purse ∷ [];
    transactions = waiting ∷ settled ∷ [];
    ledger = opening_entry ∷ [];
    inbox = [];
    outbox = [];
  };
  drawn = 0;
}

abbrev id_number : ℕ → String
id_number zero = "i"
id_number (suc n) = "i" <> id_number n

abbrev system : System
system = record { now = 100; id_at = id_number; sha256 = λ s. s }

abbrev config : PendingReferenceConfig
config = record { batch_size = 10; base_backoff_ms = 500; max_attempts = 3; ttl_ms = 60000 }

world-IsReconciled : IsReconciled world.store
unfolding find_wallet signed_amount ◌+ℤ◌
world-IsReconciled = record {
  covered = λ id w f.
      let same : w ≡ purse = ground (arith, str_iff "w1" id) in
      rw same (record {
        sound = record { same_currency = refl; nonneg = omega arith; versioned = omega arith };
        fitting = refl;
        balanced = refl;
      });
  strays = λ id e. ground (arith, str_iff "w1" id);
}

reprocess-IsReconciled_example : IsReconciled ((reprocess system config (λ _. 100) world).1.store)
reprocess-IsReconciled_example =
    reprocess-IsReconciled system config (λ _. 100) world world-IsReconciled

reprocess_one-Advanced_example :
    After
      (λ o w'. Advanced config waiting o (find_transaction "t2" w'.store))
      (λ _ w'. w'.store ≡ world.store)
      (reprocess_one system config "t2" world)
unfolding find_transaction
reprocess_one-Advanced_example = reprocess_one-Advanced system config waiting world refl refl

-- The bet has not come yet.
abbrev early : World ℤ
early = record world { store = record world.store { transactions = waiting ∷ [] } }

reprocess_one-Waited_example :
    After
      (λ o w'.
        Advanced config waiting o (find_transaction "t2" w'.store)
        × ((o ≡ Outcome.retried) ⊎ (o ≡ Outcome.rejected)))
      Never
      (reprocess_one system config "t2" early)
unfolding find_transaction find_by_provider_and_external_id
reprocess_one-Waited_example =
    reprocess_one-Waited system config waiting early refl tt refl refl refl refl
