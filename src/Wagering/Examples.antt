-- ===== src/Wagering/Examples.antt =====
-- Runs of a transaction, and its theorems at concrete transactions.
use jungle_challenge.Common.{
  ℕ, ◌+◌, ◌*◌, ◌≤◌, ◌≢◌, ◌⊎◌, min, ◌≡◌, refl, true, none, some, [], ◌∷◌, arith, ok,
}
use jungle_challenge.Common.Int.{ℤ, pos}
use jungle_challenge.Money.{is_positive}
use jungle_challenge.Money.Cents.{cents}
use jungle_challenge.Wagering.Vocabulary.{
  WagerTransactionKind, WagerTransactionStatus, LedgerDirection,
}
use jungle_challenge.Wagering.State.{CreateWagerTransactionProps, WagerTransaction}
use jungle_challenge.Wagering.Factory.{create}
use jungle_challenge.Wagering.Transaction.{
  max_reference_backoff_ms, mark_processed, schedule_reference_retry, should_give_up_on_reference,
  ledger_direction_for,
}
use jungle_challenge.Wagering.Transaction.Lifecycle.{
  Created, create-Created, Life, born, lived, processing, retrying, IsConsistent, Life-IsConsistent,
  Settled, Life-Settled,
}
use jungle_challenge.Wagering.Transaction.Progress.{Kept, Onward, Life-Kept-Onward}
use jungle_challenge.Wagering.Transaction.Retries.{
  retry_at, gives_up_in_the_end, Waits, schedule_doubles,
}

abbrev request : CreateWagerTransactionProps ℤ
request = record {
  id = "t1";
  provider_id = "acme";
  external_transaction_id = "x1";
  idempotency_key = "k1";
  payload_hash = "h1";
  wallet_id = "w1";
  player_id = "p1";
  round_id = "r1";
  game_id = "g1";
  kind = WagerTransactionKind.refund;
  money = record { value = pos 250; currency = "BRL" };
  reference_external_transaction_id = some "x0";
  created_at = 5;
}

abbrev fresh : WagerTransaction ℤ
fresh = record {
  id = "t1";
  provider_id = "acme";
  external_transaction_id = "x1";
  idempotency_key = "k1";
  payload_hash = "h1";
  wallet_id = "w1";
  player_id = "p1";
  round_id = some "r1";
  game_id = some "g1";
  kind = WagerTransactionKind.refund;
  money = record { value = pos 250; currency = "BRL" };
  reference_external_transaction_id = some "x0";
  created_at = 5;
  status = WagerTransactionStatus.pending;
  reference_transaction_id = none;
  failure_code = none;
  processed_at = none;
  reference_attempts = 0;
  next_attempt_at = none;
  pending_reference_since = none;
  observed_balance = none;
}

abbrev paid : WagerTransaction ℤ
paid = record fresh {
  status = WagerTransactionStatus.processed;
  reference_transaction_id = some "t0";
  processed_at = some 9;
}

create-request : create request ≡ ok fresh
unfolding create is_positive
create-request = refl

pay_fresh : mark_processed fresh (some "t0") 9 ≡ ok paid
unfolding mark_processed
pay_fresh = refl

refund_credits : ledger_direction_for fresh none ≡ ok LedgerDirection.credit
unfolding ledger_direction_for
refund_credits = refl

paid-Life : Life fresh paid
paid-Life = lived born (processing (some "t0") 9 pay_fresh)

create-Created_example : Created request (create request)
create-Created_example = create-Created request

Life-IsConsistent_example : IsConsistent paid
Life-IsConsistent_example = Life-IsConsistent request create-request paid-Life

retried : Life paid (schedule_reference_retry paid 10 500)
retried = lived born (retrying 10 500 refl)

Life-Settled_example : Settled paid (schedule_reference_retry paid 10 500)
Life-Settled_example = Life-Settled refl retried

Life-Kept-Onward_example : Kept fresh paid × Onward fresh paid
Life-Kept-Onward_example = Life-Kept-Onward paid-Life

gives_up_in_the_end_example :
    should_give_up_on_reference (retry_at fresh (10 ∷ 20 ∷ []) 500) 21 2 100000 ≡ true
gives_up_in_the_end_example = gives_up_in_the_end fresh (10 ∷ 20 ∷ []) 500 21 2 100000 (omega arith)

schedule_doubles_example :
    let first = schedule_reference_retry fresh 10 500 in
    let second = schedule_reference_retry first 20 500 in
    (delay : ℕ) × Waits first 10 delay
    × Waits second 20 (min (2 * delay) max_reference_backoff_ms)
    × (delay ≤ max_reference_backoff_ms)
    × ((fresh.reference_attempts ≢ 0) ⊎ (delay ≡ min 500 max_reference_backoff_ms))
    × (second.reference_attempts ≡ fresh.reference_attempts + 2)
schedule_doubles_example = schedule_doubles fresh 10 20 500
