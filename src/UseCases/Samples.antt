-- ===== src/UseCases/Samples.antt =====
-- The shared steps at concrete transactions.
use jungle_challenge.Common.{none, some, [], ◌∷◌}
use jungle_challenge.Common.Int.{ℤ, pos}
use jungle_challenge.Application.Action.{System, World}
use jungle_challenge.Application.Rules.{After}
use jungle_challenge.Money.Cents.{cents}
use jungle_challenge.UseCases.Matching.{Matched, validate_reference_match-Matched}
use jungle_challenge.UseCases.Posting.{Applied, Untouched, apply_accepted_transaction-Applied}
use jungle_challenge.UseCases.Processing.{
  ProcessingContext, validate_reference_match, apply_accepted_transaction,
}
use jungle_challenge.Wagering.State.{WagerTransaction}
use jungle_challenge.Wagering.Vocabulary.{WagerTransactionKind, WagerTransactionStatus}
use jungle_challenge.Wallet.{Wallet}

abbrev bet_row : WagerTransaction ℤ
bet_row = record {
  id = "t1";
  provider_id = "acme";
  external_transaction_id = "x1";
  idempotency_key = "k1";
  payload_hash = "h1";
  wallet_id = "w1";
  player_id = "p1";
  round_id = some "r1";
  game_id = some "g1";
  kind = WagerTransactionKind.bet;
  money = record { value = pos 250; currency = "BRL" };
  reference_external_transaction_id = none;
  created_at = 5;
  status = WagerTransactionStatus.pending;
  reference_transaction_id = none;
  failure_code = none;
  processed_at = none;
  reference_attempts = 0;
  next_attempt_at = none;
  pending_reference_since = none;
  observed_balance = none;
}

abbrev refund_row : WagerTransaction ℤ
refund_row = record bet_row {
  id = "t2";
  idempotency_key = "k2";
  external_transaction_id = "x2";
  kind = WagerTransactionKind.refund;
  reference_external_transaction_id = some "x1";
}

abbrev purse : Wallet ℤ
purse = record {
  id = "w1";
  player_id = "p1";
  currency = "BRL";
  balance = record { value = pos 1000; currency = "BRL" };
  version = 1;
  created_at = 1;
  updated_at = 1;
}

abbrev world : World ℤ
world = record {
  store = record {
    wallets = purse ∷ [];
    transactions = bet_row ∷ [];
    ledger = [];
    inbox = [];
    outbox = [];
  };
  drawn = 0;
}

abbrev system : System
system = record { now = 100; id_at = λ _. "i"; sha256 = λ s. s }

abbrev context : ProcessingContext
context = record { correlation_id = "k1"; causation_id = none }

validate_reference_match-Matched_example :
    Matched refund_row bet_row (validate_reference_match refund_row bet_row)
validate_reference_match-Matched_example = validate_reference_match-Matched refund_row bet_row

apply_accepted_transaction-Applied_example :
    After
      (Applied bet_row none purse world.store)
      (Untouched world.store)
      (apply_accepted_transaction system purse bet_row none context world)
apply_accepted_transaction-Applied_example =
    apply_accepted_transaction-Applied system purse bet_row none context world
