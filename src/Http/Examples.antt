-- ===== src/Http/Examples.antt =====
-- A bet that is posted with and without an idempotency key.
use jungle_challenge.Common.{ℕ, zero, suc, ◌≡◌, refl, String, none, some, [], ◌∷◌}
use jungle_challenge.Common.Int.{ℤ, pos}
use jungle_challenge.Application.Action.{System, World}
use jungle_challenge.Application.CanonicalJson.{◌<>◌}
use jungle_challenge.Application.Fault.{failure_code_of, kind_of}
use jungle_challenge.Auth.Guard.{allowed, AuthFailure, unauthenticated}
use jungle_challenge.Http.{
  SubmitTransactionBody, coded, failed, is_blank, map_exception, post_transaction, submit,
}
use jungle_challenge.Http.Submission.{Responded, post_transaction-Responded}
use jungle_challenge.Money.Cents.{cents}
use jungle_challenge.Wagering.Vocabulary.{WagerTransactionKind, FailureCode}

abbrev id_number : ℕ → String
id_number zero = "i"
id_number (suc n) = "i" <> id_number n

abbrev system : System
system = record { now = 100; id_at = id_number; sha256 = λ s. s }

abbrev world : World ℤ
world = record {
  store = record {
    wallets =
        record {
          id = "w1";
          player_id = "p1";
          currency = "BRL";
          balance = record { value = pos 1000; currency = "BRL" };
          version = 1;
          created_at = 1;
          updated_at = 1;
        }
        ∷ [];
    transactions = [];
    ledger = [];
    inbox = [];
    outbox = [];
  };
  drawn = 0;
}

abbrev bet : SubmitTransactionBody
bet = record {
  provider_id = "acme";
  external_transaction_id = "x1";
  player_id = "p1";
  wallet_id = "w1";
  round_id = "r1";
  game_id = "g1";
  kind = WagerTransactionKind.bet;
  money = record { amount = "2.50"; currency = "BRL" };
  reference_external_transaction_id = none;
}

without_key :
    post_transaction system (some " ") none allowed (some bet) world
    ≡ (failed 400 (coded FailureCode.validation_error), world)
unfolding post_transaction submit is_blank map_exception kind_of failure_code_of
without_key = refl

unsigned :
    post_transaction system
      (some "k1")
      none
      (unauthenticated AuthFailure.bad_signature)
      (some bet)
      world
    ≡ (failed 401 (coded FailureCode.unauthenticated), world)
unfolding post_transaction map_exception
unsigned = refl

post_transaction-Responded_example :
    Responded "k1" world.store (post_transaction system (some "k1") none allowed (some bet) world)
post_transaction-Responded_example =
    post_transaction-Responded system (some "k1") none allowed (some bet) world
