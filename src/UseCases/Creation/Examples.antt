-- ===== src/UseCases/Creation/Examples.antt =====
-- A wallet opened on the empty store.
use jungle_challenge.Common.{ℕ, zero, suc, String, none, some, [], arith}
use jungle_challenge.Common.Int.{ℤ}
use jungle_challenge.Application.Action.{System, World}
use jungle_challenge.Application.CanonicalJson.{◌<>◌}
use jungle_challenge.Money.Cents.{cents}
use jungle_challenge.Persistence.Repositories.{find_wallet}
use jungle_challenge.UseCases.Conservation.{IsReconciled}
use jungle_challenge.UseCases.Creation.{CreateWalletCommand, create_wallet}
use jungle_challenge.UseCases.Creation.Calls.{create_wallet-IsReconciled}

abbrev id_number : ℕ → String
id_number zero = "i"
id_number (suc n) = "i" <> id_number n

abbrev system : System
system = record { now = 100; id_at = id_number; sha256 = λ s. s }

abbrev purse : CreateWalletCommand
purse = record {
  wallet_id = some "w1";
  player_id = "p1";
  initial_balance = record { amount = "10.00"; currency = "BRL" };
  correlation_id = none;
}

abbrev nothing_yet : World ℤ
nothing_yet = record {
  store = record { wallets = []; transactions = []; ledger = []; inbox = []; outbox = [] };
  drawn = 0;
}

nothing_yet-IsReconciled : IsReconciled nothing_yet.store
unfolding find_wallet
nothing_yet-IsReconciled = record { covered = λ id w f. cc; strays = λ id f. ground arith }

create_wallet-IsReconciled_example : IsReconciled ((create_wallet system purse nothing_yet).1.store)
create_wallet-IsReconciled_example =
    create_wallet-IsReconciled system purse nothing_yet nothing_yet-IsReconciled
