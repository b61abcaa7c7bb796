-- ===== src/UseCases/Reconciliation/Examples.antt =====
-- A wallet whose balance is more than its ledger's entry.
use jungle_challenge.Common.{refl, [], ◌∷◌, arith}
use jungle_challenge.Common.Int.{ℤ, pos, ◌+ℤ◌, ◌-ℤ◌}
use jungle_challenge.Application.Action.{World}
use jungle_challenge.Money.Cents.{cents}
use jungle_challenge.Persistence.Repositories.{find_wallet}
use jungle_challenge.UseCases.Reconciliation.{reconcile}
use jungle_challenge.UseCases.Reconciliation.Balance.{IsJudged, reconcile-IsJudged}
use jungle_challenge.Wagering.Vocabulary.{LedgerDirection}
use jungle_challenge.Wallet.{Wallet}
use jungle_challenge.Wallet.Entry.{WalletLedgerEntry, signed_amount}

abbrev purse : Wallet ℤ
purse = record {
  id = "w1";
  player_id = "p1";
  currency = "BRL";
  balance = record { value = pos 1000; currency = "BRL" };
  version = 2;
  created_at = 1;
  updated_at = 2;
}

abbrev entry : WalletLedgerEntry ℤ
entry = record {
  id = "e1";
  wallet_id = "w1";
  transaction_id = "t1";
  direction = LedgerDirection.credit;
  money = record { value = pos 900; currency = "BRL" };
  balance_before = record { value = pos 0; currency = "BRL" };
  balance_after = record { value = pos 900; currency = "BRL" };
  created_at = 1;
}

abbrev diverged : World ℤ
diverged = record {
  store = record {
    wallets = purse ∷ [];
    transactions = [];
    ledger = entry ∷ [];
    inbox = [];
    outbox = [];
  };
  drawn = 0;
}

reconcile-IsJudged_example : IsJudged "w1" purse diverged (reconcile "w1" diverged)
unfolding find_wallet ◌+ℤ◌ ◌-ℤ◌ signed_amount
reconcile-IsJudged_example = reconcile-IsJudged "w1" purse diverged refl refl refl (omega arith)
