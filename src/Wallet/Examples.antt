-- ===== src/Wallet/Examples.antt =====
-- Runs of the wallet, and the wallet's theorems at concrete wallets.
use jungle_challenge.Common.{◌+◌, ◌≡◌, refl, false, [], ◌∷◌, arith, ok}
use jungle_challenge.Common.Int.{ℤ, pos, ◌+ℤ◌, ◌-ℤ◌}
use jungle_challenge.Common.Lists.{length}
use jungle_challenge.Money.{Money, subtract, is_positive, is_negative, equals}
use jungle_challenge.Money.Cents.{cents}
use jungle_challenge.Money.Laws.{units}
use jungle_challenge.Wagering.Vocabulary.{LedgerDirection}
use jungle_challenge.Wallet.{Wallet, Movement, debit, credit}
use jungle_challenge.Wallet.Entry.{WalletLedgerEntry, create}
use jungle_challenge.Wallet.Movements.{IsSound, Credited, credit-Credited}
use jungle_challenge.Wallet.Replay.{Trace, done, next, debited, replay, IsChain, Trace-replay}

abbrev brl : ℤ → Money ℤ
brl n = record { value = n; currency = "BRL" }

abbrev purse : Wallet ℤ
purse = record {
  id = "w1";
  player_id = "p1";
  currency = "BRL";
  balance = brl (pos 1000);
  version = 1;
  created_at = 5;
  updated_at = 5;
}

abbrev stake : Movement ℤ
stake = record { transaction_id = "t1"; ledger_entry_id = "l1"; amount = brl (pos 250); at = 6 }

abbrev staked : Wallet ℤ
staked = record purse { balance = brl (pos 750); version = 2; updated_at = 6 }

abbrev stake_entry : WalletLedgerEntry ℤ
stake_entry = record {
  id = "l1";
  wallet_id = "w1";
  transaction_id = "t1";
  direction = LedgerDirection.debit;
  money = brl (pos 250);
  balance_before = brl (pos 1000);
  balance_after = brl (pos 750);
  created_at = 6;
}

debit-stake : debit purse stake false ≡ ok (staked, stake_entry)
unfolding debit subtract is_positive is_negative create equals ◌-ℤ◌
debit-stake = refl

purse-IsSound : IsSound purse
purse-IsSound = record { same_currency = refl; nonneg = omega arith; versioned = omega arith }

credit-Credited_example : Credited purse stake (credit purse stake)
unfolding ◌+ℤ◌
credit-Credited_example = credit-Credited purse stake purse-IsSound (omega arith)

stake-Trace : Trace purse (stake_entry ∷ []) staked
unfolding ◌-ℤ◌
stake-Trace = next (debited stake false (omega arith) debit-stake) done

Trace-replay_example :
    IsSound staked
    × (staked.id ≡ purse.id)
    × (units staked.balance ≡ units purse.balance +ℤ replay (stake_entry ∷ []))
    × (staked.version ≡ purse.version + length (stake_entry ∷ []))
    × IsChain purse.balance (stake_entry ∷ []) staked.balance
Trace-replay_example = Trace-replay purse-IsSound stake-Trace
