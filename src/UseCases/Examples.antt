-- ===== src/UseCases/Examples.antt =====
-- Runs of the use case, and its theorems on a concrete store.
use jungle_challenge.Common.{
  different, ℕ, zero, suc, ◌≡◌, refl, false, String, none, some, ok, List, [], ◌∷◌,
}
use jungle_challenge.Common.Int.{ℤ, pos, ◌-ℤ◌}
use jungle_challenge.Application.Action.{System, World}
use jungle_challenge.Application.CanonicalJson.{◌<>◌}
use jungle_challenge.Application.Rules.{After}
use jungle_challenge.Money.{Money}
use jungle_challenge.Messaging.Event.{envelope_of, processed_event, balance_changed_event}
use jungle_challenge.Messaging.Inbox.{receive}
use jungle_challenge.Messaging.Outbox.{enqueue}
use jungle_challenge.Persistence.Repositories.{
  find_by_idempotency_key, find_by_provider_and_external_id, insert_transaction, save_wallet,
  insert_entry, save_transaction, insert_many_outbox, insert_outbox, insert_inbox, find_inbox,
}
use jungle_challenge.UseCases.Command.{persisted_result}
use jungle_challenge.UseCases.Process.{work, check_inbox, check_prior, process_new}
use jungle_challenge.UseCases.Processing.{
  apply_and_enqueue, apply_accepted_transaction, move_balance, event_context,
}
use jungle_challenge.UseCases.Settlement.{resolve_and_settle, settle}
use jungle_challenge.Wagering.Transaction.{
  requires_reference, affects_balance, ledger_direction_for, mark_processed, assert_not_terminal,
  is_terminal, record_observed_balance,
}
use jungle_challenge.Wallet.{debit, apply_movement}
use jungle_challenge.Wallet.Entry.{is_balanced}
use jungle_challenge.Money.{
  from, parse_currency, parse_amount, is_positive, subtract, is_negative, equals, to_json,
}
use jungle_challenge.Money.Cents.{cents}
use jungle_challenge.Persistence.Repositories.{find_wallet}
use jungle_challenge.UseCases.Command.{
  InboxRef, ProcessWagerTransactionCommand, ProcessWagerTransactionResult,
}
use jungle_challenge.UseCases.Conservation.Calls.{execute_all, IsLeftAlone, execute-IsLeftAlone}
use jungle_challenge.UseCases.Idempotency.{Answered}
use jungle_challenge.UseCases.Idempotency.Replay.{execute-Answered}
use jungle_challenge.UseCases.Idempotency.Redelivery.{execute-Redelivered}
use jungle_challenge.UseCases.Idempotency.Repetition.{Repeated, execute-Repeated}
use jungle_challenge.UseCases.Process.{execute, payload_hash_of}
use jungle_challenge.UseCases.Process.Effects.{Called, execute-Called}
use jungle_challenge.UseCases.Queries.{by_id}
use jungle_challenge.UseCases.Queries.Answers.{IsShown, execute-IsShown}
use jungle_challenge.Wagering.Vocabulary.{
  WagerTransactionKind, WagerTransactionStatus, LedgerDirection,
}
use jungle_challenge.Wallet.{Wallet}
use jungle_challenge.Wallet.Entry.{WalletLedgerEntry, signed_amount}

-- Ids that differ, and an identity in place of the hash.
abbrev id_number : ℕ → String
id_number zero = "i"
id_number (suc n) = "i" <> id_number n

abbrev system : System
system = record { now = 100; id_at = id_number; sha256 = λ s. s }

abbrev purse : Wallet ℤ
purse = record {
  id = "w1";
  player_id = "p1";
  currency = "BRL";
  balance = record { value = pos 1000; currency = "BRL" };
  version = 1;
  created_at = 1;
  updated_at = 1;
}

abbrev opening_entry : WalletLedgerEntry ℤ
opening_entry = record {
  id = "e0";
  wallet_id = "w1";
  transaction_id = "t0";
  direction = LedgerDirection.credit;
  money = record { value = pos 1000; currency = "BRL" };
  balance_before = record { value = pos 0; currency = "BRL" };
  balance_after = record { value = pos 1000; currency = "BRL" };
  created_at = 1;
}

abbrev world : World ℤ
world = record {
  store = record {
    wallets = purse ∷ [];
    transactions = [];
    ledger = opening_entry ∷ [];
    inbox = [];
    outbox = [];
  };
  drawn = 0;
}

abbrev bet : ProcessWagerTransactionCommand
bet = record {
  idempotency_key = "k1";
  provider_id = "acme";
  external_transaction_id = "x1";
  player_id = "p1";
  wallet_id = "w1";
  round_id = "r1";
  game_id = "g1";
  kind = WagerTransactionKind.bet;
  money = record { amount = "2.50"; currency = "BRL" };
  reference_external_transaction_id = none;
  correlation_id = none;
  causation_id = none;
  inbox = none;
}

abbrev refund : ProcessWagerTransactionCommand
refund = record bet {
  idempotency_key = "k2";
  external_transaction_id = "x2";
  kind = WagerTransactionKind.refund;
  reference_external_transaction_id = some "x1";
}

abbrev calls : List (System × ProcessWagerTransactionCommand)
calls = (system, bet) ∷ (system, bet) ∷ (system, refund) ∷ []

execute-IsLeftAlone_example : IsLeftAlone "w2" world.store ((execute system bet world).1.store)
execute-IsLeftAlone_example = execute-IsLeftAlone system bet "w2" world (different "w2" "w1" refl)

execute-Called_example :
    After
      (λ _ w'. Called system bet world.store w'.store)
      (λ _ w'. w'.store ≡ world.store)
      (execute system bet world)
execute-Called_example = execute-Called system bet world

abbrev two_fifty : Money ℤ
two_fifty = record { value = pos 250; currency = "BRL" }

abbrev accepted : ProcessWagerTransactionResult
accepted = record {
  transaction_id = "i";
  status = WagerTransactionStatus.processed;
  balance = some (record { amount = "7.50"; currency = "BRL" });
  idempotent_replay = false;
  failure_code = none;
}

abbrev after_bet : World ℤ
after_bet = (execute system bet world).1

execute-bet : execute system bet world ≡ (ok accepted, after_bet)
unfolding execute from parse_currency parse_amount work check_inbox check_prior
    find_by_idempotency_key find_by_provider_and_external_id process_new find_wallet
    jungle_challenge.Wagering.Factory.create is_positive insert_transaction resolve_and_settle
    requires_reference settle apply_and_enqueue apply_accepted_transaction affects_balance
    move_balance ledger_direction_for debit jungle_challenge.Money.assert_same_currency
    jungle_challenge.Wallet.assert_same_currency subtract is_negative
    jungle_challenge.Wallet.Entry.create is_balanced equals apply_movement save_wallet insert_entry
    mark_processed assert_not_terminal is_terminal record_observed_balance save_transaction
    event_context processed_event balance_changed_event insert_many_outbox insert_outbox enqueue
    envelope_of persisted_result to_json ◌-ℤ◌
execute-bet = refl

-- The bet is settled, and its repetition after the refund is a replay.
execute-Repeated_example :
    Repeated accepted
      (execute_all calls after_bet).store
      (execute (record system { now = 500 }) bet (execute_all calls after_bet))
unfolding from parse_currency parse_amount
execute-Repeated_example =
    execute-Repeated system bet two_fifty world after_bet accepted calls 500 refl refl execute-bet
      refl

execute-Answered_example :
    After
      (λ r w'. Answered "k1" (payload_hash_of system bet two_fifty) world.store r w'.store)
      (λ _ w'. w'.store ≡ world.store)
      (execute system bet world)
unfolding from parse_currency parse_amount
execute-Answered_example = execute-Answered system bet two_fifty world refl

-- The bet as it comes in a message.
abbrev note : InboxRef
note = record { consumer_name = "wagers"; message_id = "m1"; payload_hash = "h" }

abbrev noted_bet : ProcessWagerTransactionCommand
noted_bet = record bet { inbox = some note }

abbrev after_noted_bet : World ℤ
after_noted_bet = (execute system noted_bet world).1

execute-noted_bet : execute system noted_bet world ≡ (ok accepted, after_noted_bet)
unfolding execute from parse_currency parse_amount work check_inbox check_prior
    find_by_idempotency_key find_by_provider_and_external_id process_new find_wallet
    jungle_challenge.Wagering.Factory.create is_positive insert_transaction resolve_and_settle
    requires_reference settle apply_and_enqueue apply_accepted_transaction affects_balance
    move_balance ledger_direction_for debit jungle_challenge.Money.assert_same_currency
    jungle_challenge.Wallet.assert_same_currency subtract is_negative
    jungle_challenge.Wallet.Entry.create is_balanced equals apply_movement save_wallet insert_entry
    mark_processed assert_not_terminal is_terminal record_observed_balance save_transaction
    event_context processed_event balance_changed_event insert_many_outbox insert_outbox enqueue
    envelope_of persisted_result to_json ◌-ℤ◌ insert_inbox find_inbox receive
execute-noted_bet = refl

execute-Redelivered_example :
    Repeated accepted
      (execute_all calls after_noted_bet).store
      (execute (record system { now = 500 }) noted_bet (execute_all calls after_noted_bet))
unfolding from parse_currency parse_amount
execute-Redelivered_example =
    execute-Redelivered system (record system { now = 500 }) noted_bet note two_fifty world
      after_noted_bet accepted calls refl refl execute-noted_bet refl

-- What the first bet answers is what the query shows.
execute-IsShown_example : IsShown accepted after_bet (by_id "i" after_bet)
unfolding from parse_currency parse_amount
execute-IsShown_example =
    execute-IsShown system bet two_fifty world after_bet accepted refl execute-bet refl
