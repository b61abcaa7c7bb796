-- ===== src/Wagering/Factory.antt =====
-- The factories of src/domain/wagering/wager-transaction.ts. The current time that a default of the
-- source reads is given by the caller.
use Prim.Native.String
use jungle_challenge.Common.{
  ℕ, Bool, true, not, ◌&&◌, String, Option, none, some, ok, ◌>>=◌, ◌>>◌, throw_if, ◌==◌, string_eq,
}
use jungle_challenge.Errors.{
  Checked, transaction_error, reference_required, transaction_context_required,
  opening_not_submittable, non_positive_transaction_amount,
}
use jungle_challenge.Money.{Money, from, from_computed, is_positive, to_json, to_string}
use jungle_challenge.Money.Decimal.{Decimals}
use jungle_challenge.Wagering.State.{
  CreateWagerTransactionProps, WagerTransaction, WagerTransactionState,
}
use jungle_challenge.Wagering.Vocabulary.{
  WagerTransactionKind, WagerTransactionStatus, is_reversal_kind, kind_eq,
}

-- `!text` for an optional text: absent or empty.
abbrev pub is_missing : Option String → Bool
is_missing none = true
is_missing (some s) = s == ""

module _ {V : Type 0} ⦃D : Decimals V⦄ where
  -- `WagerTransaction.create`
  unfoldable pub create : CreateWagerTransactionProps V → Checked (WagerTransaction V)
  create props = do
    throw_if (props.kind == WagerTransactionKind.opening)
        (transaction_error opening_not_submittable)
    throw_if (not (is_positive props.money)) (transaction_error non_positive_transaction_amount)
    throw_if (props.round_id == "") (transaction_error (transaction_context_required "roundId"))
    throw_if (props.game_id == "") (transaction_error (transaction_context_required "gameId"))
    throw_if (is_reversal_kind props.kind && is_missing props.reference_external_transaction_id)
        (transaction_error (reference_required props.kind))
    ok (record {
      id = props.id;
      provider_id = props.provider_id;
      external_transaction_id = props.external_transaction_id;
      idempotency_key = props.idempotency_key;
      payload_hash = props.payload_hash;
      wallet_id = props.wallet_id;
      player_id = props.player_id;
      round_id = some props.round_id;
      game_id = some props.game_id;
      kind = props.kind;
      money = props.money;
      reference_external_transaction_id = props.reference_external_transaction_id;
      created_at = props.created_at;
      status = WagerTransactionStatus.pending;
      reference_transaction_id = none;
      failure_code = none;
      processed_at = none;
      reference_attempts = 0;
      next_attempt_at = none;
      pending_reference_since = none;
      observed_balance = none;
    })

  -- `WagerTransaction.opening`
  unfoldable pub opening : String → String → String → Money V → ℕ → Checked (WagerTransaction V)
  opening id wallet_id player_id money created_at = do
    throw_if (not (is_positive money)) (transaction_error non_positive_transaction_amount)
    let external_id = String.◌++◌ "opening:" wallet_id
    ok (record {
      id = id;
      provider_id = "internal";
      external_transaction_id = external_id;
      idempotency_key = String.◌++◌ "internal:" external_id;
      payload_hash =
          String.◌++◌ "opening:" (String.◌++◌ wallet_id (String.◌++◌ ":" (to_string money)));
      wallet_id = wallet_id;
      player_id = player_id;
      round_id = none;
      game_id = none;
      kind = WagerTransactionKind.opening;
      money = money;
      reference_external_transaction_id = none;
      created_at = created_at;
      status = WagerTransactionStatus.pending;
      reference_transaction_id = none;
      failure_code = none;
      processed_at = none;
      reference_attempts = 0;
      next_attempt_at = none;
      pending_reference_since = none;
      observed_balance = none;
    })

  unfoldable pub rehydrate : WagerTransactionState → Checked (WagerTransaction V)
  rehydrate state = do
    money ← from state.money
    observed ← elim state.observed_balance [
      | none ↦ ok none
      | some props ↦ from_computed props >>= λ m. ok (some m)
    ]
    ok (record {
      id = state.id;
      provider_id = state.provider_id;
      external_transaction_id = state.external_transaction_id;
      idempotency_key = state.idempotency_key;
      payload_hash = state.payload_hash;
      wallet_id = state.wallet_id;
      player_id = state.player_id;
      round_id = state.round_id;
      game_id = state.game_id;
      kind = state.kind;
      money = money;
      reference_external_transaction_id = state.reference_external_transaction_id;
      created_at = state.created_at;
      status = state.status;
      reference_transaction_id = state.reference_transaction_id;
      failure_code = state.failure_code;
      processed_at = state.processed_at;
      reference_attempts = state.reference_attempts;
      next_attempt_at = state.next_attempt_at;
      pending_reference_since = state.pending_reference_since;
      observed_balance = observed;
    })

  unfoldable pub to_state : WagerTransaction V → WagerTransactionState
  to_state tx = record {
    id = tx.id;
    provider_id = tx.provider_id;
    external_transaction_id = tx.external_transaction_id;
    idempotency_key = tx.idempotency_key;
    payload_hash = tx.payload_hash;
    wallet_id = tx.wallet_id;
    player_id = tx.player_id;
    round_id = tx.round_id;
    game_id = tx.game_id;
    kind = tx.kind;
    money = to_json tx.money;
    reference_external_transaction_id = tx.reference_external_transaction_id;
    created_at = tx.created_at;
    status = tx.status;
    reference_transaction_id = tx.reference_transaction_id;
    failure_code = tx.failure_code;
    processed_at = tx.processed_at;
    reference_attempts = tx.reference_attempts;
    next_attempt_at = tx.next_attempt_at;
    pending_reference_since = tx.pending_reference_since;
    observed_balance = elim tx.observed_balance [ none ↦ none | some m ↦ some (to_json m) ];
  }
