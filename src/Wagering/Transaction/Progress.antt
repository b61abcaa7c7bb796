-- ===== src/Wagering/Transaction/Progress.antt =====
-- What every method call of src/domain/wagering/wager-transaction.ts keeps, and in which direction a
-- transaction moves.
use jungle_challenge.Common.{◌≡◌, ◌≢◌, ◌⊎◌, ◌≤◌, none, arith}
use jungle_challenge.Wagering.State.{WagerTransaction}
use jungle_challenge.Wagering.Vocabulary.{WagerTransactionStatus}
use jungle_challenge.Wagering.Transaction.{
  mark_processed, mark_pending_reference, reject, fail, schedule_reference_retry,
  record_observed_balance,
}
use jungle_challenge.Wagering.Transaction.Lifecycle.{
  Call, processing, waiting, rejecting, failing, retrying, observing, Life, born, lived,
}

module _ {V : Type 0} where
  -- What every call keeps: the fields that are read-only.
  pub record Kept (tx tx' : WagerTransaction V) : Type 0 where
    pub id : tx'.id ≡ tx.id
    pub provider_id : tx'.provider_id ≡ tx.provider_id
    pub external_id : tx'.external_transaction_id ≡ tx.external_transaction_id
    pub key : tx'.idempotency_key ≡ tx.idempotency_key
    pub hash : tx'.payload_hash ≡ tx.payload_hash
    pub wallet_id : tx'.wallet_id ≡ tx.wallet_id
    pub player_id : tx'.player_id ≡ tx.player_id
    pub round_id : tx'.round_id ≡ tx.round_id
    pub game_id : tx'.game_id ≡ tx.game_id
    pub kind : tx'.kind ≡ tx.kind
    pub money : tx'.money ≡ tx.money
    pub reference : tx'.reference_external_transaction_id ≡ tx.reference_external_transaction_id
    pub created_at : tx'.created_at ≡ tx.created_at

  Call-Kept : {tx tx' : WagerTransaction V} → Call tx tx' → Kept tx tx'
  unfolding mark_processed mark_pending_reference reject fail schedule_reference_retry
      record_observed_balance
  Call-Kept (processing reference at e) = ground arith
  Call-Kept (waiting now e) = ground arith
  Call-Kept (rejecting code e) = ground arith
  Call-Kept (failing code e) = ground arith
  Call-Kept (retrying now base e) = ground arith
  Call-Kept (observing balance e) = ground arith

  -- Where a call can lead.
  pub record Onward (tx tx' : WagerTransaction V) : Type 0 where
    pub attempts : tx.reference_attempts ≤ tx'.reference_attempts
    pub since :
        (tx.pending_reference_since ≡ none)
        ⊎ (tx'.pending_reference_since ≡ tx.pending_reference_since)
    pub status :
        (tx.status ≡ WagerTransactionStatus.pending) ⊎ (tx'.status ≢ WagerTransactionStatus.pending)

  Call-Onward : {tx tx' : WagerTransaction V} → Call tx tx' → Onward tx tx'
  unfolding mark_processed mark_pending_reference reject fail schedule_reference_retry
      record_observed_balance
  Call-Onward (processing reference at e) = ground arith
  Call-Onward (waiting now e) = ground arith
  Call-Onward (rejecting code e) = ground arith
  Call-Onward (failing code e) = ground arith
  Call-Onward (retrying now base e) = ground arith
  Call-Onward (observing balance e) = ground arith

  -- No sequence of calls touches the identity, the payload or the money of a transaction; none
  -- leads back to PENDING, starts the wait for a reference anew or lowers the count of attempts.
  pub Life-Kept-Onward : {tx tx' : WagerTransaction V} → Life tx tx' → Kept tx tx' × Onward tx tx'
  Life-Kept-Onward born = ground arith
  Life-Kept-Onward {tx} (lived {tx'} {tx''} l c) =
      let s = Life-Kept-Onward l in
      let k = Call-Kept c in let o = Call-Onward c in ground (arith, s, k, o)
