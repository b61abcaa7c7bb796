-- ===== src/Wagering/Transaction/Lifecycle.antt =====
-- The life of a transaction under any sequence of the method calls of
-- src/domain/wagering/wager-transaction.ts, and the row checks of the schema
-- (src/infrastructure/persistence/mikro-orm/migrations/Migration20260903000000_init.ts).
use jungle_challenge.Common.{
  ℕ, nat_eq, option_eq, ◌≡◌, ◌≢◌, refl, ◌∙◌, ◌⊎◌, Bool, true, false, not, ◌&&◌, ◌||◌, String,
  Option, none, some, arith, ok, err, ◌==◌, string_eq, str_iff,
}
use jungle_challenge.Errors.{
  Checked, transaction_error, reference_required, transaction_context_required,
  opening_not_submittable, non_positive_transaction_amount,
}
use jungle_challenge.Money.{Money, is_positive}
use jungle_challenge.Money.Decimal.{Decimals}
use jungle_challenge.Wagering.State.{CreateWagerTransactionProps, WagerTransaction}
use jungle_challenge.Wagering.Factory.{is_missing, create}
use jungle_challenge.Wagering.Vocabulary.{
  WagerTransactionKind, WagerTransactionStatus, FailureCode, is_reversal_kind, is_terminal_status,
  kind_eq, status_eq, kind_beq_iff,
}
use jungle_challenge.Wagering.Transaction.{
  mark_processed, mark_pending_reference, reject, fail, schedule_reference_retry,
  record_observed_balance,
}

abbrev is_some {ℓ} : {A : Type ℓ} → Option A → Bool
is_some none = false
is_some (some _) = true

-- `status in ('REJECTED', 'FAILED')`
abbrev is_failure_status : WagerTransactionStatus → Bool
is_failure_status WagerTransactionStatus.rejected = true
is_failure_status WagerTransactionStatus.failed = true
is_failure_status _ = false

module _ {V : Type 0} where
  -- One call of a method that mutates a transaction and returns.
  pub data Call : WagerTransaction V → WagerTransaction V → Type 0 where
    processing :
        {tx tx' : WagerTransaction V} (reference : Option String) (at : ℕ)
        → mark_processed tx reference at ≡ ok tx'
        → Call tx tx'
    waiting :
        {tx tx' : WagerTransaction V} (now : Option ℕ)
        → mark_pending_reference tx now ≡ ok tx'
        → Call tx tx'
    rejecting :
        {tx tx' : WagerTransaction V} (code : FailureCode) → reject tx code ≡ ok tx' → Call tx tx'
    failing :
        {tx tx' : WagerTransaction V} (code : FailureCode) → fail tx code ≡ ok tx' → Call tx tx'
    retrying :
        {tx tx' : WagerTransaction V} (now base : ℕ)
        → schedule_reference_retry tx now base ≡ tx'
        → Call tx tx'
    observing :
        {tx tx' : WagerTransaction V} (balance : Money V)
        → record_observed_balance tx balance ≡ tx'
        → Call tx tx'

  pub data Life (tx : WagerTransaction V) : WagerTransaction V → Type 0 where
    born : Life tx tx
    lived : {tx' tx'' : WagerTransaction V} → Life tx tx' → Call tx' tx'' → Life tx tx''

module _ {V : Type 0} ⦃D : Decimals V⦄ where
  -- The row checks `wt_processed_at_consistency`, `wt_failure_code_consistency`,
  -- `wt_reference_required`, `wt_context_required` and `wt_amount_positive`.
  pub record IsConsistent (tx : WagerTransaction V) : Type 0 where
    pub processed : is_some tx.processed_at ≡ (tx.status == WagerTransactionStatus.processed)
    pub failure : (is_failure_status tx.status || not (is_some tx.failure_code)) ≡ true
    pub reference :
        (not (is_reversal_kind tx.kind) || is_some tx.reference_external_transaction_id) ≡ true
    pub context :
        (tx.kind == WagerTransactionKind.opening || is_some tx.round_id && is_some tx.game_id)
        ≡ true
    pub amount : is_positive tx.money ≡ true

  -- How `create` ends, and when; the tests stand in the order of the code.
  abbrev pub Created : CreateWagerTransactionProps V → Checked (WagerTransaction V) → Type 0
  Created props (ok tx) =
      (props.kind ≢ WagerTransactionKind.opening)
      × (props.round_id ≢ "")
      × (props.game_id ≢ "")
      × ((is_reversal_kind props.kind && is_missing props.reference_external_transaction_id)
          ≡ false)
      × (tx.status ≡ WagerTransactionStatus.pending)
      × (tx.idempotency_key ≡ props.idempotency_key)
      × (tx.payload_hash ≡ props.payload_hash)
      × (tx.kind ≡ props.kind)
      × (tx.money ≡ props.money)
      × IsConsistent tx
  Created props (err x) =
      (props.kind ≡ WagerTransactionKind.opening) × (x ≡ transaction_error opening_not_submittable)
      ⊎ ((is_positive props.money ≡ false) × (x ≡ transaction_error non_positive_transaction_amount)
          ⊎ ((props.round_id ≡ "")
                × (x ≡ transaction_error (transaction_context_required "roundId"))
              ⊎ ((props.game_id ≡ "")
                    × (x ≡ transaction_error (transaction_context_required "gameId"))
                  ⊎ (is_reversal_kind props.kind ≡ true)
                    × (is_missing props.reference_external_transaction_id ≡ true)
                    × (x ≡ transaction_error (reference_required props.kind)))))

  -- `create` refuses an opening, an amount that is not positive, a missing round or game and a
  -- reversal without a reference, each with its error; any other transaction is returned in PENDING,
  -- with the key, hash, kind and money that were given, and passes the row checks of the schema.
  pub create-Created : (props : CreateWagerTransactionProps V) → Created props (create props)
  unfolding create
  create-Created props = ground (
    arith,
    str_iff props.round_id "",
    str_iff props.game_id "",
    kind_beq_iff props.kind WagerTransactionKind.opening,
  )

  Call-IsConsistent :
      {tx tx' : WagerTransaction V} → Call tx tx' → IsConsistent tx → IsConsistent tx'
  unfolding mark_processed mark_pending_reference reject fail schedule_reference_retry
      record_observed_balance
  Call-IsConsistent (processing reference at e) c = ground arith
  Call-IsConsistent (waiting now e) c = ground arith
  Call-IsConsistent (rejecting code e) c = ground arith
  Call-IsConsistent (failing code e) c = ground arith
  Call-IsConsistent (retrying now base e) c = ground arith
  Call-IsConsistent (observing balance e) c = ground arith

  -- A transaction that `create` returned passes the row checks of the schema after any sequence of
  -- calls of its methods: it has a processing time exactly in PROCESSED, a failure code at most in
  -- REJECTED and FAILED, and keeps its reference, its context and its positive amount.
  pub Life-IsConsistent :
      (props : CreateWagerTransactionProps V) {tx tx' : WagerTransaction V}
      → create props ≡ ok tx
      → Life tx tx'
      → IsConsistent tx'
  Life-IsConsistent props {tx} e born = ground (arith, create-Created props)
  Life-IsConsistent props e (lived l c) = Call-IsConsistent c (Life-IsConsistent props e l)

  -- What a terminal transaction keeps.
  pub record Settled (tx tx' : WagerTransaction V) : Type 0 where
    pub status : tx'.status ≡ tx.status
    pub reference : tx'.reference_transaction_id ≡ tx.reference_transaction_id
    pub failure : tx'.failure_code ≡ tx.failure_code
    pub processed_at : tx'.processed_at ≡ tx.processed_at

  Call-Settled :
      {tx tx' : WagerTransaction V}
      → Call tx tx'
      → is_terminal_status tx.status ≡ true
      → Settled tx tx'
  unfolding mark_processed mark_pending_reference reject fail schedule_reference_retry
      record_observed_balance
  Call-Settled (processing reference at e) t = ground arith
  Call-Settled (waiting now e) t = ground arith
  Call-Settled (rejecting code e) t = ground arith
  Call-Settled (failing code e) t = ground arith
  Call-Settled (retrying now base e) t = ground arith
  Call-Settled (observing balance e) t = ground arith

  -- PROCESSED, REJECTED and FAILED are final: no sequence of calls changes the status, the resolved
  -- reference, the failure code or the processing time of such a transaction.
  pub Life-Settled :
      {tx tx' : WagerTransaction V}
      → is_terminal_status tx.status ≡ true
      → Life tx tx'
      → Settled tx tx'
  Life-Settled t born = record {
    status = refl;
    reference = refl;
    failure = refl;
    processed_at = refl;
  }
  Life-Settled {tx} t (lived {tx'} {tx''} l c) =
      let s = Life-Settled t l in
      let u = Call-Settled c (rw (s.status) t) in
      record {
        status = u.status ∙ s.status;
        reference = u.reference ∙ s.reference;
        failure = u.failure ∙ s.failure;
        processed_at = u.processed_at ∙ s.processed_at;
      }
