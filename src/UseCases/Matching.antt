-- ===== src/UseCases/Matching.antt =====
-- Which processed transactions a reversal may refer to: `validateReferenceMatch` of
-- src/application/use-cases/wager-processing.ts.
use jungle_challenge.Common.{
  ◌≡◌, ◌≢◌, ◌↔◌, Bool, true, false, String, Option, none, some, arith, ◌==◌, string_eq, option_eq,
  str_iff,
}
use jungle_challenge.Common.Int.{eq_of_parts}
use jungle_challenge.Money.{Money, equals}
use jungle_challenge.Money.Decimal.{Decimals}
use jungle_challenge.Money.Laws.{units}
use jungle_challenge.UseCases.Processing.{validate_reference_match}
use jungle_challenge.Wagering.State.{WagerTransaction}
use jungle_challenge.Wagering.Vocabulary.{WagerTransactionKind, FailureCode, kind_eq}

-- The kinds that a kind reverses. A kind that is no reversal refers to nothing, so all are allowed.
abbrev reverses : WagerTransactionKind → WagerTransactionKind → Bool
reverses WagerTransactionKind.refund WagerTransactionKind.bet = true
reverses WagerTransactionKind.refund _ = false
reverses WagerTransactionKind.rollback WagerTransactionKind.bet = true
reverses WagerTransactionKind.rollback WagerTransactionKind.win = true
reverses WagerTransactionKind.rollback WagerTransactionKind.refund = true
reverses WagerTransactionKind.rollback _ = false
reverses _ _ = true

round_iff : (a b : Option String) → ((a == b) ≡ true) ↔ (a ≡ b)
round_iff a b = option_eq.same_iff a b

module _ {V : Type 0} ⦃D : Decimals V⦄ where
  -- The same player, wallet, round and currency.
  pub record SameContext (tx reference : WagerTransaction V) : Type 0 where
    pub player : reference.player_id ≡ tx.player_id
    pub wallet : reference.wallet_id ≡ tx.wallet_id
    pub round : reference.round_id ≡ tx.round_id
    pub currency : reference.money.currency ≡ tx.money.currency

  -- What each answer means.
  abbrev pub Matched : WagerTransaction V → WagerTransaction V → Option FailureCode → Type 0
  Matched tx reference none =
      (reverses tx.kind reference.kind ≡ true)
      × SameContext tx reference
      × (units reference.money ≡ units tx.money)
  Matched tx reference (some FailureCode.reference_kind_mismatch) =
      reverses tx.kind reference.kind ≡ false
  Matched tx reference (some FailureCode.reference_attributes_mismatch) =
      (reverses tx.kind reference.kind ≡ true) × (SameContext tx reference → ⊥)
  Matched tx reference (some FailureCode.amount_mismatch) =
      (reverses tx.kind reference.kind ≡ true)
      × SameContext tx reference
      × (units reference.money ≢ units tx.money)
  Matched tx reference (some _) = ⊥

  equals_iff :
      (m n : Money V) → (equals m n ≡ true) ↔ ((m.currency ≡ n.currency) × (units m ≡ units n))
  unfolding equals
  equals_iff m n = ground (
    arith,
    str_iff m.currency n.currency,
    D.equals_lem m.value n.value,
    eq_of_parts (units m) (units n),
  )

  -- A reference is accepted exactly if its kind is one that the reversal reverses, player, wallet,
  -- round and currency are the same, and the amounts are equal; otherwise the answer names the first
  -- of these that fails.
  pub validate_reference_match-Matched :
      (tx reference : WagerTransaction V)
      → Matched tx reference (validate_reference_match tx reference)
  unfolding validate_reference_match
  validate_reference_match-Matched tx reference = ground (
    arith,
    str_iff reference.player_id tx.player_id,
    str_iff reference.wallet_id tx.wallet_id,
    round_iff reference.round_id tx.round_id,
    str_iff reference.money.currency tx.money.currency,
    equals_iff reference.money tx.money,
  )
