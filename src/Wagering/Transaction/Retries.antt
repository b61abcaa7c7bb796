-- ===== src/Wagering/Transaction/Retries.antt =====
-- The retries of a reference that is still missing: backoff and giving up, in
-- src/domain/wagering/wager-transaction.ts.
use jungle_challenge.Common.{
  ℕ, zero, suc, ◌+◌, ◌-◌, ◌*◌, ◌^◌, ◌≤◌, ◌≡◌, refl, sym, ap, ◌≢◌, ◌⊎◌, min, true, some, List, [],
  ◌∷◌, arith, inl, inr,
}
use native.Mathlib.Nat.{pow-suc, mul_assoc}
use jungle_challenge.Common.Lists.{length}
use jungle_challenge.Wagering.State.{WagerTransaction}
use jungle_challenge.Wagering.Transaction.{
  backoff_delay, max_reference_backoff_ms, schedule_reference_retry, should_give_up_on_reference,
}

-- The delay doubles from one attempt to the next, up to the cap.
backoff_doubles :
    (base n cap : ℕ)
    → backoff_delay base (n + 1 + 1) cap ≡ min (2 * backoff_delay base (n + 1) cap) cap
backoff_doubles base n cap =
    let two_rounds : n + 1 + 1 - 1 ≡ suc n = omega arith in
    let one_round : n + 1 - 1 ≡ n = omega arith in
    let twice : base * 2 ^ suc n ≡ base * 2 ^ n * 2 =
      rw (pow-suc 2 n) (sym (mul_assoc base (2 ^ n) 2)) in
    rw (two_rounds, one_round) (omega (arith, twice))

first_delay : (base n cap : ℕ) → (n ≢ 0) ⊎ (backoff_delay base (n + 1) cap ≡ min base cap)
first_delay base zero cap = inr (omega arith)
first_delay base (suc n) cap = inl (omega arith)

module _ {V : Type 0} where
  -- The reference is looked for again at each of the times, in vain.
  abbrev pub retry_at : WagerTransaction V → List ℕ → ℕ → WagerTransaction V
  retry_at tx [] base = tx
  retry_at tx (now ∷ later) base = retry_at (schedule_reference_retry tx now base) later base

  attempts-retry_at :
      (tx : WagerTransaction V) (times : List ℕ) (base : ℕ)
      → (retry_at tx times base).reference_attempts ≡ tx.reference_attempts + length times
  unfolding schedule_reference_retry
  attempts-retry_at tx [] base = omega arith
  attempts-retry_at tx (now ∷ later) base =
      omega (arith, attempts-retry_at (schedule_reference_retry tx now base) later base)

  -- The wait for a reference ends: after as many vain retries as the limit allows, at whatever
  -- times, the transaction is given up, whatever the time to live.
  pub gives_up_in_the_end :
      (tx : WagerTransaction V) (times : List ℕ) (base now max_attempts ttl : ℕ)
      → max_attempts ≤ tx.reference_attempts + length times
      → should_give_up_on_reference (retry_at tx times base) now max_attempts ttl ≡ true
  unfolding should_give_up_on_reference
  gives_up_in_the_end tx times base now max_attempts ttl h =
      ground (arith, attempts-retry_at tx times base)

  -- The wait that a retry schedules, in milliseconds from the time of the attempt.
  abbrev pub Waits : WagerTransaction V → ℕ → ℕ → Type 0
  Waits tx now delay = tx.next_attempt_at ≡ some (now + delay)

  -- A vain attempt is counted, and the next one is scheduled after a delay of at most an hour: the
  -- base delay after the first attempt, and after each later one twice the delay before, as far as
  -- the hour allows.
  pub schedule_doubles :
      (tx : WagerTransaction V) (now later base : ℕ)
      → let first = schedule_reference_retry tx now base in
        let second = schedule_reference_retry first later base in
        (delay : ℕ) × Waits first now delay
        × Waits second later (min (2 * delay) max_reference_backoff_ms)
        × (delay ≤ max_reference_backoff_ms)
        × ((tx.reference_attempts ≢ 0) ⊎ (delay ≡ min base max_reference_backoff_ms))
        × (second.reference_attempts ≡ tx.reference_attempts + 2)
  unfolding schedule_reference_retry
  schedule_doubles tx now later base =
      let n = tx.reference_attempts in
      let doubled = backoff_doubles base n max_reference_backoff_ms in
      (
        backoff_delay base (n + 1) max_reference_backoff_ms,
        refl,
        ap (λ (d : ℕ). some (later + d)) doubled,
        omega arith,
        first_delay base n max_reference_backoff_ms,
        omega arith,
      )
