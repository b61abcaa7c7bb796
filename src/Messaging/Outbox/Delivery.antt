-- ===== src/Messaging/Outbox/Delivery.antt =====
-- When a message of the outbox is due: src/domain/messaging/outbox-message.ts.
use jungle_challenge.Common.{
  ℕ, ◌+◌, ◌-◌, ◌*◌, ◌^◌, ◌≤◌, ◌<◌, ◌≡◌, refl, ◌↔◌, ◌⊎◌, ◌∙◌, true, false, some, arith,
}
use jungle_challenge.Wagering.Transaction.{backoff_delay}
use jungle_challenge.Messaging.Outbox.{
  OutboxMessage, max_backoff_ms, is_pending, is_due, mark_published, schedule_retry,
}

-- One call of a method that mutates a message.
pub data Call : OutboxMessage → OutboxMessage → Type 0 where
  publishing : {m m' : OutboxMessage} (at : ℕ) → mark_published m at ≡ m' → Call m m'
  retrying : {m m' : OutboxMessage} (now base : ℕ) → schedule_retry m now base ≡ m' → Call m m'

pub data Life (m : OutboxMessage) : OutboxMessage → Type 0 where
  born : Life m m
  lived : {m' m'' : OutboxMessage} → Life m m' → Call m' m'' → Life m m''

Call-published :
    {m m' : OutboxMessage} {t : ℕ}
    → Call m m'
    → m.published_at ≡ some t
    → (m'.published_at ≡ some t) × (m'.id ≡ m.id) × (m'.payload ≡ m.payload)
unfolding mark_published schedule_retry
Call-published (publishing at e) p = ground arith
Call-published (retrying now base e) p = ground arith

-- A published message stays published at its first time, with its id and its payload, whatever
-- calls follow.
Life-published :
    {m m' : OutboxMessage} {t : ℕ}
    → m.published_at ≡ some t
    → Life m m'
    → (m'.published_at ≡ some t) × (m'.id ≡ m.id) × (m'.payload ≡ m.payload)
Life-published p born = (p, refl, refl)
Life-published p (lived l c) =
    let (q, i, d) = Life-published p l in
    let (q', i', d') = Call-published c q in (q', i' ∙ i, d' ∙ d)

-- A published message is never due again, whatever calls follow, and keeps the time of its first
-- publication, its id and its payload.
pub Life-is_due :
    {m m' : OutboxMessage} (t now : ℕ)
    → m.published_at ≡ some t
    → Life m m'
    → (is_due m' now ≡ false)
      × (m'.published_at ≡ some t)
      × (m'.id ≡ m.id)
      × (m'.payload ≡ m.payload)
unfolding is_due
Life-is_due t now p l = let (q, i, d) = Life-published p l in (rw q refl, q, i, d)

-- The base delay, doubled with each attempt before, but at most an hour.
abbrev pub IsBackoff : ℕ → ℕ → ℕ → Type 0
IsBackoff base attempts delay =
    (base * 2 ^ attempts ≤ max_backoff_ms) × (delay ≡ base * 2 ^ attempts)
    ⊎ (max_backoff_ms < base * 2 ^ attempts) × (delay ≡ max_backoff_ms)

backoff_delay-IsBackoff :
    (base attempts : ℕ) → IsBackoff base attempts (backoff_delay base (attempts + 1) max_backoff_ms)
backoff_delay-IsBackoff base attempts =
    let before : attempts + 1 - 1 ≡ attempts = omega arith in rw before (ground arith)

-- A failed publication is counted and postpones an unpublished message by a delay: the base delay,
-- doubled for each attempt before, or an hour where that is less. The message is due again exactly
-- from the time of the failure and that delay on.
pub schedule_retry-is_due :
    (m : OutboxMessage) (now base later : ℕ)
    → is_pending m ≡ true
    → (delay : ℕ) × IsBackoff base m.attempts delay
      × ((schedule_retry m now base).attempts ≡ m.attempts + 1)
      × ((is_due (schedule_retry m now base) later ≡ true) ↔ (now + delay ≤ later))
unfolding is_due schedule_retry
schedule_retry-is_due m now base later p = (
  backoff_delay base (m.attempts + 1) max_backoff_ms,
  backoff_delay-IsBackoff base m.attempts,
  refl,
  ground arith,
)
