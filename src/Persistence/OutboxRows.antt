-- ===== src/Persistence/OutboxRows.antt =====
-- The repository of the outbox as the relay uses it: MikroOutboxRepository in
-- src/infrastructure/persistence/mikro-orm/repositories.ts. The lock of `claimDue` skips the rows
-- that another relay holds; a cycle here is alone.
use jungle_challenge.Common.{
  ℕ, ◌-◌, Bool, true, false, ◌&&◌, Option, none, some, List, ◌==◌, string_eq, leb,
}
use jungle_challenge.Messaging.Outbox.{OutboxMessage}
use jungle_challenge.Persistence.Store.{Store}
use jungle_challenge.Persistence.Tables.{
  find_row, update_rows, count_rows, select_rows, sort_rows, take,
}

-- IS NULL
abbrev pub is_null : Option ℕ → Bool
is_null none = true
is_null (some _) = false

abbrev null_or_past : Option ℕ → ℕ → Bool
null_or_past none now = true
null_or_past (some t) now = leb t now

-- `order by occurred_at asc`
abbrev pub occurred_before : OutboxMessage → OutboxMessage → Bool
occurred_before a b = leb a.occurred_at b.occurred_at

abbrev pub is_claimable : ℕ → OutboxMessage → Bool
is_claimable now m = is_null m.published_at && null_or_past m.next_attempt_at now

-- `outboxMutableFields`
abbrev pub overwrite_message : OutboxMessage → OutboxMessage → OutboxMessage
overwrite_message message m = record m {
  attempts = message.attempts;
  next_attempt_at = message.next_attempt_at;
  published_at = message.published_at;
}

-- `Math.max(0, …)`, or 0 where nothing is pending
abbrev age_of : ℕ → Option OutboxMessage → ℕ
age_of now none = 0
age_of now (some m) = now - m.occurred_at

module _ {V : Type 0} where
  unfoldable pub claim_due : ℕ → ℕ → Store V → List OutboxMessage
  claim_due limit now s =
      take limit (sort_rows occurred_before (select_rows (is_claimable now) s.outbox))

  unfoldable pub save_message : OutboxMessage → Store V → Store V
  save_message message s = record s {
    outbox = update_rows (λ m. m.id == message.id) (overwrite_message message) s.outbox;
  }

  unfoldable pub count_pending : Store V → ℕ
  count_pending s = count_rows (λ m. is_null m.published_at) s.outbox

  unfoldable pub oldest_pending_age_ms : ℕ → Store V → ℕ
  oldest_pending_age_ms now s = age_of now (
      find_row (λ m. true)
        (sort_rows occurred_before (select_rows (λ m. is_null m.published_at) s.outbox)))
