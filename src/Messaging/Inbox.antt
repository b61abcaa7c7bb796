-- ===== src/Messaging/Inbox.antt =====
-- The consumer's record of a message: src/domain/messaging/inbox-message.ts. The plain state has the
-- same fields, so `rehydrate` and `toState` copy them.
use jungle_challenge.Common.{ℕ, Bool, true, false, String, Option, none, some}

pub record InboxMessage : Type 0 where
  pub message_id : String
  pub consumer_name : String
  pub payload_hash : String
  pub received_at : ℕ
  pub processed_at : Option ℕ

unfoldable pub receive : String → String → String → ℕ → InboxMessage
receive message_id consumer_name payload_hash received_at = record {
  message_id = message_id;
  consumer_name = consumer_name;
  payload_hash = payload_hash;
  received_at = received_at;
  processed_at = none;
}

-- `??=`
abbrev set_once : Option ℕ → ℕ → Option ℕ
set_once none t = some t
set_once (some s) _ = some s

unfoldable pub is_processed : InboxMessage → Bool
is_processed m = elim m.processed_at [ none ↦ false | some _ ↦ true ]

unfoldable pub mark_processed : InboxMessage → ℕ → InboxMessage
mark_processed m at = record m { processed_at = set_once m.processed_at at }
