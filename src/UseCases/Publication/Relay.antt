-- ===== src/UseCases/Publication/Relay.antt =====
-- What a cycle of the relay leaves in the outbox:
-- src/application/use-cases/publish-outbox/publish-outbox.use-case.ts.
use jungle_challenge.Common.{
  ℕ, suc, ◌+◌, Bool, false, ◌≡◌, refl, sym, ◌∙◌, ap, ◌≢◌, String, List, [], ◌∷◌, map, ◌==◌,
  string_eq, str_iff, if◌then◌else◌, Bool-cases, inl, inr, arith,
}
use jungle_challenge.Common.Lists.{length}
use jungle_challenge.Messaging.Event.{IntegrationEventEnvelope}
use jungle_challenge.Messaging.Outbox.{OutboxMessage, mark_published, schedule_retry}
use jungle_challenge.Persistence.OutboxRows.{
  is_claimable, occurred_before, claim_due, overwrite_message, save_message,
}
use jungle_challenge.Persistence.Rows.{
  All, All-both, Avoid, HasUniqueKeys, HasUniqueKeys-query, IsOnly, IsOnly-query,
}
use jungle_challenge.Persistence.Store.{Store}
use jungle_challenge.Persistence.Tables.{update_rows}
use jungle_challenge.UseCases.Publication.{
  OutboxRelayConfig, Cycle, relay_one, relay_all, publish_outbox,
}

abbrev pub message_id : OutboxMessage → String
message_id m = m.id

pub other_key : {a b : String} → a ≢ b → (a == b) ≡ false
other_key {a} {b} h = elim (Bool-cases (a == b)) [
  | inl e ↦ elim (h ((str_iff a b).0 e)) [ ]
  | inr e ↦ e
]

module _ (accepts : ℕ → IntegrationEventEnvelope → Bool) (base now : ℕ) where
  -- A row once the publisher's call `n` on the message `d` returned or threw.
  abbrev pub handled : ℕ → OutboxMessage → OutboxMessage → OutboxMessage
  handled n d m = if accepts n d.payload then mark_published m now else schedule_retry m now base

  -- A row after the calls on the messages `due`, of which the first is call `n`.
  abbrev pub outcome : ℕ → List OutboxMessage → OutboxMessage → OutboxMessage
  outcome n [] m = m
  outcome n (d ∷ due) m = if m.id == d.id then handled n d m else outcome (suc n) due m

  pub overwrite-handled :
      (n : ℕ) (d : OutboxMessage) → overwrite_message (handled n d d) d ≡ handled n d d
  unfolding mark_published schedule_retry
  overwrite-handled n d = elim (Bool-cases (accepts n d.payload)) [
    | inl e ↦ rw e refl
    | inr e ↦ rw e refl
  ]

  handled-id : (n : ℕ) (d : OutboxMessage) → (handled n d d).id ≡ d.id
  handled-id n d = sym (ap (λ m. m.id) (overwrite-handled n d))

  outcome-Avoid :
      (n : ℕ) (due : List OutboxMessage) (m : OutboxMessage)
      → Avoid message_id m due
      → outcome n due m ≡ m
  outcome-Avoid n [] m a = refl
  outcome-Avoid n (d ∷ due) m (h, a) =
      rw (other_key (λ e. h (sym e))) (outcome-Avoid (suc n) due m a)

  -- The rows after one message is saved.
  abbrev pub saved : ℕ → OutboxMessage → List OutboxMessage → List OutboxMessage
  saved n d = update_rows (λ m. m.id == d.id) (overwrite_message (handled n d d))

  saved-IsOnly :
      (n : ℕ) (d d' : OutboxMessage) (rows : List OutboxMessage)
      → d'.id ≢ d.id
      → IsOnly message_id rows d'
      → IsOnly message_id (saved n d rows) d'
  saved-IsOnly n d d' [] h o = tt
  saved-IsOnly n d d' (y ∷ rows) h (p, o) = elim (Bool-cases (y.id == d.id)) [
    | inl e ↦
        rw e ((λ k. elim (h (sym k ∙ (str_iff y.id d.id).0 e)) [ ]), saved-IsOnly n d d' rows h o)
    | inr e ↦ rw e (p, saved-IsOnly n d d' rows h o)
  ]

  same_row :
      (n : ℕ) (d : OutboxMessage) (due : List OutboxMessage) (y : OutboxMessage)
      → Avoid message_id d due
      → y ≡ d
      → outcome (suc n) due (overwrite_message (handled n d d) y) ≡ handled n d y
  same_row n d due y a e =
      rw e
        (outcome-Avoid (suc n) due (overwrite_message (handled n d d) d) a ∙ overwrite-handled n d)

  no_outcome : (n : ℕ) (rows : List OutboxMessage) → map (outcome n []) rows ≡ rows
  no_outcome n [] = refl
  no_outcome n (y ∷ rows) = ap (λ r. y ∷ r) (no_outcome n rows)

  outcome-saved :
      (n : ℕ) (d : OutboxMessage) (due rows : List OutboxMessage)
      → Avoid message_id d due
      → IsOnly message_id rows d
      → map (outcome (suc n) due) (saved n d rows) ≡ map (outcome n (d ∷ due)) rows
  outcome-saved n d due [] a o = refl
  outcome-saved n d due (y ∷ rows) a (p, o) = elim (Bool-cases (y.id == d.id)) [
    | inl e ↦ rw e (
        rw (same_row n d due y a (p ((str_iff y.id d.id).0 e)))
          (ap (λ r. handled n d y ∷ r) (outcome-saved n d due rows a o)))
    | inr e ↦ rw e (ap (λ r. outcome (suc n) due y ∷ r) (outcome-saved n d due rows a o))
  ]

  module _ {V : Type 0} where
    pub relay_one-outbox :
        (n : ℕ) (d : OutboxMessage) (c : Cycle V)
        → (relay_one accepts base now n d c).store.outbox ≡ saved n d c.store.outbox
    unfolding relay_one save_message mark_published schedule_retry
    relay_one-outbox n d c = elim (Bool-cases (accepts n d.payload)) [
      | inl e ↦ rw e refl
      | inr e ↦ rw e refl
    ]

    relay_all-outbox :
        (n : ℕ) (due : List OutboxMessage) (c : Cycle V)
        → HasUniqueKeys message_id due
        → All (IsOnly message_id c.store.outbox) due
        → (relay_all accepts base now n due c).store.outbox ≡ map (outcome n due) c.store.outbox
    unfolding relay_all
    relay_all-outbox n [] c u o = sym (no_outcome n c.store.outbox)
    relay_all-outbox n (d ∷ due) c (a, u) (p, o) =
        relay_all-outbox (suc n) due (relay_one accepts base now n d c) u (
          rw (relay_one-outbox n d c)
            (All-both (λ d' h q. saved-IsOnly n d d' c.store.outbox h q) due a o))
        ∙ (rw (relay_one-outbox n d c) refl ∙ outcome-saved n d due c.store.outbox a p)

    -- The two counts tell every message that was handled, and the rest of the store stays.
    abbrev HasCounted : ℕ → Cycle V → Cycle V → Type 0
    HasCounted n c c' =
        (c'.published + c'.retried ≡ n + (c.published + c.retried))
        × (length c'.taken + c.published ≡ c'.published + length c.taken)
        × (c'.store ≡ record c.store { outbox = c'.store.outbox })

    relay_one-HasCounted :
        (n : ℕ) (d : OutboxMessage) (c : Cycle V)
        → HasCounted 1 c (relay_one accepts base now n d c)
    unfolding relay_one save_message
    relay_one-HasCounted n d c = elim (Bool-cases (accepts n d.payload)) [
      | inl e ↦ rw e (omega arith, omega arith, refl)
      | inr e ↦ rw e (omega arith, omega arith, refl)
    ]

    relay_all-HasCounted :
        (n : ℕ) (due : List OutboxMessage) (c : Cycle V)
        → HasCounted (length due) c (relay_all accepts base now n due c)
    unfolding relay_all
    relay_all-HasCounted n [] c = (omega arith, omega arith, refl)
    relay_all-HasCounted n (d ∷ due) c =
        let c' = relay_one accepts base now n d c in
        let (i, j, k) = relay_one-HasCounted n d c in
        let (i', j', k') = relay_all-HasCounted (suc n) due c' in
        (
          omega arith,
          omega arith,
          k'
              ∙ ap
                  (λ (s : Store V). record s {
                    outbox = (relay_all accepts base now (suc n) due c').store.outbox;
                  })
                  k,
        )

-- Where no two rows of the outbox share an id, a cycle of the relay changes each row that it claimed
-- exactly as the publisher's call on it ended, published at this time or postponed by the backoff;
-- every other row and every other table stay as they were. The summary counts each claimed message
-- once, as published or as retried, and the broker took as many messages as it counts published.
pub publish_outbox-Relayed :
    {V : Type 0} (accepts : ℕ → IntegrationEventEnvelope → Bool) (config : OutboxRelayConfig)
    (now : ℕ) (s : Store V)
    → HasUniqueKeys message_id s.outbox
    → (let (summary, taken, s') = publish_outbox accepts config now s in
        (s' ≡ record s {
          outbox =
              map
                (outcome accepts config.base_backoff_ms now 0 (claim_due config.batch_size now s))
                s.outbox;
        })
        × (summary.published + summary.retried ≡ summary.claimed)
        × (length taken ≡ summary.published))
unfolding publish_outbox claim_due
publish_outbox-Relayed {V} accepts config now s u =
    let due = claim_due config.batch_size now s in
    let c : Cycle V = record { published = 0; retried = 0; taken = []; store = s } in
    let (i, j, k) = relay_all-HasCounted accepts config.base_backoff_ms now 0 due c in
    let e =
      relay_all-outbox accepts config.base_backoff_ms now 0 due c
        (HasUniqueKeys-query message_id config.batch_size occurred_before (is_claimable now)
          s.outbox u)
        (IsOnly-query message_id config.batch_size occurred_before (is_claimable now) s.outbox u) in
    (k ∙ ap (λ o. record s { outbox = o }) e, omega arith, omega arith)
