-- ===== src/UseCases/Publication/Backlog.antt =====
-- What a cycle of the relay leaves unpublished:
-- src/application/use-cases/publish-outbox/publish-outbox.use-case.ts.
use jungle_challenge.Common.{
  ℕ, suc, ◌+◌, Bool, true, false, ◌≡◌, refl, sym, ◌∙◌, ap, ◌≢◌, List, [], ◌∷◌, ◌==◌, string_eq,
  ==_refl, Bool-cases, inl, inr, arith,
}
use jungle_challenge.Messaging.Event.{IntegrationEventEnvelope}
use jungle_challenge.Messaging.Outbox.{OutboxMessage, mark_published, schedule_retry}
use jungle_challenge.Persistence.OutboxRows.{
  is_null, is_claimable, occurred_before, claim_due, count_pending,
}
use jungle_challenge.Persistence.Rows.{
  All, All-weaken, All-both, All-at, All-query, Avoid, HasUniqueKeys, HasUniqueKeys-query, Present,
  Present-each, query-holds,
}
use jungle_challenge.Persistence.Store.{Store}
use jungle_challenge.Persistence.Tables.{count_rows}
use jungle_challenge.UseCases.Publication.{
  OutboxRelayConfig, Cycle, relay_one, relay_all, publish_outbox,
}
use jungle_challenge.UseCases.Publication.Relay.{
  message_id, handled, saved, overwrite-handled, other_key, relay_one-outbox,
}

abbrev unpublished : OutboxMessage → Bool
unpublished m = is_null m.published_at

abbrev bit : Bool → ℕ
bit true = 1
bit false = 0

module _ (accepts : ℕ → IntegrationEventEnvelope → Bool) (base now : ℕ) where
  abbrev row_after : ℕ → OutboxMessage → List OutboxMessage → List OutboxMessage
  row_after n d rows = saved accepts base now n d rows

  saved-Avoid :
      (n : ℕ) (d : OutboxMessage) (rows : List OutboxMessage)
      → Avoid message_id d rows
      → row_after n d rows ≡ rows
  saved-Avoid n d [] a = refl
  saved-Avoid n d (y ∷ rows) (h, a) = rw (other_key h) (ap (λ r. y ∷ r) (saved-Avoid n d rows a))

  -- Saving a message changes no key.
  saved-keeps_Avoid :
      (n : ℕ) (d x : OutboxMessage) (rows : List OutboxMessage)
      → Avoid message_id x rows
      → Avoid message_id x (row_after n d rows)
  saved-keeps_Avoid n d x [] a = tt
  saved-keeps_Avoid n d x (y ∷ rows) (h, a) = elim (Bool-cases (y.id == d.id)) [
    | inl e ↦ rw e (h, saved-keeps_Avoid n d x rows a)
    | inr e ↦ rw e (h, saved-keeps_Avoid n d x rows a)
  ]

  saved-HasUniqueKeys :
      (n : ℕ) (d : OutboxMessage) (rows : List OutboxMessage)
      → HasUniqueKeys message_id rows
      → HasUniqueKeys message_id (row_after n d rows)
  saved-HasUniqueKeys n d [] u = tt
  saved-HasUniqueKeys n d (y ∷ rows) (a, u) = elim (Bool-cases (y.id == d.id)) [
    | inl e ↦ rw e (saved-keeps_Avoid n d y rows a, saved-HasUniqueKeys n d rows u)
    | inr e ↦ rw e (saved-keeps_Avoid n d y rows a, saved-HasUniqueKeys n d rows u)
  ]

  saved-Present :
      (n : ℕ) (d d' : OutboxMessage) (rows : List OutboxMessage)
      → d'.id ≢ d.id
      → Present rows d'
      → Present (row_after n d rows) d'
  saved-Present n d d' [] h m = elim m [ ]
  saved-Present n d d' (y ∷ rows) h (inl e) =
      let other : (y.id == d.id) ≡ false = other_key (λ k. h (ap (λ m. m.id) (sym e) ∙ k)) in
      rw other (inl e)
  saved-Present n d d' (y ∷ rows) h (inr m) = inr (saved-Present n d d' rows h m)

  -- The first row is the message that was handled.
  unpublished-handled :
      (n : ℕ) (d : OutboxMessage)
      → unpublished d ≡ true
      → bit (unpublished (handled accepts base now n d d)) + bit (accepts n d.payload) ≡ 1
  unfolding mark_published schedule_retry
  unpublished-handled n d p = elim (Bool-cases (accepts n d.payload)) [
    | inl e ↦ rw e (ground arith)
    | inr e ↦ rw e (rw p refl)
  ]

  count-bit :
      (m : OutboxMessage) (rows : List OutboxMessage)
      → count_rows unpublished (m ∷ rows) ≡ bit (unpublished m) + count_rows unpublished rows
  count-bit m rows = elim (Bool-cases (unpublished m)) [
    | inl e ↦ rw e (omega arith)
    | inr e ↦ rw e (omega arith)
  ]

  count-first :
      (n : ℕ) (d : OutboxMessage) (rows : List OutboxMessage)
      → Avoid message_id d rows
      → unpublished d ≡ true
      → count_rows unpublished (row_after n d (d ∷ rows)) + bit (accepts n d.payload)
        ≡ count_rows unpublished (d ∷ rows)
  count-first n d rows a p =
      let row = handled accepts base now n d d in
      let rows' : row_after n d (d ∷ rows) ≡ row ∷ rows = rw (==_refl d.id) (
        rw (overwrite-handled accepts base now n d) (ap (λ r. row ∷ r) (saved-Avoid n d rows a))) in
      let i = ap (λ r. count_rows unpublished r) rows' in
      let j = count-bit row rows in
      let k = count-bit d rows in
      let l = unpublished-handled n d p in
      let q : bit (unpublished d) ≡ 1 = rw p refl in omega arith

  count-saved :
      (n : ℕ) (d : OutboxMessage) (rows : List OutboxMessage)
      → HasUniqueKeys message_id rows
      → Present rows d
      → unpublished d ≡ true
      → count_rows unpublished (row_after n d rows) + bit (accepts n d.payload)
        ≡ count_rows unpublished rows
  count-saved n d [] u m p = elim m [ ]
  count-saved n d (y ∷ rows) (a, u) (inl e) p = rw e (count-first n d rows (rw (sym e) a) p)
  count-saved n d (y ∷ rows) (a, u) (inr m) p =
      let other : (y.id == d.id) ≡ false =
        other_key (λ k. All-at (λ z. z.id ≢ y.id) rows d a m (sym k)) in
      let rows' : row_after n d (y ∷ rows) ≡ y ∷ row_after n d rows = rw other refl in
      let i = ap (λ r. count_rows unpublished r) rows' in
      let j = count-bit y (row_after n d rows) in
      let k = count-bit y rows in let l = count-saved n d rows u m p in omega arith

  module _ {V : Type 0} where
    relay_one-published :
        (n : ℕ) (d : OutboxMessage) (c : Cycle V)
        → (relay_one accepts base now n d c).published ≡ c.published + bit (accepts n d.payload)
    unfolding relay_one
    relay_one-published n d c = elim (Bool-cases (accepts n d.payload)) [
      | inl e ↦ rw e (omega arith)
      | inr e ↦ rw e (omega arith)
    ]

    abbrev backlog : Cycle V → ℕ
    backlog c = count_rows unpublished c.store.outbox

    relay_all-backlog :
        (n : ℕ) (due : List OutboxMessage) (c : Cycle V)
        → HasUniqueKeys message_id due
        → HasUniqueKeys message_id c.store.outbox
        → All (Present c.store.outbox) due
        → All (λ d. unpublished d ≡ true) due
        → backlog (relay_all accepts base now n due c)
            + (relay_all accepts base now n due c).published
          ≡ backlog c + c.published
    unfolding relay_all
    relay_all-backlog n [] c u v m p = refl
    relay_all-backlog n (d ∷ due) c (a, u) v (i, m) (q, p) =
        let c' = relay_one accepts base now n d c in
        let rows = relay_one-outbox accepts base now n d c in
        let h =
          relay_all-backlog (suc n) due c' u (rw rows (saved-HasUniqueKeys n d c.store.outbox v))
            (rw rows (All-both (λ d' k l. saved-Present n d d' c.store.outbox k l) due a m)) p in
        let i' = ap (λ r. count_rows unpublished r) rows in
        let j = count-saved n d c.store.outbox v i q in
        let k = relay_one-published n d c in omega arith

claimable-unpublished :
    (now : ℕ) (m : OutboxMessage) → is_claimable now m ≡ true → unpublished m ≡ true
claimable-unpublished now m e = ground arith

-- Where no two rows of the outbox share an id, the rows that are pending after a cycle of the relay,
-- as its summary counts them, and the messages that it published are together as many as the rows
-- that were pending before.
pub publish_outbox-count_pending :
    {V : Type 0} (accepts : ℕ → IntegrationEventEnvelope → Bool) (config : OutboxRelayConfig)
    (now : ℕ) (s : Store V)
    → HasUniqueKeys message_id s.outbox
    → (let (summary, _, _) = publish_outbox accepts config now s in
        summary.pending + summary.published ≡ count_pending s)
unfolding publish_outbox claim_due count_pending
publish_outbox-count_pending {V} accepts config now s u =
    let due = claim_due config.batch_size now s in
    let c : Cycle V = record { published = 0; retried = 0; taken = []; store = s } in
    let size = config.batch_size in
    let h =
      relay_all-backlog accepts config.base_backoff_ms now 0 due c
        (HasUniqueKeys-query message_id size occurred_before (is_claimable now) s.outbox u) u
        (All-query _ size occurred_before (is_claimable now) s.outbox (Present-each s.outbox))
        (All-weaken (λ m e. claimable-unpublished now m e) due
          (query-holds size occurred_before (is_claimable now) s.outbox)) in
    omega arith
