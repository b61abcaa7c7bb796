-- ===== src/Consumer/Polling.antt =====
-- What a cycle of the consumer counts, and what it leaves in the store: pollOnce of
-- src/infrastructure/messaging/sqs/wager-transaction.consumer.ts.
use jungle_challenge.Common.{
  ap, subst, ℕ, suc, ◌+◌, ◌≤◌, Bool, true, false, ◌≡◌, refl, ◌⊎◌, inl, inr, String, Option, none,
  some, List, [], ◌∷◌, Result, ok, err, Bool-cases, Option-cases, arith,
}
use jungle_challenge.Common.Lists.{length}
use jungle_challenge.Application.Action.{System, World}
use jungle_challenge.Application.CanonicalJson.{◌<>◌}
use jungle_challenge.Application.Fault.{Fault}
use jungle_challenge.Consumer.Batch.{
  Ran, finished, stopped, went_on, threw, acked_of, dlq_of, retried_of, all_deleted, letters_of,
  Ran-length, Ran-queues,
}
use jungle_challenge.Consumer.Message.{WagerMessageData, WagerMessage, ConsumerConfig, command_of}
use jungle_challenge.Consumer.Sqs.{SqsMessage, Host, Queues, body_or, ack, to_dlq}
use jungle_challenge.Consumer.{
  Handled, PollResult, Site, is_transient, acknowledged, buried, after_execute, handle_parsed,
  handle, counted, handle_from, poll_once,
}
use jungle_challenge.Money.Decimal.{Decimals}
use jungle_challenge.UseCases.Command.{
  ProcessWagerTransactionCommand, ProcessWagerTransactionResult,
}
use jungle_challenge.UseCases.Conservation.{IsReconciled}
use jungle_challenge.UseCases.Conservation.Calls.{execute-IsReconciled}
use jungle_challenge.UseCases.Process.{execute}

-- What a result tells of the outcomes `hs`, after it told of some before.
abbrev Tallied : PollResult → List Handled → PollResult → Type 0
Tallied result hs r =
    (r.received ≡ result.received)
    × (r.acked ≡ result.acked + acked_of hs)
    × (r.dlq ≡ result.dlq + dlq_of hs)
    × (r.retried ≡ result.retried + retried_of hs)

Tallied-counted :
    (handled : Handled) (hs : List Handled) (result r : PollResult)
    → Tallied (counted handled result) hs r
    → Tallied result (handled ∷ hs) r
Tallied-counted Handled.acked hs result r (i, a, d, t) = (i, omega (arith, a), d, t)
Tallied-counted Handled.dlq hs result r (i, a, d, t) = (i, a, omega (arith, d), t)
Tallied-counted Handled.retried hs result r (i, a, d, t) = (i, a, d, omega (arith, t))

module _ {V : Type 0} ⦃D : Decimals V⦄ where
  module _ (host : Host) (sys : System) (config : ConsumerConfig) where
    buried-world : (w : World V) (a : Bool × Queues) → (buried host sys config w a).1.world ≡ w
    buried-world w (true, q) = refl
    buried-world w (false, q) = refl

    acknowledged-world :
        (w : World V) (a : Bool × Queues) → (acknowledged host sys config w a).1.world ≡ w
    acknowledged-world w (true, q) = refl
    acknowledged-world w (false, q) = refl

    after_execute-world :
        (message : SqsMessage) (d : WagerMessageData) (q : Queues)
        (called : Result Fault ProcessWagerTransactionResult × World V)
        → (after_execute host sys config message d q called).1.world ≡ called.1
    after_execute-world message d q (ok r, w) = acknowledged-world w (ack host message q)
    after_execute-world message d q (err fault, w) = elim (Bool-cases (is_transient fault)) [
      | inl t ↦ rw t refl
      | inr t ↦ rw t (
          buried-world w
            (to_dlq host sys config message ("permanent: " <> host.error_text fault) d.wallet_id q))
    ]

    -- The world after a message is as before, or as one call of the use case leaves it.
    handle_parsed-world :
        (message : SqsMessage) (parsed : Result String WagerMessage) (site : Site V)
        → let s = (handle_parsed host sys config message parsed site).1 in
          (s.world ≡ site.world)
          ⊎ (command : ProcessWagerTransactionCommand) × (s.world
              ≡ (execute sys command site.world).1)
    handle_parsed-world message (err error) site = inl (
        buried-world site.world
          (to_dlq host sys config message ("parse_error: " <> error) "unparseable" site.queues))
    handle_parsed-world message (ok parsed) site =
        let command = command_of sys config parsed.message_id parsed.content in
        inr (
          command,
          after_execute-world message parsed.content site.queues (execute sys command site.world),
        )

    handle-IsReconciled :
        (message : SqsMessage) (site : Site V)
        → IsReconciled site.world.store
        → IsReconciled ((handle host sys config message site).1.world.store)
    unfolding handle
    handle-IsReconciled message site r =
        elim (handle_parsed-world message (host.accept (body_or message "")) site) [
          | inl e ↦ rw e r
          | inr (command, e) ↦ rw e (execute-IsReconciled sys command site.world r)
        ]

  module _ (host : Host) (sys_at : ℕ → System) (config : ConsumerConfig) (stopping : ℕ → Bool) where
    handle_from-IsReconciled :
        (n : ℕ) (messages : List SqsMessage) (result : PollResult) (site : Site V)
        → IsReconciled site.world.store
        → IsReconciled
            ((handle_from host sys_at config stopping n messages result site).1.world.store)
    unfolding handle_from
    handle_from-IsReconciled n [] result site r = r
    handle_from-IsReconciled n (message ∷ messages) result site r =
        let o = handle host (sys_at n) config message site in
        let kept = handle-IsReconciled host (sys_at n) config message site r in
        elim (Bool-cases (stopping n)) [
          | inl stop ↦ rw stop r
          | inr go ↦ rw go (elim (Option-cases o.0) [
            | inl none_ ↦ rw none_ kept
            | inr (handled, e) ↦
                rw e (handle_from-IsReconciled (suc n) messages (counted handled result) o.1 kept)
          ])
        ]

    -- A cycle over any messages, whatever the queue's client does: if each wallet of the store is not
    -- negative and its balance is the sum of its ledger entries, this holds after it.
    pub poll_once-IsReconciled :
        (messages : List SqsMessage) (site : Site V)
        → IsReconciled site.world.store
        → IsReconciled ((poll_once host sys_at config stopping messages site).1.world.store)
    unfolding poll_once
    poll_once-IsReconciled messages site r = handle_from-IsReconciled 0 messages _ site r

    abbrev Told : ℕ → List SqsMessage → PollResult → Site V → Option PollResult × Site V → Type 0
    Told n messages result site (none, s) =
        (hs : List Handled) × Ran host sys_at config stopping n messages site hs true s
    Told n messages result site (some r, s) =
        (hs : List Handled) × Ran host sys_at config stopping n messages site hs false s
        × Tallied result hs r

    Told-suc :
        (n : ℕ) (message : SqsMessage) (messages : List SqsMessage) (result : PollResult)
        (handled : Handled) (site site' : Site V) (o : Option PollResult × Site V)
        → stopping n ≡ false
        → handle host (sys_at n) config message site ≡ (some handled, site')
        → Told (suc n) messages (counted handled result) site' o
        → Told n (message ∷ messages) result site o
    Told-suc n message messages result handled site site' (none, s) go e (hs, ran) =
        (handled ∷ hs, went_on go e ran)
    Told-suc n message messages result handled site site' (some r, s) go e (hs, ran, t) =
        (handled ∷ hs, went_on go e ran, Tallied-counted handled hs result r t)

    handle_from-Told :
        (n : ℕ) (messages : List SqsMessage) (result : PollResult) (site : Site V)
        → Told n messages result site
            (handle_from host sys_at config stopping n messages result site)
    unfolding handle_from
    handle_from-Told n [] result site =
        ([], finished, (refl, omega arith, omega arith, omega arith))
    handle_from-Told n (message ∷ messages) result site =
        let o = handle host (sys_at n) config message site in
        elim (Bool-cases (stopping n)) [
          | inl stop ↦ rw stop ([], stopped stop, (refl, omega arith, omega arith, omega arith))
          | inr go ↦ rw go (elim (Option-cases o.0) [
            | inl none_ ↦
                let e : o ≡ (none, o.1) = ap (λ (h : Option Handled). (h, o.1)) none_ in
                rw none_ ([], threw go e)
            | inr (handled, some_) ↦
                let e : o ≡ (some handled, o.1) = ap (λ (h : Option Handled). (h, o.1)) some_ in
                rw some_ (
                  Told-suc n message messages result handled site o.1 _ go e
                    (handle_from-Told (suc n) messages (counted handled result) o.1))
          ])
        ]

    -- How a cycle over `messages` ends: the outcomes of the messages, what the result tells of them, and
    -- what they left in the queue and added to the dead letters.
    abbrev pub Polled : List SqsMessage → Site V → Option PollResult × Site V → Type 0
    Polled messages site (none, s) =
        (hs : List Handled) × Ran host sys_at config stopping 0 messages site hs true s
    Polled messages site (some r, s) =
        (hs : List Handled) × Ran host sys_at config stopping 0 messages site hs false s
        × (r.received ≡ length messages)
        × (r.acked ≡ acked_of hs)
        × (r.dlq ≡ dlq_of hs)
        × (r.retried ≡ retried_of hs)
        × (length hs ≤ length messages)
        × ((length hs ≡ length messages) ⊎ (stopping (length hs) ≡ true))
        × (s.queues.deleted ≡ all_deleted messages hs site.queues.deleted)
        × (length s.queues.dead ≡ length site.queues.dead + letters_of config.dlq_url hs)

    Told-Polled :
        (messages : List SqsMessage) (site : Site V) (o : Option PollResult × Site V)
        → Told 0 messages
            (record { received = length messages; acked = 0; dlq = 0; retried = 0 })
            site
            o
        → Polled messages site o
    Told-Polled messages site (none, s) h = h
    Told-Polled messages site (some r, s) (hs, ran, (i, a, d, t)) =
        let (most, end) = Ran-length host sys_at config stopping ran in
        let (gone, dead) = Ran-queues host sys_at config stopping ran in
        let here : 0 + length hs ≡ length hs = omega arith in
        let ended =
          elim end as (λ _. (length hs ≡ length messages) ⊎ (stopping (length hs) ≡ true)) [
            | inl all ↦ inl all
            | inr stop ↦ inr (subst (λ (k : ℕ). stopping k ≡ true) here stop)
          ] in
        (hs, ran, i, omega (arith, a), omega (arith, d), omega (arith, t), most, ended, gone, dead)

    -- The messages of a cycle are handled one after the other, in order, each once and with the store and
    -- the queues as the one before left them, until one throws, the consumer is told to stop before the
    -- next, or none is left. A cycle that does not throw tells how many it received and how many of the
    -- handled were acknowledged, sent to the dead letters and left for a retry; it handled all, unless it
    -- was told to stop before the next. Exactly the messages that are not left for a retry are deleted from
    -- the queue, and there are as many new dead letters as it tells, if there is a queue for them.
    pub poll_once-Polled :
        (messages : List SqsMessage) (site : Site V)
        → Polled messages site (poll_once host sys_at config stopping messages site)
    unfolding poll_once
    poll_once-Polled messages site =
        let start : PollResult = record {
          received = length messages;
          acked = 0;
          dlq = 0;
          retried = 0;
        } in
        Told-Polled messages site (handle_from host sys_at config stopping 0 messages start site)
          (handle_from-Told 0 messages start site)
