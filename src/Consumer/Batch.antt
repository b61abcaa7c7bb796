-- ===== src/Consumer/Batch.antt =====
-- How the messages of one batch are handled, one after the other: pollOnce of
-- src/infrastructure/messaging/sqs/wager-transaction.consumer.ts.
use jungle_challenge.Common.{
  ℕ, suc, ◌+◌, ◌≤◌, Bool, true, false, ◌≡◌, refl, ◌∙◌, ap, subst, ◌⊎◌, inl, inr, String, Option,
  none, some, List, [], ◌∷◌, Result, ok, err, arith,
}
use jungle_challenge.Common.Lists.{length}
use jungle_challenge.Application.Action.{System}
use jungle_challenge.Consumer.Handling.{with_letter, HandledAs, handle-HandledAs}
use jungle_challenge.Consumer.Message.{WagerMessage, ConsumerConfig}
use jungle_challenge.Consumer.Sqs.{SqsMessage, Host, Queues, DeadLetter, body_or}
use jungle_challenge.Consumer.{Handled, Site, handle}
use jungle_challenge.Money.Decimal.{Decimals}

-- How many of the outcomes are of each sort.
abbrev pub acked_of : List Handled → ℕ
acked_of [] = 0
acked_of (Handled.acked ∷ hs) = suc (acked_of hs)
acked_of (_ ∷ hs) = acked_of hs

abbrev pub dlq_of : List Handled → ℕ
dlq_of [] = 0
dlq_of (Handled.dlq ∷ hs) = suc (dlq_of hs)
dlq_of (_ ∷ hs) = dlq_of hs

abbrev pub retried_of : List Handled → ℕ
retried_of [] = 0
retried_of (Handled.retried ∷ hs) = suc (retried_of hs)
retried_of (_ ∷ hs) = retried_of hs

-- The receipt handles that were deleted: those of the messages that are not retried.
abbrev deleted_by : Handled → SqsMessage → List (Option String) → List (Option String)
deleted_by Handled.retried message deleted = deleted
deleted_by _ message deleted = message.receipt_handle ∷ deleted

abbrev pub all_deleted :
    List SqsMessage → List Handled → List (Option String) → List (Option String)
all_deleted (message ∷ messages) (handled ∷ hs) deleted =
    all_deleted messages hs (deleted_by handled message deleted)
all_deleted _ _ deleted = deleted

-- The dead letters that were sent, if there is a queue for them.
abbrev pub letters_of : Option String → List Handled → ℕ
letters_of none hs = 0
letters_of (some url) hs = dlq_of hs

unlettered :
    (url : Option String) (handled : Handled) (n : ℕ)
    → dlq_of (handled ∷ []) ≡ 0
    → n ≡ n + letters_of url (handled ∷ [])
unlettered none handled n e = omega arith
unlettered (some url) handled n e = omega (arith, e)

letter-length :
    (url : Option String) (letter : DeadLetter) (dead : List DeadLetter)
    → length (with_letter url letter dead) ≡ length dead + letters_of url (Handled.dlq ∷ [])
letter-length none letter dead = omega arith
letter-length (some url) letter dead = omega arith

no_letters : (url : Option String) (n : ℕ) → n ≡ n + letters_of url []
no_letters none n = omega arith
no_letters (some url) n = omega arith

-- What one message leaves of its queue and adds to the dead letters.
abbrev Served : ConsumerConfig → SqsMessage → Handled → Queues → Queues → Type 0
Served config message handled q q' =
    (q'.deleted ≡ deleted_by handled message q.deleted)
    × (length q'.dead ≡ length q.dead + letters_of config.dlq_url (handled ∷ []))

more_letters :
    (url : Option String) (handled : Handled) (hs : List Handled) (n : ℕ)
    → n + letters_of url (handled ∷ []) + letters_of url hs ≡ n + letters_of url (handled ∷ hs)
more_letters none handled hs n = omega arith
more_letters (some url) Handled.acked hs n = omega arith
more_letters (some url) Handled.dlq hs n = omega arith
more_letters (some url) Handled.retried hs n = omega arith

module _ {V : Type 0} ⦃D : Decimals V⦄ where
  module _ (host : Host) (sys_at : ℕ → System) (config : ConsumerConfig) (stopping : ℕ → Bool) where
    -- From the `n`-th message on, the outcomes, whether a message threw at last, and the site then. A
    -- message finds the site as the one before left it; the flag is asked for before each.
    pub data Ran : ℕ → List SqsMessage → Site V → List Handled → Bool → Site V → Type 0 where
      finished : {n : ℕ} {site : Site V} → Ran n [] site [] false site
      stopped :
          {n : ℕ} {message : SqsMessage} {messages : List SqsMessage} {site : Site V}
          → stopping n ≡ true
          → Ran n (message ∷ messages) site [] false site
      went_on :
          {n : ℕ} {message : SqsMessage} {messages : List SqsMessage} {site site' s : Site V}
          {handled : Handled} {hs : List Handled} {threw_last : Bool}
          → stopping n ≡ false
          → handle host (sys_at n) config message site ≡ (some handled, site')
          → Ran (suc n) messages site' hs threw_last s
          → Ran n (message ∷ messages) site (handled ∷ hs) threw_last s
      threw :
          {n : ℕ} {message : SqsMessage} {messages : List SqsMessage} {site s : Site V}
          → stopping n ≡ false
          → handle host (sys_at n) config message site ≡ (none, s)
          → Ran n (message ∷ messages) site [] true s

    -- No more outcomes than messages; as many, unless the consumer was told to stop before the next.
    pub Ran-length :
        {n : ℕ} {messages : List SqsMessage} {site s : Site V} {hs : List Handled}
        → Ran n messages site hs false s
        → (length hs ≤ length messages)
          × ((length hs ≡ length messages) ⊎ (stopping (n + length hs) ≡ true))
    Ran-length finished = (omega arith, inl refl)
    Ran-length {n} (stopped e) =
        let here : n + 0 ≡ n = omega arith in (omega arith, inr (rw here e))
    Ran-length {n} {hs = handled ∷ hs} (went_on go e ran) =
        let (most, end) = Ran-length ran in
        let later : n + suc (length hs) ≡ suc n + length hs = omega arith in
        (
          omega (arith, most),
          elim end [ inl all ↦ inl (ap suc all) | inr stop ↦ inr (rw later stop) ],
        )

  HandledAs-Served :
      (host : Host) (sys : System) (config : ConsumerConfig) (message : SqsMessage)
      (parsed : Result String WagerMessage) (site s : Site V) (handled : Handled)
      → HandledAs host sys config message parsed site (some handled, s)
      → Served config message handled site.queues s.queues
  HandledAs-Served host sys config message (err e) site s Handled.acked h = absurd h
  HandledAs-Served host sys config message (err e) site s Handled.retried h = absurd h
  HandledAs-Served host sys config message (err e) site s Handled.dlq (reason, (gone, dead), _) =
      (gone, ap length dead ∙ letter-length config.dlq_url _ site.queues.dead)
  HandledAs-Served host sys config message (ok d) site s Handled.acked (gone, dead, _) = (
    gone,
    ap length dead ∙ unlettered config.dlq_url Handled.acked (length site.queues.dead) refl,
  )
  HandledAs-Served host sys config message (ok d) site s Handled.retried (left, dead, _) = (
    left,
    ap length dead ∙ unlettered config.dlq_url Handled.retried (length site.queues.dead) refl,
  )
  HandledAs-Served host sys config message (ok d) site s Handled.dlq (reason, (gone, dead), _) =
      (gone, ap length dead ∙ letter-length config.dlq_url _ site.queues.dead)

  module _ (host : Host) (sys_at : ℕ → System) (config : ConsumerConfig) (stopping : ℕ → Bool) where
    handle-Served :
        (n : ℕ) (message : SqsMessage) (site s : Site V) (handled : Handled)
        → handle host (sys_at n) config message site ≡ (some handled, s)
        → Served config message handled site.queues s.queues
    handle-Served n message site s handled e =
        let parsed = host.accept (body_or message "") in
        HandledAs-Served host (sys_at n) config message parsed site s handled (
          subst (HandledAs host (sys_at n) config message parsed site) e
            (handle-HandledAs host (sys_at n) config message site))

    -- The messages that are not retried are gone from the queue, and those that failed for good are dead
    -- letters, if there is a queue for them.
    pub Ran-queues :
        {n : ℕ} {messages : List SqsMessage} {site s : Site V} {hs : List Handled}
        → Ran host sys_at config stopping n messages site hs false s
        → (s.queues.deleted ≡ all_deleted messages hs site.queues.deleted)
          × (length s.queues.dead ≡ length site.queues.dead + letters_of config.dlq_url hs)
    Ran-queues {site = site} finished = (refl, no_letters config.dlq_url (length site.queues.dead))
    Ran-queues {site = site} (stopped e) =
        (refl, no_letters config.dlq_url (length site.queues.dead))
    Ran-queues {n} {messages = message ∷ messages} {site} {s} {hs = handled ∷ hs}
          (went_on {site' = site'} go e ran) =
        let (gone, dead) = handle-Served n message site site' handled e in
        let (all_gone, all_dead) = Ran-queues ran in
        (
          all_gone ∙ ap (all_deleted messages hs) gone,
          omega (
            arith,
            all_dead,
            dead,
            more_letters config.dlq_url handled hs (length site.queues.dead),
          ),
        )
