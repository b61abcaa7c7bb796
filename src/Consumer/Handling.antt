-- ===== src/Consumer/Handling.antt =====
-- How one message ends: handle of
-- src/infrastructure/messaging/sqs/wager-transaction.consumer.ts.
use jungle_challenge.Common.{
  Bool, true, false, ◌≡◌, refl, ◌⊎◌, inl, inr, String, Option, none, some, List, ◌∷◌, Result, ok,
  err, Bool-cases, arith,
}
use jungle_challenge.Application.Action.{System, World}
use jungle_challenge.Application.CanonicalJson.{◌<>◌}
use jungle_challenge.Application.Fault.{
  Fault, ApplicationError, application_fault, domain_fault, unique_constraint,
  concurrent_modification, transient_failure, unexpected,
}
use jungle_challenge.Application.Rules.{After, After-weaken}
use jungle_challenge.Consumer.Message.{WagerMessageData, WagerMessage, ConsumerConfig, command_of}
use jungle_challenge.Consumer.Sqs.{
  SqsMessage, Host, Queues, DeadLetter, body_or, ack, to_dlq, dead_letter,
}
use jungle_challenge.Consumer.{
  Handled, Site, is_transient, acknowledged, buried, after_execute, handle_parsed, handle,
}
use jungle_challenge.Money.Decimal.{Decimals}
use jungle_challenge.UseCases.Command.{ProcessWagerTransactionResult}
use jungle_challenge.UseCases.Process.{execute}
use jungle_challenge.UseCases.Process.Effects.{execute-Called}

-- The message stays in its queue.
abbrev pub IsLeft : Queues → Queues → Type 0
IsLeft q q' = q'.deleted ≡ q.deleted

abbrev pub IsDeleted : SqsMessage → Queues → Queues → Type 0
IsDeleted message q q' = q'.deleted ≡ message.receipt_handle ∷ q.deleted

-- A dead letter comes first, if there is a queue for them.
abbrev pub with_letter : Option String → DeadLetter → List DeadLetter → List DeadLetter
with_letter none letter dead = dead
with_letter (some url) letter dead = letter ∷ dead

abbrev pub IsBuried : ConsumerConfig → SqsMessage → DeadLetter → Queues → Queues → Type 0
IsBuried config message letter q q' =
    IsDeleted message q q' × (q'.dead ≡ with_letter config.dlq_url letter q.dead)

-- The application refused the request, with one of its own errors.
abbrev pub IsRefusal : Fault → Type 0
IsRefusal fault = (error : ApplicationError) × (fault ≡ application_fault error)

-- Something else failed: the database, the domain's rules, or a cause that is not known.
abbrev pub IsUnrefused : Fault → Type 0
IsUnrefused fault = ¬ IsRefusal fault

refused : (fault : Fault) → is_transient fault ≡ false → IsRefusal fault
unfolding is_transient
refused (application_fault error) t = (error, refl)
refused (domain_fault _) t = cc
refused (unique_constraint _) t = cc
refused (concurrent_modification _ _) t = cc
refused transient_failure t = cc
refused unexpected t = cc

unrefused : (fault : Fault) → is_transient fault ≡ true → IsUnrefused fault
unfolding is_transient
unrefused (application_fault _) t r = cc
unrefused (domain_fault _) t (error, e) = cc
unrefused (unique_constraint _) t (error, e) = cc
unrefused (concurrent_modification _ _) t (error, e) = cc
unrefused transient_failure t (error, e) = cc
unrefused unexpected t (error, e) = cc

ack_lem :
    (host : Host) (message : SqsMessage) (q : Queues)
    → let (sent, q') = ack host message q in
      (q'.dead ≡ q.dead) × ((sent ≡ true) × IsDeleted message q q' ⊎ (sent ≡ false) × IsLeft q q')
unfolding ack
ack_lem host message q = ground arith

to_dlq_lem :
    (host : Host) (sys : System) (config : ConsumerConfig) (message : SqsMessage)
    (reason group_id : String) (q : Queues)
    → let (sent, q') = to_dlq host sys config message reason group_id q in
      (sent ≡ true) × IsBuried config message (dead_letter sys message reason group_id) q q'
      ⊎ (sent ≡ false) × IsLeft q q'
unfolding to_dlq ack
to_dlq_lem host sys config message reason group_id q = ground arith

module _ {V : Type 0} ⦃D : Decimals V⦄ (host : Host) (sys : System) (config : ConsumerConfig) where
  -- The call was committed.
  abbrev pub IsCommitted : Result Fault ProcessWagerTransactionResult × World V → World V → Type 0
  IsCommitted called w = (r : ProcessWagerTransactionResult) × (called ≡ (ok r, w))

  -- The call threw such a fault, which left the store as it was.
  abbrev pub IsThrown :
      (Fault → Type 0)
      → Result Fault ProcessWagerTransactionResult × World V
      → World V
      → World V
      → Type 0
  IsThrown Why called w w' =
      (fault : Fault) × (called ≡ (err fault, w')) × Why fault × (w'.store ≡ w.store)

  -- How a message with a request ends, where `called` is what the call of the use case yields.
  abbrev pub Ended :
      SqsMessage
      → WagerMessageData
      → Result Fault ProcessWagerTransactionResult × World V
      → Site V
      → Option Handled × Site V
      → Type 0
  Ended message d called site (some Handled.acked, s) =
      IsDeleted message site.queues s.queues
      × (s.queues.dead ≡ site.queues.dead)
      × IsCommitted called s.world
  Ended message d called site (some Handled.retried, s) =
      IsLeft site.queues s.queues
      × (s.queues.dead ≡ site.queues.dead)
      × (IsCommitted called s.world ⊎ IsThrown IsUnrefused called site.world s.world)
  Ended message d called site (some Handled.dlq, s) =
      (reason : String) × IsBuried config message (dead_letter sys message reason d.wallet_id)
        site.queues s.queues
      × IsThrown IsRefusal called site.world s.world
  Ended message d called site (none, s) =
      IsLeft site.queues s.queues × IsThrown IsRefusal called site.world s.world

  -- How a message with no request ends.
  abbrev pub Dropped : SqsMessage → Site V → Option Handled × Site V → Type 0
  Dropped message site (some Handled.dlq, s) =
      (reason : String) × IsBuried config message (dead_letter sys message reason "unparseable")
        site.queues s.queues
      × (s.world ≡ site.world)
  Dropped message site (none, s) = IsLeft site.queues s.queues × (s.world ≡ site.world)
  Dropped message site _ = ⊥

  abbrev pub HandledAs :
      SqsMessage → Result String WagerMessage → Site V → Option Handled × Site V → Type 0
  HandledAs message (err error) site o = Dropped message site o
  HandledAs message (ok parsed) site o =
      Ended message parsed.content
        (execute sys (command_of sys config parsed.message_id parsed.content) site.world) site o

  module _ (message : SqsMessage) (d : WagerMessageData) (site : Site V) where
    acknowledged-Ended :
        (r : ProcessWagerTransactionResult) (w : World V) (a : Bool × Queues)
        → (a.1.dead ≡ site.queues.dead)
          × ((a.0 ≡ true) × IsDeleted message site.queues a.1
              ⊎ (a.0 ≡ false) × IsLeft site.queues a.1)
        → Ended message d (ok r, w) site (acknowledged host sys config w a)
    acknowledged-Ended r w (true, q) (dead, inl (_, gone)) = (gone, dead, (r, refl))
    acknowledged-Ended r w (true, q) (dead, inr (no_, _)) = cc
    acknowledged-Ended r w (false, q) (dead, inl (no_, _)) = cc
    acknowledged-Ended r w (false, q) (dead, inr (_, left)) = (left, dead, inl (r, refl))

    buried-Ended :
        (fault : Fault) (w : World V) (reason : String) (a : Bool × Queues)
        → IsRefusal fault
        → w.store ≡ site.world.store
        → (a.0 ≡ true)
            × IsBuried config message (dead_letter sys message reason d.wallet_id) site.queues a.1
          ⊎ (a.0 ≡ false) × IsLeft site.queues a.1
        → Ended message d (err fault, w) site (buried host sys config w a)
    buried-Ended fault w reason (true, q) t same (inl (_, gone)) =
        (reason, gone, (fault, refl, t, same))
    buried-Ended fault w reason (true, q) t same (inr (no_, _)) = cc
    buried-Ended fault w reason (false, q) t same (inl (no_, _)) = cc
    buried-Ended fault w reason (false, q) t same (inr (_, left)) = (left, (fault, refl, t, same))

    after_execute-Ended :
        (called : Result Fault ProcessWagerTransactionResult × World V)
        → After (λ _ _. Unit {0}) (λ _ w'. w'.store ≡ site.world.store) called
        → Ended message d called site (after_execute host sys config message d site.queues called)
    after_execute-Ended (ok r, w) h =
        acknowledged-Ended r w (ack host message site.queues) (ack_lem host message site.queues)
    after_execute-Ended (err fault, w) h = elim (Bool-cases (is_transient fault)) [
      | inl t ↦ rw t (refl, refl, inr (fault, refl, unrefused fault t, h))
      | inr t ↦
          let reason = "permanent: " <> host.error_text fault in
          rw t (
            buried-Ended fault w reason
              (to_dlq host sys config message reason d.wallet_id site.queues) (refused fault t) h
              (to_dlq_lem host sys config message reason d.wallet_id site.queues))
    ]

  buried-Dropped :
      (message : SqsMessage) (site : Site V) (reason : String) (a : Bool × Queues)
      → (a.0 ≡ true)
          × IsBuried config message (dead_letter sys message reason "unparseable") site.queues a.1
        ⊎ (a.0 ≡ false) × IsLeft site.queues a.1
      → Dropped message site (buried host sys config site.world a)
  buried-Dropped message site reason (true, q) (inl (_, gone)) = (reason, gone, refl)
  buried-Dropped message site reason (true, q) (inr (no_, _)) = cc
  buried-Dropped message site reason (false, q) (inl (no_, _)) = cc
  buried-Dropped message site reason (false, q) (inr (_, left)) = (left, refl)

  handle_parsed-HandledAs :
      (message : SqsMessage) (parsed : Result String WagerMessage) (site : Site V)
      → HandledAs message parsed site (handle_parsed host sys config message parsed site)
  handle_parsed-HandledAs message (err error) site =
      buried-Dropped message site ("parse_error: " <> error)
        (to_dlq host sys config message ("parse_error: " <> error) "unparseable" site.queues)
        (to_dlq_lem host sys config message ("parse_error: " <> error) "unparseable" site.queues)
  handle_parsed-HandledAs message (ok parsed) site =
      let command = command_of sys config parsed.message_id parsed.content in
      after_execute-Ended message parsed.content site (execute sys command site.world) (
        After-weaken (λ _ _ _. tt) (λ _ _ same. same) (execute sys command site.world)
          (execute-Called sys command site.world))

  -- A message leaves its queue only after the request was committed, or after it was copied to the
  -- queue of dead letters, if there is one: then its body has no request, or the application refused
  -- the request with one of its own errors and the store is as it was. In every other case the message stays: a call that threw
  -- anything else, also what is not known, left the store as it was, and a call that was committed but not acknowledged
  -- is retried. A call of SQS that throws on the way to the dead letters lets the whole batch throw,
  -- with the message still in its queue and the store as it was.
  pub handle-HandledAs :
      (message : SqsMessage) (site : Site V)
      → HandledAs message
          (host.accept (body_or message ""))
          site
          (handle host sys config message site)
  unfolding handle
  handle-HandledAs message site =
      handle_parsed-HandledAs message (host.accept (body_or message "")) site
