-- ===== src/Workers/Examples.antt =====
-- The relay starts, fires twice while one call runs, and the call ends.
use jungle_challenge.Common.{refl, arith}
use jungle_challenge.Workers.{
  all, WorkerName, Worker, asleep, on_module_init, tick, settle, Reached, at_first, followed,
  initialised, fired, ended, worker_enabled,
}
use jungle_challenge.Workers.Exclusion.{IsExclusive, IsPermitted, Reached-IsExclusive}

abbrev started : Worker
started = on_module_init all WorkerName.outbox asleep

relayed : Reached all WorkerName.outbox (settle (tick (tick started)))
unfolding on_module_init tick worker_enabled
relayed =
    followed
      (followed (followed (followed at_first (initialised asleep)) (fired started refl))
        (fired (tick started) refl))
      (ended (tick (tick started)) (omega arith))

Reached-IsExclusive_example :
    IsExclusive (settle (tick (tick started)))
    × IsPermitted all WorkerName.outbox (settle (tick (tick started)))
Reached-IsExclusive_example = Reached-IsExclusive all WorkerName.outbox relayed
