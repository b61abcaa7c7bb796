-- ===== src/Workers.antt =====
-- The two workers: src/infrastructure/workers/pending-reference.worker.ts and
-- src/infrastructure/messaging/outbox/outbox-relay.worker.ts, which differ in the use case that they call,
-- with workerEnabled of src/config/app-config.ts. A step is what runs without a pause: up to the call of
-- the use case, and from its end on.
pub mod Exclusion
mod Examples
use jungle_challenge.Common.{
  ℕ, ◌+◌, ◌-◌, ◌≤◌, ◌≡◌, Bool, true, false, not, ◌||◌, Result, ok, err, if◌then◌else◌,
}

pub data WorkerName : Type 0 where
  consumer outbox pending_reference : WorkerName

-- `WORKER`: every worker, one of them, or none.
pub data WorkerRole : Type 0 where
  all api : WorkerRole
  only : WorkerName → WorkerRole

abbrev same_worker : WorkerName → WorkerName → Bool
same_worker WorkerName.consumer WorkerName.consumer = true
same_worker WorkerName.outbox WorkerName.outbox = true
same_worker WorkerName.pending_reference WorkerName.pending_reference = true
same_worker _ _ = false

unfoldable pub worker_enabled : WorkerRole → WorkerName → Bool
worker_enabled all name = true
worker_enabled api name = false
worker_enabled (only worker) name = same_worker worker name

pub record Worker : Type 0 where
  -- the interval is set
  pub timer : Bool
  pub ticking : Bool
  -- how many calls of the use case have begun and not ended
  pub running : ℕ

abbrev pub asleep : Worker
asleep = record { timer = false; ticking = false; running = 0 }

unfoldable pub on_module_init : WorkerRole → WorkerName → Worker → Worker
on_module_init role name w = if not (worker_enabled role name) then w else record w { timer = true }

unfoldable pub on_module_destroy : Worker → Worker
on_module_destroy w = record w { timer = false }

-- `tick`, up to the call
unfoldable pub tick : Worker → Worker
tick w = if w.ticking then w else record w { ticking = true; running = w.running + 1 }

-- `finally`, after the call returned or threw
unfoldable pub settle : Worker → Worker
settle w = record w { ticking = false; running = w.running - 1 }

-- What may come next, in any order.
pub data Step (role : WorkerRole) (name : WorkerName) : Worker → Worker → Type 0 where
  initialised : (w : Worker) → Step role name w (on_module_init role name w)
  fired : (w : Worker) → w.timer ≡ true → Step role name w (tick w)
  ticked_by_hand : (w : Worker) → Step role name w (tick w)
  ended : (w : Worker) → 1 ≤ w.running → Step role name w (settle w)
  destroyed : (w : Worker) → Step role name w (on_module_destroy w)

pub data Reached (role : WorkerRole) (name : WorkerName) : Worker → Type 0 where
  at_first : Reached role name asleep
  followed : {w w' : Worker} → Reached role name w → Step role name w w' → Reached role name w'
