-- ===== src/Workers/Exclusion.antt =====
-- No two calls of a use case at once: src/infrastructure/workers and src/infrastructure/messaging/outbox.
use jungle_challenge.Common.{◌≡◌, ◌⊎◌, inl, inr, refl, true, false, arith}
use jungle_challenge.Workers.{
  WorkerRole, WorkerName, Worker, on_module_init, on_module_destroy, tick, settle, Step,
  initialised, fired, ticked_by_hand, ended, destroyed, Reached, at_first, followed, worker_enabled,
}

-- The flag is set exactly while one call runs, and otherwise none runs.
abbrev pub IsExclusive : Worker → Type 0
IsExclusive w = ((w.ticking ≡ true) × (w.running ≡ 1)) ⊎ ((w.ticking ≡ false) × (w.running ≡ 0))

-- The interval is only set where the role has the worker.
abbrev pub IsPermitted : WorkerRole → WorkerName → Worker → Type 0
IsPermitted role name w = (w.timer ≡ false) ⊎ (worker_enabled role name ≡ true)

Step-IsExclusive :
    (role : WorkerRole) (name : WorkerName) {w w' : Worker}
    → Step role name w w'
    → IsExclusive w × IsPermitted role name w
    → IsExclusive w' × IsPermitted role name w'
unfolding on_module_init on_module_destroy tick settle
Step-IsExclusive role name (initialised w) h = ground arith
Step-IsExclusive role name (fired w on) h = ground arith
Step-IsExclusive role name (ticked_by_hand w) h = ground arith
Step-IsExclusive role name (ended w begun) h = ground arith
Step-IsExclusive role name (destroyed w) h = ground arith

-- In whatever order the module starts and stops, the interval fires and calls end, well or badly: at most
-- one call of the use case runs at a time, the flag tells whether one does, and the interval is set only
-- where the role has the worker.
pub Reached-IsExclusive :
    (role : WorkerRole) (name : WorkerName) {w : Worker}
    → Reached role name w
    → IsExclusive w × IsPermitted role name w
Reached-IsExclusive role name at_first = (inr (refl, refl), inl refl)
Reached-IsExclusive role name (followed before step) =
    Step-IsExclusive role name step (Reached-IsExclusive role name before)
