-- ===== src/Scheduler/Tick/Wake.antt =====
-- The tick wakes the tasks whose delay has expired, and no others.
use orbit_rtos.Base.{◌&&◌, ◌==◌, if◌then◌else◌, ℕ, ◌≡◌, refl, false, List, [], ◌∷◌, contains, arith}
use orbit_rtos.Kernel.{Env, ready, blocked, ◌is◌}
use orbit_rtos.Scheduler.Blocking.{scheduler_unblock_task}
use orbit_rtos.Scheduler.Tick.{Round, is_expired, wake_one, wake_delayed}

-- One round of the loop: the state of a task, and whether its delay has expired.
wake_one-state :
    (e : Env) (t u : ℕ) (x : Round)
    → let woken = t == u && is_expired x.0 u && (x.0.heap u).state is blocked in
      (((wake_one e t x).0.heap u).state ≡ (if woken then ready else (x.0.heap u).state))
      × (is_expired (wake_one e t x).0 u ≡ (if woken then false else is_expired x.0 u))
unfolding wake_one scheduler_unblock_task
wake_one-state e t u (s, n) = (ground arith, ground arith)

-- The tick's loop over a list of tasks makes exactly those tasks of the list READY that are
-- blocked and whose delay has expired; every other task keeps its state.
pub wake_delayed-state :
    (e : Env) (u : ℕ) (ts : List ℕ) (x : Round)
    → ((wake_delayed e ts x).0.heap u).state ≡ (
        if contains u ts && is_expired x.0 u && (x.0.heap u).state is blocked
        then ready
        else (x.0.heap u).state)
unfolding wake_delayed contains
wake_delayed-state e u [] x = refl
wake_delayed-state e u (t ∷ ts) x =
    ground (arith, wake_delayed-state e u ts (wake_one e t x), wake_one-state e t u x)
