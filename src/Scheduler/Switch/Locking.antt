-- ===== src/Scheduler/Switch/Locking.antt =====
-- scheduler_lock and scheduler_unlock nest, and a locked scheduler does not switch.
use orbit_rtos.Base.{ℕ, ◌+◌, ◌<◌, ◌≡◌, u32_mod, arith, if◌then◌else◌, ◌==◌}
use orbit_rtos.Kernel.{Sys, Env, success, active, return_success}
use orbit_rtos.Context.{context_enter_critical, context_exit_critical}
use orbit_rtos.Context.Critical.{IsNested}
use orbit_rtos.Scheduler.Switch.{
  scheduler_context_switch, scheduler_lock, scheduler_unlock, release_lock, set_lock,
}

-- A context switch does nothing while the scheduler is active and locked.
pub context_switch_locked :
    (e : Env) (s : Sys)
    → s.sched.scheduler_state ≡ active
    → 0 < s.sched.lock_count
    → scheduler_context_switch e s ≡ (s, success)
unfolding scheduler_context_switch
context_switch_locked e s run locked = ground arith

-- With room in both counters scheduler_lock adds one to its own.
lock_lem :
    (s : Sys)
    → IsNested s
    → s.sched.lock_count + 1 < u32_mod
    → scheduler_lock s ≡ (set_lock s (s.sched.lock_count + 1), success)
unfolding scheduler_lock context_enter_critical context_exit_critical
lock_lem s v room = ground arith

-- What the critical section of scheduler_unlock leaves behind.
released :
    (s : Sys) (n : ℕ)
    → IsNested s
    → let (s', prev) = context_enter_critical (set_lock s (n + 1)) in
      context_exit_critical prev (release_lock s') ≡ set_lock s n
unfolding context_enter_critical context_exit_critical release_lock
released s n v = ground arith

released_count :
    (s : Sys) (n : ℕ)
    → (release_lock (context_enter_critical (set_lock s (n + 1))).0).sched.lock_count ≡ n
unfolding context_enter_critical release_lock
released_count s n = ground arith

unlock_lem :
    (e : Env) (s : Sys) (n : ℕ)
    → IsNested s
    → scheduler_unlock e (set_lock s (n + 1)) ≡ (
        if n == 0
        then return_success (scheduler_context_switch e (set_lock s n))
        else (set_lock s n, success))
unfolding scheduler_unlock
unlock_lem e s n v = rw (released s n v, released_count s n)

-- Locks nest: scheduler_unlock undoes scheduler_lock. The outermost one then runs the context
-- switch that was put off, and any other leaves the state as it was before the lock. The critical
-- section is nested properly, and the lock counter and the critical section counter have room for
-- one more.
pub unlock-lock :
    (e : Env) (s : Sys)
    → IsNested s
    → s.sched.lock_count + 1 < u32_mod
    → scheduler_unlock e (scheduler_lock s).0 ≡ (
        if s.sched.lock_count == 0
        then return_success (scheduler_context_switch e s)
        else (s, success))
unlock-lock e s v room = rw (lock_lem s v room) (unlock_lem e s s.sched.lock_count v)
