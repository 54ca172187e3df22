-- ===== src/Scheduler/Switch/Running.antt =====
-- After a context switch the idle task can run, and only the current task runs.
use orbit_rtos.Base.{
  ℕ, ◌≡◌, refl, true, ◌||◌, ◌&&◌, ◌==◌, Option, none, some, is_ref, if◌then◌else◌, arith,
}
use orbit_rtos.Kernel.{Sys, Env, ready, running, ◌is◌}
use orbit_rtos.Scheduler.Switch.{leave_current, leave, enter, count_switch, handover}

-- The idle task is ready or running, and no task but the current one is running.
pub record IsConsistent (s : Sys) : Type 0 where
  pub idle_ready :
      (i : ℕ)
      → s.table.idle_task ≡ some i
      → ((s.heap i).state is ready || (s.heap i).state is running) ≡ true
  pub only_current : (u : ℕ) → (s.heap u).state ≡ running → s.table.current_task ≡ some u

-- What `leave` does to the states and the idle task.
leave-frame :
    (e : Env) (s : Sys) (c : Option ℕ) (u : ℕ)
    → (((leave e c s).heap u).state
        ≡ (if is_ref c u && (s.heap u).state is running then ready else (s.heap u).state))
      × ((leave e c s).table ≡ s.table)
unfolding leave leave_current
leave-frame e s none u = (refl, refl)
leave-frame e s (some c) u = (ground arith, ground arith)

enter-frame :
    (e : Env) (s : Sys) (n u : ℕ)
    → (((enter e n s).heap u).state ≡ (if n == u then running else (s.heap u).state))
      × ((enter e n s).table.idle_task ≡ s.table.idle_task)
      × ((enter e n s).table.current_task ≡ some n)
unfolding enter
enter-frame e s n u = (ground arith, refl, refl)

-- Whatever the lists do, handing over from the current task to another one leaves a consistent
-- scheduler in which that task is current and running.
pub handover-IsConsistent :
    (e : Env) (s : Sys) (n : ℕ)
    → IsConsistent s
    → let s' = handover e s.table.current_task n s in
      IsConsistent s' × (s'.table.current_task ≡ some n) × ((s'.heap n).state ≡ running)
unfolding handover count_switch
handover-IsConsistent e s n v =
    let c = s.table.current_task in
    let s1 = count_switch s in
    let s2 = leave e c s1 in
    let left = leave-frame e s1 c in
    let entered = enter-frame e s2 n in
    (
      record {
        idle_ready = λ i h. ground (arith, left i, entered i, v.idle_ready i);
        only_current = λ u h. ground (arith, left u, entered u, v.only_current u);
      },
      (entered n).2,
      ground (arith, entered n),
    )
