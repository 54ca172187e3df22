-- ===== src/Scheduler/Tick/Consistency.antt =====
-- A tick keeps the scheduler consistent.
use orbit_rtos.Base.{
  ℕ, zero, suc, ◌+◌, ◌≡◌, refl, inl, inr, true, false, not, ◌&&◌, ◌==◌, ltb, leb, if◌then◌else◌,
  Option, none, some, List, [], ◌∷◌, sub32, Bool-cases, is_ref, arith, Bool,
}
use orbit_rtos.Kernel.{
  Sys, Env, Task, SchedulerStats, ready, running, blocked, suspended, ◌is◌, is_active, set_task,
  set_stats, max_tasks, is_round_robin,
}
use orbit_rtos.Scheduler.Blocking.{scheduler_unblock_task}
use orbit_rtos.Scheduler.Switch.{spend_slice}
use orbit_rtos.Scheduler.Switch.Running.{IsConsistent}
use orbit_rtos.Scheduler.Switch.Rely.{Rely, context_switch-IsConsistent}
use orbit_rtos.Scheduler.Tick.{
  Round, is_expired, wake_one, wake_delayed, add_miss, check_release, next_job, wake_suspended,
  revive, start_job, release_slot, release_periodic, switch_unlocked, count_tick, slice_tick,
  tick_rounds, scheduler_tick,
}

-- A write that keeps a task's state and priority, and a write to the statistics.
pub set_task-IsConsistent :
    (s : Sys) (t : ℕ) (v : Task)
    → v.state ≡ (s.heap t).state
    → IsConsistent s
    → IsConsistent (set_task s t v)
set_task-IsConsistent s t v st c = record {
  idle_ready = λ i h. ground (arith, c.idle_ready i);
  only_current = λ u h. ground (arith, c.only_current u);
}

set_stats-IsConsistent :
    (s : Sys) (v : SchedulerStats) → IsConsistent s → IsConsistent (set_stats s v)
set_stats-IsConsistent s v c = record { idle_ready = c.idle_ready; only_current = c.only_current }

unblock-frame :
    (e : Env) (s : Sys) (t u : ℕ)
    → let s' = (scheduler_unblock_task e (some t) s).0 in
      ((s'.heap u).state
        ≡ (if t == u && (s.heap u).state is blocked then ready else (s.heap u).state))
      × (s'.table ≡ s.table)
unfolding scheduler_unblock_task
unblock-frame e s t u = (ground arith, ground arith)

module _ (e : Env) where
  pub unblock-IsConsistent :
      (s : Sys) (t : ℕ) → IsConsistent s → IsConsistent (scheduler_unblock_task e (some t) s).0
  unblock-IsConsistent s t c = record {
    idle_ready = λ i h. ground (arith, unblock-frame e s t i, c.idle_ready i);
    only_current = λ u h. ground (arith, unblock-frame e s t u, c.only_current u);
  }

  wake_one-IsConsistent : (t : ℕ) (x : Round) → IsConsistent x.0 → IsConsistent (wake_one e t x).0
  unfolding wake_one
  wake_one-IsConsistent t (s, n) c = elim (Bool-cases (is_expired s t)) [
    | inl due ↦ rw due (unblock-IsConsistent s t c)
    | inr later ↦ rw later c
  ]

  wake_delayed-IsConsistent :
      (ts : List ℕ) (x : Round) → IsConsistent x.0 → IsConsistent (wake_delayed e ts x).0
  unfolding wake_delayed
  wake_delayed-IsConsistent [] x c = c
  wake_delayed-IsConsistent (t ∷ ts) x c =
      wake_delayed-IsConsistent ts (wake_one e t x) (wake_one-IsConsistent t x c)

  add_miss-IsConsistent : (s : Sys) (t : ℕ) → IsConsistent s → IsConsistent (add_miss t s)
  unfolding add_miss
  add_miss-IsConsistent s t c = set_stats-IsConsistent _ _ (set_task-IsConsistent s t _ refl c)

  check_release-IsConsistent : (s : Sys) (t : ℕ) → IsConsistent s → IsConsistent (check_release t s)
  unfolding check_release
  check_release-IsConsistent s t c =
      let st = (s.heap t).state in
      elim (Bool-cases
        (not (st is ready) && not (st is running) && ltb (s.heap t).absolute_deadline s.clock)) [
          | inl late ↦ rw late (add_miss-IsConsistent s t c)
          | inr fine ↦ rw fine c
        ]

  start_job-IsConsistent : (s : Sys) (t : ℕ) → IsConsistent s → IsConsistent (start_job t s)
  unfolding start_job
  start_job-IsConsistent s t c =
      set_task-IsConsistent (check_release t s) t (next_job ((check_release t s).heap t)) refl
        (check_release-IsConsistent s t c)

  wake_suspended-IsConsistent :
      (s : Sys) (t : ℕ)
      → (s.heap t).state ≡ suspended
      → IsConsistent s
      → IsConsistent (wake_suspended e t s)
  unfolding wake_suspended
  wake_suspended-IsConsistent s t h c = record {
    idle_ready = λ i h. ground (arith, c.idle_ready i);
    only_current = λ u h. ground (arith, c.only_current u);
  }

  revive-IsConsistent : (t : ℕ) (x : Round) → IsConsistent x.0 → IsConsistent (revive e t x).0
  unfolding revive
  revive-IsConsistent t (s, n) c = elim (Bool-cases ((s.heap t).state is blocked)) [
    | inl b ↦ rw b (unblock-IsConsistent s t c)
    | inr nb ↦ elim (Bool-cases ((s.heap t).state is suspended)) [
      | inl h ↦ rw (nb, h) (wake_suspended-IsConsistent s t (ground arith) c)
      | inr ns ↦ rw (nb, ns) c
    ]
  ]

  release_slot-IsConsistent :
      (o : Option ℕ) (x : Round) → IsConsistent x.0 → IsConsistent (release_slot e o x).0
  unfolding release_slot
  release_slot-IsConsistent none x c = c
  release_slot-IsConsistent (some t) (s, n) c =
      elim (Bool-cases (ltb 0 (s.heap t).period && leb (s.heap t).next_release s.clock)) [
        | inl due ↦ rw due (revive-IsConsistent t (start_job t s, n) (start_job-IsConsistent s t c))
        | inr later ↦ rw later c
      ]

  release_periodic-IsConsistent :
      (k i : ℕ) (x : Round) → IsConsistent x.0 → IsConsistent (release_periodic e k i x).0
  unfolding release_periodic
  release_periodic-IsConsistent zero i x c = c
  release_periodic-IsConsistent (suc k) i x c =
      release_periodic-IsConsistent k (i + 1) (release_slot e (x.0.table.slots i) x)
        (release_slot-IsConsistent (x.0.table.slots i) x c)

  tick_rounds-IsConsistent : (s : Sys) → IsConsistent s → IsConsistent (tick_rounds e s).0
  unfolding tick_rounds count_tick
  tick_rounds-IsConsistent s c =
      release_periodic-IsConsistent max_tasks 0
        (wake_delayed e s.sched.blocked_list (count_tick s, 0))
        (wake_delayed-IsConsistent s.sched.blocked_list (count_tick s, 0)
          (set_stats-IsConsistent s _ c))

module _ (e : Env) (rely : Rely e) where
  switch_unlocked-IsConsistent : (s : Sys) → IsConsistent s → IsConsistent (switch_unlocked e s)
  switch_unlocked-IsConsistent s c = elim (Bool-cases (s.sched.lock_count == 0)) [
    | inl free ↦ rw free (context_switch-IsConsistent e rely s c)
    | inr locked ↦ rw locked c
  ]

  switch_if-IsConsistent :
      (due : Bool) (s : Sys)
      → IsConsistent s
      → IsConsistent (if due then switch_unlocked e s else s)
  switch_if-IsConsistent true s c = switch_unlocked-IsConsistent s c
  switch_if-IsConsistent false s c = c

  slice_tick-IsConsistent :
      (o : Option ℕ) (s : Sys) → IsConsistent s → IsConsistent (slice_tick e o s)
  unfolding slice_tick spend_slice
  slice_tick-IsConsistent none s c = c
  slice_tick-IsConsistent (some t) s c =
      let spent = set_task-IsConsistent s t (spend_slice (s.heap t)) refl c in
      elim (Bool-cases
        (is_round_robin s.sched.current_policy && not (is_ref s.table.idle_task t))) [
          | inr other ↦ rw other c
          | inl counted ↦
              rw counted (switch_if-IsConsistent (sub32 (s.heap t).time_slice_count 1 == 0) _ spent)
        ]

  -- Whatever the lists do, scheduler_tick with all that it wakes, releases and switches keeps the
  -- idle task ready or running and no task but the current one running, if other tasks keep it so
  -- until a context switch comes back.
  pub tick-IsConsistent : (s : Sys) → IsConsistent s → IsConsistent (scheduler_tick e s).0
  unfolding scheduler_tick
  tick-IsConsistent s c = elim (Bool-cases (is_active s.sched.scheduler_state)) [
    | inr stop ↦ rw stop c
    | inl go ↦
        let rounds = tick_rounds-IsConsistent e s c in
        rw go (
          slice_tick-IsConsistent s.table.current_task _
            (elim (Bool-cases (ltb 0 (tick_rounds e s).1)) [
              | inl woken ↦ rw woken (switch_unlocked-IsConsistent (tick_rounds e s).0 rounds)
              | inr nobody ↦ rw nobody rounds
            ]))
  ]
