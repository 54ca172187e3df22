-- ===== src/Tests.antt =====
-- The theorems at a concrete scheduler.
pub mod Samples
pub mod Tasks
pub mod Semaphores
pub mod Mutexes
pub mod Queues
pub mod Events
pub mod Turns
pub mod Satellites
pub mod Arithmetic
pub mod Starts
pub mod Sequences
use orbit_rtos.Base.{
  ◌⊎◌, ◌≢◌, ◌&&◌, ℕ, ◌+◌, ◌%◌, ◌<◌, ◌≡◌, refl, ◌≢◌, ◌⊎◌, inl, inr, Bool, true, false, ◌||◌, ◌==◌,
  if◌then◌else◌, Option, none, some, List, [], ◌∷◌, ◌++◌, count, contains, erase, is_ref, arith,
}
use orbit_rtos.Kernel.{
  Sys, Env, Task, TaskState, ready, running, blocked, suspended, terminated, ◌is◌, semaphore, null,
  Status, success, failure, Policy, by_priority, round_robin, edf, rms, other, active, stopped,
  max_priority_levels, set_ready, return_success, set_task,
}
use orbit_rtos.Context.{context_enter_critical, context_exit_critical}
use orbit_rtos.Context.Critical.{exit-enter}
use orbit_rtos.Scheduler.Select.{
  count_invocation, scheduler_get_next_task, keeps_current, or_idle, select, highest_ready,
  first_ready, earliest_ready, edf_lists, edf_list,
}
use orbit_rtos.Scheduler.Select.Choice.{IsHighest, Highest, Earliest}
use orbit_rtos.Scheduler.Select.Policies.{
  OrIdle, get_next_task_priority, get_next_task_edf, get_next_task_round_robin, rotated,
  get_next_task_locked,
}
use orbit_rtos.Scheduler.Blocking.{
  scheduler_add_task, scheduler_remove_task, scheduler_block_task, scheduler_unblock_task,
  scheduler_update_task_state,
}
use orbit_rtos.Scheduler.Blocking.Placement.{IsPlaced, IsUnlisted}
use orbit_rtos.Scheduler.Blocking.Update.{CannotMove, update_task_state-outcomes}
use orbit_rtos.Scheduler.Switch.{
  handover, scheduler_context_switch, scheduler_init, scheduler_start, started, Start,
  scheduler_lock, scheduler_unlock,
}
use orbit_rtos.Scheduler.Switch.Running.{IsConsistent, handover-IsConsistent}
use orbit_rtos.Scheduler.Switch.Rely.{context_switch-IsConsistent}
use orbit_rtos.Scheduler.Switch.Locking.{unlock-lock}
use orbit_rtos.Scheduler.Switch.Boot.{scheduler_init_lem, start_leaves_listed}
use orbit_rtos.Scheduler.Tick.{
  wake_one, wake_delayed, release_slot, release_periodic, scheduler_tick, scheduler_check_deadlines,
  scheduler_set_policy, scheduler_get_policy, is_expired,
}
use orbit_rtos.Scheduler.Tick.Consistency.{tick-IsConsistent}
use orbit_rtos.Scheduler.Tick.Wake.{wake_delayed-state}
use orbit_rtos.Scheduler.Tick.Deadlines.{late, check_deadlines-late, get_policy-set_policy}
use orbit_rtos.Tests.Samples.{
  env, env-ListOutcomes, env-Rely, sample, lists, sample-IsPlaced, sample-IsConsistent,
  sample-IsNested, new-IsUnlisted, tasks, in_state,
}

abbrev with_policy : Policy → Sys
with_policy p = record sample { sched = record (sample.sched) { current_policy = p } }

-- Runs.
next_by_priority : (scheduler_get_next_task env sample).1 ≡ some 2
unfolding scheduler_get_next_task keeps_current count_invocation or_idle select highest_ready
    first_ready
next_by_priority = refl

next_by_deadline : (scheduler_get_next_task env (with_policy edf)).1 ≡ some 3
unfolding scheduler_get_next_task keeps_current count_invocation or_idle select earliest_ready
    edf_lists edf_list
next_by_deadline = refl

ticked : (scheduler_tick env sample).1 ≡ 1
unfolding scheduler_tick release_periodic release_slot wake_delayed wake_one scheduler_unblock_task
    contains
ticked = refl

-- The theorems.
context_switch-IsConsistent_example : IsConsistent (scheduler_context_switch env sample).0
context_switch-IsConsistent_example =
    context_switch-IsConsistent env env-Rely sample sample-IsConsistent

tick-IsConsistent_example : IsConsistent (scheduler_tick env sample).0
tick-IsConsistent_example = tick-IsConsistent env env-Rely sample sample-IsConsistent

get_next_task_priority_example :
    let (s', r) = scheduler_get_next_task env sample in
    (s' ≡ count_invocation sample) × OrIdle (Highest lists) sample r
get_next_task_priority_example = get_next_task_priority env sample refl (inl refl)

get_next_task_edf_example :
    let (s', r) = scheduler_get_next_task env (with_policy edf) in
    (s' ≡ count_invocation (with_policy edf)) × OrIdle (Earliest tasks lists) (with_policy edf) r
get_next_task_edf_example = get_next_task_edf env (with_policy edf) refl refl

get_next_task_round_robin_example :
    let (s', r) = scheduler_get_next_task env (with_policy round_robin) in
    (((p : ℕ) → p < max_priority_levels → lists p ≡ [])
      × (s' ≡ count_invocation (with_policy round_robin))
      × (r ≡ some 9))
    ⊎ ((q : ℕ) × (t : ℕ) × (h : IsHighest lists q t) × (s'
          ≡ set_ready (count_invocation (with_policy round_robin)) q (rotated env (t ∷ h.rest) t))
        × (r ≡ some t))
get_next_task_round_robin_example =
    get_next_task_round_robin env (with_policy round_robin) refl refl

abbrev locked : Sys
locked = record sample { sched = record (sample.sched) { lock_count = 1 } }

update_task_state-outcomes_example :
    let (s', r) = scheduler_update_task_state env (some 2) suspended sample in
    (r ≡ success → IsPlaced s' 2 × ((s'.heap 2).state ≡ suspended))
    × (r ≡ failure
        → (IsPlaced s' 2 ⊎ (((s'.heap 2).state ≡ suspended) × IsUnlisted s' 2))
          × CannotMove env sample 2 suspended)
    × ((u : ℕ) → u ≢ 2 → IsPlaced sample u → IsPlaced s' u)
update_task_state-outcomes_example =
    update_task_state-outcomes env-ListOutcomes sample 2 suspended (sample-IsPlaced 2)

unlock-lock_example : scheduler_unlock env (scheduler_lock locked).0 ≡ (locked, success)
unlock-lock_example =
    unlock-lock env locked (record { has_room = omega arith; masked = λ h. absurd (omega arith) })
      (omega arith)

abbrev at_rest : Sys
at_rest = record sample { sched = record (sample.sched) { scheduler_state = stopped } }

second-IsHighest : IsHighest lists 3 2
second-IsHighest = record {
  rest = 3 ∷ [];
  in_range = omega arith;
  at_head = refl;
  above = λ p h. ground arith;
}

start_leaves_listed_example :
    (s' : Sys) × (scheduler_start env at_rest ≡ started s')
    × ((s'.heap 2).state ≡ running)
    × (s'.table.current_task ≡ some 2)
    × (s'.sched.scheduler_state ≡ active)
    × (contains 2 (s'.sched.ready_lists 3) ≡ true)
    × (s'.ipc ≡ at_rest.ipc)
    × (s'.memory ≡ at_rest.memory)
start_leaves_listed_example =
    start_leaves_listed env at_rest 3 2 refl refl (inl refl) second-IsHighest

wake_delayed-state_example :
    ((wake_delayed env (4 ∷ []) (sample, 0)).0.heap 4).state
    ≡ (if contains 4 (4 ∷ []) && is_expired sample 4 && blocked is blocked then ready else blocked)
wake_delayed-state_example = wake_delayed-state env 4 (4 ∷ []) (sample, 0)

check_deadlines-late_example :
    let (s', n) = scheduler_check_deadlines sample in
    (n ≡ late sample 32 0)
    × (s'.sched.stats.deadline_misses ≡ (0 + n) % 4294967296)
    × (s'.sched.ready_lists ≡ lists)
check_deadlines-late_example = check_deadlines-late sample (omega arith)
