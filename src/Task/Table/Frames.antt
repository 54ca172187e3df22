-- ===== src/Task/Table/Frames.antt =====
-- What the parts of task_create and task_delete leave alone.
use orbit_rtos.Base.{ℕ, zero, suc, ◌+◌, ◌≡◌, refl, ap, some, arith}
use orbit_rtos.Kernel.{Sys, Env, TaskState, running}
use orbit_rtos.Scheduler.Blocking.{
  scheduler_add_task, scheduler_remove_task, append_by_state, remove_by_state, count_created,
  count_deleted,
}
use orbit_rtos.Scheduler.Blocking.Placement.{IsPlaced, IsUnlisted}
use orbit_rtos.Task.Table.{store_task, clear_task}

-- The loops over the slots change the table alone.
pub store_task-frame :
    (t k i : ℕ) (s : Sys)
    → (store_task t k i s).heap ≡ s.heap × ((store_task t k i s).sched ≡ s.sched)
unfolding store_task
store_task-frame t zero i s = (refl, refl)
store_task-frame t (suc k) i s = ground (arith, store_task-frame t k (i + 1) s)

pub clear_task-frame :
    (t k i : ℕ) (s : Sys)
    → (clear_task t k i s).heap ≡ s.heap × ((clear_task t k i s).sched ≡ s.sched)
unfolding clear_task
clear_task-frame t zero i s = (refl, refl)
clear_task-frame t (suc k) i s = ground (arith, clear_task-frame t k (i + 1) s)

-- The scheduler changes no task when it adds or removes one.
append_by_state-frame :
    (e : Env) (st : TaskState) (t : ℕ) (s : Sys)
    → ((append_by_state e st t s).0.heap ≡ s.heap) × ((append_by_state e st t s).0.table ≡ s.table)
unfolding append_by_state
append_by_state-frame e running t s = (refl, refl)
append_by_state-frame e st t s = (refl, refl)

pub add_task-frame :
    (e : Env) (t : ℕ) (s : Sys)
    → ((scheduler_add_task e (some t) s).0.heap ≡ s.heap)
      × ((scheduler_add_task e (some t) s).0.table ≡ s.table)
unfolding scheduler_add_task count_created
add_task-frame e t s = ground (arith, append_by_state-frame e (s.heap t).state t s)

remove_by_state-frame :
    (e : Env) (st : TaskState) (t : ℕ) (s : Sys)
    → ((remove_by_state e st t s).0.heap ≡ s.heap) × ((remove_by_state e st t s).0.table ≡ s.table)
unfolding remove_by_state
remove_by_state-frame e running t s = (refl, refl)
remove_by_state-frame e st t s = (refl, refl)

pub remove_task-frame :
    (e : Env) (t : ℕ) (s : Sys)
    → ((scheduler_remove_task e (some t) s).0.heap ≡ s.heap)
      × ((scheduler_remove_task e (some t) s).0.table ≡ s.table)
unfolding scheduler_remove_task count_deleted
remove_task-frame e t s = ground (arith, remove_by_state-frame e (s.heap t).state t s)

-- Placement looks at the heap and the scheduler only.
pub transport-IsPlaced :
    {s s' : Sys} {u : ℕ} → s'.heap ≡ s.heap → s'.sched ≡ s.sched → IsPlaced s u → IsPlaced s' u
transport-IsPlaced {u} h q v = record {
  in_ready = λ p. ground (arith, v.in_ready p, ap (λ x. x.ready_lists p) q, ap (λ x. x u) h);
  in_blocked = ground (arith, ap (λ x. x u) h);
  in_suspended = ground (arith, ap (λ x. x u) h);
}

pub transport-IsUnlisted :
    {s s' : Sys} {u : ℕ} → s'.sched ≡ s.sched → IsUnlisted s u → IsUnlisted s' u
transport-IsUnlisted q v = record {
  in_ready = λ p. ground (arith, v.in_ready p, ap (λ x. x.ready_lists p) q);
  in_blocked = ground arith;
  in_suspended = ground arith;
}
