-- ===== src/Ipc/Mutex.antt =====
-- src/kernel/ipc.c: mutexes, with priority inheritance.
-- The source reads the owner of a locked mutex without a test; a locked mutex without an owner is
-- taken to have none to boost.
pub mod Handover
pub mod Exclusion
pub mod Waiting
pub mod Waits
use orbit_rtos.Base.{
  ℕ, ◌-◌, zero, suc, Bool, true, false, ◌==◌, ◌&&◌, not, ltb, if◌then◌else◌, Option, none, some,
  List, update, is_ref, is_some, take,
}
use orbit_rtos.Kernel.{
  Sys, Env, Task, Ipc, Mutex, BlockReason, mutex, is_no_reason, on_mutex, Status, success, failure,
  set_task, max_semaphores, max_task_name_len,
}
use orbit_rtos.Context.{context_enter_critical, context_exit_critical}
use orbit_rtos.Scheduler.Blocking.{scheduler_block_task, scheduler_unblock_task}
use orbit_rtos.Scheduler.Switch.{scheduler_context_switch}
use orbit_rtos.Task.Control.{task_set_priority}
use orbit_rtos.Ipc.Objects.{
  set_ipc, find_free, find_index, set_prev, set_next, unblock_waiting, set_timeout, unlink,
}

abbrev pub set_mutex : Sys → ℕ → Mutex → Sys
set_mutex s i v = set_ipc s (record (s.ipc) { mutexes = update s.ipc.mutexes i v })

abbrev pub mark_mutex : Sys → ℕ → Bool → Sys
mark_mutex s i b = set_ipc s (record (s.ipc) { mutex_used = update s.ipc.mutex_used i b })

abbrev pub set_waiting : Sys → ℕ → Option ℕ → Sys
set_waiting s i o = set_mutex s i (record (s.ipc.mutexes i) { waiting_tasks = o })

-- The initialisation of the slot that was found.
abbrev pub init_mutex : List ℕ → Option ℕ → Sys → Sys × Option ℕ
init_mutex name none s = (s, none)
init_mutex name (some i) s = (
  mark_mutex
      (set_mutex s i (record {
        locked = false;
        owner = none;
        waiting_tasks = none;
        name = take (max_task_name_len - 1) name;
      }))
      i true,
  some i,
)

unfoldable pub mutex_create : Option (List ℕ) → Sys → Sys × Option ℕ
mutex_create none s = (s, none)
mutex_create (some name) s = init_mutex name (find_free s.ipc.mutex_used max_semaphores 0) s

-- The owner gets its original priority back, if it has another one.
unfoldable pub restore_priority : Env → Option ℕ → Sys → Sys
restore_priority e none s = s
restore_priority e (some o) s =
    if (s.heap o).priority == (s.heap o).original_priority
    then s
    else (task_set_priority e (some o) (s.heap o).original_priority s).0

-- What follows the loop over the waiting tasks, if that ends.
unfoldable pub mark_deleted : ℕ → Option Sys → Option (Sys × Status)
mark_deleted i none = none
mark_deleted i (some s) = some (mark_mutex s i false, success)

unfoldable pub delete_indexed : Env → (fuel : ℕ) → Option ℕ → Sys → Option (Sys × Status)
unfolding restore_priority mark_deleted
delete_indexed e fuel none s = some (s, failure)
delete_indexed e fuel (some i) s =
    let m = s.ipc.mutexes i in
    let s' = if m.locked then restore_priority e m.owner s else s in
    mark_deleted i (unblock_waiting e fuel (s'.ipc.mutexes i).waiting_tasks s')

-- Nothing if the loop over the waiting tasks takes `fuel` rounds or more.
unfoldable pub mutex_delete : Env → (fuel : ℕ) → Option ℕ → Sys → Option (Sys × Status)
unfolding delete_indexed
mutex_delete e fuel none s = some (s, failure)
mutex_delete e fuel (some p) s = delete_indexed e fuel (find_index p max_semaphores 0) s

-- Priority inheritance: the owner is boosted to the priority of `c`, if that is higher.
unfoldable pub boost : Env → ℕ → Option ℕ → Sys → Sys
boost e c none s = s
boost e c (some o) s =
    if ltb (s.heap c).priority (s.heap o).priority
    then (task_set_priority e (some o) (s.heap c).priority s).0
    else s

-- The task goes to the front of the waiting list.
unfoldable pub join : ℕ → ℕ → Sys → Sys
join i c s =
    let first = (s.ipc.mutexes i).waiting_tasks in
    set_waiting (set_prev first (some c) (set_next (some c) first s)) i (some c)

-- The links around `t` after a timeout: the list's head changes only if it is `t`.
unfoldable pub unlink_timed_out : ℕ → ℕ → Option ℕ → Sys → Sys
unlink_timed_out i t (some p) s = set_next (some p) (s.heap t).next s
unlink_timed_out i t none s =
    if is_ref (s.ipc.mutexes i).waiting_tasks t then set_waiting s i (s.heap t).next else s

unfoldable pub leave_waiting : ℕ → ℕ → Sys → Sys
unfolding unlink_timed_out
leave_waiting i t s =
    let s1 = unlink_timed_out i t (s.heap t).prev s in
    let s2 = set_prev (s1.heap t).next (s1.heap t).prev s1 in
    set_prev (some t) none (set_next (some t) none s2)

-- What follows scheduler_block_task. A task that comes back with a block reason has timed out.
unfoldable pub await_mutex : Env → ℕ → ℕ → ℕ → Sys × Status → Sys × Status
unfolding leave_waiting
await_mutex e i c prev (s, failure) = (context_exit_critical prev s, failure)
await_mutex e i c prev (s, success) =
    let s' = (scheduler_context_switch e (context_exit_critical prev s)).0 in
    let (inside, again) = context_enter_critical s' in
    if is_no_reason (s'.heap c).block_reason
    then (s', success)
    else (context_exit_critical again (leave_waiting i c inside), failure)

unfoldable pub wait_mutex : Env → ℕ → ℕ → ℕ → ℕ → Sys → Sys × Status
unfolding boost join await_mutex
wait_mutex e i timeout prev c s = await_mutex e i c prev (
    scheduler_block_task e (some c) mutex (on_mutex i)
      (join i c (set_timeout c timeout (boost e c (s.ipc.mutexes i).owner s))))

-- In the critical section, by the current task.
unfoldable pub lock_by : Env → ℕ → ℕ → ℕ → Option ℕ → Sys → Sys × Status
unfolding wait_mutex
lock_by e i timeout prev none s = (context_exit_critical prev s, failure)
lock_by e i timeout prev (some c) s =
    let m = s.ipc.mutexes i in
    if m.locked && is_ref m.owner c
    then (context_exit_critical prev s, failure)
    else if not m.locked
    then (
      context_exit_critical prev (set_mutex s i (record m { locked = true; owner = some c })),
      success,
    )
    else if timeout == 0
    then (context_exit_critical prev s, failure)
    else wait_mutex e i timeout prev c s

unfoldable pub mutex_lock : Env → Option ℕ → (timeout : ℕ) → Sys → Sys × Status
unfolding lock_by
mutex_lock e none timeout s = (s, failure)
mutex_lock e (some i) timeout s =
    let (s', prev) = context_enter_critical s in lock_by e i timeout prev s'.table.current_task s'

-- The loop for the waiting task of the highest priority, from a pointer on and with the best one so
-- far; nothing if `fuel` rounds are not enough.
unfoldable pub highest_waiting : (heap : ℕ → Task) → (fuel : ℕ) → Option ℕ → ℕ → Option ℕ
highest_waiting heap zero o best = none
highest_waiting heap (suc fuel) none best = some best
highest_waiting heap (suc fuel) (some t) best =
    highest_waiting heap fuel (heap t).next
      (if ltb (heap t).priority (heap best).priority then t else best)

-- The waiting task leaves the list and becomes the owner.
unfoldable pub pass_to : ℕ → ℕ → Sys → Sys
unfolding unlink
pass_to i t s =
    let s' = unlink (λ s o. set_waiting s i o) t s in
    set_mutex s' i (record (s'.ipc.mutexes i) { owner = some t })

-- The waiting task that was found is woken.
unfoldable pub wake_owner : Env → ℕ → ℕ → Option ℕ → Sys → Option (Sys × Status)
unfolding pass_to
wake_owner e i prev none s = none
wake_owner e i prev (some t) s =
    let s' = (scheduler_unblock_task e (some t) (pass_to i t s)).0 in
    some ((scheduler_context_switch e (context_exit_critical prev s')).0, success)

-- From the test of the waiting list on.
unfoldable pub release_mutex : Env → (fuel : ℕ) → ℕ → ℕ → Option ℕ → Sys → Option (Sys × Status)
unfolding wake_owner
release_mutex e fuel i prev none s = some (
  context_exit_critical prev
      (set_mutex s i (record (s.ipc.mutexes i) { locked = false; owner = none })),
  success,
)
release_mutex e fuel i prev (some t) s =
    wake_owner e i prev (highest_waiting s.heap fuel (s.heap t).next t) s

unfoldable pub unlock_by : Env → (fuel : ℕ) → ℕ → ℕ → Option ℕ → Sys → Option (Sys × Status)
unfolding release_mutex restore_priority
unlock_by e fuel i prev none s = some (context_exit_critical prev s, failure)
unlock_by e fuel i prev (some c) s =
    let m = s.ipc.mutexes i in
    if not m.locked
    then some (context_exit_critical prev s, failure)
    else if not (is_ref m.owner c)
    then some (context_exit_critical prev s, failure)
    else (let s' = restore_priority e (some c) s in
        release_mutex e fuel i prev (s'.ipc.mutexes i).waiting_tasks s')

unfoldable pub mutex_unlock : Env → (fuel : ℕ) → Option ℕ → Sys → Option (Sys × Status)
unfolding unlock_by
mutex_unlock e fuel none s = some (s, failure)
mutex_unlock e fuel (some i) s =
    let (s', prev) = context_enter_critical s in unlock_by e fuel i prev s'.table.current_task s'

-- 1 or 0, or -1 for NULL.
unfoldable pub mutex_is_locked : Option ℕ → Sys → Sys × Option Bool
mutex_is_locked none s = (s, none)
mutex_is_locked (some i) s =
    let (s', prev) = context_enter_critical s in
    (context_exit_critical prev s', some ((s'.ipc.mutexes i).locked))
