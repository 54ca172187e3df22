-- ===== src/Ipc/Semaphore/Waiting.antt =====
-- Semaphores with waiting tasks: blocking, waking and deleting.
use orbit_rtos.Base.{
  ℕ, ◌<◌, ◌≡◌, refl, ◌∙◌, ap, false, ◌&&◌, if◌then◌else◌, none, some, List, length, contains,
  is_ref, arith,
}
use orbit_rtos.Kernel.{
  Sys, Env, ready, running, blocked, ◌is◌, semaphore, on_semaphore, success, failure,
  max_semaphores,
}
use orbit_rtos.Kernel.Lists.{ListLaws}
use orbit_rtos.Context.{context_enter_critical, context_exit_critical}
use orbit_rtos.Scheduler.Blocking.{scheduler_block_task, scheduler_unblock_task}
use orbit_rtos.Scheduler.Blocking.Placement.{IsPlaced, IsUnlisted}
use orbit_rtos.Scheduler.Blocking.Moves.{block_task_running}
use orbit_rtos.Scheduler.Switch.{scheduler_context_switch}
use orbit_rtos.Task.Table.Frames.{transport-IsUnlisted}
use orbit_rtos.Ipc.Objects.Places.{
  SamePlace, SamePlace-IsPlaced, set_prev-SamePlace, await_failed, block-ipc,
}
use orbit_rtos.Ipc.Objects.{await, set_next, set_timeout}
use orbit_rtos.Ipc.Objects.Chains.{IsChain, unblock_waiting_lem, find_index_lem}
use orbit_rtos.Ipc.Semaphore.{
  mark_semaphore, delete_found, delete_marked, semaphore_delete, semaphore_take, semaphore_give,
  enqueue, dequeue,
}

-- The waiting list of a semaphore is last in, first out: the task that began to wait last is the
-- first that leaves, without links, and what is left is the list from before. The task has not
-- been at the head already.
pub dequeue-enqueue :
    (i c : ℕ) (s : Sys)
    → is_ref (s.ipc.semaphores i).waiting_tasks c ≡ false
    → let queued = enqueue i c s in
      let s' = dequeue i c queued in
      ((queued.ipc.semaphores i).waiting_tasks ≡ some c)
      × ((s'.ipc.semaphores i).waiting_tasks ≡ (s.ipc.semaphores i).waiting_tasks)
      × ((s'.heap c).next ≡ none)
      × ((s'.heap c).prev ≡ none)
unfolding enqueue dequeue
dequeue-enqueue i c s h = ground arith

-- semaphore_give with a waiting task, on a count below the maximum, leaves the count alone: it
-- takes the first task off the waiting list, makes it ready if it is blocked, and ends with a
-- context switch from that state.
pub give_waiting :
    (e : Env) (s : Sys) (i t : ℕ)
    → (s.ipc.semaphores i).waiting_tasks ≡ some t
    → (s.ipc.semaphores i).count < (s.ipc.semaphores i).max_count
    → (s' : Sys) × (semaphore_give e (some i) s ≡ ((scheduler_context_switch e s').0, success))
      × ((s'.ipc.semaphores i).waiting_tasks ≡ (s.heap t).next)
      × ((s'.ipc.semaphores i).count ≡ (s.ipc.semaphores i).count)
      × ((s'.heap t).state ≡ (if (s.heap t).state is blocked then ready else (s.heap t).state))
      × ((s'.heap t).next ≡ none)
unfolding semaphore_give context_enter_critical context_exit_critical scheduler_unblock_task
give_waiting e s i t w h =
    let (s1, prev) = context_enter_critical s in
    (
      context_exit_critical prev (scheduler_unblock_task e (some t) (dequeue i t s1)).0,
      rw w (ground arith),
      ground arith,
      ground arith,
      ground arith,
      ground arith,
    )

-- semaphore_delete of one of the 16 semaphores, whose waiting list is the chain of the tasks `ts`,
-- ends within rounds for one more task, with success: the slot is unused, each blocked task of the
-- chain is ready, and every other task has the state it had.
pub delete-IsChain :
    (e : Env) (fuel p : ℕ) (ts : List ℕ) (s : Sys)
    → p < max_semaphores
    → IsChain s.heap (s.ipc.semaphores p).waiting_tasks ts
    → length ts < fuel
    → (s' : Sys) × (semaphore_delete e fuel (some p) s ≡ some (s', success))
      × (s'.ipc.semaphore_used p ≡ false)
      × ((u : ℕ)
          → (s'.heap u).state
            ≡ (if contains u ts && (s.heap u).state is blocked then ready else (s.heap u).state))
unfolding semaphore_delete delete_marked
delete-IsChain e fuel p ts s l chain enough =
    let (s', r, states, kept) =
      unblock_waiting_lem e fuel (s.ipc.semaphores p).waiting_tasks ts s chain enough in
    (
      mark_semaphore s' p false,
      ap (λ o. delete_found e fuel o s)
            (find_index_lem p max_semaphores 0 (omega arith) (omega arith))
          ∙ ap (delete_marked p) r,
      ground arith,
      states,
    )

-- What the critical section, the timeout and the waiting list leave of a task.
queued-SamePlace :
    (s : Sys) (i c timeout : ℕ)
    → SamePlace s (enqueue i c (set_timeout c timeout (context_enter_critical s).0)) c
unfolding enqueue context_enter_critical
queued-SamePlace s i c timeout =
    let s1 = set_timeout c timeout (context_enter_critical s).0 in
    let f =
      set_prev-SamePlace (s1.ipc.semaphores i).waiting_tasks (some c)
        (set_next (some c) (s1.ipc.semaphores i).waiting_tasks s1) c in
    record {
      state_same = ground (arith, f.state_same);
      priority_same = ground (arith, f.priority_same);
      sched_same = ground (arith, f.sched_same);
      table_same = ground (arith, f.table_same);
    }

enqueue-waiting : (i c : ℕ) (s : Sys) → ((enqueue i c s).ipc.semaphores i).waiting_tasks ≡ some c
unfolding enqueue
enqueue-waiting i c s = ground arith

take_waits :
    (e : Env) (s : Sys) (i c timeout : ℕ)
    → (s.ipc.semaphores i).count ≡ 0
    → 0 < timeout
    → s.table.current_task ≡ some c
    → let (s1, prev) = context_enter_critical s in
      semaphore_take e (some i) timeout s
      ≡ await e c prev (
          scheduler_block_task e
            (some c)
            semaphore
            (on_semaphore i)
            (enqueue i c (set_timeout c timeout s1)))
unfolding semaphore_take context_enter_critical
take_waits e s i c timeout zero_count positive cur = rw (zero_count, cur) (ground arith)

-- With memory for the lists, and a list_remove that refuses what the list does not hold,
-- semaphore_take by a running current task that is in its place and not the idle task, on a
-- semaphore with count 0 and with a timeout that is not 0, fails: the task is then BLOCKED, in no
-- list of the scheduler, and first in the semaphore's waiting list.
pub take_running :
    {e : Env} (laws : ListLaws e) (s : Sys) (i c timeout : ℕ)
    → (s.ipc.semaphores i).count ≡ 0
    → 0 < timeout
    → s.table.current_task ≡ some c
    → is_ref s.table.idle_task c ≡ false
    → IsPlaced s c
    → (s.heap c).state ≡ running
    → let (s', r) = semaphore_take e (some i) timeout s in
      (r ≡ failure)
      × ((s'.heap c).state ≡ blocked)
      × IsUnlisted s' c
      × ((s'.ipc.semaphores i).waiting_tasks ≡ some c)
unfolding context_exit_critical
take_running {e} laws s i c timeout zero_count positive cur idle v run =
    let (s1, prev) = context_enter_critical s in
    let s2 = enqueue i c (set_timeout c timeout s1) in
    let q = queued-SamePlace s i c timeout in
    let b =
      block_task_running laws s2 c semaphore (on_semaphore i) (ground (arith, q.table_same))
        (SamePlace-IsPlaced q v) (q.state_same ∙ run) in
    let m = scheduler_block_task e (some c) semaphore (on_semaphore i) s2 in
    let to_block : semaphore_take e (some i) timeout s ≡ (context_exit_critical prev m.0, failure) =
      take_waits e s i c timeout zero_count positive cur ∙ await_failed e c prev m b.0 in
    rw to_block (
      refl,
      b.1,
      transport-IsUnlisted refl b.2,
      ap (λ x. (x.semaphores i).waiting_tasks) (block-ipc e s2 c semaphore (on_semaphore i))
          ∙ enqueue-waiting i c (set_timeout c timeout s1),
    )
