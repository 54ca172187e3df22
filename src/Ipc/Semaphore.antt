-- ===== src/Ipc/Semaphore.antt =====
-- src/kernel/ipc.c: counting semaphores.
pub mod Counting
pub mod Waiting
pub mod Bounds
use orbit_rtos.Base.{
  ℕ, ◌+◌, ◌-◌, Bool, true, false, ◌==◌, ◌||◌, ltb, leb, if◌then◌else◌, Option, none, some, List,
  update, add32, take,
}
use orbit_rtos.Kernel.{
  Sys, Env, Task, Ipc, Semaphore, BlockReason, semaphore, is_no_reason, on_semaphore, Status,
  success, failure, set_task, max_semaphores, max_task_name_len, max_timeout,
}
use orbit_rtos.Context.{context_enter_critical, context_exit_critical}
use orbit_rtos.Scheduler.Blocking.{scheduler_block_task, scheduler_unblock_task}
use orbit_rtos.Scheduler.Switch.{scheduler_context_switch}
use orbit_rtos.Ipc.Objects.{
  set_ipc, find_free, find_index, set_prev, set_next, unblock_waiting, set_timeout, await,
}

abbrev pub set_semaphore : Sys → ℕ → Semaphore → Sys
set_semaphore s i v = set_ipc s (record (s.ipc) { semaphores = update s.ipc.semaphores i v })

abbrev pub mark_semaphore : Sys → ℕ → Bool → Sys
mark_semaphore s i b =
    set_ipc s (record (s.ipc) { semaphore_used = update s.ipc.semaphore_used i b })

-- The initialisation of the slot that was found.
abbrev pub init_semaphore : List ℕ → (initial_count max_count : ℕ) → Option ℕ → Sys → Sys × Option ℕ
init_semaphore name initial max none s = (s, none)
init_semaphore name initial max (some i) s = (
  mark_semaphore
      (set_semaphore s i (record {
        count = initial;
        max_count = max;
        waiting_tasks = none;
        name = take (max_task_name_len - 1) name;
      }))
      i true,
  some i,
)

unfoldable pub semaphore_create :
    Option (List ℕ) → (initial_count max_count : ℕ) → Sys → Sys × Option ℕ
semaphore_create none initial max s = (s, none)
semaphore_create (some name) initial max s =
    if max == 0 || ltb max initial
    then (s, none)
    else init_semaphore name initial max (find_free s.ipc.semaphore_used max_semaphores 0) s

-- What follows the loop over the waiting tasks, if that ends.
unfoldable pub delete_marked : ℕ → Option Sys → Option (Sys × Status)
delete_marked i none = none
delete_marked i (some s) = some (mark_semaphore s i false, success)

abbrev pub delete_found : Env → (fuel : ℕ) → Option ℕ → Sys → Option (Sys × Status)
delete_found e fuel none s = some (s, failure)
delete_found e fuel (some i) s =
    delete_marked i (unblock_waiting e fuel (s.ipc.semaphores i).waiting_tasks s)

-- Nothing if the loop over the waiting tasks takes `fuel` rounds or more.
unfoldable pub semaphore_delete : Env → (fuel : ℕ) → Option ℕ → Sys → Option (Sys × Status)
semaphore_delete e fuel none s = some (s, failure)
semaphore_delete e fuel (some p) s = delete_found e fuel (find_index p max_semaphores 0) s

-- The current task goes to the front of the waiting list.
unfoldable pub enqueue : ℕ → ℕ → Sys → Sys
enqueue i c s =
    let first = (s.ipc.semaphores i).waiting_tasks in
    let s' = set_prev first (some c) (set_next (some c) first s) in
    set_semaphore s' i (record (s'.ipc.semaphores i) { waiting_tasks = some c })

unfoldable pub wait_semaphore : Env → ℕ → ℕ → ℕ → Option ℕ → Sys → Sys × Status
unfolding enqueue await
wait_semaphore e i timeout prev none s = (context_exit_critical prev s, failure)
wait_semaphore e i timeout prev (some c) s = await e c prev (
    scheduler_block_task e (some c) semaphore (on_semaphore i)
      (enqueue i c (set_timeout c timeout s)))

unfoldable pub semaphore_take : Env → Option ℕ → (timeout : ℕ) → Sys → Sys × Status
unfolding wait_semaphore
semaphore_take e none timeout s = (s, failure)
semaphore_take e (some i) timeout s =
    let (s', prev) = context_enter_critical s in
    let sem = s'.ipc.semaphores i in
    if ltb 0 sem.count
    then (
      context_exit_critical prev (set_semaphore s' i (record sem { count = sem.count - 1 })),
      success,
    )
    else if timeout == 0
    then (context_exit_critical prev s', failure)
    else wait_semaphore e i timeout prev s'.table.current_task s'

-- The first waiting task leaves the waiting list.
unfoldable pub dequeue : ℕ → ℕ → Sys → Sys
dequeue i t s =
    let after = (s.heap t).next in
    let s' = set_semaphore s i (record (s.ipc.semaphores i) { waiting_tasks = after }) in
    set_prev (some t) none (set_next (some t) none (set_prev after none s'))

-- Waking the first waiting task, or counting up.
unfoldable pub give_to : Env → ℕ → ℕ → Option ℕ → Sys → Sys × Status
unfolding dequeue
give_to e i prev none s =
    let sem = s.ipc.semaphores i in
    (
      context_exit_critical prev (set_semaphore s i (record sem { count = add32 sem.count 1 })),
      success,
    )
give_to e i prev (some t) s =
    let s' = (scheduler_unblock_task e (some t) (dequeue i t s)).0 in
    ((scheduler_context_switch e (context_exit_critical prev s')).0, success)

unfoldable pub semaphore_give : Env → Option ℕ → Sys → Sys × Status
unfolding give_to
semaphore_give e none s = (s, failure)
semaphore_give e (some i) s =
    let (s', prev) = context_enter_critical s in
    let sem = s'.ipc.semaphores i in
    if leb sem.max_count sem.count
    then (context_exit_critical prev s', failure)
    else give_to e i prev sem.waiting_tasks s'

-- The critical section that is entered and left again, and the count.
unfoldable pub semaphore_get_count : Option ℕ → Sys → Sys × ℕ
semaphore_get_count none s = (s, 0)
semaphore_get_count (some i) s =
    let (s', prev) = context_enter_critical s in
    (context_exit_critical prev s', (s'.ipc.semaphores i).count)
