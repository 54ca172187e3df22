-- ===== src/Scheduler/Blocking.antt =====
-- src/kernel/scheduler.c: how tasks enter, leave and change the scheduler's lists.
-- Each write and each call on a list stands in the order of the source; `s ← call` goes on only if
-- the call returned 0.
pub mod Placement
pub mod Removals
pub mod Additions
pub mod Moves
pub mod Update
pub mod Lifecycle
use orbit_rtos.Base.{
  ℕ, Bool, true, false, ◌==◌, if◌then◌else◌, Option, none, some, List, is_ref, add32, not,
}
use orbit_rtos.Kernel.{
  Sys, Env, Task, TaskState, ready, running, blocked, suspended, terminated, ◌is◌, BlockReason,
  no_reason, BlockObject, null, Status, success, failure, ◌>>=◌, set_task, set_stats, append_ready,
  remove_ready, append_blocked, remove_blocked, append_suspended, remove_suspended,
}

-- `stats.tasks_created++` and `stats.tasks_deleted++`
unfoldable pub count_created : Sys → Sys
count_created s =
    set_stats s (record (s.sched.stats) { tasks_created = add32 s.sched.stats.tasks_created 1 })

unfoldable pub count_deleted : Sys → Sys
count_deleted s =
    set_stats s (record (s.sched.stats) { tasks_deleted = add32 s.sched.stats.tasks_deleted 1 })

-- The list of a state, by the task's current priority: appending to it, and removing from it.
unfoldable pub append_by_state : Env → TaskState → ℕ → Sys → Sys × Status
append_by_state e ready t s = append_ready e (s.heap t).priority t s
append_by_state e running t s = (s, failure)
append_by_state e blocked t s = append_blocked e t s
append_by_state e suspended t s = append_suspended e t s
append_by_state e terminated t s = (s, failure)

unfoldable pub remove_by_state : Env → TaskState → ℕ → Sys → Sys × Status
remove_by_state e ready t s = remove_ready e (s.heap t).priority t s
remove_by_state e running t s = (s, failure)
remove_by_state e blocked t s = remove_blocked e t s
remove_by_state e suspended t s = remove_suspended e t s
remove_by_state e terminated t s = (s, success)

unfoldable pub scheduler_add_task : Env → Option ℕ → Sys → Sys × Status
scheduler_add_task e none s = (s, failure)
scheduler_add_task e (some t) s = do
  s ← append_by_state e (s.heap t).state t s
  (count_created s, success)

unfoldable pub scheduler_remove_task : Env → Option ℕ → Sys → Sys × Status
scheduler_remove_task e none s = (s, failure)
scheduler_remove_task e (some t) s = do
  s ← remove_by_state e (s.heap t).state t s
  (count_deleted s, success)

-- The writes of scheduler_block_task and scheduler_unblock_task to the task.
abbrev pub mark_blocked : BlockReason → BlockObject → Task → Task
mark_blocked cause object t = record t {
  state = blocked;
  block_reason = cause;
  block_object = object;
}

abbrev pub mark_ready : Task → Task
mark_ready t = record t { state = ready; block_reason = no_reason; block_object = null }

unfoldable pub scheduler_block_task :
    Env → Option ℕ → BlockReason → BlockObject → Sys → Sys × Status
scheduler_block_task e none cause object s = (s, failure)
scheduler_block_task e (some t) cause object s =
    if is_ref s.table.idle_task t then (s, failure) else do
      s ← remove_ready e (s.heap t).priority t (set_task s t (mark_blocked cause object (s.heap t)))
      append_blocked e t s

unfoldable pub scheduler_unblock_task : Env → Option ℕ → Sys → Sys × Status
scheduler_unblock_task e none s = (s, failure)
scheduler_unblock_task e (some t) s = if not ((s.heap t).state is blocked) then (s, success) else do
  s ← remove_blocked e t (set_task s t (mark_ready (s.heap t)))
  append_ready e (s.heap t).priority t s

-- The two switches of scheduler_update_task_state differ from the ones above for TERMINATED: a task
-- cannot leave that state, and no list is for it.
unfoldable pub leave_state : Env → TaskState → ℕ → Sys → Sys × Status
leave_state e terminated t s = (s, failure)
leave_state e state t s = remove_by_state e state t s

unfoldable pub enter_state : Env → TaskState → ℕ → Sys → Sys × Status
enter_state e terminated t s = (s, success)
enter_state e state t s = append_by_state e state t s

unfoldable pub write_state : Env → TaskState → ℕ → Sys → Sys × Status
unfolding enter_state
write_state e new_state t s =
    enter_state e new_state t (set_task s t (record (s.heap t) { state = new_state }))

unfoldable pub scheduler_update_task_state : Env → Option ℕ → TaskState → Sys → Sys × Status
scheduler_update_task_state e none new_state s = (s, failure)
scheduler_update_task_state e (some t) new_state s =
    if (s.heap t).state is new_state
    then (s, success)
    else do s ← leave_state e (s.heap t).state t s; write_state e new_state t s
