-- ===== src/Task/Control.antt =====
-- src/kernel/task.c: priorities, suspension, delays, periods and statistics.
pub mod Defects
pub mod Timing
pub mod Priorities
pub mod Delays
use orbit_rtos.Base.{ℕ, ◌==◌, leb, ltb, if◌then◌else◌, Option, none, some, List, is_ref, add32}
use orbit_rtos.Kernel.{
  Sys, Env, Task, TaskState, TaskStats, ready, running, blocked, suspended, terminated, ◌is◌, delay,
  null, Status, success, failure, ◌>>=◌, return_success, set_task, max_priority_levels,
}
use orbit_rtos.Scheduler.Blocking.{scheduler_update_task_state, scheduler_block_task}
use orbit_rtos.Scheduler.Switch.{scheduler_context_switch}
use orbit_rtos.Task.Table.{zero_task_stats}

unfoldable pub task_set_priority : Env → Option ℕ → ℕ → Sys → Sys × Status
task_set_priority e none p s = (s, failure)
task_set_priority e (some t) p s =
    if leb max_priority_levels p
    then (s, failure)
    else scheduler_update_task_state e (some t) (s.heap t).state
        (set_task s t (record (s.heap t) { priority = p; original_priority = p }))

-- 16, no valid priority, for NULL.
unfoldable pub task_get_priority : Option ℕ → Sys → ℕ
task_get_priority none s = max_priority_levels
task_get_priority (some t) s = (s.heap t).priority

unfoldable pub task_yield : Env → Sys → Sys
task_yield e s = (scheduler_context_switch e s).0

unfoldable pub task_get_current : Sys → Option ℕ
task_get_current s = s.table.current_task

unfoldable pub task_get_idle : Sys → Option ℕ
task_get_idle s = s.table.idle_task

-- The body of the idle task's endless loop.
unfoldable pub idle_round : Env → Sys → Sys
unfolding task_yield
idle_round e s = task_yield e s

abbrev pub write_task_state : Sys → ℕ → TaskState → Sys
write_task_state s t st = set_task s t (record (s.heap t) { state = st })

unfoldable pub task_suspend : Env → Option ℕ → Sys → Sys × Status
unfolding task_yield
task_suspend e none s = (s, failure)
task_suspend e (some t) s = if is_ref s.table.idle_task t then (s, failure) else do
  s ← scheduler_update_task_state e (some t) suspended (write_task_state s t suspended)
  (if is_ref s.table.current_task t then task_yield e s else s, success)

unfoldable pub task_resume : Env → Option ℕ → Sys → Sys × Status
task_resume e none s = (s, failure)
task_resume e (some t) s =
    if (s.heap t).state is suspended
    then scheduler_update_task_state e (some t) ready (write_task_state s t ready)
    else (s, success)

-- The common end of the two delays: set the wake time, block, switch.
unfoldable pub sleep_until : Env → ℕ → ℕ → Sys → Sys × Status
sleep_until e c wake s = do
  s ←
      scheduler_block_task e (some c) delay null
        (set_task s c (record (s.heap c) { delay_until = wake }))
  return_success (scheduler_context_switch e s)

unfoldable pub delay_current : Env → Option ℕ → ℕ → Sys → Sys × Status
unfolding task_yield sleep_until
delay_current e none ticks s = (s, failure)
delay_current e (some c) ticks s =
    if is_ref s.table.idle_task c
    then (s, failure)
    else if ticks == 0
    then (task_yield e s, success)
    else sleep_until e c (add32 s.clock ticks) s

unfoldable pub task_delay : Env → ℕ → Sys → Sys × Status
unfolding delay_current
task_delay e ticks s = delay_current e s.table.current_task ticks s

unfoldable pub delay_current_until : Env → Option ℕ → ℕ → Sys → Sys × Status
unfolding task_yield sleep_until
delay_current_until e none tick_value s = (s, failure)
delay_current_until e (some c) tick_value s =
    if is_ref s.table.idle_task c
    then (s, failure)
    else if leb tick_value s.clock
    then (task_yield e s, success)
    else sleep_until e c tick_value s

unfoldable pub task_delay_until : Env → ℕ → Sys → Sys × Status
unfolding delay_current_until
task_delay_until e tick_value s = delay_current_until e s.table.current_task tick_value s

-- The period, deadline and first release of a task.
abbrev pub make_periodic : ℕ → ℕ → ℕ → Task → Task
make_periodic now period deadline t =
    let d = if ltb 0 deadline then deadline else period in
    record t {
      period = period;
      deadline = d;
      next_release = add32 now period;
      absolute_deadline = add32 (add32 now period) d;
    }

unfoldable pub task_set_periodic : Option ℕ → (period deadline : ℕ) → Sys → Sys × Status
task_set_periodic none period deadline s = (s, failure)
task_set_periodic (some t) period deadline s =
    if period == 0
    then (s, failure)
    else (set_task s t (make_periodic s.clock period deadline (s.heap t)), success)

-- The statistics, where both pointers are given.
unfoldable pub task_get_stats : Option ℕ → Sys → Option TaskStats
task_get_stats none s = none
task_get_stats (some t) s = some ((s.heap t).stats)

unfoldable pub task_reset_stats : Option ℕ → Sys → Sys × Status
task_reset_stats none s = (s, failure)
task_reset_stats (some t) s =
    (set_task s t (record (s.heap t) { stats = zero_task_stats }), success)
