-- ===== src/Scheduler/Switch.antt =====
-- src/kernel/scheduler.c: context switches, starting, stopping and locking.
pub mod Running
pub mod Locking
pub mod Rely
pub mod Boot
use orbit_rtos.Base.{
  ℕ, zero, suc, ◌+◌, ◌-◌, ◌==◌, ltb, if◌then◌else◌, Option, none, some, is_ref, add32, sub32,
}
use orbit_rtos.Kernel.{
  Sys, Env, Task, TaskStats, Policy, SchedulerState, stopped, active, is_active, is_round_robin,
  ready, running, ◌is◌, Status, success, failure, ◌>>=◌, set_task, set_stats, append_ready,
  remove_ready, SchedulerStats, set_ready, set_blocked, set_suspended, max_priority_levels,
  return_success,
}
use orbit_rtos.Context.{
  task_set_current, context_switch, first_task_state, context_enter_critical, context_exit_critical,
}
use orbit_rtos.Scheduler.Select.{scheduler_get_next_task}

-- `if (--time_slice_count == 0) time_slice_count = time_slice;`
unfoldable pub spend_slice : Task → Task
spend_slice t =
    let left = sub32 t.time_slice_count 1 in
    record t { time_slice_count = if left == 0 then t.time_slice else left }

-- The runtime statistics of a task that has run until `now`.
unfoldable pub account_runtime : ℕ → TaskStats → TaskStats
account_runtime now st =
    let runtime = sub32 now st.last_start_time in
    record st {
      total_runtime = add32 st.total_runtime runtime;
      max_execution_time =
          if ltb st.max_execution_time runtime then runtime else st.max_execution_time;
    }

-- The running task becomes ready. Both branches on the time slice append it to its ready list and
-- go on whatever list_append returns.
unfoldable pub leave_current : Env → ℕ → Sys → Sys
unfolding spend_slice account_runtime
leave_current e c s =
    let t = s.heap c in
    let spent = if is_round_robin s.sched.current_policy then spend_slice t else t in
    let s' = (append_ready e t.priority c (set_task s c (record spent { state = ready }))).0 in
    set_task s' c (record (s'.heap c) { stats = account_runtime s.clock (s'.heap c).stats })

-- A current task that is not running is left as it is.
unfoldable pub leave : Env → Option ℕ → Sys → Sys
leave e none s = s
leave e (some c) s = if (s.heap c).state is running then leave_current e c s else s

-- The next task leaves its ready list and becomes the running, current task. It goes on whatever
-- list_remove returns.
unfoldable pub enter : Env → ℕ → Sys → Sys
enter e n s =
    let s' =
      (remove_ready e (s.heap n).priority n
        (set_task s n (record (s.heap n) { state = running }))).0 in
    let st = (s'.heap n).stats in
    task_set_current (some n) (
      set_task s' n (record (s'.heap n) {
        stats = record st {
          last_start_time = s.clock;
          num_activations = add32 st.num_activations 1;
        };
      }))

unfoldable pub count_switch : Sys → Sys
count_switch s =
    set_stats s
      (record (s.sched.stats) { context_switches = add32 s.sched.stats.context_switches 1 })

-- The state at the transfer of control to `n`.
unfoldable pub handover : Env → Option ℕ → ℕ → Sys → Sys
handover e current n s = enter e n (leave e current (count_switch s))

-- The transfer. With no current task there is nothing to come back to.
unfoldable pub transfer : Env → Option ℕ → ℕ → Sys → Sys
transfer e none n s = e.resumed none n (first_task_state n s)
transfer e (some c) n s = (context_switch e (some c) (some n) s).0

unfoldable pub switch_to : Env → Option ℕ → Option ℕ → Sys → Sys × Status
switch_to e current none s = (s, failure)
switch_to e current (some n) s =
    if is_ref current n
    then (s, success)
    else (transfer e current n (handover e current n s), success)

unfoldable pub scheduler_context_switch : Env → Sys → Sys × Status
scheduler_context_switch e s =
    if is_active s.sched.scheduler_state
    then (if ltb 0 s.sched.lock_count
        then (s, success)
        else let (s', next) = scheduler_get_next_task e s in
          switch_to e s.table.current_task next s')
    else (s, failure)

abbrev pub set_state : Sys → SchedulerState → Sys
set_state s st = record s { sched = record (s.sched) { scheduler_state = st } }

abbrev pub zero_stats : SchedulerStats
zero_stats = record {
  context_switches = 0;
  tasks_created = 0;
  tasks_deleted = 0;
  scheduler_invocations = 0;
  idle_time = 0;
  system_time = 0;
  deadline_misses = 0;
}

-- scheduler_start returns, or control leaves for the first task for good.
pub data Start : Type 0 where
  returned : Sys → Status → Start
  started : Sys → Start

unfoldable pub start_first : Sys × Option ℕ → Start
start_first (s, none) = returned (set_state s stopped) failure
start_first (s, some t) = started (first_task_state t s)

unfoldable pub scheduler_start : Env → Sys → Start
scheduler_start e s =
    if is_active s.sched.scheduler_state
    then returned s success
    else start_first (scheduler_get_next_task e (set_state (set_stats s zero_stats) active))

unfoldable pub scheduler_stop : Sys → Sys × Status
scheduler_stop s =
    if is_active s.sched.scheduler_state then (set_state s stopped, success) else (s, success)

unfoldable pub scheduler_get_state : Sys → SchedulerState
scheduler_get_state s = s.sched.scheduler_state

abbrev pub set_lock : Sys → ℕ → Sys
set_lock s n = record s { sched = record (s.sched) { lock_count = n } }

unfoldable pub scheduler_lock : Sys → Sys × Status
scheduler_lock s =
    let (s', prev) = context_enter_critical s in
    (context_exit_critical prev (set_lock s' (add32 s'.sched.lock_count 1)), success)

-- `if (count > 0) count--;`
unfoldable pub release_lock : Sys → Sys
release_lock s = if ltb 0 s.sched.lock_count then set_lock s (s.sched.lock_count - 1) else s

unfoldable pub scheduler_unlock : Env → Sys → Sys × Status
unfolding release_lock
scheduler_unlock e s =
    let (s', prev) = context_enter_critical s in
    let s'' = release_lock s' in
    let outside = context_exit_critical prev s'' in
    if s''.sched.lock_count == 0
    then return_success (scheduler_context_switch e outside)
    else (outside, success)

-- The loop over the ready lists: `k` rounds left, from level `i` on.
unfoldable pub init_ready : Env → (k i : ℕ) → Sys → Sys × Status
init_ready e zero i s = (s, success)
init_ready e (suc k) i s =
    let (l, r) = e.list_init (s.sched.ready_lists i) in
    (set_ready s i l, r) >>= init_ready e k (i + 1)

abbrev pub init_blocked : Env → Sys → Sys × Status
init_blocked e s = let (l, r) = e.list_init s.sched.blocked_list in (set_blocked s l, r)

abbrev pub init_suspended : Env → Sys → Sys × Status
init_suspended e s = let (l, r) = e.list_init s.sched.suspended_list in (set_suspended s l, r)

unfoldable pub scheduler_init : Env → Policy → Sys → Sys × Status
unfolding init_ready
scheduler_init e policy s = do
  s ← init_ready e max_priority_levels 0 s
  s ← init_blocked e s
  s ← init_suspended e s
  (
    record s {
      sched = record (s.sched) {
        current_policy = policy;
        stats = zero_stats;
        lock_count = 0;
        scheduler_state = stopped;
      };
    },
    success,
  )
