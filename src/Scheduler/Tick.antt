-- ===== src/Scheduler/Tick.antt =====
-- src/kernel/scheduler.c: the system tick, missed deadlines, statistics and policies.
-- The loop over blocked_list reads each node's successor before the node may go, so it meets the tasks
-- that the list held when it began. Counters of the loops are ints that cannot overflow: each is at
-- most the length of blocked_list and one more for each slot.
pub mod Wake
pub mod Consistency
pub mod Deadlines
pub mod Load
use orbit_rtos.Base.{
  ℕ, zero, suc, ◌+◌, ◌==◌, ltb, leb, Bool, true, false, ◌&&◌, not, if◌then◌else◌, Option, none,
  some, List, [], ◌∷◌, is_ref, same_ref, add32, sub32,
}
use orbit_rtos.Kernel.{
  Sys, Env, Task, TaskStats, SchedulerStats, Policy, by_priority, round_robin, edf, rms, other,
  ready, running, blocked, suspended, terminated, ◌is◌, is_delay, is_active, is_round_robin, Status,
  success, failure, set_task, set_stats, append_ready, remove_suspended, max_tasks,
}
use orbit_rtos.Scheduler.Blocking.{scheduler_unblock_task}
use orbit_rtos.Scheduler.Switch.{scheduler_context_switch, spend_slice}

-- The state and unblocked_count.
abbrev pub Round : Type 0
Round = Sys × ℕ

abbrev pub count_success : Status → ℕ → ℕ
count_success success n = n + 1
count_success failure n = n

-- The delay of the task has expired.
abbrev pub is_expired : Sys → ℕ → Bool
is_expired s t = is_delay (s.heap t).block_reason && leb (s.heap t).delay_until s.clock

unfoldable pub wake_one : Env → ℕ → Round → Round
wake_one e t (s, n) =
    if is_expired s t
    then (let (s', r) = scheduler_unblock_task e (some t) s in (s', count_success r n))
    else (s, n)

-- The loop over the tasks of blocked_list.
unfoldable pub wake_delayed : Env → List ℕ → Round → Round
wake_delayed e [] x = x
wake_delayed e (t ∷ ts) x = wake_delayed e ts (wake_one e t x)

-- `task->stats.deadline_misses++; stats.deadline_misses++;`
unfoldable pub add_miss : ℕ → Sys → Sys
add_miss t s =
    let st = (s.heap t).stats in
    let s' =
      set_task s t (record (s.heap t) {
        stats = record st { deadline_misses = add32 st.deadline_misses 1 };
      }) in
    set_stats s'
      (record (s'.sched.stats) { deadline_misses = add32 s'.sched.stats.deadline_misses 1 })

-- At a release, the last job is late if it is neither ready nor running.
unfoldable pub check_release : ℕ → Sys → Sys
check_release t s =
    let st = (s.heap t).state in
    if not (st is ready) && not (st is running) && ltb (s.heap t).absolute_deadline s.clock
    then add_miss t s
    else s

abbrev pub next_job : Task → Task
next_job t =
    let release = add32 t.next_release t.period in
    record t { next_release = release; absolute_deadline = add32 release t.deadline }

-- A suspended task becomes ready whatever its lists answer.
unfoldable pub wake_suspended : Env → ℕ → Sys → Sys
wake_suspended e t s =
    let s' = (remove_suspended e t (set_task s t (record (s.heap t) { state = ready }))).0 in
    (append_ready e (s'.heap t).priority t s').0

unfoldable pub revive : Env → ℕ → Round → Round
unfolding wake_suspended
revive e t (s, n) =
    if (s.heap t).state is blocked
    then ((scheduler_unblock_task e (some t) s).0, n + 1)
    else if (s.heap t).state is suspended
    then (wake_suspended e t s, n + 1)
    else (s, n)

unfoldable pub start_job : ℕ → Sys → Sys
unfolding check_release
start_job t s = let s' = check_release t s in set_task s' t (next_job (s'.heap t))

unfoldable pub release_slot : Env → Option ℕ → Round → Round
unfolding revive start_job
release_slot e none x = x
release_slot e (some t) (s, n) =
    if ltb 0 (s.heap t).period && leb (s.heap t).next_release s.clock
    then revive e t (start_job t s, n)
    else (s, n)

-- The loop over the slots: `k` rounds left, from slot `i` on.
unfoldable pub release_periodic : Env → (k i : ℕ) → Round → Round
release_periodic e zero i x = x
release_periodic e (suc k) i x = release_periodic e k (i + 1) (release_slot e (x.0.table.slots i) x)

abbrev pub switch_unlocked : Env → Sys → Sys
switch_unlocked e s = if s.sched.lock_count == 0 then (scheduler_context_switch e s).0 else s

unfoldable pub count_tick : Sys → Sys
count_tick s =
    let st = s.sched.stats in
    set_stats s (record st {
      system_time = add32 st.system_time 1;
      idle_time =
          if same_ref s.table.current_task s.table.idle_task
          then add32 st.idle_time 1
          else st.idle_time;
    })

-- The time slice of the task that was current when the tick began.
unfoldable pub slice_tick : Env → Option ℕ → Sys → Sys
unfolding spend_slice
slice_tick e none s = s
slice_tick e (some c) s =
    if is_round_robin s.sched.current_policy && not (is_ref s.table.idle_task c)
    then (let spent = set_task s c (spend_slice (s.heap c)) in
        if sub32 (s.heap c).time_slice_count 1 == 0 then switch_unlocked e spent else spent)
    else s

-- The two loops of the tick.
unfoldable pub tick_rounds : Env → Sys → Round
unfolding count_tick
tick_rounds e s =
    let s' = count_tick s in
    release_periodic e max_tasks 0 (wake_delayed e s'.sched.blocked_list (s', 0))

-- Gives unblocked_count.
unfoldable pub scheduler_tick : Env → Sys → Round
unfolding tick_rounds slice_tick
scheduler_tick e s =
    if is_active s.sched.scheduler_state
    then (let (s', n) = tick_rounds e s in
        (slice_tick e s.table.current_task (if ltb 0 n then switch_unlocked e s' else s'), n))
    else (s, 0)

-- A job that is past its deadline, of a task that has not terminated.
abbrev pub is_late : Sys → ℕ → Bool
is_late s t =
    ltb 0 (s.heap t).period
    && (ltb 0 (s.heap t).absolute_deadline && ltb (s.heap t).absolute_deadline s.clock)
    && not ((s.heap t).state is terminated)

unfoldable pub check_slot : Option ℕ → Round → Round
check_slot none x = x
check_slot (some t) (s, n) = if is_late s t then (add_miss t s, n + 1) else (s, n)

-- The loop over the slots, with missed_count.
unfoldable pub check_slots : (k i : ℕ) → Round → Round
check_slots zero i x = x
check_slots (suc k) i x = check_slots k (i + 1) (check_slot (x.0.table.slots i) x)

unfoldable pub scheduler_check_deadlines : Sys → Round
scheduler_check_deadlines s = check_slots max_tasks 0 (s, 0)

unfoldable pub scheduler_reset_stats : Sys → Sys × Status
scheduler_reset_stats s =
    let st = s.sched.stats in
    (
      set_stats s (record {
        context_switches = 0;
        tasks_created = st.tasks_created;
        tasks_deleted = st.tasks_deleted;
        scheduler_invocations = 0;
        idle_time = 0;
        system_time = st.system_time;
        deadline_misses = 0;
      }),
      success,
    )

unfoldable pub scheduler_set_policy : Policy → Sys → Sys × Status
scheduler_set_policy (other n) s = (s, failure)
scheduler_set_policy policy s =
    (record s { sched = record (s.sched) { current_policy = policy } }, success)

unfoldable pub scheduler_get_policy : Sys → Policy
scheduler_get_policy s = s.sched.current_policy
