-- ===== src/Ipc/EventGroup/Waits.antt =====
-- event_group_wait: what becomes of the running task that has to wait.
use orbit_rtos.Base.{ℕ, ◌<◌, ◌≡◌, ◌≢◌, refl, ◌∙◌, ap, false, ◌==◌, some, is_ref, arith}
use orbit_rtos.Kernel.{Sys, Env, running, blocked, event, on_event_group, Status, success, failure}
use orbit_rtos.Kernel.Lists.{ListLaws}
use orbit_rtos.Context.{context_enter_critical, context_exit_critical}
use orbit_rtos.Scheduler.Blocking.{scheduler_block_task}
use orbit_rtos.Scheduler.Blocking.Placement.{IsPlaced, IsUnlisted}
use orbit_rtos.Ipc.Objects.{set_next, set_timeout}
use orbit_rtos.Ipc.Objects.Places.{SamePlace, set_prev-SamePlace, wait_fails}
use orbit_rtos.Ipc.EventGroup.{
  condition_met, pack, keep_condition, join_waiting, await_flags, wait_flags, event_group_wait,
}

queued-SamePlace :
    (s : Sys) (i c w timeout : ℕ)
    → SamePlace s
        (join_waiting i c (set_timeout c timeout (keep_condition c w (context_enter_critical s).0)))
        c
unfolding join_waiting context_enter_critical
queued-SamePlace s i c w timeout =
    let s1 = set_timeout c timeout (keep_condition c w (context_enter_critical s).0) in
    let first = (s1.ipc.event_groups i).waiting_tasks in
    let f = set_prev-SamePlace first (some c) (set_next (some c) first s1) c in
    record {
      state_same = ground (arith, f.state_same);
      priority_same = ground (arith, f.priority_same);
      sched_same = ground (arith, f.sched_same);
      table_same = ground (arith, f.table_same);
    }

join-waiting :
    (i c : ℕ) (s : Sys) → ((join_waiting i c s).ipc.event_groups i).waiting_tasks ≡ some c
unfolding join_waiting
join-waiting i c s = ground arith

await_flags-failed :
    (e : Env) (i flags c prev : ℕ) (m : Sys × Status)
    → m.1 ≡ failure
    → await_flags e i flags c prev m ≡ (context_exit_critical prev m.0, 0)
unfolding await_flags
await_flags-failed e i flags c prev (s, failure) h = refl
await_flags-failed e i flags c prev (s, success) h = cc

unmet_waits :
    (e : Env) (s : Sys) (i flags options timeout : ℕ)
    → (flags == 0) ≡ false
    → condition_met options (s.ipc.event_groups i).flags flags ≡ false
    → (timeout == 0) ≡ false
    → let (s1, prev) = context_enter_critical s in
      event_group_wait e (some i) flags options timeout s
      ≡ wait_flags e i flags options timeout prev s1.table.current_task s1
unfolding event_group_wait context_enter_critical
unmet_waits e s i flags options timeout some_flags unmet waits = rw (some_flags, unmet, waits) refl

-- With memory for the lists, and a list_remove that refuses what the list does not hold,
-- event_group_wait by a running current task that is in its place and not the idle task, with
-- flags and a timeout that are not 0 and a condition that is not met, returns 0 at once: the task
-- is then BLOCKED, in no list of the scheduler, and first in the group's waiting list.
pub wait_running :
    {e : Env} (laws : ListLaws e) (s : Sys) (i c flags options timeout : ℕ)
    → flags ≢ 0
    → condition_met options (s.ipc.event_groups i).flags flags ≡ false
    → 0 < timeout
    → s.table.current_task ≡ some c
    → is_ref s.table.idle_task c ≡ false
    → IsPlaced s c
    → (s.heap c).state ≡ running
    → let (s', got) = event_group_wait e (some i) flags options timeout s in
      (got ≡ 0)
      × ((s'.heap c).state ≡ blocked)
      × IsUnlisted s' c
      × ((s'.ipc.event_groups i).waiting_tasks ≡ some c)
unfolding wait_flags context_enter_critical
wait_running {e} laws s i c flags options timeout ne unmet positive cur idle v run =
    let (s1, prev) = context_enter_critical s in
    let kept = set_timeout c timeout (keep_condition c (pack flags options) s1) in
    let s2 = join_waiting i c kept in
    let m = scheduler_block_task e (some c) event (on_event_group i) s2 in
    let (failed, state, unlisted, objects) =
      wait_fails laws s s2 c prev event (on_event_group i)
        (queued-SamePlace s i c (pack flags options) timeout) idle v run in
    let no_flags : (flags == 0) ≡ false = ground arith in
    let waits : (timeout == 0) ≡ false = ground arith in
    let to_block : event_group_wait e (some i) flags options timeout s
        ≡ (context_exit_critical prev m.0, 0) =
      unmet_waits e s i flags options timeout no_flags unmet waits
      ∙ ap (λ o. wait_flags e i flags options timeout prev o s1) cur
      ∙ await_flags-failed e i flags c prev m failed in
    rw to_block (
      refl,
      state,
      unlisted,
      ap (λ x. (x.event_groups i).waiting_tasks) objects ∙ join-waiting i c kept,
    )
