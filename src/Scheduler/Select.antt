-- ===== src/Scheduler/Select.antt =====
-- scheduler_get_next_task of src/kernel/scheduler.c: the choice of the next task.
pub mod Choice
pub mod Policies
pub mod Turns
use orbit_rtos.Base.{
  ℕ, zero, suc, ◌+◌, Bool, true, false, ◌&&◌, ltb, if◌then◌else◌, Option, none, some, List, [], ◌∷◌,
  add32,
}
use orbit_rtos.Kernel.{
  Sys, Env, Task, Policy, by_priority, round_robin, edf, rms, other, running, ◌is◌, set_stats,
  set_ready, max_priority_levels,
}

-- The loop that looks for the first ready list that is not empty: that level and the list's head.
-- It has `k` rounds left and stands at level `i`.
unfoldable pub first_ready : (ready_lists : ℕ → List ℕ) (k i : ℕ) → Option (ℕ × ℕ)
first_ready lists zero i = none
first_ready lists (suc k) i = elim (lists i) [
  | [] ↦ first_ready lists k (i + 1)
  | t ∷ _ ↦ some (i, t)
]

-- One ready list of the search for the earliest deadline. The state is `earliest` with
-- `earliest_deadline`.
unfoldable pub edf_list : (heap : ℕ → Task) → List ℕ → Option ℕ × ℕ → Option ℕ × ℕ
edf_list heap [] best = best
edf_list heap (t ∷ ts) (earliest, earliest_deadline) = edf_list heap ts (
    if ltb 0 (heap t).period && ltb (heap t).absolute_deadline earliest_deadline
    then (some t, (heap t).absolute_deadline)
    else (earliest, earliest_deadline))

-- All ready lists, `k` of them left from level `i` on.
unfoldable pub edf_lists :
    (heap : ℕ → Task) (ready_lists : ℕ → List ℕ) (k i : ℕ) → Option ℕ × ℕ → Option ℕ × ℕ
edf_lists heap lists zero i best = best
edf_lists heap lists (suc k) i best = edf_lists heap lists k (i + 1) (edf_list heap (lists i) best)

-- The head of the first ready list that is not empty.
unfoldable pub highest_ready : Sys → Option ℕ
highest_ready s = elim (first_ready s.sched.ready_lists max_priority_levels 0) [
  | none ↦ none
  | some (i, t) ↦ some t
]

-- The round robin case: the chosen task goes to the end of its list.
unfoldable pub rotate_ready : Env → Sys → Sys × Option ℕ
rotate_ready e s = elim (first_ready s.sched.ready_lists max_priority_levels 0) [
  | none ↦ (s, none)
  | some (i, t) ↦
      (set_ready s i (e.list_append (e.list_remove (s.sched.ready_lists i) t).0 t).0, some t)
]

-- The EDF case, with UINT32_MAX as the first bound.
unfoldable pub earliest_ready : Sys → Option ℕ
earliest_ready s =
    elim (edf_lists s.heap s.sched.ready_lists max_priority_levels 0 (none, 0xffff_ffff)).0 [
      | none ↦ highest_ready s
      | some t ↦ some t
    ]

-- The switch on the policy.
unfoldable pub select : Env → Policy → Sys → Sys × Option ℕ
select e by_priority s = (s, highest_ready s)
select e round_robin s = rotate_ready e s
select e edf s = (s, earliest_ready s)
select e rms s = (s, highest_ready s)
select e (other n) s = (s, none)

-- `if (next_task == NULL) next_task = task_get_idle();`
unfoldable pub or_idle : Sys × Option ℕ → Sys × Option ℕ
or_idle (s, none) = (s, s.table.idle_task)
or_idle (s, some t) = (s, some t)

-- `stats.scheduler_invocations++`
unfoldable pub count_invocation : Sys → Sys
count_invocation s =
    set_stats s (record (s.sched.stats) {
      scheduler_invocations = add32 s.sched.stats.scheduler_invocations 1;
    })

-- The scheduler is locked and the current task is running.
unfoldable pub keeps_current : Sys → Option ℕ → Bool
keeps_current s none = false
keeps_current s (some t) = ltb 0 s.sched.lock_count && (s.heap t).state is running

unfoldable pub scheduler_get_next_task : Env → Sys → Sys × Option ℕ
scheduler_get_next_task e s =
    let s' = count_invocation s in
    if keeps_current s' s.table.current_task
    then (s', s.table.current_task)
    else or_idle (select e s.sched.current_policy s')
