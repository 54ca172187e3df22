-- ===== src/Task/Control/Priorities.antt =====
-- task_set_priority in closed form: its call of scheduler_update_task_state, with the state that the task
-- has, does nothing.
use orbit_rtos.Base.{ℕ, ◌≡◌, refl, true, false, leb, some, arith}
use orbit_rtos.Kernel.{Sys, Env, TaskState, success, ◌is◌, set_task, max_priority_levels}
use orbit_rtos.Scheduler.Blocking.{scheduler_update_task_state}
use orbit_rtos.Task.Control.{task_set_priority}

pub same_state :
    (e : Env) (t : ℕ) (st : TaskState) (s : Sys)
    → (s.heap t).state ≡ st
    → scheduler_update_task_state e (some t) st s ≡ (s, success)
unfolding scheduler_update_task_state
same_state e t st s h = let same : ((s.heap t).state is st) ≡ true = ground arith in rw same refl

pub set_priority_lem :
    (e : Env) (t p : ℕ) (s : Sys)
    → leb max_priority_levels p ≡ false
    → task_set_priority e (some t) p s
      ≡ (set_task s t (record (s.heap t) { priority = p; original_priority = p }), success)
unfolding task_set_priority
set_priority_lem e t p s valid = rw valid (same_state e t (s.heap t).state _ (ground arith))
