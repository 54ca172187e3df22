-- ===== src/Context/Trampoline.antt =====
-- context_trampoline of src/kernel/context.c, the entry point of a task.
use orbit_rtos.Base.{ℕ, ◌==◌, if◌then◌else◌, Option, none, some}
use orbit_rtos.Kernel.{Sys, Env, terminated, set_task}
use orbit_rtos.Context.{context_exit_critical}
use orbit_rtos.Scheduler.Switch.{scheduler_context_switch}

-- The task's function, unless that is NULL, and the end of the task.
unfoldable pub end_task : Env → (call : (func arg : ℕ) → Sys → Sys) → Option ℕ → Sys → Option Sys
end_task e call none s = none
end_task e call (some t) s =
    let s' =
      if (s.heap t).task_func == 0 then s else call (s.heap t).task_func (s.heap t).task_arg s in
    some (scheduler_context_switch e (set_task s' t (record (s'.heap t) { state = terminated }))).0

-- The state in which a task that returned is left for good; `call func arg` is what the task's function
-- does until it returns. Nothing without a current task, whose name the source then reads.
unfoldable pub context_trampoline : Env → (call : (func arg : ℕ) → Sys → Sys) → Sys → Option Sys
unfolding end_task
context_trampoline e call s = end_task e call s.table.current_task (context_exit_critical 1 s)
