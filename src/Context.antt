-- ===== src/Context.antt =====
-- src/kernel/context.c: critical sections, and the transfer of control. setjmp and longjmp are the
-- environment's `resumed`. The jmp_buf that lies on a task's stack is not modelled.
pub mod Critical
pub mod Trampoline
use orbit_rtos.Base.{
  ℕ, ◌-◌, ◌/◌, Bool, true, false, ◌==◌, ltb, if◌then◌else◌, Option, none, some, to_nat, add32,
}
use orbit_rtos.Kernel.{Sys, Env, Task, Status, success, failure, running, set_task}

-- `task_set_current` of src/kernel/task.c.
abbrev pub task_set_current : Option ℕ → Sys → Sys
task_set_current t s = record s { table = record (s.table) { current_task = t } }

-- The critical section counter of a state.
abbrev pub set_critical : Sys → ℕ → ℕ → Sys
set_critical s n intr = record s { critical = record { section_count = n; prev_intr_state = intr } }

unfoldable pub context_init : Sys → Sys × Status
context_init s = (set_critical s 0 s.critical.prev_intr_state, success)

-- Gives the interrupt state from before.
unfoldable pub context_enter_critical : Sys → Sys × ℕ
context_enter_critical s =
    (set_critical s (add32 s.critical.section_count 1) 1, s.critical.prev_intr_state)

-- `if (count > 0) count--;`
unfoldable pub leave_section : ℕ → ℕ
leave_section n = if ltb 0 n then n - 1 else n

unfoldable pub context_exit_critical : ℕ → Sys → Sys
unfolding leave_section
context_exit_critical prev_state s =
    let n = leave_section s.critical.section_count in
    set_critical s n (if n == 0 then prev_state else s.critical.prev_intr_state)

unfoldable pub context_in_critical : Sys → ℕ
context_in_critical s = if ltb 0 s.critical.section_count then 1 else 0

-- `stack` and `func` are NULL or addresses, and `allocated` says whether malloc found memory for the
-- temporary copy.
unfoldable pub context_init_task :
    Option ℕ
    → (stack : Option ℕ) → (stack_size : ℕ) → (func : Option ℕ) → (allocated : Bool) → Sys
    → Sys × Status
context_init_task none stack size func allocated s = (s, failure)
context_init_task (some t) none size func allocated s = (s, failure)
context_init_task (some t) (some p) size none allocated s = (s, failure)
context_init_task (some t) (some p) size (some f) false s = (s, failure)
context_init_task (some t) (some p) size (some f) true s = (
  set_task s t (record (s.heap t) {
    context = record { stack_ptr = some p; stack_base = p; stack_size = size };
  }),
  success,
)

-- Control comes back when another task switches to `from`.
unfoldable pub context_switch : Env → Option ℕ → Option ℕ → Sys → Sys × Status
context_switch e none to s = (s, failure)
context_switch e (some c) none s = (s, failure)
context_switch e (some c) (some n) s = (e.resumed (some c) n s, success)

-- The state at the jump into the first task.
unfoldable pub first_task_state : ℕ → Sys → Sys
first_task_state t s =
    task_set_current (some t) (set_task s t (record (s.heap t) { state = running }))

unfoldable pub context_check_stack_overflow : Option ℕ → Status
context_check_stack_overflow none = failure
context_check_stack_overflow (some t) = success

unfoldable pub context_get_stack_free : Option ℕ → Sys → ℕ
context_get_stack_free none s = 0
context_get_stack_free (some t) s = (s.heap t).context.stack_size / 2
