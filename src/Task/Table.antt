-- ===== src/Task/Table.antt =====
-- src/kernel/task.c: the table of tasks, and how tasks are created, deleted and found.
-- What malloc returns is an argument: the addresses of the new task_t and its stack, or NULL, and
-- whether context_init_task finds memory. free() is not modelled: a freed task_t keeps its content.
pub mod Slots
pub mod Frames
pub mod Creation
pub mod Additions
pub mod Names
use orbit_rtos.Base.{
  ℕ, zero, suc, ◌+◌, ◌-◌, ◌/◌, Bool, true, false, ◌&&◌, ◌||◌, ◌==◌, leb, ltb, if◌then◌else◌, Option,
  none, some, List, [], ◌∷◌, is_some, is_ref, update, add32, sub32, take,
}
use orbit_rtos.Kernel.{
  Sys, Env, Task, TaskStats, TaskContext, Status, success, failure, ready, no_reason, null,
  set_task, max_tasks, max_priority_levels, max_task_name_len, default_time_slice,
  default_stack_size,
}
use orbit_rtos.Context.{context_init_task}
use orbit_rtos.Scheduler.Blocking.{scheduler_add_task, scheduler_remove_task}

abbrev pub set_slots : Sys → (ℕ → Option ℕ) → ℕ → Sys
set_slots s slots n = record s { table = record (s.table) { slots = slots; task_count = n } }

-- The loop for the first free slot: `k` rounds left, from slot `i` on. If there is none, the task is
-- in no slot.
unfoldable pub store_task : ℕ → (k i : ℕ) → Sys → Sys
store_task t zero i s = s
store_task t (suc k) i s =
    let rest = store_task t k (i + 1) s in
    if is_some (s.table.slots i)
    then rest
    else set_slots s (update s.table.slots i (some t)) (add32 s.table.task_count 1)

-- The loop that clears the first slot that holds the task.
unfoldable pub clear_task : ℕ → (k i : ℕ) → Sys → Sys
clear_task t zero i s = s
clear_task t (suc k) i s =
    let rest = clear_task t k (i + 1) s in
    if is_ref (s.table.slots i) t
    then set_slots s (update s.table.slots i none) (sub32 s.table.task_count 1)
    else rest

abbrev pub zero_task_stats : TaskStats
zero_task_stats = record {
  total_runtime = 0;
  last_start_time = 0;
  num_activations = 0;
  deadline_misses = 0;
  max_execution_time = 0;
}

-- The fields that task_create sets; the context is context_init_task's.
abbrev pub new_task : List ℕ → ℕ → ℕ → ℕ → TaskContext → Task
new_task name priority func arg context = record {
  name = take (max_task_name_len - 1) name;
  state = ready;
  priority = priority;
  original_priority = priority;
  time_slice = default_time_slice;
  time_slice_count = default_time_slice;
  context = context;
  task_func = func;
  task_arg = arg;
  delay_until = 0;
  block_reason = no_reason;
  block_object = null;
  period = 0;
  deadline = 0;
  next_release = 0;
  absolute_deadline = 0;
  stats = zero_task_stats;
  next = none;
  prev = none;
}

-- `if (call != 0) { free(...); return NULL; } ... return task;`
abbrev pub task_or_null : ℕ → Sys × Status → Sys × Option ℕ
task_or_null t (s, success) = (s, some t)
task_or_null t (s, failure) = (s, none)

-- What follows the call of context_init_task.
unfoldable pub list_created : Env → ℕ → Sys × Status → Sys × Option ℕ
list_created e t (s, failure) = (s, none)
list_created e t (s, success) =
    task_or_null t (scheduler_add_task e (some t) (store_task t max_tasks 0 s))

-- From the initialisation of the task_t at `t` on. The statistics are set after context_init_task in
-- the source, which does not touch them.
unfoldable pub setup_task :
    Env
    → List ℕ
    → (priority func arg stack_size t stack : ℕ) → (allocated : Bool) → Sys
    → Sys × Option ℕ
unfolding list_created
setup_task e name priority func arg stack_size t stack allocated s = list_created e t (
    context_init_task (some t) (some stack) stack_size (some func) allocated
      (set_task s t (new_task name priority func arg (s.heap t).context)))

unfoldable pub task_create :
    Env
    → (name : Option (List ℕ)) → (priority : ℕ) → (func : Option ℕ) → (arg stack_size : ℕ)
    → (task_memory stack_memory : Option ℕ) → (allocated : Bool) → Sys
    → Sys × Option ℕ
task_create e none priority func arg size task stack allocated s = (s, none)
task_create e (some name) priority none arg size task stack allocated s = (s, none)
task_create e (some name) priority (some f) arg size none stack allocated s = (s, none)
task_create e (some name) priority (some f) arg size (some t) none allocated s = (s, none)
task_create e (some name) priority (some f) arg size (some t) (some p) allocated s =
    if leb max_priority_levels priority || leb max_tasks s.table.task_count
    then (s, none)
    else setup_task e name priority f arg size t p allocated s

-- The characters of "idle".
abbrev pub idle_name : List ℕ
idle_name = 105 ∷ 100 ∷ 108 ∷ 101 ∷ []

-- task_init, with the address of idle_task_func and what its task_create gets from malloc.
unfoldable pub task_init :
    Env
    → (idle_func : ℕ) → (task_memory stack_memory : Option ℕ) → (allocated : Bool) → Sys
    → Sys × Status
task_init e f task stack allocated s =
    let (s', idle) =
      task_create e (some idle_name) (max_priority_levels - 1) (some f) 0 (default_stack_size / 2)
        task stack allocated
        (record s {
          table = record (s.table) { slots = λ i. none; task_count = 0; current_task = none };
        }) in
    (
      record s' { table = record (s'.table) { idle_task = idle } },
      if is_some idle then success else failure,
    )

-- What follows the call of scheduler_remove_task.
unfoldable pub clear_deleted : ℕ → Sys × Status → Sys × Status
clear_deleted t (s, failure) = (s, failure)
clear_deleted t (s, success) = (clear_task t max_tasks 0 s, success)

unfoldable pub task_delete : Env → Option ℕ → Sys → Sys × Status
unfolding clear_deleted
task_delete e none s = (s, failure)
task_delete e (some t) s =
    if is_ref s.table.current_task t || is_ref s.table.idle_task t
    then (s, failure)
    else clear_deleted t (scheduler_remove_task e (some t) s)

-- strcmp(a, b) == 0
unfoldable pub same_name : List ℕ → List ℕ → Bool
same_name [] [] = true
same_name [] (b ∷ bs) = false
same_name (a ∷ as') [] = false
same_name (a ∷ as') (b ∷ bs) = a == b && same_name as' bs

-- The task in slot `i` has the name.
abbrev pub slot_named : Sys → List ℕ → Option ℕ → Bool
slot_named s name none = false
slot_named s name (some t) = same_name (s.heap t).name name

-- The search loop: `k` rounds left, from slot `i` on.
unfoldable pub find_name : Sys → List ℕ → (k i : ℕ) → Option ℕ
find_name s name zero i = none
find_name s name (suc k) i =
    let rest = find_name s name k (i + 1) in
    if slot_named s name (s.table.slots i) then s.table.slots i else rest

unfoldable pub task_get_by_name : Option (List ℕ) → Sys → Option ℕ
task_get_by_name none s = none
task_get_by_name (some name) s = find_name s name max_tasks 0
