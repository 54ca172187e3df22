-- ===== src/Kernel.antt =====
-- The data of the kernel: include/config.h, the structs of include/kernel/task.h,
-- include/kernel/scheduler.h and include/kernel/ipc.h, and the static variables of
-- src/kernel/task.c, scheduler.c, context.c and ipc.c, one record for each file.
--
-- Tasks are named by the addresses of their task_t; NULL is `none`. The heap gives each address its
-- task_t. `clock` is what time_get_ticks returns: the time module is not in the repository.
pub mod Lists
pub mod Texts
use orbit_rtos.Base.{ℕ, ◌≡◌, refl, Bool, true, false, ◌==◌, Option, List, update}

-- include/config.h
abbrev pub max_tasks : ℕ
max_tasks = 32

abbrev pub max_priority_levels : ℕ
max_priority_levels = 16

abbrev pub max_semaphores : ℕ
max_semaphores = 16

abbrev pub max_queues : ℕ
max_queues = 16

abbrev pub max_task_name_len : ℕ
max_task_name_len = 16

abbrev pub default_time_slice : ℕ
default_time_slice = 10

abbrev pub default_stack_size : ℕ
default_stack_size = 2048

abbrev pub max_timeout : ℕ
max_timeout = 0xffff_ffff

-- The result of an int function that returns 0 or -1.
pub data Status : Type 0 where
  success failure : Status

pub data TaskState : Type 0 where
  ready running blocked suspended terminated : TaskState

pub data BlockReason : Type 0 where
  no_reason delay semaphore queue_full queue_empty event mutex : BlockReason

-- What the untyped pointer block_object holds: a kernel object by its index, a message buffer by its
-- address, or the word that event_group_wait packs.
pub data BlockObject : Type 0 where
  null : BlockObject
  on_semaphore on_mutex on_queue on_event_group buffer packed : ℕ → BlockObject

-- SCHEDULING_POLICY_*; `other` is any further value of the uint8_t.
pub data Policy : Type 0 where
  by_priority round_robin edf rms : Policy
  other : ℕ → Policy

pub data SchedulerState : Type 0 where
  stopped active : SchedulerState

pub record TaskStats : Type 0 where
  pub total_runtime : ℕ
  pub last_start_time : ℕ
  pub num_activations : ℕ
  pub deadline_misses : ℕ
  pub max_execution_time : ℕ

pub record TaskContext : Type 0 where
  pub stack_ptr : Option ℕ
  pub stack_base : ℕ
  pub stack_size : ℕ

-- task_t. The name is its characters before the NUL.
pub record Task : Type 0 where
  pub name : List ℕ
  pub state : TaskState
  pub priority : ℕ
  pub original_priority : ℕ
  pub time_slice : ℕ
  pub time_slice_count : ℕ
  pub context : TaskContext
  pub task_func : ℕ
  pub task_arg : ℕ
  pub delay_until : ℕ
  pub block_reason : BlockReason
  pub block_object : BlockObject
  pub period : ℕ
  pub deadline : ℕ
  pub next_release : ℕ
  pub absolute_deadline : ℕ
  pub stats : TaskStats
  pub next : Option ℕ
  pub prev : Option ℕ

-- scheduler_stats_t, without the float cpu_load.
pub record SchedulerStats : Type 0 where
  pub context_switches : ℕ
  pub tasks_created : ℕ
  pub tasks_deleted : ℕ
  pub scheduler_invocations : ℕ
  pub idle_time : ℕ
  pub system_time : ℕ
  pub deadline_misses : ℕ

-- The static variables of task.c. task_list[i] is `slots i`, for i below 32.
pub record TaskTable : Type 0 where
  pub slots : ℕ → Option ℕ
  pub task_count : ℕ
  pub current_task : Option ℕ
  pub idle_task : Option ℕ

-- The static variables of scheduler.c. A list_t is the sequence of the data pointers that its nodes
-- hold, from head to tail.
pub record Scheduler : Type 0 where
  pub scheduler_state : SchedulerState
  pub current_policy : Policy
  pub ready_lists : ℕ → List ℕ
  pub blocked_list : List ℕ
  pub suspended_list : List ℕ
  pub stats : SchedulerStats
  pub lock_count : ℕ

-- The static variables of context.c.
pub record Critical : Type 0 where
  pub section_count : ℕ
  pub prev_intr_state : ℕ

pub record Semaphore : Type 0 where
  pub count : ℕ
  pub max_count : ℕ
  pub waiting_tasks : Option ℕ
  pub name : List ℕ

pub record Mutex : Type 0 where
  pub locked : Bool
  pub owner : Option ℕ
  pub waiting_tasks : Option ℕ
  pub name : List ℕ

-- The buffer holds `capacity` messages of `msg_size` bytes from its address on.
pub record Queue : Type 0 where
  pub buffer : ℕ
  pub msg_size : ℕ
  pub capacity : ℕ
  pub count : ℕ
  pub head : ℕ
  pub tail : ℕ
  pub waiting_send : Option ℕ
  pub waiting_recv : Option ℕ
  pub name : List ℕ

pub record EventGroup : Type 0 where
  pub flags : ℕ
  pub waiting_tasks : Option ℕ
  pub name : List ℕ

-- The static arrays of ipc.c.
pub record Ipc : Type 0 where
  pub semaphores : ℕ → Semaphore
  pub semaphore_used : ℕ → Bool
  pub mutexes : ℕ → Mutex
  pub mutex_used : ℕ → Bool
  pub queues : ℕ → Queue
  pub queue_used : ℕ → Bool
  pub event_groups : ℕ → EventGroup
  pub event_group_used : ℕ → Bool

-- The satellite_state of src/kernel/main.c. The mode is the value of its enumerator, and a float is its
-- bits.
pub record Satellite : Type 0 where
  pub mode : ℕ
  pub orbit_position : ℕ
  pub battery_level : ℕ
  pub temperature : ℕ
  pub solar_panels_deployed : Bool
  pub payload_active : Bool
  pub uptime : ℕ
  pub command_count : ℕ
  pub telemetry_packets : ℕ

-- `memory` is the bytes of the messages and of the queues' buffers, by their addresses.
pub record Sys : Type 0 where
  pub heap : ℕ → Task
  pub memory : ℕ → ℕ
  pub table : TaskTable
  pub sched : Scheduler
  pub critical : Critical
  pub ipc : Ipc
  pub satellite : Satellite
  pub clock : ℕ

-- The code that the kernel calls and the repository does not hold. `list_init`, `list_append` and
-- `list_remove` are those of include/utils/list.h; each gives the list's new content and the result,
-- 0 or negative. `list_remove` is given the pointer that the scheduler passes: a task_t, cast.
-- `resumed from to s` is the state in which control is back in the code that left `from` for `to` in
-- state `s` by longjmp: what all other tasks did in between.
-- The rest is the layout of the kernel's own structs, which is the compiler's: the address of an
-- object as a 32-bit number, the bytes that it is stored as, and what is left of the kernel's state
-- when `n` bytes are written over it; and 2 to the width of size_t.
pub record Env : Type 0 where
  pub list_init : List ℕ → List ℕ × Status
  pub list_append : List ℕ → ℕ → List ℕ × Status
  pub list_remove : List ℕ → ℕ → List ℕ × Status
  pub resumed : Option ℕ → ℕ → Sys → Sys
  pub address : BlockObject → ℕ
  pub object_bytes : BlockObject → Sys → ℕ → ℕ
  pub overwrite : BlockObject → (n : ℕ) → (ℕ → ℕ) → Sys → Sys
  pub size_mod : ℕ

-- `if (call != 0) return -1;`, and the code that follows.
infixl 5 ◌>>=◌
abbrev pub ◌>>=◌ : Sys × Status → (Sys → Sys × Status) → Sys × Status
(s, success) >>= f = f s
(s, failure) >>= f = (s, failure)

-- A property of the state after two calls in a row, by their cases.
pub >>=-keeps :
    (P Q : Sys → Type 0) (m : Sys × Status) (f : Sys → Sys × Status)
    → Q m.0
    → (m.1 ≡ failure → P m.0)
    → ((s : Sys) → Q s → P (f s).0)
    → P (m >>= f).0
>>=-keeps P Q (s, success) f q failed next = next s q
>>=-keeps P Q (s, failure) f q failed next = failed refl

-- `call; return 0;`, whatever the call returns.
abbrev pub return_success : Sys × Status → Sys × Status
return_success (s, r) = (s, success)

-- Writes to one component.
abbrev pub set_task : Sys → ℕ → Task → Sys
set_task s t v = record s { heap = update s.heap t v }

abbrev pub set_stats : Sys → SchedulerStats → Sys
set_stats s v = record s { sched = record (s.sched) { stats = v } }

abbrev pub set_ready : Sys → ℕ → List ℕ → Sys
set_ready s p l = record s {
  sched = record (s.sched) { ready_lists = update s.sched.ready_lists p l };
}

abbrev pub set_blocked : Sys → List ℕ → Sys
set_blocked s l = record s { sched = record (s.sched) { blocked_list = l } }

abbrev pub set_suspended : Sys → List ℕ → Sys
set_suspended s l = record s { sched = record (s.sched) { suspended_list = l } }

-- The calls of list_append and list_remove on the static lists.
abbrev pub append_ready : Env → ℕ → ℕ → Sys → Sys × Status
append_ready e p t s = let (l, r) = e.list_append (s.sched.ready_lists p) t in (set_ready s p l, r)

abbrev pub remove_ready : Env → ℕ → ℕ → Sys → Sys × Status
remove_ready e p t s = let (l, r) = e.list_remove (s.sched.ready_lists p) t in (set_ready s p l, r)

abbrev pub append_blocked : Env → ℕ → Sys → Sys × Status
append_blocked e t s = let (l, r) = e.list_append s.sched.blocked_list t in (set_blocked s l, r)

abbrev pub remove_blocked : Env → ℕ → Sys → Sys × Status
remove_blocked e t s = let (l, r) = e.list_remove s.sched.blocked_list t in (set_blocked s l, r)

abbrev pub append_suspended : Env → ℕ → Sys → Sys × Status
append_suspended e t s =
    let (l, r) = e.list_append s.sched.suspended_list t in (set_suspended s l, r)

abbrev pub remove_suspended : Env → ℕ → Sys → Sys × Status
remove_suspended e t s =
    let (l, r) = e.list_remove s.sched.suspended_list t in (set_suspended s l, r)

-- The value of a C enumerator, by which the code compares states.
abbrev pub state_code : TaskState → ℕ
state_code ready = 0
state_code running = 1
state_code blocked = 2
state_code suspended = 3
state_code terminated = 4

infix 50 ◌is◌
abbrev pub ◌is◌ : TaskState → TaskState → Bool
a is b = state_code a == state_code b

abbrev pub is_no_reason : BlockReason → Bool
is_no_reason no_reason = true
is_no_reason _ = false

abbrev pub is_delay : BlockReason → Bool
is_delay delay = true
is_delay _ = false

abbrev pub is_active : SchedulerState → Bool
is_active active = true
is_active stopped = false

abbrev pub is_round_robin : Policy → Bool
is_round_robin round_robin = true
is_round_robin _ = false
