-- ===== src/Ipc/EventGroup.antt =====
-- src/kernel/ipc.c: event groups. Flags are 32 bits wide. A pointer that the source casts to uint32_t is
-- its address: that of what block_object points to is the environment's.
pub mod Scan
pub mod Rounds
pub mod Flags
pub mod Clearing
pub mod Waits
use orbit_rtos.Base.{
  ℕ, zero, suc, ◌-◌, ◌*◌, ◌/◌, ◌%◌, ◌^◌, Bool, true, false, ◌==◌, not, if◌then◌else◌, Option, none,
  some, List, update, take, u32_mod,
}
use Prim.Native.Nat.{bit_and, bit_or, bit_xor}
use orbit_rtos.Kernel.{
  Sys, Env, EventGroup, BlockObject, null, packed, on_event_group, event, is_no_reason, Status,
  success, failure, set_task, max_semaphores, max_task_name_len,
}
use orbit_rtos.Context.{context_enter_critical, context_exit_critical}
use orbit_rtos.Scheduler.Blocking.{scheduler_block_task, scheduler_unblock_task}
use orbit_rtos.Scheduler.Switch.{scheduler_context_switch}
use orbit_rtos.Ipc.Objects.{
  set_ipc, find_free, find_index, set_prev, set_next, unblock_waiting, set_timeout, unlink,
}

abbrev pub event_wait_all : ℕ
event_wait_all = 0

abbrev pub event_wait_any : ℕ
event_wait_any = 1

abbrev pub event_clear : ℕ
event_clear = 2

abbrev pub set_group : Sys → ℕ → EventGroup → Sys
set_group s i v = set_ipc s (record (s.ipc) { event_groups = update s.ipc.event_groups i v })

abbrev pub mark_group : Sys → ℕ → Bool → Sys
mark_group s i b =
    set_ipc s (record (s.ipc) { event_group_used = update s.ipc.event_group_used i b })

abbrev pub set_flags : Sys → ℕ → ℕ → Sys
set_flags s i f = set_group s i (record (s.ipc.event_groups i) { flags = f })

abbrev pub set_waiting_tasks : Sys → ℕ → Option ℕ → Sys
set_waiting_tasks s i o = set_group s i (record (s.ipc.event_groups i) { waiting_tasks = o })

-- The initialisation of the slot that was found.
abbrev pub init_group : List ℕ → Option ℕ → Sys → Sys × Option ℕ
init_group name none s = (s, none)
init_group name (some i) s = (
  mark_group
      (set_group s i
        (record { flags = 0; waiting_tasks = none; name = take (max_task_name_len - 1) name }))
      i true,
  some i,
)

unfoldable pub event_group_create : Option (List ℕ) → Sys → Sys × Option ℕ
event_group_create none s = (s, none)
event_group_create (some name) s =
    init_group name (find_free s.ipc.event_group_used max_semaphores 0) s

abbrev pub group_deleted : ℕ → Option Sys → Option (Sys × Status)
group_deleted i none = none
group_deleted i (some s) = some (mark_group s i false, success)

abbrev pub delete_group : Env → (fuel : ℕ) → Option ℕ → Sys → Option (Sys × Status)
delete_group e fuel none s = some (s, failure)
delete_group e fuel (some i) s =
    group_deleted i (unblock_waiting e fuel (s.ipc.event_groups i).waiting_tasks s)

-- Nothing if the loop over the waiting tasks takes `fuel` rounds or more.
unfoldable pub event_group_delete : Env → (fuel : ℕ) → Option ℕ → Sys → Option (Sys × Status)
event_group_delete e fuel none s = some (s, failure)
event_group_delete e fuel (some p) s = delete_group e fuel (find_index p max_semaphores 0) s

-- `~x` on 32 bits.
abbrev pub complement : ℕ → ℕ
complement x = bit_xor x 0xffff_ffff

-- The test of the flags against those that a task waits for.
unfoldable pub condition_met : (options flags wait_flags : ℕ) → Bool
condition_met options flags wait_flags =
    if not (bit_and options event_wait_all == 0)
    then bit_and flags wait_flags == wait_flags
    else not (bit_and flags wait_flags == 0)

-- The flags that are left once a task got those that it waits for.
unfoldable pub flags_after : (options flags wait_flags : ℕ) → ℕ
flags_after options flags wait_flags =
    if not (bit_and options event_clear == 0) then bit_and flags (complement wait_flags) else flags

-- `(uint32_t)task->block_object`
unfoldable pub as_word : Env → BlockObject → ℕ
as_word e null = 0
as_word e (packed w) = w
as_word e o = e.address o % u32_mod

abbrev pub word_options : ℕ → ℕ
word_options w = (w / 2 ^ 24) % 256

abbrev pub word_flags : ℕ → ℕ
word_flags w = bit_and w 0x00ff_ffff

-- A task gets the flags that it waits for, leaves the waiting list and is woken.
unfoldable pub wake_task : Env → ℕ → (options wait_flags : ℕ) → ℕ → Sys → Sys
unfolding flags_after unlink
wake_task e i options wait_flags t s =
    let s1 = set_flags s i (flags_after options (s.ipc.event_groups i).flags wait_flags) in
    (scheduler_unblock_task e (some t) (unlink (λ s o. set_waiting_tasks s i o) t s1)).0

-- One round of the loop over the waiting tasks.
unfoldable pub visit : Env → ℕ → ℕ → Sys → Sys
unfolding wake_task as_word condition_met
visit e i t s =
    let w = as_word e (s.heap t).block_object in
    if condition_met (word_options w) (s.ipc.event_groups i).flags (word_flags w)
    then wake_task e i (word_options w) (word_flags w) t s
    else s

-- The loop, or nothing if `fuel` rounds are not enough. The next task is read first.
unfoldable pub visit_waiting : Env → ℕ → (fuel : ℕ) → Option ℕ → Sys → Option Sys
unfolding visit
visit_waiting e i zero o s = none
visit_waiting e i (suc fuel) none s = some s
visit_waiting e i (suc fuel) (some t) s = visit_waiting e i fuel (s.heap t).next (visit e i t s)

-- What follows the loop, if that ends: a context switch if the flags are not the previous ones.
unfoldable pub finish_set : Env → ℕ → (prev prev_flags : ℕ) → Option Sys → Option (Sys × ℕ)
finish_set e i prev prev_flags none = none
finish_set e i prev prev_flags (some s) =
    let s' = context_exit_critical prev s in
    if prev_flags == (s'.ipc.event_groups i).flags
    then some (s', prev_flags)
    else some ((scheduler_context_switch e s').0, prev_flags)

unfoldable pub event_group_set_flags :
    Env → (fuel : ℕ) → Option ℕ → (flags : ℕ) → Sys → Option (Sys × ℕ)
unfolding visit_waiting finish_set
event_group_set_flags e fuel none flags s = some (s, 0)
event_group_set_flags e fuel (some i) flags s =
    let (s1, prev) = context_enter_critical s in
    let prev_flags = (s1.ipc.event_groups i).flags in
    let s2 = set_flags s1 i (bit_or prev_flags flags) in
    finish_set e i prev prev_flags (visit_waiting e i fuel (s2.ipc.event_groups i).waiting_tasks s2)

-- Gives the flags from before.
unfoldable pub event_group_clear_flags : Option ℕ → (flags : ℕ) → Sys → Sys × ℕ
event_group_clear_flags none flags s = (s, 0)
event_group_clear_flags (some i) flags s =
    let (s', prev) = context_enter_critical s in
    let prev_flags = (s'.ipc.event_groups i).flags in
    (
      context_exit_critical prev (set_flags s' i (bit_and prev_flags (complement flags))),
      prev_flags,
    )

-- The wait flags with the options in the high byte.
abbrev pub pack : (flags options : ℕ) → ℕ
pack flags options = bit_or flags ((options * 2 ^ 24) % u32_mod)

abbrev pub keep_condition : ℕ → ℕ → Sys → Sys
keep_condition c w s = set_task s c (record (s.heap c) { block_object = packed w })

-- The task goes to the front of the waiting list.
unfoldable pub join_waiting : ℕ → ℕ → Sys → Sys
join_waiting i c s =
    let first = (s.ipc.event_groups i).waiting_tasks in
    set_waiting_tasks (set_prev first (some c) (set_next (some c) first s)) i (some c)

-- What follows scheduler_block_task. A task that comes back with a block reason has timed out.
unfoldable pub await_flags : Env → ℕ → (flags c prev : ℕ) → Sys × Status → Sys × ℕ
await_flags e i flags c prev (s, failure) = (context_exit_critical prev s, 0)
await_flags e i flags c prev (s, success) =
    let s' = (scheduler_context_switch e (context_exit_critical prev s)).0 in
    (
      s',
      if is_no_reason (s'.heap c).block_reason
          then bit_and (s'.ipc.event_groups i).flags flags
          else 0,
    )

unfoldable pub wait_flags : Env → ℕ → (flags options timeout prev : ℕ) → Option ℕ → Sys → Sys × ℕ
unfolding join_waiting await_flags
wait_flags e i flags options timeout prev none s = (context_exit_critical prev s, 0)
wait_flags e i flags options timeout prev (some c) s = await_flags e i flags c prev (
    scheduler_block_task e (some c) event (on_event_group i)
      (join_waiting i c (set_timeout c timeout (keep_condition c (pack flags options) s))))

unfoldable pub event_group_wait : Env → Option ℕ → (flags options timeout : ℕ) → Sys → Sys × ℕ
unfolding condition_met flags_after wait_flags
event_group_wait e none flags options timeout s = (s, 0)
event_group_wait e (some i) flags options timeout s =
    if flags == 0
    then (s, 0)
    else (let (s', prev) = context_enter_critical s in
        let now = (s'.ipc.event_groups i).flags in
        if condition_met options now flags
        then (
          context_exit_critical prev (set_flags s' i (flags_after options now flags)),
          bit_and now flags,
        )
        else if timeout == 0
        then (context_exit_critical prev s', 0)
        else wait_flags e i flags options timeout prev s'.table.current_task s')

-- The critical section that is entered and left again, and the flags.
unfoldable pub event_group_get_flags : Option ℕ → Sys → Sys × ℕ
event_group_get_flags none s = (s, 0)
event_group_get_flags (some i) s =
    let (s', prev) = context_enter_critical s in
    (context_exit_critical prev s', (s'.ipc.event_groups i).flags)
