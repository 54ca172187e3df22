-- ===== src/Ipc/Objects.antt =====
-- src/kernel/ipc.c: what the kinds of objects share: the static arrays, and the lists of waiting tasks,
-- which are linked by the next and prev pointers of the tasks.
-- A pointer to an object is its index in its array; one that is not below 16 points elsewhere.
pub mod Chains
pub mod Links
pub mod Unlink
pub mod Places
use orbit_rtos.Base.{
  ℕ, zero, suc, ◌+◌, Bool, true, false, ◌==◌, if◌then◌else◌, Option, none, some, List, [], ◌∷◌,
  update, ◌≡◌, add32,
}
use orbit_rtos.Kernel.{
  Sys, Env, Task, Ipc, Semaphore, Status, success, failure, set_task, max_semaphores, max_timeout,
  is_no_reason,
}
use orbit_rtos.Context.{context_exit_critical}
use orbit_rtos.Scheduler.Blocking.{scheduler_unblock_task}
use orbit_rtos.Scheduler.Switch.{scheduler_context_switch}

abbrev pub set_ipc : Sys → Ipc → Sys
set_ipc s v = record s { ipc = v }

unfoldable pub ipc_init : Sys → Sys × Status
ipc_init s = (
  set_ipc s (record (s.ipc) {
    semaphore_used = λ i. false;
    mutex_used = λ i. false;
    queue_used = λ i. false;
    event_group_used = λ i. false;
  }),
  success,
)

-- The loop for the first unused slot: `k` rounds left, from slot `i` on.
unfoldable pub find_free : (ℕ → Bool) → (k i : ℕ) → Option ℕ
find_free in_use zero i = none
find_free in_use (suc k) i =
    let rest = find_free in_use k (i + 1) in if in_use i then rest else some i

-- The loop for the slot of a pointer.
unfoldable pub find_index : (pointer k i : ℕ) → Option ℕ
find_index pointer zero i = none
find_index pointer (suc k) i =
    let rest = find_index pointer k (i + 1) in if i == pointer then some i else rest

-- Writes to the links of a task, or to none.
abbrev pub set_prev : Option ℕ → Option ℕ → Sys → Sys
set_prev none p s = s
set_prev (some t) p s = set_task s t (record (s.heap t) { prev = p })

abbrev pub set_next : Option ℕ → Option ℕ → Sys → Sys
set_next none p s = s
set_next (some t) p s = set_task s t (record (s.heap t) { next = p })

-- `while (task != NULL) { next = task->next; scheduler_unblock_task(task); task = next; }`, or nothing
-- if `fuel` rounds are not enough.
unfoldable pub unblock_waiting : Env → (fuel : ℕ) → Option ℕ → Sys → Option Sys
unblock_waiting e zero o s = none
unblock_waiting e (suc fuel) none s = some s
unblock_waiting e (suc fuel) (some t) s =
    unblock_waiting e fuel (s.heap t).next (scheduler_unblock_task e (some t) s).0

-- The wake time, unless the timeout is infinite.
abbrev pub set_timeout : ℕ → ℕ → Sys → Sys
set_timeout c timeout s =
    if timeout == max_timeout
    then s
    else set_task s c (record (s.heap c) { delay_until = add32 s.clock timeout })

-- What follows scheduler_block_task: on success the task gives up control, and its block reason tells
-- when it comes back whether it got what it waited for.
unfoldable pub await : Env → ℕ → ℕ → Sys × Status → Sys × Status
await e c prev (s, failure) = (context_exit_critical prev s, failure)
await e c prev (s, success) =
    let s' = (scheduler_context_switch e (context_exit_critical prev s)).0 in
    (s', if is_no_reason (s'.heap c).block_reason then success else failure)

-- The first waiting task `t` leaves its list, whose head is already the next one.
unfoldable pub unlink_first : ℕ → (after : Option ℕ) → Sys → Sys
unlink_first t after s = set_prev (some t) none (set_next (some t) none (set_prev after none s))

-- The links around `t`, where `set_head` sets the head of its list.
abbrev pub unlink_before : (Sys → Option ℕ → Sys) → Option ℕ → (after : Option ℕ) → Sys → Sys
unlink_before set_head none after s = set_head s after
unlink_before set_head (some p) after s = set_next (some p) after s

-- A waiting task leaves its list from any place.
unfoldable pub unlink : (Sys → Option ℕ → Sys) → ℕ → Sys → Sys
unlink set_head t s =
    let s1 = unlink_before set_head (s.heap t).prev (s.heap t).next s in
    let s2 = set_prev (s1.heap t).next (s1.heap t).prev s1 in
    set_prev (some t) none (set_next (some t) none s2)
