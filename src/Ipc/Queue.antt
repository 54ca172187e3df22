-- ===== src/Ipc/Queue.antt =====
-- src/kernel/ipc.c: message queues.
pub mod Fifo
pub mod Slots
pub mod Contents
pub mod Serving
pub mod Client
pub mod Creation
pub mod Waits
use orbit_rtos.Base.{
  ℕ, ◌-◌, ◌*◌, ◌%◌, true, false, ◌==◌, ◌||◌, leb, if◌then◌else◌, Option, none, some, List, take,
}
use orbit_rtos.Kernel.{
  Sys, Env, on_queue, queue_full, queue_empty, Status, success, failure, max_queues,
  max_task_name_len,
}
use orbit_rtos.Context.{context_enter_critical, context_exit_critical}
use orbit_rtos.Scheduler.Blocking.{scheduler_block_task, scheduler_unblock_task}
use orbit_rtos.Scheduler.Switch.{scheduler_context_switch}
use orbit_rtos.Ipc.Objects.{find_free, find_index, unblock_waiting, set_timeout, await}
use orbit_rtos.Ipc.Buffers.{
  set_queue, mark_queue, memcpy, bytes_at, write_object, read_object, slot, put_message,
  take_message, put_object, keep_message, join_send, join_recv, leave_send, leave_recv,
}

-- The initialisation of the slot that was found, unless malloc has no memory for the buffer.
abbrev pub init_queue : List ℕ → (msg_size capacity : ℕ) → ℕ → Option ℕ → Sys → Sys × Option ℕ
init_queue name size cap i none s = (s, none)
init_queue name size cap i (some a) s = (
  mark_queue
      (set_queue s i (record {
        buffer = a;
        msg_size = size;
        capacity = cap;
        count = 0;
        head = 0;
        tail = 0;
        waiting_send = none;
        waiting_recv = none;
        name = take (max_task_name_len - 1) name;
      }))
      i true,
  some i,
)

abbrev pub allocate_queue :
    Env
    → (malloc : ℕ → Option ℕ) → List ℕ
    → (msg_size capacity : ℕ) → Option ℕ
    → Sys
    → Sys × Option ℕ
allocate_queue e malloc name size cap none s = (s, none)
allocate_queue e malloc name size cap (some i) s =
    init_queue name size cap i (malloc ((size * cap) % e.size_mod)) s

-- `malloc` is given the size that the source computes.
unfoldable pub queue_create :
    Env → (malloc : ℕ → Option ℕ) → Option (List ℕ) → (msg_size capacity : ℕ) → Sys → Sys × Option ℕ
queue_create e malloc none size cap s = (s, none)
queue_create e malloc (some name) size cap s =
    if size == 0 || cap == 0
    then (s, none)
    else allocate_queue e malloc name size cap (find_free s.ipc.queue_used max_queues 0) s

-- The loop over the tasks that wait to receive, after the one over those that wait to send.
abbrev pub wake_receivers : Env → (fuel : ℕ) → ℕ → Option Sys → Option Sys
wake_receivers e fuel i none = none
wake_receivers e fuel i (some s) = unblock_waiting e fuel (s.ipc.queues i).waiting_recv s

abbrev pub queue_deleted : ℕ → Option Sys → Option (Sys × Status)
queue_deleted i none = none
queue_deleted i (some s) = some (mark_queue s i false, success)

abbrev pub delete_queue : Env → (fuel : ℕ) → Option ℕ → Sys → Option (Sys × Status)
delete_queue e fuel none s = some (s, failure)
delete_queue e fuel (some i) s =
    queue_deleted i
      (wake_receivers e fuel i (unblock_waiting e fuel (s.ipc.queues i).waiting_send s))

-- Nothing if a loop over waiting tasks takes `fuel` rounds or more. What free does to the buffer is
-- not part of the state.
unfoldable pub queue_delete : Env → (fuel : ℕ) → Option ℕ → Sys → Option (Sys × Status)
queue_delete e fuel none s = some (s, failure)
queue_delete e fuel (some p) s = delete_queue e fuel (find_index p max_queues 0) s

-- A woken task may run at once.
unfoldable pub wake : Env → ℕ → ℕ → Sys → Sys × Status
wake e prev t s =
    let s' = (scheduler_unblock_task e (some t) s).0 in
    ((scheduler_context_switch e (context_exit_critical prev s')).0, success)

-- The message goes where a waiting task's block_object points.
unfoldable pub send_directly : Env → ℕ → (msg : ℕ) → ℕ → ℕ → Sys → Sys × Status
unfolding leave_recv write_object wake
send_directly e i msg prev t s =
    let s' = leave_recv i t s in
    wake e prev t
      (write_object e (s'.heap t).block_object (s'.ipc.queues i).msg_size (bytes_at s' msg) s')

unfoldable pub wait_send : Env → ℕ → (msg timeout : ℕ) → ℕ → Option ℕ → Sys → Sys × Status
unfolding join_send await
wait_send e i msg timeout prev none s = (context_exit_critical prev s, failure)
wait_send e i msg timeout prev (some c) s = await e c prev (
    scheduler_block_task e (some c) queue_full (on_queue i)
      (join_send i c (set_timeout c timeout (keep_message c msg s))))

-- On a full queue.
unfoldable pub send_full : Env → ℕ → (msg timeout : ℕ) → ℕ → Option ℕ → Sys → Sys × Status
unfolding send_directly wait_send
send_full e i msg timeout prev (some t) s = send_directly e i msg prev t s
send_full e i msg timeout prev none s =
    if timeout == 0
    then (context_exit_critical prev s, failure)
    else wait_send e i msg timeout prev s.table.current_task s

unfoldable pub queue_send : Env → Option ℕ → (msg : Option ℕ) → (timeout : ℕ) → Sys → Sys × Status
unfolding send_full put_message
queue_send e none msg timeout s = (s, failure)
queue_send e (some i) none timeout s = (s, failure)
queue_send e (some i) (some msg) timeout s =
    let (s', prev) = context_enter_critical s in
    let q = s'.ipc.queues i in
    if leb q.capacity q.count
    then send_full e i msg timeout prev q.waiting_recv s'
    else (context_exit_critical prev (put_message e i (bytes_at s' msg) s'), success)

unfoldable pub receive_directly : Env → ℕ → (msg : ℕ) → ℕ → ℕ → Sys → Sys × Status
unfolding leave_send read_object wake
receive_directly e i msg prev t s =
    let s' = leave_send i t s in
    wake e prev t (read_object e (s'.heap t).block_object msg (s'.ipc.queues i).msg_size s')

unfoldable pub wait_recv : Env → ℕ → (msg timeout : ℕ) → ℕ → Option ℕ → Sys → Sys × Status
unfolding join_recv await
wait_recv e i msg timeout prev none s = (context_exit_critical prev s, failure)
wait_recv e i msg timeout prev (some c) s = await e c prev (
    scheduler_block_task e (some c) queue_empty (on_queue i)
      (join_recv i c (set_timeout c timeout (keep_message c msg s))))

-- On an empty queue.
unfoldable pub receive_empty : Env → ℕ → (msg timeout : ℕ) → ℕ → Option ℕ → Sys → Sys × Status
unfolding receive_directly wait_recv
receive_empty e i msg timeout prev (some t) s = receive_directly e i msg prev t s
receive_empty e i msg timeout prev none s =
    if timeout == 0
    then (context_exit_critical prev s, failure)
    else wait_recv e i msg timeout prev s.table.current_task s

-- After a message was taken, a task that waits to send is woken.
unfoldable pub refill : Env → ℕ → ℕ → Option ℕ → Sys → Sys × Status
unfolding leave_send put_object wake
refill e i prev none s = (context_exit_critical prev s, success)
refill e i prev (some t) s =
    let s' = leave_send i t s in wake e prev t (put_object e i (s'.heap t).block_object s')

unfoldable pub queue_receive :
    Env → Option ℕ → (msg : Option ℕ) → (timeout : ℕ) → Sys → Sys × Status
unfolding receive_empty take_message refill
queue_receive e none msg timeout s = (s, failure)
queue_receive e (some i) none timeout s = (s, failure)
queue_receive e (some i) (some msg) timeout s =
    let (s', prev) = context_enter_critical s in
    let q = s'.ipc.queues i in
    if q.count == 0
    then receive_empty e i msg timeout prev q.waiting_send s'
    else (let s1 = take_message e i msg s' in refill e i prev (s1.ipc.queues i).waiting_send s1)

-- The critical section that is entered and left again, and the count.
unfoldable pub queue_get_count : Option ℕ → Sys → Sys × ℕ
queue_get_count none s = (s, 0)
queue_get_count (some i) s =
    let (s', prev) = context_enter_critical s in
    (context_exit_critical prev s', (s'.ipc.queues i).count)

unfoldable pub queue_peek : Env → Option ℕ → (msg : Option ℕ) → Sys → Sys × Status
queue_peek e none msg s = (s, failure)
queue_peek e (some i) none s = (s, failure)
queue_peek e (some i) (some msg) s =
    let (s', prev) = context_enter_critical s in
    let q = s'.ipc.queues i in
    if q.count == 0 then (context_exit_critical prev s', failure) else (
      context_exit_critical prev (memcpy msg q.msg_size (bytes_at s' (slot e q q.head)) s'),
      success,
    )
