-- ===== src/Ipc/Queue/Waits.antt =====
-- Waiting for a queue: what becomes of the running task that has to wait.
use orbit_rtos.Base.{ℕ, ◌<◌, ◌≡◌, refl, ◌∙◌, ap, false, true, ◌==◌, none, some, is_ref, arith}
use orbit_rtos.Kernel.{Sys, Env, running, blocked, queue_empty, on_queue, failure}
use orbit_rtos.Kernel.Lists.{ListLaws}
use orbit_rtos.Context.{context_enter_critical, context_exit_critical}
use orbit_rtos.Scheduler.Blocking.{scheduler_block_task}
use orbit_rtos.Scheduler.Blocking.Placement.{IsPlaced, IsUnlisted}
use orbit_rtos.Ipc.Objects.{await, set_next, set_timeout}
use orbit_rtos.Ipc.Objects.Places.{SamePlace, set_prev-SamePlace, await_failed, wait_fails}
use orbit_rtos.Ipc.Buffers.{keep_message, join_recv}
use orbit_rtos.Ipc.Queue.{wait_recv, receive_empty, queue_receive}

queued-SamePlace :
    (s : Sys) (i c msg timeout : ℕ)
    → SamePlace s
        (join_recv i c (set_timeout c timeout (keep_message c msg (context_enter_critical s).0)))
        c
unfolding join_recv context_enter_critical
queued-SamePlace s i c msg timeout =
    let s1 = set_timeout c timeout (keep_message c msg (context_enter_critical s).0) in
    let first = (s1.ipc.queues i).waiting_recv in
    let f = set_prev-SamePlace first (some c) (set_next (some c) first s1) c in
    record {
      state_same = ground (arith, f.state_same);
      priority_same = ground (arith, f.priority_same);
      sched_same = ground (arith, f.sched_same);
      table_same = ground (arith, f.table_same);
    }

join-waiting : (i c : ℕ) (s : Sys) → ((join_recv i c s).ipc.queues i).waiting_recv ≡ some c
unfolding join_recv
join-waiting i c s = ground arith

receives_empty :
    (e : Env) (s : Sys) (i msg timeout : ℕ)
    → (s.ipc.queues i).count ≡ 0
    → let (s1, prev) = context_enter_critical s in
      queue_receive e (some i) (some msg) timeout s
      ≡ receive_empty e i msg timeout prev (s.ipc.queues i).waiting_send s1
unfolding queue_receive context_enter_critical
receives_empty e s i msg timeout empty =
    let test : ((s.ipc.queues i).count == 0) ≡ true = ground arith in rw test refl

empty_waits :
    (e : Env) (s : Sys) (i msg timeout prev : ℕ)
    → (timeout == 0) ≡ false
    → receive_empty e i msg timeout prev none s
      ≡ wait_recv e i msg timeout prev s.table.current_task s
unfolding receive_empty
empty_waits e s i msg timeout prev waits = rw waits refl

receive_waits :
    (e : Env) (s : Sys) (i c msg timeout : ℕ)
    → (s.ipc.queues i).count ≡ 0
    → (s.ipc.queues i).waiting_send ≡ none
    → 0 < timeout
    → s.table.current_task ≡ some c
    → let (s1, prev) = context_enter_critical s in
      queue_receive e (some i) (some msg) timeout s
      ≡ await e c prev (
          scheduler_block_task e
            (some c)
            queue_empty
            (on_queue i)
            (join_recv i c (set_timeout c timeout (keep_message c msg s1))))
unfolding wait_recv context_enter_critical
receive_waits e s i c msg timeout empty no_sender positive cur =
    let (s1, prev) = context_enter_critical s in
    let waits : (timeout == 0) ≡ false = ground arith in
    receives_empty e s i msg timeout empty
    ∙ ap (λ o. receive_empty e i msg timeout prev o s1) no_sender
    ∙ empty_waits e s1 i msg timeout prev waits
    ∙ ap (λ o. wait_recv e i msg timeout prev o s1) cur

-- With memory for the lists, and a list_remove that refuses what the list does not hold,
-- queue_receive by a running current task that is in its place and not the idle task, with a
-- timeout that is not 0, on an empty queue for which nobody waits to send, fails: the task is then
-- BLOCKED, in no list of the scheduler, and first in the list of those that wait to receive.
pub receive_running :
    {e : Env} (laws : ListLaws e) (s : Sys) (i c msg timeout : ℕ)
    → (s.ipc.queues i).count ≡ 0
    → (s.ipc.queues i).waiting_send ≡ none
    → 0 < timeout
    → s.table.current_task ≡ some c
    → is_ref s.table.idle_task c ≡ false
    → IsPlaced s c
    → (s.heap c).state ≡ running
    → let (s', r) = queue_receive e (some i) (some msg) timeout s in
      (r ≡ failure)
      × ((s'.heap c).state ≡ blocked)
      × IsUnlisted s' c
      × ((s'.ipc.queues i).waiting_recv ≡ some c)
receive_running {e} laws s i c msg timeout empty no_sender positive cur idle v run =
    let (s1, prev) = context_enter_critical s in
    let kept = set_timeout c timeout (keep_message c msg s1) in
    let s2 = join_recv i c kept in
    let m = scheduler_block_task e (some c) queue_empty (on_queue i) s2 in
    let (failed, state, unlisted, objects) =
      wait_fails laws s s2 c prev queue_empty (on_queue i) (queued-SamePlace s i c msg timeout) idle
        v run in
    let to_block : queue_receive e (some i) (some msg) timeout s
        ≡ (context_exit_critical prev m.0, failure) =
      receive_waits e s i c msg timeout empty no_sender positive cur
      ∙ await_failed e c prev m failed in
    rw to_block
      (refl, state, unlisted, ap (λ x. (x.queues i).waiting_recv) objects ∙ join-waiting i c kept)
