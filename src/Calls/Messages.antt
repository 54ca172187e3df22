-- ===== src/Calls/Messages.antt =====
-- The calls on queues, and those that delete an object or do not wait, keep the scheduler consistent.
use orbit_rtos.Base.{
  ℕ, refl, inl, inr, Option, none, some, Bool-cases, Option-cases, leb, ltb, is_ref, ◌==◌,
}
use orbit_rtos.Kernel.{Sys, Env, BlockObject, null, buffer, max_semaphores, max_queues}
use orbit_rtos.Context.{context_enter_critical, context_exit_critical}
use orbit_rtos.Scheduler.Switch.Running.{IsConsistent}
use orbit_rtos.Scheduler.Switch.Rely.{Rely, same-IsConsistent}
use orbit_rtos.Scheduler.Tick.Consistency.{unblock-IsConsistent}
use orbit_rtos.Ipc.Objects.{find_index}
use orbit_rtos.Ipc.Buffers.{
  bytes_at, bytes_of, write_object, read_object, put_message, take_message, put_object, leave_send,
  leave_recv,
}
use orbit_rtos.Ipc.Queue.{
  wake, send_directly, send_full, queue_send, receive_directly, receive_empty, refill,
  queue_receive, queue_delete, wake_receivers, queue_deleted,
}
use orbit_rtos.Ipc.Semaphore.{semaphore_take, semaphore_delete, delete_marked}
use orbit_rtos.Ipc.Mutex.{mutex_lock, lock_by}
use orbit_rtos.Ipc.EventGroup.{event_group_delete, group_deleted, event_group_clear_flags}
use orbit_rtos.Calls.Links.{unlink_first-IsConsistent}
use orbit_rtos.Calls.Wakes.{
  Fine, Good, exit-IsConsistent, enter-IsConsistent, switched-IsConsistent, unblock_waiting-Fine,
}

-- Messages that the code writes over an object of ipc.c keep the scheduler consistent.
abbrev pub Overwrites : Env → Type 0
Overwrites e =
    (o : BlockObject) (n : ℕ) (src : ℕ → ℕ) (s : Sys)
    → IsConsistent s
    → IsConsistent (e.overwrite o n src s)

put_message-IsConsistent :
    (e : Env) (i : ℕ) (src : ℕ → ℕ) (s : Sys)
    → IsConsistent s
    → IsConsistent (put_message e i src s)
unfolding put_message
put_message-IsConsistent e i src s c = same-IsConsistent refl refl c

put_object-IsConsistent :
    (e : Env) (i : ℕ) (o : BlockObject) (s : Sys)
    → IsConsistent s
    → IsConsistent (put_object e i o s)
unfolding put_object
put_object-IsConsistent e i null s c = c
put_object-IsConsistent e i o s c = put_message-IsConsistent e i (bytes_of e o s) s c

read_object-IsConsistent :
    (e : Env) (o : BlockObject) (msg n : ℕ) (s : Sys)
    → IsConsistent s
    → IsConsistent (read_object e o msg n s)
unfolding read_object
read_object-IsConsistent e null msg n s c = c
read_object-IsConsistent e o msg n s c = same-IsConsistent refl refl c

leave_send-IsConsistent : (i t : ℕ) (s : Sys) → IsConsistent s → IsConsistent (leave_send i t s)
unfolding leave_send
leave_send-IsConsistent i t s c =
    unlink_first-IsConsistent t (s.heap t).next _ (same-IsConsistent refl refl c)

leave_recv-IsConsistent : (i t : ℕ) (s : Sys) → IsConsistent s → IsConsistent (leave_recv i t s)
unfolding leave_recv
leave_recv-IsConsistent i t s c =
    unlink_first-IsConsistent t (s.heap t).next _ (same-IsConsistent refl refl c)

write_object-IsConsistent :
    (e : Env) (over : Overwrites e) (o : BlockObject) (n : ℕ) (src : ℕ → ℕ) (s : Sys)
    → IsConsistent s
    → IsConsistent (write_object e o n src s)
unfolding write_object
write_object-IsConsistent e over null n src s c = c
write_object-IsConsistent e over (buffer a) n src s c = same-IsConsistent refl refl c
write_object-IsConsistent e over o n src s c = over o n src s c

module _ (e : Env) (rely : Rely e) where
  wake-IsConsistent : (prev t : ℕ) (s : Sys) → IsConsistent s → IsConsistent (wake e prev t s).0
  unfolding wake
  wake-IsConsistent prev t s c = switched-IsConsistent e rely prev _ (unblock-IsConsistent e s t c)

  send_full-IsConsistent :
      (over : Overwrites e) (i msg prev : ℕ) (o : Option ℕ) (s : Sys)
      → IsConsistent s
      → IsConsistent (send_full e i msg 0 prev o s).0
  unfolding send_full send_directly
  send_full-IsConsistent over i msg prev none s c = exit-IsConsistent prev s c
  send_full-IsConsistent over i msg prev (some t) s c =
      let s' = leave_recv i t s in
      wake-IsConsistent prev t _ (
        write_object-IsConsistent e over (s'.heap t).block_object _ _ s'
          (leave_recv-IsConsistent i t s c))

  -- Sending without waiting.
  pub send-IsConsistent :
      (over : Overwrites e) (o msg : Option ℕ) (s : Sys)
      → IsConsistent s
      → IsConsistent (queue_send e o msg 0 s).0
  unfolding queue_send
  send-IsConsistent over none msg s c = c
  send-IsConsistent over (some i) none s c = c
  send-IsConsistent over (some i) (some msg) s c =
      let (s', prev) = context_enter_critical s in
      let c' = enter-IsConsistent s c in
      let q = s'.ipc.queues i in
      elim (Bool-cases (leb q.capacity q.count)) [
        | inl full ↦ rw full (send_full-IsConsistent over i msg prev q.waiting_recv s' c')
        | inr room ↦
            rw room
              (exit-IsConsistent prev _ (put_message-IsConsistent e i (bytes_at s' msg) s' c'))
      ]

  receive_empty-IsConsistent :
      (i msg prev : ℕ) (o : Option ℕ) (s : Sys)
      → IsConsistent s
      → IsConsistent (receive_empty e i msg 0 prev o s).0
  unfolding receive_empty receive_directly
  receive_empty-IsConsistent i msg prev none s c = exit-IsConsistent prev s c
  receive_empty-IsConsistent i msg prev (some t) s c =
      let s' = leave_send i t s in
      wake-IsConsistent prev t _ (
        read_object-IsConsistent e (s'.heap t).block_object msg _ s'
          (leave_send-IsConsistent i t s c))

  refill-IsConsistent :
      (i prev : ℕ) (o : Option ℕ) (s : Sys) → IsConsistent s → IsConsistent (refill e i prev o s).0
  unfolding refill
  refill-IsConsistent i prev none s c = exit-IsConsistent prev s c
  refill-IsConsistent i prev (some t) s c =
      let s' = leave_send i t s in
      wake-IsConsistent prev t _
        (put_object-IsConsistent e i (s'.heap t).block_object s' (leave_send-IsConsistent i t s c))

  -- Receiving without waiting.
  pub receive-IsConsistent :
      (o msg : Option ℕ) (s : Sys) → IsConsistent s → IsConsistent (queue_receive e o msg 0 s).0
  unfolding queue_receive take_message
  receive-IsConsistent none msg s c = c
  receive-IsConsistent (some i) none s c = c
  receive-IsConsistent (some i) (some msg) s c =
      let (s', prev) = context_enter_critical s in
      let c' = enter-IsConsistent s c in
      let s1 = take_message e i msg s' in
      let c1 : IsConsistent s1 = same-IsConsistent refl refl c' in
      elim (Bool-cases ((s'.ipc.queues i).count == 0)) [
        | inl empty ↦
            rw empty (receive_empty-IsConsistent i msg prev (s'.ipc.queues i).waiting_send s' c')
        | inr full ↦ rw full (refill-IsConsistent i prev (s1.ipc.queues i).waiting_send s1 c1)
      ]

  -- Taking a semaphore, and locking a mutex, without waiting.
  pub take-IsConsistent :
      (o : Option ℕ) (s : Sys) → IsConsistent s → IsConsistent (semaphore_take e o 0 s).0
  unfolding semaphore_take
  take-IsConsistent none s c = c
  take-IsConsistent (some i) s c =
      let (s', prev) = context_enter_critical s in
      let c' = enter-IsConsistent s c in
      elim (Bool-cases (ltb 0 (s'.ipc.semaphores i).count)) [
        | inl some_left ↦ rw some_left (exit-IsConsistent prev _ (same-IsConsistent refl refl c'))
        | inr empty ↦ rw empty (exit-IsConsistent prev s' c')
      ]

  lock_by-IsConsistent :
      (i prev : ℕ) (o : Option ℕ) (s : Sys)
      → IsConsistent s
      → IsConsistent (lock_by e i 0 prev o s).0
  unfolding lock_by
  lock_by-IsConsistent i prev none s c = exit-IsConsistent prev s c
  lock_by-IsConsistent i prev (some t) s c =
      let m = s.ipc.mutexes i in
      let outside = exit-IsConsistent prev s c in
      elim (Bool-cases m.locked) [
        | inr free ↦ rw free (exit-IsConsistent prev _ (same-IsConsistent refl refl c))
        | inl taken ↦ elim (Bool-cases (is_ref m.owner t)) [
          | inl own ↦ rw (taken, own) outside
          | inr other ↦ rw (taken, other) outside
        ]
      ]

  pub lock-IsConsistent :
      (o : Option ℕ) (s : Sys) → IsConsistent s → IsConsistent (mutex_lock e o 0 s).0
  unfolding mutex_lock
  lock-IsConsistent none s c = c
  lock-IsConsistent (some i) s c =
      let (s', prev) = context_enter_critical s in
      lock_by-IsConsistent i prev s'.table.current_task s' (enter-IsConsistent s c)

  marked-Good : (i : ℕ) (o : Option Sys) → Fine o → Good (delete_marked i o)
  unfolding delete_marked
  marked-Good i none c = tt
  marked-Good i (some s) c = same-IsConsistent refl refl c

  pub semaphore_delete-Good :
      (fuel : ℕ) (o : Option ℕ) (s : Sys) → IsConsistent s → Good (semaphore_delete e fuel o s)
  unfolding semaphore_delete
  semaphore_delete-Good fuel none s c = c
  semaphore_delete-Good fuel (some p) s c = elim (Option-cases (find_index p max_semaphores 0)) [
    | inl elsewhere ↦ rw elsewhere c
    | inr (i, found) ↦
        rw found (
          marked-Good i _ (unblock_waiting-Fine e rely fuel (s.ipc.semaphores i).waiting_tasks s c))
  ]

  group_deleted-Good : (i : ℕ) (o : Option Sys) → Fine o → Good (group_deleted i o)
  group_deleted-Good i none c = tt
  group_deleted-Good i (some s) c = same-IsConsistent refl refl c

  pub event_group_delete-Good :
      (fuel : ℕ) (o : Option ℕ) (s : Sys) → IsConsistent s → Good (event_group_delete e fuel o s)
  unfolding event_group_delete
  event_group_delete-Good fuel none s c = c
  event_group_delete-Good fuel (some p) s c = elim (Option-cases (find_index p max_semaphores 0)) [
    | inl elsewhere ↦ rw elsewhere c
    | inr (i, found) ↦ rw found (
        group_deleted-Good i _
          (unblock_waiting-Fine e rely fuel (s.ipc.event_groups i).waiting_tasks s c))
  ]

  receivers-Fine : (fuel i : ℕ) (o : Option Sys) → Fine o → Fine (wake_receivers e fuel i o)
  receivers-Fine fuel i none c = tt
  receivers-Fine fuel i (some s) c =
      unblock_waiting-Fine e rely fuel (s.ipc.queues i).waiting_recv s c

  queue_deleted-Good : (i : ℕ) (o : Option Sys) → Fine o → Good (queue_deleted i o)
  queue_deleted-Good i none c = tt
  queue_deleted-Good i (some s) c = same-IsConsistent refl refl c

  pub queue_delete-Good :
      (fuel : ℕ) (o : Option ℕ) (s : Sys) → IsConsistent s → Good (queue_delete e fuel o s)
  unfolding queue_delete
  queue_delete-Good fuel none s c = c
  queue_delete-Good fuel (some p) s c = elim (Option-cases (find_index p max_queues 0)) [
    | inl elsewhere ↦ rw elsewhere c
    | inr (i, found) ↦ rw found (
        queue_deleted-Good i _ (
          receivers-Fine fuel i _
            (unblock_waiting-Fine e rely fuel (s.ipc.queues i).waiting_send s c)))
  ]

pub clear_flags-IsConsistent :
    (o : Option ℕ) (flags : ℕ) (s : Sys)
    → IsConsistent s
    → IsConsistent (event_group_clear_flags o flags s).0
unfolding event_group_clear_flags context_enter_critical context_exit_critical
clear_flags-IsConsistent none flags s c = c
clear_flags-IsConsistent (some i) flags s c = same-IsConsistent refl refl c
