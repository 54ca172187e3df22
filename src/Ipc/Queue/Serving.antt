-- ===== src/Ipc/Queue/Serving.antt =====
-- A message queue for which no task waits, in the state of the kernel: its operations in closed form,
-- and what they do to the messages that it holds.
use orbit_rtos.Base.{
  ℕ, ◌+◌, ◌*◌, ◌≤◌, ◌<◌, ◌≡◌, ◌≢◌, refl, ◌∙◌, ap, sym, subst, ◌⊎◌, ◌==◌, leb, if◌then◌else◌, Option,
  none, some, List, [], ◌∷◌, ◌++◌, arith,
}
use orbit_rtos.Kernel.{Sys, Env, Status, success, failure}
use orbit_rtos.Context.{context_enter_critical, context_exit_critical}
use orbit_rtos.Context.Critical.{IsNested}
use orbit_rtos.Ipc.Buffers.{copy, memcpy, bytes_at, slot, put_message, take_message}
use orbit_rtos.Ipc.Queue.{queue_send, queue_receive, queue_peek, send_full, receive_empty, refill}
use orbit_rtos.Ipc.Queue.Slots.{bytes, bytes-copy_same}
use orbit_rtos.Ipc.Queue.Contents.{
  IsQueue, contents, take_queue, put-fields, take-fields, put-IsQueue, take-IsQueue, put-contents,
  take-contents, copied-contents,
}

-- No task waits for the queue, and a client's message is not in the queue's buffer.
pub record Serves (e : Env) (i msg : ℕ) (s : Sys) : Type 0 where
  pub valid : IsQueue e (s.ipc.queues i)
  pub no_sender : (s.ipc.queues i).waiting_send ≡ none
  pub no_receiver : (s.ipc.queues i).waiting_recv ≡ none
  pub apart :
      (msg + (s.ipc.queues i).msg_size ≤ (s.ipc.queues i).buffer)
      ⊎ ((s.ipc.queues i).buffer + (s.ipc.queues i).capacity * (s.ipc.queues i).msg_size ≤ msg)
  pub nested : IsNested s

-- The operations in closed form.
pub send_closed :
    (e : Env) (i msg : ℕ) (s : Sys)
    → Serves e i msg s
    → queue_send e (some i) (some msg) 0 s ≡ (
        if leb (s.ipc.queues i).capacity (s.ipc.queues i).count
        then (s, failure)
        else (put_message e i (bytes_at s msg) s, success))
unfolding queue_send send_full put_message context_enter_critical context_exit_critical
send_closed e i msg s v = ground (arith, v.no_receiver, v.nested)

pub receive_closed :
    (e : Env) (i msg : ℕ) (s : Sys)
    → Serves e i msg s
    → queue_receive e (some i) (some msg) 0 s
      ≡ (if (s.ipc.queues i).count == 0 then (s, failure) else (take_message e i msg s, success))
unfolding queue_receive receive_empty take_message refill context_enter_critical
    context_exit_critical
receive_closed e i msg s v = ground (arith, v.no_sender, v.nested)

-- With a message in the queue, the timeout does not matter.
pub receive_some :
    (e : Env) (i msg timeout : ℕ) (s : Sys)
    → Serves e i msg s
    → (s.ipc.queues i).count ≢ 0
    → queue_receive e (some i) (some msg) timeout s ≡ (take_message e i msg s, success)
unfolding queue_receive receive_empty take_message refill context_enter_critical
    context_exit_critical
receive_some e i msg timeout s v ne = ground (arith, v.no_sender, v.nested)

pub peek_closed :
    (e : Env) (i msg : ℕ) (s : Sys)
    → Serves e i msg s
    → queue_peek e (some i) (some msg) s ≡ (
        if (s.ipc.queues i).count == 0 then (s, failure) else (
          memcpy msg
              (s.ipc.queues i).msg_size
              (bytes_at s (slot e (s.ipc.queues i) (s.ipc.queues i).head))
              s,
          success,
        ))
unfolding queue_peek context_enter_critical context_exit_critical
peek_closed e i msg s v = ground (arith, v.nested)

abbrev pub held : Sys → ℕ → List (List ℕ)
held s i = contents (s.ipc.queues i) s.memory

-- The bytes that a client finds in its message after a call that returned 0.
abbrev pub obtained : (size msg : ℕ) → Sys × Status → Option (List ℕ)
obtained size msg (s, success) = some (bytes s.memory msg size)
obtained size msg (s, failure) = none

-- What an operation leaves as it was.
pub record Same (i : ℕ) (s s' : Sys) : Type 0 where
  pub size_lem : (s'.ipc.queues i).msg_size ≡ (s.ipc.queues i).msg_size
  pub capacity_lem : (s'.ipc.queues i).capacity ≡ (s.ipc.queues i).capacity

-- Only the indices and the count of the queue may change.
moved-Serves :
    (e : Env) (i msg h t n : ℕ) (s s' : Sys)
    → Serves e i msg s
    → s'.ipc.queues i ≡ record (s.ipc.queues i) { head = h; tail = t; count = n }
    → s'.critical ≡ s.critical
    → IsQueue e (record (s.ipc.queues i) { head = h; tail = t; count = n })
    → Serves e i msg s' × Same i s s'
moved-Serves e i msg h t n s s' v q c valid' = (
  record {
    valid = subst (IsQueue e) (sym q) valid';
    no_sender = rw q v.no_sender;
    no_receiver = rw q v.no_receiver;
    apart = rw q v.apart;
    nested = record { has_room = rw c v.nested.has_room; masked = rw c v.nested.masked };
  },
  record { size_lem = rw q refl; capacity_lem = rw q refl },
)

pub put-Serves :
    (e : Env) (i msg : ℕ) (src : ℕ → ℕ) (s : Sys)
    → Serves e i msg s
    → (s.ipc.queues i).count < (s.ipc.queues i).capacity
    → Serves e i msg (put_message e i src s) × Same i s (put_message e i src s)
put-Serves e i msg src s v l =
    let (q, c) = put-fields e i src s in
    moved-Serves e i msg _ _ _ s (put_message e i src s) v q c
      (put-IsQueue e (s.ipc.queues i) v.valid l)

pub take-Serves :
    (e : Env) (i msg : ℕ) (s : Sys)
    → Serves e i msg s
    → (s.ipc.queues i).count ≢ 0
    → Serves e i msg (take_message e i msg s) × Same i s (take_message e i msg s)
take-Serves e i msg s v ne =
    let (q, c) = take-fields e i msg s in
    moved-Serves e i msg _ _ _ s (take_message e i msg s) v q c
      (take-IsQueue e (s.ipc.queues i) v.valid ne)

-- With room for another message, the message goes in behind the others.
pub put-held :
    (e : Env) (i msg : ℕ) (s : Sys)
    → Serves e i msg s
    → (s.ipc.queues i).count < (s.ipc.queues i).capacity
    → held (put_message e i (bytes_at s msg) s) i
      ≡ held s i ++ bytes s.memory msg (s.ipc.queues i).msg_size ∷ []
unfolding put_message
put-held e i msg s v l =
    let (q, c) = put-fields e i (bytes_at s msg) s in
    ap (λ x. contents x (put_message e i (bytes_at s msg) s).memory) q
    ∙ put-contents e (s.ipc.queues i) s.memory msg v.valid l

pub take-held :
    (e : Env) (i msg : ℕ) (s : Sys)
    → Serves e i msg s
    → (s.ipc.queues i).count ≢ 0
    → held s i
      ≡ bytes (take_message e i msg s).memory msg (s.ipc.queues i).msg_size
        ∷ held (take_message e i msg s) i
unfolding take_message
take-held e i msg s v ne =
    let q = s.ipc.queues i in
    let src = bytes_at s (slot e q q.head) in
    let first = bytes-copy_same s.memory msg q.msg_size (slot e q q.head) in
    let rest =
      ap (λ x. contents x (copy s.memory msg q.msg_size src)) (take-fields e i msg s).0
      ∙ copied-contents e (take_queue q) s.memory src msg (take-IsQueue e q v.valid ne) v.apart in
    take-contents e q s.memory v.valid ne ∙ rw (first, rest) refl
