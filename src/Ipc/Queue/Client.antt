-- ===== src/Ipc/Queue/Client.antt =====
-- A message queue whose operations do not wait, and for which no task waits, is a bounded queue, first
-- in, first out.
use orbit_rtos.Base.{
  ℕ, ◌+◌, ◌*◌, ◌≤◌, ◌<◌, ◌≡◌, ◌≢◌, refl, ◌∙◌, ap, sym, ◌⊎◌, inl, inr, Bool, true, ◌==◌, leb, ◌&&◌,
  some, List, [], ◌∷◌, length, update, arith, Bool-cases,
}
use orbit_rtos.Kernel.{Sys, Env, success}
use orbit_rtos.Ipc.Buffers.{copy, bytes_at, slot}
use orbit_rtos.Ipc.Queue.{queue_send, queue_receive, queue_peek}
use orbit_rtos.Ipc.Queue.Fifo.{
  push, pop, peek, Request, answer, answers, send, receive, look, Reply, sent, got,
}
use orbit_rtos.Ipc.Queue.Slots.{
  bytes, messages, bytes-copy_same, length-messages, messages_same, bytes-cong, slot_inside,
}
use orbit_rtos.Ipc.Queue.Contents.{contents, take-contents, copied-contents}
use orbit_rtos.Ipc.Queue.Serving.{
  Serves, Same, held, obtained, send_closed, receive_closed, peek_closed, put-Serves, take-Serves,
  put-held, take-held,
}

length-held : (s : Sys) (i : ℕ) → length (held s i) ≡ (s.ipc.queues i).count
unfolding contents
length-held s i =
    let q = s.ipc.queues i in length-messages q.buffer q.msg_size q.capacity s.memory q.head q.count

pub nothing_held : (s : Sys) (i : ℕ) → (s.ipc.queues i).count ≡ 0 → held s i ≡ []
unfolding contents messages
nothing_held s i h =
    let q = s.ipc.queues i in ap (messages q.buffer q.msg_size q.capacity s.memory q.head) h

-- Without waiting, queue_send does what `push` does to the messages that the queue holds: on a
-- full queue it fails, and otherwise the bytes at `msg` go in behind the others. The queue is in
-- order and stays so, no task waits for it, the message is not in its buffer, and critical
-- sections nest.
pub send_refines :
    (e : Env) (i msg : ℕ) (s : Sys)
    → Serves e i msg s
    → let (s', r) = queue_send e (some i) (some msg) 0 s in
      ((held s' i, r)
        ≡ push (s.ipc.queues i).capacity (held s i) (bytes s.memory msg (s.ipc.queues i).msg_size))
      × Serves e i msg s'
      × Same i s s'
unfolding push
send_refines e i msg s v =
    let q = s.ipc.queues i in
    let closed = send_closed e i msg s v in
    elim (Bool-cases (leb q.capacity q.count)) [
      | inl full ↦
          rw (closed, full, length-held s i, full)
            (refl, v, record { size_lem = refl; capacity_lem = refl })
      | inr space ↦
          let l : q.count < q.capacity = ground arith in
          let (served, same) = put-Serves e i msg (bytes_at s msg) s v l in
          rw (closed, space, length-held s i, space)
            (ap (λ x. (x, success)) (put-held e i msg s v l), served, same)
    ]

-- Without waiting, queue_receive does what `pop` does: on an empty queue it fails, and otherwise
-- the oldest message comes out and its bytes are at `msg`. The queue is in order and stays so, no
-- task waits for it, the message is not in its buffer, and critical sections nest.
pub receive_refines :
    (e : Env) (i msg : ℕ) (s : Sys)
    → Serves e i msg s
    → let (s', r) = queue_receive e (some i) (some msg) 0 s in
      ((held s' i, obtained (s.ipc.queues i).msg_size msg (s', r)) ≡ pop (held s i))
      × Serves e i msg s'
      × Same i s s'
unfolding pop
receive_refines e i msg s v =
    let q = s.ipc.queues i in
    let closed = receive_closed e i msg s v in
    elim (Bool-cases (q.count == 0)) [
      | inl empty ↦
          let nothing = nothing_held s i (ground arith) in
          rw (closed, empty, nothing) (refl, v, record { size_lem = refl; capacity_lem = refl })
      | inr full ↦
          let ne : q.count ≢ 0 = ground arith in
          let (served, same) = take-Serves e i msg s v ne in
          rw (closed, full, take-held e i msg s v ne) (refl, served, same)
    ]

copied-Serves :
    (e : Env) (i msg : ℕ) (memory : ℕ → ℕ) (s : Sys)
    → Serves e i msg s
    → Serves e i msg (record s { memory = memory })
copied-Serves e i msg memory s v = record {
  valid = v.valid;
  no_sender = v.no_sender;
  no_receiver = v.no_receiver;
  apart = v.apart;
  nested = record { has_room = v.nested.has_room; masked = v.nested.masked };
}

-- queue_peek does what `peek` does: on an empty queue it fails, and otherwise the bytes of the oldest
-- message are at `msg`, and the queue holds what it held.
pub peek_refines :
    (e : Env) (i msg : ℕ) (s : Sys)
    → Serves e i msg s
    → let (s', r) = queue_peek e (some i) (some msg) s in
      (obtained (s.ipc.queues i).msg_size msg (s', r) ≡ peek (held s i))
      × (held s' i ≡ held s i)
      × Serves e i msg s'
      × Same i s s'
unfolding peek
peek_refines e i msg s v =
    let q = s.ipc.queues i in
    let closed = peek_closed e i msg s v in
    elim (Bool-cases (q.count == 0)) [
      | inl empty ↦
          rw (closed, empty, nothing_held s i (ground arith))
            (refl, refl, v, record { size_lem = refl; capacity_lem = refl })
      | inr full ↦
          let ne : q.count ≢ 0 = ground arith in
          let src = bytes_at s (slot e q q.head) in
          let first = bytes-copy_same s.memory msg q.msg_size (slot e q q.head) in
          rw (closed, full)
            (
              rw (take-contents e q s.memory v.valid ne) (ap some first),
              copied-contents e q s.memory src msg v.valid v.apart,
              copied-Serves e i msg (copy s.memory msg q.msg_size src) s v,
              record { size_lem = refl; capacity_lem = refl },
            )
    ]

-- A client writes the message before it sends it.
abbrev pub write : (a : ℕ) → List ℕ → (memory : ℕ → ℕ) → ℕ → ℕ
write a [] memory = memory
write a (x ∷ xs) memory = update (write (a + 1) xs memory) a x

write-outside :
    (a : ℕ) (m : List ℕ) (memory : ℕ → ℕ) (x : ℕ)
    → (x < a) ⊎ (a + length m ≤ x)
    → write a m memory x ≡ memory x
write-outside a [] memory x out = refl
write-outside a (y ∷ m) memory x out = ground (arith, write-outside (a + 1) m memory x)

bytes-write : (a : ℕ) (m : List ℕ) (memory : ℕ → ℕ) → bytes (write a m memory) a (length m) ≡ m
unfolding bytes
bytes-write a [] memory = refl
bytes-write a (x ∷ m) memory =
    let rest =
      bytes-cong (write a (x ∷ m) memory) (write (a + 1) m memory) (a + 1) (a + 1) (length m)
        (λ k l. ground arith) in
    ground (arith, rest, bytes-write (a + 1) m memory)

write-held :
    (e : Env) (i msg : ℕ) (m : List ℕ) (s : Sys)
    → Serves e i msg s
    → length m ≡ (s.ipc.queues i).msg_size
    → held (record s { memory = write msg m s.memory }) i ≡ held s i
unfolding contents
write-held e i msg m s v sized =
    let q = s.ipc.queues i in
    messages_same q.buffer q.msg_size q.capacity s.memory (write msg m s.memory) q.head q.count
      v.valid.head_in
      (λ k l. bytes-cong (write msg m s.memory) s.memory _ _ q.msg_size (λ j u.
        write-outside msg m s.memory (q.buffer + k * q.msg_size + j)
          (ground (arith, v.apart, slot_inside k q.capacity q.msg_size l))))

-- A client's calls, none of which waits, and what it gets to see.
abbrev pub perform : Env → (i msg size : ℕ) → Request → Sys → Sys × Reply
perform e i msg size (send m) s =
    let (s', r) = queue_send e (some i) (some msg) 0 (record s { memory = write msg m s.memory }) in
    (s', sent r)
perform e i msg size receive s =
    let r = queue_receive e (some i) (some msg) 0 s in (r.0, got (obtained size msg r))
perform e i msg size look s =
    let r = queue_peek e (some i) (some msg) s in (r.0, got (obtained size msg r))

abbrev pub replies : Env → (i msg size : ℕ) → List Request → Sys → List Reply
replies e i msg size [] s = []
replies e i msg size (x ∷ xs) s =
    let (s', r) = perform e i msg size x s in r ∷ replies e i msg size xs s'

abbrev pub is_sized : (size : ℕ) → Request → Bool
is_sized size (send m) = length m == size
is_sized size receive = true
is_sized size look = true

abbrev pub all_sized : (size : ℕ) → List Request → Bool
all_sized size [] = true
all_sized size (x ∷ xs) = is_sized size x && all_sized size xs

perform-answer :
    (e : Env) (i msg : ℕ) (x : Request) (s : Sys)
    → Serves e i msg s
    → is_sized (s.ipc.queues i).msg_size x ≡ true
    → let (s', r) = perform e i msg (s.ipc.queues i).msg_size x s in
      ((held s' i, r) ≡ answer (s.ipc.queues i).capacity x (held s i))
      × Serves e i msg s'
      × Same i s s'
unfolding answer
perform-answer e i msg (send m) s v sized =
    let s0 : Sys = record s { memory = write msg m s.memory } in
    let (q, served, same) =
      send_refines e i msg s0 (copied-Serves e i msg (write msg m s.memory) s v) in
    let sized' : length m ≡ (s.ipc.queues i).msg_size = ground arith in
    let written : bytes s0.memory msg (s.ipc.queues i).msg_size ≡ m =
      ap (bytes s0.memory msg) (sym sized') ∙ bytes-write msg m s.memory in
    let holds = write-held e i msg m s v sized' in
    (
      ap (λ x. (x.0, sent x.1))
          (q ∙ rw (written) (ap (λ l. push (s.ipc.queues i).capacity l m) holds)),
      served,
      record { size_lem = same.size_lem; capacity_lem = same.capacity_lem },
    )
perform-answer e i msg receive s v sized =
    let (q, served, same) = receive_refines e i msg s v in
    (ap (λ x. (x.0, got x.1)) q, served, same)
perform-answer e i msg look s v sized =
    let (q, h, served, same) = peek_refines e i msg s v in (rw (q, h) refl, served, same)

-- Any sequence of queue_send, queue_receive and queue_peek that do not wait gives the client the
-- statuses and messages that a bounded first-in first-out queue gives which starts with the
-- messages that the queue holds. The queue is in order, no task waits for it, the client's message
-- is not in its buffer, critical sections nest, and every message that is sent has the queue's
-- message size.
pub replies-answers :
    (e : Env) (i msg : ℕ) (xs : List Request) (s : Sys)
    → Serves e i msg s
    → all_sized (s.ipc.queues i).msg_size xs ≡ true
    → replies e i msg (s.ipc.queues i).msg_size xs s
      ≡ answers (s.ipc.queues i).capacity xs (held s i)
unfolding answers
replies-answers e i msg [] s v sized = refl
replies-answers e i msg (x ∷ xs) s v sized =
    let size = (s.ipc.queues i).msg_size in
    let (q, served, same) = perform-answer e i msg x s v (ground arith) in
    let s' = (perform e i msg size x s).0 in
    let rest = replies-answers e i msg xs s' served (rw same.size_lem (ground arith)) in
    let moved : replies e i msg size xs s' ≡ answers (s.ipc.queues i).capacity xs (held s' i) =
      ap (λ z. replies e i msg z xs s') (sym same.size_lem)
      ∙ rest
      ∙ ap (λ z. answers z xs (held s' i)) same.capacity_lem in
    ap (λ l. (perform e i msg size x s).1 ∷ l) moved
    ∙ ap (λ z. z.1 ∷ answers (s.ipc.queues i).capacity xs z.0) q
