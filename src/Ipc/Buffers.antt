-- ===== src/Ipc/Buffers.antt =====
-- src/kernel/ipc.c: the buffer of a message queue, and its lists of waiting tasks.
-- A message and the buffer of a queue are bytes of the memory. A task that waits keeps the address of
-- its message in block_object, where scheduler_block_task then writes the address of the queue; what
-- the source copies from there and to there goes through `object_bytes` and `overwrite` of the
-- environment.
use orbit_rtos.Base.{
  ℕ, ◌+◌, ◌-◌, ◌*◌, ◌%◌, Bool, ◌&&◌, ltb, leb, if◌then◌else◌, Option, some, update, add32,
}
use orbit_rtos.Kernel.{Sys, Env, Queue, BlockObject, null, buffer, set_task}
use orbit_rtos.Ipc.Objects.{set_ipc, set_prev, set_next, unlink_first}

abbrev pub set_queue : Sys → ℕ → Queue → Sys
set_queue s i q = set_ipc s (record (s.ipc) { queues = update s.ipc.queues i q })

abbrev pub mark_queue : Sys → ℕ → Bool → Sys
mark_queue s i b = set_ipc s (record (s.ipc) { queue_used = update s.ipc.queue_used i b })

abbrev pub set_waiting_send : Sys → ℕ → Option ℕ → Sys
set_waiting_send s i o = set_queue s i (record (s.ipc.queues i) { waiting_send = o })

abbrev pub set_waiting_recv : Sys → ℕ → Option ℕ → Sys
set_waiting_recv s i o = set_queue s i (record (s.ipc.queues i) { waiting_recv = o })

-- memcpy: `n` bytes, given by their offsets, to the address `dest`.
abbrev pub copy : (memory : ℕ → ℕ) → (dest n : ℕ) → (ℕ → ℕ) → ℕ → ℕ
copy memory dest n src a = if leb dest a && ltb a (dest + n) then src (a - dest) else memory a

abbrev pub memcpy : (dest n : ℕ) → (ℕ → ℕ) → Sys → Sys
memcpy dest n src s = record s { memory = copy s.memory dest n src }

-- The bytes from an address on.
abbrev pub bytes_at : Sys → ℕ → ℕ → ℕ
bytes_at s a k = s.memory (a + k)

-- What a block_object points to, other than NULL, is read and written.
unfoldable pub bytes_of : Env → BlockObject → Sys → ℕ → ℕ
bytes_of e (buffer a) s = bytes_at s a
bytes_of e o s = e.object_bytes o s

unfoldable pub write_object : Env → BlockObject → (n : ℕ) → (ℕ → ℕ) → Sys → Sys
write_object e null n src s = s
write_object e (buffer a) n src s = memcpy a n src s
write_object e o n src s = e.overwrite o n src s

-- The bytes of the message at an index of the buffer.
abbrev pub slot : Env → Queue → ℕ → ℕ
slot e q k = q.buffer + (k * q.msg_size) % e.size_mod

-- A message goes in behind the last one.
unfoldable pub put_message : Env → ℕ → (ℕ → ℕ) → Sys → Sys
put_message e i src s =
    let q = s.ipc.queues i in
    set_queue (memcpy (slot e q q.tail) q.msg_size src s) i
      (record q { tail = add32 q.tail 1 % q.capacity; count = add32 q.count 1 })

-- The first message comes out.
unfoldable pub take_message : Env → ℕ → (msg : ℕ) → Sys → Sys
take_message e i msg s =
    let q = s.ipc.queues i in
    set_queue (memcpy msg q.msg_size (bytes_at s (slot e q q.head)) s) i
      (record q { head = add32 q.head 1 % q.capacity; count = q.count - 1 })

unfoldable pub read_object : Env → BlockObject → (msg n : ℕ) → Sys → Sys
unfolding bytes_of
read_object e null msg n s = s
read_object e o msg n s = memcpy msg n (bytes_of e o s) s

-- The message of a waiting task goes into the queue.
unfoldable pub put_object : Env → ℕ → BlockObject → Sys → Sys
unfolding bytes_of put_message
put_object e i null s = s
put_object e i o s = put_message e i (bytes_of e o s) s

-- The task keeps the address of its message.
abbrev pub keep_message : ℕ → ℕ → Sys → Sys
keep_message c msg s = set_task s c (record (s.heap c) { block_object = buffer msg })

-- The current task goes to the front of a waiting list.
unfoldable pub join_send : ℕ → ℕ → Sys → Sys
join_send i c s =
    let first = (s.ipc.queues i).waiting_send in
    set_waiting_send (set_prev first (some c) (set_next (some c) first s)) i (some c)

unfoldable pub join_recv : ℕ → ℕ → Sys → Sys
join_recv i c s =
    let first = (s.ipc.queues i).waiting_recv in
    set_waiting_recv (set_prev first (some c) (set_next (some c) first s)) i (some c)

-- The first task of a waiting list leaves it.
unfoldable pub leave_recv : ℕ → ℕ → Sys → Sys
unfolding unlink_first
leave_recv i t s = let after = (s.heap t).next in unlink_first t after (set_waiting_recv s i after)

unfoldable pub leave_send : ℕ → ℕ → Sys → Sys
unfolding unlink_first
leave_send i t s = let after = (s.heap t).next in unlink_first t after (set_waiting_send s i after)
