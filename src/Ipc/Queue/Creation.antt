-- ===== src/Ipc/Queue/Creation.antt =====
-- queue_create makes an empty queue that is in order.
use orbit_rtos.Base.{
  ℕ, ◌*◌, ◌%◌, ◌<◌, ◌≤◌, ◌≡◌, ◌≢◌, refl, sym, subst, Bool, update, take, ◌-◌, ◌⊎◌, inl, inr, false,
  true, ◌==◌, Option, none, some, List, [], u32_mod, Option-cases, arith,
}
use orbit_rtos.Kernel.{Sys, Env, Queue, max_queues, max_task_name_len}
use orbit_rtos.Ipc.Objects.{find_free}
use orbit_rtos.Ipc.Objects.Chains.{FreeSlot, find_free_lem}
use orbit_rtos.Ipc.Queue.{queue_create}
use orbit_rtos.Ipc.Queue.Slots.{messages, mod_small}
use orbit_rtos.Ipc.Queue.Contents.{IsQueue, contents}

-- A queue of the given shape, with its buffer at `a`, that is in order, holds no message and has no
-- waiting tasks.
pub record IsEmptyQueue (e : Env) (a size capacity : ℕ) (memory : ℕ → ℕ) (q : Queue) : Type 0 where
  pub valid : IsQueue e q
  pub size_lem : q.msg_size ≡ size
  pub capacity_lem : q.capacity ≡ capacity
  pub buffer_lem : q.buffer ≡ a
  pub count_lem : q.count ≡ 0
  pub nothing : contents q memory ≡ []
  pub no_sender : q.waiting_send ≡ none
  pub no_receiver : q.waiting_recv ≡ none

abbrev new_queue : (a size capacity : ℕ) → List ℕ → Queue
new_queue a size cap name = record {
  buffer = a;
  msg_size = size;
  capacity = cap;
  count = 0;
  head = 0;
  tail = 0;
  waiting_send = none;
  waiting_recv = none;
  name = take (max_task_name_len - 1) name;
}

new-IsEmptyQueue :
    (e : Env) (a size capacity : ℕ) (name : List ℕ) (memory : ℕ → ℕ)
    → size ≢ 0
    → capacity ≢ 0
    → capacity < u32_mod
    → capacity * size ≤ e.size_mod
    → IsEmptyQueue e a size capacity memory (new_queue a size capacity name)
unfolding contents messages
new-IsEmptyQueue e a size capacity name memory sized some_room small fits = record {
  valid = record {
    head_in = omega arith;
    count_in = omega arith;
    tail_lem = sym (mod_small 0 capacity (omega arith));
    sized = omega arith;
    small = small;
    fits = fits;
  };
  size_lem = refl;
  capacity_lem = refl;
  buffer_lem = refl;
  count_lem = refl;
  nothing = refl;
  no_sender = refl;
  no_receiver = refl;
}

all_used :
    (in_use : ℕ → Bool)
    → find_free in_use max_queues 0 ≡ none
    → FreeSlot in_use max_queues 0 (find_free in_use max_queues 0)
    → (i : ℕ) → i < max_queues
    → in_use i ≡ true
unfolding FreeSlot
all_used in_use full found i l =
    let f = subst (FreeSlot in_use max_queues 0) full found in f i (omega arith) (omega arith)

slot_found :
    (in_use : ℕ → Bool) (i : ℕ)
    → find_free in_use max_queues 0 ≡ some i
    → FreeSlot in_use max_queues 0 (find_free in_use max_queues 0)
    → (0 ≤ i) × (i < max_queues) × (in_use i ≡ false)
unfolding FreeSlot
slot_found in_use i free found = subst (FreeSlot in_use max_queues 0) free found

same_queue : (s : Sys) (i : ℕ) (q : Queue) → q ≡ update s.ipc.queues i q i
same_queue s i q = ground arith

pub create-IsEmptyQueue :
    (e : Env) (malloc : ℕ → Option ℕ) (name : List ℕ) (size capacity a : ℕ) (s : Sys)
    → size ≢ 0
    → capacity ≢ 0
    → capacity < u32_mod
    → capacity * size ≤ e.size_mod
    → malloc ((size * capacity) % e.size_mod) ≡ some a
    → let (s', r) = queue_create e malloc (some name) size capacity s in
      (((i : ℕ) → i < max_queues → s.ipc.queue_used i ≡ true) × (r ≡ none) × (s' ≡ s))
      ⊎ ((i : ℕ) × (i < max_queues)
          × (s.ipc.queue_used i ≡ false)
          × (r ≡ some i)
          × (s'.ipc.queue_used i ≡ true)
          × IsEmptyQueue e a size capacity s'.memory (s'.ipc.queues i)
          × ((j : ℕ) → j ≢ i → s'.ipc.queues j ≡ s.ipc.queues j))
unfolding queue_create
create-IsEmptyQueue e malloc name size capacity a s sized some_room small fits memory =
    let no_size : (size == 0) ≡ false = ground arith in
    let no_room : (capacity == 0) ≡ false = ground arith in
    let found = find_free_lem s.ipc.queue_used max_queues 0 in
    elim (Option-cases (find_free s.ipc.queue_used max_queues 0)) [
      | inl full ↦
          rw (no_size, no_room, full)
            (inl (λ i l. all_used s.ipc.queue_used full found i l, refl, refl))
      | inr (i, free) ↦
          rw (no_size, no_room, free, memory)
            (inr (
              let new = new_queue a size capacity name in
              (
                i,
                (slot_found s.ipc.queue_used i free found).1,
                (slot_found s.ipc.queue_used i free found).2,
                refl,
                ground arith,
                subst (IsEmptyQueue e a size capacity s.memory) (same_queue s i new)
                    (new-IsEmptyQueue e a size capacity name s.memory sized some_room small fits),
                λ j ne. ground arith,
              )))
    ]
