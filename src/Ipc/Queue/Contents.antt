-- ===== src/Ipc/Queue/Contents.antt =====
-- The messages that a queue holds: what putting one in and taking one out does to them.
use orbit_rtos.Base.{
  ℕ, suc, ◌+◌, ◌-◌, ◌*◌, ◌%◌, ◌≤◌, ◌<◌, ◌≡◌, ◌≢◌, refl, ◌∙◌, ap, sym, ◌⊎◌, List, [], ◌∷◌, ◌++◌,
  add32, u32_mod, arith,
}
use native.Mathlib.Nat.{mod-add-mod}
use orbit_rtos.Kernel.{Sys, Env, Queue}
use orbit_rtos.Ipc.Buffers.{copy, slot, put_message, take_message}
use orbit_rtos.Ipc.Queue.Slots.{
  bytes, messages, bytes-copy_same, bytes-copy_apart, messages_kept, messages_snoc, messages_same,
  slot_inside, slots_apart, mod_small, mod_in,
}

-- The indices are inside the buffer, the tail is `count` places behind the head, and the size of the
-- buffer fits into size_t.
pub record IsQueue (e : Env) (q : Queue) : Type 0 where
  pub head_in : q.head < q.capacity
  pub count_in : q.count ≤ q.capacity
  pub tail_lem : q.tail ≡ (q.head + q.count) % q.capacity
  pub sized : 0 < q.msg_size
  pub small : q.capacity < u32_mod
  pub fits : q.capacity * q.msg_size ≤ e.size_mod

-- The messages of a queue, the oldest one first.
unfoldable pub contents : Queue → (memory : ℕ → ℕ) → List (List ℕ)
contents q memory = messages q.buffer q.msg_size q.capacity memory q.head q.count

slot_lem :
    (e : Env) (q : Queue) (k : ℕ)
    → IsQueue e q
    → k < q.capacity
    → slot e q k ≡ q.buffer + k * q.msg_size
slot_lem e q k v l =
    let inside = slot_inside k q.capacity q.msg_size l in
    let lt : k * q.msg_size < e.size_mod = omega (arith, inside, v.fits, v.sized) in
    ap (λ x. q.buffer + x) (mod_small (k * q.msg_size) e.size_mod lt)

-- The queue after a message went in, and after one came out.
abbrev pub put_queue : Queue → Queue
put_queue q = record q { tail = add32 q.tail 1 % q.capacity; count = add32 q.count 1 }

abbrev pub take_queue : Queue → Queue
take_queue q = record q { head = add32 q.head 1 % q.capacity; count = q.count - 1 }

pub put-fields :
    (e : Env) (i : ℕ) (src : ℕ → ℕ) (s : Sys)
    → ((put_message e i src s).ipc.queues i ≡ put_queue (s.ipc.queues i))
      × ((put_message e i src s).critical ≡ s.critical)
unfolding put_message
put-fields e i src s = (ground arith, refl)

pub take-fields :
    (e : Env) (i msg : ℕ) (s : Sys)
    → ((take_message e i msg s).ipc.queues i ≡ take_queue (s.ipc.queues i))
      × ((take_message e i msg s).critical ≡ s.critical)
unfolding take_message
take-fields e i msg s = (ground arith, refl)

inc_lem : (e : Env) (q : Queue) (k : ℕ) → IsQueue e q → k < q.capacity → add32 k 1 ≡ k + 1
inc_lem e q k v l = omega (arith, v.small)

pub put-IsQueue :
    (e : Env) (q : Queue) → IsQueue e q → q.count < q.capacity → IsQueue e (put_queue q)
put-IsQueue e q v l = record {
  head_in = v.head_in;
  count_in = omega (arith, v.small);
  tail_lem =
      let place = (q.head + q.count) % q.capacity in
      let place_in = mod_in (q.head + q.count) q.capacity (omega arith) in
      ap (λ x. add32 x 1 % q.capacity) v.tail_lem
      ∙ ap (λ x. x % q.capacity) (inc_lem e q place v place_in)
      ∙ mod-add-mod (q.head + q.count) q.capacity 1
      ∙ ap (λ x. x % q.capacity) (omega (arith, inc_lem e q q.count v l));
  sized = v.sized;
  small = v.small;
  fits = v.fits;
}

pub take-IsQueue : (e : Env) (q : Queue) → IsQueue e q → q.count ≢ 0 → IsQueue e (take_queue q)
take-IsQueue e q v ne = record {
  head_in = mod_in (add32 q.head 1) q.capacity (omega (arith, v.head_in));
  count_in = omega (arith, v.count_in);
  tail_lem =
      v.tail_lem
      ∙ ap (λ x. x % q.capacity) (omega arith)
      ∙ sym (mod-add-mod (q.head + 1) q.capacity (q.count - 1))
      ∙ ap (λ x. (x % q.capacity + (q.count - 1)) % q.capacity)
          (sym (inc_lem e q q.head v v.head_in));
  sized = v.sized;
  small = v.small;
  fits = v.fits;
}

-- A slot and another one do not overlap.
apart_slots :
    (q : Queue) (j k : ℕ)
    → k ≢ j
    → (q.buffer + k * q.msg_size + q.msg_size ≤ q.buffer + j * q.msg_size)
      ⊎ (q.buffer + j * q.msg_size + q.msg_size ≤ q.buffer + k * q.msg_size)
apart_slots q j k ne = ground (arith, slots_apart k j q.msg_size ne)

pub put-contents :
    (e : Env) (q : Queue) (memory : ℕ → ℕ) (msg : ℕ)
    → IsQueue e q
    → q.count < q.capacity
    → contents (put_queue q) (copy memory (slot e q q.tail) q.msg_size (λ k. memory (msg + k)))
      ≡ contents q memory ++ bytes memory msg q.msg_size ∷ []
unfolding contents
put-contents e q memory msg v l =
    let place = (q.head + q.count) % q.capacity in
    let place_in : place < q.capacity = mod_in (q.head + q.count) q.capacity (omega arith) in
    let there = q.buffer + place * q.msg_size in
    let src : ℕ → ℕ = λ k. memory (msg + k) in
    let new = copy memory there q.msg_size src in
    let dest : slot e q q.tail ≡ there = ap (slot e q) v.tail_lem ∙ slot_lem e q place v place_in in
    let one_more : add32 q.count 1 ≡ suc q.count = omega (arith, v.small) in
    let old =
      messages_kept q.buffer q.msg_size q.capacity memory new q.head q.count q.count v.head_in
        (omega arith) l
        (λ k i ne.
          bytes-copy_apart memory src there q.msg_size (q.buffer + k * q.msg_size) q.msg_size
            (apart_slots q place k ne)) in
    let added = bytes-copy_same memory there q.msg_size msg in
    let grown = messages_snoc q.buffer q.msg_size q.capacity new q.head q.count v.head_in l in
    rw (one_more, dest) (grown ∙ rw (old, added) refl)

pub take-contents :
    (e : Env) (q : Queue) (memory : ℕ → ℕ)
    → IsQueue e q
    → q.count ≢ 0
    → contents q memory ≡ bytes memory (slot e q q.head) q.msg_size ∷ contents (take_queue q) memory
unfolding contents messages
take-contents e q memory v ne =
    let here = slot_lem e q q.head v v.head_in in
    let next = inc_lem e q q.head v v.head_in in
    let one_less : q.count ≡ suc (q.count - 1) = omega arith in
    ap (λ n. messages q.buffer q.msg_size q.capacity memory q.head n) one_less
    ∙ rw (here, next) refl

-- A write to the client's message.
pub copied-contents :
    (e : Env) (q : Queue) (memory src : ℕ → ℕ) (msg : ℕ)
    → IsQueue e q
    → (msg + q.msg_size ≤ q.buffer) ⊎ (q.buffer + q.capacity * q.msg_size ≤ msg)
    → contents q (copy memory msg q.msg_size src) ≡ contents q memory
unfolding contents
copied-contents e q memory src msg v apart =
    messages_same q.buffer q.msg_size q.capacity memory (copy memory msg q.msg_size src) q.head
      q.count v.head_in
      (λ k l.
        bytes-copy_apart memory src msg q.msg_size (q.buffer + k * q.msg_size) q.msg_size
          (ground (arith, slot_inside k q.capacity q.msg_size l)))
