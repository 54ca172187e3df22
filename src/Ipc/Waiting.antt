-- ===== src/Ipc/Waiting.antt =====
-- The waiting lists of all kinds of objects: they stay linked when a task joins one and when the first
-- one leaves.
use orbit_rtos.Base.{
  ℕ, ◌≡◌, refl, ◌∙◌, sym, ap, subst, false, if◌then◌else◌, Option, none, some, List, [], ◌∷◌,
  contains, erase_head, is_ref, arith,
}
use orbit_rtos.Kernel.{Sys, Task}
use orbit_rtos.Ipc.Objects.{set_prev, set_next, unlink}
use orbit_rtos.Ipc.Objects.Links.{IsLinked}
use orbit_rtos.Ipc.Objects.Unlink.{
  front-IsLinked, unlink_first-IsLinked, unlink-IsLinked, unlink-ipc, unlink_first-ipc,
}
use orbit_rtos.Ipc.Semaphore.{set_semaphore, enqueue, dequeue}
use orbit_rtos.Ipc.Mutex.{join, set_waiting, pass_to}
use orbit_rtos.Ipc.Buffers.{
  join_send, join_recv, leave_send, leave_recv, set_waiting_send, set_waiting_recv,
}
use orbit_rtos.Ipc.EventGroup.{join_waiting, set_waiting_tasks}

-- The lists of waiting tasks, each with the index of its object.
pub data WaitingList : Type 0 where
  of_semaphore of_mutex of_senders of_receivers of_event_group : ℕ → WaitingList

unfoldable pub head_of : WaitingList → Sys → Option ℕ
head_of (of_semaphore i) s = (s.ipc.semaphores i).waiting_tasks
head_of (of_mutex i) s = (s.ipc.mutexes i).waiting_tasks
head_of (of_senders i) s = (s.ipc.queues i).waiting_send
head_of (of_receivers i) s = (s.ipc.queues i).waiting_recv
head_of (of_event_group i) s = (s.ipc.event_groups i).waiting_tasks

-- How a task joins it before it is blocked.
unfoldable pub join_list : WaitingList → ℕ → Sys → Sys
join_list (of_semaphore i) c s = enqueue i c s
join_list (of_mutex i) c s = join i c s
join_list (of_senders i) c s = join_send i c s
join_list (of_receivers i) c s = join_recv i c s
join_list (of_event_group i) c s = join_waiting i c s

-- How the first task leaves it before it is unblocked.
unfoldable pub leave_list : WaitingList → ℕ → Sys → Sys
leave_list (of_semaphore i) t s = dequeue i t s
leave_list (of_mutex i) t s = pass_to i t s
leave_list (of_senders i) t s = leave_send i t s
leave_list (of_receivers i) t s = leave_recv i t s
leave_list (of_event_group i) t s = unlink (λ s o. set_waiting_tasks s i o) t s

outside :
    (heap : ℕ → Task) (o : Option ℕ) (ts : List ℕ) (c : ℕ)
    → IsLinked heap none o ts
    → contains c ts ≡ false
    → is_ref o c ≡ false
unfolding IsLinked contains
outside heap o [] c h n = ground arith
outside heap o (t ∷ ts) c h n = ground (arith, h.0)

-- What join_list does to the tasks and to the head.
join_list-parts :
    (l : WaitingList) (c : ℕ) (s : Sys)
    → let o = head_of l s in
      ((join_list l c s).heap ≡ (set_prev o (some c) (set_next (some c) o s)).heap)
      × (head_of l (join_list l c s) ≡ some c)
unfolding head_of join_list enqueue join join_send join_recv join_waiting
join_list-parts (of_semaphore i) c s = (refl, ground arith)
join_list-parts (of_mutex i) c s = (refl, ground arith)
join_list-parts (of_senders i) c s = (refl, ground arith)
join_list-parts (of_receivers i) c s = (refl, ground arith)
join_list-parts (of_event_group i) c s = (refl, ground arith)

-- A task that does not stand in the linked waiting list of a semaphore, a mutex, the senders or
-- the receivers of a queue, or an event group, and has no predecessor, joins it at the front: the
-- list is linked from that task on.
pub join_list-IsLinked :
    (l : WaitingList) (c : ℕ) (ts : List ℕ) (s : Sys)
    → IsLinked s.heap none (head_of l s) ts
    → contains c ts ≡ false
    → (s.heap c).prev ≡ none
    → IsLinked (join_list l c s).heap none (head_of l (join_list l c s)) (c ∷ ts)
join_list-IsLinked l c ts s h n p =
    let (heap, head) = join_list-parts l c s in
    let linked =
      front-IsLinked (head_of l s) c ts s h n p (outside s.heap (head_of l s) ts c h n) in
    subst (λ h. IsLinked h none (head_of l (join_list l c s)) (c ∷ ts)) (sym heap)
      (subst
        (λ o.
          IsLinked (set_prev (head_of l s) (some c) (set_next (some c) (head_of l s) s)).heap none o
            (c ∷ ts))
        (sym head) linked)

unlink_head-ipc :
    (set_head : Sys → Option ℕ → Sys) (t : ℕ) (s : Sys)
    → (s.heap t).prev ≡ none
    → (unlink set_head t s).ipc ≡ (set_head s (s.heap t).next).ipc
unlink_head-ipc set_head t s p = unlink-ipc set_head t s ∙ rw p refl

-- What leave_list does to the head.
leave_list-head :
    (l : WaitingList) (t : ℕ) (s : Sys)
    → (s.heap t).prev ≡ none
    → head_of l (leave_list l t s) ≡ (s.heap t).next
unfolding head_of leave_list dequeue leave_send leave_recv pass_to
leave_list-head (of_semaphore i) t s p =
    let s1 = set_semaphore s i (record (s.ipc.semaphores i) { waiting_tasks = (s.heap t).next }) in
    ap (λ x. (x.semaphores i).waiting_tasks) (unlink_first-ipc t (s.heap t).next s1) ∙ ground arith
leave_list-head (of_mutex i) t s p =
    let q = unlink_head-ipc (λ s o. set_waiting s i o) t s p in
    ground (arith, ap (λ x. (x.mutexes i).waiting_tasks) q)
leave_list-head (of_senders i) t s p =
    ap (λ x. (x.queues i).waiting_send)
      (unlink_first-ipc t (s.heap t).next (set_waiting_send s i (s.heap t).next))
    ∙ ground arith
leave_list-head (of_receivers i) t s p =
    ap (λ x. (x.queues i).waiting_recv)
      (unlink_first-ipc t (s.heap t).next (set_waiting_recv s i (s.heap t).next))
    ∙ ground arith
leave_list-head (of_event_group i) t s p =
    ap (λ x. (x.event_groups i).waiting_tasks)
      (unlink_head-ipc (λ s o. set_waiting_tasks s i o) t s p)
    ∙ ground arith

unlink_head-IsLinked :
    (set_head : Sys → Option ℕ → Sys) (t : ℕ) (ts : List ℕ) (s : Sys)
    → ((o : Option ℕ) → (set_head s o).heap ≡ s.heap)
    → IsLinked s.heap none (some t) (t ∷ ts)
    → IsLinked (unlink set_head t s).heap none (s.heap t).next ts
unfolding contains
unlink_head-IsLinked set_head t ts s keeps h =
    let (linked, ipc, states, objects) =
      unlink-IsLinked set_head (some t) t (t ∷ ts) s keeps (ground arith) h in
    let head : (if is_ref (some t) t then (s.heap t).next else some t) ≡ (s.heap t).next =
      ground arith in
    subst (λ o. IsLinked (unlink set_head t s).heap none o ts) head
      (subst
        (λ l.
          IsLinked (unlink set_head t s).heap none
            (if is_ref (some t) t then (s.heap t).next else some t) l)
        (erase_head t ts) linked)

leave_list-heap :
    (l : WaitingList) (t : ℕ) (ts : List ℕ) (s : Sys)
    → IsLinked s.heap none (some t) (t ∷ ts)
    → IsLinked (leave_list l t s).heap none (s.heap t).next ts
unfolding leave_list dequeue leave_send leave_recv pass_to
leave_list-heap (of_semaphore i) t ts s h =
    unlink_first-IsLinked t ts
      (set_semaphore s i (record (s.ipc.semaphores i) { waiting_tasks = (s.heap t).next })) h
leave_list-heap (of_mutex i) t ts s h =
    unlink_head-IsLinked (λ s o. set_waiting s i o) t ts s (λ o. refl) h
leave_list-heap (of_senders i) t ts s h =
    unlink_first-IsLinked t ts (set_waiting_send s i (s.heap t).next) h
leave_list-heap (of_receivers i) t ts s h =
    unlink_first-IsLinked t ts (set_waiting_recv s i (s.heap t).next) h
leave_list-heap (of_event_group i) t ts s h =
    unlink_head-IsLinked (λ s o. set_waiting_tasks s i o) t ts s (λ o. refl) h

-- The first task of the linked waiting list of a semaphore, a mutex, the senders or the receivers
-- of a queue, or an event group leaves it: the list is linked from the task behind it on.
pub leave_list-IsLinked :
    (l : WaitingList) (t : ℕ) (ts : List ℕ) (s : Sys)
    → IsLinked s.heap none (head_of l s) (t ∷ ts)
    → IsLinked (leave_list l t s).heap none (head_of l (leave_list l t s)) ts
unfolding IsLinked
leave_list-IsLinked l t ts s h =
    let first : IsLinked s.heap none (some t) (t ∷ ts) = (refl, h.1, h.2, h.3) in
    subst (λ o. IsLinked (leave_list l t s).heap none o ts) (sym (leave_list-head l t s h.1))
      (leave_list-heap l t ts s first)
