-- ===== src/Satellite/Objects.antt =====
-- The objects that main creates, right after the kernel's initialisation.
use orbit_rtos.Base.{
  ℕ, suc, ◌*◌, ◌%◌, ◌≤◌, ◌≡◌, ◌≢◌, refl, ◌∙◌, sym, ap, subst, inl, inr, Bool, true, false, ◌||◌,
  ◌==◌, Option, some, List, Bool-cases, Option-cases, arith,
}
use orbit_rtos.Kernel.{Sys, Env, max_queues}
use orbit_rtos.Kernel.Texts.{codes}
use orbit_rtos.Ipc.Objects.{find_free}
use orbit_rtos.Ipc.Semaphore.{semaphore_create}
use orbit_rtos.Ipc.Mutex.{mutex_create}
use orbit_rtos.Ipc.Queue.{queue_create}
use orbit_rtos.Ipc.Queue.Creation.{IsEmptyQueue, create-IsEmptyQueue}
use orbit_rtos.Ipc.EventGroup.{event_group_create}
use orbit_rtos.Satellite.{Platform}
use orbit_rtos.Satellite.Start.{Boot, main_queue, create_objects, all_created}

find_free_first :
    (in_use : ℕ → Bool) (k i : ℕ) → in_use i ≡ false → find_free in_use (suc k) i ≡ some i
unfolding find_free
find_free_first in_use k i h = rw h refl

-- queue_create touches the objects of ipc.c alone, and no other kind of them.
queue_create-kept :
    (e : Env) (malloc : ℕ → Option ℕ) (name : List ℕ) (size capacity : ℕ) (s : Sys)
    → let s' = (queue_create e malloc (some name) size capacity s).0 in
      (s' ≡ record s { ipc = s'.ipc })
      × (s'.ipc.event_group_used ≡ s.ipc.event_group_used)
      × (s'.ipc.mutex_used ≡ s.ipc.mutex_used)
unfolding queue_create
queue_create-kept e malloc name size capacity s = elim (Bool-cases (size == 0 || capacity == 0)) [
  | inl empty ↦ rw empty (refl, refl, refl)
  | inr fine ↦ elim (Option-cases (find_free s.ipc.queue_used max_queues 0)) [
    | inl full ↦ rw (fine, full) (refl, refl, refl)
    | inr (i, free) ↦ elim (Option-cases (malloc ((size * capacity) % e.size_mod))) [
      | inl out ↦ rw (fine, free, out) (refl, refl, refl)
      | inr (a, memory) ↦ rw (fine, free, memory) (refl, refl, refl)
    ]
  ]
]

semaphore_created :
    (name : List ℕ) (s : Sys)
    → s.ipc.semaphore_used 0 ≡ false
    → let (s', r) = semaphore_create (some name) 1 1 s in
      (r ≡ some 0)
      × (s' ≡ record s { ipc = s'.ipc })
      × (s'.ipc.queue_used ≡ s.ipc.queue_used)
      × (s'.ipc.event_group_used ≡ s.ipc.event_group_used)
      × (s'.ipc.mutex_used ≡ s.ipc.mutex_used)
unfolding semaphore_create
semaphore_created name s h =
    rw (find_free_first s.ipc.semaphore_used 15 0 h) (refl, refl, refl, refl, refl)

group_created :
    (name : List ℕ) (s : Sys)
    → s.ipc.event_group_used 0 ≡ false
    → let (s', r) = event_group_create (some name) s in
      (r ≡ some 0)
      × (s' ≡ record s { ipc = s'.ipc })
      × (s'.ipc.queues ≡ s.ipc.queues)
      × (s'.ipc.mutex_used ≡ s.ipc.mutex_used)
unfolding event_group_create
group_created name s h = rw (find_free_first s.ipc.event_group_used 15 0 h) (refl, refl, refl, refl)

mutex_created :
    (name : List ℕ) (s : Sys)
    → s.ipc.mutex_used 0 ≡ false
    → let (s', r) = mutex_create (some name) s in
      (r ≡ some 0) × (s' ≡ record s { ipc = s'.ipc }) × (s'.ipc.queues ≡ s.ipc.queues)
unfolding mutex_create
mutex_created name s h = rw (find_free_first s.ipc.mutex_used 15 0 h) (refl, refl, refl)

-- With no object in use and memory for the queue, all four objects are created, and the queue is empty.
pub create_objects_lem :
    (e : Env) (p : Platform) (b : Boot) (a : ℕ) (s : Sys)
    → s.ipc.semaphore_used 0 ≡ false
    → ((i : ℕ) → s.ipc.queue_used i ≡ false)
    → s.ipc.event_group_used 0 ≡ false
    → s.ipc.mutex_used 0 ≡ false
    → p.command_size ≢ 0
    → 10 * p.command_size ≤ e.size_mod
    → b.malloc ((p.command_size * 10) % e.size_mod) ≡ some a
    → let (s', h) = create_objects e p b s in
      (i : ℕ) × (h.command_queue ≡ some i)
      × (all_created h ≡ true)
      × IsEmptyQueue e a p.command_size 10 s'.memory (s'.ipc.queues i)
      × (s' ≡ record s { ipc = s'.ipc })
unfolding create_objects
create_objects_lem e p b a s no_semaphore no_queue no_group no_mutex sized fits memory =
    let (r1, kept1, queues1, groups1, mutexes1) =
      semaphore_created (codes "telemetry") s no_semaphore in
    let s1 = (semaphore_create (some (codes "telemetry")) 1 1 s).0 in
    let (kept2, groups2, mutexes2) =
      queue_create-kept e b.malloc (codes "commands") p.command_size 10 s1 in
    let s2 = (main_queue e p b s1).0 in
    let (r3, kept3, queues3, mutexes3) =
      group_created (codes "events") s2 (rw (groups2, groups1) no_group) in
    let s3 = (event_group_create (some (codes "events")) s2).0 in
    let (r4, kept4, queues4) =
      mutex_created (codes "resource") s3 (rw (mutexes3, mutexes2, mutexes1) no_mutex) in
    let s4 = (mutex_create (some (codes "resource")) s3).0 in
    let made =
      create-IsEmptyQueue e b.malloc (codes "commands") p.command_size 10 a s1 sized (omega arith)
        (omega arith) fits memory in
    elim made [
      | inl (full, _, _) ↦
          let taken = sym (ap (λ f. f 0) queues1 ∙ no_queue 0) ∙ full 0 (omega arith) in cc
      | inr (i, _, _, found, _, empty, _) ↦ (
        i,
        found,
        rw (r1, found, r3, r4) refl,
        subst (λ m. IsEmptyQueue e a p.command_size 10 m (s4.ipc.queues i))
            (sym (ap (λ x. x.memory) kept4 ∙ ap (λ x. x.memory) kept3))
            (subst (λ f. IsEmptyQueue e a p.command_size 10 s2.memory (f i))
              (sym (queues4 ∙ queues3)) empty),
        kept4
            ∙ ap {A = Sys} {B = Sys} (λ x. record x { ipc = s4.ipc })
                (kept3
                  ∙ ap {A = Sys} {B = Sys} (λ x. record x { ipc = s3.ipc })
                      (kept2 ∙ ap {A = Sys} {B = Sys} (λ x. record x { ipc = s2.ipc }) kept1)),
      )
    ]
