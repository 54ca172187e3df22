-- ===== src/Calls/Safety.antt =====
-- Sequences of kernel calls, and what all of them keep.
use orbit_rtos.Base.{
  ltb, ◌-◌, ◌∙◌, ℕ, ◌<◌, ◌≡◌, refl, sym, ap, subst, inl, inr, true, Option, none, some, List,
  Bool-cases, ◌==◌, arith,
}
use orbit_rtos.Kernel.{Sys, Env, Status, max_tasks, max_priority_levels}
use orbit_rtos.Kernel.Lists.{ListLaws}
use orbit_rtos.Scheduler.Switch.{scheduler_lock, scheduler_unlock, release_lock, set_lock}
use orbit_rtos.Scheduler.Switch.Running.{IsConsistent}
use orbit_rtos.Scheduler.Switch.Rely.{Rely, same-IsConsistent, context_switch-IsConsistent}
use orbit_rtos.Scheduler.Tick.{scheduler_tick}
use orbit_rtos.Scheduler.Tick.Consistency.{tick-IsConsistent, set_task-IsConsistent}
use orbit_rtos.Context.{context_enter_critical}
use orbit_rtos.Task.Table.{task_create}
use orbit_rtos.Task.Table.Slots.{IsCounted}
use orbit_rtos.Task.Table.Creation.{made}
use orbit_rtos.Task.Table.Additions.{IsAdded, task_create-IsAdded}
use orbit_rtos.Task.Control.{
  task_yield, task_set_periodic, task_delay, task_delay_until, task_suspend, task_resume,
  task_set_priority,
}
use orbit_rtos.Ipc.Semaphore.{semaphore_give, semaphore_take, semaphore_delete}
use orbit_rtos.Ipc.Mutex.{mutex_lock, mutex_unlock}
use orbit_rtos.Ipc.Queue.{queue_send, queue_receive, queue_delete}
use orbit_rtos.Ipc.EventGroup.{event_group_set_flags, event_group_clear_flags, event_group_delete}
use orbit_rtos.Calls.Links.{set_priority-IsConsistent}
use orbit_rtos.Calls.Tasks.{
  delay-IsConsistent, delay_until-IsConsistent, suspend-IsConsistent, resume-IsConsistent,
}
use orbit_rtos.Calls.Wakes.{
  Good, exit-IsConsistent, enter-IsConsistent, switched-IsConsistent, give-IsConsistent,
  unlock-Good, set_flags-Good,
}
use orbit_rtos.Calls.Messages.{
  Overwrites, send-IsConsistent, receive-IsConsistent, take-IsConsistent, lock-IsConsistent,
  semaphore_delete-Good, event_group_delete-Good, queue_delete-Good, clear_flags-IsConsistent,
}

added-IsConsistent :
    {s s' : Sys} {t : ℕ} (name : List ℕ) (priority func arg size p : ℕ)
    → IsAdded s s' t (made name priority func arg size p)
    → IsConsistent s
    → IsConsistent s'
added-IsConsistent name priority func arg size p added c = record {
  idle_ready = λ i h. ground (arith, added.idle, ap (λ h. h i) added.heap_lem, c.idle_ready i);
  only_current =
      λ u h. ground (arith, added.current, ap (λ h. h u) added.heap_lem, c.only_current u);
}

set_lock-IsConsistent : (s : Sys) (n : ℕ) → IsConsistent s → IsConsistent (set_lock s n)
set_lock-IsConsistent s n c = same-IsConsistent refl refl c

release-IsConsistent : (s : Sys) → IsConsistent s → IsConsistent (release_lock s)
unfolding release_lock
release-IsConsistent s c = elim (Bool-cases (ltb 0 s.sched.lock_count)) [
  | inl held ↦ rw held (set_lock-IsConsistent s (s.sched.lock_count - 1) c)
  | inr free ↦ rw free c
]

locked-IsConsistent : (s : Sys) → IsConsistent s → IsConsistent (scheduler_lock s).0
unfolding scheduler_lock
locked-IsConsistent s c = exit-IsConsistent _ _ (set_lock-IsConsistent _ _ (enter-IsConsistent s c))

unlocked-IsConsistent :
    (e : Env) (rely : Rely e) (s : Sys) → IsConsistent s → IsConsistent (scheduler_unlock e s).0
unfolding scheduler_unlock
unlocked-IsConsistent e rely s c =
    let (s', prev) = context_enter_critical s in
    let s'' = release_lock s' in
    let released : IsConsistent s'' = release-IsConsistent s' (enter-IsConsistent s c) in
    elim (Bool-cases (s''.sched.lock_count == 0)) [
      | inl outer ↦ rw outer (switched-IsConsistent e rely prev s'' released)
      | inr inner ↦ rw inner (exit-IsConsistent prev s'' released)
    ]

-- One call, by whichever task is current: a tick, a call on tasks or the scheduler, or a call on an object
-- that wakes others or does not wait.
pub data Call (e : Env) : Sys → Sys → Type 0 where
  ticks : {s s' : Sys} → s' ≡ (scheduler_tick e s).0 → Call e s s'
  locks_scheduler : {s s' : Sys} → s' ≡ (scheduler_lock s).0 → Call e s s'
  unlocks_scheduler : {s s' : Sys} → s' ≡ (scheduler_unlock e s).0 → Call e s s'
  yields : {s s' : Sys} → s' ≡ task_yield e s → Call e s s'
  creates :
      {s s' : Sys} (name : List ℕ) (priority func arg size t p : ℕ)
      → IsCounted s
      → s.table.task_count < max_tasks
      → priority < max_priority_levels
      → task_create e (some name) priority (some func) arg size (some t) (some p) true s
        ≡ (s', some t)
      → Call e s s'
  sets_period :
      {s s' : Sys} (o : Option ℕ) (period deadline : ℕ)
      → s' ≡ (task_set_periodic o period deadline s).0
      → Call e s s'
  delays : {s s' : Sys} (ticks : ℕ) → s' ≡ (task_delay e ticks s).0 → Call e s s'
  delays_until : {s s' : Sys} (tick : ℕ) → s' ≡ (task_delay_until e tick s).0 → Call e s s'
  suspends : {s s' : Sys} (o : Option ℕ) → s' ≡ (task_suspend e o s).0 → Call e s s'
  resumes : {s s' : Sys} (o : Option ℕ) → s' ≡ (task_resume e o s).0 → Call e s s'
  sets_priority : {s s' : Sys} (t p : ℕ) → s' ≡ (task_set_priority e (some t) p s).0 → Call e s s'
  gives : {s s' : Sys} (o : Option ℕ) → s' ≡ (semaphore_give e o s).0 → Call e s s'
  takes : {s s' : Sys} (o : Option ℕ) → s' ≡ (semaphore_take e o 0 s).0 → Call e s s'
  locks : {s s' : Sys} (o : Option ℕ) → s' ≡ (mutex_lock e o 0 s).0 → Call e s s'
  unlocks :
      {s s' : Sys} (o : Option ℕ) (fuel c : ℕ) (r : Status)
      → s.table.current_task ≡ some c
      → mutex_unlock e fuel o s ≡ some (s', r)
      → Call e s s'
  sends : {s s' : Sys} (o msg : Option ℕ) → s' ≡ (queue_send e o msg 0 s).0 → Call e s s'
  receives : {s s' : Sys} (o msg : Option ℕ) → s' ≡ (queue_receive e o msg 0 s).0 → Call e s s'
  sets_flags :
      {s s' : Sys} (o : Option ℕ) (fuel flags r : ℕ)
      → event_group_set_flags e fuel o flags s ≡ some (s', r)
      → Call e s s'
  clears_flags :
      {s s' : Sys} (o : Option ℕ) (flags : ℕ)
      → s' ≡ (event_group_clear_flags o flags s).0
      → Call e s s'
  deletes_semaphore :
      {s s' : Sys} (o : Option ℕ) (fuel : ℕ) (r : Status)
      → semaphore_delete e fuel o s ≡ some (s', r)
      → Call e s s'
  deletes_queue :
      {s s' : Sys} (o : Option ℕ) (fuel : ℕ) (r : Status)
      → queue_delete e fuel o s ≡ some (s', r)
      → Call e s s'
  deletes_group :
      {s s' : Sys} (o : Option ℕ) (fuel : ℕ) (r : Status)
      → event_group_delete e fuel o s ≡ some (s', r)
      → Call e s s'

pub data Calls (e : Env) : Sys → Sys → Type 0 where
  done : {s s' : Sys} → s ≡ s' → Calls e s s'
  then_call : {s s' s'' : Sys} → Call e s s' → Calls e s' s'' → Calls e s s''

good :
    {A : Type 0} {o : Option (Sys × A)} {s : Sys} {r : A}
    → o ≡ some (s, r)
    → Good o
    → IsConsistent s
good p g = subst Good p g

set_periodic-IsConsistent :
    (o : Option ℕ) (period deadline : ℕ) (s : Sys)
    → IsConsistent s
    → IsConsistent (task_set_periodic o period deadline s).0
unfolding task_set_periodic
set_periodic-IsConsistent none period deadline s c = c
set_periodic-IsConsistent (some t) period deadline s c = elim (Bool-cases (period == 0)) [
  | inl never ↦ rw never c
  | inr fine ↦ rw fine (set_task-IsConsistent s t _ refl c)
]

module _ {e : Env} (laws : ListLaws e) (rely : Rely e) (over : Overwrites e) where
  Call-IsConsistent : {s s' : Sys} → Call e s s' → IsConsistent s → IsConsistent s'
  unfolding task_yield
  Call-IsConsistent {s} (ticks p) c = subst IsConsistent (sym p) (tick-IsConsistent e rely s c)
  Call-IsConsistent {s} (locks_scheduler p) c = subst IsConsistent (sym p) (locked-IsConsistent s c)
  Call-IsConsistent {s} (unlocks_scheduler p) c =
      subst IsConsistent (sym p) (unlocked-IsConsistent e rely s c)
  Call-IsConsistent {s} (yields p) c =
      subst IsConsistent (sym p) (context_switch-IsConsistent e rely s c)
  Call-IsConsistent {s} {s'} (creates name priority func arg size t p counted room valid made_lem)
        c =
      let (s1, r, added) =
        task_create-IsAdded laws name priority func arg size t p s counted room valid in
      subst IsConsistent (ap (λ x. x.0) (sym r ∙ made_lem))
        (added-IsConsistent name priority func arg size p added c)
  Call-IsConsistent {s} (sets_period o period deadline p) c =
      subst IsConsistent (sym p) (set_periodic-IsConsistent o period deadline s c)
  Call-IsConsistent {s} (delays n p) c =
      subst IsConsistent (sym p) (delay-IsConsistent e rely n s c)
  Call-IsConsistent {s} (delays_until tick p) c =
      subst IsConsistent (sym p) (delay_until-IsConsistent e rely tick s c)
  Call-IsConsistent {s} (suspends o p) c =
      subst IsConsistent (sym p) (suspend-IsConsistent e rely o s c)
  Call-IsConsistent {s} (resumes o p) c =
      subst IsConsistent (sym p) (resume-IsConsistent e rely o s c)
  Call-IsConsistent {s} (sets_priority t n p) c =
      subst IsConsistent (sym p) (set_priority-IsConsistent e t n s c)
  Call-IsConsistent {s} (gives o p) c = subst IsConsistent (sym p) (give-IsConsistent e rely o s c)
  Call-IsConsistent {s} (takes o p) c = subst IsConsistent (sym p) (take-IsConsistent e rely o s c)
  Call-IsConsistent {s} (locks o p) c = subst IsConsistent (sym p) (lock-IsConsistent e rely o s c)
  Call-IsConsistent {s} (unlocks o fuel t st cur p) c = good p (unlock-Good e rely fuel t o s cur c)
  Call-IsConsistent {s} (sends o msg p) c =
      subst IsConsistent (sym p) (send-IsConsistent e rely over o msg s c)
  Call-IsConsistent {s} (receives o msg p) c =
      subst IsConsistent (sym p) (receive-IsConsistent e rely o msg s c)
  Call-IsConsistent {s} (sets_flags o fuel flags r p) c =
      good p (set_flags-Good e rely fuel o flags s c)
  Call-IsConsistent {s} (clears_flags o flags p) c =
      subst IsConsistent (sym p) (clear_flags-IsConsistent o flags s c)
  Call-IsConsistent {s} (deletes_semaphore o fuel r p) c =
      good p (semaphore_delete-Good e rely fuel o s c)
  Call-IsConsistent {s} (deletes_queue o fuel r p) c = good p (queue_delete-Good e rely fuel o s c)
  Call-IsConsistent {s} (deletes_group o fuel r p) c =
      good p (event_group_delete-Good e rely fuel o s c)

  -- After any sequence of kernel calls, whether or not list_remove finds the tasks that it is
  -- asked to remove, the idle task is ready or running and no task but the current one runs, if
  -- that was so before. The calls are ticks, yields, scheduler locks and unlocks; creations of
  -- tasks, with a valid priority and a free slot; both delays, suspending, resuming, priorities
  -- and periods; giving a semaphore, and taking it without waiting; locking a mutex without
  -- waiting, and unlocking by the current task; sending and receiving without waiting; setting and
  -- clearing flags; and deleting semaphores, queues and event groups, where the loops over waiting
  -- tasks end. This takes a list_append that succeeds, other tasks that keep it so until control
  -- comes back, and messages that do so when they are written over a kernel object.
  pub Calls-IsConsistent : {s s' : Sys} → Calls e s s' → IsConsistent s → IsConsistent s'
  Calls-IsConsistent (done p) c = subst IsConsistent p c
  Calls-IsConsistent (then_call k ks) c = Calls-IsConsistent ks (Call-IsConsistent k c)
