-- ===== src/Ipc/Mutex/Waits.antt =====
-- mutex_lock: what becomes of the running task that has to wait, and priority inheritance.
use orbit_rtos.Base.{
  ℕ, ◌<◌, ◌≡◌, ◌≢◌, refl, ◌∙◌, ap, inl, inr, false, true, ◌==◌, ltb, leb, if◌then◌else◌, Option,
  none, some, is_ref, Bool-cases, arith,
}
use orbit_rtos.Kernel.{
  Sys, Env, running, blocked, mutex, on_mutex, Status, success, failure, max_priority_levels,
}
use orbit_rtos.Kernel.Lists.{ListLaws}
use orbit_rtos.Context.{context_enter_critical, context_exit_critical}
use orbit_rtos.Scheduler.Blocking.{scheduler_block_task}
use orbit_rtos.Scheduler.Blocking.Placement.{IsPlaced, IsUnlisted}
use orbit_rtos.Task.Control.Priorities.{set_priority_lem}
use orbit_rtos.Ipc.Objects.{set_prev, set_next, set_timeout}
use orbit_rtos.Ipc.Objects.Places.{SamePlace, set_prev-SamePlace, wait_fails}
use orbit_rtos.Ipc.Mutex.{boost, join, await_mutex, wait_mutex, lock_by, mutex_lock}

-- The owner after a task of another priority has come to wait.
abbrev pub inherited : (own waiting : ℕ) → ℕ
inherited own waiting = if ltb waiting own then waiting else own

boosted :
    (e : Env) (c o : ℕ) (s : Sys)
    → (s.heap c).priority < max_priority_levels
    → c ≢ o
    → let s' = boost e c (some o) s in
      SamePlace s s' c
      × ((s'.heap o).priority ≡ inherited (s.heap o).priority (s.heap c).priority)
      × (s'.ipc ≡ s.ipc)
unfolding boost
boosted e c o s valid ne = elim (Bool-cases (ltb (s.heap c).priority (s.heap o).priority)) [
  | inr enough ↦ rw enough (
    record { state_same = refl; priority_same = refl; sched_same = refl; table_same = refl },
    refl,
    refl,
  )
  | inl lower ↦
      let p = (s.heap c).priority in
      let fits : leb max_priority_levels p ≡ false = ground arith in
      rw (lower, set_priority_lem e o p s fits)
        (
          record {
            state_same = ground arith;
            priority_same = ground arith;
            sched_same = refl;
            table_same = refl;
          },
          ground arith,
          refl,
        )
]

set_prev-priority :
    (o p : Option ℕ) (s : Sys) (u : ℕ) → ((set_prev o p s).heap u).priority ≡ (s.heap u).priority
set_prev-priority none p s u = refl
set_prev-priority (some t) p s u = ground arith

set_prev-ipc : (o p : Option ℕ) (s : Sys) → (set_prev o p s).ipc ≡ s.ipc
set_prev-ipc none p s = refl
set_prev-ipc (some t) p s = refl

-- The way into the waiting list.
joined :
    (i c timeout : ℕ) (s : Sys)
    → let s' = join i c (set_timeout c timeout s) in
      SamePlace s s' c
      × ((u : ℕ) → (s'.heap u).priority ≡ (s.heap u).priority)
      × ((s'.ipc.mutexes i).waiting_tasks ≡ some c)
      × ((s'.ipc.mutexes i).owner ≡ (s.ipc.mutexes i).owner)
unfolding join
joined i c timeout s =
    let s1 = set_timeout c timeout s in
    let first = (s1.ipc.mutexes i).waiting_tasks in
    let s2 = set_next (some c) first s1 in
    let f = set_prev-SamePlace first (some c) s2 c in
    (
      record {
        state_same = ground (arith, f.state_same);
        priority_same = ground (arith, f.priority_same);
        sched_same = ground (arith, f.sched_same);
        table_same = ground (arith, f.table_same);
      },
      λ u. ground (arith, set_prev-priority first (some c) s2 u),
      ground arith,
      ground (arith, ap (λ x. (x.mutexes i).owner) (set_prev-ipc first (some c) s2)),
    )

block-priority :
    (e : Env) (s : Sys) (c i u : ℕ)
    → ((scheduler_block_task e (some c) mutex (on_mutex i) s).0.heap u).priority
      ≡ (s.heap u).priority
unfolding scheduler_block_task
block-priority e s c i u = ground arith

await_mutex-failed :
    (e : Env) (i c prev : ℕ) (m : Sys × Status)
    → m.1 ≡ failure
    → await_mutex e i c prev m ≡ (context_exit_critical prev m.0, failure)
unfolding await_mutex
await_mutex-failed e i c prev (s, failure) h = refl
await_mutex-failed e i c prev (s, success) h = cc

together : {a b d : Sys} {c : ℕ} → SamePlace a b c → SamePlace b d c → SamePlace a d c
together p q = record {
  state_same = q.state_same ∙ p.state_same;
  priority_same = q.priority_same ∙ p.priority_same;
  sched_same = q.sched_same ∙ p.sched_same;
  table_same = q.table_same ∙ p.table_same;
}

taken_waits :
    (e : Env) (s : Sys) (i timeout prev c o : ℕ)
    → (s.ipc.mutexes i).locked ≡ true
    → (s.ipc.mutexes i).owner ≡ some o
    → c ≢ o
    → (timeout == 0) ≡ false
    → lock_by e i timeout prev (some c) s ≡ wait_mutex e i timeout prev c s
unfolding lock_by
taken_waits e s i timeout prev c o taken own ne waits =
    let other : is_ref (s.ipc.mutexes i).owner c ≡ false = rw own (ground arith) in
    rw (taken, other, waits) refl

-- With memory for the lists, and a list_remove that refuses what the list does not hold,
-- mutex_lock by a running current task of a valid priority, in its place and not the idle task,
-- with a timeout that is not 0, on a mutex that another task owns, fails: the task is then
-- BLOCKED, in no list of the scheduler, and first in the mutex's waiting list. The owner stays,
-- and has inherited the task's priority if that is the higher one.
pub lock_running :
    {e : Env} (laws : ListLaws e) (s : Sys) (i c o timeout : ℕ)
    → (s.ipc.mutexes i).locked ≡ true
    → (s.ipc.mutexes i).owner ≡ some o
    → c ≢ o
    → 0 < timeout
    → s.table.current_task ≡ some c
    → is_ref s.table.idle_task c ≡ false
    → (s.heap c).priority < max_priority_levels
    → IsPlaced s c
    → (s.heap c).state ≡ running
    → let (s', r) = mutex_lock e (some i) timeout s in
      (r ≡ failure)
      × ((s'.heap c).state ≡ blocked)
      × IsUnlisted s' c
      × ((s'.ipc.mutexes i).waiting_tasks ≡ some c)
      × ((s'.ipc.mutexes i).owner ≡ some o)
      × ((s'.heap o).priority ≡ inherited (s.heap o).priority (s.heap c).priority)
unfolding mutex_lock wait_mutex context_enter_critical context_exit_critical
lock_running {e} laws s i c o timeout taken own ne positive cur idle valid v run =
    let (s1, prev) = context_enter_critical s in
    let s2 = boost e c (some o) s1 in
    let s3 = join i c (set_timeout c timeout s2) in
    let m = scheduler_block_task e (some c) mutex (on_mutex i) s3 in
    let (place2, inherits, objects2) = boosted e c o s1 valid ne in
    let (place3, priorities, waiting, owner3) = joined i c timeout s2 in
    let same1 : SamePlace s s1 c = record {
      state_same = refl;
      priority_same = refl;
      sched_same = refl;
      table_same = refl;
    } in
    let (failed, state, unlisted, objects) =
      wait_fails laws s s3 c prev mutex (on_mutex i) (together same1 (together place2 place3)) idle
        v run in
    let waits : (timeout == 0) ≡ false = ground arith in
    let to_block : mutex_lock e (some i) timeout s ≡ (context_exit_critical prev m.0, failure) =
      ap (λ t. lock_by e i timeout prev t s1) cur
      ∙ taken_waits e s1 i timeout prev c o taken own ne waits
      ∙ ap
          (λ x. await_mutex e i c prev (
            scheduler_block_task e (some c) mutex (on_mutex i)
              (join i c (set_timeout c timeout (boost e c x s1)))))
          own
      ∙ await_mutex-failed e i c prev m failed in
    rw to_block (
      refl,
      state,
      unlisted,
      ap (λ x. (x.mutexes i).waiting_tasks) objects ∙ waiting,
      ap (λ x. (x.mutexes i).owner) objects ∙ owner3 ∙ ap (λ x. (x.mutexes i).owner) objects2 ∙ own,
      block-priority e s3 c i o ∙ priorities o ∙ inherits,
    )
