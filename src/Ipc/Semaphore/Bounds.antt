-- ===== src/Ipc/Semaphore/Bounds.antt =====
-- No semaphore's count exceeds its maximum, also across context switches.
use orbit_rtos.Base.{
  ℕ, ◌≤◌, ◌<◌, ◌≡◌, refl, sym, subst, inl, inr, ◌==◌, ltb, leb, Option, none, some, Bool-cases,
  is_ref, arith,
}
use orbit_rtos.Kernel.{
  Sys, Env, Semaphore, Policy, by_priority, round_robin, edf, rms, other, is_active, semaphore,
  on_semaphore, Status, success, failure,
}
use orbit_rtos.Context.{
  context_enter_critical, context_exit_critical, context_switch, first_task_state,
}
use orbit_rtos.Scheduler.Select.{
  select, or_idle, rotate_ready, count_invocation, scheduler_get_next_task, keeps_current,
}
use orbit_rtos.Scheduler.Blocking.{scheduler_block_task, scheduler_unblock_task}
use orbit_rtos.Scheduler.Switch.{
  leave_current, leave, enter, count_switch, handover, transfer, switch_to,
  scheduler_context_switch,
}
use orbit_rtos.Ipc.Objects.{await, set_prev, set_next, set_timeout}
use orbit_rtos.Ipc.Semaphore.{
  set_semaphore, semaphore_take, semaphore_give, wait_semaphore, enqueue, dequeue, give_to,
}

pub record IsBounded (s : Sys) : Type 0 where
  pub bounded : (i : ℕ) → (s.ipc.semaphores i).count ≤ (s.ipc.semaphores i).max_count

-- The other tasks keep the counts bounded.
abbrev pub KeepsBounded : Env → Type 0
KeepsBounded e =
    (from : Option ℕ) (to : ℕ) (s : Sys) → IsBounded s → IsBounded (e.resumed from to s)

same_ipc-IsBounded : {s s' : Sys} → s'.ipc ≡ s.ipc → IsBounded s → IsBounded s'
same_ipc-IsBounded q v = record {
  bounded =
      λ i. subst (λ x. (x.semaphores i).count ≤ (x.semaphores i).max_count) (sym q) (v.bounded i);
}

set_semaphore-IsBounded :
    (s : Sys) (i : ℕ) (v : Semaphore)
    → v.count ≤ v.max_count
    → IsBounded s
    → IsBounded (set_semaphore s i v)
set_semaphore-IsBounded s i v h b = record { bounded = λ j. ground (arith, b.bounded j) }

select-ipc : (e : Env) (p : Policy) (s : Sys) → (or_idle (select e p s)).0.ipc ≡ s.ipc
unfolding or_idle select rotate_ready
select-ipc e by_priority s = ground arith
select-ipc e rms s = ground arith
select-ipc e edf s = ground arith
select-ipc e (other n) s = refl
select-ipc e round_robin s = ground arith

get_next_task-ipc : (e : Env) (s : Sys) → (scheduler_get_next_task e s).0.ipc ≡ s.ipc
unfolding scheduler_get_next_task count_invocation
get_next_task-ipc e s =
    elim (Bool-cases (keeps_current (count_invocation s) s.table.current_task)) [
      | inl kept ↦ rw kept refl
      | inr free ↦ rw free (select-ipc e s.sched.current_policy (count_invocation s))
    ]

leave-ipc : (e : Env) (o : Option ℕ) (s : Sys) → (leave e o s).ipc ≡ s.ipc
unfolding leave leave_current
leave-ipc e none s = refl
leave-ipc e (some c) s = ground arith

handover-ipc : (e : Env) (o : Option ℕ) (n : ℕ) (s : Sys) → (handover e o n s).ipc ≡ s.ipc
unfolding handover enter count_switch
handover-ipc e o n s = leave-ipc e o (count_switch s)

set_prev-ipc : (o p : Option ℕ) (s : Sys) → (set_prev o p s).ipc ≡ s.ipc
set_prev-ipc none p s = refl
set_prev-ipc (some t) p s = refl

set_timeout-ipc : (c timeout : ℕ) (s : Sys) → (set_timeout c timeout s).ipc ≡ s.ipc
set_timeout-ipc c timeout s = ground arith

enqueue-IsBounded : (i c : ℕ) (s : Sys) → IsBounded s → IsBounded (enqueue i c s)
unfolding enqueue
enqueue-IsBounded i c s b =
    let first = (s.ipc.semaphores i).waiting_tasks in
    let s1 = set_next (some c) first s in
    let b1 : IsBounded s1 = record { bounded = b.bounded } in
    let s2 = set_prev first (some c) s1 in
    let b2 : IsBounded s2 = same_ipc-IsBounded (set_prev-ipc first (some c) s1) b1 in
    set_semaphore-IsBounded s2 i (record (s2.ipc.semaphores i) { waiting_tasks = some c })
      (b2.bounded i) b2

dequeue-IsBounded : (i t : ℕ) (s : Sys) → IsBounded s → IsBounded (dequeue i t s)
unfolding dequeue
dequeue-IsBounded i t s b =
    let after = (s.heap t).next in
    let s1 = set_semaphore s i (record (s.ipc.semaphores i) { waiting_tasks = after }) in
    let b1 : IsBounded s1 = set_semaphore-IsBounded s i _ (b.bounded i) b in
    let b2 : IsBounded (set_prev after none s1) =
      same_ipc-IsBounded (set_prev-ipc after none s1) b1 in
    record { bounded = b2.bounded }

block-ipc :
    (e : Env) (s : Sys) (c i : ℕ)
    → (scheduler_block_task e (some c) semaphore (on_semaphore i) s).0.ipc ≡ s.ipc
unfolding scheduler_block_task
block-ipc e s c i = ground arith

unblock-ipc : (e : Env) (t : ℕ) (s : Sys) → (scheduler_unblock_task e (some t) s).0.ipc ≡ s.ipc
unfolding scheduler_unblock_task
unblock-ipc e t s = ground arith

module _ (e : Env) (keeps : KeepsBounded e) where
  transfer-IsBounded : (o : Option ℕ) (n : ℕ) (s : Sys) → IsBounded s → IsBounded (transfer e o n s)
  unfolding transfer context_switch first_task_state
  transfer-IsBounded none n s b =
      keeps none n (first_task_state n s) (record { bounded = b.bounded })
  transfer-IsBounded (some c) n s b = keeps (some c) n s b

  switch_to-IsBounded : (c o : Option ℕ) (s : Sys) → IsBounded s → IsBounded (switch_to e c o s).0
  unfolding switch_to
  switch_to-IsBounded c none s b = b
  switch_to-IsBounded c (some n) s b = elim (Bool-cases (is_ref c n)) [
    | inl same ↦ rw same b
    | inr ne ↦
        rw ne
          (transfer-IsBounded c n (handover e c n s) (same_ipc-IsBounded (handover-ipc e c n s) b))
  ]

  context_switch-IsBounded : (s : Sys) → IsBounded s → IsBounded (scheduler_context_switch e s).0
  unfolding scheduler_context_switch
  context_switch-IsBounded s b = elim (Bool-cases (is_active s.sched.scheduler_state)) [
    | inr stop ↦ rw stop b
    | inl go ↦ elim (Bool-cases (ltb 0 s.sched.lock_count)) [
      | inl locked ↦ rw (go, locked) b
      | inr free ↦
          let (s', next) = scheduler_get_next_task e s in
          rw (go, free)
            (switch_to-IsBounded s.table.current_task next s'
              (same_ipc-IsBounded (get_next_task-ipc e s) b))
    ]
  ]

  await-IsBounded : (c prev : ℕ) (m : Sys × Status) → IsBounded m.0 → IsBounded (await e c prev m).0
  unfolding await context_exit_critical
  await-IsBounded c prev (s, failure) b = record { bounded = b.bounded }
  await-IsBounded c prev (s, success) b =
      context_switch-IsBounded (context_exit_critical prev s) (record { bounded = b.bounded })

  wait-IsBounded :
      (i timeout prev : ℕ) (o : Option ℕ) (s : Sys)
      → IsBounded s
      → IsBounded (wait_semaphore e i timeout prev o s).0
  unfolding wait_semaphore context_exit_critical
  wait-IsBounded i timeout prev none s b = record { bounded = b.bounded }
  wait-IsBounded i timeout prev (some c) s b =
      let s1 = set_timeout c timeout s in
      let s2 = enqueue i c s1 in
      let b2 : IsBounded s2 =
        enqueue-IsBounded i c s1 (same_ipc-IsBounded (set_timeout-ipc c timeout s) b) in
      let m = scheduler_block_task e (some c) semaphore (on_semaphore i) s2 in
      let b3 : IsBounded m.0 = same_ipc-IsBounded (block-ipc e s2 c i) b2 in
      await-IsBounded c prev m b3

  take-IsBounded :
      (i timeout : ℕ) (s : Sys) → IsBounded s → IsBounded (semaphore_take e (some i) timeout s).0
  unfolding semaphore_take context_enter_critical context_exit_critical
  take-IsBounded i timeout s b =
      let (s1, prev) = context_enter_critical s in
      let b1 : IsBounded s1 = record { bounded = b.bounded } in
      elim (Bool-cases (ltb 0 (s.ipc.semaphores i).count)) [
        | inl there ↦ rw there (record { bounded = λ j. ground (arith, b.bounded j) })
        | inr gone ↦ elim (Bool-cases (timeout == 0)) [
          | inl now ↦ rw (gone, now) (record { bounded = b.bounded })
          | inr later ↦ rw (gone, later) (wait-IsBounded i timeout prev s1.table.current_task s1 b1)
        ]
      ]

  give_to-IsBounded :
      (i prev : ℕ) (o : Option ℕ) (s : Sys)
      → (s.ipc.semaphores i).count < (s.ipc.semaphores i).max_count
      → IsBounded s
      → IsBounded (give_to e i prev o s).0
  unfolding give_to context_exit_critical
  give_to-IsBounded i prev none s h b = record { bounded = λ j. ground (arith, b.bounded j) }
  give_to-IsBounded i prev (some t) s h b =
      let s1 = (scheduler_unblock_task e (some t) (dequeue i t s)).0 in
      let b1 : IsBounded s1 =
        same_ipc-IsBounded (unblock-ipc e t (dequeue i t s)) (dequeue-IsBounded i t s b) in
      context_switch-IsBounded (context_exit_critical prev s1) (record { bounded = b1.bounded })

  give-IsBounded : (i : ℕ) (s : Sys) → IsBounded s → IsBounded (semaphore_give e (some i) s).0
  unfolding semaphore_give context_enter_critical context_exit_critical
  give-IsBounded i s b =
      let (s1, prev) = context_enter_critical s in
      elim (Bool-cases (leb (s.ipc.semaphores i).max_count (s.ipc.semaphores i).count)) [
        | inl full ↦ rw full (record { bounded = b.bounded })
        | inr room ↦ rw room (
            give_to-IsBounded i prev (s1.ipc.semaphores i).waiting_tasks s1 (ground arith)
              (record { bounded = b.bounded }))
      ]

  -- If no semaphore's count exceeds its maximum, and other tasks keep it so until a context switch
  -- comes back, then none does after semaphore_take with any timeout, and none after
  -- semaphore_give, whatever these return.
  pub take_and_give-IsBounded :
      (i timeout : ℕ) (s : Sys)
      → IsBounded s
      → IsBounded (semaphore_take e (some i) timeout s).0
        × IsBounded (semaphore_give e (some i) s).0
  take_and_give-IsBounded i timeout s b = (take-IsBounded i timeout s b, give-IsBounded i s b)
