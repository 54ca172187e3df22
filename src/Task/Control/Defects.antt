-- ===== src/Task/Control/Defects.antt =====
-- What the writes of task_set_priority, task_suspend, task_resume and task_delay before their calls of
-- the scheduler do to the scheduler's lists.
use orbit_rtos.Base.{
  ℕ, ◌<◌, ◌≡◌, ◌≢◌, refl, ◌∙◌, ap, fun_ext, false, some, is_ref, add32, count, arith,
}
use orbit_rtos.Kernel.{
  Sys, Env, ready, running, blocked, suspended, delay, null, Status, success, failure, ◌>>=◌,
  set_task, max_priority_levels,
}
use orbit_rtos.Kernel.Lists.{ListLaws}
use orbit_rtos.Scheduler.Blocking.{scheduler_update_task_state, scheduler_block_task}
use orbit_rtos.Scheduler.Blocking.Placement.{IsPlaced, IsUnlisted}
use orbit_rtos.Scheduler.Blocking.Moves.{block_task_running}
use orbit_rtos.Task.Control.{
  task_set_priority, task_get_priority, task_suspend, task_resume, sleep_until, delay_current,
  task_delay, write_task_state,
}

-- task_set_priority of a ready task in its place to another valid priority succeeds, the priority
-- can be read back, and it also becomes the original priority. Nothing of the scheduler changes:
-- the task stays once in the ready list of its old priority and is not in the one of its new
-- priority.
pub set_priority_stale :
    (e : Env) (s : Sys) (t p : ℕ)
    → p < max_priority_levels
    → IsPlaced s t
    → (s.heap t).state ≡ ready
    → p ≢ (s.heap t).priority
    → let (s', r) = task_set_priority e (some t) p s in
      (r ≡ success)
      × (task_get_priority (some t) s' ≡ p)
      × ((s'.heap t).original_priority ≡ p)
      × (s'.sched ≡ s.sched)
      × (count t (s'.sched.ready_lists (s.heap t).priority) ≡ 1)
      × (count t (s'.sched.ready_lists p) ≡ 0)
unfolding task_set_priority scheduler_update_task_state task_get_priority
set_priority_stale e s t p h v r ne = (
  ground arith,
  ground arith,
  ground arith,
  ground arith,
  ground (arith, v.in_ready (s.heap t).priority),
  ground (arith, v.in_ready p),
)

-- task_suspend of a ready task in its place that is neither current nor idle succeeds and makes it
-- SUSPENDED: it stays once in its ready list and is not in suspended_list.
pub suspend_stale :
    (e : Env) (s : Sys) (t : ℕ)
    → is_ref s.table.idle_task t ≡ false
    → is_ref s.table.current_task t ≡ false
    → IsPlaced s t
    → (s.heap t).state ≡ ready
    → let (s', r) = task_suspend e (some t) s in
      (r ≡ success)
      × ((s'.heap t).state ≡ suspended)
      × (count t (s'.sched.ready_lists (s.heap t).priority) ≡ 1)
      × (count t s'.sched.suspended_list ≡ 0)
unfolding task_suspend scheduler_update_task_state
suspend_stale e s t idle current v r = (
  ground arith,
  ground arith,
  ground (arith, v.in_ready (s.heap t).priority),
  ground (arith, v.in_suspended),
)

suspend_lem :
    (e : Env) (s : Sys) (t : ℕ)
    → is_ref s.table.idle_task t ≡ false
    → is_ref s.table.current_task t ≡ false
    → task_suspend e (some t) s ≡ (write_task_state s t suspended, success)
unfolding task_suspend scheduler_update_task_state
suspend_lem e s t idle current = ground arith

resume_lem :
    (e : Env) (s : Sys) (t : ℕ)
    → (s.heap t).state ≡ suspended
    → task_resume e (some t) s ≡ (write_task_state s t ready, success)
unfolding task_resume scheduler_update_task_state
resume_lem e s t h = ground arith

rewritten :
    (s : Sys) (t : ℕ)
    → (s.heap t).state ≡ ready
    → write_task_state (write_task_state s t suspended) t ready ≡ s
rewritten s t r = ap (λ h. record s { heap = h }) (fun_ext (λ u. ground arith))

-- Resuming a ready task that has just been suspended, and is neither current nor idle, succeeds
-- and gives back the state from before.
pub resume-suspend :
    (e : Env) (s : Sys) (t : ℕ)
    → is_ref s.table.idle_task t ≡ false
    → is_ref s.table.current_task t ≡ false
    → (s.heap t).state ≡ ready
    → task_resume e (some t) (task_suspend e (some t) s).0 ≡ (s, success)
resume-suspend e s t idle current r = rw (suspend_lem e s t idle current) (
    resume_lem e (write_task_state s t suspended) t (ground arith)
    ∙ ap (λ x. (x, success)) (rewritten s t r))

failed : (m : Sys × Status) (f : Sys → Sys × Status) → m.1 ≡ failure → (m >>= f) ≡ m
failed (s, failure) f h = refl
failed (s, success) f h = cc

block-delay_until :
    (e : Env) (s : Sys) (c u : ℕ)
    → ((scheduler_block_task e (some c) delay null s).0.heap u).delay_until ≡ (s.heap u).delay_until
unfolding scheduler_block_task
block-delay_until e s c u = ground arith

delay_lem :
    (e : Env) (s : Sys) (c ticks : ℕ)
    → s.table.current_task ≡ some c
    → is_ref s.table.idle_task c ≡ false
    → 0 < ticks
    → task_delay e ticks s ≡ sleep_until e c (add32 s.clock ticks) s
unfolding task_delay delay_current
delay_lem e s c ticks cur idle h = ground arith

-- With ListLaws, task_delay of a running current task that is in its
-- place and not the idle task, with at least one tick, fails: the task is then BLOCKED and in no
-- list, with its wake time set.
pub delay_running :
    {e : Env} (laws : ListLaws e) (s : Sys) (c ticks : ℕ)
    → s.table.current_task ≡ some c
    → is_ref s.table.idle_task c ≡ false
    → IsPlaced s c
    → (s.heap c).state ≡ running
    → 0 < ticks
    → let (s', r) = task_delay e ticks s in
      (r ≡ failure)
      × ((s'.heap c).state ≡ blocked)
      × ((s'.heap c).delay_until ≡ add32 s.clock ticks)
      × IsUnlisted s' c
unfolding sleep_until
delay_running {e} laws s c ticks cur idle v run h =
    let s1 = set_task s c (record (s.heap c) { delay_until = add32 s.clock ticks }) in
    let v1 : IsPlaced s1 c = record {
      in_ready = λ p. ground (arith, v.in_ready p);
      in_blocked = ground arith;
      in_suspended = ground arith;
    } in
    let b = block_task_running laws s1 c delay null idle v1 (ground arith) in
    let to_block : task_delay e ticks s ≡ scheduler_block_task e (some c) delay null s1 =
      delay_lem e s c ticks cur idle h
      ∙ failed (scheduler_block_task e (some c) delay null s1) _ b.0 in
    rw to_block (b.0, b.1, block-delay_until e s1 c c ∙ ground arith, b.2)
