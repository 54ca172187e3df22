-- ===== src/Scheduler/Blocking/Moves.antt =====
-- scheduler_block_task of the running task, and the lists of the scheduler.
use orbit_rtos.Base.{ℕ, ◌≡◌, false, some, is_ref, contains-count, arith}
use orbit_rtos.Kernel.{Sys, Env, running, blocked, BlockReason, BlockObject, failure}
use orbit_rtos.Kernel.Lists.{ListLaws}
use orbit_rtos.Scheduler.Blocking.{scheduler_block_task}
use orbit_rtos.Scheduler.Blocking.Placement.{IsPlaced, IsUnlisted}

module _ {e : Env} (laws : ListLaws e) (s : Sys) (t : ℕ) where
  -- With ListLaws, scheduler_block_task fails for a running task that
  -- is in its place and not the idle task: the task is then BLOCKED and in no list.
  pub block_task_running :
      (cause : BlockReason) (object : BlockObject)
      → is_ref s.table.idle_task t ≡ false
      → IsPlaced s t
      → (s.heap t).state ≡ running
      → let (s', r) = scheduler_block_task e (some t) cause object s in
        (r ≡ failure) × ((s'.heap t).state ≡ blocked) × IsUnlisted s' t
  unfolding scheduler_block_task
  block_task_running cause object idle v run =
      let stays = laws.absent_lem (s.sched.ready_lists (s.heap t).priority) t in
      let absent = contains-count t (s.sched.ready_lists (s.heap t).priority) in
      let none_ready = v.in_ready (s.heap t).priority in
      (
        ground arith,
        ground arith,
        record {
          in_ready = λ p. ground (arith, v.in_ready p);
          in_blocked = ground arith;
          in_suspended = ground arith;
        },
      )
