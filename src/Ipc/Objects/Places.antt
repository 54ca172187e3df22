-- ===== src/Ipc/Objects/Places.antt =====
-- What a task's way into a waiting list leaves of its place, and the failed wait.
use orbit_rtos.Base.{ℕ, ◌≡◌, refl, ◌∙◌, ap, false, Option, none, some, is_ref, arith}
use orbit_rtos.Kernel.{
  BlockReason, BlockObject, Sys, Env, running, blocked, Status, success, failure,
}
use orbit_rtos.Kernel.Lists.{ListLaws}
use orbit_rtos.Context.{context_exit_critical}
use orbit_rtos.Scheduler.Blocking.{scheduler_block_task}
use orbit_rtos.Scheduler.Blocking.Placement.{IsPlaced, IsUnlisted}
use orbit_rtos.Scheduler.Blocking.Moves.{block_task_running}
use orbit_rtos.Task.Table.Frames.{transport-IsUnlisted}
use orbit_rtos.Ipc.Objects.{await, set_prev}

-- Two states that the scheduler cannot tell apart at task `c`.
pub record SamePlace (s s' : Sys) (c : ℕ) : Type 0 where
  pub state_same : (s'.heap c).state ≡ (s.heap c).state
  pub priority_same : (s'.heap c).priority ≡ (s.heap c).priority
  pub sched_same : s'.sched ≡ s.sched
  pub table_same : s'.table ≡ s.table

pub SamePlace-IsPlaced : {s s' : Sys} {c : ℕ} → SamePlace s s' c → IsPlaced s c → IsPlaced s' c
SamePlace-IsPlaced q v = record {
  in_ready = λ p.
      ground (
        arith,
        v.in_ready p,
        q.state_same,
        q.priority_same,
        ap (λ x. x.ready_lists p) q.sched_same,
      );
  in_blocked = ground (arith, q.state_same, q.sched_same);
  in_suspended = ground (arith, q.state_same, q.sched_same);
}

pub set_prev-SamePlace : (o p : Option ℕ) (s : Sys) (c : ℕ) → SamePlace s (set_prev o p s) c
set_prev-SamePlace none p s c = record {
  state_same = refl;
  priority_same = refl;
  sched_same = refl;
  table_same = refl;
}
set_prev-SamePlace (some t) p s c = record {
  state_same = ground arith;
  priority_same = ground arith;
  sched_same = refl;
  table_same = refl;
}

pub await_failed :
    (e : Env) (c prev : ℕ) (m : Sys × Status)
    → m.1 ≡ failure
    → await e c prev m ≡ (context_exit_critical prev m.0, failure)
unfolding await
await_failed e c prev (s, failure) h = refl
await_failed e c prev (s, success) h = cc

pub block-ipc :
    (e : Env) (s : Sys) (c : ℕ) (cause : BlockReason) (object : BlockObject)
    → (scheduler_block_task e (some c) cause object s).0.ipc ≡ s.ipc
unfolding scheduler_block_task
block-ipc e s c cause object = ground arith

-- A running task that is to wait cannot be blocked.
pub wait_fails :
    {e : Env} (laws : ListLaws e) (s s2 : Sys) (c prev : ℕ) (cause : BlockReason)
    (object : BlockObject)
    → SamePlace s s2 c
    → is_ref s.table.idle_task c ≡ false
    → IsPlaced s c
    → (s.heap c).state ≡ running
    → let m = scheduler_block_task e (some c) cause object s2 in
      let s' = context_exit_critical prev m.0 in
      (m.1 ≡ failure) × ((s'.heap c).state ≡ blocked) × IsUnlisted s' c × (s'.ipc ≡ s2.ipc)
unfolding context_exit_critical
wait_fails {e} laws s s2 c prev cause object q idle v run =
    let (failed, state, unlisted) =
      block_task_running laws s2 c cause object (ground (arith, q.table_same))
        (SamePlace-IsPlaced q v) (q.state_same ∙ run) in
    (failed, state, transport-IsUnlisted refl unlisted, block-ipc e s2 c cause object)
