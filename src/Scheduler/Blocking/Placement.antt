-- ===== src/Scheduler/Blocking/Placement.antt =====
-- The lists of the scheduler and the states of the tasks agree: what that says.
use orbit_rtos.Base.{ℕ, ◌≡◌, ◌≢◌, ◌&&◌, ◌==◌, to_nat, count, arith}
use orbit_rtos.Kernel.{Sys, Task, ready, blocked, suspended, ◌is◌, set_task}

-- Task `t` stands in the list of its state, and of its priority if it is ready, once, and in no
-- other list.
pub record IsPlaced (s : Sys) (t : ℕ) : Type 0 where
  pub in_ready :
      (p : ℕ)
      → count t (s.sched.ready_lists p)
        ≡ to_nat ((s.heap t).state is ready && (s.heap t).priority == p)
  pub in_blocked : count t s.sched.blocked_list ≡ to_nat ((s.heap t).state is blocked)
  pub in_suspended : count t s.sched.suspended_list ≡ to_nat ((s.heap t).state is suspended)

-- `t` stands in no list.
pub record IsUnlisted (s : Sys) (t : ℕ) : Type 0 where
  pub in_ready : (p : ℕ) → count t (s.sched.ready_lists p) ≡ 0
  pub in_blocked : count t s.sched.blocked_list ≡ 0
  pub in_suspended : count t s.sched.suspended_list ≡ 0

-- A write to the task itself moves it between no lists, and other tasks do not notice it.
pub set_task-IsUnlisted :
    {s : Sys} {t : ℕ} (v : Task) → IsUnlisted s t → IsUnlisted (set_task s t v) t
set_task-IsUnlisted v h = record {
  in_ready = h.in_ready;
  in_blocked = h.in_blocked;
  in_suspended = h.in_suspended;
}

pub set_task-IsPlaced :
    {s : Sys} {t u : ℕ} (v : Task) → u ≢ t → IsPlaced s u → IsPlaced (set_task s t v) u
set_task-IsPlaced v ne h = record {
  in_ready = λ p. ground (arith, h.in_ready p);
  in_blocked = ground arith;
  in_suspended = ground arith;
}
