-- ===== src/Satellite/Takeoff.antt =====
-- main as a whole: from the start of the program to its first task.
use orbit_rtos.Base.{
  ℕ, ◌+◌, ◌*◌, ◌%◌, ◌≤◌, ◌≡◌, ◌≢◌, refl, ◌∙◌, sym, ap, subst, inl, ◌⊎◌, true, if◌then◌else◌, some,
  [], ◌∷◌, ◌++◌, contains, arith,
}
use orbit_rtos.Kernel.{Sys, Env, Ipc, by_priority, stopped, active, running}
use orbit_rtos.Kernel.Lists.{ListLaws}
use orbit_rtos.Scheduler.Select.Choice.{IsHighest}
use orbit_rtos.Scheduler.Switch.{started, scheduler_start}
use orbit_rtos.Scheduler.Switch.Boot.{start_leaves_listed}
use orbit_rtos.Task.Table.Slots.{IsCounted}
use orbit_rtos.Ipc.Queue.Creation.{IsEmptyQueue}
use orbit_rtos.Ipc.Queue.Contents.{contents}
use orbit_rtos.Ipc.Queue.Serving.{held}
use orbit_rtos.Satellite.{Platform, Shared, satellite_init}
use orbit_rtos.Satellite.Start.{
  Boot, init_kernel, create_objects, create_tasks, set_periods, deploy_order, mode_order,
  before_start, main, left, not_created,
}
use orbit_rtos.Satellite.Launch.{TimeLaws, IsBooted, init_kernel-IsBooted}
use orbit_rtos.Satellite.Objects.{create_objects_lem}
use orbit_rtos.Satellite.Orders.{image, Takes, send_orders_lem}
use orbit_rtos.Satellite.Crew.{Allocates, IsUnderway, create_tasks-IsUnderway, set_periods-kept}

-- What the start needs of the kernel's initial state.
record IsReset (s : Sys) : Type 0 where
  policy : s.sched.current_policy ≡ by_priority
  at_rest : s.sched.scheduler_state ≡ stopped
  unlocked : s.sched.lock_count ≡ 0
  no_top : s.sched.ready_lists 0 ≡ []
  counted : IsCounted s
  one_task : s.table.task_count ≡ 1
  outside : s.critical.section_count ≡ 0

booted-IsReset : (t : ℕ) (s : Sys) (o : Ipc) → IsBooted t s → IsReset (record s { ipc = o })
booted-IsReset t s o v = record {
  policy = v.policy;
  at_rest = v.stopped_lem;
  unlocked = v.unlocked;
  no_top = v.no_ready 0 (omega arith);
  counted = record { counted = v.counted.counted };
  one_task = v.one_task;
  outside = v.outside;
}

-- What main asks of memory for the queue.
pub record FitsQueue (e : Env) (p : Platform) (b : Boot) (a : ℕ) : Type 0 where
  pub sized : p.command_size ≢ 0
  pub fits : 10 * p.command_size ≤ e.size_mod
  pub malloc_lem : b.malloc ((p.command_size * 10) % e.size_mod) ≡ some a
  pub apart : (b.cmd + p.command_size ≤ a) ⊎ (a + 10 * p.command_size ≤ b.cmd)

empty-Takes :
    {e : Env} {p : Platform} {b : Boot} {a : ℕ} (i : ℕ) (s : Sys)
    → FitsQueue e p b a
    → s.critical.section_count ≡ 0
    → IsEmptyQueue e a p.command_size 10 s.memory (s.ipc.queues i)
    → Takes e p i b.cmd 2 s
empty-Takes i s queue outside empty = record {
  serves = record {
    valid = empty.valid;
    no_sender = empty.no_sender;
    no_receiver = empty.no_receiver;
    apart = rw (empty.size_lem, empty.capacity_lem, empty.buffer_lem) queue.apart;
    nested = record {
      has_room = omega (arith, outside);
      masked = λ h. absurd (omega (arith, outside, h));
    };
  };
  sized = empty.size_lem;
  room = omega (arith, empty.count_lem, empty.capacity_lem);
}

-- The state in which main starts the scheduler.
record IsPrepared (p : Platform) (i t : ℕ) (s : Sys) : Type 0 where
  policy : s.sched.current_policy ≡ by_priority
  at_rest : s.sched.scheduler_state ≡ stopped
  unlocked : s.sched.lock_count ≡ 0
  top_list : s.sched.ready_lists 0 ≡ t ∷ []
  now : ℕ
  orders : held s i ≡ image p (deploy_order now) ∷ image p (mode_order now) ∷ []

before_start-IsPrepared :
    {e : Env} (laws : ListLaws e) (p : Platform) (b : Boot) (address stack : ℕ → ℕ) (a i : ℕ)
    (h : Shared) (s : Sys)
    → Allocates b address stack
    → FitsQueue e p b a
    → h.command_queue ≡ some i
    → IsEmptyQueue e a p.command_size 10 s.memory (s.ipc.queues i)
    → IsReset s
    → IsPrepared p i (address 4) (before_start e p b h s)
unfolding before_start satellite_init
before_start-IsPrepared {e} laws p b address stack a i h s1 memory queue found empty v1 =
    let s2 = satellite_init p.floats s1 in
    let s3 = create_tasks e b s2 in
    let base2 : IsUnderway s2 1 [] s2 = record {
      counted = record { counted = v1.counted.counted };
      task_count = v1.one_task;
      top_list = v1.no_top;
      policy = refl;
      state = refl;
      lock = refl;
      kept = refl;
    } in
    let v3 = create_tasks-IsUnderway laws b address stack memory s2 s2 base2 in
    let s4 = set_periods p s3 in
    let kept4 = set_periods-kept p s3 in
    let ipc4 : s4.ipc ≡ s1.ipc = ap (λ x. x.ipc) kept4 ∙ ap (λ x. x.ipc) v3.kept in
    let memory4 : s4.memory ≡ s1.memory = ap (λ x. x.memory) kept4 ∙ ap (λ x. x.memory) v3.kept in
    let outside4 : s4.critical.section_count ≡ 0 =
      ap (λ x. x.critical.section_count) kept4
      ∙ ap (λ x. x.critical.section_count) v3.kept
      ∙ v1.outside in
    let empty4 : IsEmptyQueue e a p.command_size 10 s4.memory (s4.ipc.queues i) =
      subst (λ m. IsEmptyQueue e a p.command_size 10 m (s4.ipc.queues i)) (sym memory4)
        (subst (λ x. IsEmptyQueue e a p.command_size 10 s1.memory (x.queues i)) (sym ipc4) empty) in
    let takes = empty-Takes i s4 queue outside4 empty4 in
    let (_, held5, kept5) = send_orders_lem e p i b.cmd 0 h s4 found takes in
    let sched5 = ap (λ x. x.sched) kept5 ∙ ap (λ x. x.sched) kept4 in
    record {
      policy = ap (λ x. x.current_policy) sched5 ∙ v3.policy ∙ v1.policy;
      at_rest = ap (λ x. x.scheduler_state) sched5 ∙ v3.state ∙ v1.at_rest;
      unlocked = ap (λ x. x.lock_count) sched5 ∙ v3.lock ∙ v1.unlocked;
      top_list = ap (λ x. x.ready_lists 0) sched5 ∙ v3.top_list;
      now = s4.clock;
      orders =
          held5
          ∙ ap (λ l. l ++ image p (deploy_order s4.clock) ∷ image p (mode_order s4.clock) ∷ [])
              empty4.nothing;
    }

-- main, on lists that follow their documentation, with memory for every task and for a queue whose
-- size fits into size_t, main's variable cmd outside the queue's buffer, and timer and time
-- modules that touch nothing but the clock, gets through: its objects are created and the
-- scheduler starts. The first task is the fourth one that main creates, the command handler's: it
-- is running and current and, as scheduler_start leaves it, still in ready list 0; and the command
-- queue holds exactly the two orders of main, to deploy the solar panels and to set the normal
-- mode, in that order.
pub main_lem :
    {e : Env} (laws : ListLaws e) {p : Platform} (time : TimeLaws p) (b : Boot)
    (address stack : ℕ → ℕ) (a : ℕ) (s : Sys)
    → Allocates b address stack
    → FitsQueue e p b a
    → (s' : Sys) × (main e p b s ≡ left (started s'))
      × (s'.table.current_task ≡ some (address 4))
      × ((s'.heap (address 4)).state ≡ running)
      × (s'.sched.scheduler_state ≡ active)
      × (contains (address 4) (s'.sched.ready_lists 0) ≡ true)
      × (i : ℕ) × ((create_objects e p b (init_kernel e p b s)).1.command_queue ≡ some i)
      × (now : ℕ) × (held s' i ≡ image p (deploy_order now) ∷ image p (mode_order now) ∷ [])
unfolding main
main_lem {e} laws {p} time b address stack a s memory queue =
    let s0 = init_kernel e p b s in
    let boot =
      init_kernel-IsBooted laws time b (address 0) (stack 0) s (memory.task_lem 0)
        (memory.stack_lem 0) (memory.allocated_lem 0) in
    let (i, found, created, empty, kept) =
      create_objects_lem e p b a s0 (boot.no_semaphore 0) boot.no_queue (boot.no_group 0)
        (boot.no_mutex 0) queue.sized queue.fits queue.malloc_lem in
    let (s1, h) = create_objects e p b s0 in
    let reset : IsReset s1 = subst IsReset (sym kept) (booted-IsReset (address 0) s0 s1.ipc boot) in
    let s5 = before_start e p b h s1 in
    let v =
      before_start-IsPrepared laws p b address stack a i h s1 memory queue found empty reset in
    let highest : IsHighest s5.sched.ready_lists 0 (address 4) = record {
      rest = [];
      in_range = omega arith;
      at_head = v.top_list;
      above = λ q l. absurd (omega arith);
    } in
    let (s6, run, state, current, go, listed, ipc6, memory6) =
      start_leaves_listed e s5 0 (address 4) v.at_rest v.unlocked (inl v.policy) highest in
    (
      s6,
      ap (λ c. if c then left (scheduler_start e s5) else not_created s1) created ∙ ap left run,
      current,
      state,
      go,
      listed,
      i,
      found,
      v.now,
      ap (λ x. contents (x.queues i) s6.memory) ipc6
          ∙ ap (contents (s5.ipc.queues i)) memory6
          ∙ v.orders,
    )
