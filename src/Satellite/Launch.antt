-- ===== src/Satellite/Launch.antt =====
-- What main sets up before the scheduler starts.
use orbit_rtos.Base.{ℕ, ◌<◌, ◌≡◌, refl, ◌∙◌, sym, ap, subst, true, false, none, some, [], arith}
use orbit_rtos.Kernel.{
  Sys, Env, Status, ready, by_priority, stopped, max_tasks, max_priority_levels,
}
use orbit_rtos.Kernel.Lists.{ListLaws}
use orbit_rtos.Context.{context_init}
use orbit_rtos.Scheduler.Switch.{scheduler_init}
use orbit_rtos.Scheduler.Switch.Boot.{scheduler_init_lem, scheduler_init-kept}
use orbit_rtos.Task.Table.{idle_name, task_init}
use orbit_rtos.Task.Table.Slots.{used, IsCounted}
use orbit_rtos.Task.Table.Additions.{task_create-IsAdded}
use orbit_rtos.Ipc.Objects.{ipc_init}
use orbit_rtos.Satellite.{Platform}
use orbit_rtos.Satellite.Start.{Boot, init_kernel}

-- What main relies on of timer_init and time_init: no more than the clock changes.
pub record TimeLaws (p : Platform) : Type 0 where
  pub timer_lem : (s : Sys) → p.timer_init s ≡ record s { clock = (p.timer_init s).clock }
  pub time_lem : (s : Sys) → p.time_init s ≡ record s { clock = (p.time_init s).clock }

-- The table that task_init clears.
abbrev cleared : Sys → Sys
cleared s = record s {
  table = record (s.table) { slots = λ i. none; task_count = 0; current_task = none };
}

cleared-IsCounted : (s : Sys) → IsCounted (cleared s)
unfolding used
cleared-IsCounted s = record { counted = refl }

idle_created :
    {e : Env} (laws : ListLaws e) (func t stack : ℕ) (s : Sys)
    → let s' = (task_init e func (some t) (some stack) true s).0 in
      (s'.table.idle_task ≡ some t)
      × ((s'.heap t).state ≡ ready)
      × IsCounted s'
      × (s'.table.task_count ≡ 1)
      × (s'.critical ≡ s.critical)
unfolding task_init
idle_created {e} laws func t stack s =
    let s0 = cleared s in
    let (s', r, v) =
      task_create-IsAdded laws idle_name 15 func 0 1024 t stack s0 (cleared-IsCounted s)
        (omega arith) (omega arith) in
    rw r (
      refl,
      ap (λ h. (h t).state) v.heap_lem ∙ ground arith,
      record { counted = v.counted.counted },
      v.one_more,
      ap (λ x. x.critical) v.kept,
    )

-- The kernel at the end of its initialisation, with the idle task at `t`.
pub record IsBooted (t : ℕ) (s : Sys) : Type 0 where
  pub idle : s.table.idle_task ≡ some t
  pub idle_state : (s.heap t).state ≡ ready
  pub no_ready : (q : ℕ) → q < max_priority_levels → s.sched.ready_lists q ≡ []
  pub no_blocked : s.sched.blocked_list ≡ []
  pub no_suspended : s.sched.suspended_list ≡ []
  pub policy : s.sched.current_policy ≡ by_priority
  pub stopped_lem : s.sched.scheduler_state ≡ stopped
  pub unlocked : s.sched.lock_count ≡ 0
  pub counted : IsCounted s
  pub one_task : s.table.task_count ≡ 1
  pub outside : s.critical.section_count ≡ 0
  pub no_semaphore : (i : ℕ) → s.ipc.semaphore_used i ≡ false
  pub no_mutex : (i : ℕ) → s.ipc.mutex_used i ≡ false
  pub no_queue : (i : ℕ) → s.ipc.queue_used i ≡ false
  pub no_group : (i : ℕ) → s.ipc.event_group_used i ≡ false

-- What main initialises before its objects, on lists that follow their documentation, with memory
-- for the idle task, and with timer and time modules that touch nothing but the clock: the
-- scheduler is stopped, unlocked and under the priority policy, no object is in use, no critical
-- section is open and one task is counted, the idle task. It is READY, yet every list is empty:
-- scheduler_init has emptied the list in which task_init had put it.
pub init_kernel-IsBooted :
    {e : Env} (laws : ListLaws e) {p : Platform} (time : TimeLaws p) (b : Boot) (t stack : ℕ)
    (s : Sys)
    → b.task_memory 0 ≡ some t
    → b.stack_memory 0 ≡ some stack
    → b.allocated 0 ≡ true
    → IsBooted t (init_kernel e p b s)
unfolding init_kernel ipc_init context_init
init_kernel-IsBooted {e} laws {p} time b t stack s memory stacked allocated =
    let s1 = p.timer_init (context_init s).0 in
    let s2 = (task_init e (b.func 0) (some t) (some stack) true s1).0 in
    let (idle, state, counted, one, critical) = idle_created laws (b.func 0) t stack s1 in
    let (_, lists, no_blocked, no_suspended, policy, stop, unlocked, heap, table) =
      scheduler_init_lem laws by_priority s2 in
    let s4 = (ipc_init (scheduler_init e by_priority s2).0).0 in
    let booted : IsBooted t (record s4 { clock = (p.time_init s4).clock }) = record {
      idle = ap (λ x. x.idle_task) table ∙ idle;
      idle_state = ap (λ h. (h t).state) heap ∙ state;
      no_ready = lists;
      no_blocked = no_blocked;
      no_suspended = no_suspended;
      policy = policy;
      stopped_lem = stop;
      unlocked = unlocked;
      counted = record {
        counted =
            ap (λ x. x.task_count) table
            ∙ counted.counted
            ∙ ap (λ x. used x.slots max_tasks 0) (sym table);
      };
      one_task = ap (λ x. x.task_count) table ∙ one;
      outside =
          ap (λ x. x.critical.section_count) (scheduler_init-kept laws by_priority s2)
          ∙ ap (λ x. x.section_count) critical
          ∙ ap (λ x. x.critical.section_count) (time.timer_lem (context_init s).0);
      no_semaphore = λ i. refl;
      no_mutex = λ i. refl;
      no_queue = λ i. refl;
      no_group = λ i. refl;
    } in
    let finish =
      λ (x : Sys × Status). p.time_init (ipc_init (scheduler_init e by_priority x.0).0).0 in
    subst (IsBooted t)
      (sym (
        ap (λ o. finish (task_init e (b.func 0) o (b.stack_memory 0) (b.allocated 0) s1)) memory
        ∙ ap (λ o. finish (task_init e (b.func 0) (some t) o (b.allocated 0) s1)) stacked
        ∙ ap (λ o. finish (task_init e (b.func 0) (some t) (some stack) o s1)) allocated
        ∙ time.time_lem s4))
      booted
