-- ===== src/Scheduler/Switch/Boot.antt =====
-- scheduler_init empties the lists, and scheduler_start leaves its first task in one.
use orbit_rtos.Base.{
  ℕ, zero, suc, ◌+◌, ◌<◌, ◌≡◌, refl, ◌⊎◌, inl, inr, true, some, [], contains, arith, ap, leb, ltb,
  ◌&&◌, if◌then◌else◌, ◌∙◌,
}
use orbit_rtos.Kernel.{
  Sys, Env, Policy, by_priority, rms, success, active, stopped, running, set_stats, set_ready,
  ◌>>=◌, max_priority_levels,
}
use orbit_rtos.Kernel.Lists.{ListLaws}
use orbit_rtos.Scheduler.Select.Choice.{IsHighest, highest_ready-some}
use orbit_rtos.Scheduler.Select.Policies.{get_next_task_unlocked}
use orbit_rtos.Scheduler.Select.{scheduler_get_next_task, select, or_idle, count_invocation}
use orbit_rtos.Context.{first_task_state}
use orbit_rtos.Scheduler.Switch.{
  init_ready, scheduler_init, zero_stats, scheduler_start, start_first, started, set_state,
}

init_ready_lem :
    {e : Env} (laws : ListLaws e) (k i : ℕ) (s : Sys)
    → (s' : Sys) × (init_ready e k i s ≡ (s', success))
      × ((p : ℕ)
          → s'.sched.ready_lists p
            ≡ (if leb i p && ltb p (i + k) then [] else s.sched.ready_lists p))
      × (s' ≡ record s { sched = record (s.sched) { ready_lists = s'.sched.ready_lists } })
unfolding init_ready
init_ready_lem laws zero i s = (s, refl, λ p. ground arith, refl)
init_ready_lem {e} laws (suc k) i s =
    let (s', q, h, f) = init_ready_lem laws k (i + 1) (set_ready s i []) in
    (
      s',
      ap (λ x. (set_ready s i x.0, x.1) >>= init_ready e k (i + 1))
            (laws.init_lem (s.sched.ready_lists i))
          ∙ q,
      λ p. ground (arith, h p),
      f,
    )

-- With ListLaws, scheduler_init succeeds with all 16 ready lists,
-- blocked_list and suspended_list empty, the given policy, the scheduler stopped and unlocked, and
-- tasks and task table as they were.
pub scheduler_init_lem :
    {e : Env} (laws : ListLaws e) (policy : Policy) (s : Sys)
    → let (s', r) = scheduler_init e policy s in
      (r ≡ success)
      × ((p : ℕ) → p < max_priority_levels → s'.sched.ready_lists p ≡ [])
      × (s'.sched.blocked_list ≡ [])
      × (s'.sched.suspended_list ≡ [])
      × (s'.sched.current_policy ≡ policy)
      × (s'.sched.scheduler_state ≡ stopped)
      × (s'.sched.lock_count ≡ 0)
      × (s'.heap ≡ s.heap)
      × (s'.table ≡ s.table)
unfolding scheduler_init
scheduler_init_lem {e} laws policy s =
    let (s', q, h, f) = init_ready_lem laws max_priority_levels 0 s in
    rw (q, laws.init_lem s'.sched.blocked_list, laws.init_lem s'.sched.suspended_list)
      (
        refl,
        λ p l. ground (arith, h p),
        refl,
        refl,
        refl,
        refl,
        refl,
        ap (λ x. x.heap) f,
        ap (λ x. x.table) f,
      )

-- Nothing but the scheduler's variables changes.
pub scheduler_init-kept :
    {e : Env} (laws : ListLaws e) (policy : Policy) (s : Sys)
    → let s' = (scheduler_init e policy s).0 in s' ≡ record s { sched = s'.sched }
unfolding scheduler_init
scheduler_init-kept {e} laws policy s =
    let (s', q, h, f) = init_ready_lem laws max_priority_levels 0 s in
    rw (q, laws.init_lem s'.sched.blocked_list, laws.init_lem s'.sched.suspended_list)
      (ap {A = Sys} {B = Sys}
        (λ x. record x {
          sched = record (s'.sched) {
            blocked_list = [];
            suspended_list = [];
            current_policy = policy;
            stats = zero_stats;
            lock_count = 0;
            scheduler_state = stopped;
          };
        })
        f)

start_first-some : (s : Sys) (t : ℕ) → start_first (s, some t) ≡ started (first_task_state t s)
unfolding start_first
start_first-some s t = refl

-- The highest ready task is the choice.
highest_chosen :
    (e : Env) (s : Sys) (q t : ℕ)
    → s.sched.lock_count ≡ 0
    → (s.sched.current_policy ≡ by_priority) ⊎ (s.sched.current_policy ≡ rms)
    → IsHighest s.sched.ready_lists q t
    → scheduler_get_next_task e s ≡ (count_invocation s, some t)
unfolding select or_idle count_invocation
highest_chosen e s q t unlocked pol h =
    let s' = count_invocation s in
    let found = ap (λ o. or_idle (s', o)) (highest_ready-some s' q t h) in
    get_next_task_unlocked e s unlocked ∙ elim pol [
      | inl p ↦ ap (λ x. or_idle (select e x s')) p ∙ found
      | inr p ↦ ap (λ x. or_idle (select e x s')) p ∙ found
    ]

-- scheduler_start of a stopped, unlocked scheduler under the priority policy or rate monotonic
-- scheduling starts the highest ready task: the scheduler is active, and that task is running and
-- current, and also still in its ready list. The objects of ipc.c and the messages are as they
-- were.
pub start_leaves_listed :
    (e : Env) (s : Sys) (q t : ℕ)
    → s.sched.scheduler_state ≡ stopped
    → s.sched.lock_count ≡ 0
    → (s.sched.current_policy ≡ by_priority) ⊎ (s.sched.current_policy ≡ rms)
    → IsHighest s.sched.ready_lists q t
    → (s' : Sys) × (scheduler_start e s ≡ started s')
      × ((s'.heap t).state ≡ running)
      × (s'.table.current_task ≡ some t)
      × (s'.sched.scheduler_state ≡ active)
      × (contains t (s'.sched.ready_lists q) ≡ true)
      × (s'.ipc ≡ s.ipc)
      × (s'.memory ≡ s.memory)
unfolding scheduler_start first_task_state count_invocation contains
start_leaves_listed e s q t stop unlocked pol h =
    let s0 = set_state (set_stats s zero_stats) active in
    let chosen : scheduler_get_next_task e s0 ≡ (count_invocation s0, some t) =
      highest_chosen e s0 q t unlocked pol h in
    (
      first_task_state t (count_invocation s0),
      rw (stop, chosen) (start_first-some (count_invocation s0) t),
      ground arith,
      refl,
      refl,
      rw h.at_head (ground arith),
      refl,
      refl,
    )
