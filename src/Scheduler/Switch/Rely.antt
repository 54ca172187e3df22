-- ===== src/Scheduler/Switch/Rely.antt =====
-- scheduler_context_switch as a whole: if the other tasks keep the scheduler consistent until control
-- comes back, so does the switch.
use orbit_rtos.Base.{
  ℕ, ◌≡◌, refl, inl, inr, ◌||◌, Option, none, some, is_ref, ltb, Bool-cases, arith, ap, subst, sym,
  ◌∙◌,
}
use orbit_rtos.Kernel.{
  Sys, Env, Policy, by_priority, round_robin, edf, rms, other, ready, running, ◌is◌, is_active,
}
use orbit_rtos.Scheduler.Select.{
  rotate_ready, select, or_idle, count_invocation, scheduler_get_next_task,
}
use orbit_rtos.Scheduler.Select.Policies.{get_next_task_unlocked}
use orbit_rtos.Scheduler.Switch.{transfer, switch_to, scheduler_context_switch}
use orbit_rtos.Scheduler.Switch.Running.{IsConsistent, handover-IsConsistent}
use orbit_rtos.Context.{context_switch, first_task_state}

-- The choice leaves the states and the table alone.
select-frame :
    (e : Env) (policy : Policy) (s : Sys)
    → let s' = (or_idle (select e policy s)).0 in (s'.heap ≡ s.heap) × (s'.table ≡ s.table)
unfolding or_idle select rotate_ready
select-frame e by_priority s = (ground arith, ground arith)
select-frame e rms s = (ground arith, ground arith)
select-frame e edf s = (ground arith, ground arith)
select-frame e (other n) s = (refl, refl)
select-frame e round_robin s = (ground arith, ground arith)

get_next_task-frame :
    (e : Env) (s : Sys)
    → s.sched.lock_count ≡ 0
    → let s' = (scheduler_get_next_task e s).0 in (s'.heap ≡ s.heap) × (s'.table ≡ s.table)
unfolding count_invocation
get_next_task-frame e s unlocked =
    rw (get_next_task_unlocked e s unlocked)
      (select-frame e s.sched.current_policy (count_invocation s))

-- The other tasks keep the scheduler consistent.
abbrev pub Rely : Env → Type 0
Rely e = (from : Option ℕ) (to : ℕ) (s : Sys) → IsConsistent s → IsConsistent (e.resumed from to s)

-- Setting the running, current task to be that once more changes nothing that matters.
first_task-IsConsistent :
    (s : Sys) (n : ℕ)
    → IsConsistent s × (s.table.current_task ≡ some n) × ((s.heap n).state ≡ running)
    → IsConsistent (first_task_state n s)
unfolding first_task_state
first_task-IsConsistent s n (v, cur, run) = record {
  idle_ready = λ i h. ground (arith, v.idle_ready i h);
  only_current = λ u h. ground (arith, v.only_current u);
}

transfer-IsConsistent :
    (e : Env) (rely : Rely e) (c : Option ℕ) (n : ℕ) (s : Sys)
    → IsConsistent s × (s.table.current_task ≡ some n) × ((s.heap n).state ≡ running)
    → IsConsistent (transfer e c n s)
unfolding transfer context_switch
transfer-IsConsistent e rely none n s h = rely none n _ (first_task-IsConsistent s n h)
transfer-IsConsistent e rely (some c) n s h = rely (some c) n s h.0

switch_to-IsConsistent :
    (e : Env) (rely : Rely e) (s : Sys) (next : Option ℕ)
    → IsConsistent s
    → IsConsistent (switch_to e s.table.current_task next s).0
unfolding switch_to
switch_to-IsConsistent e rely s none c = c
switch_to-IsConsistent e rely s (some n) c = elim (Bool-cases (is_ref s.table.current_task n)) [
  | inl same ↦ rw same c
  | inr ne ↦
      rw ne (transfer-IsConsistent e rely s.table.current_task n _ (handover-IsConsistent e s n c))
]

-- States and table decide.
pub same-IsConsistent :
    {s s' : Sys} → s'.heap ≡ s.heap → s'.table ≡ s.table → IsConsistent s → IsConsistent s'
same-IsConsistent {s} {s'} h t c = record {
  idle_ready = λ i e.
      let old = c.idle_ready i (sym (ap (λ x. x.idle_task) t) ∙ e) in
      ap (λ f. (f i).state is ready || (f i).state is running) h ∙ old;
  only_current =
      λ u e. ap (λ x. x.current_task) t ∙ c.only_current u (sym (ap (λ f. (f u).state) h) ∙ e);
}

-- Whatever the lists do, scheduler_context_switch keeps the idle task ready or running and no task
-- but the current one running. This takes a state to begin with in which that is so, and other
-- tasks that keep it so until control comes back.
pub context_switch-IsConsistent :
    (e : Env) (rely : Rely e) (s : Sys)
    → IsConsistent s
    → IsConsistent (scheduler_context_switch e s).0
unfolding scheduler_context_switch
context_switch-IsConsistent e rely s v = elim (Bool-cases (is_active s.sched.scheduler_state)) [
  | inr stop ↦ rw stop v
  | inl go ↦ elim (Bool-cases (ltb 0 s.sched.lock_count)) [
    | inl locked ↦ rw (go, locked) v
    | inr free ↦
        let f = get_next_task-frame e s (ground arith) in
        let (s', next) = scheduler_get_next_task e s in
        rw (go, free)
          (subst (λ c. IsConsistent (switch_to e c next s').0) (ap (λ x. x.current_task) f.1)
            (switch_to-IsConsistent e rely s' next (same-IsConsistent f.0 f.1 v)))
  ]
]
