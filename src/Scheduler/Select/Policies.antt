-- ===== src/Scheduler/Select/Policies.antt =====
-- scheduler_get_next_task under each scheduling policy, and under the scheduler lock.
use orbit_rtos.Base.{
  ℕ, ◌<◌, ◌≡◌, refl, ◌⊎◌, inl, inr, false, Option, none, some, List, [], ◌∷◌, ap, arith, ◌∙◌,
}
use orbit_rtos.Kernel.{
  Sys, Env, by_priority, round_robin, edf, rms, running, set_ready, max_priority_levels,
}
use orbit_rtos.Scheduler.Select.{
  highest_ready, earliest_ready, rotate_ready, select, or_idle, count_invocation, keeps_current,
  scheduler_get_next_task,
}
use orbit_rtos.Scheduler.Select.Choice.{
  IsHighest, Highest, highest_ready-Highest, Earliest, earliest_ready-Earliest,
  first_ready-IsHighest,
}

-- `r` is the choice that `P` describes, or the idle task where there is none.
abbrev pub OrIdle : (Option ℕ → Type 0) → Sys → Option ℕ → Type 0
OrIdle P s r = (P none × (r ≡ s.table.idle_task)) ⊎ ((t : ℕ) × P (some t) × (r ≡ some t))

or_idle-OrIdle :
    (P : Option ℕ → Type 0) (s : Sys) (o : Option ℕ) → P o → OrIdle P s (or_idle (s, o)).1
unfolding or_idle
or_idle-OrIdle P s none h = inl (h, refl)
or_idle-OrIdle P s (some t) h = inr (t, h, refl)

or_idle-state : (s : Sys) (o : Option ℕ) → (or_idle (s, o)).0 ≡ s
unfolding or_idle
or_idle-state s none = refl
or_idle-state s (some t) = refl

keeps_current_unlocked :
    (s : Sys) (o : Option ℕ) → s.sched.lock_count ≡ 0 → keeps_current s o ≡ false
unfolding keeps_current
keeps_current_unlocked s none h = refl
keeps_current_unlocked s (some t) h = ground arith

-- Without the lock the policy decides.
pub get_next_task_unlocked :
    (e : Env) (s : Sys)
    → s.sched.lock_count ≡ 0
    → scheduler_get_next_task e s ≡ or_idle (select e s.sched.current_policy (count_invocation s))
unfolding scheduler_get_next_task
get_next_task_unlocked e s h = rw (
    keeps_current_unlocked (count_invocation s) s.table.current_task (unfold count_invocation in h))

-- The round robin case removes its choice from the list and appends it again.
abbrev pub rotated : Env → List ℕ → ℕ → List ℕ
rotated e l t = (e.list_append (e.list_remove l t).0 t).0

rotate_ready_lem :
    (e : Env) (s : Sys)
    → (((p : ℕ) → p < max_priority_levels → s.sched.ready_lists p ≡ [])
        × (rotate_ready e s ≡ (s, none)))
      ⊎ ((q : ℕ) × (t : ℕ) × (h : IsHighest s.sched.ready_lists q t) × (rotate_ready e s
            ≡ (set_ready s q (rotated e (s.sched.ready_lists q) t), some t)))
unfolding rotate_ready
rotate_ready_lem e s = elim (first_ready-IsHighest s.sched.ready_lists) [
  | inl (none_ready, all) ↦ inl (all, rw (none_ready, rotate_ready))
  | inr (q, t, found, h) ↦ inr (q, t, h, rw (found, rotate_ready))
]

-- Without the lock, the result follows the choice `o` that the policy makes.
after_choice :
    (P : Option ℕ → Type 0) (e : Env) (s : Sys) (o : Option ℕ)
    → s.sched.lock_count ≡ 0
    → select e s.sched.current_policy (count_invocation s) ≡ (count_invocation s, o)
    → P o
    → let (s', r) = scheduler_get_next_task e s in (s' ≡ count_invocation s) × OrIdle P s r
unfolding count_invocation
after_choice P e s o unlocked chosen h =
    rw (get_next_task_unlocked e s unlocked, chosen)
      (or_idle-state (count_invocation s) o, or_idle-OrIdle P (count_invocation s) o h)

module _ (e : Env) (s : Sys) (unlocked : s.sched.lock_count ≡ 0) where
  -- Under the priority policy and under rate monotonic scheduling, with the scheduler not locked,
  -- scheduler_get_next_task returns the head of the first ready list that is not empty, all lists
  -- of higher priority being empty, or the idle task if all 16 are empty; and it changes no more
  -- than the count of invocations.
  pub get_next_task_priority :
      (s.sched.current_policy ≡ by_priority) ⊎ (s.sched.current_policy ≡ rms)
      → let (s', r) = scheduler_get_next_task e s in
        (s' ≡ count_invocation s) × OrIdle (Highest s.sched.ready_lists) s r
  unfolding select count_invocation
  get_next_task_priority p =
      after_choice (Highest s.sched.ready_lists) e s (highest_ready (count_invocation s)) unlocked
        (elim p [ inl q ↦ rw (q, select) | inr q ↦ rw (q, select) ])
        (highest_ready-Highest (count_invocation s))

  -- Under EDF, with the scheduler not locked, scheduler_get_next_task returns a periodic ready
  -- task that is due before UINT32_MAX and before which no periodic ready task is due; if no
  -- periodic ready task is due before UINT32_MAX, it returns what the priority policy would. It
  -- changes no more than the count of invocations.
  pub get_next_task_edf :
      s.sched.current_policy ≡ edf
      → let (s', r) = scheduler_get_next_task e s in
        (s' ≡ count_invocation s) × OrIdle (Earliest s.heap s.sched.ready_lists) s r
  unfolding select count_invocation
  get_next_task_edf p =
      after_choice (Earliest s.heap s.sched.ready_lists) e s (earliest_ready (count_invocation s))
        unlocked (rw (p, select)) (earliest_ready-Earliest (count_invocation s))

  -- Under round robin, with the scheduler not locked, scheduler_get_next_task returns the head of
  -- the first ready list that is not empty, all lists of higher priority being empty, and leaves
  -- that list as list_remove of the task and then list_append of it make it, whatever they return;
  -- if all lists are empty it returns the idle task. It changes no more than that list and the
  -- count of invocations.
  pub get_next_task_round_robin :
      s.sched.current_policy ≡ round_robin
      → let (s', r) = scheduler_get_next_task e s in
        (((p : ℕ) → p < max_priority_levels → s.sched.ready_lists p ≡ [])
          × (s' ≡ count_invocation s)
          × (r ≡ s.table.idle_task))
        ⊎ ((q : ℕ) × (t : ℕ) × (h : IsHighest s.sched.ready_lists q t) × (s'
              ≡ set_ready (count_invocation s) q (rotated e (t ∷ h.rest) t))
            × (r ≡ some t))
  unfolding select or_idle count_invocation
  get_next_task_round_robin p =
      let chosen =
        get_next_task_unlocked e s unlocked
        ∙ ap (λ q. or_idle (select e q (count_invocation s))) p in
      elim (rotate_ready_lem e (count_invocation s)) [
        | inl (all, r) ↦
            let eq = chosen ∙ ap or_idle r in inl (all, ap (λ x. x.0) eq, ap (λ x. x.1) eq)
        | inr (q, t, h, r) ↦
            let eq = chosen ∙ ap or_idle r in
            inr (
              q,
              t,
              h,
              ap (λ x. x.0) eq
                  ∙ ap (λ l. set_ready (count_invocation s) q (rotated e l t)) h.at_head,
              ap (λ x. x.1) eq,
            )
      ]

-- While the scheduler is locked and the current task is running, scheduler_get_next_task returns
-- the current task, whatever the policy and the ready lists are, and changes no more than the
-- count of invocations.
pub get_next_task_locked :
    (e : Env) (s : Sys) (c : ℕ)
    → 0 < s.sched.lock_count
    → s.table.current_task ≡ some c
    → (s.heap c).state ≡ running
    → scheduler_get_next_task e s ≡ (count_invocation s, some c)
unfolding scheduler_get_next_task keeps_current count_invocation
get_next_task_locked e s c locked cur run = ground arith
