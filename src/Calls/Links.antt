-- ===== src/Calls/Links.antt =====
-- The scheduler's consistency does not depend on the links of waiting tasks, on the objects of ipc.c, on
-- messages or on critical sections.
use orbit_rtos.Base.{ℕ, refl, sym, subst, inl, inr, Option, none, some, Bool-cases, leb, arith}
use orbit_rtos.Kernel.{Sys, Env, set_task, max_priority_levels}
use orbit_rtos.Scheduler.Switch.Running.{IsConsistent}
use orbit_rtos.Scheduler.Tick.Consistency.{set_task-IsConsistent}
use orbit_rtos.Task.Control.{task_set_priority}
use orbit_rtos.Task.Control.Priorities.{set_priority_lem}
use orbit_rtos.Ipc.Objects.{set_prev, set_next, unlink_first, unlink_before, unlink}

pub set_prev-IsConsistent :
    (o p : Option ℕ) (s : Sys) → IsConsistent s → IsConsistent (set_prev o p s)
set_prev-IsConsistent none p s c = c
set_prev-IsConsistent (some t) p s c = set_task-IsConsistent s t _ refl c

pub set_next-IsConsistent :
    (o p : Option ℕ) (s : Sys) → IsConsistent s → IsConsistent (set_next o p s)
set_next-IsConsistent none p s c = c
set_next-IsConsistent (some t) p s c = set_task-IsConsistent s t _ refl c

pub unlink_first-IsConsistent :
    (t : ℕ) (after : Option ℕ) (s : Sys) → IsConsistent s → IsConsistent (unlink_first t after s)
unfolding unlink_first
unlink_first-IsConsistent t after s c =
    set_prev-IsConsistent (some t) none _
      (set_next-IsConsistent (some t) none _ (set_prev-IsConsistent after none s c))

unlink_before-IsConsistent :
    (set_head : Sys → Option ℕ → Sys) (o after : Option ℕ) (s : Sys)
    → ((s : Sys) (o : Option ℕ) → IsConsistent s → IsConsistent (set_head s o))
    → IsConsistent s
    → IsConsistent (unlink_before set_head o after s)
unlink_before-IsConsistent set_head none after s keeps c = keeps s after c
unlink_before-IsConsistent set_head (some p) after s keeps c =
    set_next-IsConsistent (some p) after s c

pub unlink-IsConsistent :
    (set_head : Sys → Option ℕ → Sys) (t : ℕ) (s : Sys)
    → ((s : Sys) (o : Option ℕ) → IsConsistent s → IsConsistent (set_head s o))
    → IsConsistent s
    → IsConsistent (unlink set_head t s)
unfolding unlink
unlink-IsConsistent set_head t s keeps c =
    let s1 = unlink_before set_head (s.heap t).prev (s.heap t).next s in
    set_prev-IsConsistent (some t) none _ (
      set_next-IsConsistent (some t) none _ (
        set_prev-IsConsistent (s1.heap t).next (s1.heap t).prev s1
          (unlink_before-IsConsistent set_head (s.heap t).prev (s.heap t).next s keeps c)))

-- Priorities do not matter.
pub set_priority-IsConsistent :
    (e : Env) (t p : ℕ) (s : Sys)
    → IsConsistent s
    → IsConsistent (task_set_priority e (some t) p s).0
unfolding task_set_priority
set_priority-IsConsistent e t p s c =
    let s' = set_task s t (record (s.heap t) { priority = p; original_priority = p }) in
    let moved : IsConsistent s' = record {
      idle_ready = λ i h. ground (arith, c.idle_ready i);
      only_current = λ u h. ground (arith, c.only_current u);
    } in
    elim (Bool-cases (leb max_priority_levels p)) [
      | inl invalid ↦ rw invalid c
      | inr valid ↦ subst (λ x. IsConsistent x.0) (sym (set_priority_lem e t p s valid)) moved
    ]
