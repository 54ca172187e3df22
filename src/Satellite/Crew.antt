-- ===== src/Satellite/Crew.antt =====
-- The tasks that main creates: where they are listed, and what their creation leaves alone.
use orbit_rtos.Base.{
  ℕ, ◌+◌, ◌<◌, ◌≡◌, refl, ◌∙◌, sym, ap, subst, inl, inr, Bool, true, ◌==◌, if◌then◌else◌, Option,
  none, some, List, [], ◌∷◌, ◌++◌, Bool-cases, arith,
}
use Prim.Native.String.{String}
use orbit_rtos.Kernel.{Sys, Env, max_tasks, max_priority_levels, default_stack_size}
use orbit_rtos.Kernel.Lists.{ListLaws}
use orbit_rtos.Kernel.Texts.{codes}
use orbit_rtos.Task.Table.{task_create, task_get_by_name}
use orbit_rtos.Task.Table.Slots.{IsCounted}
use orbit_rtos.Task.Table.Additions.{Keeps, task_create-IsAdded}
use orbit_rtos.Task.Control.{task_set_periodic}
use orbit_rtos.Satellite.{Platform}
use orbit_rtos.Satellite.Start.{Boot, main_task, create_tasks, set_period, set_periods}

-- What malloc gives: memory for every task.
pub record Allocates (b : Boot) (address stack : ℕ → ℕ) : Type 0 where
  pub task_lem : (k : ℕ) → b.task_memory k ≡ some (address k)
  pub stack_lem : (k : ℕ) → b.stack_memory k ≡ some (stack k)
  pub allocated_lem : (k : ℕ) → b.allocated k ≡ true

-- `n` tasks, of which `top` have the highest priority; the rest is as in `base`.
pub record IsUnderway (base : Sys) (n : ℕ) (top : List ℕ) (s : Sys) : Type 0 where
  pub counted : IsCounted s
  pub task_count : s.table.task_count ≡ n
  pub top_list : s.sched.ready_lists 0 ≡ top
  pub policy : s.sched.current_policy ≡ base.sched.current_policy
  pub state : s.sched.scheduler_state ≡ base.sched.scheduler_state
  pub lock : s.sched.lock_count ≡ base.sched.lock_count
  pub kept : Keeps base s

module _ {e : Env} (laws : ListLaws e) (b : Boot) (address stack : ℕ → ℕ)
    (memory : Allocates b address stack) (base : Sys) where
  main_task-IsUnderway :
      (k : ℕ) (name : String) (priority n : ℕ) (top : List ℕ) (s : Sys)
      → n < max_tasks
      → priority < max_priority_levels
      → IsUnderway base n top s
      → IsUnderway base
          (n + 1)
          (if priority == 0 then top ++ address k ∷ [] else top)
          (main_task e b k name priority s)
  main_task-IsUnderway k name priority n top s room valid v =
      let t = address k in
      let create = λ (o : Option ℕ). λ (p : Option ℕ). λ (a : Bool).
        (task_create e (some (codes name)) priority (some (b.func k)) 0 default_stack_size o p a
          s).0 in
      let (s', r, added) =
        task_create-IsAdded laws (codes name) priority (b.func k) 0 default_stack_size t (stack k) s
          v.counted (omega (arith, v.task_count)) valid in
      let made : create (b.task_memory k) (b.stack_memory k) (b.allocated k) ≡ s' =
        ap (λ o. create o (b.stack_memory k) (b.allocated k)) (memory.task_lem k)
        ∙ ap (λ p. create (some t) p (b.allocated k)) (memory.stack_lem k)
        ∙ ap (create (some t) (some (stack k))) (memory.allocated_lem k)
        ∙ ap (λ x. x.0) r in
      subst (IsUnderway base (n + 1) (if priority == 0 then top ++ t ∷ [] else top)) (sym made)
        (record {
          counted = added.counted;
          task_count = omega (arith, added.one_more, v.task_count);
          top_list = ground (arith, added.lists 0, v.top_list);
          policy = added.policy ∙ v.policy;
          state = added.state ∙ v.state;
          lock = added.lock ∙ v.lock;
          kept =
              added.kept
              ∙ ap {A = Sys} {B = Sys}
                  (λ x. record x { heap = s'.heap; table = s'.table; sched = s'.sched }) v.kept;
        })

  pub create_tasks-IsUnderway :
      (s : Sys) → IsUnderway base 1 [] s → IsUnderway base 8 (address 4 ∷ []) (create_tasks e b s)
  unfolding create_tasks
  create_tasks-IsUnderway s v =
      let v1 = main_task-IsUnderway 1 "telemetry" 2 1 [] s (omega arith) (omega arith) v in
      let v2 = main_task-IsUnderway 2 "attitude" 1 2 [] _ (omega arith) (omega arith) v1 in
      let v3 = main_task-IsUnderway 3 "thermal" 1 3 [] _ (omega arith) (omega arith) v2 in
      let v4 = main_task-IsUnderway 4 "command" 0 4 [] _ (omega arith) (omega arith) v3 in
      let top = address 4 ∷ [] in
      let v5 = main_task-IsUnderway 5 "housekeep" 3 5 top _ (omega arith) (omega arith) v4 in
      let v6 = main_task-IsUnderway 6 "payload" 2 6 top _ (omega arith) (omega arith) v5 in
      main_task-IsUnderway 7 "monitor" 4 7 top _ (omega arith) (omega arith) v6

-- set_periods changes tasks only.
task_set_periodic-kept :
    (o : Option ℕ) (period deadline : ℕ) (s : Sys)
    → let s' = (task_set_periodic o period deadline s).0 in s' ≡ record s { heap = s'.heap }
unfolding task_set_periodic
task_set_periodic-kept none period deadline s = refl
task_set_periodic-kept (some t) period deadline s = elim (Bool-cases (period == 0)) [
  | inl never ↦ rw never refl
  | inr fine ↦ rw fine refl
]

set_period-kept :
    (p : Platform) (name : String) (period deadline : ℕ) (s : Sys)
    → let s' = set_period p name period deadline s in s' ≡ record s { heap = s'.heap }
set_period-kept p name period deadline s =
    task_set_periodic-kept (task_get_by_name (some (codes name)) s) (p.time_ms_to_ticks period)
      (p.time_ms_to_ticks deadline) s

pub set_periods-kept :
    (p : Platform) (s : Sys) → let s' = set_periods p s in s' ≡ record s { heap = s'.heap }
unfolding set_periods
set_periods-kept p s =
    let s1 = set_period p "telemetry" 5000 4800 s in
    let s2 = set_period p "housekeep" 10000 9500 s1 in
    set_period-kept p "housekeep" 10000 9500 s1
    ∙ ap {A = Sys} {B = Sys} (λ x. record x { heap = s2.heap })
        (set_period-kept p "telemetry" 5000 4800 s)
