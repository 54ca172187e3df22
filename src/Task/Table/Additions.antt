-- ===== src/Task/Table/Additions.antt =====
-- What task_create adds to the lists, whatever tasks there are.
use orbit_rtos.Base.{
  ℕ, zero, suc, ◌+◌, ◌<◌, ◌≡◌, refl, ◌∙◌, ap, true, some, [], ◌∷◌, ◌++◌, ◌==◌, if◌then◌else◌, List,
  update, arith,
}
use orbit_rtos.Kernel.{
  Sys, Env, Task, ready, success, set_task, set_ready, max_tasks, max_priority_levels, ◌>>=◌,
}
use orbit_rtos.Kernel.Lists.{ListLaws}
use orbit_rtos.Scheduler.Blocking.{scheduler_add_task, append_by_state, count_created}
use orbit_rtos.Task.Table.{store_task, task_create}
use orbit_rtos.Task.Table.Slots.{store_task_lem, IsCounted, store_task-IsCounted}
use orbit_rtos.Task.Table.Frames.{store_task-frame}
use orbit_rtos.Task.Table.Creation.{made, setup_task_lem}

-- Nothing but tasks, table and lists is touched.
abbrev pub Keeps : Sys → Sys → Type 0
Keeps s s' = s' ≡ record s { heap = s'.heap; table = s'.table; sched = s'.sched }

store_task-Keeps : (t k i : ℕ) (s : Sys) → Keeps s (store_task t k i s)
unfolding store_task
store_task-Keeps t zero i s = refl
store_task-Keeps t (suc k) i s = ground (arith, store_task-Keeps t k (i + 1) s)

-- The task is new at its address and last in the ready list of its priority.
pub record IsAdded (s s' : Sys) (t : ℕ) (task : Task) : Type 0 where
  pub heap_lem : s'.heap ≡ update s.heap t task
  pub lists :
      (q : ℕ)
      → s'.sched.ready_lists q ≡ (
          if task.priority == q
          then s.sched.ready_lists task.priority ++ t ∷ []
          else s.sched.ready_lists q)
  pub blocked_lem : s'.sched.blocked_list ≡ s.sched.blocked_list
  pub suspended_lem : s'.sched.suspended_list ≡ s.sched.suspended_list
  pub policy : s'.sched.current_policy ≡ s.sched.current_policy
  pub state : s'.sched.scheduler_state ≡ s.sched.scheduler_state
  pub lock : s'.sched.lock_count ≡ s.sched.lock_count
  pub current : s'.table.current_task ≡ s.table.current_task
  pub idle : s'.table.idle_task ≡ s.table.idle_task
  pub counted : IsCounted s'
  pub one_more : s'.table.task_count ≡ s.table.task_count + 1
  pub kept : Keeps s s'

add_ready :
    {e : Env} (laws : ListLaws e) (t : ℕ) (s : Sys)
    → (s.heap t).state ≡ ready
    → let q = (s.heap t).priority in
      scheduler_add_task e (some t) s
      ≡ (count_created (set_ready s q (s.sched.ready_lists q ++ t ∷ [])), success)
unfolding scheduler_add_task append_by_state
add_ready {e} laws t s h =
    let q = (s.heap t).priority in
    ap (λ st. append_by_state e st t s >>= λ x. (count_created x, success)) h
    ∙ ap (λ x. (set_ready s q x.0, x.1) >>= λ x. (count_created x, success))
        (laws.append_lem (s.sched.ready_lists q) t)

store_task-idle : (t k i : ℕ) (s : Sys) → (store_task t k i s).table.idle_task ≡ s.table.idle_task
unfolding store_task
store_task-idle t zero i s = refl
store_task-idle t (suc k) i s = ground (arith, store_task-idle t k (i + 1) s)

store_task-current :
    (t k i : ℕ) (s : Sys) → (store_task t k i s).table.current_task ≡ s.table.current_task
unfolding store_task
store_task-current t zero i s = refl
store_task-current t (suc k) i s = ground (arith, store_task-current t k (i + 1) s)

-- With memory, a valid priority and a free slot, task_create puts the new task at the end of the ready list
-- of its priority, and changes no other list.
pub task_create-IsAdded :
    {e : Env} (laws : ListLaws e) (name : List ℕ) (priority func arg size t p : ℕ) (s : Sys)
    → IsCounted s
    → s.table.task_count < max_tasks
    → priority < max_priority_levels
    → (s' : Sys) × (task_create e (some name) priority (some func) arg size (some t) (some p) true s
        ≡ (s', some t))
      × IsAdded s s' t (made name priority func arg size p)
unfolding task_create count_created
task_create-IsAdded {e} laws name priority func arg size t p s counted room valid =
    let task = made name priority func arg size p in
    let s1 = set_task s t task in
    let s2 = store_task t max_tasks 0 s1 in
    let (heap2, sched2) = store_task-frame t max_tasks 0 s1 in
    let st : (s2.heap t).state ≡ ready = ground (arith, ap (λ h. (h t).state) heap2) in
    let pr : (s2.heap t).priority ≡ priority = ground (arith, ap (λ h. (h t).priority) heap2) in
    let added = add_ready laws t s2 st in
    let q = (s2.heap t).priority in
    let s3 = count_created (set_ready s2 q (s2.sched.ready_lists q ++ t ∷ [])) in
    let c1 : IsCounted s1 = record { counted = counted.counted } in
    let c2 = store_task-IsCounted t s1 c1 room in
    (
      s3,
      ground (arith, setup_task_lem laws name priority func arg size t p s (ap (λ x. x.1) added))
          ∙ ap (λ x. (x.0, some t)) added,
      record {
        heap_lem = heap2;
        lists = λ r. ground (arith, pr, sched2);
        blocked_lem = ap (λ x. x.blocked_list) sched2;
        suspended_lem = ap (λ x. x.suspended_list) sched2;
        policy = ap (λ x. x.current_policy) sched2;
        state = ap (λ x. x.scheduler_state) sched2;
        lock = ap (λ x. x.lock_count) sched2;
        current = store_task-current t max_tasks 0 s1;
        idle = store_task-idle t max_tasks 0 s1;
        counted = record { counted = c2.counted };
        one_more = ground (arith, (store_task_lem t max_tasks 0 s1 (omega (arith, c1.counted))).1);
        kept =
            ap {A = Sys} {B = Sys} (λ x. record x { sched = s3.sched })
              (store_task-Keeps t max_tasks 0 s1);
      },
    )
