-- ===== src/Task/Table/Creation.antt =====
-- task_create and task_delete keep the table of tasks and the scheduler's lists in order.
use orbit_rtos.Base.{
  ◌⊎◌, ℕ, ◌<◌, ◌≡◌, refl, ◌≢◌, inl, inr, sym, subst, ap, ◌∙◌, true, false, ◌||◌, some, List,
  fun_ext, is_ref, Bool-cases, arith,
}
use orbit_rtos.Kernel.{
  Sys, Env, Task, Status, success, failure, ready, running, set_task, max_tasks,
  max_priority_levels,
}
use orbit_rtos.Kernel.Lists.{ListLaws, ListOutcomes}
use orbit_rtos.Context.{context_init_task}
use orbit_rtos.Scheduler.Blocking.{scheduler_add_task, scheduler_remove_task}
use orbit_rtos.Scheduler.Blocking.Placement.{
  IsPlaced, IsUnlisted, set_task-IsUnlisted, set_task-IsPlaced,
}
use orbit_rtos.Scheduler.Blocking.Lifecycle.{
  add_task-IsPlaced, remove_task-cases, remove_task-failure,
}
use orbit_rtos.Scheduler.Blocking.Removals.{state_list}
use orbit_rtos.Task.Table.{
  store_task, new_task, setup_task, list_created, clear_deleted, task_or_null, task_create,
  task_delete,
}
use orbit_rtos.Task.Table.Slots.{
  IsCounted, used, store_task-IsCounted, clear_task-IsCounted, holds, store_task_lem,
}
use orbit_rtos.Task.Table.Frames.{
  store_task-frame, clear_task-frame, add_task-frame, remove_task-frame, transport-IsPlaced,
  transport-IsUnlisted,
}

-- The new task.
abbrev pub made : List ℕ → (priority func arg stack_size stack : ℕ) → Task
made name priority func arg size p =
    new_task name priority func arg
      (record { stack_ptr = some p; stack_base = p; stack_size = size })

-- The state in which task_create hands the new task to the scheduler.
abbrev pub prepared : List ℕ → (priority func arg stack_size t stack : ℕ) → Sys → Sys
prepared name priority func arg size t p s =
    store_task t max_tasks 0 (set_task s t (made name priority func arg size p))

-- What a successful task_create leaves.
pub record IsCreated (s s' : Sys) (t : ℕ) (task : Task) : Type 0 where
  pub initialised : s'.heap t ≡ task
  pub placed : IsPlaced s' t
  pub stored : holds s'.table.slots t max_tasks 0 ≡ true
  pub counted : IsCounted s'
  pub others : (u : ℕ) → u ≢ t → (s'.heap u ≡ s.heap u) × (IsPlaced s u → IsPlaced s' u)

transport-IsCounted : {s s' : Sys} → s'.table ≡ s.table → IsCounted s → IsCounted s'
transport-IsCounted q v = record {
  counted =
      ground (arith, v.counted, ap (λ x. x.task_count) q, ap (λ x. used x.slots max_tasks 0) q);
}

module _ {e : Env} (laws : ListLaws e) (name : List ℕ) (priority func arg size t p : ℕ)
    (s : Sys) where
  added-IsCreated :
      IsCounted s
      → s.table.task_count < max_tasks
      → IsUnlisted s t
      → let (s', r) = scheduler_add_task e (some t) (prepared name priority func arg size t p s) in
        (r ≡ success) × IsCreated s s' t (made name priority func arg size p)
  added-IsCreated counted room new =
      let s1 = set_task s t (made name priority func arg size p) in
      let s2 = store_task t max_tasks 0 s1 in
      let s3 = (scheduler_add_task e (some t) s2).0 in
      let f2 = store_task-frame t max_tasks 0 s1 in
      let f3 = add_task-frame e t s2 in
      let added = add_task-IsPlaced laws s2 t (
        transport-IsUnlisted f2.1 (set_task-IsUnlisted (made name priority func arg size p) new)) in
      let c1 : IsCounted s1 = record { counted = counted.counted } in
      let c2 = store_task-IsCounted t s1 c1 room in
      let st2 : (s2.heap t).state ≡ ready = ground (arith, ap (λ h. (h t).state) f2.0) in
      let slots3 = ap (λ x. x.slots) f3.1 in
      (
        ground (arith, added.0),
        record {
          initialised = ground (arith, ap (λ h. h t) f2.0, ap (λ h. h t) f3.0);
          placed = added.1;
          stored =
              subst (λ x. holds x t max_tasks 0 ≡ true) (sym slots3)
                (store_task_lem t max_tasks 0 s1 (omega (arith, c1.counted))).2;
          counted = transport-IsCounted f3.1 c2;
          others = λ u ne. (
            ground (arith, ap (λ h. h u) f2.0, ap (λ h. h u) f3.0),
            λ v. added.2 u ne (
                transport-IsPlaced f2.0 f2.1
                  (set_task-IsPlaced (made name priority func arg size p) ne v)),
          );
        },
      )

  -- context_init_task writes to the task_t that task_create has just filled.
  initialised_lem :
      context_init_task
        (some t)
        (some p)
        size
        (some func)
        true
        (set_task s t (new_task name priority func arg (s.heap t).context))
      ≡ (set_task s t (made name priority func arg size p), success)
  unfolding context_init_task
  initialised_lem = ap (λ h. (record s { heap = h }, success)) (fun_ext (λ u. ground arith))

  pub setup_task_lem :
      (scheduler_add_task e (some t) (prepared name priority func arg size t p s)).1 ≡ success
      → setup_task e name priority func arg size t p true s
        ≡ ((scheduler_add_task e (some t) (prepared name priority func arg size t p s)).0, some t)
  unfolding setup_task
  setup_task_lem r =
      ap (list_created e t) initialised_lem
      ∙ ap
          (λ r'.
            task_or_null t
              ((scheduler_add_task e (some t) (prepared name priority func arg size t p s)).0, r'))
          r

  -- For an address that stands in no list, with memory, a valid priority, a free slot, a
  -- task_count that counts the used slots, and lists that follow their documentation, task_create
  -- returns the new task: READY with the given fields, in the ready list of its priority and no
  -- other list, in a slot of task_list that task_count counts. Other tasks keep their content and
  -- places.
  pub task_create-IsCreated :
      IsCounted s
      → s.table.task_count < max_tasks
      → priority < max_priority_levels
      → IsUnlisted s t
      → (s' : Sys) × (task_create e
            (some name)
            priority
            (some func)
            arg
            size
            (some t)
            (some p)
            true
            s
          ≡ (s', some t))
        × IsCreated s s' t (made name priority func arg size p)
  unfolding task_create
  task_create-IsCreated counted room valid new =
      let (r, v) = added-IsCreated counted room new in
      (
        (scheduler_add_task e (some t) (prepared name priority func arg size t p s)).0,
        ground (arith, setup_task_lem r),
        v,
      )

-- The task is running, or list_remove of it from the list of its state fails.
abbrev pub CannotRemove : Env → Sys → ℕ → Type 0
CannotRemove e s t =
    ((s.heap t).state ≡ running) ⊎ ((e.list_remove (state_list s t (s.heap t).state) t).1 ≡ failure)

module _ {e : Env} (laws : ListOutcomes e) (t : ℕ) (s : Sys) where
  deleted_lem :
      (m : Sys × Status)
      → IsCounted m.0
      → (clear_deleted t m).1 ≡ m.1
        × IsCounted (clear_deleted t m).0
        × ((clear_deleted t m).0.heap ≡ m.0.heap)
        × ((clear_deleted t m).0.sched ≡ m.0.sched)
  unfolding clear_deleted
  deleted_lem (s', failure) v = (refl, v, refl, refl)
  deleted_lem (s', success) v =
      let f = clear_task-frame t max_tasks 0 s' in (refl, clear_task-IsCounted t s' v, f.0, f.1)

  -- The guards passed.
  deleted-lists :
      IsCounted s
      → IsPlaced s t
      → let (s', r) = clear_deleted t (scheduler_remove_task e (some t) s) in
        (((r ≡ success) × IsUnlisted s' t) ⊎ ((r ≡ failure) × IsPlaced s' t))
        × ((s.heap t).state ≡ running → r ≡ failure)
        × (r ≡ failure → CannotRemove e s t)
        × IsCounted s'
        × ((u : ℕ) → u ≢ t → IsPlaced s u → IsPlaced s' u)
  deleted-lists counted v =
      let removed = remove_task-cases laws s t v in
      let f = remove_task-frame e t s in
      let d = deleted_lem (scheduler_remove_task e (some t) s) (transport-IsCounted f.1 counted) in
      (
        elim removed.0 [
          | inl (ok, w) ↦ inl (d.0 ∙ ok, transport-IsUnlisted d.3 w)
          | inr (refused, w) ↦ inr (d.0 ∙ refused, transport-IsPlaced d.2 d.3 w)
        ],
        λ run. d.0 ∙ removed.1 run,
        λ f'. remove_task-failure e s t (sym d.0 ∙ f'),
        d.1,
        λ u ne w. transport-IsPlaced d.2 d.3 (removed.2 u ne w),
      )

  -- With a task_count that counts the used slots, and lists on which each call takes place and
  -- returns 0 or leaves the list and returns nonzero, task_delete refuses the current task and the
  -- idle task and changes nothing. For any other task in its place, the task is in no list
  -- afterwards if the call succeeds, and still in its place if it fails; it fails for a running
  -- task, and else only if list_remove of the task from the list of its state does. task_count
  -- still counts the used slots, and other tasks keep their places.
  pub task_delete-IsUnlisted :
      IsCounted s
      → IsPlaced s t
      → let (s', r) = task_delete e (some t) s in
        let kept = is_ref s.table.current_task t || is_ref s.table.idle_task t in
        (kept ≡ true → (r ≡ failure) × (s' ≡ s))
        × (kept ≡ false
            → (((r ≡ success) × IsUnlisted s' t) ⊎ ((r ≡ failure) × IsPlaced s' t))
              × ((s.heap t).state ≡ running → r ≡ failure)
              × (r ≡ failure → CannotRemove e s t))
        × IsCounted s'
        × ((u : ℕ) → u ≢ t → IsPlaced s u → IsPlaced s' u)
  unfolding task_delete
  task_delete-IsUnlisted counted v =
      elim (Bool-cases (is_ref s.table.current_task t || is_ref s.table.idle_task t)) [
        | inl kept ↦ rw kept (λ k. (refl, refl), λ k. absurd (ground arith), counted, λ u ne w. w)
        | inr other ↦
            let d = deleted-lists counted v in
            rw other (λ k. absurd (ground arith), λ k. (d.0, d.1, d.2), d.3, d.4)
      ]
