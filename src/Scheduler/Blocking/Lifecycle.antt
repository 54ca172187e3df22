-- ===== src/Scheduler/Blocking/Lifecycle.antt =====
-- scheduler_add_task and scheduler_remove_task, and the lists of the scheduler.
use orbit_rtos.Base.{
  ◌⊎◌, inl, inr, List, [], ◌∷◌, ◌++◌, ℕ, ◌≡◌, refl, ◌≢◌, some, arith, ap, ◌||◌, if◌then◌else◌,
}
use orbit_rtos.Kernel.{
  Status, ◌>>=◌, Sys, Env, TaskState, ready, running, blocked, suspended, terminated, ◌is◌, success,
  failure, >>=-keeps,
}
use orbit_rtos.Kernel.Lists.{ListLaws, ListOutcomes}
use orbit_rtos.Scheduler.Blocking.{
  scheduler_add_task, scheduler_remove_task, append_by_state, remove_by_state, count_created,
  count_deleted,
}
use orbit_rtos.Scheduler.Blocking.Placement.{IsPlaced, IsUnlisted}
use orbit_rtos.Scheduler.Blocking.Removals.{
  remove_by_state-cases, remove_by_state-IsPlaced, remove_by_state-failure, state_list,
}
use orbit_rtos.Scheduler.Blocking.Additions.{append_by_state-IsPlaced, append_other-IsPlaced}

-- The counters are no part of a task's place.
count_created-IsPlaced : {s : Sys} {u : ℕ} → IsPlaced s u → IsPlaced (count_created s) u
unfolding count_created
count_created-IsPlaced v = record {
  in_ready = v.in_ready;
  in_blocked = v.in_blocked;
  in_suspended = v.in_suspended;
}

count_deleted-IsPlaced : {s : Sys} {u : ℕ} → IsPlaced s u → IsPlaced (count_deleted s) u
unfolding count_deleted
count_deleted-IsPlaced v = record {
  in_ready = v.in_ready;
  in_blocked = v.in_blocked;
  in_suspended = v.in_suspended;
}

count_deleted-IsUnlisted : {s : Sys} {u : ℕ} → IsUnlisted s u → IsUnlisted (count_deleted s) u
unfolding count_deleted
count_deleted-IsUnlisted v = record {
  in_ready = v.in_ready;
  in_blocked = v.in_blocked;
  in_suspended = v.in_suspended;
}

-- With memory nothing is said of list_remove.
pub appended :
    {e : Env}
    → ListLaws e
    → (l : List ℕ) (t : ℕ)
    → (e.list_append l t ≡ (l ++ t ∷ [], success)) ⊎ (e.list_append l t ≡ (l, failure))
appended laws l t = inl (laws.append_lem l t)

module _ {e : Env} (laws : ListLaws e) (s : Sys) (t : ℕ) where
  append_by_state-status :
      (st : TaskState)
      → (append_by_state e st t s).1
        ≡ (if st is running || st is terminated then failure else success)
  unfolding append_by_state
  append_by_state-status ready = ap (λ x. x.1) (laws.append_lem _ t)
  append_by_state-status blocked = ap (λ x. x.1) (laws.append_lem _ t)
  append_by_state-status suspended = ap (λ x. x.1) (laws.append_lem _ t)
  append_by_state-status running = refl
  append_by_state-status terminated = refl

  -- With ListLaws, scheduler_add_task puts a task that stands in no
  -- list into the list of its state, other tasks keep their places, and the call fails only for a
  -- task that is running or has terminated.
  pub add_task-IsPlaced :
      IsUnlisted s t
      → let (s', r) = scheduler_add_task e (some t) s in
        let st = (s.heap t).state in
        (r ≡ (if st is running || st is terminated then failure else success))
        × IsPlaced s' t
        × ((u : ℕ) → u ≢ t → IsPlaced s u → IsPlaced s' u)
  unfolding scheduler_add_task
  add_task-IsPlaced v =
      let m = append_by_state e (s.heap t).state t s in
      let placed = append_by_state-IsPlaced laws s t (s.heap t).state v refl in
      (
        ground (arith, append_by_state-status (s.heap t).state),
        >>=-keeps (λ s'. IsPlaced s' t) (λ s'. IsPlaced s' t) m _ placed (λ f. placed)
            (λ s' w. count_created-IsPlaced w),
        λ u ne w.
            let kept = append_other-IsPlaced e (appended laws) s t (s.heap t).state u ne w in
            >>=-keeps (λ s'. IsPlaced s' u) (λ s'. IsPlaced s' u) m _ kept (λ f. kept)
              (λ s' w'. count_created-IsPlaced w'),
      )

remove_running :
    (e : Env) (s : Sys) (t : ℕ)
    → (s.heap t).state ≡ running
    → (remove_by_state e (s.heap t).state t s).1 ≡ failure
unfolding remove_by_state
remove_running e s t run = rw run refl

counted-cases :
    (t : ℕ) (m : Sys × Status)
    → ((m.1 ≡ success) × IsUnlisted m.0 t) ⊎ ((m.1 ≡ failure) × IsPlaced m.0 t)
    → let (s', r) = m >>= (λ s. (count_deleted s, success)) in
      ((r ≡ success) × IsUnlisted s' t) ⊎ ((r ≡ failure) × IsPlaced s' t)
counted-cases t (s', success) (inl (d, w)) = inl (refl, count_deleted-IsUnlisted w)
counted-cases t (s', failure) (inl (d, w)) = cc
counted-cases t (s', success) (inr (f, w)) = cc
counted-cases t (s', failure) (inr (f, w)) = inr (refl, w)

module _ {e : Env} (laws : ListOutcomes e) (s : Sys) (t : ℕ) where
  -- Whether or not list_remove succeeds, scheduler_remove_task on a task in its place leaves that
  -- task in no list if the call returns 0, and in its place if it fails; it fails for a running
  -- task, and other tasks keep their places.
  pub remove_task-cases :
      IsPlaced s t
      → let (s', r) = scheduler_remove_task e (some t) s in
        (((r ≡ success) × IsUnlisted s' t) ⊎ ((r ≡ failure) × IsPlaced s' t))
        × ((s.heap t).state ≡ running → r ≡ failure)
        × ((u : ℕ) → u ≢ t → IsPlaced s u → IsPlaced s' u)
  unfolding scheduler_remove_task
  remove_task-cases v =
      let m = remove_by_state e (s.heap t).state t s in
      (
        counted-cases t m (remove_by_state-cases laws s t (s.heap t).state v refl),
        λ run. ground (arith, remove_running e s t run),
        λ u ne w.
            let kept = remove_by_state-IsPlaced laws s t (s.heap t).state u ne w in
            >>=-keeps (λ s'. IsPlaced s' u) (λ s'. IsPlaced s' u) m _ kept (λ f. kept)
              (λ s' w'. count_deleted-IsPlaced w'),
      )

-- scheduler_remove_task fails for a running task, or because list_remove does.
pub remove_task-failure :
    (e : Env) (s : Sys) (t : ℕ)
    → (scheduler_remove_task e (some t) s).1 ≡ failure
    → ((s.heap t).state ≡ running)
      ⊎ ((e.list_remove (state_list s t (s.heap t).state) t).1 ≡ failure)
unfolding scheduler_remove_task
remove_task-failure e s t f =
    remove_by_state-failure e s t (s.heap t).state
      (counted-failure (remove_by_state e (s.heap t).state t s) f)
  where
    counted-failure :
        (m : Sys × Status) → (m >>= (λ s. (count_deleted s, success))).1 ≡ failure → m.1 ≡ failure
    counted-failure (s', success) f = cc
    counted-failure (s', failure) f = refl
