-- ===== src/Scheduler/Blocking/Update.antt =====
-- scheduler_update_task_state, and the lists of the scheduler.
use orbit_rtos.Base.{List, sym, ◌∙◌, ◌⊎◌, ℕ, ◌≡◌, refl, ◌≢◌, inl, inr, some, Bool-cases, arith, ap}
use orbit_rtos.Kernel.{
  Status, ◌>>=◌, Sys, Env, TaskState, ready, running, blocked, suspended, terminated, ◌is◌, success,
  failure, >>=-keeps,
}
use orbit_rtos.Kernel.Lists.{ListOutcomes}
use orbit_rtos.Scheduler.Blocking.{
  scheduler_update_task_state, append_by_state, leave_state, enter_state, write_state,
}
use orbit_rtos.Scheduler.Blocking.Placement.{
  IsPlaced, IsUnlisted, set_task-IsUnlisted, set_task-IsPlaced,
}
use orbit_rtos.Scheduler.Blocking.Removals.{
  remove_by_state-cases, remove_by_state-IsPlaced, state_list, remove_by_state-failure,
}
use orbit_rtos.Scheduler.Blocking.Additions.{append_by_state-cases, append_other-IsPlaced}

-- Task `t` is in the list of its state, or the call failed after the write of `new_state` and the
-- task is in no list.
record Outcome (t : ℕ) (new_state : TaskState) (x : Sys × Status) : Type 0 where
  place : IsPlaced x.0 t ⊎ ((x.1 ≡ failure) × ((x.0.heap t).state ≡ new_state) × IsUnlisted x.0 t)
  done : x.1 ≡ success → IsPlaced x.0 t × ((x.0.heap t).state ≡ new_state)

module _ {e : Env} (laws : ListOutcomes e) (t : ℕ) (new_state : TaskState) where
  leave_state-cases :
      (s : Sys) (st : TaskState)
      → IsPlaced s t
      → (s.heap t).state ≡ st
      → let (s', r) = leave_state e st t s in
        ((r ≡ success) × IsUnlisted s' t) ⊎ ((r ≡ failure) × IsPlaced s' t)
  unfolding leave_state
  leave_state-cases s terminated v h = inr (refl, v)
  leave_state-cases s st v h = remove_by_state-cases laws s t st v h

  leave_state-IsPlaced :
      (s : Sys) (st : TaskState) (u : ℕ)
      → u ≢ t
      → IsPlaced s u
      → IsPlaced (leave_state e st t s).0 u
  unfolding leave_state
  leave_state-IsPlaced s terminated u ne v = v
  leave_state-IsPlaced s st u ne v = remove_by_state-IsPlaced laws s t st u ne v

  added-Outcome :
      (x : Sys × Status)
      → (x.0.heap t).state ≡ new_state
      → ((x.1 ≡ success) × IsPlaced x.0 t) ⊎ ((x.1 ≡ failure) × IsUnlisted x.0 t)
      → Outcome t new_state x
  added-Outcome x h (inl (d, v)) = record { place = inl v; done = λ d. (v, h) }
  added-Outcome x h (inr (f, v)) = record { place = inr (f, h, v); done = λ d. cc }

  append_by_state-state : (s : Sys) (st : TaskState) → (append_by_state e st t s).0.heap ≡ s.heap
  unfolding append_by_state
  append_by_state-state s ready = refl
  append_by_state-state s blocked = refl
  append_by_state-state s suspended = refl
  append_by_state-state s running = refl
  append_by_state-state s terminated = refl

  enter_state-Outcome :
      (s : Sys) (st : TaskState)
      → st ≡ new_state
      → (s.heap t).state ≡ new_state
      → IsUnlisted s t
      → Outcome t new_state (enter_state e st t s)
  unfolding enter_state
  enter_state-Outcome s terminated same h v =
      let placed : IsPlaced s t = record {
        in_ready = λ p. ground (arith, v.in_ready p);
        in_blocked = ground (arith, v.in_blocked);
        in_suspended = ground (arith, v.in_suspended);
      } in
      record { place = inl placed; done = λ d. (placed, h) }
  enter_state-Outcome s st same h v =
      added-Outcome (append_by_state e st t s)
        (ap (λ f. (f t).state) (append_by_state-state s st) ∙ h)
        (append_by_state-cases laws s t st v (h ∙ sym same))

  write_state-Outcome :
      (s : Sys) → IsUnlisted s t → Outcome t new_state (write_state e new_state t s)
  unfolding write_state
  write_state-Outcome s v =
      enter_state-Outcome _ new_state refl (ground arith) (set_task-IsUnlisted _ v)

  enter_state_other :
      (s : Sys) (st : TaskState) (u : ℕ)
      → u ≢ t
      → IsPlaced s u
      → IsPlaced (enter_state e st t s).0 u
  unfolding enter_state
  enter_state_other s terminated u ne v = v
  enter_state_other s st u ne v = append_other-IsPlaced e laws.append_cases s t st u ne v

  write_state_other :
      (s : Sys) (u : ℕ) → u ≢ t → IsPlaced s u → IsPlaced (write_state e new_state t s).0 u
  unfolding write_state
  write_state_other s u ne v = enter_state_other _ new_state u ne (set_task-IsPlaced _ ne v)

  left-Outcome :
      (m : Sys × Status)
      → ((m.1 ≡ success) × IsUnlisted m.0 t) ⊎ ((m.1 ≡ failure) × IsPlaced m.0 t)
      → Outcome t new_state (m >>= write_state e new_state t)
  left-Outcome (s', success) (inl (d, v)) = write_state-Outcome s' v
  left-Outcome (s', failure) (inl (d, v)) = cc
  left-Outcome (s', success) (inr (f, v)) = cc
  left-Outcome (s', failure) (inr (f, v)) = record { place = inl v; done = λ d. cc }

  update_self-Outcome :
      (s : Sys)
      → IsPlaced s t
      → Outcome t new_state (scheduler_update_task_state e (some t) new_state s)
  unfolding scheduler_update_task_state
  update_self-Outcome s v = elim (Bool-cases ((s.heap t).state is new_state)) [
    | inl same ↦ rw same record { place = inl v; done = λ d. (v, ground arith) }
    | inr moved ↦ rw moved (
        left-Outcome (leave_state e (s.heap t).state t s)
          (leave_state-cases s (s.heap t).state v refl))
  ]

  update_other-IsPlaced :
      (s : Sys) (u : ℕ)
      → u ≢ t
      → IsPlaced s u
      → IsPlaced (scheduler_update_task_state e (some t) new_state s).0 u
  unfolding scheduler_update_task_state
  update_other-IsPlaced s u ne v = elim (Bool-cases ((s.heap t).state is new_state)) [
    | inl same ↦ rw same v
    | inr moved ↦ rw moved (
        let kept = leave_state-IsPlaced s (s.heap t).state u ne v in
        >>=-keeps (λ s'. IsPlaced s' u) (λ s'. IsPlaced s' u) (leave_state e (s.heap t).state t s)
          (write_state e new_state t) kept (λ f. kept) λ s' w. write_state_other s' u ne w)
  ]

-- Why the call may fail: the old or the new state, list_remove on the list of the old state, or
-- list_append.
abbrev pub CannotMove : Env → Sys → ℕ → TaskState → Type 0
CannotMove e s t new_state =
    ((s.heap t).state ≡ running)
    ⊎ ((s.heap t).state ≡ terminated)
    ⊎ (new_state ≡ running)
    ⊎ ((e.list_remove (state_list s t (s.heap t).state) t).1 ≡ failure)
    ⊎ ((l : List ℕ) × ((e.list_append l t).1 ≡ failure))

append-failure :
    (e : Env) (t : ℕ) (st : TaskState) (s : Sys)
    → (enter_state e st t s).1 ≡ failure
    → (st ≡ running) ⊎ ((l : List ℕ) × ((e.list_append l t).1 ≡ failure))
unfolding enter_state append_by_state
append-failure e t ready s f = inr (s.sched.ready_lists (s.heap t).priority, f)
append-failure e t running s f = inl refl
append-failure e t blocked s f = inr (s.sched.blocked_list, f)
append-failure e t suspended s f = inr (s.sched.suspended_list, f)
append-failure e t terminated s f = cc

leave-failure :
    (e : Env) (s : Sys) (t : ℕ) (st new_state : TaskState)
    → (s.heap t).state ≡ st
    → (leave_state e st t s).1 ≡ failure
    → CannotMove e s t new_state
unfolding leave_state
leave-failure e s t terminated new_state h f = inr (inl h)
leave-failure e s t st new_state h f = elim (remove_by_state-failure e s t st f) [
  | inl run ↦ inl (h ∙ run)
  | inr refused ↦
      inr (inr (inr (inl (ap (λ x. (e.list_remove (state_list s t x) t).1) h ∙ refused))))
]

bind-failure :
    (m : Sys × Status) (k : Sys → Sys × Status)
    → (m >>= k).1 ≡ failure
    → (m.1 ≡ failure) ⊎ ((k m.0).1 ≡ failure)
bind-failure (s', success) k f = inr f
bind-failure (s', failure) k f = inl refl

update-failure :
    (e : Env) (s : Sys) (t : ℕ) (new_state : TaskState)
    → (scheduler_update_task_state e (some t) new_state s).1 ≡ failure
    → CannotMove e s t new_state
unfolding scheduler_update_task_state write_state
update-failure e s t new_state f = elim (Bool-cases ((s.heap t).state is new_state)) [
  | inl same ↦ cc (rw same at f)
  | inr moved ↦
      elim (bind-failure (leave_state e (s.heap t).state t s) (write_state e new_state t)
        (rw moved at f)) [
          | inl left ↦ leave-failure e s t (s.heap t).state new_state refl left
          | inr entered ↦ elim (append-failure e t new_state _ entered) [
            | inl run ↦ inr (inr (inl run))
            | inr full ↦ inr (inr (inr (inr full)))
          ]
        ]
]

-- scheduler_update_task_state on a task in the list of its state, where list_remove and
-- list_append each take place and return 0 or leave the list and return nonzero: if the call
-- succeeds the task has the new state and is in its list; if it fails the task is in the list of
-- the state that it has, or it has the new state already and is in no list. It fails only if the
-- task is running or has terminated, the new state is RUNNING, list_remove of the task from the
-- list of its state fails, or list_append does. Other tasks keep their places.
pub update_task_state-outcomes :
    {e : Env} (laws : ListOutcomes e) (s : Sys) (t : ℕ) (new_state : TaskState)
    → IsPlaced s t
    → let (s', r) = scheduler_update_task_state e (some t) new_state s in
      (r ≡ success → IsPlaced s' t × ((s'.heap t).state ≡ new_state))
      × (r ≡ failure
          → (IsPlaced s' t ⊎ (((s'.heap t).state ≡ new_state) × IsUnlisted s' t))
            × CannotMove e s t new_state)
      × ((u : ℕ) → u ≢ t → IsPlaced s u → IsPlaced s' u)
update_task_state-outcomes {e} laws s t new_state v =
    let o = update_self-Outcome laws t new_state s v in
    (
      o.done,
      λ f. (
        elim o.place [ inl w ↦ inl w | inr (f', h, w) ↦ inr (h, w) ],
        update-failure e s t new_state f,
      ),
      λ u ne w. update_other-IsPlaced laws t new_state s u ne w,
    )
