-- ===== src/Scheduler/Blocking/Removals.antt =====
-- What list_remove, done or refused, does to the places of the tasks.
use orbit_rtos.Base.{List, [], ℕ, ◌≡◌, refl, ◌≢◌, count-erase, arith, erase, ◌⊎◌, inl, inr}
use orbit_rtos.Kernel.{
  Sys, Env, TaskState, ready, running, blocked, suspended, terminated, success, failure,
}
use orbit_rtos.Kernel.Lists.{ListOutcomes}
use orbit_rtos.Scheduler.Blocking.{remove_by_state}
use orbit_rtos.Scheduler.Blocking.Placement.{IsPlaced, IsUnlisted}

-- A removal that took place, and one that was refused.
module _ (e : Env) (s : Sys) (t : ℕ) where
  ready-removed :
      e.list_remove (s.sched.ready_lists (s.heap t).priority) t
        ≡ (erase t (s.sched.ready_lists (s.heap t).priority), success)
      → IsPlaced s t
      → (s.heap t).state ≡ ready
      → let (s', r) = remove_by_state e ready t s in (r ≡ success) × IsUnlisted s' t
  unfolding remove_by_state
  ready-removed done h r = (
    ground arith,
    record {
      in_ready = λ p.
          ground (arith, count-erase t t (s.sched.ready_lists (s.heap t).priority), h.in_ready p);
      in_blocked = ground arith;
      in_suspended = ground arith;
    },
  )

  blocked-removed :
      e.list_remove s.sched.blocked_list t ≡ (erase t s.sched.blocked_list, success)
      → IsPlaced s t
      → (s.heap t).state ≡ blocked
      → let (s', r) = remove_by_state e blocked t s in (r ≡ success) × IsUnlisted s' t
  unfolding remove_by_state
  blocked-removed done h r = (
    ground arith,
    record {
      in_ready = λ p. ground (arith, h.in_ready p);
      in_blocked = ground (arith, count-erase t t s.sched.blocked_list);
      in_suspended = ground arith;
    },
  )

  suspended-removed :
      e.list_remove s.sched.suspended_list t ≡ (erase t s.sched.suspended_list, success)
      → IsPlaced s t
      → (s.heap t).state ≡ suspended
      → let (s', r) = remove_by_state e suspended t s in (r ≡ success) × IsUnlisted s' t
  unfolding remove_by_state
  suspended-removed done h r = (
    ground arith,
    record {
      in_ready = λ p. ground (arith, h.in_ready p);
      in_blocked = ground arith;
      in_suspended = ground (arith, count-erase t t s.sched.suspended_list);
    },
  )

  ready-refused :
      (u : ℕ)
      → e.list_remove (s.sched.ready_lists (s.heap t).priority) t
        ≡ (s.sched.ready_lists (s.heap t).priority, failure)
      → IsPlaced s u
      → let (s', r) = remove_by_state e ready t s in (r ≡ failure) × IsPlaced s' u
  unfolding remove_by_state
  ready-refused u kept h = (
    ground arith,
    record {
      in_ready = λ p. ground (arith, h.in_ready p);
      in_blocked = ground (arith, h.in_blocked);
      in_suspended = ground (arith, h.in_suspended);
    },
  )

  blocked-refused :
      (u : ℕ)
      → e.list_remove s.sched.blocked_list t ≡ (s.sched.blocked_list, failure)
      → IsPlaced s u
      → let (s', r) = remove_by_state e blocked t s in (r ≡ failure) × IsPlaced s' u
  unfolding remove_by_state
  blocked-refused u kept h = (
    ground arith,
    record {
      in_ready = h.in_ready;
      in_blocked = ground (arith, h.in_blocked);
      in_suspended = ground (arith, h.in_suspended);
    },
  )

  suspended-refused :
      (u : ℕ)
      → e.list_remove s.sched.suspended_list t ≡ (s.sched.suspended_list, failure)
      → IsPlaced s u
      → let (s', r) = remove_by_state e suspended t s in (r ≡ failure) × IsPlaced s' u
  unfolding remove_by_state
  suspended-refused u kept h = (
    ground arith,
    record {
      in_ready = h.in_ready;
      in_blocked = ground (arith, h.in_blocked);
      in_suspended = ground (arith, h.in_suspended);
    },
  )

module _ {e : Env} (laws : ListOutcomes e) (s : Sys) (t : ℕ) where
  -- A task that stands in the list of its state is in no list once it is removed from that, or it
  -- stays where it is and the removal fails.
  pub remove_by_state-cases :
      (st : TaskState)
      → IsPlaced s t
      → (s.heap t).state ≡ st
      → let (s', r) = remove_by_state e st t s in
        ((r ≡ success) × IsUnlisted s' t) ⊎ ((r ≡ failure) × IsPlaced s' t)
  unfolding remove_by_state
  remove_by_state-cases ready h r =
      elim (laws.remove_cases (s.sched.ready_lists (s.heap t).priority) t) [
        | inl done ↦ inl (ready-removed e s t done h r)
        | inr kept ↦ inr (ready-refused e s t t kept h)
      ]
  remove_by_state-cases blocked h r = elim (laws.remove_cases s.sched.blocked_list t) [
    | inl done ↦ inl (blocked-removed e s t done h r)
    | inr kept ↦ inr (blocked-refused e s t t kept h)
  ]
  remove_by_state-cases suspended h r = elim (laws.remove_cases s.sched.suspended_list t) [
    | inl done ↦ inl (suspended-removed e s t done h r)
    | inr kept ↦ inr (suspended-refused e s t t kept h)
  ]
  remove_by_state-cases running h r = inr (refl, h)
  remove_by_state-cases terminated h r = inl (
    refl,
    record {
      in_ready = λ p. ground (arith, h.in_ready p);
      in_blocked = ground arith;
      in_suspended = ground arith;
    },
  )

  -- Other tasks keep their places.
  pub remove_by_state-IsPlaced :
      (st : TaskState) (u : ℕ) → u ≢ t → IsPlaced s u → IsPlaced (remove_by_state e st t s).0 u
  unfolding remove_by_state
  remove_by_state-IsPlaced ready u ne h = record {
    in_ready = λ p. ground (
      arith,
      laws.remove_cases (s.sched.ready_lists (s.heap t).priority) t,
      count-erase u t (s.sched.ready_lists (s.heap t).priority),
      h.in_ready p,
    );
    in_blocked = ground arith;
    in_suspended = ground arith;
  }
  remove_by_state-IsPlaced blocked u ne h = record {
    in_ready = h.in_ready;
    in_blocked =
        ground
          (arith, laws.remove_cases s.sched.blocked_list t, count-erase u t s.sched.blocked_list);
    in_suspended = h.in_suspended;
  }
  remove_by_state-IsPlaced suspended u ne h = record {
    in_ready = h.in_ready;
    in_blocked = h.in_blocked;
    in_suspended =
        ground (
          arith,
          laws.remove_cases s.sched.suspended_list t,
          count-erase u t s.sched.suspended_list,
        );
  }
  remove_by_state-IsPlaced running u ne h = h
  remove_by_state-IsPlaced terminated u ne h = h

-- The list of the task's state; a task that is running or has terminated needs none.
abbrev pub state_list : Sys → ℕ → TaskState → List ℕ
state_list s t ready = s.sched.ready_lists (s.heap t).priority
state_list s t running = []
state_list s t blocked = s.sched.blocked_list
state_list s t suspended = s.sched.suspended_list
state_list s t terminated = []

-- A removal fails for a running task, or because list_remove does.
pub remove_by_state-failure :
    (e : Env) (s : Sys) (t : ℕ) (st : TaskState)
    → (remove_by_state e st t s).1 ≡ failure
    → (st ≡ running) ⊎ ((e.list_remove (state_list s t st) t).1 ≡ failure)
unfolding remove_by_state
remove_by_state-failure e s t ready f = inr f
remove_by_state-failure e s t running f = inl refl
remove_by_state-failure e s t blocked f = inr f
remove_by_state-failure e s t suspended f = inr f
remove_by_state-failure e s t terminated f = cc
