-- ===== src/Scheduler/Blocking/Additions.antt =====
-- What list_append, done or failed, does to the places of the tasks.
use orbit_rtos.Base.{List, [], ◌∷◌, ◌++◌, ℕ, ◌≡◌, refl, ◌≢◌, count-append, arith, ◌⊎◌, inl, inr}
use orbit_rtos.Kernel.{
  Sys, Env, TaskState, ready, running, blocked, suspended, terminated, success, failure,
}
use orbit_rtos.Kernel.Lists.{ListLaws, ListOutcomes}
use orbit_rtos.Scheduler.Blocking.{append_by_state}
use orbit_rtos.Scheduler.Blocking.Placement.{IsPlaced, IsUnlisted}

module _ {e : Env} (laws : ListLaws e) (s : Sys) (t : ℕ) where
  -- A task in no list is in the list of its state once it is added there; a task that runs or has
  -- terminated needs no list.
  pub append_by_state-IsPlaced :
      (st : TaskState)
      → IsUnlisted s t
      → (s.heap t).state ≡ st
      → IsPlaced (append_by_state e st t s).0 t
  unfolding append_by_state
  append_by_state-IsPlaced ready h r = record {
    in_ready = λ p. ground (
      arith,
      laws.append_lem (s.sched.ready_lists (s.heap t).priority) t,
      count-append t t (s.sched.ready_lists (s.heap t).priority),
      h.in_ready p,
    );
    in_blocked = ground arith;
    in_suspended = ground arith;
  }
  append_by_state-IsPlaced blocked h r = record {
    in_ready = λ p. ground (arith, h.in_ready p);
    in_blocked =
        ground
          (arith, laws.append_lem s.sched.blocked_list t, count-append t t s.sched.blocked_list);
    in_suspended = ground arith;
  }
  append_by_state-IsPlaced suspended h r = record {
    in_ready = λ p. ground (arith, h.in_ready p);
    in_blocked = ground arith;
    in_suspended =
        ground (
          arith,
          laws.append_lem s.sched.suspended_list t,
          count-append t t s.sched.suspended_list,
        );
  }
  append_by_state-IsPlaced running h r = record {
    in_ready = λ p. ground (arith, h.in_ready p);
    in_blocked = ground arith;
    in_suspended = ground arith;
  }
  append_by_state-IsPlaced terminated h r = record {
    in_ready = λ p. ground (arith, h.in_ready p);
    in_blocked = ground arith;
    in_suspended = ground arith;
  }

module _ {e : Env} (laws : ListOutcomes e) (s : Sys) (t : ℕ) where
  -- A task in no list is in the list of its state once it is added there, or it stays in no list and
  -- the addition fails.
  pub append_by_state-cases :
      (st : TaskState)
      → IsUnlisted s t
      → (s.heap t).state ≡ st
      → let (s', r) = append_by_state e st t s in
        ((r ≡ success) × IsPlaced s' t) ⊎ ((r ≡ failure) × IsUnlisted s' t)
  unfolding append_by_state
  append_by_state-cases ready h r =
      elim (laws.append_cases (s.sched.ready_lists (s.heap t).priority) t) [
        | inl done ↦ inl (
          ground arith,
          record {
            in_ready = λ p.
                ground
                  (arith, count-append t t (s.sched.ready_lists (s.heap t).priority), h.in_ready p);
            in_blocked = ground (arith, h.in_blocked);
            in_suspended = ground (arith, h.in_suspended);
          },
        )
        | inr kept ↦ inr (
          ground arith,
          record {
            in_ready = λ p. ground (arith, h.in_ready p);
            in_blocked = h.in_blocked;
            in_suspended = h.in_suspended;
          },
        )
      ]
  append_by_state-cases blocked h r = elim (laws.append_cases s.sched.blocked_list t) [
    | inl done ↦ inl (
      ground arith,
      record {
        in_ready = λ p. ground (arith, h.in_ready p);
        in_blocked = ground (arith, count-append t t s.sched.blocked_list, h.in_blocked);
        in_suspended = ground (arith, h.in_suspended);
      },
    )
    | inr kept ↦ inr (
      ground arith,
      record {
        in_ready = h.in_ready;
        in_blocked = ground (arith, h.in_blocked);
        in_suspended = h.in_suspended;
      },
    )
  ]
  append_by_state-cases suspended h r = elim (laws.append_cases s.sched.suspended_list t) [
    | inl done ↦ inl (
      ground arith,
      record {
        in_ready = λ p. ground (arith, h.in_ready p);
        in_blocked = ground (arith, h.in_blocked);
        in_suspended = ground (arith, count-append t t s.sched.suspended_list, h.in_suspended);
      },
    )
    | inr kept ↦ inr (
      ground arith,
      record {
        in_ready = h.in_ready;
        in_blocked = h.in_blocked;
        in_suspended = ground (arith, h.in_suspended);
      },
    )
  ]
  append_by_state-cases running h r = inr (refl, h)
  append_by_state-cases terminated h r = inr (refl, h)

module _ (e : Env)
    (appends : (l : List ℕ) (t : ℕ)
      → (e.list_append l t ≡ (l ++ t ∷ [], success)) ⊎ (e.list_append l t ≡ (l, failure)))
    (s : Sys) (t : ℕ) where
  -- Other tasks keep their places.
  pub append_other-IsPlaced :
      (st : TaskState) (u : ℕ) → u ≢ t → IsPlaced s u → IsPlaced (append_by_state e st t s).0 u
  unfolding append_by_state
  append_other-IsPlaced ready u ne h = record {
    in_ready = λ p. ground (
      arith,
      appends (s.sched.ready_lists (s.heap t).priority) t,
      count-append u t (s.sched.ready_lists (s.heap t).priority),
      h.in_ready p,
    );
    in_blocked = ground arith;
    in_suspended = ground arith;
  }
  append_other-IsPlaced blocked u ne h = record {
    in_ready = h.in_ready;
    in_blocked =
        ground (arith, appends s.sched.blocked_list t, count-append u t s.sched.blocked_list);
    in_suspended = h.in_suspended;
  }
  append_other-IsPlaced suspended u ne h = record {
    in_ready = h.in_ready;
    in_blocked = h.in_blocked;
    in_suspended =
        ground (arith, appends s.sched.suspended_list t, count-append u t s.sched.suspended_list);
  }
  append_other-IsPlaced running u ne h = h
  append_other-IsPlaced terminated u ne h = h
