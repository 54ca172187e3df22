-- ===== src/Calls/Wakes.antt =====
-- The calls that wake tasks keep the scheduler consistent.
use orbit_rtos.Base.{
  ℕ, zero, suc, ◌≡◌, refl, sym, subst, inl, inr, Option, none, some, Bool-cases, leb, is_ref, ◌==◌,
}
use Prim.Native.Nat.{bit_or}
use orbit_rtos.Kernel.{Sys, Env}
use orbit_rtos.Context.{context_enter_critical, context_exit_critical}
use orbit_rtos.Scheduler.Blocking.{scheduler_unblock_task}
use orbit_rtos.Scheduler.Switch.{scheduler_context_switch}
use orbit_rtos.Scheduler.Switch.Running.{IsConsistent}
use orbit_rtos.Scheduler.Switch.Rely.{Rely, same-IsConsistent, context_switch-IsConsistent}
use orbit_rtos.Scheduler.Tick.Consistency.{unblock-IsConsistent}
use orbit_rtos.Ipc.Objects.{unblock_waiting}
use orbit_rtos.Ipc.Semaphore.{dequeue, give_to, semaphore_give}
use orbit_rtos.Ipc.Mutex.{
  set_waiting, restore_priority, pass_to, wake_owner, release_mutex, unlock_by, mutex_unlock,
  highest_waiting,
}
use orbit_rtos.Ipc.EventGroup.{
  as_word, word_options, word_flags, condition_met, set_flags, set_waiting_tasks, wake_task, visit,
  visit_waiting, finish_set, event_group_set_flags,
}
use orbit_rtos.Calls.Links.{
  set_prev-IsConsistent, set_next-IsConsistent, unlink-IsConsistent, set_priority-IsConsistent,
}

-- What a call leaves, if it ends.
abbrev pub Fine : Option Sys → Type 0
Fine none = Unit {0}
Fine (some s) = IsConsistent s

abbrev pub Good : {A : Type 0} → Option (Sys × A) → Type 0
Good none = Unit {0}
Good (some (s, r)) = IsConsistent s

pub exit-IsConsistent :
    (prev : ℕ) (s : Sys) → IsConsistent s → IsConsistent (context_exit_critical prev s)
unfolding context_exit_critical
exit-IsConsistent prev s c = same-IsConsistent refl refl c

pub enter-IsConsistent : (s : Sys) → IsConsistent s → IsConsistent (context_enter_critical s).0
unfolding context_enter_critical
enter-IsConsistent s c = same-IsConsistent refl refl c

module _ (e : Env) (rely : Rely e) where
  -- The end of every call that wakes a task: it may run at once.
  pub switched-IsConsistent :
      (prev : ℕ) (s : Sys)
      → IsConsistent s
      → IsConsistent (scheduler_context_switch e (context_exit_critical prev s)).0
  switched-IsConsistent prev s c = context_switch-IsConsistent e rely _ (exit-IsConsistent prev s c)

  give_to-IsConsistent :
      (i prev : ℕ) (o : Option ℕ) (s : Sys) → IsConsistent s → IsConsistent (give_to e i prev o s).0
  unfolding give_to dequeue
  give_to-IsConsistent i prev none s c = exit-IsConsistent prev _ (same-IsConsistent refl refl c)
  give_to-IsConsistent i prev (some t) s c = switched-IsConsistent prev _ (
      unblock-IsConsistent e (dequeue i t s) t (
        set_prev-IsConsistent (some t) none _ (
          set_next-IsConsistent (some t) none _
            (set_prev-IsConsistent (s.heap t).next none _ (same-IsConsistent refl refl c)))))

  pub give-IsConsistent :
      (o : Option ℕ) (s : Sys) → IsConsistent s → IsConsistent (semaphore_give e o s).0
  unfolding semaphore_give
  give-IsConsistent none s c = c
  give-IsConsistent (some i) s c =
      let (s', prev) = context_enter_critical s in
      let c' = enter-IsConsistent s c in
      let sem = s'.ipc.semaphores i in
      elim (Bool-cases (leb sem.max_count sem.count)) [
        | inl full ↦ rw full (exit-IsConsistent prev s' c')
        | inr fits ↦ rw fits (give_to-IsConsistent i prev sem.waiting_tasks s' c')
      ]

  wake_owner-Good :
      (i prev : ℕ) (o : Option ℕ) (s : Sys) → IsConsistent s → Good (wake_owner e i prev o s)
  unfolding wake_owner pass_to
  wake_owner-Good i prev none s c = tt
  wake_owner-Good i prev (some t) s c = switched-IsConsistent prev _ (
      unblock-IsConsistent e (pass_to i t s) t (
        same-IsConsistent refl refl (
          unlink-IsConsistent (λ s o. set_waiting s i o) t s
            (λ s o c. same-IsConsistent refl refl c) c)))

  release-Good :
      (fuel i prev : ℕ) (o : Option ℕ) (s : Sys)
      → IsConsistent s
      → Good (release_mutex e fuel i prev o s)
  unfolding release_mutex
  release-Good fuel i prev none s c = exit-IsConsistent prev _ (same-IsConsistent refl refl c)
  release-Good fuel i prev (some t) s c =
      wake_owner-Good i prev (highest_waiting s.heap fuel (s.heap t).next t) s c

  restore-IsConsistent :
      (c : ℕ) (s : Sys) → IsConsistent s → IsConsistent (restore_priority e (some c) s)
  unfolding restore_priority
  restore-IsConsistent c s v =
      elim (Bool-cases ((s.heap c).priority == (s.heap c).original_priority)) [
        | inl same ↦ rw same v
        | inr boosted ↦ rw boosted (set_priority-IsConsistent e c (s.heap c).original_priority s v)
      ]

  unlock_by-Good :
      (fuel i prev c : ℕ) (s : Sys) → IsConsistent s → Good (unlock_by e fuel i prev (some c) s)
  unfolding unlock_by
  unlock_by-Good fuel i prev c s v =
      let m = s.ipc.mutexes i in
      let outside = exit-IsConsistent prev s v in
      elim (Bool-cases m.locked) [
        | inr free ↦ rw free outside
        | inl lock ↦ elim (Bool-cases (is_ref m.owner c)) [
          | inr other ↦ rw (lock, other) outside
          | inl own ↦
              let s' = restore_priority e (some c) s in
              rw (lock, own)
                (release-Good fuel i prev (s'.ipc.mutexes i).waiting_tasks s'
                  (restore-IsConsistent c s v))
        ]
      ]

  pub unlock-Good :
      (fuel c : ℕ) (o : Option ℕ) (s : Sys)
      → s.table.current_task ≡ some c
      → IsConsistent s
      → Good (mutex_unlock e fuel o s)
  unfolding mutex_unlock context_enter_critical
  unlock-Good fuel c none s cur v = v
  unlock-Good fuel c (some i) s cur v =
      let (s', prev) = context_enter_critical s in
      subst (λ o. Good (unlock_by e fuel i prev o s')) (sym cur)
        (unlock_by-Good fuel i prev c s' (enter-IsConsistent s v))

  visit-IsConsistent : (i t : ℕ) (s : Sys) → IsConsistent s → IsConsistent (visit e i t s)
  unfolding visit wake_task
  visit-IsConsistent i t s c =
      let w = as_word e (s.heap t).block_object in
      elim (Bool-cases
        (condition_met (word_options w) (s.ipc.event_groups i).flags (word_flags w))) [
          | inr unmet ↦ rw unmet c
          | inl met ↦ rw met (
              unblock-IsConsistent e _ t (
                unlink-IsConsistent (λ s o. set_waiting_tasks s i o) t _
                  (λ s o c. same-IsConsistent refl refl c) (same-IsConsistent refl refl c)))
        ]

  visit_waiting-Fine :
      (fuel i : ℕ) (o : Option ℕ) (s : Sys) → IsConsistent s → Fine (visit_waiting e i fuel o s)
  unfolding visit_waiting
  visit_waiting-Fine zero i o s c = tt
  visit_waiting-Fine (suc fuel) i none s c = c
  visit_waiting-Fine (suc fuel) i (some t) s c =
      visit_waiting-Fine fuel i (s.heap t).next (visit e i t s) (visit-IsConsistent i t s c)

  finish_set-Good :
      (i prev flags : ℕ) (o : Option Sys) → Fine o → Good (finish_set e i prev flags o)
  unfolding finish_set
  finish_set-Good i prev flags none c = tt
  finish_set-Good i prev flags (some s) c =
      let s' = context_exit_critical prev s in
      elim (Bool-cases (flags == (s'.ipc.event_groups i).flags)) [
        | inl same ↦ rw same (exit-IsConsistent prev s c)
        | inr new ↦ rw new (switched-IsConsistent prev s c)
      ]

  pub set_flags-Good :
      (fuel : ℕ) (o : Option ℕ) (flags : ℕ) (s : Sys)
      → IsConsistent s
      → Good (event_group_set_flags e fuel o flags s)
  unfolding event_group_set_flags
  set_flags-Good fuel none flags s c = c
  set_flags-Good fuel (some i) flags s c =
      let (s1, prev) = context_enter_critical s in
      let previous = (s1.ipc.event_groups i).flags in
      let s2 = set_flags s1 i (bit_or previous flags) in
      finish_set-Good i prev previous _ (
        visit_waiting-Fine fuel i (s2.ipc.event_groups i).waiting_tasks s2
          (same-IsConsistent refl refl (enter-IsConsistent s c)))

  pub unblock_waiting-Fine :
      (fuel : ℕ) (o : Option ℕ) (s : Sys) → IsConsistent s → Fine (unblock_waiting e fuel o s)
  unfolding unblock_waiting
  unblock_waiting-Fine zero o s c = tt
  unblock_waiting-Fine (suc fuel) none s c = c
  unblock_waiting-Fine (suc fuel) (some t) s c =
      unblock_waiting-Fine fuel (s.heap t).next (scheduler_unblock_task e (some t) s).0
        (unblock-IsConsistent e s t c)
