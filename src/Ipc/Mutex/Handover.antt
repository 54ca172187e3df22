-- ===== src/Ipc/Mutex/Handover.antt =====
-- mutex_unlock hands the mutex to a waiting task of the highest priority.
use orbit_rtos.Base.{
  ℕ, zero, suc, ◌<◌, ◌≤◌, ◌≡◌, refl, ◌∙◌, ap, sym, subst, true, ◌==◌, ◌||◌, ltb, if◌then◌else◌,
  Option, none, some, List, [], ◌∷◌, contains, length, arith,
}
use orbit_rtos.Kernel.{Sys, Env, Task, ready, blocked, ◌is◌, success}
use orbit_rtos.Context.{context_enter_critical, context_exit_critical}
use orbit_rtos.Scheduler.Blocking.{scheduler_unblock_task}
use orbit_rtos.Scheduler.Switch.{scheduler_context_switch}
use orbit_rtos.Ipc.Objects.{set_prev, unlink_before, unlink}
use orbit_rtos.Ipc.Objects.Chains.{IsChain}
use orbit_rtos.Ipc.Mutex.{
  restore_priority, highest_waiting, set_waiting, pass_to, wake_owner, release_mutex, unlock_by,
  mutex_unlock,
}

-- A task among `best` and the tasks `ts` than which none of them has a higher priority, that is, a
-- lower number.
pub record IsBest (heap : ℕ → Task) (best : ℕ) (ts : List ℕ) (t : ℕ) : Type 0 where
  pub member : (t == best || contains t ts) ≡ true
  pub over_best : (heap t).priority ≤ (heap best).priority
  pub over_all : (u : ℕ) → contains u ts ≡ true → (heap t).priority ≤ (heap u).priority

-- Rounds for one more than the tasks of the chain are enough to find one.
pub highest_waiting-IsBest :
    (heap : ℕ → Task) (fuel : ℕ) (o : Option ℕ) (ts : List ℕ) (best : ℕ)
    → IsChain heap o ts
    → length ts < fuel
    → (t : ℕ) × (highest_waiting heap fuel o best ≡ some t) × IsBest heap best ts t
unfolding highest_waiting IsChain contains
highest_waiting-IsBest heap zero o ts best h enough = absurd (omega arith)
highest_waiting-IsBest heap (suc fuel) o [] best h enough = (
  best,
  subst (λ x. highest_waiting heap (suc fuel) x best ≡ some best) (sym h) refl,
  record { member = ground arith; over_best = omega arith; over_all = λ u m. cc },
)
highest_waiting-IsBest heap (suc fuel) o (w ∷ ts) best (q, h) enough =
    let better = if ltb (heap w).priority (heap best).priority then w else best in
    let (t, r, v) = highest_waiting-IsBest heap fuel (heap w).next ts better h (omega arith) in
    (
      t,
      subst (λ x. highest_waiting heap (suc fuel) x best ≡ some t) (sym q) r,
      record {
        member = ground (arith, v.member);
        over_best = ground (arith, v.over_best);
        over_all = λ u m. ground (arith, v.over_best, v.over_all u);
      },
    )

-- The links change neither states nor locks.
set_prev-frame :
    (o p : Option ℕ) (s : Sys) (u : ℕ)
    → (((set_prev o p s).heap u).state ≡ (s.heap u).state) × ((set_prev o p s).ipc ≡ s.ipc)
set_prev-frame none p s u = (refl, refl)
set_prev-frame (some t) p s u = (ground arith, refl)

unlink_before-frame :
    (i t : ℕ) (o after : Option ℕ) (s : Sys)
    → let s' = unlink_before (λ s o. set_waiting s i o) o after s in
      ((s'.heap t).state ≡ (s.heap t).state)
      × ((s'.ipc.mutexes i).locked ≡ (s.ipc.mutexes i).locked)
unlink_before-frame i t none after s = (refl, ground arith)
unlink_before-frame i t (some p) after s = (ground arith, refl)

unlink_mutex-frame :
    (i t : ℕ) (s : Sys)
    → let s' = unlink (λ s o. set_waiting s i o) t s in
      ((s'.heap t).state ≡ (s.heap t).state)
      × ((s'.ipc.mutexes i).locked ≡ (s.ipc.mutexes i).locked)
unfolding unlink
unlink_mutex-frame i t s =
    let s1 = unlink_before (λ s o. set_waiting s i o) (s.heap t).prev (s.heap t).next s in
    let f1 = unlink_before-frame i t (s.heap t).prev (s.heap t).next s in
    let f2 = set_prev-frame (s1.heap t).next (s1.heap t).prev s1 t in
    (ground (arith, f1.0, f2.0), ap (λ x. (x.mutexes i).locked) f2.1 ∙ f1.1)

pass_to-owner :
    (i t : ℕ) (s : Sys)
    → let s' = pass_to i t s in
      ((s'.ipc.mutexes i).owner ≡ some t)
      × ((s'.ipc.mutexes i).locked ≡ (s.ipc.mutexes i).locked)
      × ((s'.heap t).state ≡ (s.heap t).state)
unfolding pass_to
pass_to-owner i t s = let f = unlink_mutex-frame i t s in (ground arith, ground (arith, f.1), f.0)

-- An owner that was not boosted passes the guards.
owner_passes :
    (e : Env) (fuel i prev c : ℕ) (s : Sys)
    → (s.ipc.mutexes i).locked ≡ true
    → (s.ipc.mutexes i).owner ≡ some c
    → (s.heap c).priority ≡ (s.heap c).original_priority
    → unlock_by e fuel i prev (some c) s
      ≡ release_mutex e fuel i prev (s.ipc.mutexes i).waiting_tasks s
unfolding unlock_by restore_priority
owner_passes e fuel i prev c s lock own same = ground arith

release_waiting :
    (e : Env) (fuel i prev w : ℕ) (s : Sys)
    → release_mutex e fuel i prev (some w) s
      ≡ wake_owner e i prev (highest_waiting s.heap fuel (s.heap w).next w) s
unfolding release_mutex
release_waiting e fuel i prev w s = refl

pub unlock_waiting :
    (e : Env) (fuel i c w : ℕ) (s : Sys)
    → s.table.current_task ≡ some c
    → (s.ipc.mutexes i).locked ≡ true
    → (s.ipc.mutexes i).owner ≡ some c
    → (s.ipc.mutexes i).waiting_tasks ≡ some w
    → (s.heap c).priority ≡ (s.heap c).original_priority
    → let (s1, prev) = context_enter_critical s in
      mutex_unlock e fuel (some i) s
      ≡ wake_owner e i prev (highest_waiting s.heap fuel (s.heap w).next w) s1
unfolding mutex_unlock context_enter_critical
unlock_waiting e fuel i c w s cur lock own wait same =
    let (s1, prev) = context_enter_critical s in
    ap (λ x. unlock_by e fuel i prev x s1) cur
    ∙ owner_passes e fuel i prev c s1 lock own same
    ∙ ap (λ x. release_mutex e fuel i prev x s1) wait
    ∙ release_waiting e fuel i prev w s1

unblock-mutexes :
    (e : Env) (t : ℕ) (s : Sys)
    → let s' = (scheduler_unblock_task e (some t) s).0 in
      (s'.ipc ≡ s.ipc)
      × ((s'.heap t).state ≡ (if (s.heap t).state is blocked then ready else (s.heap t).state))
unfolding scheduler_unblock_task
unblock-mutexes e t s = (ground arith, ground arith)

-- mutex_unlock by the owner, which has its original priority, with waiting tasks, a waiting list
-- that ends and rounds enough for it, succeeds. From the first waiting task and those behind it a
-- task is chosen than which none has a higher priority: it is the owner of the mutex, which stays
-- locked, and is ready if it was blocked, in the state s' from which the last context switch is
-- made.
pub unlock-IsBest :
    (e : Env) (fuel i c w : ℕ) (ts : List ℕ) (s : Sys)
    → s.table.current_task ≡ some c
    → (s.ipc.mutexes i).locked ≡ true
    → (s.ipc.mutexes i).owner ≡ some c
    → (s.ipc.mutexes i).waiting_tasks ≡ some w
    → (s.heap c).priority ≡ (s.heap c).original_priority
    → IsChain s.heap (s.heap w).next ts
    → length ts < fuel
    → (t : ℕ) × (s' : Sys) × (mutex_unlock e fuel (some i) s
        ≡ some ((scheduler_context_switch e s').0, success))
      × IsBest s.heap w ts t
      × ((s'.ipc.mutexes i).owner ≡ some t)
      × ((s'.ipc.mutexes i).locked ≡ true)
      × ((s'.heap t).state ≡ (if (s.heap t).state is blocked then ready else (s.heap t).state))
unfolding wake_owner context_enter_critical context_exit_critical
unlock-IsBest e fuel i c w ts s cur lock own wait same chain enough =
    let (t, found, best) = highest_waiting-IsBest s.heap fuel (s.heap w).next ts w chain enough in
    let (s1, prev) = context_enter_critical s in
    let s2 = pass_to i t s1 in
    let p = pass_to-owner i t s1 in
    let u = unblock-mutexes e t s2 in
    (
      t,
      context_exit_critical prev (scheduler_unblock_task e (some t) s2).0,
      unlock_waiting e fuel i c w s cur lock own wait same
          ∙ ap (λ o. wake_owner e i prev o s1) found,
      best,
      ap (λ x. (x.mutexes i).owner) u.0 ∙ p.0,
      ap (λ x. (x.mutexes i).locked) u.0 ∙ p.1 ∙ lock,
      u.1 ∙ ap (λ st. if st is blocked then ready else st) p.2,
    )
