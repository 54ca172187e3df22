-- ===== src/Ipc/Mutex/Waiting.antt =====
-- mutex_unlock takes the new owner out of the waiting list, from any place.
use orbit_rtos.Base.{
  ℕ, ◌<◌, ◌≡◌, refl, ◌∙◌, ap, sym, subst, true, if◌then◌else◌, none, some, List, ◌∷◌, contains,
  erase, length, is_ref, arith,
}
use orbit_rtos.Kernel.{Sys, Env, success}
use orbit_rtos.Context.{context_enter_critical, context_exit_critical}
use orbit_rtos.Scheduler.Blocking.{scheduler_unblock_task}
use orbit_rtos.Scheduler.Switch.{scheduler_context_switch}
use orbit_rtos.Ipc.Objects.{unlink}
use orbit_rtos.Ipc.Objects.Links.{IsLinked, IsLinked-IsChain, IsLinked-local}
use orbit_rtos.Ipc.Objects.Unlink.{unlink-IsLinked, unblock-task}
use orbit_rtos.Ipc.Mutex.{set_waiting, pass_to, wake_owner, mutex_unlock}
use orbit_rtos.Ipc.Mutex.Handover.{highest_waiting-IsBest, unlock_waiting}

pass_to-IsLinked :
    (i t : ℕ) (ts : List ℕ) (s : Sys)
    → contains t ts ≡ true
    → IsLinked s.heap none (s.ipc.mutexes i).waiting_tasks ts
    → let s' = pass_to i t s in
      IsLinked s'.heap none (s'.ipc.mutexes i).waiting_tasks (erase t ts)
      × ((s'.ipc.mutexes i).owner ≡ some t)
unfolding pass_to
pass_to-IsLinked i t ts s m h =
    let s1 = unlink (λ s o. set_waiting s i o) t s in
    let head = (s.ipc.mutexes i).waiting_tasks in
    let (linked, ipc, states, objects) =
      unlink-IsLinked (λ s o. set_waiting s i o) head t ts s (λ o. refl) m h in
    let new : (s1.ipc.mutexes i).waiting_tasks ≡ (if is_ref head t then (s.heap t).next else head) =
      ap (λ x. (x.mutexes i).waiting_tasks) ipc ∙ ground arith in
    let kept : ((pass_to i t s).ipc.mutexes i).waiting_tasks ≡ (s1.ipc.mutexes i).waiting_tasks =
      ground arith in
    (subst (λ o. IsLinked s1.heap none o (erase t ts)) (sym (kept ∙ new)) linked, ground arith)

wake-IsLinked :
    (e : Env) (i t : ℕ) (ts : List ℕ) (s : Sys)
    → IsLinked s.heap none (s.ipc.mutexes i).waiting_tasks ts
    → let s' = (scheduler_unblock_task e (some t) s).0 in
      IsLinked s'.heap none (s'.ipc.mutexes i).waiting_tasks ts
wake-IsLinked e i t ts s h =
    let s' = (scheduler_unblock_task e (some t) s).0 in
    let same = ap (λ x. (x.mutexes i).waiting_tasks) (unblock-task e s t t).4 in
    subst (λ o. IsLinked s'.heap none o ts) (sym same)
      (IsLinked-local s.heap s'.heap none _ ts
        (λ u m. ((unblock-task e s t u).0, (unblock-task e s t u).1)) h)

-- mutex_unlock by the owner, which has its original priority, with a linked waiting list and
-- rounds enough for it, gives the mutex to one of the waiting tasks; in the state s' from which
-- the last context switch is made, the waiting list is linked and holds the others in their order.
pub unlock-IsLinked :
    (e : Env) (fuel i c w : ℕ) (ts : List ℕ) (s : Sys)
    → s.table.current_task ≡ some c
    → (s.ipc.mutexes i).locked ≡ true
    → (s.ipc.mutexes i).owner ≡ some c
    → (s.ipc.mutexes i).waiting_tasks ≡ some w
    → (s.heap c).priority ≡ (s.heap c).original_priority
    → IsLinked s.heap none (some w) (w ∷ ts)
    → length ts < fuel
    → (t : ℕ) × (s' : Sys) × (mutex_unlock e fuel (some i) s
        ≡ some ((scheduler_context_switch e s').0, success))
      × (contains t (w ∷ ts) ≡ true)
      × ((s'.ipc.mutexes i).owner ≡ some t)
      × IsLinked s'.heap none (s'.ipc.mutexes i).waiting_tasks (erase t (w ∷ ts))
unfolding wake_owner context_enter_critical context_exit_critical IsLinked contains
unlock-IsLinked e fuel i c w ts s cur lock own wait same h enough =
    let chain = IsLinked-IsChain s.heap (some w) (s.heap w).next ts h.3 in
    let (t, found, best) = highest_waiting-IsBest s.heap fuel (s.heap w).next ts w chain enough in
    let (s1, prev) = context_enter_critical s in
    let m : contains t (w ∷ ts) ≡ true = ground (arith, best.member) in
    let h1 : IsLinked s1.heap none (s1.ipc.mutexes i).waiting_tasks (w ∷ ts) =
      subst (λ o. IsLinked s1.heap none o (w ∷ ts)) (sym wait) h in
    let (linked, owner) = pass_to-IsLinked i t (w ∷ ts) s1 m h1 in
    let s2 = pass_to i t s1 in
    (
      t,
      context_exit_critical prev (scheduler_unblock_task e (some t) s2).0,
      unlock_waiting e fuel i c w s cur lock own wait same
          ∙ ap (λ o. wake_owner e i prev o s1) found,
      m,
      ap (λ x. (x.mutexes i).owner) (unblock-task e s2 t t).4 ∙ owner,
      wake-IsLinked e i t (erase t (w ∷ ts)) s2 linked,
    )
