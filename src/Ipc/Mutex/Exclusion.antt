-- ===== src/Ipc/Mutex/Exclusion.antt =====
-- A mutex is locked and unlocked by its owner alone.
use orbit_rtos.Base.{ℕ, ◌≡◌, ◌∙◌, ap, fun_ext, true, false, ◌==◌, none, some, arith}
use orbit_rtos.Kernel.{Sys, Env, success, failure}
use orbit_rtos.Context.{context_enter_critical, context_exit_critical}
use orbit_rtos.Context.Critical.{IsNested, exit-enter}
use orbit_rtos.Ipc.Objects.{set_ipc}
use orbit_rtos.Ipc.Mutex.{
  set_mutex, restore_priority, release_mutex, lock_by, unlock_by, mutex_lock, mutex_unlock,
}

pub lock_free :
    (e : Env) (i timeout c : ℕ) (s : Sys)
    → IsNested s
    → s.table.current_task ≡ some c
    → (s.ipc.mutexes i).locked ≡ false
    → mutex_lock e (some i) timeout s
      ≡ (set_mutex s i (record (s.ipc.mutexes i) { locked = true; owner = some c }), success)
unfolding mutex_lock lock_by context_enter_critical context_exit_critical
lock_free e i timeout c s v cur free = rw (cur, free) (ground arith)

pub unlock_alone :
    (e : Env) (fuel i c : ℕ) (s : Sys)
    → IsNested s
    → s.table.current_task ≡ some c
    → (s.ipc.mutexes i).locked ≡ true
    → (s.ipc.mutexes i).owner ≡ some c
    → (s.ipc.mutexes i).waiting_tasks ≡ none
    → (s.heap c).priority ≡ (s.heap c).original_priority
    → mutex_unlock e fuel (some i) s
      ≡ some (set_mutex s i (record (s.ipc.mutexes i) { locked = false; owner = none }), success)
unfolding mutex_unlock unlock_by release_mutex restore_priority context_enter_critical
    context_exit_critical
unlock_alone e fuel i c s v cur lock own alone same = rw (cur, lock, own, alone) (ground arith)

-- A current task with its original priority that locks a free mutex without waiting tasks, in a
-- properly nested critical section, succeeds, and its unlock succeeds and gives back the state
-- from before.
pub unlock-mutex_lock :
    (e : Env) (fuel i timeout c : ℕ) (s : Sys)
    → IsNested s
    → s.table.current_task ≡ some c
    → (s.heap c).priority ≡ (s.heap c).original_priority
    → (s.ipc.mutexes i).locked ≡ false
    → (s.ipc.mutexes i).owner ≡ none
    → (s.ipc.mutexes i).waiting_tasks ≡ none
    → ((mutex_lock e (some i) timeout s).1 ≡ success)
      × (mutex_unlock e fuel (some i) (mutex_lock e (some i) timeout s).0 ≡ some (s, success))
unlock-mutex_lock e fuel i timeout c s v cur same free nobody alone =
    let locked_by_c = set_mutex s i (record (s.ipc.mutexes i) { locked = true; owner = some c }) in
    let lock = lock_free e i timeout c s v cur free in
    let v' : IsNested locked_by_c = record { has_room = v.has_room; masked = v.masked } in
    let back : set_mutex locked_by_c i
          (record (locked_by_c.ipc.mutexes i) { locked = false; owner = none })
        ≡ s =
      ap (λ f. set_ipc s (record (s.ipc) { mutexes = f })) (fun_ext (λ j. ground arith)) in
    (
      ap (λ x. x.1) lock,
      rw lock (
          unlock_alone e fuel i c locked_by_c v' cur (ground arith) (ground arith) (ground arith)
            same
          ∙ ap (λ x. some (x, success)) back),
    )

lock_timeout :
    (e : Env) (i prev c : ℕ) (s : Sys)
    → (s.ipc.mutexes i).locked ≡ true
    → lock_by e i 0 prev (some c) s ≡ (context_exit_critical prev s, failure)
unfolding lock_by
lock_timeout e i prev c s lock = ground arith

lock_again :
    (e : Env) (i timeout prev c : ℕ) (s : Sys)
    → (s.ipc.mutexes i).locked ≡ true
    → (s.ipc.mutexes i).owner ≡ some c
    → lock_by e i timeout prev (some c) s ≡ (context_exit_critical prev s, failure)
unfolding lock_by
lock_again e i timeout prev c s lock own = ground arith

unlock_other :
    (e : Env) (fuel i prev c o : ℕ) (s : Sys)
    → (s.ipc.mutexes i).locked ≡ true
    → (s.ipc.mutexes i).owner ≡ some o
    → (o == c) ≡ false
    → unlock_by e fuel i prev (some c) s ≡ some (context_exit_critical prev s, failure)
unfolding unlock_by
unlock_other e fuel i prev c o s lock own other = ground arith

-- For a mutex that is locked and has an owner, in a properly nested critical section: the current
-- task cannot lock it with timeout 0, nor with any timeout if it is the owner, nor unlock it if it
-- is another task; these calls fail and change nothing.
pub mutex_refused :
    (e : Env) (fuel i c o : ℕ) (s : Sys)
    → IsNested s
    → s.table.current_task ≡ some c
    → (s.ipc.mutexes i).locked ≡ true
    → (s.ipc.mutexes i).owner ≡ some o
    → (mutex_lock e (some i) 0 s ≡ (s, failure))
      × ((timeout : ℕ) → o ≡ c → mutex_lock e (some i) timeout s ≡ (s, failure))
      × ((o == c) ≡ false → mutex_unlock e fuel (some i) s ≡ some (s, failure))
unfolding mutex_lock mutex_unlock context_enter_critical
mutex_refused e fuel i c o s v cur lock own =
    let (s1, prev) = context_enter_critical s in
    let outside = exit-enter s v in
    (
      ap (λ x. lock_by e i 0 prev x s1) cur
          ∙ lock_timeout e i prev c s1 lock
          ∙ ap (λ x. (x, failure)) outside,
      λ timeout same.
          ap (λ x. lock_by e i timeout prev x s1) cur
          ∙ lock_again e i timeout prev c s1 lock (own ∙ ap some same)
          ∙ ap (λ x. (x, failure)) outside,
      λ other.
          ap (λ x. unlock_by e fuel i prev x s1) cur
          ∙ unlock_other e fuel i prev c o s1 lock own other
          ∙ ap (λ x. some (x, failure)) outside,
    )
