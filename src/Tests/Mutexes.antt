-- ===== src/Tests/Mutexes.antt =====
-- The theorems on mutexes at a concrete scheduler.
use orbit_rtos.Base.{ℕ, ◌≡◌, refl, true, false, if◌then◌else◌, some, [], ◌∷◌, arith}
use orbit_rtos.Kernel.{Sys, ready, blocked, ◌is◌, success, failure, set_task}
use orbit_rtos.Scheduler.Switch.{scheduler_context_switch}
use orbit_rtos.Ipc.Objects.Chains.{IsChain}
use orbit_rtos.Ipc.Mutex.{set_mutex, mutex_lock, mutex_unlock}
use orbit_rtos.Ipc.Mutex.Handover.{IsBest, unlock-IsBest}
use orbit_rtos.Ipc.Mutex.Exclusion.{unlock-mutex_lock, mutex_refused}
use orbit_rtos.Tests.Samples.{env, sample, tasks, no_mutex, sample-IsNested}

-- Mutex 0 belongs to task 1, and tasks 4 and 2 wait for it.
abbrev contended : Sys
contended =
    set_mutex (set_task sample 4 (record (tasks 4) { next = some 2 })) 0
      (record no_mutex { locked = true; owner = some 1; waiting_tasks = some 4 })

behind-IsChain : IsChain contended.heap (some 2) (2 ∷ [])
unfolding IsChain
behind-IsChain = (refl, refl)

unlock-IsBest_example :
    (t : ℕ) × (s' : Sys) × (mutex_unlock env 2 (some 0) contended
      ≡ some ((scheduler_context_switch env s').0, success))
    × IsBest contended.heap 4 (2 ∷ []) t
    × ((s'.ipc.mutexes 0).owner ≡ some t)
    × ((s'.ipc.mutexes 0).locked ≡ true)
    × ((s'.heap t).state
        ≡ (if (contended.heap t).state is blocked then ready else (contended.heap t).state))
unlock-IsBest_example =
    unlock-IsBest env 2 0 1 4 (2 ∷ []) contended refl refl refl refl refl behind-IsChain
      (omega arith)

unlock-mutex_lock_example :
    ((mutex_lock env (some 0) 5 sample).1 ≡ success)
    × (mutex_unlock env 1 (some 0) (mutex_lock env (some 0) 5 sample).0 ≡ some (sample, success))
unlock-mutex_lock_example =
    unlock-mutex_lock env 1 0 5 1 sample sample-IsNested refl refl refl refl refl

-- Mutex 0 belongs to task 2, and task 1 runs.
abbrev taken : Sys
taken = set_mutex sample 0 (record no_mutex { locked = true; owner = some 2 })

mutex_refused_example :
    (mutex_lock env (some 0) 0 taken ≡ (taken, failure))
    × ((timeout : ℕ) → ◌≡◌ {A = ℕ} 2 1 → mutex_lock env (some 0) timeout taken ≡ (taken, failure))
    × (false ≡ false → mutex_unlock env 1 (some 0) taken ≡ some (taken, failure))
mutex_refused_example =
    mutex_refused env 1 0 1 2 taken
      (record { has_room = omega arith; masked = λ h. absurd (omega arith) }) refl refl refl
