-- ===== src/Tests/Semaphores.antt =====
-- The theorems on semaphores at a concrete scheduler.
use orbit_rtos.Base.{ℕ, ◌≡◌, refl, false, ◌&&◌, if◌then◌else◌, none, some, [], ◌∷◌, contains, arith}
use orbit_rtos.Kernel.{Sys, ready, blocked, ◌is◌, success, failure}
use orbit_rtos.Scheduler.Blocking.Placement.{IsUnlisted}
use orbit_rtos.Scheduler.Switch.{scheduler_context_switch}
use orbit_rtos.Ipc.Objects.Chains.{IsChain}
use orbit_rtos.Ipc.Semaphore.{set_semaphore, semaphore_delete, semaphore_take, semaphore_give}
use orbit_rtos.Ipc.Semaphore.Bounds.{IsBounded, take_and_give-IsBounded}
use orbit_rtos.Ipc.Semaphore.Waiting.{give_waiting, delete-IsChain, take_running}
use orbit_rtos.Tests.Samples.{env, env-ListLaws, sample, tasks, no_semaphore, sample-IsPlaced}

-- Task 4 waits for semaphore 0.
abbrev waiting : Sys
waiting = set_semaphore sample 0 (record no_semaphore { waiting_tasks = some 4 })

give_waiting_example :
    (s' : Sys) × (semaphore_give env (some 0) waiting
      ≡ ((scheduler_context_switch env s').0, success))
    × ((s'.ipc.semaphores 0).waiting_tasks ≡ none)
    × ((s'.ipc.semaphores 0).count ≡ 0)
    × ((s'.heap 4).state ≡ ready)
    × ((s'.heap 4).next ≡ none)
give_waiting_example = give_waiting env waiting 0 4 refl (omega arith)

waiting-IsChain : IsChain tasks (some 4) (4 ∷ [])
unfolding IsChain
waiting-IsChain = (refl, refl)

delete-IsChain_example :
    (s' : Sys) × (semaphore_delete env 2 (some 0) waiting ≡ some (s', success))
    × (s'.ipc.semaphore_used 0 ≡ false)
    × ((u : ℕ)
        → (s'.heap u).state
          ≡ (if contains u (4 ∷ []) && (tasks u).state is blocked then ready else (tasks u).state))
delete-IsChain_example =
    delete-IsChain env 2 0 (4 ∷ []) waiting (omega arith) waiting-IsChain (omega arith)

take_running_example :
    let (s', r) = semaphore_take env (some 0) 5 sample in
    (r ≡ failure)
    × ((s'.heap 1).state ≡ blocked)
    × IsUnlisted s' 1
    × ((s'.ipc.semaphores 0).waiting_tasks ≡ some 1)
take_running_example =
    take_running env-ListLaws sample 0 1 5 refl (omega arith) refl refl (sample-IsPlaced 1) refl

take_and_give-IsBounded_example :
    IsBounded (semaphore_take env (some 0) 5 waiting).0
    × IsBounded (semaphore_give env (some 0) waiting).0
take_and_give-IsBounded_example =
    take_and_give-IsBounded env (λ from to s b. b) 0 5 waiting
      (record { bounded = λ i. ground arith })
