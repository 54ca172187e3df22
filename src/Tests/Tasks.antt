-- ===== src/Tests/Tasks.antt =====
-- The theorems on tasks at a concrete scheduler.
use orbit_rtos.Base.{
  ◌⊎◌, ℕ, ◌+◌, ◌*◌, ◌%◌, ◌<◌, ◌≡◌, refl, ◌≢◌, true, false, some, [], ◌∷◌, count, add32, u32_mod,
  arith,
}
use orbit_rtos.Kernel.{Sys, ready, running, suspended, success, failure}
use orbit_rtos.Scheduler.Blocking.Placement.{IsPlaced, IsUnlisted}
use orbit_rtos.Task.Table.{
  task_create, task_delete, task_get_by_name, find_name, same_name, idle_name,
}
use orbit_rtos.Task.Table.Slots.{IsCounted}
use orbit_rtos.Task.Table.Creation.{
  CannotRemove, IsCreated, made, task_create-IsCreated, task_delete-IsUnlisted,
}
use orbit_rtos.Task.Control.{task_set_priority, task_get_priority, task_suspend, task_set_periodic}
use orbit_rtos.Task.Control.Defects.{set_priority_stale, suspend_stale}
use orbit_rtos.Task.Control.Timing.{after_jobs, set_periodic-releases}
use orbit_rtos.Tests.Samples.{
  env, env-ListLaws, env-ListOutcomes, sample, sample-IsPlaced, sample-IsCounted, new-IsUnlisted,
}

found : task_get_by_name (some (97 ∷ 3 ∷ [])) sample ≡ some 2
unfolding task_get_by_name find_name same_name
found = refl

task_create-IsCreated_example :
    (s' : Sys) × (task_create env
        (some idle_name)
        5
        (some 100)
        0
        2048
        (some 7)
        (some 200)
        true
        sample
      ≡ (s', some 7))
    × IsCreated sample s' 7 (made idle_name 5 100 0 2048 200)
task_create-IsCreated_example =
    task_create-IsCreated env-ListLaws idle_name 5 100 0 2048 7 200 sample sample-IsCounted
      (omega arith) (omega arith) new-IsUnlisted

task_delete-IsUnlisted_example :
    let (s', r) = task_delete env (some 2) sample in
    (false ≡ true → (r ≡ failure) × (s' ≡ sample))
    × (false ≡ false
        → (((r ≡ success) × IsUnlisted s' 2) ⊎ ((r ≡ failure) × IsPlaced s' 2))
          × (ready ≡ running → r ≡ failure)
          × (r ≡ failure → CannotRemove env sample 2))
    × IsCounted s'
    × ((u : ℕ) → u ≢ 2 → IsPlaced sample u → IsPlaced s' u)
task_delete-IsUnlisted_example =
    task_delete-IsUnlisted env-ListOutcomes 2 sample sample-IsCounted (sample-IsPlaced 2)

set_priority_stale_example :
    let (s', r) = task_set_priority env (some 2) 1 sample in
    (r ≡ success)
    × (task_get_priority (some 2) s' ≡ 1)
    × ((s'.heap 2).original_priority ≡ 1)
    × (s'.sched ≡ sample.sched)
    × (count 2 (s'.sched.ready_lists 3) ≡ 1)
    × (count 2 (s'.sched.ready_lists 1) ≡ 0)
set_priority_stale_example =
    set_priority_stale env sample 2 1 (omega arith) (sample-IsPlaced 2) refl
      (λ q. absurd (omega arith))

suspend_stale_example :
    let (s', r) = task_suspend env (some 2) sample in
    (r ≡ success)
    × ((s'.heap 2).state ≡ suspended)
    × (count 2 (s'.sched.ready_lists 3) ≡ 1)
    × (count 2 s'.sched.suspended_list ≡ 0)
suspend_stale_example = suspend_stale env sample 2 refl refl (sample-IsPlaced 2) refl

set_periodic-releases_example :
    let (s', r) = task_set_periodic (some 2) 10 7 sample in
    (◌≡◌ {A = ℕ} 10 0 → (s' ≡ sample) × (r ≡ failure))
    × (0 < 10
        → (r ≡ success)
          × ((n : ℕ)
              → let v = after_jobs n (s'.heap 2) in
                (v.next_release ≡ (40 + (n + 1) * 10) % u32_mod)
                × (v.absolute_deadline ≡ add32 v.next_release 7)
                × (v.state ≡ ready)))
set_periodic-releases_example = set_periodic-releases sample 2 10 7
