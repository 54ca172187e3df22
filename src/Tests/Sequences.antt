-- ===== src/Tests/Sequences.antt =====
-- The theorems on sequences of calls, and on calls that would have to wait, at concrete states.
use orbit_rtos.Base.{◌≡◌, refl, true, none, some, [], arith}
use orbit_rtos.Kernel.{Sys, blocked, failure}
use orbit_rtos.Scheduler.Blocking.Placement.{IsPlaced, IsUnlisted}
use orbit_rtos.Scheduler.Switch.Running.{IsConsistent}
use orbit_rtos.Task.Control.{task_delay}
use orbit_rtos.Ipc.Semaphore.{semaphore_give}
use orbit_rtos.Ipc.Mutex.{mutex_lock}
use orbit_rtos.Ipc.Mutex.Waits.{inherited, lock_running}
use orbit_rtos.Ipc.Queue.{queue_receive}
use orbit_rtos.Ipc.Queue.Waits.{receive_running}
use orbit_rtos.Ipc.EventGroup.{condition_met, event_group_wait}
use orbit_rtos.Ipc.EventGroup.Waits.{wait_running}
use orbit_rtos.Calls.Messages.{Overwrites}
use orbit_rtos.Calls.Safety.{gives, delays, done, then_call, Calls-IsConsistent}
use orbit_rtos.Tests.Samples.{
  env, env-ListLaws, refusing, refusing-ListLaws, sample, sample-IsPlaced, sample-IsConsistent,
}

env-Overwrites : Overwrites refusing
env-Overwrites = λ o n src s c. c

Calls-IsConsistent_example :
    IsConsistent (task_delay refusing 3 (semaphore_give refusing (some 0) sample).0).0
Calls-IsConsistent_example =
    Calls-IsConsistent refusing-ListLaws (λ from to s v. v) env-Overwrites
      (then_call (gives (some 0) refl) (then_call (delays 3 refl) (done refl))) sample-IsConsistent

receive_running_example :
    let (s', r) = queue_receive env (some 0) (some 10) 5 sample in
    (r ≡ failure)
    × ((s'.heap 1).state ≡ blocked)
    × IsUnlisted s' 1
    × ((s'.ipc.queues 0).waiting_recv ≡ some 1)
receive_running_example =
    receive_running env-ListLaws sample 0 1 10 5 refl refl (omega arith) refl refl
      (sample-IsPlaced 1) refl

wait_running_example :
    let (s', got) = event_group_wait env (some 0) 2 1 5 sample in
    (got ≡ 0)
    × ((s'.heap 1).state ≡ blocked)
    × IsUnlisted s' 1
    × ((s'.ipc.event_groups 0).waiting_tasks ≡ some 1)
unfolding condition_met
wait_running_example =
    wait_running env-ListLaws sample 0 1 2 1 5 (λ h. absurd (omega arith)) refl (omega arith) refl
      refl (sample-IsPlaced 1) refl

-- Task 2, of a lower priority than the running task 1, owns the mutexes.
abbrev owned : Sys
owned = record sample {
  ipc = record (sample.ipc) {
    mutexes = λ i. record { locked = true; owner = some 2; waiting_tasks = none; name = [] };
  };
}

owned-IsPlaced : IsPlaced owned 1
owned-IsPlaced = record {
  in_ready = (sample-IsPlaced 1).in_ready;
  in_blocked = (sample-IsPlaced 1).in_blocked;
  in_suspended = (sample-IsPlaced 1).in_suspended;
}

lock_running_example :
    let (s', r) = mutex_lock env (some 0) 5 owned in
    (r ≡ failure)
    × ((s'.heap 1).state ≡ blocked)
    × IsUnlisted s' 1
    × ((s'.ipc.mutexes 0).waiting_tasks ≡ some 1)
    × ((s'.ipc.mutexes 0).owner ≡ some 2)
    × ((s'.heap 2).priority ≡ inherited 3 2)
lock_running_example =
    lock_running env-ListLaws owned 0 1 2 5 refl refl (λ h. absurd (omega arith)) (omega arith) refl
      refl (omega arith) owned-IsPlaced refl
