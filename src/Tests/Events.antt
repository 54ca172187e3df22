-- ===== src/Tests/Events.antt =====
-- The theorems on event groups and on waiting lists at concrete ones, and runs.
use orbit_rtos.Base.{
  ℕ, ◌≡◌, refl, true, false, ◌==◌, ◌&&◌, if◌then◌else◌, none, some, [], ◌∷◌, contains, erase, arith,
  update,
}
use Prim.Native.Nat.{bit_and, bit_or}
use orbit_rtos.Kernel.{Sys, ready, blocked, ◌is◌, packed, event, success, set_task}
use orbit_rtos.Scheduler.Switch.{scheduler_context_switch}
use orbit_rtos.Ipc.Objects.Links.{IsLinked}
use orbit_rtos.Ipc.Mutex.{set_mutex, mutex_unlock}
use orbit_rtos.Ipc.Mutex.Waiting.{unlock-IsLinked}
use orbit_rtos.Ipc.EventGroup.{
  set_group, set_flags, flags_after, condition_met, as_word, event_group_set_flags,
  event_group_wait, event_group_clear_flags, event_group_get_flags,
}
use orbit_rtos.Ipc.EventGroup.Scan.{scan}
use orbit_rtos.Ipc.EventGroup.Rounds.{words}
use orbit_rtos.Ipc.EventGroup.Flags.{set_flags-scan, wait_lem}
use orbit_rtos.Ipc.EventGroup.Clearing.{get_flags-clear_flags}
use orbit_rtos.Ipc.Waiting.{
  of_mutex, head_of, join_list, leave_list, join_list-IsLinked, leave_list-IsLinked,
}
use orbit_rtos.Tests.Samples.{env, sample, tasks, in_state, no_group, no_mutex, sample-IsNested}

-- Tasks 4, 5 and 7 wait, in this order: 4 for flag 2, which it takes away, 5 for flags 1 and 2, and 7
-- for flag 2. Their words are still in their block_object.
abbrev waiting : Sys
waiting = record (set_group sample 0 (record no_group { flags = 4; waiting_tasks = some 4 })) {
  heap =
      update
        (update
          (update tasks 4 (record (tasks 4) {
            block_reason = event;
            block_object = packed 0x0200_0002;
            next = some 5;
          }))
          5
          (record (in_state blocked 3) {
            block_reason = event;
            block_object = packed 0x0100_0003;
            prev = some 4;
            next = some 7;
          }))
        7
        (record (in_state blocked 3) {
          block_reason = event;
          block_object = packed 0x0100_0002;
          prev = some 5;
        });
}

waiting-IsLinked : IsLinked waiting.heap none (some 4) (4 ∷ 5 ∷ 7 ∷ [])
unfolding IsLinked contains
waiting-IsLinked = (refl, refl, refl, (refl, refl, refl, (refl, refl, refl, refl)))

set_flags-scan_example :
    let (kept, left, woken) = scan (words env waiting) (4 ∷ 5 ∷ 7 ∷ []) (bit_or 4 3) in
    (s' : Sys) × (event_group_set_flags env 4 (some 0) 3 waiting
      ≡ some (if 4 == left then s' else (scheduler_context_switch env s').0, 4))
    × ((s'.ipc.event_groups 0).flags ≡ left)
    × IsLinked s'.heap none (s'.ipc.event_groups 0).waiting_tasks kept
    × ((u : ℕ)
        → (s'.heap u).state ≡ (
            if contains u woken && (waiting.heap u).state is blocked
            then ready
            else (waiting.heap u).state))
set_flags-scan_example =
    set_flags-scan env 4 0 3 (4 ∷ 5 ∷ 7 ∷ []) waiting waiting-IsLinked (omega arith)

-- Task 4 takes flag 2 away, task 5 gets flag 1, and task 7 stays.
waiting-scan : scan (words env waiting) (4 ∷ 5 ∷ 7 ∷ []) (bit_or 4 3) ≡ (7 ∷ [], 5, 4 ∷ 5 ∷ [])
unfolding scan condition_met as_word flags_after
waiting-scan = refl

wait_lem_example : event_group_wait env (some 0) 6 2 0 waiting ≡ (
    if bit_and 4 6 == 0
    then (waiting, 0)
    else (set_flags waiting 0 (flags_after 2 4 6), bit_and 4 6))
wait_lem_example =
    wait_lem env 0 6 2 waiting
      (record { has_room = sample-IsNested.has_room; masked = sample-IsNested.masked })
      (λ h. absurd (omega arith))

-- Mutex 0 belongs to task 1, and tasks 4 and 2 wait for it.
abbrev contended : Sys
contended =
    set_mutex
      (set_task (set_task sample 4 (record (tasks 4) { next = some 2 })) 2
        (record (tasks 2) { prev = some 4 }))
      0 (record no_mutex { locked = true; owner = some 1; waiting_tasks = some 4 })

contended-IsLinked : IsLinked contended.heap none (some 4) (4 ∷ 2 ∷ [])
unfolding IsLinked contains
contended-IsLinked = (refl, refl, refl, (refl, refl, refl, refl))

unlock-IsLinked_example :
    (t : ℕ) × (s' : Sys) × (mutex_unlock env 2 (some 0) contended
      ≡ some ((scheduler_context_switch env s').0, success))
    × (contains t (4 ∷ 2 ∷ []) ≡ true)
    × ((s'.ipc.mutexes 0).owner ≡ some t)
    × IsLinked s'.heap none (s'.ipc.mutexes 0).waiting_tasks (erase t (4 ∷ 2 ∷ []))
unlock-IsLinked_example =
    unlock-IsLinked env 2 0 1 4 (2 ∷ []) contended refl refl refl refl refl contended-IsLinked
      (omega arith)

contended-head : IsLinked contended.heap none (head_of (of_mutex 0) contended) (4 ∷ 2 ∷ [])
unfolding head_of
contended-head = contended-IsLinked

outside_1 : contains 1 (4 ∷ 2 ∷ []) ≡ false
unfolding contains
outside_1 = refl

join_list-IsLinked_example :
    let s' = join_list (of_mutex 0) 1 contended in
    IsLinked s'.heap none (head_of (of_mutex 0) s') (1 ∷ 4 ∷ 2 ∷ [])
join_list-IsLinked_example =
    join_list-IsLinked (of_mutex 0) 1 (4 ∷ 2 ∷ []) contended contended-head outside_1 refl

leave_list-IsLinked_example :
    let s' = leave_list (of_mutex 0) 4 contended in
    IsLinked s'.heap none (head_of (of_mutex 0) s') (2 ∷ [])
leave_list-IsLinked_example = leave_list-IsLinked (of_mutex 0) 4 (2 ∷ []) contended contended-head

get_flags-clear_flags_example :
    let (s', previous) = event_group_clear_flags (some 0) 6 waiting in
    (bit_and (event_group_get_flags (some 0) s').1 6 ≡ 0)
    × (previous ≡ 4)
    × ((event_group_get_flags (some 0) s').0 ≡ s')
get_flags-clear_flags_example =
    get_flags-clear_flags 0 6 waiting
      (record { has_room = sample-IsNested.has_room; masked = sample-IsNested.masked })
      (omega arith)
