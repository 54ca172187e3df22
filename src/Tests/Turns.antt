-- ===== src/Tests/Turns.antt =====
-- Round robin at a concrete scheduler.
use orbit_rtos.Base.{◌≡◌, refl, some, [], ◌∷◌, ◌++◌, arith}
use orbit_rtos.Kernel.{Sys, round_robin}
use orbit_rtos.Scheduler.Select.{scheduler_get_next_task}
use orbit_rtos.Scheduler.Select.Turns.{InTurn, calls, copies, get_next_task-calls}
use orbit_rtos.Tests.Samples.{refusing, sample}

abbrev in_turns : Sys
in_turns = record sample { sched = record (sample.sched) { current_policy = round_robin } }

in_turns-InTurn : InTurn 3 (2 ∷ 3 ∷ []) in_turns
in_turns-InTurn = record {
  policy = refl;
  unlocked = refl;
  in_range = omega arith;
  here = refl;
  above = λ p less. ground arith;
}

get_next_task-calls_example :
    ((scheduler_get_next_task refusing (calls refusing 2 in_turns)).1 ≡ some 2)
    × ((calls refusing 2 in_turns).sched.ready_lists 3 ≡ 2 ∷ (3 ∷ []) ++ copies 2 2)
get_next_task-calls_example =
    get_next_task-calls refusing 3 2 2 (3 ∷ []) in_turns (λ l t. refl) (λ l t. refl) in_turns-InTurn
