-- ===== src/Tests/Starts.antt =====
-- The theorems on main and on the environment at a concrete satellite.
use orbit_rtos.Base.{
  ℕ, ◌+◌, ◌≡◌, refl, inr, true, ◌&&◌, ◌==◌, not, if◌then◌else◌, some, [], ◌∷◌, contains, arith,
}
use Prim.Native.Nat.{bit_and, bit_or}
use orbit_rtos.Kernel.{Sys, active, running}
use orbit_rtos.Scheduler.Switch.{started, scheduler_context_switch}
use orbit_rtos.Ipc.Queue.Serving.{held}
use orbit_rtos.Ipc.EventGroup.{complement}
use orbit_rtos.Satellite.{event_low_power, event_thermal_alert}
use orbit_rtos.Satellite.Environment.{drift, is_low, count_second, update_environment}
use orbit_rtos.Satellite.Ranges.{IsMild}
use orbit_rtos.Satellite.Updates.{power_flags, update_environment_lem}
use orbit_rtos.Satellite.Rounds.{shared}
use orbit_rtos.Satellite.Start.{
  Boot, init_kernel, create_objects, deploy_order, mode_order, main, left,
}
use orbit_rtos.Satellite.Launch.{TimeLaws, IsBooted, init_kernel-IsBooted}
use orbit_rtos.Satellite.Orders.{image}
use orbit_rtos.Satellite.Takeoff.{main_lem}
use orbit_rtos.Tests.Samples.{env, env-ListLaws, sample, sample-IsNested}
use orbit_rtos.Tests.Arithmetic.{thousandths, thousandths-FloatLaws}
use orbit_rtos.Tests.Satellites.{two_bytes}

-- The k-th task is at address 100 + k.
abbrev addresses : Boot
addresses = record {
  task_memory = λ k. some (100 + k);
  stack_memory = λ k. some (200 + k);
  allocated = λ k. true;
  func = λ k. 300 + k;
  malloc = λ n. some 4096;
  cmd = 8000;
}

two_bytes-TimeLaws : TimeLaws two_bytes
two_bytes-TimeLaws = record { timer_lem = λ s. refl; time_lem = λ s. refl }

init_kernel-IsBooted_example : IsBooted 100 (init_kernel env two_bytes addresses sample)
init_kernel-IsBooted_example =
    init_kernel-IsBooted env-ListLaws two_bytes-TimeLaws addresses 100 200 sample refl refl refl

main_lem_example :
    (s' : Sys) × (main env two_bytes addresses sample ≡ left (started s'))
    × (s'.table.current_task ≡ some 104)
    × ((s'.heap 104).state ≡ running)
    × (s'.sched.scheduler_state ≡ active)
    × (contains 104 (s'.sched.ready_lists 0) ≡ true)
    × (i : ℕ) × ((create_objects env two_bytes addresses
          (init_kernel env two_bytes addresses sample)).1.command_queue
        ≡ some i)
    × (now : ℕ) × (held s' i
        ≡ image two_bytes (deploy_order now) ∷ image two_bytes (mode_order now) ∷ [])
main_lem_example =
    main_lem env-ListLaws two_bytes-TimeLaws addresses (λ k. 100 + k) (λ k. 200 + k) 4096 sample
      (record { task_lem = λ k. refl; stack_lem = λ k. refl; allocated_lem = λ k. refl })
      (record {
        sized = λ h. absurd (omega arith);
        fits = omega arith;
        malloc_lem = refl;
        apart = inr (omega arith);
      })

sample-IsMild : IsMild thousandths sample.satellite
sample-IsMild = record {
  on_orbit = omega arith;
  not_empty = refl;
  not_overfull = refl;
  not_cold = refl;
  not_hot = refl;
}

update_environment_lem_example :
    let v = drift thousandths sample.satellite in
    let low = is_low thousandths v in
    let kept = bit_and 0 (complement event_thermal_alert) in
    (s' : Sys) × (update_environment env thousandths 1 (shared (some 0) 0 0 0) sample
      ≡ some (
          count_second (
            if low && not (kept == bit_or kept event_low_power)
            then (scheduler_context_switch env s').0
            else s')))
    × (s'.satellite ≡ v)
    × IsMild thousandths v
    × ((s'.ipc.event_groups 0).flags ≡ power_flags low kept)
update_environment_lem_example =
    update_environment_lem env thousandths-FloatLaws 0 0 (shared (some 0) 0 0 0) sample refl
      sample-IsNested refl refl sample-IsMild
