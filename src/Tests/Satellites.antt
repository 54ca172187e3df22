-- ===== src/Tests/Satellites.antt =====
-- The theorems on the satellite at a concrete one.
use orbit_rtos.Base.{
  ℕ, ◌/◌, ◌≡◌, refl, false, ◌==◌, if◌then◌else◌, none, some, List, [], ◌∷◌, arith,
}
use Prim.Native.Nat.{bit_or}
use orbit_rtos.Kernel.{Sys, Satellite}
use orbit_rtos.Scheduler.Switch.{scheduler_context_switch}
use orbit_rtos.Ipc.Queue.Slots.{bytes, messages}
use orbit_rtos.Ipc.Queue.Contents.{contents}
use orbit_rtos.Ipc.Queue.Serving.{held}
use orbit_rtos.Satellite.{
  set_mode, Platform, event_command_received, set_satellite, process_command, command_handler_round,
}
use orbit_rtos.Satellite.Commands.{IsSafe, obey, process_command-IsSafe}
use orbit_rtos.Satellite.Rounds.{IsCalm, shared, counted, command_handler_round_lem}
use orbit_rtos.Tests.Samples.{env, sample}
use orbit_rtos.Tests.Arithmetic.{thousandths}
use orbit_rtos.Tests.Queues.{half_full, half_full-Serves}

abbrev first : List ℕ → ℕ
first [] = 0
first (x ∷ xs) = x

-- Two bytes, of which the first is the mode to set.
abbrev pub two_bytes : Platform
two_bytes = record {
  floats = thousandths;
  command_size = 2;
  read_command = λ m. record { type = set_mode; parameter = first m; timestamp = 0 };
  command_byte = λ c k. if k == 0 then c.parameter else 0;
  time_delay_ms = λ ms s. s;
  time_ms_to_ticks = λ ms. ms / 10;
  timer_init = λ s. s;
  time_init = λ s. s;
}

process_command-IsSafe_example :
    (v : Satellite) × (process_command env 0 (shared none 0 0 0) set_mode 3 sample
      ≡ some (set_satellite sample v))
    × IsSafe v
process_command-IsSafe_example =
    process_command-IsSafe env 0 (shared none 0 0 0) set_mode 3 sample
      (record { known_mode = omega arith; payload_off = refl })

half_full-IsCalm : IsCalm 1 0 0 half_full
half_full-IsCalm = record {
  nested = half_full-Serves.nested;
  current = refl;
  own_priority = refl;
  unlocked = refl;
  no_locker = refl;
  no_listener = refl;
}

half_full-held : held half_full 0 ≡ (1002 ∷ 1003 ∷ []) ∷ []
unfolding contents messages bytes
half_full-held = refl

command_handler_round_lem_example :
    (s' : Sys) × (command_handler_round env two_bytes 1 (shared none 0 0 0) 10 half_full
      ≡ some (
          if 0 == bit_or 0 event_command_received then s' else (scheduler_context_switch env s').0))
    × (s'.satellite ≡ counted (obey set_mode 1002 half_full.satellite))
    × (held s' 0 ≡ [])
    × ((s'.ipc.mutexes 0).locked ≡ false)
    × ((s'.ipc.event_groups 0).flags ≡ bit_or 0 event_command_received)
command_handler_round_lem_example =
    command_handler_round_lem env two_bytes 0 1 0 0 0 10 none (1002 ∷ 1003 ∷ []) [] half_full
      half_full-IsCalm half_full-Serves refl half_full-held refl
