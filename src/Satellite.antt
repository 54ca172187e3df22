-- ===== src/Satellite.antt =====
-- src/kernel/main.c: the satellite's command handler and the rounds of its other tasks; those of the
-- thermal and the monitor task are in Environment and Monitor. A round is the body of a task's
-- `while (running)`.
pub mod Commands
pub mod Environment
pub mod Ranges
pub mod Updates
pub mod Monitor
pub mod Start
pub mod Launch
pub mod Orders
pub mod Objects
pub mod Crew
pub mod Takeoff
pub mod Rounds
use orbit_rtos.Base.{
  ℕ, ◌+◌, ◌%◌, Bool, true, false, not, ◌==◌, leb, if◌then◌else◌, Option, none, some, List, add32,
}
use Prim.Native.Nat.{bit_or}
use orbit_rtos.Floats.{FloatOps}
use orbit_rtos.Kernel.{Sys, Env, Satellite, Status, success, failure, max_timeout}
use orbit_rtos.Ipc.Semaphore.{semaphore_take, semaphore_give}
use orbit_rtos.Ipc.Mutex.{mutex_lock, mutex_unlock}
use orbit_rtos.Ipc.Queue.{queue_receive}
use orbit_rtos.Ipc.Queue.Slots.{bytes}
use orbit_rtos.Ipc.EventGroup.{event_wait_any, event_clear, event_group_set_flags, event_group_wait}

abbrev pub mode_safe : ℕ
mode_safe = 0

abbrev pub mode_maintenance : ℕ
mode_maintenance = 4

abbrev pub mode_normal : ℕ
mode_normal = 1

abbrev pub event_thermal_alert : ℕ
event_thermal_alert = 1

abbrev pub event_low_power : ℕ
event_low_power = 16

abbrev pub event_attitude_update : ℕ
event_attitude_update = 2

abbrev pub event_payload_ready : ℕ
event_payload_ready = 4

abbrev pub event_command_received : ℕ
event_command_received = 8

-- command_type_t, and any other value that its bytes hold.
pub data CommandType : Type 0 where
  noop reset set_mode take_picture deploy_solar_panel adjust_orbit : CommandType
  unknown : ℕ → CommandType

pub record Command : Type 0 where
  pub type : CommandType
  pub parameter : ℕ
  pub timestamp : ℕ

-- The static pointers to the objects that main creates.
pub record Shared : Type 0 where
  pub telemetry_sem : Option ℕ
  pub command_queue : Option ℕ
  pub system_events : Option ℕ
  pub resource_mutex : Option ℕ

-- What the repository does not hold: the arithmetic of floats, the layout of a command_t, which is the
-- compiler's, and the functions of the time and timer modules.
pub record Platform : Type 0 where
  pub floats : FloatOps
  pub command_size : ℕ
  pub read_command : List ℕ → Command
  pub command_byte : Command → ℕ → ℕ
  pub time_delay_ms : ℕ → Sys → Sys
  pub time_ms_to_ticks : ℕ → ℕ
  pub timer_init : Sys → Sys
  pub time_init : Sys → Sys

abbrev pub set_satellite : Sys → Satellite → Sys
set_satellite s v = record s { satellite = v }

-- A call that may not end, and what follows it.
abbrev pub and_then {ℓ} : {A : Type ℓ} → Option (Sys × A) → (Sys → Option Sys) → Option Sys
and_then none f = none
and_then (some (s, r)) f = f s

unfoldable pub satellite_init : FloatOps → Sys → Sys
satellite_init f s = set_satellite s (record {
  mode = mode_safe;
  orbit_position = 0;
  battery_level = f.literal 800;
  temperature = f.literal 25000;
  solar_panels_deployed = false;
  payload_active = false;
  uptime = 0;
  command_count = 0;
  telemetry_packets = 0;
})

unfoldable pub set_event : Env → (fuel : ℕ) → Shared → ℕ → Sys → Option Sys
set_event e fuel h flag s = and_then (event_group_set_flags e fuel h.system_events flag s) some

-- The switch on the type of the command.
unfoldable pub process_command : Env → (fuel : ℕ) → Shared → CommandType → ℕ → Sys → Option Sys
unfolding set_event
process_command e fuel h noop parameter s = some s
process_command e fuel h reset parameter s =
    some (set_satellite s (record (s.satellite) { mode = mode_safe; payload_active = false }))
process_command e fuel h set_mode parameter s =
    if leb parameter mode_maintenance
    then some (set_satellite s (record (s.satellite) { mode = parameter }))
    else some s
process_command e fuel h take_picture parameter s =
    if s.satellite.payload_active then set_event e fuel h event_payload_ready s else some s
process_command e fuel h deploy_solar_panel parameter s =
    if not s.satellite.solar_panels_deployed
    then some (set_satellite s (record (s.satellite) { solar_panels_deployed = true }))
    else some s
process_command e fuel h adjust_orbit parameter s = some s
process_command e fuel h (unknown n) parameter s = some s

-- `satellite_state.command_count++`
unfoldable pub count_command : Sys → Sys
count_command s =
    set_satellite s (record (s.satellite) { command_count = add32 s.satellite.command_count 1 })

-- From the processing of the command on; the result of mutex_unlock is not looked at.
unfoldable pub finish_command : Env → (fuel : ℕ) → Shared → Option Sys → Option Sys
unfolding count_command set_event
finish_command e fuel h none = none
finish_command e fuel h (some s) =
    and_then (mutex_unlock e fuel h.resource_mutex (count_command s))
      (set_event e fuel h event_command_received)

-- With the command that queue_receive has put at `cmd`; the result of mutex_lock is not looked at.
unfoldable pub handle_command : Env → Platform → (fuel : ℕ) → Shared → (cmd : ℕ) → Sys → Option Sys
unfolding process_command finish_command
handle_command e p fuel h cmd s =
    let s' = (mutex_lock e h.resource_mutex max_timeout s).0 in
    let c = p.read_command (bytes s'.memory cmd p.command_size) in
    finish_command e fuel h (process_command e fuel h c.type c.parameter s')

abbrev pub after_receive :
    Env → Platform → (fuel : ℕ) → Shared → (cmd : ℕ) → Sys × Status → Option Sys
after_receive e p fuel h cmd (s, failure) = some s
after_receive e p fuel h cmd (s, success) = handle_command e p fuel h cmd s

unfoldable pub command_handler_round :
    Env → Platform → (fuel : ℕ) → Shared → (cmd : ℕ) → Sys → Option Sys
unfolding handle_command
command_handler_round e p fuel h cmd s =
    after_receive e p fuel h cmd (queue_receive e h.command_queue (some cmd) max_timeout s)

-- `satellite_state.telemetry_packets++`
unfoldable pub count_packet : Sys → Sys
count_packet s =
    set_satellite s
      (record (s.satellite) { telemetry_packets = add32 s.satellite.telemetry_packets 1 })

abbrev pub send_telemetry : Env → Platform → (fuel : ℕ) → Shared → Sys × Status → Option Sys
send_telemetry e p fuel h (s, failure) = some s
send_telemetry e p fuel h (s, success) =
    and_then
      (mutex_unlock e fuel h.resource_mutex
        (count_packet (mutex_lock e h.resource_mutex max_timeout s).0))
      (λ s. set_event e fuel h event_attitude_update (semaphore_give e h.telemetry_sem s).0)

-- The delay at the end of a round that has ended.
abbrev pub then_delay : Platform → ℕ → Option Sys → Option Sys
then_delay p ms none = none
then_delay p ms (some s) = some (p.time_delay_ms ms s)

unfoldable pub telemetry_round : Env → Platform → (fuel : ℕ) → Shared → Sys → Option Sys
unfolding count_packet set_event
telemetry_round e p fuel h s =
    then_delay p 5000 (send_telemetry e p fuel h (semaphore_take e h.telemetry_sem 100 s))

-- Work that the source only logs, with the resource locked.
unfoldable pub locked_work : Env → (fuel : ℕ) → Shared → Sys → Option Sys
locked_work e fuel h s =
    and_then (mutex_unlock e fuel h.resource_mutex (mutex_lock e h.resource_mutex max_timeout s).0)
      some

-- A round that waits for one event flag, and takes it away.
unfoldable pub on_event : Env → (fuel : ℕ) → Shared → ℕ → Sys → Option Sys
unfolding locked_work
on_event e fuel h flag s =
    let options = bit_or event_wait_any event_clear in
    locked_work e fuel h (event_group_wait e h.system_events flag options max_timeout s).0

unfoldable pub attitude_control_round : Env → Platform → (fuel : ℕ) → Shared → Sys → Option Sys
unfolding on_event
attitude_control_round e p fuel h s = then_delay p 1000 (on_event e fuel h event_attitude_update s)

unfoldable pub payload_control_round : Env → Platform → (fuel : ℕ) → Shared → Sys → Option Sys
unfolding on_event
payload_control_round e p fuel h s = then_delay p 3000 (on_event e fuel h event_payload_ready s)

unfoldable pub housekeeping_round : Env → Platform → (fuel : ℕ) → Shared → Sys → Option Sys
unfolding locked_work
housekeeping_round e p fuel h s = then_delay p 10000 (locked_work e fuel h s)
