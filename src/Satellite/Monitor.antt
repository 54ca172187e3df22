-- ===== src/Satellite/Monitor.antt =====
-- src/kernel/main.c: display_status and the monitor task. The display is what is printed, less its format.
use Prim.Native.Nat.{bit_and}
use Prim.Native.String.{String}
use orbit_rtos.Base.{
  ℕ, ◌*◌, ◌%◌, true, ◌==◌, if◌then◌else◌, Option, none, some, List, [], ◌∷◌, ◌++◌, u32_mod,
}
use orbit_rtos.Floats.{FloatOps}
use orbit_rtos.Kernel.{Sys, Env, Task, Satellite, SchedulerStats, max_timeout}
use orbit_rtos.Kernel.Texts.{codes, task_state_to_string}
use orbit_rtos.Scheduler.Tick.Load.{scheduler_get_stats}
use orbit_rtos.Task.Table.{task_get_by_name}
use orbit_rtos.Ipc.Mutex.{mutex_lock, mutex_unlock}
use orbit_rtos.Ipc.EventGroup.{event_group_get_flags}
use orbit_rtos.Satellite.{
  event_thermal_alert, event_attitude_update, event_payload_ready, event_command_received,
  event_low_power, Shared, Platform, and_then,
}
use orbit_rtos.Satellite.Environment.{update_environment}

-- A line of the table of tasks: the name, the priority, the state and the runtime in milliseconds.
pub record Row : Type 0 where
  pub name : List ℕ
  pub priority : ℕ
  pub state : String
  pub runtime : ℕ

pub record Display : Type 0 where
  pub satellite : Satellite
  pub mode : String
  pub events : List String
  pub stats : Option (SchedulerStats × ℕ)
  pub rows : List Row

unfoldable pub mode_text : ℕ → String
mode_text m =
    if m == 0
    then "SAFE"
    else if m == 1
    then "NORMAL"
    else if m == 2
    then "LOW POWER"
    else if m == 3
    then "SCIENCE"
    else if m == 4
    then "MAINTENANCE"
    else "UNKNOWN"

abbrev pub event_text : (flags flag : ℕ) → String → List String
event_text flags flag text = if bit_and flags flag == 0 then [] else text ∷ []

unfoldable pub event_texts : (flags : ℕ) → List String
event_texts flags =
    event_text flags event_thermal_alert "Thermal Alert"
    ++ event_text flags event_attitude_update "Attitude Update Needed"
    ++ event_text flags event_payload_ready "Payload Ready"
    ++ event_text flags event_command_received "Command Received"
    ++ event_text flags event_low_power "Low Power Condition"
    ++ (if flags == 0 then "None" ∷ [] else [])

abbrev pub shown_tasks : List String
shown_tasks =
    "telemetry" ∷ "attitude" ∷ "thermal" ∷ "command" ∷ "housekeep" ∷ "payload" ∷ "monitor" ∷ "idle"
    ∷ []

abbrev pub row : Task → Row
row t = record {
  name = t.name;
  priority = t.priority;
  state = task_state_to_string t.state;
  runtime = (t.stats.total_runtime * 10) % u32_mod;
}

abbrev pub row_of : Sys → Option ℕ → List Row
row_of s none = []
row_of s (some t) = row (s.heap t) ∷ []

unfoldable pub task_rows : Sys → List String → List Row
task_rows s [] = []
task_rows s (n ∷ ns) = row_of s (task_get_by_name (some (codes n)) s) ++ task_rows s ns

-- The state after the critical section in which the flags are read, and the display.
unfoldable pub display_status : Platform → Shared → Sys → Sys × Display
unfolding mode_text event_texts task_rows
display_status p h s =
    let (s', flags) = event_group_get_flags h.system_events s in
    (
      s',
      record {
        satellite = s.satellite;
        mode = mode_text s.satellite.mode;
        events = event_texts flags;
        stats = (scheduler_get_stats p.floats true s').1;
        rows = task_rows s' shown_tasks;
      },
    )

abbrev pub then_update : Env → FloatOps → (fuel : ℕ) → Shared → Option Sys → Option Sys
then_update e f fuel h none = none
then_update e f fuel h (some s) = and_then (mutex_unlock e fuel h.resource_mutex s) some

-- The environment, with the resource locked; the result of mutex_lock is not looked at.
unfoldable pub locked_update : Env → FloatOps → (fuel : ℕ) → Shared → Sys → Option Sys
locked_update e f fuel h s =
    then_update e f fuel h
      (update_environment e f fuel h (mutex_lock e h.resource_mutex max_timeout s).0)

abbrev pub then_display : Platform → Shared → Option Sys → Option (Sys × Display)
then_display p h none = none
then_display p h (some s) = let (s', d) = display_status p h s in some (p.time_delay_ms 1000 s', d)

unfoldable pub system_monitor_round :
    Env → Platform → (fuel : ℕ) → Shared → Sys → Option (Sys × Display)
unfolding locked_update display_status
system_monitor_round e p fuel h s = then_display p h (locked_update e p.floats fuel h s)
