-- ===== src/Satellite/Environment.antt =====
-- src/kernel/main.c: update_environment, and the thermal task's correction.
use orbit_rtos.Base.{
  ℕ, ◌%◌, Bool, true, false, ◌&&◌, ◌||◌, ◌==◌, leb, if◌then◌else◌, Option, none, some, add32,
}
use Prim.Native.Nat.{bit_and}
use orbit_rtos.Floats.{FloatOps}
use orbit_rtos.Kernel.{Sys, Env, Satellite, max_timeout}
use orbit_rtos.Ipc.Mutex.{mutex_lock, mutex_unlock}
use orbit_rtos.Ipc.EventGroup.{event_group_clear_flags, event_group_get_flags}
use orbit_rtos.Satellite.{
  event_thermal_alert, event_low_power, Shared, Platform, set_satellite, set_event, and_then,
  then_delay,
}

unfoldable pub move_on : Satellite → Satellite
move_on v = record v { orbit_position = add32 v.orbit_position 1 % 360 }

abbrev pub in_sunlight : Satellite → Bool
in_sunlight v = leb 0 v.orbit_position && leb v.orbit_position 180

unfoldable pub drain_rate : FloatOps → Satellite → ℕ
drain_rate f v = if v.payload_active then f.times (f.literal 5) (f.from_u32 2) else f.literal 5

unfoldable pub charge : FloatOps → ℕ → ℕ
charge f level =
    let more = f.plus level (f.literal 10) in
    if f.less (f.literal 1000) more then f.literal 1000 else more

unfoldable pub drain : FloatOps → (rate level : ℕ) → ℕ
drain f rate level =
    let rest = f.minus level rate in if f.less rest (f.literal 0) then f.literal 0 else rest

unfoldable pub update_battery : FloatOps → Satellite → Satellite
unfolding drain_rate charge drain
update_battery f v = record v {
  battery_level =
      if in_sunlight v && v.solar_panels_deployed
      then charge f v.battery_level
      else drain f (drain_rate f v) v.battery_level;
}

unfoldable pub target_temp : FloatOps → Satellite → ℕ
target_temp f v =
    let base = if in_sunlight v then f.literal 30000 else f.literal 10000 in
    if v.payload_active then f.plus base (f.literal 10000) else base

-- Half a degree towards the target.
unfoldable pub approach : FloatOps → (target temperature : ℕ) → ℕ
approach f target t =
    if f.less t target
    then f.plus t (f.literal 500)
    else if f.less target t
    then f.minus t (f.literal 500)
    else t

unfoldable pub update_temperature : FloatOps → Satellite → Satellite
unfolding target_temp approach
update_temperature f v = record v { temperature = approach f (target_temp f v) v.temperature }

-- update_environment up to the alerts.
unfoldable pub drift : FloatOps → Satellite → Satellite
unfolding move_on update_battery update_temperature
drift f v = update_temperature f (update_battery f (move_on v))

-- An alert is set or cleared.
unfoldable pub set_alert : Env → (fuel : ℕ) → Shared → (raised : Bool) → ℕ → Sys → Option Sys
unfolding set_event
set_alert e fuel h true flag s = set_event e fuel h flag s
set_alert e fuel h false flag s = some (event_group_clear_flags h.system_events flag s).0

abbrev pub is_extreme : FloatOps → Satellite → Bool
is_extreme f v = f.less (f.literal 40000) v.temperature || f.less v.temperature (f.literal 0)

abbrev pub is_low : FloatOps → Satellite → Bool
is_low f v = f.less v.battery_level (f.literal 200)

-- `satellite_state.uptime++`
unfoldable pub count_second : Sys → Sys
count_second s = set_satellite s (record (s.satellite) { uptime = add32 s.satellite.uptime 1 })

abbrev pub then_count : Option Sys → Option Sys
then_count none = none
then_count (some s) = some (count_second s)

abbrev pub then_power : Env → FloatOps → (fuel : ℕ) → Shared → Option Sys → Option Sys
then_power e f fuel h none = none
then_power e f fuel h (some s) = set_alert e fuel h (is_low f s.satellite) event_low_power s

unfoldable pub update_environment : Env → FloatOps → (fuel : ℕ) → Shared → Sys → Option Sys
unfolding drift set_alert count_second
update_environment e f fuel h s =
    let s' = set_satellite s (drift f s.satellite) in
    then_count (
      then_power e f fuel h (set_alert e fuel h (is_extreme f s'.satellite) event_thermal_alert s'))

-- Two degrees towards the safe range.
unfoldable pub correct : FloatOps → Satellite → Satellite
correct f v = record v {
  temperature =
      if f.less (f.literal 40000) v.temperature
      then f.minus v.temperature (f.literal 2000)
      else if f.less v.temperature (f.literal 0)
      then f.plus v.temperature (f.literal 2000)
      else v.temperature;
}

-- The correction, with the resource locked; the result of mutex_lock is not looked at.
unfoldable pub correct_temperature : Env → FloatOps → (fuel : ℕ) → Shared → Sys → Option Sys
unfolding correct
correct_temperature e f fuel h s =
    let s' = (mutex_lock e h.resource_mutex max_timeout s).0 in
    and_then (mutex_unlock e fuel h.resource_mutex (set_satellite s' (correct f s'.satellite))) some

unfoldable pub thermal_control_round : Env → Platform → (fuel : ℕ) → Shared → Sys → Option Sys
unfolding correct_temperature
thermal_control_round e p fuel h s =
    let (s', flags) = event_group_get_flags h.system_events s in
    then_delay p 2000 (
      if bit_and flags event_thermal_alert == 0
      then some s'
      else correct_temperature e p.floats fuel h s')
