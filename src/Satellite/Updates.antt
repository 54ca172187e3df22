-- ===== src/Satellite/Updates.antt =====
-- What an update of the environment makes of the alerts.
use orbit_rtos.Base.{
  ℕ, ◌≡◌, refl, ◌∙◌, ap, ◌&&◌, Bool, true, false, not, suc, ◌==◌, if◌then◌else◌, none, some, arith,
}
use Prim.Native.Nat.{bit_and, bit_or}
use orbit_rtos.Floats.{FloatOps, FloatLaws}
use orbit_rtos.Kernel.{Sys, Env}
use orbit_rtos.Context.{context_enter_critical, context_exit_critical}
use orbit_rtos.Context.Critical.{IsNested}
use orbit_rtos.Scheduler.Switch.{scheduler_context_switch}
use orbit_rtos.Ipc.EventGroup.{set_flags, complement, event_group_clear_flags}
use orbit_rtos.Ipc.EventGroup.Flags.{set_flags-alone}
use orbit_rtos.Satellite.{
  event_thermal_alert, event_low_power, Shared, set_satellite, set_event, and_then,
}
use orbit_rtos.Satellite.Environment.{
  drift, set_alert, is_low, count_second, then_count, then_power, update_environment,
}
use orbit_rtos.Satellite.Ranges.{IsMild, drift-IsMild, mild-not_extreme}

clear_alone :
    (i flags : ℕ) (s : Sys)
    → IsNested s
    → (event_group_clear_flags (some i) flags s).0
      ≡ set_flags s i (bit_and (s.ipc.event_groups i).flags (complement flags))
unfolding event_group_clear_flags context_enter_critical context_exit_critical
clear_alone i flags s v = ground (arith, v)

-- The flags with the low power alert as `low` says.
abbrev pub power_flags : (low : Bool) → ℕ → ℕ
power_flags low flags =
    if low then bit_or flags event_low_power else bit_and flags (complement event_low_power)

power_alert :
    (e : Env) (fuel g : ℕ) (h : Shared) (low : Bool) (s : Sys)
    → h.system_events ≡ some g
    → IsNested s
    → (s.ipc.event_groups g).waiting_tasks ≡ none
    → let now = (s.ipc.event_groups g).flags in
      let s' = set_flags s g (power_flags low now) in
      set_alert e (suc fuel) h low event_low_power s
      ≡ some (
          if low && not (now == bit_or now event_low_power)
          then (scheduler_context_switch e s').0
          else s')
unfolding set_alert set_event
power_alert e fuel g h false s p v alone = rw p (ap some (clear_alone g event_low_power s v))
power_alert e fuel g h true s p v alone =
    rw p (
      ap (λ o. and_then o some) (set_flags-alone e fuel g event_low_power s v alone) ∙ ground arith)

-- update_environment, with IEEE 754 floats, the payload off, the orbit position, the battery level
-- and the temperature in their ranges (0 to 359, 0 to 1, 9.5 to 30.5), nobody waiting for an
-- event, and critical sections that nest: it ends, and the values stay in these ranges. The
-- thermal alert is cleared, the low power alert is set if the battery level is below 0.2 and
-- cleared if not, the other flags stay, and control is given up only when the low power alert is
-- new; the uptime is counted last.
pub update_environment_lem :
    (e : Env) {f : FloatOps} (laws : FloatLaws f) (fuel g : ℕ) (h : Shared) (s : Sys)
    → h.system_events ≡ some g
    → IsNested s
    → (s.ipc.event_groups g).waiting_tasks ≡ none
    → s.satellite.payload_active ≡ false
    → IsMild f s.satellite
    → let v = drift f s.satellite in
      let low = is_low f v in
      let kept = bit_and (s.ipc.event_groups g).flags (complement event_thermal_alert) in
      (s' : Sys) × (update_environment e f (suc fuel) h s
        ≡ some (
            count_second (
              if low && not (kept == bit_or kept event_low_power)
              then (scheduler_context_switch e s').0
              else s')))
      × (s'.satellite ≡ v)
      × IsMild f v
      × ((s'.ipc.event_groups g).flags ≡ power_flags low kept)
unfolding update_environment set_alert
update_environment_lem e {f} laws fuel g h s p nested alone off mild =
    let v = drift f s.satellite in
    let low = is_low f v in
    let s1 = set_satellite s v in
    let calm = drift-IsMild laws s.satellite off mild in
    let fine = mild-not_extreme laws v calm in
    let kept = bit_and (s.ipc.event_groups g).flags (complement event_thermal_alert) in
    let s2 = set_flags s1 g kept in
    let nested1 : IsNested s1 = record { has_room = nested.has_room; masked = nested.masked } in
    let nested2 : IsNested s2 = record { has_room = nested.has_room; masked = nested.masked } in
    let s3 = λ (k : ℕ). set_flags s2 g (power_flags low k) in
    let now : (s2.ipc.event_groups g).flags ≡ kept = ground arith in
    let powered =
      λ (x : Sys). then_count (set_alert e (suc fuel) h (is_low f x.satellite) event_low_power x) in
    let cleared = clear_alone g event_thermal_alert s1 nested1 in
    let power = power_alert e fuel g h low s2 p nested2 (ground (arith, alone)) in
    (
      s3 kept,
      ap
            (λ x.
              then_count
                (then_power e f (suc fuel) h (set_alert e (suc fuel) h x event_thermal_alert s1)))
            fine
          ∙ ap (λ o. powered (event_group_clear_flags o event_thermal_alert s1).0) p
          ∙ ap powered cleared
          ∙ ap then_count power
          ∙ ap
              (λ k. some (
                count_second (
                  if low && not (k == bit_or k event_low_power)
                  then (scheduler_context_switch e (s3 k)).0
                  else s3 k)))
              now,
      refl,
      calm,
      ground arith,
    )
