-- ===== src/Scheduler/Tick/Load.antt =====
-- scheduler_get_stats, with the CPU load. The load is a C float: its operations are those of the
-- processor. It is computed anew by each call and read by nobody else, so that it is a result here and
-- no part of the state.
use orbit_rtos.Base.{
  ℕ, ◌≡◌, Bool, true, false, if◌then◌else◌, Option, none, some, Bool-cases, inl, inr,
}
use orbit_rtos.Floats.{FloatOps, FloatLaws}
use orbit_rtos.Kernel.{Sys, SchedulerStats, Status, success, failure}

-- `1.0f - ((float)idle_time / (float)system_time)`, between 0 and 1.
unfoldable pub cpu_load : (f : FloatOps) → SchedulerStats → ℕ
cpu_load f st =
    let zero_load = f.literal 0 in
    let full_load = f.literal 1000 in
    let load =
      f.minus full_load (f.divided (f.from_u32 st.idle_time) (f.from_u32 st.system_time)) in
    if f.less load zero_load then zero_load else if f.less full_load load then full_load else load

-- `wanted` says whether the pointer for the result is not NULL.
unfoldable pub scheduler_get_stats :
    (f : FloatOps) → (wanted : Bool) → Sys → Status × Option (SchedulerStats × ℕ)
unfolding cpu_load
scheduler_get_stats f false s = (failure, none)
scheduler_get_stats f true s = (success, some (s.sched.stats, cpu_load f s.sched.stats))

-- The load is never below 0 nor above 1.
pub cpu_load_lem :
    {f : FloatOps} (laws : FloatLaws f) (st : SchedulerStats)
    → (f.less (cpu_load f st) (f.literal 0) ≡ false)
      × (f.less (f.literal 1000) (cpu_load f st) ≡ false)
unfolding cpu_load
cpu_load_lem {f} laws st =
    let load =
      f.minus (f.literal 1000) (f.divided (f.from_u32 st.idle_time) (f.from_u32 st.system_time)) in
    elim (Bool-cases (f.less load (f.literal 0))) [
      | inl low ↦ rw low (laws.less-irrefl (f.literal 0), laws.literal-positive 1000)
      | inr no_low ↦ elim (Bool-cases (f.less (f.literal 1000) load)) [
        | inl high ↦
            rw (no_low, high) (laws.literal-positive 1000, laws.less-irrefl (f.literal 1000))
        | inr no_high ↦ rw (no_low, no_high) (no_low, no_high)
      ]
    ]
