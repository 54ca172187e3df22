-- ===== src/Context/Critical.antt =====
-- Critical sections nest: what context_enter_critical does, context_exit_critical undoes.
use orbit_rtos.Base.{◌+◌, ◌<◌, ◌≡◌, u32_mod, arith}
use orbit_rtos.Kernel.{Sys}
use orbit_rtos.Context.{context_enter_critical, context_exit_critical}

-- Inside a critical section the simulated interrupts are off, and the counter has room.
pub record IsNested (s : Sys) : Type 0 where
  pub has_room : s.critical.section_count + 1 < u32_mod
  pub masked : 0 < s.critical.section_count → s.critical.prev_intr_state ≡ 1

-- Critical sections nest: context_exit_critical with the state that context_enter_critical gave
-- undoes it, if the counter has room and the simulated interrupts are off inside a section.
pub exit-enter :
    (s : Sys)
    → IsNested s
    → let (s', prev) = context_enter_critical s in context_exit_critical prev s' ≡ s
unfolding context_enter_critical context_exit_critical
exit-enter s v = ground arith

pub enter-IsNested :
    (s : Sys)
    → IsNested s
    → s.critical.section_count + 2 < u32_mod
    → IsNested (context_enter_critical s).0
unfolding context_enter_critical
enter-IsNested s v h = ground arith
