-- ===== src/Task/Control/Delays.antt =====
-- task_delay and task_delay_until.
use orbit_rtos.Base.{ℕ, ◌+◌, ◌<◌, ◌≡◌, refl, ◌==◌, leb, Option, none, some, add32, u32_mod, arith}
use orbit_rtos.Kernel.{Sys, Env}
use orbit_rtos.Task.Control.{delay_current, task_delay, delay_current_until, task_delay_until}

delay_current-until :
    (e : Env) (o : Option ℕ) (n : ℕ) (s : Sys)
    → s.clock + n < u32_mod
    → delay_current e o n s ≡ delay_current_until e o (s.clock + n) s
unfolding delay_current delay_current_until
delay_current-until e none n s l = refl
delay_current-until e (some c) n s l =
    let same : add32 s.clock n ≡ s.clock + n = omega arith in
    let guard : (n == 0) ≡ leb (s.clock + n) s.clock = ground arith in rw (same, guard) refl

-- task_delay for a number of ticks does what task_delay_until does for the tick that is so many
-- ticks away, if the clock does not pass 2^32 until then.
pub delay-until :
    (e : Env) (n : ℕ) (s : Sys)
    → s.clock + n < u32_mod
    → task_delay e n s ≡ task_delay_until e (s.clock + n) s
unfolding task_delay task_delay_until
delay-until e n s l = delay_current-until e s.table.current_task n s l
