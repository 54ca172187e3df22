-- ===== src/Calls/Tasks.antt =====
-- The calls that change the state of a task keep the scheduler consistent.
use orbit_rtos.Base.{
  ℕ, ◌≡◌, refl, inl, inr, false, Option, none, some, Bool-cases, ◌==◌, leb, if◌then◌else◌, is_ref,
  arith,
}
use orbit_rtos.Kernel.{
  Sys, Env, BlockReason, delay, BlockObject, null, Status, success, failure, ready, blocked,
  suspended, ◌is◌, set_task, return_success, ◌>>=◌,
}
use orbit_rtos.Scheduler.Blocking.{scheduler_block_task}
use orbit_rtos.Scheduler.Switch.{scheduler_context_switch}
use orbit_rtos.Scheduler.Switch.Running.{IsConsistent}
use orbit_rtos.Scheduler.Switch.Rely.{Rely, context_switch-IsConsistent}
use orbit_rtos.Scheduler.Tick.Consistency.{set_task-IsConsistent}
use orbit_rtos.Task.Control.{
  task_yield, task_suspend, task_resume, sleep_until, delay_current, task_delay,
  delay_current_until, task_delay_until, write_task_state,
}
use orbit_rtos.Task.Control.Priorities.{same_state}

block-frame :
    (e : Env) (s : Sys) (t : ℕ) (cause : BlockReason) (object : BlockObject) (u : ℕ)
    → is_ref s.table.idle_task t ≡ false
    → let s' = (scheduler_block_task e (some t) cause object s).0 in
      ((s'.heap u).state ≡ (if t == u then blocked else (s.heap u).state)) × (s'.table ≡ s.table)
unfolding scheduler_block_task
block-frame e s t cause object u other = (ground arith, ground arith)

-- Any task but the idle one may be blocked or suspended.
block-IsConsistent :
    (e : Env) (s : Sys) (t : ℕ) (cause : BlockReason) (object : BlockObject)
    → is_ref s.table.idle_task t ≡ false
    → IsConsistent s
    → IsConsistent (scheduler_block_task e (some t) cause object s).0
block-IsConsistent e s t cause object other c = record {
  idle_ready = λ i h. ground (arith, block-frame e s t cause object i other, c.idle_ready i);
  only_current = λ u h. ground (arith, block-frame e s t cause object u other, c.only_current u);
}

suspended-IsConsistent :
    (s : Sys) (t : ℕ)
    → is_ref s.table.idle_task t ≡ false
    → IsConsistent s
    → IsConsistent (write_task_state s t suspended)
suspended-IsConsistent s t other c = record {
  idle_ready = λ i h. ground (arith, c.idle_ready i);
  only_current = λ u h. ground (arith, c.only_current u);
}

readied-IsConsistent :
    (s : Sys) (t : ℕ) → IsConsistent s → IsConsistent (write_task_state s t ready)
readied-IsConsistent s t c = record {
  idle_ready = λ i h. ground (arith, c.idle_ready i);
  only_current = λ u h. ground (arith, c.only_current u);
}

module _ (e : Env) (rely : Rely e) where
  sleep_until-IsConsistent :
      (c wake : ℕ) (s : Sys)
      → is_ref s.table.idle_task c ≡ false
      → IsConsistent s
      → IsConsistent (sleep_until e c wake s).0
  unfolding sleep_until
  sleep_until-IsConsistent c wake s other v =
      let s' = set_task s c (record (s.heap c) { delay_until = wake }) in
      slept (scheduler_block_task e (some c) delay null s')
        (block-IsConsistent e s' c delay null other (set_task-IsConsistent s c _ refl v))
    where
      slept :
          (m : Sys × Status)
          → IsConsistent m.0
          → IsConsistent (m >>= (λ s. return_success (scheduler_context_switch e s))).0
      slept (s', success) v' = context_switch-IsConsistent e rely s' v'
      slept (s', failure) v' = v'

  yield-IsConsistent : (s : Sys) → IsConsistent s → IsConsistent (task_yield e s)
  unfolding task_yield
  yield-IsConsistent s v = context_switch-IsConsistent e rely s v

  delay_current-IsConsistent :
      (o : Option ℕ) (ticks : ℕ) (s : Sys)
      → IsConsistent s
      → IsConsistent (delay_current e o ticks s).0
  unfolding delay_current
  delay_current-IsConsistent none ticks s v = v
  delay_current-IsConsistent (some c) ticks s v = elim (Bool-cases (is_ref s.table.idle_task c)) [
    | inl idle ↦ rw idle v
    | inr other ↦ elim (Bool-cases (ticks == 0)) [
      | inl now ↦ rw (other, now) (yield-IsConsistent s v)
      | inr later ↦ rw (other, later) (sleep_until-IsConsistent c _ s other v)
    ]
  ]

  pub delay-IsConsistent :
      (ticks : ℕ) (s : Sys) → IsConsistent s → IsConsistent (task_delay e ticks s).0
  unfolding task_delay
  delay-IsConsistent ticks s v = delay_current-IsConsistent s.table.current_task ticks s v

  delay_current_until-IsConsistent :
      (o : Option ℕ) (tick_value : ℕ) (s : Sys)
      → IsConsistent s
      → IsConsistent (delay_current_until e o tick_value s).0
  unfolding delay_current_until
  delay_current_until-IsConsistent none tick_value s v = v
  delay_current_until-IsConsistent (some c) tick_value s v =
      elim (Bool-cases (is_ref s.table.idle_task c)) [
        | inl idle ↦ rw idle v
        | inr other ↦ elim (Bool-cases (leb tick_value s.clock)) [
          | inl past ↦ rw (other, past) (yield-IsConsistent s v)
          | inr later ↦ rw (other, later) (sleep_until-IsConsistent c tick_value s other v)
        ]
      ]

  pub delay_until-IsConsistent :
      (tick_value : ℕ) (s : Sys) → IsConsistent s → IsConsistent (task_delay_until e tick_value s).0
  unfolding task_delay_until
  delay_until-IsConsistent tick_value s v =
      delay_current_until-IsConsistent s.table.current_task tick_value s v

  pub suspend-IsConsistent :
      (o : Option ℕ) (s : Sys) → IsConsistent s → IsConsistent (task_suspend e o s).0
  unfolding task_suspend
  suspend-IsConsistent none s v = v
  suspend-IsConsistent (some t) s v = elim (Bool-cases (is_ref s.table.idle_task t)) [
    | inl idle ↦ rw idle v
    | inr other ↦
        let s' = write_task_state s t suspended in
        let v' = suspended-IsConsistent s t other v in
        elim (Bool-cases (is_ref s.table.current_task t)) [
          | inl self ↦
              rw (other, same_state e t suspended s' (ground arith), self)
                (yield-IsConsistent s' v')
          | inr another ↦ rw (other, same_state e t suspended s' (ground arith), another) v'
        ]
  ]

  pub resume-IsConsistent :
      (o : Option ℕ) (s : Sys) → IsConsistent s → IsConsistent (task_resume e o s).0
  unfolding task_resume
  resume-IsConsistent none s v = v
  resume-IsConsistent (some t) s v = elim (Bool-cases ((s.heap t).state is suspended)) [
    | inl held ↦
        rw (held, same_state e t ready (write_task_state s t ready) (ground arith))
          (readied-IsConsistent s t v)
    | inr free ↦ rw free v
  ]
