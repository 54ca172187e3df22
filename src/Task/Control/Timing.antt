-- ===== src/Task/Control/Timing.antt =====
-- task_set_periodic, and the releases that the tick computes from it.
use orbit_rtos.Base.{
  ℕ, zero, suc, ◌+◌, ◌*◌, ◌%◌, ◌<◌, ◌≡◌, refl, ◌==◌, ltb, if◌then◌else◌, some, add32, u32_mod,
  Bool-cases, inl, inr, update, arith, ap,
}
use orbit_rtos.Kernel.{Sys, Task, success, failure}
use orbit_rtos.Scheduler.Tick.{next_job}
use orbit_rtos.Task.Control.{make_periodic, task_set_periodic}

-- The task after the releases of `n` jobs.
pub after_jobs : ℕ → Task → Task
after_jobs zero t = t
after_jobs (suc n) t = next_job (after_jobs n t)

after_jobs-state : (n : ℕ) (t : Task) → (after_jobs n t).state ≡ t.state
unfolding after_jobs
after_jobs-state zero t = refl
after_jobs-state (suc n) t = after_jobs-state n t

add_period :
    (now period n : ℕ)
    → add32 ((now + (n + 1) * period) % u32_mod) period ≡ (now + (suc n + 1) * period) % u32_mod
add_period now period n = grind arith

after_jobs-fields :
    (now period deadline n : ℕ) (t : Task)
    → let d = if ltb 0 deadline then deadline else period in
      let v = after_jobs n (make_periodic now period deadline t) in
      (v.period ≡ period)
      × (v.deadline ≡ d)
      × (v.next_release ≡ (now + (n + 1) * period) % u32_mod)
      × (v.absolute_deadline ≡ add32 v.next_release d)
unfolding after_jobs
after_jobs-fields now period deadline zero t = (refl, refl, ground arith, refl)
after_jobs-fields now period deadline (suc n) t =
    let h = after_jobs-fields now period deadline n t in
    let v = after_jobs n (make_periodic now period deadline t) in
    (
      h.0,
      h.1,
      rw (h.0, h.2) (add_period now period n),
      ap (add32 (add32 v.next_release v.period)) h.1,
    )

-- With a period, task_set_periodic succeeds, and the release after `n` jobs is due n + 1 periods
-- later, modulo 2^32, with its deadline the given one, or the period if that is 0, after it; the
-- task keeps its state. Without a period it fails and changes nothing.
pub set_periodic-releases :
    (s : Sys) (t period deadline : ℕ)
    → let (s', r) = task_set_periodic (some t) period deadline s in
      (period ≡ 0 → (s' ≡ s) × (r ≡ failure))
      × (0 < period
          → (r ≡ success)
            × ((n : ℕ)
                → let v = after_jobs n (s'.heap t) in
                  (v.next_release ≡ (s.clock + (n + 1) * period) % u32_mod)
                  × (v.absolute_deadline
                      ≡ add32 v.next_release (if ltb 0 deadline then deadline else period))
                  × (v.state ≡ (s.heap t).state)))
unfolding task_set_periodic
set_periodic-releases s t period deadline = elim (Bool-cases (period == 0)) [
  | inl empty ↦ rw empty (λ h. (refl, refl), λ h. absurd (ground arith))
  | inr periodic ↦ rw periodic (
    λ h. absurd (ground arith),
    λ h. (
      refl,
      λ n.
          let v = make_periodic s.clock period deadline (s.heap t) in
          let same : (update s.heap t v) t ≡ v = ground arith in
          let f = after_jobs-fields s.clock period deadline n (s.heap t) in
          rw same (f.2, f.3, after_jobs-state n v),
    ),
  )
]
