-- ===== src/Scheduler/Tick/Deadlines.antt =====
-- scheduler_check_deadlines: what it returns and what it counts.
use orbit_rtos.Base.{
  ℕ, zero, suc, ◌+◌, ◌<◌, ◌≤◌, ◌≡◌, refl, ◌∙◌, sym, ap, ◌==◌, if◌then◌else◌, Option, none, some,
  add32, u32_mod, arith, to_nat, ◌%◌,
}
use orbit_rtos.Kernel.{Sys, Policy, by_priority, other, max_tasks, success, failure}
use orbit_rtos.Scheduler.Tick.{
  Round, is_late, add_miss, check_slot, check_slots, scheduler_check_deadlines,
  scheduler_set_policy, scheduler_get_policy,
}

-- The slot holds a task with a missed deadline.
abbrev late_slot : Sys → Option ℕ → ℕ
late_slot s none = 0
late_slot s (some t) = to_nat (is_late s t)

-- The missed deadlines among the `k` slots from `i` on.
pub late : Sys → (k i : ℕ) → ℕ
late s zero i = 0
late s (suc k) i = late_slot s (s.table.slots i) + late s k (i + 1)

-- Nothing that the loop reads differs.
abbrev Agrees : (s s' : Sys) → Type 0
Agrees s s' =
    (s'.table ≡ s.table)
    × (s'.sched.stats.deadline_misses ≡ s'.sched.stats.deadline_misses)
    × ((t : ℕ) → is_late s' t ≡ is_late s t)

check_slot_lem :
    (o : Option ℕ) (x : Round)
    → let y = check_slot o x in
      (y.0.table ≡ x.0.table)
      × ((t : ℕ) → is_late y.0 t ≡ is_late x.0 t)
      × (y.1 ≡ x.1 + late_slot x.0 o)
      × (y.0.sched.stats.deadline_misses ≡ (
          if late_slot x.0 o == 0
          then x.0.sched.stats.deadline_misses
          else add32 x.0.sched.stats.deadline_misses 1))
      × (y.0.sched.ready_lists ≡ x.0.sched.ready_lists)
unfolding check_slot add_miss
check_slot_lem none (s, n) = (refl, λ t. refl, omega arith, refl, refl)
check_slot_lem (some t) (s, n) =
    (ground arith, λ u. ground arith, ground arith, ground arith, ground arith)

late_slot-cong :
    (s s' : Sys)
    → ((t : ℕ) → is_late s' t ≡ is_late s t)
    → (o : Option ℕ) → late_slot s' o ≡ late_slot s o
late_slot-cong s s' h none = refl
late_slot-cong s s' h (some t) = ap to_nat (h t)

late-cong :
    (s s' : Sys)
    → s'.table ≡ s.table
    → ((t : ℕ) → is_late s' t ≡ is_late s t)
    → (k i : ℕ) → late s' k i ≡ late s k i
unfolding late
late-cong s s' q h zero i = refl
late-cong s s' q h (suc k) i = ground (
  arith,
  late-cong s s' q h k (i + 1),
  late_slot-cong s s' h (s.table.slots i),
  ap (λ x. late_slot s' (x.slots i)) q,
)

late_slot-le : (s : Sys) (o : Option ℕ) → late_slot s o ≤ 1
late_slot-le s none = omega arith
late_slot-le s (some t) = ground arith

check_slots_lem :
    (k i : ℕ) (x : Round)
    → x.0.sched.stats.deadline_misses < u32_mod
    → let y = check_slots k i x in
      (y.1 ≡ x.1 + late x.0 k i)
      × (y.0.sched.stats.deadline_misses
          ≡ (x.0.sched.stats.deadline_misses + late x.0 k i) % u32_mod)
      × (y.0.sched.ready_lists ≡ x.0.sched.ready_lists)
unfolding check_slots late
check_slots_lem zero i x h = (omega arith, ground arith, refl)
check_slots_lem (suc k) i x h =
    let o = x.0.table.slots i in
    let c = check_slot_lem o x in
    let rest = check_slots_lem k (i + 1) (check_slot o x) (ground arith) in
    let same = late-cong x.0 (check_slot o x).0 c.0 c.1 k (i + 1) in
    (
      ground (arith, rest, same, c.2),
      ground (arith, rest.1, same, c.3, late_slot-le x.0 o),
      rest.2 ∙ c.4,
    )

-- scheduler_check_deadlines, with a count of misses below 2^32, returns the number of the slots
-- whose task has a period, a deadline that is not 0 and in the past, and has not terminated, adds
-- it to the scheduler's count of misses modulo 2^32, and changes no ready list.
pub check_deadlines-late :
    (s : Sys)
    → s.sched.stats.deadline_misses < u32_mod
    → let (s', n) = scheduler_check_deadlines s in
      (n ≡ late s max_tasks 0)
      × (s'.sched.stats.deadline_misses ≡ (s.sched.stats.deadline_misses + n) % u32_mod)
      × (s'.sched.ready_lists ≡ s.sched.ready_lists)
unfolding scheduler_check_deadlines
check_deadlines-late s h =
    let c = check_slots_lem max_tasks 0 (s, 0) h in
    let n_late : (check_slots max_tasks 0 (s, 0)).1 ≡ late s max_tasks 0 = omega (arith, c.0) in
    (n_late, c.1 ∙ ap (λ n. (s.sched.stats.deadline_misses + n) % u32_mod) (sym n_late), c.2)

-- A policy that scheduler_set_policy takes is the one that scheduler_get_policy gives, and when
-- the call fails nothing changes.
pub get_policy-set_policy :
    (p : Policy) (s : Sys)
    → ((scheduler_set_policy p s).1 ≡ success
        → scheduler_get_policy (scheduler_set_policy p s).0 ≡ p)
      × ((scheduler_set_policy p s).1 ≡ failure → (scheduler_set_policy p s).0 ≡ s)
unfolding scheduler_set_policy scheduler_get_policy
get_policy-set_policy (other n) s = (λ h. cc, λ h. refl)
get_policy-set_policy by_priority s = (λ h. refl, λ h. cc)
get_policy-set_policy p s = (λ h. refl, λ h. cc)
