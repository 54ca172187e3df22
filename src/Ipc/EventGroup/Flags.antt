-- ===== src/Ipc/EventGroup/Flags.antt =====
-- event_group_set_flags, event_group_clear_flags and event_group_wait: the flags, and who gets them.
use orbit_rtos.Base.{
  ℕ, zero, suc, ◌/◌, ◌<◌, ◌≡◌, ◌≢◌, refl, Bool, true, false, ◌∙◌, ap, sym, subst, not, ◌==◌, ◌&&◌,
  if◌then◌else◌, Option, none, some, List, [], ◌∷◌, length, contains, arith,
}
use Prim.Native.Nat.{bit_and, bit_or, min, digits, bit_and-bitwise}
use orbit_rtos.Kernel.{Sys, Env, Task, ready, blocked, ◌is◌}
use orbit_rtos.Context.{context_enter_critical, context_exit_critical}
use orbit_rtos.Context.Critical.{IsNested}
use orbit_rtos.Scheduler.Switch.{scheduler_context_switch}
use orbit_rtos.Ipc.Objects.Links.{IsLinked}
use orbit_rtos.Ipc.EventGroup.{
  set_flags, condition_met, flags_after, visit_waiting, finish_set, event_group_set_flags,
  event_group_wait,
}
use orbit_rtos.Ipc.EventGroup.Scan.{scan, first}
use orbit_rtos.Ipc.EventGroup.Rounds.{words, Scanned, visit_waiting-scan}

IsLinked-first :
    (heap : ℕ → Task) (b o : Option ℕ) (ts : List ℕ) → IsLinked heap b o ts → o ≡ first ts
unfolding IsLinked
IsLinked-first heap b o [] h = h
IsLinked-first heap b o (t ∷ ts) h = h.0

-- event_group_set_flags on a group whose waiting list is linked, with rounds enough for it: the
-- waiting tasks get, from the first one on, what those before them left of the old and the new
-- flags. Those that are woken leave the list and are ready if they were blocked; the others stay,
-- linked, and keep their states. The previous flags are returned, and control is given up if the
-- flags are not the previous ones in the end.
pub set_flags-scan :
    (e : Env) (fuel i flags : ℕ) (ts : List ℕ) (s : Sys)
    → IsLinked s.heap none (s.ipc.event_groups i).waiting_tasks ts
    → length ts < fuel
    → let previous = (s.ipc.event_groups i).flags in
      let (kept, left, woken) = scan (words e s) ts (bit_or previous flags) in
      (s' : Sys) × (event_group_set_flags e fuel (some i) flags s
        ≡ some (if previous == left then s' else (scheduler_context_switch e s').0, previous))
      × ((s'.ipc.event_groups i).flags ≡ left)
      × IsLinked s'.heap none (s'.ipc.event_groups i).waiting_tasks kept
      × ((u : ℕ)
          → (s'.heap u).state
            ≡ (if contains u woken && (s.heap u).state is blocked then ready else (s.heap u).state))
unfolding event_group_set_flags finish_set context_enter_critical context_exit_critical
set_flags-scan e fuel i flags ts s h enough =
    let (s1, prev) = context_enter_critical s in
    let previous = (s.ipc.event_groups i).flags in
    let s2 = set_flags s1 i (bit_or previous flags) in
    let head : (s2.ipc.event_groups i).waiting_tasks ≡ (s.ipc.event_groups i).waiting_tasks =
      ground arith in
    let now : (s2.ipc.event_groups i).flags ≡ bit_or previous flags = ground arith in
    let h2 : IsLinked s2.heap none (s2.ipc.event_groups i).waiting_tasks ts =
      subst (λ o. IsLinked s.heap none o ts) (sym head) h in
    let (s3, r, v) =
      visit_waiting-scan e i fuel (s2.ipc.event_groups i).waiting_tasks [] ts s2 h2
        (IsLinked-first s.heap none _ ts h2) enough in
    let v' : Scanned i (scan (words e s) ts (bit_or previous flags)) [] s2 s3 =
      subst (λ f. Scanned i (scan (words e s) ts f) [] s2 s3) now v in
    (
      context_exit_critical prev s3,
      ap (finish_set e i prev previous) r ∙ ground (arith, v'.flags_lem),
      v'.flags_lem,
      v'.linked,
      v'.states,
    )

-- EVENT_WAIT_ALL is 0: no options ask for all flags.
digits-zero : (n a : ℕ) → digits (λ b. zero) min n a 0 ≡ 0
digits-zero zero a = refl
digits-zero (suc n) zero = refl
digits-zero (suc n) (suc a) = omega (arith, digits-zero n (suc a / 2))

pub bit_and-zero : (a : ℕ) → bit_and a 0 ≡ 0
bit_and-zero a = bit_and-bitwise a 0 ∙ digits-zero a a

-- A task that waits gets what it waits for as soon as one of the flags is there, whatever its options
-- are: the test for all flags is never made.
pub condition_met-any :
    (options flags wait : ℕ) → condition_met options flags wait ≡ not (bit_and flags wait == 0)
unfolding condition_met
condition_met-any options flags wait = rw (bit_and-zero options) refl

-- event_group_wait without waiting, for one flag or more, in critical sections that nest: if none
-- of the flags is there, it returns 0 and changes nothing; otherwise it returns those that are
-- there, whatever the options are, and takes all of them away if the options have EVENT_CLEAR.
pub wait_lem :
    (e : Env) (i flags options : ℕ) (s : Sys)
    → IsNested s
    → flags ≢ 0
    → let now = (s.ipc.event_groups i).flags in
      event_group_wait e (some i) flags options 0 s ≡ (
        if bit_and now flags == 0
        then (s, 0)
        else (set_flags s i (flags_after options now flags), bit_and now flags))
unfolding event_group_wait context_enter_critical context_exit_critical
wait_lem e i flags options s v ne =
    ground (arith, condition_met-any options (s.ipc.event_groups i).flags flags, v)

both_some :
    (b : Bool) (x y : Sys) (n : ℕ)
    → ◌≡◌ {A = Option (Sys × ℕ)}
        (if b then some (x, n) else some (y, n))
        (some (if b then x else y, n))
both_some true x y n = refl
both_some false x y n = refl

-- Without waiting tasks, and with at least one round, the flags are set and nobody is woken.
pub set_flags-alone :
    (e : Env) (fuel i flags : ℕ) (s : Sys)
    → IsNested s
    → (s.ipc.event_groups i).waiting_tasks ≡ none
    → let previous = (s.ipc.event_groups i).flags in
      let s' = set_flags s i (bit_or previous flags) in
      event_group_set_flags e (suc fuel) (some i) flags s
      ≡ some (
        if previous == bit_or previous flags then s' else (scheduler_context_switch e s').0,
        previous,
      )
unfolding event_group_set_flags visit_waiting finish_set context_enter_critical
    context_exit_critical
set_flags-alone e fuel i flags s v alone =
    let (s1, prev) = context_enter_critical s in
    let previous = (s.ipc.event_groups i).flags in
    let left = bit_or previous flags in
    let s2 = set_flags s1 i left in
    let empty : (s2.ipc.event_groups i).waiting_tasks ≡ none = ground (arith, alone) in
    let back : context_exit_critical prev s2 ≡ set_flags s i left = ground (arith, v) in
    let now : ((set_flags s i left).ipc.event_groups i).flags ≡ left = ground arith in
    ap (λ o. finish_set e i prev previous (visit_waiting e i (suc fuel) o s2)) empty
    ∙ both_some (previous == ((context_exit_critical prev s2).ipc.event_groups i).flags) _ _
        previous
    ∙ ap
        (λ x. some (
          if previous == (x.ipc.event_groups i).flags then x else (scheduler_context_switch e x).0,
          previous,
        ))
        back
    ∙ ap
        (λ f. some (
          if previous == f
              then set_flags s i left
              else (scheduler_context_switch e (set_flags s i left)).0,
          previous,
        ))
        now
