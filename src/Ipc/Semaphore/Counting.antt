-- ===== src/Ipc/Semaphore/Counting.antt =====
-- Semaphores without waiting: creating, taking and giving.
use orbit_rtos.Base.{
  ℕ, ◌-◌, ◌≤◌, ◌<◌, ◌≡◌, ◌≢◌, refl, ◌∙◌, ap, fun_ext, true, false, Option, none, some, List, add32,
  u32_mod, arith,
}
use orbit_rtos.Kernel.{Sys, Env, success, max_semaphores}
use orbit_rtos.Context.{context_enter_critical, context_exit_critical}
use orbit_rtos.Context.Critical.{IsNested}
use orbit_rtos.Ipc.Objects.{set_ipc, find_free}
use orbit_rtos.Ipc.Objects.Chains.{FreeSlot, find_free_lem}
use orbit_rtos.Ipc.Semaphore.{
  set_semaphore, init_semaphore, semaphore_create, semaphore_take, semaphore_give,
  semaphore_get_count,
}

module _ (e : Env) (s : Sys) (i : ℕ) where
  abbrev with_count : ℕ → Sys
  with_count n = set_semaphore s i (record (s.ipc.semaphores i) { count = n })

  take_now :
      (timeout : ℕ)
      → IsNested s
      → 0 < (s.ipc.semaphores i).count
      → semaphore_take e (some i) timeout s ≡ (with_count ((s.ipc.semaphores i).count - 1), success)
  unfolding semaphore_take context_enter_critical context_exit_critical
  take_now timeout v h = ground arith

  give_now :
      IsNested s
      → (s.ipc.semaphores i).waiting_tasks ≡ none
      → (s.ipc.semaphores i).count < (s.ipc.semaphores i).max_count
      → semaphore_give e (some i) s ≡ (with_count (add32 (s.ipc.semaphores i).count 1), success)
  unfolding semaphore_give context_enter_critical context_exit_critical
  give_now v w h = rw w (ground arith)

-- Giving and then taking a semaphore that is below its maximum and has no waiting task, with any
-- timeout and in a properly nested critical section, succeeds and gives back the state from
-- before.
pub take-give :
    (e : Env) (s : Sys) (i timeout : ℕ)
    → IsNested s
    → (s.ipc.semaphores i).waiting_tasks ≡ none
    → (s.ipc.semaphores i).count < (s.ipc.semaphores i).max_count
    → (s.ipc.semaphores i).max_count < u32_mod
    → ((semaphore_give e (some i) s).1 ≡ success)
      × (semaphore_take e (some i) timeout (semaphore_give e (some i) s).0 ≡ (s, success))
take-give e s i timeout v w h bound =
    let n = (s.ipc.semaphores i).count in
    let s' = with_count e s i (add32 n 1) in
    let given = give_now e s i v w h in
    let v' : IsNested s' = record { has_room = v.has_room; masked = v.masked } in
    let back : with_count e s' i ((s'.ipc.semaphores i).count - 1) ≡ s =
      ap (λ f. set_ipc s (record (s.ipc) { semaphores = f })) (fun_ext (λ j. ground arith)) in
    (
      ap (λ x. x.1) given,
      rw given (take_now e s' i timeout v' (ground arith) ∙ ap (λ x. (x, success)) back),
    )

initialised :
    (name : List ℕ) (initial max : ℕ) (s : Sys) (o : Option ℕ)
    → FreeSlot s.ipc.semaphore_used max_semaphores 0 o
    → let (s', r) = init_semaphore name initial max o s in
      (r ≡ none → (s' ≡ s) × ((j : ℕ) → j < max_semaphores → s.ipc.semaphore_used j ≡ true))
      × ((i : ℕ)
          → r ≡ some i
          → (i < max_semaphores)
            × (s.ipc.semaphore_used i ≡ false)
            × (s'.ipc.semaphore_used i ≡ true)
            × ((semaphore_get_count (some i) s').1 ≡ initial)
            × ((j : ℕ) → j ≢ i → s'.ipc.semaphores j ≡ s.ipc.semaphores j))
unfolding FreeSlot semaphore_get_count context_enter_critical
initialised name initial max s none f =
    (λ q. (refl, λ j l. f j (omega arith) (omega arith)), λ i q. cc)
initialised name initial max s (some k) (l, u, free) =
    (λ q. cc, λ i q. (ground arith, ground arith, ground arith, ground arith, λ j ne. ground arith))

create_valid :
    (name : List ℕ) (initial max : ℕ) (s : Sys)
    → 0 < max
    → initial ≤ max
    → semaphore_create (some name) initial max s
      ≡ init_semaphore name initial max (find_free s.ipc.semaphore_used max_semaphores 0) s
unfolding semaphore_create
create_valid name initial max s h l = ground arith

-- semaphore_create with a name and an initial count that is at most the maximum, which is not 0,
-- takes an unused slot, whose count is the initial one, and touches no other semaphore, or returns
-- NULL and changes nothing if all 16 slots are used.
pub get_count-create :
    (name : List ℕ) (initial max : ℕ) (s : Sys)
    → 0 < max
    → initial ≤ max
    → let (s', o) = semaphore_create (some name) initial max s in
      (o ≡ none → (s' ≡ s) × ((j : ℕ) → j < max_semaphores → s.ipc.semaphore_used j ≡ true))
      × ((i : ℕ)
          → o ≡ some i
          → (i < max_semaphores)
            × (s.ipc.semaphore_used i ≡ false)
            × (s'.ipc.semaphore_used i ≡ true)
            × ((semaphore_get_count (some i) s').1 ≡ initial)
            × ((j : ℕ) → j ≢ i → s'.ipc.semaphores j ≡ s.ipc.semaphores j))
get_count-create name initial max s h l = rw (create_valid name initial max s h l) (
    initialised name initial max s (find_free s.ipc.semaphore_used max_semaphores 0)
      (find_free_lem s.ipc.semaphore_used max_semaphores 0))
