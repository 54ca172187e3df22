-- ===== src/Ipc/Objects/Chains.antt =====
-- The linked list of waiting tasks: what it says, and that the loop which wakes them all ends.
use orbit_rtos.Base.{
  ℕ, zero, suc, ◌+◌, ◌<◌, ◌≤◌, ◌≡◌, refl, ◌∙◌, sym, subst, inl, inr, Bool, true, false, ◌==◌, ◌&&◌,
  if◌then◌else◌, Option, none, some, List, [], ◌∷◌, contains, length, arith, Bool-cases, eq-or-lt,
}
use orbit_rtos.Kernel.{Sys, Env, Task, ready, blocked, ◌is◌}
use orbit_rtos.Scheduler.Blocking.{scheduler_unblock_task}
use orbit_rtos.Ipc.Objects.{find_free, find_index, unblock_waiting}

-- From the pointer on, the next pointers lead through the tasks of the list, and then to NULL.
unfoldable pub IsChain : (heap : ℕ → Task) → Option ℕ → List ℕ → Type 0
IsChain heap o [] = o ≡ none
IsChain heap o (t ∷ ts) = (o ≡ some t) × IsChain heap (heap t).next ts

-- What waking a task does to the others.
unblock-links :
    (e : Env) (s : Sys) (t u : ℕ)
    → let s' = (scheduler_unblock_task e (some t) s).0 in
      ((s'.heap u).next ≡ (s.heap u).next)
      × ((s'.heap u).state
          ≡ (if (t == u) && (s.heap u).state is blocked then ready else (s.heap u).state))
      × (s'.ipc ≡ s.ipc)
unfolding scheduler_unblock_task
unblock-links e s t u = (ground arith, ground arith, ground arith)

unblock-IsChain :
    (e : Env) (s : Sys) (t : ℕ) (o : Option ℕ) (ts : List ℕ)
    → IsChain s.heap o ts
    → IsChain (scheduler_unblock_task e (some t) s).0.heap o ts
unfolding IsChain
unblock-IsChain e s t o [] h = h
unblock-IsChain e s t o (u ∷ ts) (q, h) = (
  q,
  subst (λ n. IsChain (scheduler_unblock_task e (some t) s).0.heap n ts)
      (sym (unblock-links e s t u).0) (unblock-IsChain e s t (s.heap u).next ts h),
)

-- Rounds for one more than the waiting tasks are enough. Then every blocked task of the chain is
-- ready, and every other task has the state it had.
pub unblock_waiting_lem :
    (e : Env) (fuel : ℕ) (o : Option ℕ) (ts : List ℕ) (s : Sys)
    → IsChain s.heap o ts
    → length ts < fuel
    → (s' : Sys) × (unblock_waiting e fuel o s ≡ some s')
      × ((u : ℕ)
          → (s'.heap u).state
            ≡ (if contains u ts && (s.heap u).state is blocked then ready else (s.heap u).state))
      × (s'.ipc ≡ s.ipc)
unfolding unblock_waiting IsChain contains
unblock_waiting_lem e zero o ts s h enough = absurd (omega arith)
unblock_waiting_lem e (suc fuel) o [] s h enough =
    (s, subst (λ x. unblock_waiting e (suc fuel) x s ≡ some s) (sym h) refl, λ u. refl, refl)
unblock_waiting_lem e (suc fuel) o (t ∷ ts) s (q, h) enough =
    let s1 = (scheduler_unblock_task e (some t) s).0 in
    let (s', r, states, kept) =
      unblock_waiting_lem e fuel (s.heap t).next ts s1 (unblock-IsChain e s t (s.heap t).next ts h)
        (omega arith) in
    (
      s',
      subst (λ x. unblock_waiting e (suc fuel) x s ≡ some s') (sym q) r,
      λ u. ground (arith, states u, unblock-links e s t u),
      kept ∙ (unblock-links e s t t).2,
    )

-- The free slot that is found is unused, and if none is found all are used.
unfoldable pub FreeSlot : (ℕ → Bool) → (k i : ℕ) → Option ℕ → Type 0
FreeSlot in_use k i none = (j : ℕ) → i ≤ j → j < i + k → in_use j ≡ true
FreeSlot in_use k i (some j) = (i ≤ j) × (j < i + k) × (in_use j ≡ false)

FreeSlot-step :
    (in_use : ℕ → Bool) (k i : ℕ) (o : Option ℕ)
    → in_use i ≡ true
    → FreeSlot in_use k (i + 1) o
    → FreeSlot in_use (suc k) i o
unfolding FreeSlot
FreeSlot-step in_use k i none full f =
    λ j l u. elim (eq-or-lt i j l) [ inl here ↦ rw here full | inr later ↦ f j later (omega arith) ]
FreeSlot-step in_use k i (some j) full (l, u, free) = (omega arith, omega arith, free)

pub find_free_lem : (in_use : ℕ → Bool) (k i : ℕ) → FreeSlot in_use k i (find_free in_use k i)
unfolding find_free FreeSlot
find_free_lem in_use zero i = λ j l u. absurd (omega arith)
find_free_lem in_use (suc k) i = elim (Bool-cases (in_use i)) [
  | inr free ↦ rw free (omega arith, omega arith, free)
  | inl full ↦ rw full (FreeSlot-step in_use k i _ full (find_free_lem in_use k (i + 1)))
]

pub find_index_lem : (p k i : ℕ) → i ≤ p → p < i + k → find_index p k i ≡ some p
unfolding find_index
find_index_lem p zero i l u = absurd (omega arith)
find_index_lem p (suc k) i l u = ground (arith, find_index_lem p k (i + 1))
