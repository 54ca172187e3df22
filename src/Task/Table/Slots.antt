-- ===== src/Task/Table/Slots.antt =====
-- task_count is the number of used slots of task_list, also after tasks come and go.
use orbit_rtos.Base.{
  ℕ, zero, suc, ◌+◌, ◌-◌, ◌≤◌, ◌<◌, ◌≡◌, refl, inl, inr, Bool, true, false, ◌||◌, if◌then◌else◌,
  Option, none, some, is_some, is_ref, update, to_nat, add32, sub32, Bool-cases, subst, sym, arith,
}
use orbit_rtos.Kernel.{Sys, max_tasks}
use orbit_rtos.Task.Table.{store_task, clear_task, set_slots}

-- The used slots among the `k` from `i` on.
unfoldable pub used : (ℕ → Option ℕ) → (k i : ℕ) → ℕ
used slots zero i = 0
used slots (suc k) i = to_nat (is_some (slots i)) + used slots k (i + 1)

-- One of those slots holds `t`.
pub holds : (ℕ → Option ℕ) → ℕ → (k i : ℕ) → Bool
holds slots t zero i = false
holds slots t (suc k) i = is_ref (slots i) t || holds slots t k (i + 1)

used-update :
    (slots : ℕ → Option ℕ) (j : ℕ) (v : Option ℕ) (k i : ℕ)
    → j < i
    → used (update slots j v) k i ≡ used slots k i
unfolding used
used-update slots j v zero i h = refl
used-update slots j v (suc k) i h = ground (arith, used-update slots j v k (i + 1))

used-le : (slots : ℕ → Option ℕ) (k i : ℕ) → used slots k i ≤ k
unfolding used
used-le slots zero i = omega arith
used-le slots (suc k) i = ground (arith, used-le slots k (i + 1))

store-below :
    (t k i : ℕ) (s : Sys) (p : ℕ) → p < i → (store_task t k i s).table.slots p ≡ s.table.slots p
unfolding store_task
store-below t zero i s p h = refl
store-below t (suc k) i s p h = ground (arith, store-below t k (i + 1) s p)

store_full :
    (t k i : ℕ) (s : Sys)
    → is_some (s.table.slots i) ≡ true
    → store_task t (suc k) i s ≡ store_task t k (i + 1) s
unfolding store_task
store_full t k i s h = rw h

store_free :
    (t k i : ℕ) (s : Sys)
    → is_some (s.table.slots i) ≡ false
    → store_task t (suc k) i s
      ≡ set_slots s (update s.table.slots i (some t)) (add32 s.table.task_count 1)
unfolding store_task
store_free t k i s h = rw h

-- A free slot is found: the task is in a slot, and one more slot is used.
abbrev pub Stored : ℕ → (k i : ℕ) → (s s' : Sys) → Type 0
Stored t k i s s' =
    (used s'.table.slots k i ≡ used s.table.slots k i + 1)
    × (s'.table.task_count ≡ add32 s.table.task_count 1)
    × (holds s'.table.slots t k i ≡ true)

pub store_task_lem :
    (t k i : ℕ) (s : Sys) → used s.table.slots k i < k → Stored t k i s (store_task t k i s)
unfolding used holds
store_task_lem t zero i s h = absurd (omega arith)
store_task_lem t (suc k) i s h = elim (Bool-cases (is_some (s.table.slots i))) [
  | inl full ↦
      subst (Stored t (suc k) i s) (sym (store_full t k i s full))
        (ground (arith, store_task_lem t k (i + 1) s, store-below t k (i + 1) s i))
  | inr free ↦
      subst (Stored t (suc k) i s) (sym (store_free t k i s free))
        (ground (arith, used-update s.table.slots i (some t) k (i + 1)))
]

clear-below :
    (t k i : ℕ) (s : Sys) (p : ℕ) → p < i → (clear_task t k i s).table.slots p ≡ s.table.slots p
unfolding clear_task
clear-below t zero i s p h = refl
clear-below t (suc k) i s p h = ground (arith, clear-below t k (i + 1) s p)

clear_here :
    (t k i : ℕ) (s : Sys)
    → is_ref (s.table.slots i) t ≡ true
    → clear_task t (suc k) i s
      ≡ set_slots s (update s.table.slots i none) (sub32 s.table.task_count 1)
unfolding clear_task
clear_here t k i s h = rw h

clear_later :
    (t k i : ℕ) (s : Sys)
    → is_ref (s.table.slots i) t ≡ false
    → clear_task t (suc k) i s ≡ clear_task t k (i + 1) s
unfolding clear_task
clear_later t k i s h = rw h

clear_none : (t i : ℕ) (s : Sys) → (clear_task t zero i s).table.task_count ≡ s.table.task_count
unfolding clear_task
clear_none t i s = refl

-- If the task is in a slot, that slot becomes free.
abbrev pub Cleared : ℕ → (k i : ℕ) → (s s' : Sys) → Type 0
Cleared t k i s s' =
    let found = holds s.table.slots t k i in
    (used s'.table.slots k i ≡ used s.table.slots k i - to_nat found)
    × (s'.table.task_count ≡ (if found then sub32 s.table.task_count 1 else s.table.task_count))
    × (to_nat found ≤ used s.table.slots k i)

pub clear_task_lem : (t k i : ℕ) (s : Sys) → Cleared t k i s (clear_task t k i s)
unfolding used holds
clear_task_lem t zero i s = (omega arith, clear_none t i s, omega arith)
clear_task_lem t (suc k) i s = elim (Bool-cases (is_ref (s.table.slots i) t)) [
  | inl here ↦
      subst (Cleared t (suc k) i s) (sym (clear_here t k i s here))
        (ground (arith, used-update s.table.slots i none k (i + 1)))
  | inr later ↦
      subst (Cleared t (suc k) i s) (sym (clear_later t k i s later))
        (ground (arith, clear_task_lem t k (i + 1) s, clear-below t k (i + 1) s i))
]

-- task_count counts the used slots.
pub record IsCounted (s : Sys) : Type 0 where
  pub counted : s.table.task_count ≡ used s.table.slots max_tasks 0

-- A new task takes a free slot, which is there if the count is below the limit.
pub store_task-IsCounted :
    (t : ℕ) (s : Sys)
    → IsCounted s
    → s.table.task_count < max_tasks
    → IsCounted (store_task t max_tasks 0 s)
store_task-IsCounted t s v h = record {
  counted = omega (arith, store_task_lem t max_tasks 0 s (omega (arith, v.counted)), v.counted);
}

pub clear_task-IsCounted : (t : ℕ) (s : Sys) → IsCounted s → IsCounted (clear_task t max_tasks 0 s)
clear_task-IsCounted t s v = record {
  counted =
      ground (arith, clear_task_lem t max_tasks 0 s, v.counted, used-le s.table.slots max_tasks 0);
}
