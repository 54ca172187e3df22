-- ===== src/Kernel/Lists.antt =====
-- What the kernel relies on of the linked lists of include/utils/list.h.
use orbit_rtos.Base.{ℕ, ◌≡◌, ◌⊎◌, false, List, [], ◌∷◌, ◌++◌, erase, contains}
use orbit_rtos.Kernel.{Env, success, failure}

-- With memory: list_init empties a list, list_append adds at the tail, and list_remove returns a
-- negative code and leaves the list as it is when it is asked to remove what the list does not hold.
pub record ListLaws (e : Env) : Type 0 where
  pub init_lem : (l : List ℕ) → e.list_init l ≡ ([], success)
  pub append_lem : (l : List ℕ) (t : ℕ) → e.list_append l t ≡ (l ++ t ∷ [], success)
  pub absent_lem : (l : List ℕ) (t : ℕ) → contains t l ≡ false → e.list_remove l t ≡ (l, failure)

-- With or without memory, and whether or not list_remove finds the task_t that the kernel passes it
-- as a node: a call returns 0 and has taken place, or returns a negative code and leaves the list.
pub record ListOutcomes (e : Env) : Type 0 where
  pub append_cases :
      (l : List ℕ) (t : ℕ)
      → (e.list_append l t ≡ (l ++ t ∷ [], success)) ⊎ (e.list_append l t ≡ (l, failure))
  pub remove_cases :
      (l : List ℕ) (t : ℕ)
      → (e.list_remove l t ≡ (erase t l, success)) ⊎ (e.list_remove l t ≡ (l, failure))

-- A task_t is not a node of any list, so that list_remove refuses one.
abbrev pub RefusesTasks : Env → Type 0
RefusesTasks e = (l : List ℕ) (t : ℕ) → e.list_remove l t ≡ (l, failure)
