-- ===== src/Scheduler/Select/Turns.antt =====
-- scheduler_get_next_task under round robin, time after time: the same task has every turn.
use orbit_rtos.Base.{
  refl, sym, ℕ, zero, suc, ◌<◌, ◌≡◌, ◌∙◌, ap, inl, inr, some, List, [], ◌∷◌, ◌++◌, lt-cases, arith,
}
use orbit_rtos.Kernel.{Sys, Env, success, round_robin, max_priority_levels}
use orbit_rtos.Kernel.Lists.{RefusesTasks}
use orbit_rtos.Scheduler.Select.{count_invocation, scheduler_get_next_task}
use orbit_rtos.Scheduler.Select.Choice.{IsHighest}
use orbit_rtos.Scheduler.Select.Policies.{get_next_task_round_robin}

-- Under round robin and with the scheduler not locked, `l` is the first ready list that is not empty.
pub record InTurn (q : ℕ) (l : List ℕ) (s : Sys) : Type 0 where
  pub policy : s.sched.current_policy ≡ round_robin
  pub unlocked : s.sched.lock_count ≡ 0
  pub in_range : q < max_priority_levels
  pub here : s.sched.ready_lists q ≡ l
  pub above : (p : ℕ) → p < q → s.sched.ready_lists p ≡ []

-- The state after `k` calls.
pub calls : Env → ℕ → Sys → Sys
calls e zero s = s
calls e (suc k) s = calls e k (scheduler_get_next_task e s).0

same_level :
    (lists : ℕ → List ℕ) (q q' x t : ℕ) (xs : List ℕ)
    → lists q ≡ x ∷ xs
    → ((p : ℕ) → p < q → lists p ≡ [])
    → (h : IsHighest lists q' t) → (q' ≡ q) × (t ≡ x) × (h.rest ≡ xs)
same_level lists q q' x t xs here above h = elim (lt-cases q q') [
  | inl less ↦ ground (arith, h.above q)
  | inr (inl more) ↦ ground (arith, h.at_head, above q')
  | inr (inr same) ↦ ground (arith, h.at_head)
]

turn :
    (e : Env) (q x : ℕ) (xs : List ℕ) (s : Sys)
    → RefusesTasks e
    → ((l : List ℕ) (t : ℕ) → e.list_append l t ≡ (l ++ t ∷ [], success))
    → InTurn q (x ∷ xs) s
    → let (s', r) = scheduler_get_next_task e s in (r ≡ some x) × InTurn q (x ∷ (xs ++ x ∷ [])) s'
unfolding count_invocation
turn e q x xs s refuses appends v = elim (get_next_task_round_robin e s v.unlocked v.policy) [
  | inl (all, same, r) ↦ ground (arith, all q v.in_range, v.here)
  | inr (q', t, h, s_eq, r) ↦
      let (level, first, rest) = same_level s.sched.ready_lists q q' x t xs v.here v.above h in
      (
        r ∙ ap some first,
        rw s_eq (record {
          policy = v.policy;
          unlocked = v.unlocked;
          in_range = v.in_range;
          here = ground (arith, refuses (t ∷ h.rest) t, appends (t ∷ h.rest) t);
          above = λ p less. ground (arith, v.above p);
        }),
      )
]

unfoldable pub copies : ℕ → ℕ → List ℕ
copies zero x = []
copies (suc k) x = x ∷ copies k x

append-nil : (l : List ℕ) → l ++ [] ≡ l
append-nil [] = refl
append-nil (y ∷ l) = ap (λ m. y ∷ m) (append-nil l)

copies-append : (k x : ℕ) (l : List ℕ) → (l ++ x ∷ []) ++ copies k x ≡ l ++ copies (suc k) x
unfolding copies
copies-append k x [] = refl
copies-append k x (y ∷ l) = ap (λ m. y ∷ m) (copies-append k x l)

-- Under round robin, with the scheduler not locked, memory for list_append, and a list_remove that
-- refuses the task_t it is passed as a node: every call of scheduler_get_next_task returns the
-- head of the first ready list that is not empty, so that no other task of that list has a turn,
-- and after `k` calls the list has grown by `k` more entries for that task.
pub get_next_task-calls :
    (e : Env) (q k x : ℕ) (xs : List ℕ) (s : Sys)
    → RefusesTasks e
    → ((l : List ℕ) (t : ℕ) → e.list_append l t ≡ (l ++ t ∷ [], success))
    → InTurn q (x ∷ xs) s
    → ((scheduler_get_next_task e (calls e k s)).1 ≡ some x)
      × ((calls e k s).sched.ready_lists q ≡ x ∷ (xs ++ copies k x))
unfolding calls copies
get_next_task-calls e q zero x xs s refuses appends v =
    ((turn e q x xs s refuses appends v).0, v.here ∙ ap (λ l. x ∷ l) (sym (append-nil xs)))
get_next_task-calls e q (suc k) x xs s refuses appends v =
    let later =
      get_next_task-calls e q k x (xs ++ x ∷ []) (scheduler_get_next_task e s).0 refuses appends
        (turn e q x xs s refuses appends v).1 in
    (later.0, later.1 ∙ ap (λ l. x ∷ l) (copies-append k x xs))
