-- ===== src/Task/Table/Names.antt =====
-- task_get_by_name finds the first slot whose task has the name.
use orbit_rtos.Base.{
  ℕ, zero, suc, ◌+◌, ◌≤◌, ◌<◌, ◌≡◌, refl, sym, subst, inl, inr, true, false, Option, none, some,
  List, [], ◌∷◌, Bool-cases, eq-or-lt, arith,
}
use orbit_rtos.Kernel.{Sys, max_tasks}
use orbit_rtos.Task.Table.{same_name, slot_named, find_name, task_get_by_name}

-- What a search over the `k` slots from `i` on gives: the task of the first slot that holds a task
-- with the name, or nothing if there is none.
pub FirstNamed : Sys → List ℕ → (k i : ℕ) → Option ℕ → Type 0
FirstNamed s name k i none =
    (j : ℕ) → i ≤ j → j < i + k → slot_named s name (s.table.slots j) ≡ false
FirstNamed s name k i (some t) =
    (j : ℕ) × (i ≤ j)
    × (j < i + k)
    × (s.table.slots j ≡ some t)
    × ((s.heap t).name ≡ name)
    × ((m : ℕ) → i ≤ m → m < j → slot_named s name (s.table.slots m) ≡ false)

same_name_lem : (xs ys : List ℕ) → same_name xs ys ≡ true → xs ≡ ys
unfolding same_name
same_name_lem [] [] h = refl
same_name_lem [] (y ∷ ys) h = cc
same_name_lem (x ∷ xs) [] h = cc
same_name_lem (x ∷ xs) (y ∷ ys) h = ground (arith, same_name_lem xs ys)

slot_named_lem :
    (s : Sys) (name : List ℕ) (o : Option ℕ)
    → slot_named s name o ≡ true
    → (t : ℕ) × (o ≡ some t) × ((s.heap t).name ≡ name)
slot_named_lem s name none h = cc
slot_named_lem s name (some t) h = (t, refl, same_name_lem (s.heap t).name name h)

-- The slots before a search from `i + 1` on, when slot `i` does not have the name.
FirstNamed-step :
    (s : Sys) (name : List ℕ) (k i : ℕ) (o : Option ℕ)
    → slot_named s name (s.table.slots i) ≡ false
    → FirstNamed s name k (i + 1) o
    → FirstNamed s name (suc k) i o
unfolding FirstNamed
FirstNamed-step s name k i none h f = λ j l u. elim (eq-or-lt i j l) [
  | inl here ↦ subst (λ x. slot_named s name (s.table.slots x) ≡ false) (sym here) h
  | inr later ↦ f j later (omega arith)
]
FirstNamed-step s name k i (some t) h f =
    let (j, l, u, q, n, before) = f in
    (
      j,
      omega arith,
      omega arith,
      q,
      n,
      λ m l' u'. elim (eq-or-lt i m l') [
        | inl here ↦ subst (λ x. slot_named s name (s.table.slots x) ≡ false) (sym here) h
        | inr later ↦ before m later u'
      ],
    )

FirstNamed-zero : (s : Sys) (name : List ℕ) (i : ℕ) → FirstNamed s name 0 i none
unfolding FirstNamed
FirstNamed-zero s name i = λ j l u. absurd (omega arith)

FirstNamed-here :
    (s : Sys) (name : List ℕ) (k i t : ℕ)
    → s.table.slots i ≡ some t
    → (s.heap t).name ≡ name
    → FirstNamed s name (suc k) i (some t)
unfolding FirstNamed
FirstNamed-here s name k i t q n =
    (i, omega arith, omega arith, q, n, λ m l u. absurd (omega arith))

find_name_lem : (s : Sys) (name : List ℕ) (k i : ℕ) → FirstNamed s name k i (find_name s name k i)
unfolding find_name
find_name_lem s name zero i = FirstNamed-zero s name i
find_name_lem s name (suc k) i = elim (Bool-cases (slot_named s name (s.table.slots i))) [
  | inl here ↦
      let (t, q, n) = slot_named_lem s name (s.table.slots i) here in
      rw here (subst (FirstNamed s name (suc k) i) (sym q) (FirstNamed-here s name k i t q n))
  | inr later ↦ rw later (
      FirstNamed-step s name k i (find_name s name k (i + 1)) later
        (find_name_lem s name k (i + 1)))
]

-- task_get_by_name returns the task of the first of the 32 slots whose task has exactly the name,
-- and NULL if no slot's task has it.
pub get_by_name-FirstNamed :
    (name : List ℕ) (s : Sys) → FirstNamed s name max_tasks 0 (task_get_by_name (some name) s)
unfolding task_get_by_name
get_by_name-FirstNamed name s = find_name_lem s name max_tasks 0
