-- ===== src/Ipc/EventGroup/Scan.antt =====
-- event_group_set_flags: a scan of the list of waiting tasks, to which its loop is compared, and what one
-- round of the loop does.
use orbit_rtos.Base.{
  ℕ, ◌≡◌, ◌≢◌, refl, ◌∙◌, ap, sym, subst, true, false, ◌==◌, ◌&&◌, ◌||◌, if◌then◌else◌, Option,
  none, some, List, [], ◌∷◌, ◌++◌, contains, erase, is_ref, arith,
}
use orbit_rtos.Kernel.{Sys, Env, Task, ready, blocked, ◌is◌}
use orbit_rtos.Scheduler.Blocking.{scheduler_unblock_task}
use orbit_rtos.Ipc.Objects.{unlink}
use orbit_rtos.Ipc.Objects.Links.{IsLinked, IsLinked-local}
use orbit_rtos.Ipc.Objects.Unlink.{unblock-task, unlink-IsLinked}
use orbit_rtos.Ipc.EventGroup.{
  set_flags, set_waiting_tasks, condition_met, flags_after, word_options, word_flags, wake_task,
}

-- The tasks that stay, the flags that are left and the tasks that are woken: each task gets its flags
-- from what those before it left.
unfoldable pub scan : (word : ℕ → ℕ) → List ℕ → ℕ → List ℕ × ℕ × List ℕ
scan word [] f = ([], f, [])
scan word (t ∷ ts) f =
    let w = word t in
    let taken = scan word ts (flags_after (word_options w) f (word_flags w)) in
    let passed = scan word ts f in
    if condition_met (word_options w) f (word_flags w)
    then (taken.0, taken.1, t ∷ taken.2)
    else (t ∷ passed.0, passed.1, passed.2)

pub scan-cong :
    (word word' : ℕ → ℕ) (ts : List ℕ) (f : ℕ)
    → ((u : ℕ) → contains u ts ≡ true → word' u ≡ word u)
    → scan word' ts f ≡ scan word ts f
unfolding scan contains
scan-cong word word' [] f same = refl
scan-cong word word' (t ∷ ts) f same =
    let rest = λ (g : ℕ). scan-cong word word' ts g (λ u m. same u (ground arith)) in
    let w = word t in
    rw (same t (ground arith), rest (flags_after (word_options w) f (word_flags w)), rest f) refl

abbrev pub first : List ℕ → Option ℕ
first [] = none
first (t ∷ ts) = some t

pub contains_middle :
    (x t : ℕ) (before ts : List ℕ)
    → contains x (before ++ t ∷ ts) ≡ (contains x before || (t == x || contains x ts))
unfolding contains
contains_middle x t [] ts = refl
contains_middle x t (y ∷ before) ts = ground (arith, contains_middle x t before ts)

-- Where a task stands in a linked list.
pub split_at :
    (heap : ℕ → Task) (b o : Option ℕ) (before : List ℕ) (t : ℕ) (ts : List ℕ)
    → IsLinked heap b o (before ++ t ∷ ts)
    → (contains t before ≡ false) × (contains t ts ≡ false) × ((heap t).next ≡ first ts)
unfolding IsLinked contains
split_at heap b o [] t [] (q, p, n, h) = (refl, refl, h)
split_at heap b o [] t (y ∷ ts) (q, p, n, h) = (refl, n, h.0)
split_at heap b o (x ∷ before) t ts (q, p, n, h) =
    let (apart, fresh, next) = split_at heap (some x) (heap x).next before t ts h in
    (ground (arith, contains_middle x t before ts), fresh, next)

pub erase_middle :
    (t : ℕ) (before ts : List ℕ)
    → contains t before ≡ false
    → erase t (before ++ t ∷ ts) ≡ before ++ ts
unfolding erase contains
erase_middle t [] ts h = ground arith
erase_middle t (x ∷ before) ts h = ground (arith, erase_middle t before ts)

pub snoc_append :
    (before : List ℕ) (t : ℕ) (ts : List ℕ) → (before ++ t ∷ []) ++ ts ≡ before ++ t ∷ ts
snoc_append [] t ts = refl
snoc_append (x ∷ before) t ts = ap (λ l. x ∷ l) (snoc_append before t ts)

-- What the visit of a task does whose flags are there.
pub record Woken (e : Env) (i t f : ℕ) (ts : List ℕ) (s s' : Sys) : Type 0 where
  pub flags_lem : (s'.ipc.event_groups i).flags ≡ f
  pub linked : IsLinked s'.heap none (s'.ipc.event_groups i).waiting_tasks (erase t ts)
  pub states :
      (u : ℕ)
      → (s'.heap u).state
        ≡ (if (t == u) && (s.heap u).state is blocked then ready else (s.heap u).state)
  pub words : (u : ℕ) → u ≢ t → (s'.heap u).block_object ≡ (s.heap u).block_object

pub wake_task-Woken :
    (e : Env) (i options wait t : ℕ) (ts : List ℕ) (s : Sys)
    → contains t ts ≡ true
    → IsLinked s.heap none (s.ipc.event_groups i).waiting_tasks ts
    → Woken e i t
        (flags_after options (s.ipc.event_groups i).flags wait)
        ts
        s
        (wake_task e i options wait t s)
unfolding wake_task
wake_task-Woken e i options wait t ts s m h =
    let s1 = set_flags s i (flags_after options (s.ipc.event_groups i).flags wait) in
    let head = (s.ipc.event_groups i).waiting_tasks in
    let (linked, ipc, states, words) =
      unlink-IsLinked (λ s o. set_waiting_tasks s i o) head t ts s1 (λ o. refl) m h in
    let s2 = unlink (λ s o. set_waiting_tasks s i o) t s1 in
    let s3 = (scheduler_unblock_task e (some t) s2).0 in
    record {
      flags_lem =
          ap (λ x. (x.event_groups i).flags) ((unblock-task e s2 t t).4 ∙ ipc) ∙ ground arith;
      linked =
          let new : (s3.ipc.event_groups i).waiting_tasks
              ≡ (if is_ref head t then (s1.heap t).next else head) =
            ap (λ x. (x.event_groups i).waiting_tasks) ((unblock-task e s2 t t).4 ∙ ipc)
            ∙ ground arith in
          subst (λ o. IsLinked s3.heap none o (erase t ts)) (sym new)
            (IsLinked-local s2.heap s3.heap none _ (erase t ts)
              (λ u j. ((unblock-task e s2 t u).0, (unblock-task e s2 t u).1)) linked);
      states = λ u. (unblock-task e s2 t u).2 ∙ rw (states u) refl;
      words = λ u ne. (unblock-task e s2 t u).3 ne ∙ words u;
    }
