-- ===== src/Ipc/EventGroup/Rounds.antt =====
-- event_group_set_flags: its loop over the waiting tasks, which unlinks some of them on its way, does
-- what a scan of the list of them does.
use orbit_rtos.Base.{
  ℕ, zero, suc, ◌<◌, ◌≡◌, refl, ◌∙◌, ap, sym, subst, inl, inr, Bool, true, false, ◌==◌, ◌&&◌, ◌||◌,
  if◌then◌else◌, Option, none, some, List, [], ◌∷◌, ◌++◌, length, contains, Bool-cases, arith,
}
use orbit_rtos.Kernel.{Sys, Env, TaskState, ready, blocked, ◌is◌}
use orbit_rtos.Ipc.Objects.Links.{IsLinked}
use orbit_rtos.Ipc.EventGroup.{
  condition_met, flags_after, as_word, word_options, word_flags, wake_task, visit, visit_waiting,
}
use orbit_rtos.Ipc.EventGroup.Scan.{
  scan, scan-cong, first, contains_middle, split_at, erase_middle, snoc_append, Woken,
  wake_task-Woken,
}

abbrev pub words : Env → Sys → ℕ → ℕ
words e s t = as_word e (s.heap t).block_object

-- What the loop leaves behind.
pub record Scanned (i : ℕ) (result : List ℕ × ℕ × List ℕ) (before : List ℕ) (s s' : Sys)
    : Type 0 where
  pub flags_lem : (s'.ipc.event_groups i).flags ≡ result.1
  pub linked : IsLinked s'.heap none (s'.ipc.event_groups i).waiting_tasks (before ++ result.0)
  pub states :
      (u : ℕ)
      → (s'.heap u).state
        ≡ (if contains u result.2 && (s.heap u).state is blocked then ready else (s.heap u).state)

visit_unmet :
    (e : Env) (i t : ℕ) (s : Sys)
    → condition_met
        (word_options (words e s t))
        (s.ipc.event_groups i).flags
        (word_flags (words e s t))
      ≡ false
    → visit e i t s ≡ s
unfolding visit
visit_unmet e i t s unmet = rw unmet refl

visit_met :
    (e : Env) (i t : ℕ) (s : Sys)
    → condition_met
        (word_options (words e s t))
        (s.ipc.event_groups i).flags
        (word_flags (words e s t))
      ≡ true
    → visit e i t s ≡ wake_task e i (word_options (words e s t)) (word_flags (words e s t)) t s
unfolding visit
visit_met e i t s met = rw met refl

passed-Scanned :
    (i : ℕ) (word : ℕ → ℕ) (before : List ℕ) (t : ℕ) (ts : List ℕ) (f : ℕ) (s s' : Sys)
    → condition_met (word_options (word t)) f (word_flags (word t)) ≡ false
    → Scanned i (scan word ts f) (before ++ t ∷ []) s s'
    → Scanned i (scan word (t ∷ ts) f) before s s'
unfolding scan
passed-Scanned i word before t ts f s s' unmet v = record {
  flags_lem = rw unmet v.flags_lem;
  linked = rw unmet (
      subst (IsLinked s'.heap none (s'.ipc.event_groups i).waiting_tasks)
        (snoc_append before t (scan word ts f).0) v.linked);
  states = rw unmet v.states;
}

woken_twice :
    (a b : Bool) (st : TaskState)
    → let st' = if b && st is blocked then ready else st in
      (if a && st' is blocked then ready else st')
      ≡ (if (b || a) && st is blocked then ready else st)
woken_twice a b st = ground arith

taken-Scanned :
    (e : Env) (i : ℕ) (word : ℕ → ℕ) (before : List ℕ) (t : ℕ) (ts : List ℕ) (f : ℕ) (s s1 s' : Sys)
    → let g = flags_after (word_options (word t)) f (word_flags (word t)) in
      condition_met (word_options (word t)) f (word_flags (word t)) ≡ true
      → Woken e i t g (before ++ t ∷ ts) s s1
      → Scanned i (scan word ts g) before s1 s'
      → Scanned i (scan word (t ∷ ts) f) before s s'
unfolding scan contains
taken-Scanned e i word before t ts f s s1 s' met w v = record {
  flags_lem = rw met v.flags_lem;
  linked = rw met v.linked;
  states = λ u. rw met (
      v.states u
      ∙ (rw (w.states u) (
          woken_twice
            (contains u
              (scan word ts (flags_after (word_options (word t)) f (word_flags (word t)))).2)
            (t == u) (s.heap u).state)));
}

-- Rounds for one more than the tasks from the pointer on are enough.
pub visit_waiting-scan :
    (e : Env) (i fuel : ℕ) (o : Option ℕ) (before ts : List ℕ) (s : Sys)
    → IsLinked s.heap none (s.ipc.event_groups i).waiting_tasks (before ++ ts)
    → o ≡ first ts
    → length ts < fuel
    → (s' : Sys) × (visit_waiting e i fuel o s ≡ some s')
      × Scanned i (scan (words e s) ts (s.ipc.event_groups i).flags) before s s'
unfolding visit_waiting scan contains
visit_waiting-scan e i zero o before ts s h q enough = absurd (omega arith)
visit_waiting-scan e i (suc fuel) o before [] s h q enough =
    (s, rw q refl, record { flags_lem = refl; linked = h; states = λ u. refl })
visit_waiting-scan e i (suc fuel) o before (t ∷ ts) s h q enough =
    let w = words e s t in
    let f = (s.ipc.event_groups i).flags in
    let head = (s.ipc.event_groups i).waiting_tasks in
    let (apart, fresh, next) = split_at s.heap none head before t ts h in
    elim (Bool-cases (condition_met (word_options w) f (word_flags w))) [
      | inr unmet ↦
          let (s', r, v) =
            visit_waiting-scan e i fuel (s.heap t).next (before ++ t ∷ []) ts s
              (subst (IsLinked s.heap none head) (sym (snoc_append before t ts)) h) next
              (omega arith) in
          (
            s',
            ap (λ x. visit_waiting e i (suc fuel) x s) q
                ∙ ap (visit_waiting e i fuel (s.heap t).next) (visit_unmet e i t s unmet)
                ∙ r,
            passed-Scanned i (words e s) before t ts f s s' unmet v,
          )
      | inl met ↦
          let g = flags_after (word_options w) f (word_flags w) in
          let s1 = wake_task e i (word_options w) (word_flags w) t s in
          let inside : contains t (before ++ t ∷ ts) ≡ true =
            ground (arith, contains_middle t t before ts) in
          let woken =
            wake_task-Woken e i (word_options w) (word_flags w) t (before ++ t ∷ ts) s inside h in
          let h1 : IsLinked s1.heap none (s1.ipc.event_groups i).waiting_tasks (before ++ ts) =
            subst (IsLinked s1.heap none (s1.ipc.event_groups i).waiting_tasks)
              (erase_middle t before ts apart) woken.linked in
          let (s', r, v) =
            visit_waiting-scan e i fuel (s.heap t).next before ts s1 h1 next (omega arith) in
          let same : scan (words e s1) ts (s1.ipc.event_groups i).flags ≡ scan (words e s) ts g =
            ap (scan (words e s1) ts) woken.flags_lem
            ∙ scan-cong (words e s) (words e s1) ts g
                (λ u m. ap (as_word e) (woken.words u (ground arith))) in
          (
            s',
            ap (λ x. visit_waiting e i (suc fuel) x s) q
                ∙ ap (visit_waiting e i fuel (s.heap t).next) (visit_met e i t s met)
                ∙ r,
            taken-Scanned e i (words e s) before t ts f s s1 s' met woken
                (subst (λ x. Scanned i x before s1 s') same v),
          )
    ]
