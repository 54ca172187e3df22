-- ===== src/Scheduler/Select/Choice.antt =====
-- What scheduler_get_next_task chooses.
use orbit_rtos.Base.{
  ℕ, zero, suc, ◌+◌, ◌≤◌, ◌<◌, ◌≡◌, refl, ◌⊎◌, inl, inr, true, ◌==◌, Option, none, some, List, [],
  ◌∷◌, contains, arith, ◌∙◌, ◌&&◌, ◌||◌, ltb, if◌then◌else◌, ap, Bool-cases, Option-cases,
  List-cases, lt-cases, eq-or-lt, some_pair-injective,
}
use orbit_rtos.Kernel.{Sys, Task, max_priority_levels}
use orbit_rtos.Scheduler.Select.{first_ready, edf_list, edf_lists, highest_ready, earliest_ready}

-- `t` is the head of the first list that is not empty, at level `q`.
pub record IsHighest (lists : ℕ → List ℕ) (q t : ℕ) : Type 0 where
  pub rest : List ℕ
  pub in_range : q < max_priority_levels
  pub at_head : lists q ≡ t ∷ rest
  pub above : (p : ℕ) → p < q → lists p ≡ []

first_ready-none :
    (lists : ℕ → List ℕ) (k i : ℕ)
    → first_ready lists k i ≡ none
    → (p : ℕ) → i ≤ p
    → p < i + k
    → lists p ≡ []
unfolding first_ready
first_ready-none lists zero i h p lo hi = absurd (omega arith)
first_ready-none lists (suc k) i h p lo hi = elim (List-cases (lists i)) [
  | inl e ↦ elim (eq-or-lt i p lo) [
    | inl here ↦ rw here e
    | inr later ↦ first_ready-none lists k (i + 1) (rw (e, first_ready) at h) p later (omega arith)
  ]
  | inr (x, xs, e) ↦ absurd (cc (rw (e, first_ready) at h))
]

first_ready-some :
    (lists : ℕ → List ℕ) (k i q t : ℕ)
    → first_ready lists k i ≡ some (q, t)
    → (i ≤ q)
      × (q < i + k)
      × ((rest : List ℕ) × (lists q ≡ t ∷ rest))
      × ((p : ℕ) → i ≤ p → p < q → lists p ≡ [])
unfolding first_ready
first_ready-some lists zero i q t h = cc
first_ready-some lists (suc k) i q t h = elim (List-cases (lists i)) [
  | inl e ↦
      let r = first_ready-some lists k (i + 1) q t (rw (e, first_ready) at h) in
      (
        omega (arith, r.0),
        omega (arith, r.1),
        r.2,
        λ p lo hi. elim (eq-or-lt i p lo) [ inl here ↦ rw here e | inr later ↦ r.3 p later hi ],
      )
  | inr (x, xs, e) ↦
      let (here, same) = some_pair-injective (rw (e, first_ready) at h) in
      (omega arith, omega arith, (xs, rw (← here, ← same) e), λ p lo hi. absurd (omega arith))
]

pub first_ready-IsHighest :
    (lists : ℕ → List ℕ)
    → ((first_ready lists max_priority_levels 0 ≡ none)
        × ((p : ℕ) → p < max_priority_levels → lists p ≡ []))
      ⊎ ((q : ℕ) × (t : ℕ) × (first_ready lists max_priority_levels 0 ≡ some (q, t))
          × IsHighest lists q t)
first_ready-IsHighest lists = elim (Option-cases (first_ready lists max_priority_levels 0)) [
  | inl e ↦ inl (e, λ p hi. first_ready-none lists 16 0 e p (omega arith) (omega arith))
  | inr ((q, t), e) ↦
      let r = first_ready-some lists 16 0 q t e in
      inr (
        q,
        t,
        e,
        record {
          rest = r.2.0;
          in_range = omega (arith, r.1);
          at_head = r.2.1;
          above = λ p hi. r.3 p (omega arith) hi;
        },
      )
]

-- All ready lists are empty and there is no choice, or the choice is the highest ready task.
abbrev pub Highest : (ℕ → List ℕ) → Option ℕ → Type 0
Highest lists o =
    ((o ≡ none) × ((p : ℕ) → p < max_priority_levels → lists p ≡ []))
    ⊎ ((q : ℕ) × (t : ℕ) × (o ≡ some t) × IsHighest lists q t)

pub highest_ready-Highest : (s : Sys) → Highest s.sched.ready_lists (highest_ready s)
unfolding highest_ready
highest_ready-Highest s = elim (first_ready-IsHighest s.sched.ready_lists) [
  | inl (e, h) ↦ inl (rw (e, highest_ready), h)
  | inr (q, t, e, h) ↦ inr (q, t, rw (e, highest_ready), h)
]

-- What a search for the earliest deadline that starts from `best` gives: of the periodic tasks in
-- `In` none is due before the result, and the result is `best` or one of them that is due earlier.
pub record EdfScan (heap : ℕ → Task) (In : ℕ → Type 0) (best r : Option ℕ × ℕ) : Type 0 where
  pub lower : (u : ℕ) → In u → 0 < (heap u).period → r.1 ≤ (heap u).absolute_deadline
  pub bound : r.1 ≤ best.1
  pub source :
      (r ≡ best)
      ⊎ ((t : ℕ) × (r.0 ≡ some t)
          × In t
          × (0 < (heap t).period)
          × ((heap t).absolute_deadline ≡ r.1)
          × (r.1 < best.1))

-- Two searches, one after the other.
EdfScan-trans :
    {heap : ℕ → Task} {In In' : ℕ → Type 0} {a b c : Option ℕ × ℕ} (Out : ℕ → Type 0)
    → ((u : ℕ) → Out u → In u ⊎ In' u)
    → ((u : ℕ) → In u → Out u)
    → ((u : ℕ) → In' u → Out u)
    → EdfScan heap In a b
    → EdfScan heap In' b c
    → EdfScan heap Out a c
EdfScan-trans {heap} {a} {b} {c} Out split left right x y = record {
  lower = λ u h p. elim (split u h) [
    | inl i ↦ omega (arith, x.lower u i p, y.bound)
    | inr i ↦ y.lower u i p
  ];
  bound = omega (arith, x.bound, y.bound);
  source = elim y.source [
    | inr (t, e, i, p, d, l) ↦ inr (t, e, right t i, p, d, omega (arith, x.bound))
    | inl e ↦ elim x.source [
      | inl e' ↦ inl (e ∙ e')
      | inr (t, e', i, p, d, l) ↦ inr (t, rw e e', left t i, p, rw e d, rw e l)
    ]
  ];
}

-- One step of the search, at task `t`.
edf_step-Scan :
    (heap : ℕ → Task) (t : ℕ) (o : Option ℕ) (d : ℕ)
    → EdfScan heap
        (λ u. (t == u) ≡ true)
        (o, d)
        (if ltb 0 (heap t).period && ltb (heap t).absolute_deadline d
          then (some t, (heap t).absolute_deadline)
          else (o, d))
edf_step-Scan heap t o d =
    elim (Bool-cases (ltb 0 (heap t).period && ltb (heap t).absolute_deadline d)) [
      | inl e ↦ rw e record {
        lower = λ u i p. ground arith;
        bound = ground arith;
        source = inr (t, refl, ground arith, ground arith, refl, ground arith);
      }
      | inr e ↦
          rw e record { lower = λ u i p. ground arith; bound = omega arith; source = inl refl }
    ]

edf_list-Scan :
    (heap : ℕ → Task) (xs : List ℕ) (best : Option ℕ × ℕ)
    → EdfScan heap (λ u. contains u xs ≡ true) best (edf_list heap xs best)
unfolding edf_list contains
edf_list-Scan heap [] best = record { lower = λ u i p. cc; bound = omega arith; source = inl refl }
edf_list-Scan heap (t ∷ ts) (o, d) =
    EdfScan-trans (λ u. ((t == u) || contains u ts) ≡ true) (λ u h. ground arith)
      (λ u h. ground arith) (λ u h. ground arith) (edf_step-Scan heap t o d)
      (edf_list-Scan heap ts _)

-- Some list from level `i` on, of `k`, holds `u`.
abbrev pub InLevels : (ℕ → List ℕ) → ℕ → ℕ → ℕ → Type 0
InLevels lists k i u = (p : ℕ) × (i ≤ p) × (p < i + k) × (contains u (lists p) ≡ true)

edf_lists-Scan :
    (heap : ℕ → Task) (lists : ℕ → List ℕ) (k i : ℕ) (best : Option ℕ × ℕ)
    → EdfScan heap (InLevels lists k i) best (edf_lists heap lists k i best)
unfolding edf_lists
edf_lists-Scan heap lists zero i best = record {
  lower = λ u (p, lo, hi, c) h. absurd (omega arith);
  bound = omega arith;
  source = inl refl;
}
edf_lists-Scan heap lists (suc k) i best =
    EdfScan-trans (InLevels lists (suc k) i)
      (λ u (p, lo, hi, c). elim (eq-or-lt i p lo) [
        | inl here ↦ inl (rw (← here) c)
        | inr later ↦ inr (p, later, omega arith, c)
      ])
      (λ u c. (i, omega arith, omega arith, c))
      (λ u (p, lo, hi, c). (p, omega arith, omega arith, c)) (edf_list-Scan heap (lists i) best)
      (edf_lists-Scan heap lists k (i + 1) _)

-- The ready tasks of all 16 levels.
abbrev pub IsListed : (ℕ → List ℕ) → ℕ → Type 0
IsListed lists = InLevels lists max_priority_levels 0

-- `t` is a periodic ready task that is due before UINT32_MAX, and none is due before it.
pub record IsEarliest (heap : ℕ → Task) (lists : ℕ → List ℕ) (t : ℕ) : Type 0 where
  pub listed : IsListed lists t
  pub periodic : 0 < (heap t).period
  pub due : (heap t).absolute_deadline < 0xffff_ffff
  pub first :
      (u : ℕ)
      → IsListed lists u
      → 0 < (heap u).period
      → (heap t).absolute_deadline ≤ (heap u).absolute_deadline

-- No periodic ready task is due before UINT32_MAX, and the choice is the highest ready task; or it
-- is one that is due first.
abbrev pub Earliest : (ℕ → Task) → (ℕ → List ℕ) → Option ℕ → Type 0
Earliest heap lists o =
    (((u : ℕ) → IsListed lists u → 0 < (heap u).period → 0xffff_ffff ≤ (heap u).absolute_deadline)
      × Highest lists o)
    ⊎ ((t : ℕ) × (o ≡ some t) × IsEarliest heap lists t)

pub earliest_ready-Earliest : (s : Sys) → Earliest s.heap s.sched.ready_lists (earliest_ready s)
unfolding earliest_ready
earliest_ready-Earliest s =
    let r = edf_lists s.heap s.sched.ready_lists 16 0 (none, 0xffff_ffff) in
    let scan = edf_lists-Scan s.heap s.sched.ready_lists 16 0 (none, 0xffff_ffff) in
    elim scan.source [
      | inl e ↦ inl (
        λ u i p. omega (arith, scan.lower u i p, ap (λ (x : Option ℕ × ℕ). x.1) e),
        rw (e, earliest_ready) (highest_ready-Highest s),
      )
      | inr (t, e, i, p, d, l) ↦ inr (
        t,
        rw (e, earliest_ready),
        record {
          listed = i;
          periodic = p;
          due = omega arith;
          first = λ u j q. omega (arith, scan.lower u j q);
        },
      )
    ]

-- There is one highest ready task.
pub IsHighest-unique :
    {lists : ℕ → List ℕ} {q t q' t' : ℕ} → IsHighest lists q t → IsHighest lists q' t' → t ≡ t'
IsHighest-unique {lists} {q} {t} {q'} {t'} h h' = elim (lt-cases q q') [
  | inl less ↦ ground (arith, h'.above q less)
  | inr (inl more) ↦ ground (arith, h.above q' more)
  | inr (inr same) ↦ ground (arith, ap lists same)
]

-- So it is the one that is found.
pub highest_ready-some :
    (s : Sys) (q t : ℕ) → IsHighest s.sched.ready_lists q t → highest_ready s ≡ some t
highest_ready-some s q t h = elim (highest_ready-Highest s) [
  | inl (_, all) ↦ ground (arith, h.at_head, h.in_range, all q h.in_range)
  | inr (q', u, e, w) ↦ e ∙ ap some (IsHighest-unique w h)
]
