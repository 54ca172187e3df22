-- ===== src/Ipc/Objects/Links.antt =====
-- Waiting lists are linked in both directions: what that says, and that it survives a task's joining
-- and leaving.
use orbit_rtos.Base.{
  ℕ, ◌≡◌, ◌≢◌, refl, ◌∙◌, sym, subst, inl, inr, true, false, ◌==◌, if◌then◌else◌, Option, none,
  some, List, [], ◌∷◌, contains, erase, is_ref, eq-or-ne, arith,
}
use orbit_rtos.Kernel.{Task}
use orbit_rtos.Ipc.Objects.Chains.{IsChain}

-- From `o` on the tasks of the list follow each other by their next pointers, the prev pointers lead
-- back to `before`, and no task stands in the list twice.
unfoldable pub IsLinked : (heap : ℕ → Task) → (before o : Option ℕ) → List ℕ → Type 0
IsLinked heap before o [] = o ≡ none
IsLinked heap before o (t ∷ ts) =
    (o ≡ some t)
    × ((heap t).prev ≡ before)
    × (contains t ts ≡ false)
    × IsLinked heap (some t) (heap t).next ts

pub IsLinked-IsChain :
    (heap : ℕ → Task) (before o : Option ℕ) (ts : List ℕ)
    → IsLinked heap before o ts
    → IsChain heap o ts
unfolding IsLinked IsChain
IsLinked-IsChain heap before o [] h = h
IsLinked-IsChain heap before o (t ∷ ts) (q, p, n, h) =
    (q, IsLinked-IsChain heap (some t) (heap t).next ts h)

-- Only the links of the list's tasks matter.
pub IsLinked-local :
    (heap heap' : ℕ → Task) (before o : Option ℕ) (ts : List ℕ)
    → ((u : ℕ)
        → contains u ts ≡ true
        → ((heap' u).next ≡ (heap u).next) × ((heap' u).prev ≡ (heap u).prev))
    → IsLinked heap before o ts
    → IsLinked heap' before o ts
unfolding IsLinked contains
IsLinked-local heap heap' before o [] same h = h
IsLinked-local heap heap' before o (t ∷ ts) same (q, p, n, h) =
    let own = same t (ground arith) in
    (
      q,
      own.1 ∙ p,
      n,
      subst (λ x. IsLinked heap' (some t) x ts) (sym own.0)
          (IsLinked-local heap heap' (some t) (heap t).next ts (λ u m. same u (ground arith)) h),
    )

-- The successor of a task of the list is in the list, or none.
next_inside :
    (heap : ℕ → Task) (before o : Option ℕ) (ts : List ℕ) (t u : ℕ)
    → IsLinked heap before o ts
    → contains t ts ≡ true
    → contains u ts ≡ false
    → is_ref (heap t).next u ≡ false
unfolding IsLinked contains
next_inside heap before o [] t u h m n = cc
next_inside heap before o (x ∷ []) t u (q, p, n, h) m out = ground arith
next_inside heap before o (x ∷ y ∷ ts) t u (q, p, n, h) m out =
    ground (arith, next_inside heap (some x) (heap x).next (y ∷ ts) t u h, h.0)

-- The predecessor of a task of the list is the one before the list, or in the list.
prev_inside :
    (heap : ℕ → Task) (before o : Option ℕ) (ts : List ℕ) (t u : ℕ)
    → IsLinked heap before o ts
    → contains t ts ≡ true
    → contains u ts ≡ false
    → is_ref before u ≡ false
    → is_ref (heap t).prev u ≡ false
unfolding IsLinked contains
prev_inside heap before o [] t u h m n f = cc
prev_inside heap before o (x ∷ ts) t u (q, p, n, h) m out f =
    ground (arith, prev_inside heap (some x) (heap x).next ts t u h)

-- What the removal of `t` does to the links of the others.
pub record Unlinked (heap heap' : ℕ → Task) (t : ℕ) : Type 0 where
  pub next_lem :
      (u : ℕ)
      → u ≢ t
      → (heap' u).next ≡ (if is_ref (heap t).prev u then (heap t).next else (heap u).next)
  pub prev_lem :
      (u : ℕ)
      → u ≢ t
      → (heap' u).prev ≡ (if is_ref (heap t).next u then (heap t).prev else (heap u).prev)

-- The tasks behind `t` move up to where it stood.
pub closed_up :
    (heap heap' : ℕ → Task) (before : Option ℕ) (t : ℕ) (ts : List ℕ)
    → Unlinked heap heap' t
    → (heap t).prev ≡ before
    → contains t ts ≡ false
    → ((u : ℕ) → contains u ts ≡ true → is_ref before u ≡ false)
    → IsLinked heap (some t) (heap t).next ts
    → IsLinked heap' before (heap t).next ts
unfolding IsLinked contains
closed_up heap heap' before t [] v p n fresh h = h
closed_up heap heap' before t (y ∷ ys) v p n fresh (q, r, m, h) =
    let ne : y ≢ t = ground arith in
    let same_next : (heap' y).next ≡ (heap y).next = ground (arith, v.next_lem y ne, fresh y) in
    (
      q,
      ground (arith, v.prev_lem y ne),
      m,
      subst (λ x. IsLinked heap' (some y) x ys) (sym same_next)
          (IsLinked-local heap heap' (some y) (heap y).next ys
            (λ u i.
              let other : u ≢ t = ground arith in
              let apart : (y == u) ≡ false = ground arith in
              (ground (arith, v.next_lem u other, fresh u), ground (arith, v.prev_lem u other)))
            h),
    )

IsLinked-cong :
    (heap : ℕ → Task) (before o o' : Option ℕ) (ts ts' : List ℕ)
    → o' ≡ o
    → ts' ≡ ts
    → IsLinked heap before o ts
    → IsLinked heap before o' ts'
IsLinked-cong heap before o o' ts ts' p q h =
    subst (λ x. IsLinked heap before x ts') (sym p)
      (subst (λ x. IsLinked heap before o x) (sym q) h)

pub contains-erase :
    (u t : ℕ) (ts : List ℕ) → contains u ts ≡ false → contains u (erase t ts) ≡ false
unfolding contains erase
contains-erase u t [] h = refl
contains-erase u t (x ∷ ts) h = ground (arith, contains-erase u t ts)

-- The first task of the list is the one whose prev pointer leads to the task before it.
links_agree :
    (heap : ℕ → Task) (o : Option ℕ) (x t : ℕ) (ts : List ℕ)
    → contains x ts ≡ false
    → contains t ts ≡ true
    → IsLinked heap (some x) o ts
    → is_ref (heap t).prev x ≡ is_ref o t
unfolding IsLinked contains
links_agree heap o x t [] n i h = cc
links_agree heap o x t (y ∷ ys) n i (q, p, m, h) = elim (eq-or-ne y t) [
  | inl same ↦ ground arith
  | inr ne ↦ ground (arith, prev_inside heap (some y) (heap y).next ys t x h)
]

-- Without `t` the list is linked from its new head on.
pub Unlinked-IsLinked :
    (heap heap' : ℕ → Task) (before o : Option ℕ) (t : ℕ) (ts : List ℕ)
    → Unlinked heap heap' t
    → contains t ts ≡ true
    → ((u : ℕ) → contains u ts ≡ true → is_ref before u ≡ false)
    → IsLinked heap before o ts
    → IsLinked heap' before (if is_ref o t then (heap t).next else o) (erase t ts)
unfolding IsLinked contains erase
Unlinked-IsLinked heap heap' before o t [] v i fresh h = cc
Unlinked-IsLinked heap heap' before o t (x ∷ ts) v i fresh (q, p, n, h) = elim (eq-or-ne x t) [
  | inl same ↦
      let p' : (heap t).prev ≡ before = ground arith in
      let n' : contains t ts ≡ false = ground arith in
      let h' = subst (λ y. IsLinked heap (some y) (heap y).next ts) same h in
      IsLinked-cong heap' before (heap t).next _ ts _ (ground arith) (ground arith)
        (closed_up heap heap' before t ts v p' n' (λ u m. fresh u (ground arith)) h')
  | inr ne ↦
      let i' : contains t ts ≡ true = ground arith in
      let agree = links_agree heap (heap x).next x t ts n i' h in
      let out = next_inside heap (some x) (heap x).next ts t x h i' n in
      let rest =
        Unlinked-IsLinked heap heap' (some x) (heap x).next t ts v i' (λ u m. ground arith) h in
      let moved : (heap' x).next
          ≡ (if is_ref (heap x).next t then (heap t).next else (heap x).next) =
        ground (arith, v.next_lem x ne) in
      IsLinked-cong heap' before (some x) _ (x ∷ erase t ts) _ (ground arith) (ground arith) (
        refl,
        ground (arith, v.prev_lem x ne),
        contains-erase x t ts n,
        subst (λ y. IsLinked heap' (some x) y (erase t ts)) (sym moved) rest,
      )
]

-- A task outside the list, without a predecessor, joins at the front.
pub joined-IsLinked :
    (heap heap' : ℕ → Task) (o : Option ℕ) (c : ℕ) (ts : List ℕ)
    → IsLinked heap none o ts
    → contains c ts ≡ false
    → (heap' c).next ≡ o
    → (heap' c).prev ≡ none
    → ((u : ℕ)
        → u ≢ c
        → ((heap' u).next ≡ (heap u).next)
          × ((heap' u).prev ≡ (if is_ref o u then some c else (heap u).prev)))
    → IsLinked heap' none (some c) (c ∷ ts)
unfolding IsLinked contains
joined-IsLinked heap heap' o c [] h n next_c prev_c others = (refl, prev_c, refl, next_c ∙ h)
joined-IsLinked heap heap' o c (t ∷ ts) (q, p, m, h) n next_c prev_c others =
    let ne : t ≢ c = ground arith in
    let same : (heap' t).next ≡ (heap t).next = (others t ne).0 in
    (
      refl,
      prev_c,
      n,
      (
        next_c ∙ q,
        ground (arith, others t ne),
        m,
        subst (λ x. IsLinked heap' (some t) x ts) (sym same)
            (IsLinked-local heap heap' (some t) (heap t).next ts
              (λ u i.
                let other : u ≢ c = ground arith in
                let apart : (t == u) ≡ false = ground arith in
                (ground (arith, others u other), ground (arith, others u other)))
              h),
      ),
    )
