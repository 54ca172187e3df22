-- ===== src/Ipc/Objects/Unlink.antt =====
-- What `unlink` does to the tasks and to the head of the list.
use orbit_rtos.Base.{
  ℕ, ◌≡◌, ◌≢◌, refl, ◌∙◌, ap, Bool, true, false, not, ◌==◌, ◌&&◌, if◌then◌else◌, Option, none, some,
  List, [], ◌∷◌, is_ref, is_some, contains, erase, arith,
}
use orbit_rtos.Kernel.{Sys, Env, Task, Ipc, ready, blocked, ◌is◌}
use orbit_rtos.Scheduler.Blocking.{scheduler_unblock_task}
use orbit_rtos.Ipc.Objects.{unlink, unlink_first, unlink_before, set_prev, set_next}
use orbit_rtos.Ipc.Objects.Links.{IsLinked, Unlinked, Unlinked-IsLinked, joined-IsLinked, closed_up}

-- Each write, by the task that is looked at.
set_prev-heap :
    (o p : Option ℕ) (s : Sys) (u : ℕ)
    → (set_prev o p s).heap u ≡ (if is_ref o u then record (s.heap u) { prev = p } else s.heap u)
set_prev-heap none p s u = refl
set_prev-heap (some t) p s u = ground arith

set_next-heap :
    (o n : Option ℕ) (s : Sys) (u : ℕ)
    → (set_next o n s).heap u ≡ (if is_ref o u then record (s.heap u) { next = n } else s.heap u)
set_next-heap none n s u = refl
set_next-heap (some t) n s u = ground arith

clear-heap :
    (t : ℕ) (s : Sys) (u : ℕ)
    → (set_prev (some t) none (set_next (some t) none s)).heap u
      ≡ (if t == u then record (s.heap t) { next = none; prev = none } else s.heap u)
clear-heap t s u = ground arith

-- The two writes to a neighbour.
around :
    (a b : Bool) (v : Task) (p n : Option ℕ)
    → let v' = if a then record v { next = n } else v in
      (if b then record v' { prev = p } else v')
      ≡ record v { next = if a then n else v.next; prev = if b then p else v.prev }
around true true v p n = refl
around true false v p n = refl
around false true v p n = refl
around false false v p n = refl

unlink_before-heap :
    (set_head : Sys → Option ℕ → Sys) (b after : Option ℕ) (s : Sys) (u : ℕ)
    → (set_head s after).heap ≡ s.heap
    → (unlink_before set_head b after s).heap u
      ≡ (if is_ref b u then record (s.heap u) { next = after } else s.heap u)
unlink_before-heap set_head none after s u keeps = ap (λ h. h u) keeps
unlink_before-heap set_head (some b) after s u keeps = set_next-heap (some b) after s u

pub set_prev-ipc : (o p : Option ℕ) (s : Sys) → (set_prev o p s).ipc ≡ s.ipc
set_prev-ipc none p s = refl
set_prev-ipc (some t) p s = refl

unlink_before-ipc :
    (set_head : Sys → Option ℕ → Sys) (b after : Option ℕ) (s : Sys)
    → (unlink_before set_head b after s).ipc ≡ (if is_some b then s.ipc else (set_head s after).ipc)
unlink_before-ipc set_head none after s = refl
unlink_before-ipc set_head (some b) after s = refl

-- The task leaves with its links cleared, and the links of the others go around it.
pub unlink-heap :
    (set_head : Sys → Option ℕ → Sys) (t : ℕ) (s : Sys) (u : ℕ)
    → (set_head s (s.heap t).next).heap ≡ s.heap
    → is_ref (s.heap t).prev t ≡ false
    → is_ref (s.heap t).next t ≡ false
    → (unlink set_head t s).heap u ≡ (
        if t == u then record (s.heap t) { next = none; prev = none } else record (s.heap u) {
          next = if is_ref (s.heap t).prev u then (s.heap t).next else (s.heap u).next;
          prev = if is_ref (s.heap t).next u then (s.heap t).prev else (s.heap u).prev;
        })
unfolding unlink
unlink-heap set_head t s u keeps p n =
    let s1 = unlink_before set_head (s.heap t).prev (s.heap t).next s in
    let own : s1.heap t ≡ s.heap t =
      unlink_before-heap set_head (s.heap t).prev (s.heap t).next s t keeps ∙ rw p refl in
    let other = unlink_before-heap set_head (s.heap t).prev (s.heap t).next s u keeps in
    let s2 = set_prev (s1.heap t).next (s1.heap t).prev s1 in
    let own2 : s2.heap t ≡ s.heap t =
      set_prev-heap (s1.heap t).next (s1.heap t).prev s1 t ∙ rw own (rw n refl) in
    let other2 = set_prev-heap (s1.heap t).next (s1.heap t).prev s1 u in
    clear-heap t s2 u
    ∙ rw own2 (
        ap (λ x. if t == u then record (s.heap t) { next = none; prev = none } else x)
          (other2
            ∙ rw own (
                rw other (
                  around (is_ref (s.heap t).prev u) (is_ref (s.heap t).next u) (s.heap u)
                    (s.heap t).prev (s.heap t).next))))

-- Only a task without a predecessor leaves from the head of the list.
pub unlink-ipc :
    (set_head : Sys → Option ℕ → Sys) (t : ℕ) (s : Sys)
    → (unlink set_head t s).ipc
      ≡ (if is_some (s.heap t).prev then s.ipc else (set_head s (s.heap t).next).ipc)
unfolding unlink
unlink-ipc set_head t s =
    let s1 = unlink_before set_head (s.heap t).prev (s.heap t).next s in
    set_prev-ipc (s1.heap t).next (s1.heap t).prev s1
    ∙ unlink_before-ipc set_head (s.heap t).prev (s.heap t).next s

-- No task of a linked list is its own neighbour.
own_next :
    (heap : ℕ → Task) (before o : Option ℕ) (ts : List ℕ) (t : ℕ)
    → IsLinked heap before o ts
    → contains t ts ≡ true
    → is_ref (heap t).next t ≡ false
unfolding IsLinked contains
own_next heap before o [] t h m = cc
own_next heap before o (x ∷ []) t (q, p, n, h) m = ground arith
own_next heap before o (x ∷ y ∷ ts) t (q, p, n, h) m =
    ground (arith, own_next heap (some x) (heap x).next (y ∷ ts) t h, h.0)

own_prev :
    (heap : ℕ → Task) (before o : Option ℕ) (ts : List ℕ) (t : ℕ)
    → is_ref before t ≡ false
    → IsLinked heap before o ts
    → contains t ts ≡ true
    → is_ref (heap t).prev t ≡ false
unfolding IsLinked contains
own_prev heap before o [] t f h m = cc
own_prev heap before o (x ∷ ts) t f (q, p, n, h) m =
    ground (arith, own_prev heap (some x) (heap x).next ts t)

later_prev :
    (heap : ℕ → Task) (b : ℕ) (o : Option ℕ) (ts : List ℕ) (t : ℕ)
    → IsLinked heap (some b) o ts
    → contains t ts ≡ true
    → is_some (heap t).prev ≡ true
unfolding IsLinked contains
later_prev heap b o [] t h m = cc
later_prev heap b o (x ∷ ts) t (q, p, n, h) m =
    ground (arith, later_prev heap x (heap x).next ts t h)

-- The first task, and only it, has no predecessor.
first_prev :
    (heap : ℕ → Task) (o : Option ℕ) (ts : List ℕ) (t : ℕ)
    → IsLinked heap none o ts
    → contains t ts ≡ true
    → is_some (heap t).prev ≡ not (is_ref o t)
unfolding IsLinked contains
first_prev heap o [] t h m = cc
first_prev heap o (x ∷ ts) t (q, p, n, h) m = ground (arith, later_prev heap x (heap x).next ts t h)

choose : (b : Bool) (x y : Ipc) → (if not b then x else y) ≡ (if b then y else x)
choose true x y = refl
choose false x y = refl

-- A task of a linked list leaves it: the list without the task is linked, from its next task on if it
-- was the first one.
pub unlink-IsLinked :
    (set_head : Sys → Option ℕ → Sys) (o : Option ℕ) (t : ℕ) (ts : List ℕ) (s : Sys)
    → ((h : Option ℕ) → (set_head s h).heap ≡ s.heap)
    → contains t ts ≡ true
    → IsLinked s.heap none o ts
    → let s' = unlink set_head t s in
      IsLinked s'.heap none (if is_ref o t then (s.heap t).next else o) (erase t ts)
      × (s'.ipc ≡ (if is_ref o t then (set_head s (s.heap t).next).ipc else s.ipc))
      × ((u : ℕ) → (s'.heap u).state ≡ (s.heap u).state)
      × ((u : ℕ) → (s'.heap u).block_object ≡ (s.heap u).block_object)
unlink-IsLinked set_head o t ts s keeps m h =
    let p = own_prev s.heap none o ts t refl h m in
    let n = own_next s.heap none o ts t h m in
    let by_task = λ (u : ℕ). unlink-heap set_head t s u (keeps (s.heap t).next) p n in
    let v : Unlinked s.heap (unlink set_head t s).heap t = record {
      next_lem = λ u ne. ap (λ x. x.next) (by_task u) ∙ ground arith;
      prev_lem = λ u ne. ap (λ x. x.prev) (by_task u) ∙ ground arith;
    } in
    (
      Unlinked-IsLinked s.heap (unlink set_head t s).heap none o t ts v m (λ u i. refl) h,
      unlink-ipc set_head t s ∙ rw (first_prev s.heap o ts t h m) (choose (is_ref o t) _ _),
      λ u. ap (λ x. x.state) (by_task u) ∙ ground arith,
      λ u. ap (λ x. x.block_object) (by_task u) ∙ ground arith,
    )

-- What waking a task does to all tasks.
pub unblock-task :
    (e : Env) (s : Sys) (t u : ℕ)
    → let s' = (scheduler_unblock_task e (some t) s).0 in
      ((s'.heap u).next ≡ (s.heap u).next)
      × ((s'.heap u).prev ≡ (s.heap u).prev)
      × ((s'.heap u).state
          ≡ (if (t == u) && (s.heap u).state is blocked then ready else (s.heap u).state))
      × (u ≢ t → (s'.heap u).block_object ≡ (s.heap u).block_object)
      × (s'.ipc ≡ s.ipc)
unfolding scheduler_unblock_task
unblock-task e s t u = (ground arith, ground arith, ground arith, λ ne. ground arith, ground arith)

-- A task joins a waiting list at its front.
pub front-IsLinked :
    (o : Option ℕ) (c : ℕ) (ts : List ℕ) (s : Sys)
    → IsLinked s.heap none o ts
    → contains c ts ≡ false
    → (s.heap c).prev ≡ none
    → is_ref o c ≡ false
    → IsLinked (set_prev o (some c) (set_next (some c) o s)).heap none (some c) (c ∷ ts)
front-IsLinked o c ts s h n p out =
    let s1 = set_next (some c) o s in
    let s2 = set_prev o (some c) s1 in
    joined-IsLinked s.heap s2.heap o c ts h n
      (ap (λ x. x.next) (set_prev-heap o (some c) s1 c) ∙ ground arith)
      (ap (λ x. x.prev) (set_prev-heap o (some c) s1 c) ∙ ground arith)
      (λ u ne. (
        ap (λ x. x.next) (set_prev-heap o (some c) s1 u) ∙ ground arith,
        ap (λ x. x.prev) (set_prev-heap o (some c) s1 u) ∙ ground arith,
      ))

-- The first task of a waiting list leaves it.
pub unlink_first-IsLinked :
    (t : ℕ) (ts : List ℕ) (s : Sys)
    → IsLinked s.heap none (some t) (t ∷ ts)
    → IsLinked (unlink_first t (s.heap t).next s).heap none (s.heap t).next ts
unfolding unlink_first IsLinked
unlink_first-IsLinked t ts s (q, p, n, h) =
    let after = (s.heap t).next in
    let s1 = set_prev after none s in
    let s2 = unlink_first t after s in
    let v : Unlinked s.heap s2.heap t = record {
      next_lem = λ u ne.
          ap (λ x. x.next) (clear-heap t s1 u)
          ∙ ground (arith, ap (λ x. x.next) (set_prev-heap after none s u));
      prev_lem = λ u ne.
          ap (λ x. x.prev) (clear-heap t s1 u)
          ∙ ground (arith, ap (λ x. x.prev) (set_prev-heap after none s u));
    } in
    closed_up s.heap s2.heap none t ts v p n (λ u m. refl) h

pub unlink_first-ipc : (t : ℕ) (o : Option ℕ) (s : Sys) → (unlink_first t o s).ipc ≡ s.ipc
unfolding unlink_first
unlink_first-ipc t o s = set_prev-ipc o none s
