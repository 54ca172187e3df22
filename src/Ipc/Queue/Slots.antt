-- ===== src/Ipc/Queue/Slots.antt =====
-- The messages in the buffer of a queue: they are read off the memory round by round, a message that is
-- written behind the last one joins them, and writes elsewhere leave them alone.
use orbit_rtos.Base.{
  ℕ, zero, suc, ◌+◌, ◌-◌, ◌*◌, ◌%◌, ◌≤◌, ◌<◌, ◌≡◌, ◌≢◌, refl, ◌∙◌, ap, sym, ◌⊎◌, inl, inr, List, [],
  ◌∷◌, ◌++◌, length, arith, lt-cases,
}
use native.Mathlib.Nat.{
  mod-lt, mod-eq_of_lt, mod-eq-sub-mod, mod_self, mul-le-mul_right, suc-mul, add-zero,
}
use orbit_rtos.Ipc.Buffers.{copy}

-- The `n` bytes from address `a` on.
unfoldable pub bytes : (memory : ℕ → ℕ) → (a n : ℕ) → List ℕ
bytes memory a zero = []
bytes memory a (suc n) = memory a ∷ bytes memory (a + 1) n

pub length-bytes : (memory : ℕ → ℕ) (a n : ℕ) → length (bytes memory a n) ≡ n
unfolding bytes
length-bytes memory a zero = refl
length-bytes memory a (suc n) = omega (arith, length-bytes memory (a + 1) n)

pub bytes-cong :
    (memory memory' : ℕ → ℕ) (a b n : ℕ)
    → ((k : ℕ) → k < n → memory (a + k) ≡ memory' (b + k))
    → bytes memory a n ≡ bytes memory' b n
unfolding bytes
bytes-cong memory memory' a b zero same = refl
bytes-cong memory memory' a b (suc n) same =
    let first : memory a ≡ memory' b =
      ap memory (omega arith) ∙ same 0 (omega arith) ∙ ap memory' (omega arith) in
    let rest =
      bytes-cong memory memory' (a + 1) (b + 1) n
        (λ k l. ap memory (omega arith) ∙ same (k + 1) (omega arith) ∙ ap memory' (omega arith)) in
    rw first (ap (λ l. memory' b ∷ l) rest)

-- The bytes that memcpy wrote, and those that it left alone.
pub bytes-copy_same :
    (memory : ℕ → ℕ) (dest n src : ℕ)
    → bytes (copy memory dest n (λ k. memory (src + k))) dest n ≡ bytes memory src n
bytes-copy_same memory dest n src =
    bytes-cong (copy memory dest n (λ k. memory (src + k))) memory dest src n (λ k l.
      let back : dest + k - dest ≡ k = omega arith in
      ground (arith, ap (λ x. memory (src + x)) back))

pub bytes-copy_apart :
    (memory src : ℕ → ℕ) (dest n a m : ℕ)
    → (a + m ≤ dest) ⊎ (dest + n ≤ a)
    → bytes (copy memory dest n src) a m ≡ bytes memory a m
bytes-copy_apart memory src dest n a m apart =
    bytes-cong (copy memory dest n src) memory a a m (λ k l. ground arith)

pub mod_small : (k n : ℕ) → k < n → k % n ≡ k
mod_small k n h = mod-eq_of_lt h

pub mod_wrap : (k n : ℕ) → n ≤ k → k < n + n → k % n ≡ k - n
mod_wrap k n l h = mod-eq-sub-mod l ∙ mod-eq_of_lt (omega arith)

-- Where one lands `k` places further on, if that is less than a round.
pub mod-cases :
    (h k cap : ℕ)
    → h < cap
    → k < cap
    → ((h + k < cap) × ((h + k) % cap ≡ h + k)) ⊎ ((cap ≤ h + k) × ((h + k) % cap ≡ h + k - cap))
mod-cases h k cap l u = elim (lt-cases (h + k) cap) [
  | inl less ↦ inl (less, mod_small (h + k) cap less)
  | inr (inl more) ↦ inr (omega arith, mod_wrap (h + k) cap (omega arith) (omega arith))
  | inr (inr same) ↦ inr (omega arith, mod_wrap (h + k) cap (omega arith) (omega arith))
]

pub mod_in : (k n : ℕ) → 0 < n → k % n < n
mod_in k n h = mod-lt k h

-- One place on is inside.
pub next_inside : (h cap : ℕ) → h < cap → (h + 1) % cap < cap
next_inside h cap l = elim (lt-cases (h + 1) cap) [
  | inl less ↦ rw (mod_small (h + 1) cap less) less
  | inr (inl more) ↦ absurd (omega arith)
  | inr (inr same) ↦ rw (same) (rw (mod_self cap) (omega arith))
]

-- One place and then `k` are `k + 1`.
pub mod_next :
    (h k cap : ℕ)
    → h < cap
    → k + 1 < cap
    → ((h + 1) % cap < cap) × (((h + 1) % cap + k) % cap ≡ (h + (k + 1)) % cap)
mod_next h k cap l u = elim (mod-cases h 1 cap l (omega arith)) [
  | inl (less, q) ↦ rw q (omega arith, ap (λ x. x % cap) (omega arith))
  | inr (more, q) ↦ rw q (
    omega arith,
    mod_small (h + 1 - cap + k) cap (omega arith)
        ∙ sym (mod_wrap (h + (k + 1)) cap (omega arith) (omega arith) ∙ omega arith),
  )
]

-- Slots lie in the buffer, and do not overlap.
pub slot_inside : (k cap size : ℕ) → k < cap → k * size + size ≤ cap * size
slot_inside k cap size h =
    let le : suc k * size ≤ cap * size = mul-le-mul_right size (omega arith) in
    omega (arith, suc-mul k size)

pub slots_apart :
    (j k size : ℕ) → j ≢ k → (j * size + size ≤ k * size) ⊎ (k * size + size ≤ j * size)
slots_apart j k size ne = elim (lt-cases j k) [
  | inl less ↦ inl (slot_inside j k size less)
  | inr (inl more) ↦ inr (slot_inside k j size more)
  | inr (inr same) ↦ absurd (ne same)
]

module _ (start size cap : ℕ) where
  -- The `n` messages from index `h` on.
  unfoldable pub messages : (memory : ℕ → ℕ) → (h n : ℕ) → List (List ℕ)
  messages memory h zero = []
  messages memory h (suc n) =
      bytes memory (start + h * size) size ∷ messages memory ((h + 1) % cap) n

  pub length-messages : (memory : ℕ → ℕ) (h n : ℕ) → length (messages memory h n) ≡ n
  unfolding messages
  length-messages memory h zero = refl
  length-messages memory h (suc n) = omega (arith, length-messages memory ((h + 1) % cap) n)

  -- A write to the slot `m` places on, or to none, leaves the first `n ≤ m` messages alone.
  pub messages_kept :
      (memory memory' : ℕ → ℕ) (h n m : ℕ)
      → h < cap
      → n ≤ m
      → m < cap
      → ((k : ℕ)
          → k < cap
          → k ≢ (h + m) % cap
          → bytes memory' (start + k * size) size ≡ bytes memory (start + k * size) size)
      → messages memory' h n ≡ messages memory h n
  unfolding messages
  messages_kept memory memory' h zero m l le u same = refl
  messages_kept memory memory' h (suc n) m l le u same =
      let (l', next) = mod_next h (m - 1) cap l (omega arith) in
      let place : ((h + 1) % cap + (m - 1)) % cap ≡ (h + m) % cap =
        next ∙ ap (λ x. (h + x) % cap) (omega arith) in
      let ne : h ≢ (h + m) % cap = elim (mod-cases h m cap l u) [
        | inl (less, q) ↦ rw q (omega arith)
        | inr (more, q) ↦ rw q (omega arith)
      ] in
      let rest =
        messages_kept memory memory' ((h + 1) % cap) n (m - 1) l' (omega arith) (omega arith)
          (λ k i d. same k i (rw (sym place) d)) in
      rw (same h l ne) (ap (λ x. bytes memory (start + h * size) size ∷ x) rest)

  -- The message behind the last one.
  pub messages_snoc :
      (memory : ℕ → ℕ) (h n : ℕ)
      → h < cap
      → n < cap
      → messages memory h (suc n)
        ≡ messages memory h n ++ bytes memory (start + (h + n) % cap * size) size ∷ []
  unfolding messages
  messages_snoc memory h zero l u =
      let here : (h + 0) % cap ≡ h = ap (λ x. x % cap) (add-zero h) ∙ mod_small h cap l in
      rw here refl
  messages_snoc memory h (suc n) l u =
      let (l', next) = mod_next h n cap l (omega arith) in
      let place : ((h + 1) % cap + n) % cap ≡ (h + suc n) % cap =
        next ∙ ap (λ x. (h + x) % cap) (omega arith) in
      rw (messages_snoc memory ((h + 1) % cap) n l' (omega arith)) (rw place refl)

  -- Writes that leave all slots alone leave the messages alone.
  pub messages_same :
      (memory memory' : ℕ → ℕ) (h n : ℕ)
      → h < cap
      → ((k : ℕ)
          → k < cap
          → bytes memory' (start + k * size) size ≡ bytes memory (start + k * size) size)
      → messages memory' h n ≡ messages memory h n
  unfolding messages
  messages_same memory memory' h zero l same = refl
  messages_same memory memory' h (suc n) l same =
      let l' : (h + 1) % cap < cap = next_inside h cap l in
      let rest = messages_same memory memory' ((h + 1) % cap) n l' same in
      rw (same h l) (ap (λ x. bytes memory (start + h * size) size ∷ x) rest)
