-- ===== src/Ipc/EventGroup/Clearing.antt =====
-- Flags that are cleared are not set: the bits of `flags & ~wait_flags`.
use orbit_rtos.Base.{
  ℕ, zero, suc, ◌+◌, ◌-◌, ◌*◌, ◌/◌, ◌%◌, ◌<◌, ◌≤◌, ◌≡◌, refl, ◌∙◌, sym, ap, u32_mod, some, arith,
}
use Prim.Native.Nat.{bit_and, bit_xor, min, digits, differ, bit_and-bitwise, bit_xor-bitwise}
use orbit_rtos.Kernel.{Sys}
use orbit_rtos.Context.{context_enter_critical, context_exit_critical}
use orbit_rtos.Context.Critical.{IsNested}
use orbit_rtos.Ipc.EventGroup.{complement, event_group_clear_flags, event_group_get_flags}
use orbit_rtos.Ipc.EventGroup.Flags.{bit_and-zero}

-- More digits than there are change nothing.
digits_enough :
    (z : ℕ → ℕ) (f : ℕ → ℕ → ℕ) (n m a b : ℕ) → a ≤ n → a ≤ m → digits z f n a b ≡ digits z f m a b
digits_enough z f zero zero a b p q = refl
digits_enough z f zero (suc m) zero b p q = refl
digits_enough z f (suc n) zero zero b p q = refl
digits_enough z f zero (suc m) (suc a) b p q = absurd (omega arith)
digits_enough z f (suc n) zero (suc a) b p q = absurd (omega arith)
digits_enough z f (suc n) (suc m) zero b p q = refl
digits_enough z f (suc n) (suc m) (suc a) b p q =
    ap (λ x. x * 2 + f (suc a % 2) (b % 2))
      (digits_enough z f n m (suc a / 2) (b / 2) (omega arith) (omega arith))

and_halves : (a b : ℕ) → bit_and a b ≡ bit_and (a / 2) (b / 2) * 2 + min (a % 2) (b % 2)
and_halves zero b = omega (arith, bit_and-bitwise 0 b, bit_and-bitwise 0 (b / 2))
and_halves (suc a) b =
    bit_and-bitwise (suc a) b
    ∙ ap (λ x. x * 2 + min (suc a % 2) (b % 2))
        (digits_enough (λ b. zero) min a (suc a / 2) (suc a / 2) (b / 2) (omega arith) (omega arith)
          ∙ sym (bit_and-bitwise (suc a / 2) (b / 2)))

xor_halves : (a b : ℕ) → bit_xor a b ≡ bit_xor (a / 2) (b / 2) * 2 + differ (a % 2) (b % 2)
xor_halves zero b = omega (arith, bit_xor-bitwise 0 b, bit_xor-bitwise 0 (b / 2))
xor_halves (suc a) b =
    bit_xor-bitwise (suc a) b
    ∙ ap (λ x. x * 2 + differ (suc a % 2) (b % 2))
        (digits_enough (λ b. b) differ a (suc a / 2) (suc a / 2) (b / 2) (omega arith) (omega arith)
          ∙ sym (bit_xor-bitwise (suc a / 2) (b / 2)))

-- `k` digits 1.
ones : ℕ → ℕ
ones zero = 0
ones (suc k) = ones k * 2 + 1

differ_one : (y : ℕ) → y < 2 → differ y 1 ≡ 1 - y
differ_one zero u = refl
differ_one (suc zero) u = refl
differ_one (suc (suc y)) u = absurd (omega arith)

cleared_lem : (k f w : ℕ) → w ≤ ones k → bit_and (bit_and f (bit_xor w (ones k))) w ≡ 0
unfolding ones
cleared_lem zero f w l =
    let none_left : w ≡ 0 = omega arith in rw none_left (bit_and-zero (bit_and f (bit_xor 0 0)))
cleared_lem (suc k) f w l =
    let m = ones k in
    let x = bit_xor w (m * 2 + 1) in
    let half : (m * 2 + 1) / 2 ≡ m = omega arith in
    let odd : (m * 2 + 1) % 2 ≡ 1 = omega arith in
    let upper = bit_xor (w / 2) m in
    let x_digits : x ≡ upper * 2 + (1 - w % 2) =
      xor_halves w (m * 2 + 1)
      ∙ rw (half, odd) (ap (λ d. upper * 2 + d) (differ_one (w % 2) (omega arith))) in
    let x_half : x / 2 ≡ upper = omega (arith, x_digits) in
    let x_digit : x % 2 ≡ 1 - w % 2 = omega (arith, x_digits) in
    let y = bit_and f x in
    let y_digits : y ≡ bit_and (f / 2) upper * 2 + min (f % 2) (1 - w % 2) =
      and_halves f x ∙ rw (x_half, x_digit) refl in
    let y_half : y / 2 ≡ bit_and (f / 2) upper = omega (arith, y_digits) in
    let y_digit : y % 2 ≡ min (f % 2) (1 - w % 2) = omega (arith, y_digits) in
    let rest = cleared_lem k (f / 2) (w / 2) (omega arith) in
    and_halves y w ∙ rw (y_half, y_digit, rest) (omega arith)

-- After event_group_clear_flags, in critical sections that nest, event_group_get_flags gives none
-- of the 32-bit flags that were to be cleared, and event_group_clear_flags has returned those that
-- were set before.
pub get_flags-clear_flags :
    (i flags : ℕ) (s : Sys)
    → IsNested s
    → flags < u32_mod
    → let (s', previous) = event_group_clear_flags (some i) flags s in
      (bit_and (event_group_get_flags (some i) s').1 flags ≡ 0)
      × (previous ≡ (s.ipc.event_groups i).flags)
      × ((event_group_get_flags (some i) s').0 ≡ s')
unfolding event_group_clear_flags event_group_get_flags context_enter_critical context_exit_critical
    ones
get_flags-clear_flags i flags s v l =
    let now = (s.ipc.event_groups i).flags in
    let gone : bit_and (bit_and now (complement flags)) flags ≡ 0 =
      cleared_lem 32 now flags (omega arith) in
    (ground (arith, gone), refl, ground (arith, v))
