-- ===== src/Base.antt =====
-- Names that all modules share: the libraries', Boolean tests on numbers, 32-bit arithmetic, maps
-- from numbers and counted lists.
pub use Prim.Native.Nat.{ℕ, zero, suc, ◌+◌, ◌-◌, ◌*◌, ◌/◌, ◌%◌, ◌^◌, ◌≤◌, ◌<◌}
pub use mathlib.Core.Path.{◌≡◌, refl, sym, ap, ◌∙◌, subst, fun_ext}
pub use mathlib.Core.Logic.{◌≢◌, ◌↔◌, ◌⊎◌, inl, inr}
pub use mathlib.Core.Bool.{Bool, true, false, ◌&&◌, ◌||◌, not}
pub use mathlib.Core.Option.{Option, none, some}
pub use mathlib.Core.List.{List, [], ◌∷◌, ◌++◌}
pub use native.Mathlib.Omega.{arith}
use Prim.Native.Nat.{compare, Ordering}

abbrev pub ltb : ℕ → ℕ → Bool
ltb a b = elim (compare a b) [ Ordering.lt ↦ true | _ ↦ false ]

abbrev pub leb : ℕ → ℕ → Bool
leb a b = elim (compare a b) [ Ordering.gt ↦ false | _ ↦ true ]

infix 50 ◌==◌
abbrev pub ◌==◌ : ℕ → ℕ → Bool
a == b = elim (compare a b) [ Ordering.eq ↦ true | _ ↦ false ]

infix 1 if◌then◌else◌
abbrev pub if◌then◌else◌ {ℓ} : {A : Type ℓ} → Bool → A → A → A
if true then x else y = x
if false then x else y = y

pub Bool-cases : (b : Bool) → (b ≡ true) ⊎ (b ≡ false)
Bool-cases true = inl refl
Bool-cases false = inr refl

pub Option-cases {ℓ} : {A : Type ℓ} (o : Option A) → (o ≡ none) ⊎ ((a : A) × (o ≡ some a))
Option-cases none = inl refl
Option-cases (some a) = inr (a, refl)

-- A truth value as 0 or 1.
abbrev pub to_nat : Bool → ℕ
to_nat true = 1
to_nat false = 0

-- The nullable reference `o` is `t`.
abbrev pub is_ref : Option ℕ → ℕ → Bool
is_ref none t = false
is_ref (some u) t = u == t

-- Two nullable references are the same.
abbrev pub same_ref : Option ℕ → Option ℕ → Bool
same_ref none none = true
same_ref none (some t) = false
same_ref (some u) o = is_ref o u

abbrev pub is_some {ℓ} : {A : Type ℓ} → Option A → Bool
is_some none = false
is_some (some a) = true

-- uint32_t.
abbrev pub u32_mod : ℕ
u32_mod = 0x1_0000_0000

abbrev pub add32 : ℕ → ℕ → ℕ
add32 a b = (a + b) % u32_mod

abbrev pub sub32 : ℕ → ℕ → ℕ
sub32 a b = (a + u32_mod - b) % u32_mod

-- A map from numbers: an array, or the heap.
abbrev pub update {ℓ} : {A : Type ℓ} → (ℕ → A) → ℕ → A → ℕ → A
update f p v q = if p == q then v else f q

module _ {ℓ} {A : Type ℓ} where
  abbrev pub length : List A → ℕ
  length [] = 0
  length (x ∷ xs) = suc (length xs)

  pub length-append : (xs ys : List A) → length (xs ++ ys) ≡ length xs + length ys
  length-append [] ys = omega arith
  length-append (x ∷ xs) ys = omega (arith, length-append xs ys)

  abbrev pub take : ℕ → List A → List A
  take zero xs = []
  take (suc n) [] = []
  take (suc n) (x ∷ xs) = x ∷ take n xs

  abbrev pub get_elem? : List A → ℕ → Option A
  get_elem? [] i = none
  get_elem? (x ∷ xs) zero = some x
  get_elem? (x ∷ xs) (suc i) = get_elem? xs i

-- How often `t` stands in a list, and the list less its first `t`.
unfoldable pub count : ℕ → List ℕ → ℕ
count t [] = 0
count t (x ∷ xs) = to_nat (x == t) + count t xs

unfoldable pub erase : ℕ → List ℕ → List ℕ
erase t [] = []
erase t (x ∷ xs) = if x == t then xs else x ∷ erase t xs

unfoldable pub contains : ℕ → List ℕ → Bool
contains t [] = false
contains t (x ∷ xs) = (x == t) || contains t xs

pub count-append : (t u : ℕ) (l : List ℕ) → count t (l ++ u ∷ []) ≡ count t l + to_nat (u == t)
unfolding count
count-append t u [] = ground arith
count-append t u (x ∷ xs) = ground (arith, count-append t u xs)

pub count-erase : (t u : ℕ) (l : List ℕ) → count t (erase u l) ≡ count t l - to_nat (u == t)
unfolding count erase
count-erase t u [] = ground arith
count-erase t u (x ∷ xs) = ground (arith, count-erase t u xs)

pub contains-count : (t : ℕ) (l : List ℕ) → contains t l ≡ ltb 0 (count t l)
unfolding count contains
contains-count t [] = refl
contains-count t (x ∷ xs) = ground (arith, contains-count t xs)

pub List-cases {ℓ} : {A : Type ℓ} (l : List A) → (l ≡ []) ⊎ ((x : A) × (xs : List A) × (l ≡ x ∷ xs))
List-cases [] = inl refl
List-cases (x ∷ xs) = inr (x, xs, refl)

pub eq-or-lt : (a b : ℕ) → a ≤ b → (b ≡ a) ⊎ (a + 1 ≤ b)
eq-or-lt a b h = grind arith

pub some_pair-injective :
    {i x q t : ℕ} → ◌≡◌ {A = Option (ℕ × ℕ)} (some (i, x)) (some (q, t)) → (i ≡ q) × (x ≡ t)
some_pair-injective h = ground arith

pub erase_head : (t : ℕ) (l : List ℕ) → erase t (t ∷ l) ≡ l
unfolding erase
erase_head t l = ground arith

pub eq-or-ne : (a b : ℕ) → (a ≡ b) ⊎ (a ≢ b)
eq-or-ne a b = grind arith

pub lt-cases : (a b : ℕ) → (a < b) ⊎ (b < a) ⊎ (a ≡ b)
lt-cases a b = grind arith
