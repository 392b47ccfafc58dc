-- ===== src/Base/Bits.antt =====
-- Laws of `bit_and` and `bit_or` at variables, by the recursion on binary digits.
use Prim.Native.Nat.{ℕ, zero, suc, ◌+◌, ◌*◌, ◌/◌, ◌%◌, ◌^◌, ◌≤◌, ◌<◌, min, max}
use Prim.Native.Nat.{bit_and, bit_or, digits, bit_and-bitwise, bit_or-bitwise}
use mathlib.Core.Path.{◌≡◌, refl, ap}
use native.Mathlib.Omega.{arith}
use native.Mathlib.Nat.{pow-suc}

-- Rounds beyond the digits of the first number change nothing.
module _ (last : ℕ → ℕ) (merge : ℕ → ℕ → ℕ) where
  digits-rounds :
      (x y left spare : ℕ)
      → x ≤ left
      → x ≤ spare
      → digits last merge left x y ≡ digits last merge spare x y
  digits-rounds x y zero zero h k = refl
  digits-rounds zero y (suc left) zero h k = refl
  digits-rounds zero y zero (suc spare) h k = refl
  digits-rounds zero y (suc left) (suc spare) h k = refl
  digits-rounds (suc x) y zero spare h k = absurd (omega arith)
  digits-rounds (suc x) y (suc left) zero h k = absurd (omega arith)
  digits-rounds (suc x) y (suc left) (suc spare) h k =
      let halved : digits last merge left (suc x / 2) (y / 2)
          ≡ digits last merge spare (suc x / 2) (y / 2) =
        digits-rounds (suc x / 2) (y / 2) left spare (omega arith) (omega arith) in
      omega (arith, halved)

-- The last digit and the rest.
bit_and_step : (a b : ℕ) → bit_and a b ≡ bit_and (a / 2) (b / 2) * 2 + min (a % 2) (b % 2)
bit_and_step zero b = omega (arith, bit_and-bitwise 0 b, bit_and-bitwise 0 (b / 2))
bit_and_step (suc n) b =
    let half = suc n / 2 in
    let rounds = digits-rounds (λ y. zero) min half (b / 2) n half (omega arith) (omega arith) in
    omega (arith, rounds, bit_and-bitwise half (b / 2), bit_and-bitwise (suc n) b)

zero-bit_or : (b : ℕ) → bit_or 0 b ≡ b
zero-bit_or b = bit_or-bitwise 0 b

bit_or_step : (a b : ℕ) → bit_or a b ≡ bit_or (a / 2) (b / 2) * 2 + max (a % 2) (b % 2)
bit_or_step zero b = omega (arith, zero-bit_or b, zero-bit_or (b / 2))
bit_or_step (suc n) b =
    let half = suc n / 2 in
    let rounds = digits-rounds (λ y. y) max half (b / 2) n half (omega arith) (omega arith) in
    omega (arith, rounds, bit_or-bitwise half (b / 2), bit_or-bitwise (suc n) b)

-- Binary digit `k` of a number.
abbrev pub bit : ℕ → ℕ → ℕ
bit zero a = a % 2
bit (suc k) a = bit k (a / 2)

pub bit-le_one : (k a : ℕ) → bit k a ≤ 1
bit-le_one zero a = omega arith
bit-le_one (suc k) a = bit-le_one k (a / 2)

bit_or-half : (a b : ℕ) → bit_or a b / 2 ≡ bit_or (a / 2) (b / 2)
bit_or-half a b = omega (arith, bit_or_step a b)

-- A digit of an `or` is the larger of the two digits.
pub bit-bit_or : (k a b : ℕ) → bit k (bit_or a b) ≡ max (bit k a) (bit k b)
bit-bit_or zero a b = omega (arith, bit_or_step a b)
bit-bit_or (suc k) a b = rw (bit_or-half a b) (bit-bit_or k (a / 2) (b / 2))

bit_and-half : (a b : ℕ) → bit_and a b / 2 ≡ bit_and (a / 2) (b / 2)
bit_and-half a b = omega (arith, bit_and_step a b)

-- A digit of an `and` is the smaller of the two digits.
pub bit-bit_and : (k a b : ℕ) → bit k (bit_and a b) ≡ min (bit k a) (bit k b)
bit-bit_and zero a b = omega (arith, bit_and_step a b)
bit-bit_and (suc k) a b = rw (bit_and-half a b) (bit-bit_and k (a / 2) (b / 2))

-- By strong recursion: `bound` is above the number.
bit_and-zero : (bound x : ℕ) → x < bound → bit_and x 0 ≡ 0
bit_and-zero zero x h = absurd (omega arith)
bit_and-zero (suc bound) zero h = refl
bit_and-zero (suc bound) (suc x) h =
    let halved = bit_and-zero bound (suc x / 2) (omega arith) in
    omega (arith, halved, bit_and_step (suc x) 0)

half_pow : (k : ℕ) → (2 ^ suc k / 2 ≡ 2 ^ k) × (2 ^ suc k % 2 ≡ 0)
half_pow k = omega (arith, pow-suc 2 k)

-- A mask of one bit picks that digit out.
pub bit_and-pow : (k a : ℕ) → bit_and a (2 ^ k) ≡ bit k a * 2 ^ k
bit_and-pow zero a = omega (arith, bit_and_step a 1, bit_and-zero (a / 2 + 1) (a / 2) (omega arith))
bit_and-pow (suc k) a = omega (
  arith,
  bit_and_step a (2 ^ suc k),
  half_pow k,
  ap (bit_and (a / 2)) (half_pow k).0,
  bit_and-pow k (a / 2),
  ap (λ (t : ℕ). bit k (a / 2) * t) (pow-suc 2 k),
)

zero_of_lt_one : (v : ℕ) → v < 1 → v ≡ 0
zero_of_lt_one v h = omega arith

half_even : (a b : ℕ) → a ≡ 2 * b → a / 2 ≡ b
half_even a b h = omega arith

-- An `or` of numbers with no digit in common is their sum.
pub bit_or-disjoint : (k v b : ℕ) → v < 2 ^ k → bit_or v (b * 2 ^ k) ≡ v + b * 2 ^ k
bit_or-disjoint zero v b h =
    omega (arith, ap (λ (t : ℕ). bit_or t (b * 1)) (zero_of_lt_one v h), zero-bit_or (b * 1))
bit_or-disjoint (suc k) v b h = omega (
  arith,
  bit_or_step v (b * 2 ^ suc k),
  double,
  ap (bit_or (v / 2)) (half_even (b * 2 ^ suc k) (b * 2 ^ k) double),
  bit_or-disjoint k (v / 2) b (omega (arith, pow-suc 2 k)),
)
  where
    double : b * 2 ^ suc k ≡ 2 * (b * 2 ^ k)
    double = omega (arith, ap (λ (t : ℕ). b * t) (pow-suc 2 k))

-- Below 2 ^ (k + 1), digit `k` says on which side of 2 ^ k a number lies.
pub bit_top : (k a : ℕ) → a < 2 ^ suc k → (bit k a * 2 ^ k ≤ a) × (a < bit k a * 2 ^ k + 2 ^ k)
bit_top zero a h = omega arith
bit_top (suc k) a h = omega (
  arith,
  bit_top k (a / 2) (omega (arith, pow-suc 2 (suc k))),
  ap (λ (t : ℕ). bit k (a / 2) * t) (pow-suc 2 k),
  pow-suc 2 k,
)

-- The mask 0x0F keeps the low four digits.
pub bit_and_fifteen : (a : ℕ) → bit_and a 15 ≡ a % 16
bit_and_fifteen a = omega (
  arith,
  bit_and_step a 15,
  bit_and_step (a / 2) 7,
  bit_and_step (a / 2 / 2) 3,
  bit_and_step (a / 2 / 2 / 2) 1,
  bit_and-zero (a / 2 / 2 / 2 / 2 + 1) (a / 2 / 2 / 2 / 2) (omega arith),
)
