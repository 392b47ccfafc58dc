-- ===== src/Base/Int.antt =====
-- Signed integers over the native numbers, with the wrap-around and the saturation of machine words.
use Prim.Native.Nat.{ℕ, suc, ◌+◌, ◌-◌, ◌%◌, ◌^◌, ◌≤◌, ◌<◌}
use mathlib.Core.Path.{◌≡◌}
use mathlib.Core.Bool.{◌||◌}
use mathlib.Core.Option.{Option, none, some}
use native.Mathlib.Omega.{arith}
use batuta.Base.Tests.{ltb, leb, if◌then◌else◌}

-- `negsuc n` is -(n + 1).
pub data ℤ : Type 0 where
  pos : ℕ → ℤ
  negsuc : ℕ → ℤ

abbrev pub pos_part : ℤ → ℕ
pos_part (pos n) = n
pos_part (negsuc n) = 0

abbrev pub neg_part : ℤ → ℕ
neg_part (pos n) = 0
neg_part (negsuc n) = suc n

-- a - b, as an integer.
abbrev pub sub_ℕ : ℕ → ℕ → ℤ
sub_ℕ a b = if leb b a then pos (a - b) else negsuc (b - a - 1)

infixl 65 ◌+ℤ◌ ◌-ℤ◌
unfoldable pub ◌+ℤ◌ : ℤ → ℤ → ℤ
a +ℤ b = sub_ℕ (pos_part a + pos_part b) (neg_part a + neg_part b)

unfoldable pub ◌-ℤ◌ : ℤ → ℤ → ℤ
a -ℤ b = sub_ℕ (pos_part a + neg_part b) (neg_part a + pos_part b)

-- `w as i64` for a u64.
unfoldable pub as_i64 : ℕ → ℤ
as_i64 w = if ltb w (2 ^ 63) then pos w else negsuc (2 ^ 64 - w - 1)

-- The i64 of an integer that may have left the range by one wrap, as release arithmetic leaves it.
unfoldable pub wrap_i64 : ℤ → ℤ
wrap_i64 (pos n) =
    if ltb (n % 2 ^ 64) (2 ^ 63) then pos (n % 2 ^ 64) else negsuc (2 ^ 64 - n % 2 ^ 64 - 1)
wrap_i64 (negsuc n) =
    if ltb (n % 2 ^ 64) (2 ^ 63) then negsuc (n % 2 ^ 64) else pos (2 ^ 64 - n % 2 ^ 64 - 1)

-- `i64::checked_add`
unfoldable pub checked_add_i64 : ℤ → ℤ → Option ℤ
unfolding ◌+ℤ◌
checked_add_i64 a b =
    let s = a +ℤ b in
    if leb (2 ^ 63) (pos_part s) || ltb (2 ^ 63) (neg_part s) then none else some s

-- `uN::saturating_add_signed`, with `top` the largest value of the type.
unfoldable pub saturating_add_signed : ℕ → ℕ → ℤ → ℕ
saturating_add_signed top a (pos n) = if leb (a + n) top then a + n else top
saturating_add_signed top a (negsuc n) = a - suc n

pub checked_add_i64_in_range :
    (a b s : ℤ) → checked_add_i64 a b ≡ some s → (pos_part s < 2 ^ 63) × (neg_part s ≤ 2 ^ 63)
unfolding checked_add_i64
checked_add_i64_in_range a b s h = ground arith
