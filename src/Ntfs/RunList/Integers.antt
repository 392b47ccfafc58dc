-- ===== src/Ntfs/RunList/Integers.antt =====
-- The variable-width integers of a data run in plain arithmetic.
use batuta.Base.{ℕ, zero, suc, ◌+◌, ◌-◌, ◌*◌, ◌^◌, ◌≤◌, ◌<◌, ◌≡◌, refl, ap, ◌∙◌, arith}
use batuta.Base.{List, [], ◌∷◌, All, ltb, if◌then◌else◌}
use batuta.Base.{bit_and, bit_or, ◌⊎◌, ◌==◌}
use batuta.Base.Bits.{bit, bit_or-disjoint, bit_and-pow, bit_top, bit-le_one}
use batuta.Base.Int.{ℤ, pos, negsuc, as_i64}
use batuta.Ntfs.Bytes.{IsByte, from_le_bytes}
use batuta.Ntfs.RunList.{or_bytes, sign_extend}
use native.Mathlib.Numerals.{towards_suc}

pub pow_eight_more : (i : ℕ) → 2 ^ ((i + 1) * 8) ≡ 256 * 2 ^ (i * 8)
pow_eight_more i = rw (split i) (simp towards_suc (omega arith))
  where
    split : (i : ℕ) → (i + 1) * 8 ≡ i * 8 + 8
    split i = omega arith

fits : (b v p q : ℕ) → q ≡ 256 * p → b < 256 → v < p → v + b * p < q
fits b v p q e hb hp = grind arith

pub or_bytes_lem :
    (bytes : List ℕ) (v i : ℕ)
    → All IsByte bytes
    → v < 2 ^ (i * 8)
    → or_bytes v i bytes ≡ v + from_le_bytes bytes * 2 ^ (i * 8)
unfolding or_bytes from_le_bytes
or_bytes_lem [] v i h hv = omega arith
or_bytes_lem (b ∷ bs) v i h hv = rw (bit_or-disjoint (i * 8) v b hv) (
    or_bytes_lem bs (v + b * 2 ^ (i * 8)) (i + 1) h.1
      (fits b v (2 ^ (i * 8)) _ (pow_eight_more i) h.0 hv)
    ∙ omega (arith, ap (λ (t : ℕ). from_le_bytes bs * t) (pow_eight_more i)))

-- What a signed field of `size` bytes stands for.
unfoldable pub signed : ℕ → ℕ → ℤ
signed size raw =
    if ltb raw (2 ^ (size * 8 - 1)) then pos raw else negsuc (2 ^ (size * 8) - raw - 1)

-- Filling the upper bits with ones subtracts 2 ^ (k + 1), and the mask tests for 2 ^ k.
widen :
    (k b raw : ℕ)
    → raw < 2 ^ suc k
    → b * 2 ^ suc k + 2 ^ suc k ≡ 2 ^ 64
    → 2 ^ suc k ≤ 2 ^ 63
    → (if bit_and raw (2 ^ k) == 0 then as_i64 raw else as_i64 (bit_or raw (b * 2 ^ suc k)))
      ≡ (if ltb raw (2 ^ k) then pos raw else negsuc (2 ^ suc k - raw - 1))
unfolding as_i64
widen k b raw hr total small = ground (
  arith,
  bit_and-pow k raw,
  bit_or-disjoint (suc k) raw b hr,
  bit_top k raw hr,
  bit-le_one k raw,
  digit (bit k raw) (2 ^ k),
)
  where
    digit : (d p : ℕ) → d ≤ 1 → (d ≡ 0) × (d * p ≡ 0) ⊎ (d ≡ 1) × (d * p ≡ p)
    digit d p h = grind arith

pub sign_extend-signed :
    (size raw : ℕ) → 0 < size → size ≤ 8 → raw < 256 ^ size → sign_extend size raw ≡ signed size raw
unfolding sign_extend signed as_i64
sign_extend-signed zero raw h k hr = absurd (omega arith)
sign_extend-signed (suc zero) raw h k hr = widen 7 (2 ^ 56 - 1) raw hr refl (omega arith)
sign_extend-signed (suc (suc zero)) raw h k hr = widen 15 (2 ^ 48 - 1) raw hr refl (omega arith)
sign_extend-signed (suc (suc (suc zero))) raw h k hr =
    widen 23 (2 ^ 40 - 1) raw hr refl (omega arith)
sign_extend-signed (suc (suc (suc (suc zero)))) raw h k hr =
    widen 31 (2 ^ 32 - 1) raw hr refl (omega arith)
sign_extend-signed (suc (suc (suc (suc (suc zero))))) raw h k hr =
    widen 39 (2 ^ 24 - 1) raw hr refl (omega arith)
sign_extend-signed (suc (suc (suc (suc (suc (suc zero)))))) raw h k hr =
    widen 47 (2 ^ 16 - 1) raw hr refl (omega arith)
sign_extend-signed (suc (suc (suc (suc (suc (suc (suc zero))))))) raw h k hr =
    widen 55 (2 ^ 8 - 1) raw hr refl (omega arith)
sign_extend-signed (suc (suc (suc (suc (suc (suc (suc (suc zero)))))))) raw h k hr = refl
sign_extend-signed (suc (suc (suc (suc (suc (suc (suc (suc (suc n))))))))) raw h k hr =
    absurd (omega arith)
