-- ===== src/Ntfs/Bytes/Laws.antt =====
-- Facts on slices and little-endian numbers that the parsers' proofs share.
use batuta.Base.{ℕ, zero, suc, ◌+◌, ◌/◌, ◌^◌, ◌≤◌, ◌<◌, ◌≡◌, refl, sym, ap, ◌∙◌, arith}
use batuta.Base.{some, List, [], ◌∷◌, ◌++◌}
use batuta.Base.{length, take, drop, All}
use batuta.Base.{length-take, length-drop, length-append, take-append_length, drop-append_length}
use batuta.Ntfs.Bytes.{IsByte, slice, from_le_bytes, to_le_bytes}
use native.Mathlib.Nat.{pow-suc}

pub slice-length :
    (buf : List ℕ) (off size : ℕ) {bytes : List ℕ}
    → slice buf off size ≡ some bytes
    → (length bytes ≡ size) × (off + size ≤ length buf)
unfolding slice
slice-length buf off size h = ground (arith, length-take size (drop off buf), length-drop off buf)

pub slice_in :
    (buf : List ℕ) (off size : ℕ)
    → off + size ≤ length buf
    → slice buf off size ≡ some (take size (drop off buf))
unfolding slice
slice_in buf off size h = ground arith

-- A slice in the middle of three pieces.
pub slice-append :
    (front bytes back : List ℕ)
    → slice (front ++ (bytes ++ back)) (length front) (length bytes) ≡ some bytes
slice-append front bytes back =
    slice_in (front ++ (bytes ++ back)) (length front) (length bytes)
      (omega (arith, length-append front (bytes ++ back), length-append bytes back))
    ∙ ap some (
        ap (take (length bytes)) (drop-append_length front (bytes ++ back))
        ∙ take-append_length bytes back)

pub All-drop : (n : ℕ) (xs : List ℕ) → All IsByte xs → All IsByte (drop n xs)
All-drop zero xs h = h
All-drop (suc n) [] h = tt
All-drop (suc n) (x ∷ xs) h = All-drop n xs h.1

pub All-take : (n : ℕ) (xs : List ℕ) → All IsByte xs → All IsByte (take n xs)
All-take zero xs h = tt
All-take (suc n) [] h = tt
All-take (suc n) (x ∷ xs) h = (h.0, All-take n xs h.1)

some_injective {ℓ} : {A : Type ℓ} (a b : A) → some a ≡ some b → a ≡ b
some_injective a b h = cc

pub slice-IsByte :
    (buf : List ℕ) (off size : ℕ) (bytes : List ℕ)
    → All IsByte buf
    → slice buf off size ≡ some bytes
    → All IsByte bytes
slice-IsByte buf off size bytes h e = rw same at (All-take size (drop off buf) (All-drop off buf h))
  where
    same : take size (drop off buf) ≡ bytes
    same = some_injective _ _ (sym (slice_in buf off size (slice-length buf off size e).1) ∙ e)

pub from_le_bytes-lt :
    (bytes : List ℕ) → All IsByte bytes → from_le_bytes bytes < 256 ^ length bytes
unfolding from_le_bytes
from_le_bytes-lt [] h = omega arith
from_le_bytes-lt (b ∷ bs) h = omega (arith, from_le_bytes-lt bs h.1, pow-suc 256 (length bs))

pub to_le_bytes-IsByte : (n v : ℕ) → All IsByte (to_le_bytes n v)
unfolding to_le_bytes
to_le_bytes-IsByte zero v = tt
to_le_bytes-IsByte (suc n) v = (omega arith, to_le_bytes-IsByte n (v / 256))

pub length-to_le_bytes : (n v : ℕ) → length (to_le_bytes n v) ≡ n
unfolding to_le_bytes
length-to_le_bytes zero v = refl
length-to_le_bytes (suc n) v = ap suc (length-to_le_bytes n (v / 256))

pub from_le_bytes-to_le_bytes : (n v : ℕ) → v < 256 ^ n → from_le_bytes (to_le_bytes n v) ≡ v
unfolding from_le_bytes to_le_bytes
from_le_bytes-to_le_bytes zero v h = omega arith
from_le_bytes-to_le_bytes (suc n) v h =
    omega (arith, from_le_bytes-to_le_bytes n (v / 256) (omega (arith, pow-suc 256 n)))
