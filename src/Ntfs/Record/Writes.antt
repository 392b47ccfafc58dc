-- ===== src/Ntfs/Record/Writes.antt =====
-- Writing two bytes into a record: what it changes and what it leaves.
use batuta.Base.{ℕ, zero, suc, ◌+◌, ◌*◌, ◌/◌, ◌%◌, ◌^◌, ◌≤◌, ◌<◌, ◌≡◌, ◌≢◌, refl, ap, ◌∙◌, arith}
use batuta.Base.{some, List, [], ◌∷◌, inl, inr, Option-cases}
use batuta.Base.{length, get_elem?, set, take, drop, All, All_get, All-set, length-set}
use batuta.Ntfs.Bytes.{IsByte, slice, from_le_bytes, to_le_bytes, u16_at}
use batuta.Ntfs.Bytes.Laws.{slice_in, slice-length, slice-IsByte, from_le_bytes-lt}
use batuta.Ntfs.Record.{copy_into}

-- `buf` with the two bytes of `v` at `at`.
unfoldable pub put : List ℕ → ℕ → ℕ → List ℕ
unfolding copy_into to_le_bytes
put buf at v = copy_into buf at (to_le_bytes 2 v)

put_lem :
    (buf : List ℕ) (at v : ℕ) → put buf at v ≡ set (set buf at (v % 256)) (at + 1) (v / 256 % 256)
unfolding put
put_lem buf at v = refl

set-set : (xs : List ℕ) (i a b : ℕ) → set (set xs i a) i b ≡ set xs i b
set-set [] i a b = refl
set-set (x ∷ xs) zero a b = refl
set-set (x ∷ xs) (suc i) a b = ap (◌∷◌ x) (set-set xs i a b)

set_comm : (xs : List ℕ) (i j a b : ℕ) → i ≢ j → set (set xs i a) j b ≡ set (set xs j b) i a
set_comm [] i j a b h = refl
set_comm (x ∷ xs) zero zero a b h = absurd (h refl)
set_comm (x ∷ xs) zero (suc j) a b h = refl
set_comm (x ∷ xs) (suc i) zero a b h = refl
set_comm (x ∷ xs) (suc i) (suc j) a b h = ap (◌∷◌ x) (set_comm xs i j a b (λ e. h (ap suc e)))

set_get : (xs : List ℕ) (i a : ℕ) → get_elem? xs i ≡ some a → set xs i a ≡ xs
set_get [] i a h = refl
set_get (x ∷ xs) zero a h = cc
set_get (x ∷ xs) (suc i) a h = ap (◌∷◌ x) (set_get xs i a h)

pub length-put : (buf : List ℕ) (at v : ℕ) → length (put buf at v) ≡ length buf
length-put buf at v =
    ap length (put_lem buf at v)
    ∙ length-set (set buf at (v % 256)) (at + 1) _
    ∙ length-set buf at _

take-set_above : (xs : List ℕ) (n j v : ℕ) → n ≤ j → take n (set xs j v) ≡ take n xs
take-set_above xs zero j v h = refl
take-set_above [] (suc n) j v h = refl
take-set_above (x ∷ xs) (suc n) zero v h = absurd (omega arith)
take-set_above (x ∷ xs) (suc n) (suc j) v h = ap (◌∷◌ x) (take-set_above xs n j v (omega arith))

take-drop-set_above :
    (xs : List ℕ) (n off j v : ℕ)
    → off + n ≤ j
    → take n (drop off (set xs j v)) ≡ take n (drop off xs)
take-drop-set_above xs n zero j v h = take-set_above xs n j v (omega arith)
take-drop-set_above [] n (suc off) j v h = refl
take-drop-set_above (x ∷ xs) n (suc off) zero v h = absurd (omega arith)
take-drop-set_above (x ∷ xs) n (suc off) (suc j) v h =
    take-drop-set_above xs n off j v (omega arith)

slice-set_above :
    (xs : List ℕ) (off n j v : ℕ) → off + n ≤ j → slice (set xs j v) off n ≡ slice xs off n
unfolding slice
slice-set_above xs off n j v h =
    rw (length-set xs j v) (rw (take-drop-set_above xs n off j v h) refl)

-- A read below the write is not changed.
pub slice-put_above :
    (buf : List ℕ) (off n at v : ℕ) → off + n ≤ at → slice (put buf at v) off n ≡ slice buf off n
slice-put_above buf off n at v h =
    ap (λ (b : List ℕ). slice b off n) (put_lem buf at v)
    ∙ slice-set_above (set buf at (v % 256)) off n (at + 1) _ (omega arith)
    ∙ slice-set_above buf off n at _ h

take_two :
    (xs : List ℕ) (at next lo hi : ℕ)
    → next ≡ at + 1
    → next < length xs
    → take 2 (drop at (set (set xs at lo) next hi)) ≡ lo ∷ hi ∷ []
take_two [] at next lo hi e h = absurd (omega arith)
take_two (x ∷ xs) at zero lo hi e h = absurd (omega arith)
take_two (x ∷ []) zero (suc n) lo hi e h = absurd (omega arith)
take_two (x ∷ y ∷ xs) zero (suc zero) lo hi e h = refl
take_two (x ∷ y ∷ xs) zero (suc (suc n)) lo hi e h = absurd (omega arith)
take_two (x ∷ xs) (suc at) (suc n) lo hi e h = take_two xs at n lo hi (omega arith) (omega arith)

two_bytes :
    (xs : List ℕ) (at next : ℕ)
    → next ≡ at + 1
    → next < length xs
    → (b : ℕ) × (c : ℕ) × (get_elem? xs at ≡ some b)
      × (get_elem? xs next ≡ some c)
      × (take 2 (drop at xs) ≡ b ∷ c ∷ [])
two_bytes [] at next e h = absurd (omega arith)
two_bytes (x ∷ xs) at zero e h = absurd (omega arith)
two_bytes (x ∷ []) zero (suc n) e h = absurd (omega arith)
two_bytes (x ∷ y ∷ xs) zero (suc zero) e h = (x, y, refl, refl, refl)
two_bytes (x ∷ y ∷ xs) zero (suc (suc n)) e h = absurd (omega arith)
two_bytes (x ∷ xs) (suc at) (suc n) e h = two_bytes xs at n (omega arith) (omega arith)

-- The number written is the number read.
pub u16_at-put_self :
    (buf : List ℕ) (at v : ℕ) → at + 2 ≤ length buf → v < 2 ^ 16 → u16_at (put buf at v) at ≡ some v
unfolding u16_at from_le_bytes
u16_at-put_self buf at v h k =
    rw (slice_in (put buf at v) at 2 (omega (arith, length-put buf at v))) (
      rw (put_lem buf at v, take_two buf at (at + 1) (v % 256) (v / 256 % 256) refl (omega arith))
        (ap some (omega arith)))

u16_at_bytes :
    (buf : List ℕ) (at v : ℕ)
    → All IsByte buf
    → u16_at buf at ≡ some v
    → (get_elem? buf at ≡ some (v % 256)) × (get_elem? buf (at + 1) ≡ some (v / 256 % 256))
unfolding u16_at from_le_bytes
u16_at_bytes buf at v bytes h = elim (Option-cases (slice buf at 2)) [
  | inl e ↦ absurd (cc (e, h))
  | inr (pair, e) ↦
      let fits : at + 2 ≤ length buf = (slice-length buf at 2 e).1 in
      let (b, c, first, second, taken) = two_bytes buf at (at + 1) refl (omega arith) in
      let b_lt : b < 256 = All_get IsByte buf at b bytes first in
      let c_lt : c < 256 = All_get IsByte buf (at + 1) c bytes second in
      let value : v ≡ b + 256 * c = ground (arith, h, taken, slice_in buf at 2 fits) in
      (first ∙ ap some (omega arith), second ∙ ap some (omega arith))
]

-- Writing the number that stands there changes nothing.
pub put_own :
    (buf : List ℕ) (at v : ℕ) → All IsByte buf → u16_at buf at ≡ some v → put buf at v ≡ buf
put_own buf at v bytes h =
    let (first, second) = u16_at_bytes buf at v bytes h in
    put_lem buf at v
    ∙ ap (λ (b : List ℕ). set b (at + 1) (v / 256 % 256)) (set_get buf at (v % 256) first)
    ∙ set_get buf (at + 1) (v / 256 % 256) second

pub put-put : (buf : List ℕ) (at v w : ℕ) → put (put buf at v) at w ≡ put buf at w
unfolding put
put-put buf at v w =
    ap (λ (b : List ℕ). set b (at + 1) (w / 256 % 256))
      (set_comm (set buf at (v % 256)) (at + 1) at _ _ (omega arith)
        ∙ ap (λ (b : List ℕ). set b (at + 1) (v / 256 % 256)) (set-set buf at (v % 256) (w % 256)))
    ∙ set-set (set buf at (w % 256)) (at + 1) _ _

-- A write to two bytes commutes with a write of one byte elsewhere, and so with another such write.
set_two_comm :
    (buf : List ℕ) (i j a b c : ℕ)
    → i + 2 ≤ j
    → set (set (set buf i a) (i + 1) b) j c ≡ set (set (set buf j c) i a) (i + 1) b
set_two_comm buf i j a b c h =
    set_comm (set buf i a) (i + 1) j b c (omega arith)
    ∙ ap (λ (x : List ℕ). set x (i + 1) b) (set_comm buf i j a c (omega arith))

pub put_comm :
    (buf : List ℕ) (i j v w : ℕ) → i + 2 ≤ j → put (put buf i v) j w ≡ put (put buf j w) i v
unfolding put
put_comm buf i j v w h =
    ap (λ (x : List ℕ). set x (j + 1) (w / 256 % 256)) (set_two_comm buf i j _ _ (w % 256) h)
    ∙ set_two_comm (set buf j (w % 256)) i (j + 1) _ _ _ (omega arith)

pub put-IsByte : (buf : List ℕ) (at v : ℕ) → All IsByte buf → All IsByte (put buf at v)
unfolding put
put-IsByte buf at v h =
    All-set IsByte _ (at + 1) _ (All-set IsByte buf at _ h (omega arith)) (omega arith)

drop-set_below : (xs : List ℕ) (off j v : ℕ) → j < off → drop off (set xs j v) ≡ drop off xs
drop-set_below xs zero j v h = absurd (omega arith)
drop-set_below [] (suc off) j v h = refl
drop-set_below (x ∷ xs) (suc off) zero v h = refl
drop-set_below (x ∷ xs) (suc off) (suc j) v h = drop-set_below xs off j v (omega arith)

slice-set_below :
    (xs : List ℕ) (off n j v : ℕ) → j < off → slice (set xs j v) off n ≡ slice xs off n
unfolding slice
slice-set_below xs off n j v h = rw (length-set xs j v, drop-set_below xs off j v h)

-- A read above the write is not changed.
pub u16_at-put_below :
    (buf : List ℕ) (off at v : ℕ) → at + 2 ≤ off → u16_at (put buf at v) off ≡ u16_at buf off
unfolding u16_at put
u16_at-put_below buf off at v h = rw (
  slice-set_below (set buf at (v % 256)) off 2 (at + 1) (v / 256 % 256) (omega arith),
  slice-set_below buf off 2 at (v % 256) (omega arith),
)

pub u16_at-put_above :
    (buf : List ℕ) (off at v : ℕ) → off + 2 ≤ at → u16_at (put buf at v) off ≡ u16_at buf off
unfolding u16_at
u16_at-put_above buf off at v h = rw (slice-put_above buf off 2 at v h)

pub u16_at_inside :
    (buf : List ℕ) (off : ℕ) {v : ℕ} → u16_at buf off ≡ some v → off + 2 ≤ length buf
unfolding u16_at
u16_at_inside buf off h = elim (Option-cases (slice buf off 2)) [
  | inl e ↦ absurd (cc (e, h))
  | inr (pair, e) ↦ (slice-length buf off 2 e).1
]

pub u16_at-lt : (buf : List ℕ) (off v : ℕ) → All IsByte buf → u16_at buf off ≡ some v → v < 2 ^ 16
unfolding u16_at
u16_at-lt buf off v bytes h = elim (Option-cases (slice buf off 2)) [
  | inl e ↦ absurd (cc (e, h))
  | inr (pair, e) ↦
      let fits : from_le_bytes pair < 256 ^ length pair =
        from_le_bytes-lt pair (slice-IsByte buf off 2 pair bytes e) in
      ground (arith, fits, ap (λ (n : ℕ). 256 ^ n) (slice-length buf off 2 e).0)
]
