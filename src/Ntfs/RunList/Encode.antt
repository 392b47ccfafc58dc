-- ===== src/Ntfs/RunList/Encode.antt =====
-- An encoder of data runs, at any widths that hold the numbers, and one round of the decoder on it.
use batuta.Base.{ℕ, zero, suc, ◌+◌, ◌-◌, ◌*◌, ◌/◌, ◌^◌, ◌≤◌, ◌<◌, ◌≡◌, refl, ap, subst, ◌∙◌, arith}
use batuta.Base.{Option, none, some, List, [], ◌∷◌, ◌++◌, bit_and, All, false}
use batuta.Base.{length as length_of}
use batuta.Base.Bits.{bit_and_fifteen}
use batuta.Base.Int.{ℤ, pos, negsuc, sub_ℕ, checked_add_i64}
use batuta.Ntfs.Bytes.{ok, IsByte, from_le_bytes, to_le_bytes}
use batuta.Ntfs.Bytes.Laws.{
  slice-append, to_le_bytes-IsByte, length-to_le_bytes, from_le_bytes-to_le_bytes,
}
use batuta.Ntfs.RunList.{Run, read_uint, read_int, read_lcn, parse_run}
use batuta.Ntfs.RunList.{over_cap, checked_add_u64}
use batuta.Ntfs.RunList.Integers.{or_bytes_lem, signed, sign_extend-signed, pow_eight_more}
use batuta.Ntfs.RunList.Decode.{LcnFits}
use native.Mathlib.Nat.{pow-suc}

-- A run, and the widths at which its length and its offset are written.
pub record Entry : Type 0 where
  pub len_size : ℕ
  pub off_size : ℕ
  pub run : Run

-- Two's complement at `size` bytes.
abbrev pub twos : ℕ → ℤ → ℕ
twos size (pos n) = n
twos size (negsuc n) = 2 ^ (size * 8) - n - 1

-- The offset field: nothing for a hole, else the distance from the last LCN.
unfoldable pub offset_bytes : ℕ → ℕ → Option ℕ → List ℕ
offset_bytes prev size none = []
offset_bytes prev size (some lcn) = to_le_bytes size (twos size (sub_ℕ lcn prev))

unfoldable pub encode_entry : ℕ → Entry → List ℕ
unfolding offset_bytes
encode_entry prev e =
    (e.off_size * 16 + e.len_size)
    ∷ (to_le_bytes e.len_size e.run.length ++ offset_bytes prev e.off_size e.run.lcn)

abbrev pub next_prev : ℕ → Option ℕ → ℕ
next_prev prev none = prev
next_prev prev (some lcn) = lcn

unfoldable pub encode : ℕ → List Entry → List ℕ
unfolding encode_entry
encode prev [] = []
encode prev (e ∷ es) = encode_entry prev e ++ encode (next_prev prev e.run.lcn) es

abbrev pub InWidth : ℕ → ℤ → Type 0
InWidth size (pos n) = n < 2 ^ (size * 8 - 1)
InWidth size (negsuc n) = n < 2 ^ (size * 8 - 1)

-- The widths hold the numbers; a hole has no offset field.
abbrev pub OffsetFits : ℕ → ℕ → Option ℕ → Type 0
OffsetFits prev size none = size ≡ 0
OffsetFits prev size (some lcn) = (0 < size) × (size ≤ 8) × InWidth size (sub_ℕ lcn prev)

abbrev pub EntryFits : ℕ → Entry → Type 0
EntryFits prev e =
    (1 ≤ e.len_size)
    × (e.len_size ≤ 8)
    × (e.run.length < 256 ^ e.len_size)
    × OffsetFits prev e.off_size e.run.lcn

abbrev pub AllFit : ℕ → List Entry → Type 0
AllFit prev [] = Unit
AllFit prev (e ∷ es) = EntryFits prev e × AllFit (next_prev prev e.run.lcn) es

abbrev pub runs_of : List Entry → List Run
runs_of [] = []
runs_of (e ∷ es) = e.run ∷ runs_of es

pub read_uint-append :
    (front bytes back : List ℕ)
    → All IsByte bytes
    → read_uint (front ++ (bytes ++ back)) (length_of front) (length_of bytes)
      ≡ some (from_le_bytes bytes)
unfolding read_uint
read_uint-append front bytes back h =
    rw (slice-append front bytes back)
      (ap some (or_bytes_lem bytes 0 0 h (omega arith) ∙ omega arith))

pow_256 : (n : ℕ) → 256 ^ n ≡ 2 ^ (n * 8)
pow_256 zero = refl
pow_256 (suc n) = omega (arith, pow_256 n, pow-suc 256 n, one_more, pow_eight_more n)
  where
    one_more : 2 ^ (suc n * 8) ≡ 2 ^ ((n + 1) * 8)
    one_more = ap (λ (t : ℕ). 2 ^ t) (omega arith)

half_width : (size : ℕ) → 0 < size → 2 ^ (size * 8) ≡ 2 * 2 ^ (size * 8 - 1)
half_width size h = ap (λ (t : ℕ). 2 ^ t) top ∙ omega (arith, pow-suc 2 (size * 8 - 1))
  where
    top : size * 8 ≡ suc (size * 8 - 1)
    top = omega arith

signed-twos : (size : ℕ) (z : ℤ) → 0 < size → InWidth size z → signed size (twos size z) ≡ z
unfolding signed
signed-twos size (pos n) h k = ground (arith, half_width size h)
signed-twos size (negsuc n) h k = ground (arith, half_width size h)

twos-lt : (size : ℕ) (z : ℤ) → 0 < size → InWidth size z → twos size z < 256 ^ size
twos-lt size (pos n) h k = rw (pow_256 size) (omega (arith, half_width size h))
twos-lt size (negsuc n) h k = rw (pow_256 size) (omega (arith, half_width size h))

read_int-append :
    (front back : List ℕ) (size : ℕ) (z : ℤ)
    → 0 < size
    → size ≤ 8
    → InWidth size z
    → read_int (front ++ (to_le_bytes size (twos size z) ++ back)) (length_of front) size ≡ some z
unfolding read_int
read_int-append front back size z h k w =
    let bytes : List ℕ = to_le_bytes size (twos size z) in
    let read : read_uint (front ++ (bytes ++ back)) (length_of front) size ≡ some (twos size z) =
      subst
        (λ (n : ℕ).
          read_uint (front ++ (bytes ++ back)) (length_of front) n ≡ some (from_le_bytes bytes))
        (length-to_le_bytes size (twos size z))
        (read_uint-append front bytes back (to_le_bytes-IsByte size (twos size z)))
      ∙ ap some (from_le_bytes-to_le_bytes size (twos size z) (twos-lt size z h w)) in
    rw read (
      ap some
        (sign_extend-signed size (twos size z) h k (twos-lt size z h w) ∙ signed-twos size z h w))

checked_add-sub :
    (prev lcn : ℕ) → lcn < 2 ^ 63 → checked_add_i64 (pos prev) (sub_ℕ lcn prev) ≡ some (pos lcn)
unfolding checked_add_i64
checked_add-sub prev lcn h = ground arith

pub read_lcn-append :
    (front back : List ℕ) (start prev size : ℕ) (lcn : Option ℕ)
    → LcnFits lcn
    → OffsetFits prev size lcn
    → read_lcn
        (front ++ (offset_bytes prev size lcn ++ back))
        start
        (length_of front)
        size
        (pos prev)
      ≡ ok (lcn, pos (next_prev prev lcn))
unfolding read_lcn offset_bytes
read_lcn-append front back start prev zero none fits w = refl
read_lcn-append front back start prev (suc n) none fits w = absurd (omega arith)
read_lcn-append front back start prev zero (some lcn) fits w = absurd (omega arith)
read_lcn-append front back start prev (suc n) (some lcn) fits (w, k, i) =
    rw (read_int-append front back (suc n) (sub_ℕ lcn prev) w k i, checked_add-sub prev lcn fits)

header_fields :
    (e : Entry)
    → e.len_size ≤ 8
    → (bit_and (e.off_size * 16 + e.len_size) 0x0F ≡ e.len_size)
      × ((e.off_size * 16 + e.len_size) / 16 ≡ e.off_size)
header_fields e h = (omega (arith, bit_and_fifteen (e.off_size * 16 + e.len_size)), omega arith)

pub off_size-le : (prev size : ℕ) (lcn : Option ℕ) → OffsetFits prev size lcn → size ≤ 8
off_size-le prev size none h = omega arith
off_size-le prev size (some lcn) h = h.1

-- A round of the loop, from the two reads that it makes.
pub round :
    (buf : List ℕ) (most : Option ℕ) (start vcn prev : ℕ) (e : Entry)
    → EntryFits prev e
    → e.run.vcn ≡ vcn
    → 0 < e.run.length
    → vcn + e.run.length < 2 ^ 64
    → over_cap most (vcn + e.run.length) ≡ false
    → read_uint buf (start + 1) e.len_size ≡ some e.run.length
    → read_lcn buf start (start + 1 + e.len_size) e.off_size (pos prev)
      ≡ ok (e.run.lcn, pos (next_prev prev e.run.lcn))
    → parse_run buf most
        (e.off_size * 16 + e.len_size)
        (record { pos = start; vcn = vcn; prev_lcn = pos prev })
      ≡ ok (
        e.run,
        record {
          pos = start + 1 + e.len_size + e.off_size;
          vcn = vcn + e.run.length;
          prev_lcn = pos (next_prev prev e.run.lcn);
        },
      )
unfolding parse_run checked_add_u64
round buf most start vcn prev e fits begins full small under len lcn =
    rw (header_fields e fits.1).0 (
      rw (header_fields e fits.1).1
        (rw (len, lcn) (ground (arith, off_size-le prev e.off_size e.run.lcn fits.3))))
