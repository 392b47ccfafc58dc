-- ===== src/Ntfs/Boot/Geometry.antt =====
-- What the parser of the boot sector guarantees of the geometry that it accepts.
use batuta.Base.{
  ℕ, zero, suc, ◌+◌, ◌-◌, ◌*◌, ◌%◌, ◌^◌, ◌≤◌, ◌<◌, ◌≡◌, refl, sym, [], ◌∷◌, All, arith,
}
use batuta.Base.{Bool, true, false, not, ◌||◌, some, List, inl, inr}
use batuta.Base.{Bool-cases, ltb→lt, ==_iff, subst, length, ltb, leb, ◌==◌}
use batuta.Base.Int.{ℤ, pos, negsuc}
use native.Mathlib.Nat.{pow-le-pow_right}
use batuta.Ntfs.Bytes.{ok, truncated, not_ntfs, bad_boot_sector, NtfsError, ok_or, or_panic}
use batuta.Ntfs.Bytes.{reject, unwrap_or, slice, u8_at, u16_at, i8_at}
use batuta.Ntfs.Bytes.Laws.{slice_in}
use batuta.Ntfs.Bytes.Results.{
  bind-eq-ok, ok_or-eq-ok, reject-eq-ok, ok_injective, Answers, value, answers_rules, Answers-bind,
  Answers-reject_if,
}
use batuta.Ntfs.Boot.{
  BootSector, parse, decode_sectors_per_cluster, decode_record_size, cluster_size,
}
use batuta.Ntfs.Boot.{one_of, sector_sizes, is_power_of_two, i8_or_zero, bytes_eq, oem_id}

-- A power of two with an exponent in a range.
abbrev pub IsPower : ℕ → ℕ → ℕ → Type 0
IsPower lo hi n = (k : ℕ) × (lo ≤ k) × (k ≤ hi) × (n ≡ 2 ^ k)

pub record IsGeometry (b : BootSector) : Type 0 where
  pub sector : IsPower 8 12 b.bytes_per_sector
  pub cluster : IsPower 0 31 b.sectors_per_cluster
  pub record_min : 48 ≤ b.file_record_size
  pub record_u32 : b.file_record_size < 2 ^ 32
  pub index_u32 : b.index_record_size < 2 ^ 32
  pub aligned : b.file_record_size % b.bytes_per_sector ≡ 0

one_of-All : (P : ℕ → Type 0) (xs : List ℕ) (n : ℕ) → one_of xs n ≡ true → All P xs → P n
one_of-All P [] n h a = cc
one_of-All P (x ∷ xs) n h a = elim (Bool-cases (n == x)) [
  | inl e ↦ subst P (sym ((==_iff n x).0 e)) a.0
  | inr e ↦ one_of-All P xs n (rw e at h) a.1
]

abbrev power : (lo hi k : ℕ) → lo ≤ k → k ≤ hi → IsPower lo hi (2 ^ k)
power lo hi k a b = (k, a, b, refl)

sector_sizes-IsPower : All (IsPower 8 12) sector_sizes
sector_sizes-IsPower = (
  power 8 12 8 (omega arith) (omega arith),
  (
    power 8 12 9 (omega arith) (omega arith),
    (
      power 8 12 10 (omega arith) (omega arith),
      (power 8 12 11 (omega arith) (omega arith), (power 8 12 12 (omega arith) (omega arith), tt)),
    ),
  ),
)

byte_powers-IsPower : All (IsPower 0 31) (1 ∷ 2 ∷ 4 ∷ 8 ∷ 16 ∷ 32 ∷ 64 ∷ 128 ∷ [])
byte_powers-IsPower = (
  power 0 31 0 (omega arith) (omega arith),
  (
    power 0 31 1 (omega arith) (omega arith),
    (
      power 0 31 2 (omega arith) (omega arith),
      (
        power 0 31 3 (omega arith) (omega arith),
        (
          power 0 31 4 (omega arith) (omega arith),
          (
            power 0 31 5 (omega arith) (omega arith),
            (
              power 0 31 6 (omega arith) (omega arith),
              (power 0 31 7 (omega arith) (omega arith), tt),
            ),
          ),
        ),
      ),
    ),
  ),
)

is_power_of_two-IsPower : (n : ℕ) → is_power_of_two n ≡ true → IsPower 0 31 n
is_power_of_two-IsPower n h =
    one_of-All (IsPower 0 31) (1 ∷ 2 ∷ 4 ∷ 8 ∷ 16 ∷ 32 ∷ 64 ∷ 128 ∷ []) n h byte_powers-IsPower

decode_sectors-IsPower : (raw n : ℕ) → decode_sectors_per_cluster raw ≡ ok n → IsPower 0 31 n
unfolding decode_sectors_per_cluster
decode_sectors-IsPower raw n h = elim (Bool-cases (leb raw 0x80)) [
  | inl small ↦ elim (Bool-cases (is_power_of_two raw)) [
    | inl two ↦ subst (IsPower 0 31) (ground arith) (is_power_of_two-IsPower raw two)
    | inr not_two ↦ absurd (ground arith)
  ]
  | inr large ↦ (256 - raw, omega arith, ground arith, ground arith)
]

pow_lt : (m : ℕ) → suc m < 32 → 2 ^ suc m < 2 ^ 32
pow_lt m h =
    omega (arith, pow-le-pow_right {n = 2} (omega arith) {i = suc m} {j = 31} (omega arith))

decode_record_size-u32 :
    (raw : ℤ) (cluster n : ℕ) → decode_record_size raw cluster ≡ some n → n < 2 ^ 32
unfolding decode_record_size
decode_record_size-u32 (pos zero) cluster n h = ground arith
decode_record_size-u32 (pos (suc m)) cluster n h = ground arith
decode_record_size-u32 (negsuc m) cluster n h = ground (arith, pow_lt m)

not-false : (b : Bool) → not b ≡ false → b ≡ true
not-false b h = ground arith

-- A boot sector that `parse` accepts has the geometry that the rest of the reader relies on: sectors
-- of 2 ^ 8 to 2 ^ 12 bytes, clusters of 2 ^ 0 to 2 ^ 31 sectors, and file records of at least
-- 48 bytes that are whole sectors; both record sizes fit 32 bits.
pub parse-IsGeometry : (buf : List ℕ) (b : BootSector) → parse buf ≡ ok b → IsGeometry b
unfolding parse
parse-IsGeometry buf b h =
    let (u₁, long, h₁) =
      bind-eq-ok (reject (ltb (length buf) 512) (truncated 512 (length buf))) _ h in
    let (oem, sliced, h₂) = bind-eq-ok (or_panic (slice buf 3 8)) _ h₁ in
    let (u₂, same, h₃) = bind-eq-ok (reject (not (bytes_eq oem oem_id)) not_ntfs) _ h₂ in
    let bps = unwrap_or (u16_at buf 0x0B) 0 in
    let (u₃, sector, h₄) =
      bind-eq-ok (reject (not (one_of sector_sizes bps)) (bad_boot_sector "bytes per sector")) _
        h₃ in
    let (spc, cluster, h₅) =
      bind-eq-ok (decode_sectors_per_cluster (unwrap_or (u8_at buf 0x0D) 0)) _ h₄ in
    let (frs, file, h₆) =
      bind-eq-ok
        (ok_or (decode_record_size (i8_or_zero (i8_at buf 0x40)) (bps * spc))
          (bad_boot_sector "file record size"))
        _ h₅ in
    let (irs, index, h₇) =
      bind-eq-ok
        (ok_or (decode_record_size (i8_or_zero (i8_at buf 0x44)) (bps * spc))
          (bad_boot_sector "index record size"))
        _ h₆ in
    let (u₄, aligned, h₈) =
      bind-eq-ok
        (reject (ltb frs 48 || not (frs % bps == 0))
          (bad_boot_sector "file record size not sector aligned"))
        _ h₇ in
    subst IsGeometry (ok_injective _ _ h₈) (record {
      sector =
          one_of-All (IsPower 8 12) sector_sizes bps (not-false _ (reject-eq-ok _ _ sector))
            sector_sizes-IsPower;
      cluster = decode_sectors-IsPower _ spc cluster;
      record_min = ground (arith, reject-eq-ok _ _ aligned);
      record_u32 = decode_record_size-u32 _ _ frs (ok_or-eq-ok _ _ file);
      index_u32 = decode_record_size-u32 _ _ irs (ok_or-eq-ok _ _ index);
      aligned = ground (arith, reject-eq-ok _ _ aligned);
    })

-- On such a geometry the size of a cluster does not wrap.
pub cluster_size-IsGeometry :
    (b : BootSector)
    → IsGeometry b
    → (cluster_size b ≡ b.bytes_per_sector * b.sectors_per_cluster) × (cluster_size b ≤ 2 ^ 43)
unfolding cluster_size
cluster_size-IsGeometry b g =
    let (i, a, i_le, e) = g.sector in
    let (k, c, k_le, f) = g.cluster in
    let sector_le : b.bytes_per_sector ≤ 2 ^ 12 =
      omega (arith, e, pow-le-pow_right {n = 2} (omega arith) {i = i} {j = 12} i_le) in
    let cluster_le : b.sectors_per_cluster ≤ 2 ^ 31 =
      omega (arith, f, pow-le-pow_right {n = 2} (omega arith) {i = k} {j = 31} k_le) in
    let product_le : b.bytes_per_sector * b.sectors_per_cluster ≤ 2 ^ 43 =
      product _ _ sector_le cluster_le in
    (omega arith, omega arith)
  where
    product : (x y : ℕ) → x ≤ 2 ^ 12 → y ≤ 2 ^ 31 → x * y ≤ 2 ^ 43
    product x y h k = grind arith

-- The errors of this parser: too short exactly when it is, and no other parser's error.
abbrev pub IsBootError : List ℕ → NtfsError → Type 0
IsBootError buf (truncated need have) = (need ≡ 512) × (have ≡ length buf) × (length buf < 512)
IsBootError buf not_ntfs = Unit
IsBootError buf (bad_boot_sector what) = Unit
IsBootError buf _ = ⊥

decode_sectors-Answers :
    (buf : List ℕ) (raw : ℕ) → Answers (IsBootError buf) (decode_sectors_per_cluster raw)
unfolding decode_sectors_per_cluster
decode_sectors-Answers buf raw = search answers_rules

slice-Answers :
    {E : NtfsError → Type 0} (buf : List ℕ) (off size : ℕ)
    → off + size ≤ length buf
    → Answers E (or_panic (slice buf off size))
slice-Answers buf off size h = rw (slice_in buf off size h) (value _)

-- `parse` answers on every input: it never indexes out of range.
pub parse-Answers : (buf : List ℕ) → Answers (IsBootError buf) (parse buf)
unfolding parse
parse-Answers buf =
    Answers-bind (reject (ltb (length buf) 512) (truncated 512 (length buf))) _
      (Answers-reject_if _ _ λ short. (refl, refl, ltb→lt _ _ short))
      λ u long.
        Answers-bind (or_panic (slice buf 3 8)) _
          (slice-Answers buf 3 8 (ground (arith, reject-eq-ok _ _ long)))
          λ oem _. search (answers_rules, decode_sectors-Answers) depth 20
