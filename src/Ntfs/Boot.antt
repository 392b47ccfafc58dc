-- ===== src/Ntfs/Boot.antt =====
-- crates/batuta-ntfs/src/boot.rs: the boot sector of an NTFS volume.
pub mod Geometry
mod Tests
use batuta.Base.{ℕ, zero, suc, ◌+◌, ◌-◌, ◌*◌, ◌/◌, ◌%◌, ◌^◌, ◌≤◌, ◌<◌}
use batuta.Base.{Bool, true, false, not, ◌&&◌, ◌||◌, Option, none, some, List, [], ◌∷◌}
use batuta.Base.{length, ltb, leb, ◌==◌, if◌then◌else◌}
use batuta.Base.Int.{ℤ, pos, negsuc}
use batuta.Ntfs.Bytes.{
  Result, ok, err, truncated, not_ntfs, bad_boot_sector, ok_or, or_panic, reject,
}
use batuta.Ntfs.Bytes.{unwrap_or, slice, u8_at, u16_at, u64_at, i8_at, ◌>>=◌, ◌>>◌}

pub record BootSector : Type 0 where
  pub bytes_per_sector : ℕ
  pub sectors_per_cluster : ℕ
  pub total_sectors : ℕ
  pub mft_lcn : ℕ
  pub mft_mirror_lcn : ℕ
  pub file_record_size : ℕ
  pub index_record_size : ℕ
  pub volume_serial : ℕ

-- The products are u64s, which wrap in a release build.
unfoldable pub cluster_size : BootSector → ℕ
cluster_size b = b.bytes_per_sector * b.sectors_per_cluster % 2 ^ 64

unfoldable pub mft_offset : BootSector → ℕ
unfolding cluster_size
mft_offset b = b.mft_lcn * cluster_size b % 2 ^ 64

-- `==` on byte slices
unfoldable pub bytes_eq : List ℕ → List ℕ → Bool
bytes_eq [] [] = true
bytes_eq [] (y ∷ ys) = false
bytes_eq (x ∷ xs) [] = false
bytes_eq (x ∷ xs) (y ∷ ys) = x == y && bytes_eq xs ys

-- b"NTFS    "
abbrev pub oem_id : List ℕ
oem_id = b'N' ∷ b'T' ∷ b'F' ∷ b'S' ∷ 0x20 ∷ 0x20 ∷ 0x20 ∷ 0x20 ∷ []

-- `matches!(n, a | b | ...)`
abbrev pub one_of : List ℕ → ℕ → Bool
one_of [] n = false
one_of (x ∷ xs) n = n == x || one_of xs n

abbrev pub sector_sizes : List ℕ
sector_sizes = 256 ∷ 512 ∷ 1024 ∷ 2048 ∷ 4096 ∷ []

-- `u8::is_power_of_two`
abbrev pub is_power_of_two : ℕ → Bool
is_power_of_two = one_of (1 ∷ 2 ∷ 4 ∷ 8 ∷ 16 ∷ 32 ∷ 64 ∷ 128 ∷ [])

-- Values above 0x80 encode 2 ^ (256 - value) sectors.
unfoldable pub decode_sectors_per_cluster : ℕ → Result ℕ
decode_sectors_per_cluster raw =
    if raw == 0
    then err (bad_boot_sector "sectors per cluster is zero")
    else if leb raw 0x80
    then (if is_power_of_two raw
        then ok raw
        else err (bad_boot_sector "sectors per cluster not a power of two"))
    else if leb 32 (256 - raw)
    then err (bad_boot_sector "sectors per cluster shift too large")
    else ok (2 ^ (256 - raw))

-- `u32::try_from`
abbrev pub u32_try_from : ℕ → Option ℕ
u32_try_from n = if ltb n (2 ^ 32) then some n else none

-- Positive: so many clusters; else 2 ^ -raw bytes.
unfoldable pub decode_record_size : ℤ → ℕ → Option ℕ
decode_record_size (pos zero) cluster = some 1
decode_record_size (pos (suc n)) cluster = u32_try_from (suc n * cluster)
decode_record_size (negsuc n) cluster = if leb 32 (suc n) then none else some (2 ^ suc n)

abbrev pub i8_or_zero : Option ℤ → ℤ
i8_or_zero (some z) = z
i8_or_zero none = pos 0

unfoldable pub parse : List ℕ → Result BootSector
parse buf = do
  reject (ltb (length buf) 512) (truncated 512 (length buf))
  oem ← or_panic (slice buf 3 8)
  reject (not (bytes_eq oem oem_id)) not_ntfs
  let bytes_per_sector = unwrap_or (u16_at buf 0x0B) 0
  reject (not (one_of sector_sizes bytes_per_sector)) (bad_boot_sector "bytes per sector")
  sectors_per_cluster ← decode_sectors_per_cluster (unwrap_or (u8_at buf 0x0D) 0)
  let cluster = bytes_per_sector * sectors_per_cluster
  file_record_size ←
      ok_or (decode_record_size (i8_or_zero (i8_at buf 0x40)) cluster)
        (bad_boot_sector "file record size")
  index_record_size ←
      ok_or (decode_record_size (i8_or_zero (i8_at buf 0x44)) cluster)
        (bad_boot_sector "index record size")
  reject (ltb file_record_size 48 || not (file_record_size % bytes_per_sector == 0))
      (bad_boot_sector "file record size not sector aligned")
  ok (record {
    bytes_per_sector = bytes_per_sector;
    sectors_per_cluster = sectors_per_cluster;
    total_sectors = unwrap_or (u64_at buf 0x28) 0;
    mft_lcn = unwrap_or (u64_at buf 0x30) 0;
    mft_mirror_lcn = unwrap_or (u64_at buf 0x38) 0;
    file_record_size = file_record_size;
    index_record_size = index_record_size;
    volume_serial = unwrap_or (u64_at buf 0x48) 0;
  })
