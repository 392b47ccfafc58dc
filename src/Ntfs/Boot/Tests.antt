-- ===== src/Ntfs/Boot/Tests.antt =====
-- The boot sector of the source's own test, and the theorems at it.
use batuta.Base.{ℕ, ◌*◌, ◌^◌, ◌≤◌, ◌≡◌, refl, List, [], ◌∷◌, ◌++◌, replicate}
use batuta.Ntfs.Bytes.{ok, slice, from_le_bytes, u8_at, u16_at, u64_at, i8_at}
use batuta.Ntfs.Bytes.Results.{Answers}
use batuta.Ntfs.Boot.{BootSector, parse, cluster_size, bytes_eq, decode_sectors_per_cluster}
use batuta.Ntfs.Boot.{decode_record_size}
use batuta.Ntfs.Boot.Geometry.{
  IsGeometry, parse-IsGeometry, cluster_size-IsGeometry, IsBootError, parse-Answers,
}

-- 512-byte sectors, 8 sectors to a cluster, file records of 2 ^ 10 bytes.
abbrev sample : List ℕ
sample =
    0xEB
    ∷ 0x52
    ∷ 0x90
    ∷ b'N'
    ∷ b'T'
    ∷ b'F'
    ∷ b'S'
    ∷ 0x20
    ∷ 0x20
    ∷ 0x20
    ∷ 0x20
    ∷ 0x00
    ∷ 0x02
    ∷ 0x08
    ∷ (replicate 26 0
        ++ (0x40
            ∷ 0x42
            ∷ 0x0F
            ∷ 0
            ∷ 0
            ∷ 0
            ∷ 0
            ∷ 0
            ∷ 0
            ∷ 0
            ∷ 0x0C
            ∷ 0
            ∷ 0
            ∷ 0
            ∷ 0
            ∷ 0
            ∷ 2
            ∷ 0
            ∷ 0
            ∷ 0
            ∷ 0
            ∷ 0
            ∷ 0
            ∷ 0
            ∷ 0xF6
            ∷ 0
            ∷ 0
            ∷ 0
            ∷ 0xF4
            ∷ 0
            ∷ 0
            ∷ 0
            ∷ replicate 440 0))

abbrev sample_boot : BootSector
sample_boot = record {
  bytes_per_sector = 512;
  sectors_per_cluster = 8;
  total_sectors = 1000000;
  mft_lcn = 786432;
  mft_mirror_lcn = 2;
  file_record_size = 1024;
  index_record_size = 4096;
  volume_serial = 0;
}

sample_parses : parse sample ≡ ok sample_boot
unfolding parse slice from_le_bytes u8_at u16_at u64_at i8_at bytes_eq decode_sectors_per_cluster
    decode_record_size
sample_parses = refl

parse-IsGeometry_example : IsGeometry sample_boot
parse-IsGeometry_example = parse-IsGeometry sample sample_boot sample_parses

cluster_size-IsGeometry_example :
    (cluster_size sample_boot ≡ 512 * 8) × (cluster_size sample_boot ≤ 2 ^ 43)
cluster_size-IsGeometry_example =
    cluster_size-IsGeometry sample_boot (parse-IsGeometry sample sample_boot sample_parses)

parse-Answers_example : Answers (IsBootError (1 ∷ [])) (parse (1 ∷ []))
parse-Answers_example = parse-Answers (1 ∷ [])
