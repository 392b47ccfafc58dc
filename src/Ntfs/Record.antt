-- ===== src/Ntfs/Record.antt =====
-- crates/batuta-ntfs/src/record.rs: the fixups and the header of an MFT file record.
pub mod Writes
pub mod Fixups
pub mod Torn
mod Tests
use batuta.Base.{ℕ, zero, suc, ◌+◌, ◌-◌, ◌*◌, ◌/◌, ◌%◌, ◌^◌, ◌≤◌, ◌<◌, bit_and}
use batuta.Base.{Bool, true, false, not, ◌&&◌, ◌||◌, Option, none, some, List, [], ◌∷◌}
use batuta.Base.{length, set, ltb, leb, ◌==◌, if◌then◌else◌}
use batuta.Ntfs.Bytes.{
  Result, ok, err, panic, stuck, NtfsError, truncated, not_a_file_record, bad_fixup,
}
use batuta.Ntfs.Bytes.{bad_attribute, ok_or, or_panic, reject, unwrap_or, slice, to_le_bytes}
use batuta.Ntfs.Bytes.{u16_at, u32_at, u64_at, ◌>>=◌, ◌>>◌}
use batuta.Ntfs.Boot.{bytes_eq}

abbrev pub header_min : ℕ
header_min = 0x30

-- b"FILE"
abbrev pub file_magic : List ℕ
file_magic = b'F' ∷ b'I' ∷ b'L' ∷ b'E' ∷ []

-- `buf[at..at + bytes.len()].copy_from_slice(bytes)` where the range is inside.
unfoldable pub copy_into : List ℕ → ℕ → List ℕ → List ℕ
copy_into buf at [] = buf
copy_into buf at (b ∷ bytes) = copy_into (set buf at b) (at + 1) bytes

unfoldable pub write_u16 : List ℕ → ℕ → ℕ → Result (List ℕ)
unfolding copy_into
write_u16 buf at v =
    if leb (at + 2) (length buf) then ok (copy_into buf at (to_le_bytes 2 v)) else panic

-- One round of the loop, on sector `i`.
unfoldable pub fix_sector : ℕ → ℕ → ℕ → ℕ → List ℕ → Result (List ℕ)
fix_sector usa_offset usn sector_size i buf = do
  saved ← ok_or (u16_at buf (usa_offset + 2 + i * 2)) (bad_fixup "truncated update sequence array")
  let tail = (i + 1) * sector_size - 2
  current ← ok_or (u16_at buf tail) (bad_fixup "record shorter than its sectors")
  reject (not (current == usn)) (bad_fixup "sector sequence number mismatch")
  write_u16 buf tail saved

-- The buffer is changed in place, so what was written before an error stays.
abbrev pub Patched : Type 0
Patched = Result (Unit {0}) × List ℕ

abbrev pub after : Result (List ℕ) → List ℕ → (List ℕ → Patched) → Patched
after (ok buf') buf k = k buf'
after (err e) buf k = (err e, buf)
after panic buf k = (panic, buf)
after stuck buf k = (stuck, buf)

-- `for i in i..i + left`
unfoldable pub fix_sectors : ℕ → ℕ → ℕ → ℕ → ℕ → List ℕ → Patched
fix_sectors usa_offset usn sector_size zero i buf = (ok tt, buf)
fix_sectors usa_offset usn sector_size (suc left) i buf =
    after (fix_sector usa_offset usn sector_size i buf) buf
      λ buf'. fix_sectors usa_offset usn sector_size left (i + 1) buf'

-- What is checked before the loop: the array's offset, its sequence number and the sector count.
pub record UpdateSequence : Type 0 where
  pub usa_offset : ℕ
  pub usn : ℕ
  pub fixup_count : ℕ

unfoldable pub update_sequence : List ℕ → ℕ → Result UpdateSequence
update_sequence buf sector_size = do
  reject (ltb (length buf) header_min) (truncated header_min (length buf))
  magic ← or_panic (slice buf 0 4)
  reject (not (bytes_eq magic file_magic)) not_a_file_record
  let usa_offset = unwrap_or (u16_at buf 0x04) 0
  let usa_count = unwrap_or (u16_at buf 0x06) 0
  reject (usa_count == 0) (bad_fixup "zero update sequence count")
  reject (ltb sector_size 4) (bad_fixup "sector size too small")
  let fixup_count = usa_count - 1
  reject (ltb (length buf) (fixup_count * sector_size))
      (bad_fixup "update sequence array covers more than the record")
  reject (ltb usa_offset 0x2A || ltb (length buf) (usa_offset + usa_count * 2))
      (bad_fixup "update sequence array out of bounds")
  usn ← ok_or (u16_at buf usa_offset) (bad_fixup "missing usn")
  ok (record { usa_offset = usa_offset; usn = usn; fixup_count = fixup_count })

abbrev pub then_fix : Result UpdateSequence → ℕ → List ℕ → Patched
then_fix (ok u) sector_size buf = fix_sectors u.usa_offset u.usn sector_size u.fixup_count 0 buf
then_fix (err e) sector_size buf = (err e, buf)
then_fix panic sector_size buf = (panic, buf)
then_fix stuck sector_size buf = (stuck, buf)

unfoldable pub apply_fixups : List ℕ → ℕ → Patched
apply_fixups buf bytes_per_sector =
    then_fix (update_sequence buf bytes_per_sector) bytes_per_sector buf

pub record FileRecord : Type 0 where
  pub sequence : ℕ
  pub hard_link_count : ℕ
  pub first_attr_offset : ℕ
  pub flags : ℕ
  pub used_size : ℕ
  pub allocated_size : ℕ
  pub base_record : ℕ
  pub record_number : ℕ

unfoldable pub is_in_use : FileRecord → Bool
is_in_use r = not (bit_and r.flags 0x0001 == 0)

unfoldable pub is_directory : FileRecord → Bool
is_directory r = not (bit_and r.flags 0x0002 == 0)

unfoldable pub is_extension : FileRecord → Bool
is_extension r = not (r.base_record == 0)

unfoldable pub parse : List ℕ → Result FileRecord
parse buf = do
  reject (ltb (length buf) header_min) (truncated header_min (length buf))
  magic ← or_panic (slice buf 0 4)
  reject (not (bytes_eq magic file_magic)) not_a_file_record
  let first_attr_offset = unwrap_or (u16_at buf 0x14) 0
  reject (ltb first_attr_offset header_min || leb (length buf) first_attr_offset)
      (bad_attribute first_attr_offset)
  ok (record {
    sequence = unwrap_or (u16_at buf 0x10) 0;
    hard_link_count = unwrap_or (u16_at buf 0x12) 0;
    first_attr_offset = first_attr_offset;
    flags = unwrap_or (u16_at buf 0x16) 0;
    used_size = unwrap_or (u32_at buf 0x18) 0;
    allocated_size = unwrap_or (u32_at buf 0x1C) 0;
    base_record = unwrap_or (u64_at buf 0x20) 0;
    record_number = unwrap_or (u32_at buf 0x2C) 0;
  })
