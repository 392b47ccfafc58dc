-- ===== src/Core/Snapshot/File.antt =====
-- crates/batuta-core/src/snapshot.rs: the bytes of a snapshot as `save` leaves them in its file, and
-- what `peek` and `written_at` read of a file. The hash (Xxh3) is a parameter, a function of the bytes
-- it was fed with; a character is its code point. `none` is a panic.
pub mod Peeking
use batuta.Base.{
  ℕ, zero, suc, ◌+◌, ◌-◌, ◌^◌, Bool, true, false, not, ◌&&◌, ◌||◌, ◌⊎◌, inl, inr, Option, none,
  some, List, [], ◌∷◌, ◌++◌,
}
use batuta.Base.{length, take, drop, replicate, ltb, leb, ◌==◌, if◌then◌else◌}
use mathlib.Core.List.{map}
use batuta.Base.Int.{ℤ, pos, negsuc}
use batuta.Base.Fallible.{◌>>=◌}
use batuta.Ntfs.Bytes.{from_le_bytes, to_le_bytes}
use batuta.Ntfs.Boot.{bytes_eq}
use batuta.Core.Index.{Index, Node, VolumeInfo}
use batuta.Core.Snapshot.{SnapshotError, bad_magic, version, corrupt, truncated, io, compact_names}

abbrev pub magic : List ℕ
magic = b'B' ∷ b'A' ∷ b'T' ∷ b'U' ∷ b'T' ∷ b'A' ∷ 0 ∷ 1 ∷ []

abbrev pub format_version : ℕ
format_version = 2

abbrev pub endian_mark : ℕ
endian_mark = 0x0102_0304

abbrev pub as_u64 : ℤ → ℕ
as_u64 (pos n) = n
as_u64 (negsuc n) = 2 ^ 64 - n - 1

-- The 40 bytes of a volume.
unfoldable pub volume_bytes : VolumeInfo → ℕ → List ℕ
unfolding to_le_bytes
volume_bytes v table_len =
    to_le_bytes 4 v.drive
    ++ to_le_bytes 4 v.root
    ++ to_le_bytes 4 v.first_node
    ++ to_le_bytes 4 v.node_count
    ++ to_le_bytes 8 v.serial
    ++ to_le_bytes 8 (as_u64 v.next_usn)
    ++ to_le_bytes 8 table_len

-- `self.volumes.iter().zip(self.rec_tables())`
unfoldable pub volume_blocks : List VolumeInfo → List (List ℕ) → List ℕ
unfolding volume_bytes
volume_blocks [] tables = []
volume_blocks (v ∷ volumes) [] = []
volume_blocks (v ∷ volumes) (table ∷ tables) =
    volume_bytes v (length table) ++ volume_blocks volumes tables

unfoldable pub write_slice : ℕ → List ℕ → List ℕ
unfolding to_le_bytes
write_slice width [] = []
write_slice width (x ∷ xs) = to_le_bytes width x ++ write_slice width xs

unfoldable pub table_bytes : List (List ℕ) → List ℕ
unfolding write_slice
table_bytes [] = []
table_bytes (table ∷ tables) = write_slice 4 table ++ table_bytes tables

unfoldable pub columns : List Node → List ℕ
unfolding write_slice
columns rows =
    write_slice 4 (map (λ row. row.parent) rows)
    ++ (write_slice 4 (map (λ row. row.name_off) rows)
        ++ (write_slice 2 (map (λ row. row.name_len) rows)
            ++ (write_slice 2 (map (λ row. row.flags) rows)
                ++ (write_slice 8 (map (λ row. row.size) rows)
                    ++ (write_slice 8 (map (λ row. row.alloc) rows)
                        ++ (write_slice 4 (map (λ row. row.mtime) rows)
                            ++ (write_slice 4 (map (λ row. row.subtree_files) rows)
                                ++ (write_slice 2 (map (λ row. row.depth) rows)
                                    ++ (write_slice 2 (map (λ row. row.sequence) rows))))))))))

-- The 64 bytes of the header.
unfoldable pub header_bytes : ℕ → ℕ → ℕ → ℕ → ℕ → List ℕ
unfolding to_le_bytes
header_bytes nodes name_bytes volume_count payload_hash now =
    magic
    ++ to_le_bytes 4 format_version
    ++ to_le_bytes 4 endian_mark
    ++ to_le_bytes 8 nodes
    ++ to_le_bytes 8 name_bytes
    ++ to_le_bytes 4 volume_count
    ++ (0 ∷ 0 ∷ 0 ∷ 0 ∷ [])
    ++ to_le_bytes 8 payload_hash
    ++ to_le_bytes 8 now
    ++ (0 ∷ 0 ∷ 0 ∷ 0 ∷ 0 ∷ 0 ∷ 0 ∷ 0 ∷ [])

-- What stands in the file when `save` returns.
unfoldable pub saved : (List ℕ → ℕ) → ℕ → Index → Option (List ℕ)
unfolding compact_names header_bytes volume_blocks columns table_bytes
saved digest now ix = do
  (rows, names) ← compact_names ix
  let payload = columns rows ++ names ++ table_bytes ix.rec_to_node
  let body = volume_blocks ix.volumes ix.rec_to_node ++ payload
  some (header_bytes (length ix.nodes) (length names) (length ix.volumes) (digest body) now ++ body)

pub record SnapshotInfo : Type 0 where
  pub written_at : ℕ
  pub nodes : ℕ
  pub drives : List ℕ

-- `char::from_u32(raw).is_some()`
unfoldable pub is_char : ℕ → Bool
is_char raw = ltb raw 0x11_0000 && not (leb 0xD800 raw && ltb raw 0xE000)

-- The number of `size` bytes at `off`.
unfoldable pub number_at : ℕ → ℕ → List ℕ → ℕ
unfolding from_le_bytes
number_at size off bytes = from_le_bytes (take size (drop off bytes))

-- The loop over the volumes: 40 bytes each, of which the first four are the drive.
unfoldable pub read_drives : ℕ → List ℕ → SnapshotError ⊎ List ℕ
unfolding number_at is_char
read_drives zero rest = inr []
read_drives (suc n) rest =
    let more = read_drives n (drop 40 rest) in
    let raw = number_at 4 0 rest in
    if ltb (length rest) 40
    then inl (io "failed to fill whole buffer")
    else if not (is_char raw)
    then inl (corrupt "bad drive letter")
    else elim more [ inl e ↦ inl e | inr drives ↦ inr (raw ∷ drives) ]

unfoldable pub peek_header : List ℕ → List ℕ → SnapshotError ⊎ SnapshotInfo
unfolding number_at bytes_eq read_drives
peek_header header rest =
    let found = number_at 4 8 header in
    let volume_count = number_at 4 32 header in
    if not (bytes_eq (take 8 header) magic)
    then inl bad_magic
    else if not (found == format_version)
    then inl (version found format_version)
    else if volume_count == 0 || ltb 64 volume_count
    then inl (corrupt "implausible volume count")
    else elim (read_drives volume_count rest) [
      | inl e ↦ inl e
      | inr drives ↦ inr record {
        written_at = number_at 8 48 header;
        nodes = number_at 8 16 header;
        drives = drives;
      }
    ]

-- The file holds a header, so the read of it succeeds.
unfoldable pub peek : List ℕ → SnapshotError ⊎ SnapshotInfo
unfolding peek_header
peek file =
    if ltb (length file) 64 then inl bad_magic else peek_header (take 64 file) (drop 64 file)

unfoldable pub written_at : List ℕ → Option ℕ
unfolding number_at bytes_eq
written_at file =
    if ltb (length file) 64
    then none
    else if not (bytes_eq (take 8 file) magic)
    then none
    else some (number_at 8 48 file)
