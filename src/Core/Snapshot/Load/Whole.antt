-- ===== src/Core/Snapshot/Load/Whole.antt =====
-- A whole snapshot, saved and loaded.
use batuta.Base.{
  ℕ, suc, ◌*◌, ◌%◌, ◌^◌, ◌≤◌, ◌<◌, ◌≡◌, refl, ap, ◌∙◌, sym, arith, true, false, List, [], ◌∷◌, ◌++◌,
  All,
}
use batuta.Base.{length, take, drop, ltb, length-append}
use batuta.Base.Int.{as_i64}
use mathlib.Core.List.{map, append_assoc}
use batuta.Ntfs.Bytes.{to_le_bytes}
use batuta.Ntfs.Bytes.Laws.{from_le_bytes-to_le_bytes}
use batuta.Core.Index.{Node, VolumeInfo}
use batuta.Core.Snapshot.File.{
  as_u64, write_slice, columns, table_bytes, volume_bytes, volume_blocks, number_at, is_char,
}
use batuta.Core.Snapshot.Load.{
  done, read_vec, read_tables, volume_of, read_volumes, max_nodes, total,
}
use batuta.Core.Snapshot.Load.Loading.{length-bytes_of, read_vec-bytes_of}

map-id : (xs : List ℕ) → map (λ (x : ℕ). x) xs ≡ xs
map-id [] = refl
map-id (x ∷ xs) = ap (◌∷◌ x) (map-id xs)

pub read_vec-write_slice :
    (width : ℕ) (xs rest : List ℕ)
    → All (λ x. x < 256 ^ width) xs
    → length xs * width < 2 ^ 63
    → read_vec width (length xs) (write_slice width xs ++ rest) ≡ done (xs, rest)
read_vec-write_slice width xs rest fits small =
    ap (λ (ys : List ℕ). read_vec width (length xs) (write_slice width ys ++ rest))
      (sym (map-id xs))
    ∙ read_vec-bytes_of width (λ x. x) xs rest fits small
    ∙ ap (λ (ys : List ℕ). done (ys, rest)) (map-id xs)

pub write_slice-bytes : (xs : List ℕ) → All (λ x. x < 256) xs → write_slice 1 xs ≡ xs
unfolding write_slice to_le_bytes
write_slice-bytes [] h = refl
write_slice-bytes (x ∷ xs) (here, h) =
    let same : x % 256 ≡ x = omega (arith, here) in
    ap (λ (y : ℕ). y ∷ write_slice 1 xs) same ∙ ap (◌∷◌ x) (write_slice-bytes xs h)

pub record TableFits (table : List ℕ) : Type 0 where
  pub slots_fit : All (λ x. x < 256 ^ 4) table
  pub short : length table ≤ max_nodes

pub read_tables-table_bytes :
    (tables : List (List ℕ)) (rest : List ℕ)
    → All TableFits tables
    → read_tables (map length tables) (table_bytes tables ++ rest) ≡ done (tables, rest)
unfolding read_tables table_bytes
read_tables-table_bytes [] rest fits = refl
read_tables-table_bytes (table ∷ tables) rest (here, fits) =
    let first =
      read_vec-write_slice 4 table (table_bytes tables ++ rest) here.slots_fit
        (omega (arith, here.short)) in
    simp append_assoc (rw (first, read_tables-table_bytes tables rest fits) refl)

pub record VolumeFitsWords (v : VolumeInfo) : Type 0 where
  pub drive_char : is_char v.drive ≡ true
  pub drive_fits : v.drive < 2 ^ 32
  pub root_fits : v.root < 2 ^ 32
  pub first_node_fits : v.first_node < 2 ^ 32
  pub node_count_fits : v.node_count < 2 ^ 32
  pub serial_fits : v.serial < 2 ^ 64
  pub next_usn_fits : as_u64 v.next_usn < 2 ^ 64
  pub next_usn_signed : as_i64 (as_u64 v.next_usn) ≡ v.next_usn

volume_of-volume_bytes :
    (v : VolumeInfo) (len : ℕ)
    → VolumeFitsWords v
    → len ≤ max_nodes
    → volume_of (volume_bytes v len) ≡ done (v, len)
unfolding volume_of
volume_of-volume_bytes v len h short =
    let block = volume_bytes v len in
    let drive : number_at 4 0 block ≡ v.drive =
      unfold number_at volume_bytes to_le_bytes in
      from_le_bytes-to_le_bytes 4 v.drive h.drive_fits in
    let root : number_at 4 4 block ≡ v.root =
      unfold number_at volume_bytes to_le_bytes in from_le_bytes-to_le_bytes 4 v.root h.root_fits in
    let first_node : number_at 4 8 block ≡ v.first_node =
      unfold number_at volume_bytes to_le_bytes in
      from_le_bytes-to_le_bytes 4 v.first_node h.first_node_fits in
    let node_count : number_at 4 12 block ≡ v.node_count =
      unfold number_at volume_bytes to_le_bytes in
      from_le_bytes-to_le_bytes 4 v.node_count h.node_count_fits in
    let serial : number_at 8 16 block ≡ v.serial =
      unfold number_at volume_bytes to_le_bytes in
      from_le_bytes-to_le_bytes 8 v.serial h.serial_fits in
    let next_usn : number_at 8 24 block ≡ as_u64 v.next_usn =
      unfold number_at volume_bytes to_le_bytes in
      from_le_bytes-to_le_bytes 8 (as_u64 v.next_usn) h.next_usn_fits in
    let records : number_at 8 32 block ≡ len =
      unfold number_at volume_bytes to_le_bytes in
      from_le_bytes-to_le_bytes 8 len (omega (arith, short)) in
    let few : ltb max_nodes len ≡ false = ground (arith, short) in
    rw
      (
        drive, root, first_node, node_count, serial, next_usn, records, h.drive_char,
        h.next_usn_signed, few,
      )
      refl

module _ (v : VolumeInfo) (len : ℕ) (rest : List ℕ) where
  block_ends : ltb (length (volume_bytes v len ++ rest)) 40 ≡ false
  unfolding volume_bytes to_le_bytes
  block_ends = ground arith

  take-volume : take 40 (volume_bytes v len ++ rest) ≡ volume_bytes v len
  unfolding volume_bytes to_le_bytes
  take-volume = refl

  drop-volume : drop 40 (volume_bytes v len ++ rest) ≡ rest
  unfolding volume_bytes to_le_bytes
  drop-volume = refl

  read_volumes-volume :
      (n : ℕ) (volumes : List VolumeInfo) (lens after : List ℕ)
      → VolumeFitsWords v
      → len ≤ max_nodes
      → read_volumes n rest ≡ done (volumes, lens, after)
      → read_volumes (suc n) (volume_bytes v len ++ rest) ≡ done (v ∷ volumes, len ∷ lens, after)
  unfolding read_volumes
  read_volumes-volume n volumes lens after fits short read =
      rw (block_ends, take-volume, drop-volume, volume_of-volume_bytes v len fits short, read) refl

no_volumes : (rest : List ℕ) → read_volumes 0 rest ≡ done ([], [], rest)
unfolding read_volumes
no_volumes rest = refl

pub read_volumes-volume_blocks :
    (volumes : List VolumeInfo) (tables : List (List ℕ)) (rest : List ℕ)
    → length volumes ≡ length tables
    → All VolumeFitsWords volumes
    → All TableFits tables
    → read_volumes (length volumes) (volume_blocks volumes tables ++ rest)
      ≡ done (volumes, map length tables, rest)
unfolding volume_blocks
read_volumes-volume_blocks [] [] rest same fits short = no_volumes rest
read_volumes-volume_blocks [] (table ∷ tables) rest same fits short = absurd (omega (arith, same))
read_volumes-volume_blocks (v ∷ volumes) [] rest same fits short = absurd (omega (arith, same))
read_volumes-volume_blocks (v ∷ volumes) (table ∷ tables) rest same (here, fits)
      (table_fits, short) =
    read_volumes-volume v (length table) (volume_blocks volumes tables ++ rest) (length volumes)
      volumes (map length tables) rest here table_fits.short
      (read_volumes-volume_blocks volumes tables rest (omega (arith, same)) fits short)

pub length-volume_blocks :
    (volumes : List VolumeInfo) (tables : List (List ℕ))
    → length volumes ≡ length tables
    → length (volume_blocks volumes tables) ≡ length volumes * 40
unfolding volume_blocks volume_bytes to_le_bytes
length-volume_blocks [] [] same = refl
length-volume_blocks [] (table ∷ tables) same = absurd (omega (arith, same))
length-volume_blocks (v ∷ volumes) [] same = absurd (omega (arith, same))
length-volume_blocks (v ∷ volumes) (table ∷ tables) same =
    omega (arith, length-volume_blocks volumes tables (omega (arith, same)))

pub length-write_slice :
    (width : ℕ) (xs : List ℕ) → length (write_slice width xs) ≡ length xs * width
length-write_slice width xs =
    ap (λ (ys : List ℕ). length (write_slice width ys)) (sym (map-id xs))
    ∙ length-bytes_of width (λ x. x) xs

pub length-table_bytes :
    (tables : List (List ℕ)) → length (table_bytes tables) ≡ total (map length tables) * 4
unfolding table_bytes
length-table_bytes [] = refl
length-table_bytes (table ∷ tables) =
    length-append (write_slice 4 table) (table_bytes tables)
    ∙ omega (arith, length-write_slice 4 table, length-table_bytes tables)

pub length-columns : (rows : List Node) → length (columns rows) ≡ length rows * 40
unfolding columns
length-columns rows = simp length-append (
    omega (
      arith,
      length-bytes_of 4 (λ row. row.parent) rows,
      length-bytes_of 4 (λ row. row.name_off) rows,
      length-bytes_of 2 (λ row. row.name_len) rows,
      length-bytes_of 2 (λ row. row.flags) rows,
      length-bytes_of 8 (λ row. row.size) rows,
      length-bytes_of 8 (λ row. row.alloc) rows,
      length-bytes_of 4 (λ row. row.mtime) rows,
      length-bytes_of 4 (λ row. row.subtree_files) rows,
      length-bytes_of 2 (λ row. row.depth) rows,
      length-bytes_of 2 (λ row. row.sequence) rows,
    ))
