-- ===== src/Core/Snapshot/Load/RoundTrip.antt =====
-- `load` undoes `save`.
use batuta.Base.{
  ℕ, ◌+◌, ◌-◌, ◌*◌, ◌%◌, ◌^◌, ◌≤◌, ◌<◌, ◌≡◌, refl, ap, ◌∙◌, sym, arith, true, false, ◌||◌, some,
  List, [], ◌++◌, All,
}
use batuta.Base.{length, take, drop, ltb, ◌==◌, length-append, take-append_length}
use mathlib.Core.List.{map, append_assoc, append-nil}
use batuta.Base.{==_iff}
use batuta.Ntfs.Bytes.{to_le_bytes}
use batuta.Ntfs.Bytes.Laws.{from_le_bytes-to_le_bytes}
use batuta.Core.Index.{Index, Node}
use batuta.Core.Snapshot.{compact_names}
use batuta.Core.Snapshot.Checks.{Usable, validate-Usable}
use batuta.Core.Snapshot.File.{
  columns, table_bytes, volume_blocks, endian_mark, header_bytes, number_at, saved,
}
use batuta.Core.Snapshot.File.Peeking.{
  magic-front, version-front, count-front, nodes-front, header_length, take-header, drop-header,
}
use batuta.Core.Snapshot.Load.{
  done, total, max_nodes, read_vec, read_index, load_body, load_header, load,
}
use batuta.Core.Snapshot.Load.Loading.{RowFitsWords, read_columns-columns}
use batuta.Core.Snapshot.Load.Whole.{
  TableFits, VolumeFitsWords, read_vec-write_slice, write_slice-bytes, read_tables-table_bytes,
  read_volumes-volume_blocks, length-volume_blocks, length-table_bytes, length-columns,
}

-- The index with its renames folded in, and nothing left to be written to.
abbrev pub folded : Index → List Node → List ℕ → Index
folded ix rows names = record {
  volumes = ix.volumes;
  nodes = rows;
  names = names;
  overrides = record { arena = []; by_node = [] };
  generation = 0;
  rec_to_node = ix.rec_to_node;
}

-- What the rows and names of an index must fit in to be saved.
pub record Savable (ix : Index) (rows : List Node) (names : List ℕ) : Type 0 where
  pub count : length rows ≡ length ix.nodes
  pub few : length ix.nodes ≤ max_nodes
  pub some_volume : 0 < length ix.volumes
  pub few_volumes : length ix.volumes ≤ 64
  pub a_table_each : length ix.volumes ≡ length ix.rec_to_node
  pub rows_fit : All RowFitsWords rows
  pub volumes_fit : All VolumeFitsWords ix.volumes
  pub tables_fit : All TableFits ix.rec_to_node
  pub bytes : All (λ x. x < 256) names
  pub short : length names < 2 ^ 32

take_all : (xs : List ℕ) → take (length xs - 0) xs ≡ xs
take_all xs =
    let whole : length xs - 0 ≡ length xs = omega arith in
    ap (λ (n : ℕ). take n xs) whole
    ∙ ap (λ (b : List ℕ). take (length xs) b) (sym (append-nil xs))
    ∙ take-append_length xs []

module _ (ix : Index) (rows : List Node) (names : List ℕ) (h : Savable ix rows names) where
  abbrev tables : List (List ℕ)
  tables = ix.rec_to_node

  abbrev payload : List ℕ
  payload = columns rows ++ names ++ table_bytes tables

  abbrev body : List ℕ
  body = volume_blocks ix.volumes tables ++ payload

  length-body :
      length body
      ≡ length ix.volumes * 40 + length ix.nodes * 40 + length names + total (map length tables) * 4
  length-body =
      length-append (volume_blocks ix.volumes tables) payload
      ∙ omega (
        arith,
        length-append (columns rows ++ names) (table_bytes tables),
        length-append (columns rows) names,
        length-volume_blocks ix.volumes tables h.a_table_each,
        length-columns rows,
        length-table_bytes tables,
        h.count,
      )

  names_read : (rest : List ℕ) → read_vec 1 (length names) (names ++ rest) ≡ done (names, rest)
  names_read rest =
      ap (λ (b : List ℕ). read_vec 1 (length names) (b ++ rest))
        (sym (write_slice-bytes names h.bytes))
      ∙ read_vec-write_slice 1 names rest h.bytes (omega (arith, h.short))

  index_read :
      read_index (length rows) (length names) ix.volumes (map length tables) payload
      ≡ done (folded ix rows names, [])
  unfolding read_index
  index_read =
      let rows_read =
        read_columns-columns rows (names ++ (table_bytes tables ++ [])) h.rows_fit
          (omega (arith, h.count, h.few)) in
      let tables_read = read_tables-table_bytes tables [] h.tables_fit in
      ap (λ (b : List ℕ). read_index (length rows) (length names) ix.volumes (map length tables) b)
        (append_assoc (columns rows) names (table_bytes tables)
          ∙ ap (λ (t : List ℕ). columns rows ++ (names ++ t))
              (sym (append-nil (table_bytes tables))))
      ∙ rw (rows_read, names_read (table_bytes tables ++ []), tables_read) refl

  body_loaded :
      (digest : List ℕ → ℕ)
      → Usable (folded ix rows names)
      → load_body digest
          (64 + length body)
          (length rows)
          (length names)
          (length ix.volumes)
          (digest body)
          body
        ≡ done (folded ix rows names)
  unfolding load_body
  body_loaded digest usable =
      let volumes_read =
        read_volumes-volume_blocks ix.volumes tables payload h.a_table_each h.volumes_fit
          h.tables_fit in
      let valid = (validate-Usable (folded ix rows names)).1 usable in
      let large : ltb (64 + length body) (
            (64
              + length ix.volumes * 40
              + length rows * 40
              + length names
              + total (map length tables) * 4)
            % 2 ^ 64)
          ≡ false =
        ground (arith, length-body, h.count) in
      let fed : take (length body - 0) body ≡ body = take_all body in
      let same : (digest body == digest body) ≡ true = (==_iff _ _).1 refl in
      rw (volumes_read, large, index_read, fed, same, valid) refl

module _ (n name_bytes count hash now : ℕ) where
  endian-front : number_at 4 12 (header_bytes n name_bytes count hash now) ≡ endian_mark
  unfolding header_bytes to_le_bytes number_at
  endian-front = from_le_bytes-to_le_bytes 4 endian_mark (omega arith)

  names-front :
      name_bytes < 2 ^ 64 → number_at 8 24 (header_bytes n name_bytes count hash now) ≡ name_bytes
  unfolding header_bytes to_le_bytes number_at
  names-front h = from_le_bytes-to_le_bytes 8 name_bytes h

  hash-front : hash < 2 ^ 64 → number_at 8 40 (header_bytes n name_bytes count hash now) ≡ hash
  unfolding header_bytes to_le_bytes number_at
  hash-front h = from_le_bytes-to_le_bytes 8 hash h

  load_header-front :
      (digest : List ℕ → ℕ) (file_len : ℕ) (body : List ℕ)
      → n ≤ max_nodes
      → name_bytes < 2 ^ 32
      → 0 < count
      → count ≤ 64
      → hash < 2 ^ 64
      → load_header digest file_len (header_bytes n name_bytes count hash now) body
        ≡ load_body digest file_len n name_bytes count hash body
  unfolding load_header
  load_header-front digest file_len body few short some_volume few_volumes fits =
      let counted = count-front n name_bytes count hash now (omega arith) in
      let noded = nodes-front n name_bytes count hash now (omega arith) in
      let modest : ltb max_nodes n ≡ false = ground (arith, few) in
      let plausible : (count == 0 || ltb 64 count) ≡ false =
        ground (arith, some_volume, few_volumes) in
      rw
        (
          magic-front n name_bytes count hash now,
          version-front n name_bytes count hash now,
          endian-front,
          noded,
          modest,
          counted,
          plausible,
          names-front (omega arith),
          hash-front fits,
        )
        refl

length-whole :
    (n m count hash now : ℕ) (rest : List ℕ)
    → length (header_bytes n m count hash now ++ rest) ≡ 64 + length rest
unfolding header_bytes to_le_bytes
length-whole n m count hash now rest = omega arith

-- A file that is a header and a body is taken apart by `load`.
load-header :
    (digest : List ℕ → ℕ) (n m count hash now : ℕ) (rest : List ℕ)
    → load digest (header_bytes n m count hash now ++ rest)
      ≡ load_header digest (64 + length rest) (header_bytes n m count hash now) rest
unfolding load
load-header digest n m count hash now rest = rw (header_length n m count hash now rest) (
    ap (λ (a : List ℕ). load_header digest (length whole) a (drop 64 whole))
      (take-header n m count hash now rest)
    ∙ ap (λ (b : List ℕ). load_header digest (length whole) front b)
        (drop-header n m count hash now rest)
    ∙ ap (λ (k : ℕ). load_header digest k front rest) (length-whole n m count hash now rest))
  where
    front : List ℕ
    front = header_bytes n m count hash now

    whole : List ℕ
    whole = front ++ rest

-- A snapshot survives saving and loading: while the names of the index can be folded, its rows, volumes
-- and record tables fit the widths they are stored at, there are between one and 64 volumes with a
-- record table each and at most 512,000,000 nodes, the folded index is fit to be used and the hash fits in
-- 64 bits, the file that is written at any time is loaded without an error or a panic as the index with its
-- renames folded in and its generation reset.
pub load-saved :
    (digest : List ℕ → ℕ) (now : ℕ) (ix : Index) (rows : List Node) (names : List ℕ)
    → compact_names ix ≡ some (rows, names)
    → Savable ix rows names
    → Usable (folded ix rows names)
    → ((bytes : List ℕ) → digest bytes < 2 ^ 64)
    → (file : List ℕ) × (saved digest now ix ≡ some file)
      × (load digest file ≡ done (folded ix rows names))
unfolding saved
load-saved digest now ix rows names made h usable fits =
    let whole = body ix rows names h in
    let n = length ix.nodes in
    let m = length names in
    let c = length ix.volumes in
    (
      header_bytes n m c (digest whole) now ++ whole,
      rw made refl,
      load-header digest n m c (digest whole) now whole
          ∙ load_header-front n m c (digest whole) now digest (64 + length whole) whole h.few
              h.short h.some_volume h.few_volumes (fits whole)
          ∙ ap (λ (k : ℕ). load_body digest (64 + length whole) k m c (digest whole) whole)
              (sym h.count)
          ∙ body_loaded ix rows names h digest usable,
    )
