-- ===== src/Core/Snapshot/Load/Loading.antt =====
-- What is loaded of a saved snapshot.
use batuta.Base.{ℕ, ◌*◌, ◌^◌, ◌<◌, ◌≡◌, refl, ap, ◌∙◌, sym, arith, false, List, [], ◌∷◌, ◌++◌, All}
use batuta.Base.{
  length, take, drop, ltb, leb, length-append, take-append_length, drop-append_length,
}
use mathlib.Core.List.{map, append_assoc}
use batuta.Ntfs.Bytes.{from_le_bytes, to_le_bytes}
use batuta.Ntfs.Bytes.Laws.{from_le_bytes-to_le_bytes, length-to_le_bytes}
use batuta.Core.Index.{Node}
use batuta.Core.Snapshot.File.{write_slice, columns}
use batuta.Core.Snapshot.Load.{done, numbers, read_vec, rows_of, read_columns}

module _ {A : Type 0} (width : ℕ) (field : A → ℕ) where
  abbrev bytes_of : List A → List ℕ
  bytes_of xs = write_slice width (map field xs)

  pub length-bytes_of : (xs : List A) → length (bytes_of xs) ≡ length xs * width
  unfolding write_slice
  length-bytes_of [] = omega arith
  length-bytes_of (x ∷ xs) =
      length-append (to_le_bytes width (field x)) (bytes_of xs)
      ∙ omega (arith, length-to_le_bytes width (field x), length-bytes_of xs)

  take-word :
      (x : ℕ) (rest : List ℕ) → take width (to_le_bytes width x ++ rest) ≡ to_le_bytes width x
  take-word x rest =
      ap (λ n. take n (to_le_bytes width x ++ rest)) (sym (length-to_le_bytes width x))
      ∙ take-append_length (to_le_bytes width x) rest

  drop-word : (x : ℕ) (rest : List ℕ) → drop width (to_le_bytes width x ++ rest) ≡ rest
  drop-word x rest =
      ap (λ n. drop n (to_le_bytes width x ++ rest)) (sym (length-to_le_bytes width x))
      ∙ drop-append_length (to_le_bytes width x) rest

  numbers-bytes_of :
      (xs : List A) (rest : List ℕ)
      → All (λ x. field x < 256 ^ width) xs
      → numbers width (length xs) (bytes_of xs ++ rest) ≡ map field xs
  unfolding numbers write_slice
  numbers-bytes_of [] rest fits = refl
  numbers-bytes_of (x ∷ xs) rest (here, fits) =
      let word = to_le_bytes width (field x) in
      let next = bytes_of xs ++ rest in
      ap (λ (b : List ℕ). from_le_bytes (take width b) ∷ numbers width (length xs) (drop width b))
        (append_assoc word (bytes_of xs) rest)
      ∙ ap (λ (b : List ℕ). from_le_bytes b ∷ numbers width (length xs) (drop width (word ++ next)))
          (take-word (field x) next)
      ∙ ap (λ (b : List ℕ). from_le_bytes word ∷ numbers width (length xs) b)
          (drop-word (field x) next)
      ∙ ap (λ (n : ℕ). n ∷ numbers width (length xs) next)
          (from_le_bytes-to_le_bytes width (field x) here)
      ∙ ap (λ (ns : List ℕ). field x ∷ ns) (numbers-bytes_of xs rest fits)

  pub read_vec-bytes_of :
      (xs : List A) (rest : List ℕ)
      → All (λ x. field x < 256 ^ width) xs
      → length xs * width < 2 ^ 63
      → read_vec width (length xs) (bytes_of xs ++ rest) ≡ done (map field xs, rest)
  unfolding read_vec
  read_vec-bytes_of xs rest fits small =
      let modest : leb (2 ^ 63) (length xs * width) ≡ false = ground (arith, small) in
      let enough : ltb (length (bytes_of xs ++ rest)) (length xs * width) ≡ false =
        ground (arith, length-append (bytes_of xs) rest, length-bytes_of xs) in
      let after : drop (length xs * width) (bytes_of xs ++ rest) ≡ rest =
        ap (λ n. drop n (bytes_of xs ++ rest)) (sym (length-bytes_of xs))
        ∙ drop-append_length (bytes_of xs) rest in
      rw (modest, enough, after, numbers-bytes_of xs rest fits) refl

-- Every field of a row fits in its word.
pub record RowFitsWords (row : Node) : Type 0 where
  pub parent_fits : row.parent < 2 ^ 32
  pub name_off_fits : row.name_off < 2 ^ 32
  pub name_len_fits : row.name_len < 2 ^ 16
  pub flags_fits : row.flags < 2 ^ 16
  pub size_fits : row.size < 2 ^ 64
  pub alloc_fits : row.alloc < 2 ^ 64
  pub mtime_fits : row.mtime < 2 ^ 32
  pub subtree_files_fits : row.subtree_files < 2 ^ 32
  pub depth_fits : row.depth < 2 ^ 16
  pub sequence_fits : row.sequence < 2 ^ 16

pub All-weaken :
    {A : Type 0} {P Q : A → Type 0} → ((x : A) → P x → Q x) → (xs : List A) → All P xs → All Q xs
All-weaken k [] h = tt
All-weaken k (x ∷ xs) (here, h) = (k x here, All-weaken k xs h)

rows_of-map :
    (rows : List Node)
    → rows_of
        (map (λ row. row.parent) rows)
        (map (λ row. row.name_off) rows)
        (map (λ row. row.name_len) rows)
        (map (λ row. row.flags) rows)
        (map (λ row. row.size) rows)
        (map (λ row. row.alloc) rows)
        (map (λ row. row.mtime) rows)
        (map (λ row. row.subtree_files) rows)
        (map (λ row. row.depth) rows)
        (map (λ row. row.sequence) rows)
      ≡ rows
unfolding rows_of
rows_of-map [] = refl
rows_of-map (row ∷ rows) = ap (λ (rest : List Node). row ∷ rest) (rows_of-map rows)

pub read_columns-columns :
    (rows : List Node) (rest : List ℕ)
    → All RowFitsWords rows
    → length rows < 2 ^ 32
    → read_columns (length rows) (columns rows ++ rest) ≡ done (rows, rest)
unfolding read_columns columns
read_columns-columns rows rest fits few =
    let from_sequence : List ℕ = rest in
    let from_depth : List ℕ = bytes_of 2 (λ row. row.sequence) rows ++ from_sequence in
    let from_subtree_files : List ℕ = bytes_of 2 (λ row. row.depth) rows ++ from_depth in
    let from_mtime : List ℕ = bytes_of 4 (λ row. row.subtree_files) rows ++ from_subtree_files in
    let from_alloc : List ℕ = bytes_of 4 (λ row. row.mtime) rows ++ from_mtime in
    let from_size : List ℕ = bytes_of 8 (λ row. row.alloc) rows ++ from_alloc in
    let from_flags : List ℕ = bytes_of 8 (λ row. row.size) rows ++ from_size in
    let from_name_len : List ℕ = bytes_of 2 (λ row. row.flags) rows ++ from_flags in
    let from_name_off : List ℕ = bytes_of 2 (λ row. row.name_len) rows ++ from_name_len in
    let from_parent : List ℕ = bytes_of 4 (λ row. row.name_off) rows ++ from_name_off in
    let parent_read =
      read_vec-bytes_of 4 (λ row. row.parent) rows from_parent
        (All-weaken (λ row h. h.parent_fits) rows fits) (omega arith) in
    let name_off_read =
      read_vec-bytes_of 4 (λ row. row.name_off) rows from_name_off
        (All-weaken (λ row h. h.name_off_fits) rows fits) (omega arith) in
    let name_len_read =
      read_vec-bytes_of 2 (λ row. row.name_len) rows from_name_len
        (All-weaken (λ row h. h.name_len_fits) rows fits) (omega arith) in
    let flags_read =
      read_vec-bytes_of 2 (λ row. row.flags) rows from_flags
        (All-weaken (λ row h. h.flags_fits) rows fits) (omega arith) in
    let size_read =
      read_vec-bytes_of 8 (λ row. row.size) rows from_size
        (All-weaken (λ row h. h.size_fits) rows fits) (omega arith) in
    let alloc_read =
      read_vec-bytes_of 8 (λ row. row.alloc) rows from_alloc
        (All-weaken (λ row h. h.alloc_fits) rows fits) (omega arith) in
    let mtime_read =
      read_vec-bytes_of 4 (λ row. row.mtime) rows from_mtime
        (All-weaken (λ row h. h.mtime_fits) rows fits) (omega arith) in
    let subtree_files_read =
      read_vec-bytes_of 4 (λ row. row.subtree_files) rows from_subtree_files
        (All-weaken (λ row h. h.subtree_files_fits) rows fits) (omega arith) in
    let depth_read =
      read_vec-bytes_of 2 (λ row. row.depth) rows from_depth
        (All-weaken (λ row h. h.depth_fits) rows fits) (omega arith) in
    let sequence_read =
      read_vec-bytes_of 2 (λ row. row.sequence) rows from_sequence
        (All-weaken (λ row h. h.sequence_fits) rows fits) (omega arith) in
    simp append_assoc (
      rw
        (
          parent_read, name_off_read, name_len_read, flags_read, size_read, alloc_read, mtime_read,
          subtree_files_read, depth_read, sequence_read,
        )
        (ap (λ (found : List Node). done (found, rest)) (rows_of-map rows)))
