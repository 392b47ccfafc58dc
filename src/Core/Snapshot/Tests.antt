-- ===== src/Core/Snapshot/Tests.antt =====
-- The check and the renaming of a snapshot at a small volume, and the theorems there.
use batuta.Base.Int.{pos, as_i64}
use batuta.Base.{
  ℕ, ◌+◌, ◌%◌, ◌^◌, ◌<◌, ◌++◌, inl, inr, All, ◌≡◌, refl, arith, ◌↔◌, some, List, [], ◌∷◌,
}
use batuta.Core.Names.{range, is_utf8, kept}
use batuta.Core.Index.{Index, Node, no_node, name}
use batuta.Core.Snapshot.{ok, err, corrupt, io, validate, compact_names}
use batuta.Ntfs.Bytes.{from_le_bytes, to_le_bytes}
use batuta.Core.Snapshot.File.{header_bytes, saved, is_char, peek, written_at}
use batuta.Core.Snapshot.File.Peeking.{HasDrive, peek-saved}
use batuta.Core.Snapshot.Load.{done, load}
use batuta.Core.Snapshot.Load.Loading.{RowFitsWords}
use batuta.Core.Snapshot.Load.RoundTrip.{folded, Savable, load-saved}
use batuta.Core.Snapshot.Checks.{Usable, validate-Usable}
use batuta.Core.Snapshot.Compacting.{HaveNames, names_size, Compacted, compact_names-Compacted}

abbrev saved_row : ℕ → ℕ → ℕ → ℕ → Node
saved_row parent off len flags = record {
  parent = parent;
  name_off = off;
  name_len = len;
  flags = flags;
  size = 0;
  alloc = 0;
  mtime = 0;
  sequence = 0;
  subtree_files = 0;
  depth = 0;
}

-- The names "." and "ab"; the second is renamed to "B".
abbrev renamed : Index
renamed = record {
  volumes =
      record {
        drive = b'C';
        serial = 0;
        root = 0;
        first_node = 0;
        node_count = 2;
        next_usn = pos 0;
      }
      ∷ [];
  nodes = saved_row no_node 0 1 1 ∷ saved_row 0 1 2 (2 ^ 14) ∷ [];
  names = b'.' ∷ b'a' ∷ b'b' ∷ [];
  overrides = record { arena = b'B' ∷ []; by_node = (1, 0, 1) ∷ [] };
  generation = 0;
  rec_to_node = (0 ∷ 1 ∷ []) ∷ [];
}

-- The second row's parent lies outside the table.
abbrev astray : Index
astray = record renamed { nodes = saved_row no_node 0 1 1 ∷ saved_row 2 1 2 0 ∷ [] }

accepts_rename : validate renamed ≡ ok
unfolding validate
accepts_rename = refl

refuses_parent : validate astray ≡ err (corrupt "parent points outside the node table")
unfolding validate
refuses_parent = refl

folds_rename :
    compact_names renamed
    ≡ some (saved_row no_node 0 1 1 ∷ saved_row 0 1 1 0 ∷ [], b'.' ∷ b'B' ∷ [])
unfolding compact_names range is_utf8 batuta.Core.Index.node_at batuta.Core.Names.get
folds_rename = refl

validate-Usable_example : (validate renamed ≡ ok) ↔ Usable renamed
validate-Usable_example = validate-Usable renamed

renamed-HaveNames : HaveNames renamed 0 renamed.nodes
unfolding HaveNames name range is_utf8 batuta.Core.Index.node_at batuta.Core.Names.get
renamed-HaveNames = ((b'.' ∷ [], refl), ((b'B' ∷ [], refl), tt))

renamed_size : names_size renamed 0 renamed.nodes ≡ 2
unfolding names_size name kept range is_utf8 batuta.Core.Index.node_at batuta.Core.Names.get
renamed_size = refl

compact_names-Compacted_example :
    (done : List Node) × (arena : List ℕ) × (compact_names renamed ≡ some (done, arena))
    × Compacted renamed 0 renamed.nodes [] done arena
compact_names-Compacted_example =
    compact_names-Compacted renamed 1 0 1 [] refl renamed-HaveNames (omega (arith, renamed_size))

-- A sum of the bytes stands for the hash.
abbrev sum_of : List ℕ → ℕ
sum_of [] = 0
sum_of (x ∷ xs) = x + sum_of xs

abbrev folded_rows : List Node
folded_rows = saved_row no_node 0 1 1 ∷ saved_row 0 1 1 0 ∷ []

abbrev folded_names : List ℕ
folded_names = b'.' ∷ b'B' ∷ []

renamed-HasDrive : All HasDrive renamed.volumes
unfolding is_char
renamed-HasDrive = (record { char = refl; word = omega arith }, tt)

peek-saved_example :
    (file : List ℕ) × (saved sum_of 1700000000 renamed ≡ some file)
    × (peek file ≡ inr record { written_at = 1700000000; nodes = 2; drives = b'C' ∷ [] })
    × (written_at file ≡ some 1700000000)
peek-saved_example =
    peek-saved sum_of 1700000000 renamed folded_rows folded_names folds_rename (omega arith)
      (omega arith) (omega arith) renamed-HasDrive (omega arith) (omega arith)

-- A file cut inside the volumes, which the header counts.
cut_file : peek (header_bytes 0 0 1 0 0 ++ (b'C' ∷ [])) ≡ inl (io "failed to fill whole buffer")
unfolding peek header_bytes to_le_bytes from_le_bytes
cut_file = refl

abbrev hash_of : List ℕ → ℕ
hash_of bytes = sum_of bytes % 2 ^ 64

row-RowFitsWords :
    (parent off len flags : ℕ)
    → parent < 2 ^ 32
    → off < 2 ^ 32
    → len < 2 ^ 16
    → flags < 2 ^ 16
    → RowFitsWords (saved_row parent off len flags)
row-RowFitsWords parent off len flags a b c d = record {
  parent_fits = a;
  name_off_fits = b;
  name_len_fits = c;
  flags_fits = d;
  size_fits = omega arith;
  alloc_fits = omega arith;
  mtime_fits = omega arith;
  subtree_files_fits = omega arith;
  depth_fits = omega arith;
  sequence_fits = omega arith;
}

renamed-Savable : Savable renamed folded_rows folded_names
unfolding is_char as_i64
renamed-Savable = record {
  count = refl;
  few = omega arith;
  some_volume = omega arith;
  few_volumes = omega arith;
  a_table_each = refl;
  rows_fit = (
    row-RowFitsWords no_node 0 1 1 (omega arith) (omega arith) (omega arith) (omega arith),
    (row-RowFitsWords 0 1 1 0 (omega arith) (omega arith) (omega arith) (omega arith), tt),
  );
  volumes_fit = (
    record {
      drive_char = refl;
      drive_fits = omega arith;
      root_fits = omega arith;
      first_node_fits = omega arith;
      node_count_fits = omega arith;
      serial_fits = omega arith;
      next_usn_fits = omega arith;
      next_usn_signed = refl;
    },
    tt,
  );
  tables_fit = (record { slots_fit = (omega arith, (omega arith, tt)); short = omega arith }, tt);
  bytes = (omega arith, (omega arith, tt));
  short = omega arith;
}

folds_usable : validate (folded renamed folded_rows folded_names) ≡ ok
unfolding validate
folds_usable = refl

load-saved_example :
    (file : List ℕ) × (saved hash_of 1700000000 renamed ≡ some file)
    × (load hash_of file ≡ done (folded renamed folded_rows folded_names))
load-saved_example =
    load-saved hash_of 1700000000 renamed folded_rows folded_names folds_rename renamed-Savable
      ((validate-Usable (folded renamed folded_rows folded_names)).0 folds_usable)
      (λ bytes. omega arith)
