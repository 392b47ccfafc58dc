-- ===== src/Core/Builder.antt =====
-- crates/batuta-core/src/index.rs: `IndexBuilder::add_volume`, which turns a parsed MFT into rows.
pub mod Fits
pub mod Volume
use batuta.Base.{
  ℕ, zero, suc, ◌+◌, ◌-◌, ◌*◌, ◌/◌, ◌%◌, ◌^◌, min, max, bit_or, Bool, true, false, Option, none,
  some, List, [], ◌∷◌, ◌++◌, length, get_elem?, set, replicate, leb, ◌==◌, if◌then◌else◌,
}
use batuta.Base.Int.{ℤ, pos, negsuc}
use batuta.Base.Fallible.{◌>>=◌, ◌>>◌}
use batuta.Ntfs.Bytes.{file_ref_record}
use batuta.Core.Names
use batuta.Core.Index.{Node, VolumeInfo, no_node, orphan}

-- One entry across the arrays of a batch, its name the bytes that `EntryBatch::name` gives.
pub record Entry : Type 0 where
  pub record_no : ℕ
  pub sequence : ℕ
  pub parent : ℕ
  pub name : List ℕ
  pub size : ℕ
  pub allocated : ℕ
  pub mtime : ℤ
  pub flags : ℕ

pub record IndexBuilder : Type 0 where
  pub volumes : List VolumeInfo
  pub nodes : List Node
  pub names : List ℕ
  pub rec_to_node : List (List ℕ)

-- Seconds since 1970; before that, and at or below 0, it is 0.
unfoldable pub filetime_to_unix : ℤ → ℕ
filetime_to_unix (pos ft) = min (ft / 10_000_000 - 11_644_473_600) (2 ^ 32 - 1)
filetime_to_unix (negsuc n) = 0

-- The first pass: the rows so far, the names and the record table.
pub record Pass : Type 0 where
  pub nodes : List Node
  pub names : List ℕ
  pub table : List ℕ

-- The row of an entry, without a parent yet. `build` starts the last two columns at 0.
unfoldable pub entry_row : Entry → List ℕ → Node
entry_row e names = record {
  parent = no_node;
  name_off = (Names.push names e.name).off;
  name_len = (Names.push names e.name).len;
  flags = e.flags;
  size = e.size;
  alloc = e.allocated;
  mtime = filetime_to_unix e.mtime;
  sequence = e.sequence;
  subtree_files = 0;
  depth = 0;
}

-- `if rec < table.len() { table[rec] = node }`
unfoldable pub enter : Entry → Pass → Pass
enter e p = record {
  nodes = p.nodes ++ (entry_row e p.names ∷ []);
  names = (Names.push p.names e.name).buf;
  table = set p.table e.record_no (length p.nodes % 2 ^ 32);
}

unfoldable pub enter_all : List Entry → Pass → Pass
enter_all [] p = p
enter_all (e ∷ es) p = enter_all es (enter e p)

abbrev pub orphaned : Node → Node
orphaned row = record row { parent = no_node; flags = bit_or row.flags orphan }

-- The parent of an entry: a root is its own.
unfoldable pub linked_row : List ℕ → ℕ → Entry → Node → Node
linked_row table node e row =
    if e.record_no == 5
    then record row { parent = node }
    else elim (get_elem? table (file_ref_record e.parent)) [
      | none ↦ orphaned row
      | some p ↦ if p == no_node then orphaned row else record row { parent = p }
    ]

abbrev pub update : List Node → ℕ → (Node → Node) → Option (List Node)
update rows i f = get_elem? rows i >>= λ row. some (set rows i (f row))

-- The second pass, and the root that it finds.
unfoldable pub link_all : List ℕ → ℕ → List Entry → List Node → ℕ → Option (List Node × ℕ)
link_all table i [] rows root = some (rows, root)
link_all table i (e ∷ es) rows root =
    update rows (i % 2 ^ 32) (linked_row table (i % 2 ^ 32) e) >>= λ rows'.
    link_all table (i + 1) es rows' (if e.record_no == 5 then i % 2 ^ 32 else root)

abbrev pub adopted : ℕ → Node → Node
adopted root row = if row.parent == no_node then record row { parent = root } else row

-- The third pass: orphans attach to the root.
unfoldable pub adopt_all : ℕ → ℕ → ℕ → List Node → Option (List Node)
adopt_all root i zero rows = some rows
adopt_all root i (suc left) rows =
    update rows (i % 2 ^ 32) (adopted root) >>= λ rows'. adopt_all root (i + 1) left rows'

-- The highest record number.
unfoldable pub highest : List Entry → ℕ
highest [] = 0
highest (e ∷ es) = max e.record_no (highest es)

-- The sum wraps; `unwrap_or(1)` for a batch without entries.
unfoldable pub capacity : List Entry → ℕ → ℕ
unfolding highest
capacity [] max_records = max max_records 1
capacity (e ∷ es) max_records = max max_records ((highest (e ∷ es) + 1) % 2 ^ 64)

-- `vec![NO_NODE; cap]` panics if its bytes, four for each slot, are more than an `isize` counts.
unfoldable pub new_table : ℕ → Option (List ℕ)
new_table cap = if leb (2 ^ 63) (cap * 4) then none else some (replicate cap no_node)

unfoldable pub add_volume :
    IndexBuilder → (drive serial : ℕ) → ℤ → List Entry → (max_records : ℕ) → Option IndexBuilder
unfolding capacity new_table
add_volume b drive serial next_usn batch max_records = do
  let first_node = length b.nodes % 2 ^ 32
  empty ← new_table (capacity batch max_records)
  let p = enter_all batch (record { nodes = b.nodes; names = b.names; table = empty })
  (rows, root) ← link_all p.table first_node batch p.nodes no_node
  adopted_rows ←
      (if root == no_node then some rows else adopt_all root first_node (length batch) rows)
  let info : VolumeInfo = record {
    drive = drive;
    serial = serial;
    root = if root == no_node then first_node else root;
    first_node = first_node;
    node_count = (length adopted_rows - first_node) % 2 ^ 32;
    next_usn = next_usn;
  }
  some (record {
    volumes = b.volumes ++ (info ∷ []);
    nodes = adopted_rows;
    names = p.names;
    rec_to_node = b.rec_to_node ++ (p.table ∷ []);
  })
