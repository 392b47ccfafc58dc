-- ===== src/Core/Index.antt =====
-- crates/batuta-core/src/index.rs: the node table, the record tables and retirement.
-- The parallel arrays, which grow together by one element each, are one list of rows. `none` as the
-- whole result of an operation is a panic, an index out of range.
pub mod Ancestry
use batuta.Base.{ℕ, zero, suc, ◌+◌, ◌-◌, ◌%◌, ◌^◌, bit_and, bit_or, min}
use batuta.Base.{Bool, true, false, not, ◌&&◌, ◌||◌, Option, none, some, List, [], ◌∷◌, ◌++◌}
use batuta.Base.{length, get_elem?, set, replicate, ltb, leb, ◌==◌, if◌then◌else◌}
use batuta.Base.Int.{
  ℤ, pos, negsuc, pos_part, neg_part, as_i64, wrap_i64, ◌-ℤ◌, saturating_add_signed,
}
use batuta.Base.Fallible.{◌>>=◌}
use batuta.Core.Names

-- `u32::MAX`
abbrev pub no_node : ℕ
no_node = 0xFFFF_FFFF

abbrev pub max_depth : ℕ
max_depth = 512

abbrev pub directory : ℕ
directory = 2 ^ 0

abbrev pub excluded : ℕ
excluded = 2 ^ 11

abbrev pub orphan : ℕ
orphan = 2 ^ 12

abbrev pub deleted : ℕ
deleted = 2 ^ 13

abbrev pub name_overridden : ℕ
name_overridden = 2 ^ 14

pub record VolumeInfo : Type 0 where
  pub drive : ℕ
  pub serial : ℕ
  pub root : ℕ
  pub first_node : ℕ
  pub node_count : ℕ
  pub next_usn : ℤ

-- One row across the per-node arrays.
pub record Node : Type 0 where
  pub parent : ℕ
  pub name_off : ℕ
  pub name_len : ℕ
  pub flags : ℕ
  pub size : ℕ
  pub alloc : ℕ
  pub mtime : ℕ
  pub sequence : ℕ
  pub subtree_files : ℕ
  pub depth : ℕ

-- Names replaced since the last scan: an arena, and where each node's name stands in it. The map
-- is a list in which the first entry of a node counts.
pub record NameOverrides : Type 0 where
  pub arena : List ℕ
  pub by_node : List (ℕ × ℕ × ℕ)

pub record Index : Type 0 where
  pub volumes : List VolumeInfo
  pub nodes : List Node
  pub names : List ℕ
  pub overrides : NameOverrides
  pub generation : ℕ
  pub rec_to_node : List (List ℕ)

abbrev pub has : ℕ → ℕ → Bool
has flags bit = not (bit_and flags bit == 0)

unfoldable pub node_at : Index → ℕ → Option Node
node_at ix n = get_elem? ix.nodes n

-- A write to a row that has been read.
unfoldable pub put_node : Index → ℕ → Node → Index
put_node ix n row = record ix { nodes = set ix.nodes n row }

-- `wrapping_add`
unfoldable pub bump : Index → Index
bump ix = record ix { generation = (ix.generation + 1) % 2 ^ 64 }

abbrev pub is_dir : Node → Bool
is_dir n = has n.flags directory

abbrev pub is_excluded : Node → Bool
is_excluded n = has n.flags excluded

abbrev pub is_deleted : Node → Bool
is_deleted n = has n.flags deleted

unfoldable pub is_root : Index → ℕ → Option Bool
is_root ix n = do row ← node_at ix n; some (row.parent == n)

abbrev pub find_entry : ℕ → List (ℕ × ℕ × ℕ) → Option (ℕ × ℕ)
find_entry node [] = none
find_entry node ((k, off, len) ∷ rest) = if k == node then some (off, len) else find_entry node rest

-- `NameOverrides::get`
unfoldable pub override_of : NameOverrides → ℕ → Option (List ℕ)
override_of o node = do
  (off, len) ← find_entry node o.by_node
  s ← Names.range o.arena off len
  if Names.is_utf8 s then some s else none

unfoldable pub raw_name : Index → Node → List ℕ
raw_name ix row = Names.get ix.names row.name_off row.name_len

-- The current name: the override if there is one, else the bytes in the arena.
unfoldable pub name : Index → ℕ → Option (List ℕ)
unfolding override_of raw_name
name ix n = do
  row ← node_at ix n
  let raw = raw_name ix row
  some (
      if has row.flags name_overridden
      then elim (override_of ix.overrides n) [ some s ↦ s | none ↦ raw ]
      else raw)

-- `node_of_record`: the outer read of the record tables, then the sentinel test.
unfoldable pub node_of_record : Index → ℕ → ℕ → Option ℕ
node_of_record ix vol rec = do
  table ← get_elem? ix.rec_to_node vol
  n ← get_elem? table rec
  if n == no_node then none else some n

abbrev set_usn : Option VolumeInfo → ℕ → ℤ → Index → Index
set_usn none volume usn ix = ix
set_usn (some v) volume usn ix =
    if ltb (pos_part v.next_usn + neg_part usn) (pos_part usn + neg_part v.next_usn)
    then record ix { volumes = set ix.volumes volume (record v { next_usn = usn }) }
    else ix

-- The journal position only moves forward.
unfoldable pub set_next_usn : Index → ℕ → ℤ → Index
set_next_usn ix volume usn = set_usn (get_elem? ix.volumes volume) volume usn ix

-- `for _ in 0..=MAX_DEPTH`
unfoldable pub climb : ℕ → Index → ℕ → ℕ → Option Bool
climb zero ix cur ancestor = some false
climb (suc left) ix cur ancestor = if cur == ancestor then some true else do
  row ← node_at ix cur
  let rest = climb left ix row.parent ancestor
  if row.parent == cur || row.parent == no_node then some false else rest

unfoldable pub is_under : Index → ℕ → ℕ → Option Bool
is_under ix node ancestor = climb (max_depth + 1) ix node ancestor

abbrev children_from : ℕ → ℕ → List Node → List ℕ
children_from i dir [] = []
children_from i dir (row ∷ rows) =
    let rest = children_from (i + 1) dir rows in
    if row.parent == dir && not (i == dir) then i ∷ rest else rest

unfoldable pub children : Index → ℕ → List ℕ
children ix dir = children_from 0 dir ix.nodes

-- The three deltas of a change, as i64s.
pub record Delta : Type 0 where
  pub size : ℤ
  pub alloc : ℤ
  pub files : ℤ

-- `clamp(i32::MIN as i64, i32::MAX as i64) as i32`
abbrev pub clamp_i32 : ℤ → ℤ
clamp_i32 (pos n) = pos (min n (2 ^ 31 - 1))
clamp_i32 (negsuc n) = negsuc (min n (2 ^ 31 - 1))

unfoldable pub add_delta : Delta → Node → Node
unfolding saturating_add_signed
add_delta d row = record row {
  size = saturating_add_signed (2 ^ 64 - 1) row.size d.size;
  alloc = saturating_add_signed (2 ^ 64 - 1) row.alloc d.alloc;
  subtree_files = saturating_add_signed (2 ^ 32 - 1) row.subtree_files (clamp_i32 d.files);
}

-- The loop of `propagate` and `propagate_full`, with the rounds that the guard leaves.
unfoldable pub propagate_loop : ℕ → ℕ → Delta → Index → Option Index
propagate_loop zero cur d ix = some ix
propagate_loop (suc left) cur d ix = if cur == no_node then some ix else do
  row ← node_at ix cur
  let ix' = put_node ix cur (add_delta d row)
  let rest = propagate_loop left row.parent d ix'
  if row.parent == cur then some ix' else rest

-- The guard counts 0 to 512.
unfoldable pub propagate : Index → ℕ → Delta → Option Index
propagate ix node d = do row ← node_at ix node; propagate_loop 513 row.parent d ix

-- `-(x as i64)`; in a release build the one value that has no negative wraps.
abbrev pub neg_i64 : ℤ → ℤ
neg_i64 z = wrap_i64 (pos 0 -ℤ z)

-- How many files a node counts for.
abbrev pub files_of : Node → ℕ
files_of row = if is_dir row then row.subtree_files else 1

abbrev pub weight : Node → Delta
weight row = record { size = as_i64 row.size; alloc = as_i64 row.alloc; files = pos (files_of row) }

abbrev pub negative : Delta → Delta
negative d = record { size = neg_i64 d.size; alloc = neg_i64 d.alloc; files = neg_i64 d.files }

abbrev pub tombstone : Node → Node
tombstone row = record row {
  flags = bit_or row.flags deleted;
  size = 0;
  alloc = 0;
  subtree_files = 0;
}

unfoldable pub update_node : Index → ℕ → (Node → Node) → Option Index
update_node ix node f = do row ← node_at ix node; some (put_node ix node (f row))

unfoldable pub retire : Index → ℕ → Option Index
retire ix node = do
  row ← node_at ix node
  let weighed = (if is_excluded row then some ix else propagate ix node (negative (weight row)))
  let gone = weighed >>= λ ix'. update_node ix' node tombstone
  if is_deleted row then some ix else gone

-- `if let Some(slot) = table.get_mut(..) { *slot = NO_NODE }`: out of range nothing is written.
unfoldable pub clear_record : Index → ℕ → ℕ → Index
clear_record ix volume rec = elim (get_elem? ix.rec_to_node volume) [
  | none ↦ ix
  | some table ↦ record ix { rec_to_node = set ix.rec_to_node volume (set table rec no_node) }
]

-- `table.resize(i + 1, NO_NODE)`
abbrev pub resize : List ℕ → ℕ → List ℕ
resize table n = table ++ replicate (n - length table) no_node

unfoldable pub set_slot : List ℕ → ℕ → ℕ → List ℕ
set_slot table rec node =
    if leb (length table) rec
    then (if ltb (length table + 8_000_000) rec
        then table
        else set (resize table (rec + 1)) rec node)
    else set table rec node

unfoldable pub set_record : Index → ℕ → ℕ → ℕ → Index
set_record ix volume rec node = elim (get_elem? ix.rec_to_node volume) [
  | none ↦ ix
  | some table ↦ record ix { rec_to_node = set ix.rec_to_node volume (set_slot table rec node) }
]

-- The node that holds a record, retired if the record has been recycled.
abbrev pub resolve_found : Option ℕ → Index → ℕ → ℕ → ℕ → Option (Option ℕ × Index)
resolve_found none ix volume rec sequence = some (none, ix)
resolve_found (some node) ix volume rec sequence = do
  row ← node_at ix node
  let retired = retire ix node >>= λ ix'. some (none, clear_record ix' volume rec)
  if row.sequence == sequence then some (some node, ix) else retired

unfoldable pub resolve_record : Index → ℕ → ℕ → ℕ → Option (Option ℕ × Index)
resolve_record ix volume rec sequence =
    resolve_found (node_of_record ix volume rec) ix volume rec sequence
