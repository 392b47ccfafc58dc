-- ===== src/Core/Snapshot.antt =====
-- crates/batuta-core/src/snapshot.rs: the check of a snapshot that was read, and the names that a
-- snapshot is written with. The columns of the index, which are one list of rows, have one length.
pub mod Checks
pub mod Compacting
pub mod File
pub mod Load
mod Tests
use Prim.Native.String.{String}
use batuta.Base.{ℕ, zero, suc, ◌+◌, ◌-◌, ◌^◌, ◌%◌, bit_and, Bool, true, false, not, ◌&&◌, ◌||◌}
use batuta.Base.{Option, none, some, List, [], ◌∷◌, ◌++◌}
use batuta.Base.{length, ltb, ◌==◌, if◌then◌else◌}
use batuta.Base.Fallible.{◌>>=◌}
use batuta.Core.Names.{kept}
use batuta.Core.Index.{Index, Node, VolumeInfo, no_node, name, name_overridden}

pub data SnapshotError : Type 0 where
  bad_magic : SnapshotError
  version : ℕ → ℕ → SnapshotError
  endian : SnapshotError
  corrupt : String → SnapshotError
  truncated : ℕ → ℕ → SnapshotError
  checksum : SnapshotError
  io : String → SnapshotError

pub data Result : Type 0 where
  ok : Result
  err : SnapshotError → Result

-- The rows in order: the parent, then the name.
unfoldable pub check_rows : ℕ → ℕ → List Node → Result
check_rows n names_len [] = ok
check_rows n names_len (row ∷ rows) =
    let rest = check_rows n names_len rows in
    if not (row.parent == no_node) && not (ltb row.parent n)
    then err (corrupt "parent points outside the node table")
    else if ltb names_len (row.name_off + row.name_len)
    then err (corrupt "name range runs past the arena")
    else rest

-- `name_off.windows(2).any(|w| w[0] > w[1])`
unfoldable pub has_descent : List Node → Bool
has_descent [] = false
has_descent (x ∷ []) = false
has_descent (x ∷ y ∷ rows) = ltb y.name_off x.name_off || has_descent (y ∷ rows)

unfoldable pub check_volumes : ℕ → List VolumeInfo → Result
check_volumes n [] = ok
check_volumes n (v ∷ volumes) =
    let rest = check_volumes n volumes in
    if not (ltb v.root n)
    then err (corrupt "volume root is out of range")
    else if ltb n v.first_node || ltb n (v.first_node + v.node_count)
    then err (corrupt "volume node range is out of bounds")
    else rest

abbrev pub and_then : Result → Result → Result
and_then ok next = next
and_then (err e) next = err e

unfoldable pub validate : Index → Result
unfolding check_rows has_descent check_volumes
validate ix =
    let n = length ix.nodes in
    if n == 0
    then err (corrupt "snapshot holds no nodes")
    else and_then (check_rows n (length ix.names) ix.nodes) (
        if has_descent ix.nodes
        then err (corrupt "name offsets are not sorted")
        else check_volumes n ix.volumes)

-- A row whose name is to stand at the end of the arena, and is no longer overridden.
unfoldable pub renamed_row : Node → List ℕ → List ℕ → Node
unfolding kept
renamed_row row arena s = record row {
  name_off = length arena % 2 ^ 32;
  name_len = length (kept s) % 2 ^ 16;
  flags = bit_and row.flags (65535 - name_overridden);
}

-- The loop over the rows from the node `i` on; `none` is a panic.
unfoldable pub compact_rows : Index → ℕ → List Node → List ℕ → Option (List Node × List ℕ)
unfolding name kept renamed_row
compact_rows ix i [] arena = some ([], arena)
compact_rows ix i (row ∷ rows) arena = do
  s ← name ix i
  (rest, whole) ← compact_rows ix (suc i) rows (arena ++ kept s)
  some (renamed_row row arena s ∷ rest, whole)

-- The rows and the arena to write: as they are when nothing was renamed, else rebuilt.
unfoldable pub compact_names : Index → Option (List Node × List ℕ)
unfolding compact_rows
compact_names ix = elim ix.overrides.by_node [
  | [] ↦ some (ix.nodes, ix.names)
  | _ ∷ _ ↦ compact_rows ix 0 ix.nodes []
]
