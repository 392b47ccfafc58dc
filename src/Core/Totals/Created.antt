-- ===== src/Core/Totals/Created.antt =====
-- What creating a file or a directory returns, with the totals exact.
use batuta.Base.{ℕ, ◌+◌, ◌-◌, ◌^◌, ◌%◌, ◌≤◌, ◌<◌, ◌≡◌}
use batuta.Base.{min, some, length}
use batuta.Base.{if◌then◌else◌}
use batuta.Core.Names
use batuta.Core.Index.{Index, Node, no_node, node_at}
use batuta.Core.Index.{set_record}
use batuta.Core.Watch.{Creation, Applied, append_node}
use batuta.Core.Watch.Steps.{IsValid}
use batuta.Core.Totals.{Measure, limit, Balanced, Chain}

-- The row that a creation asks for: a live one under `parent`, with the name at the end of the arena,
-- cut to 65535 bytes, and the size, which is also what it takes on disk, at 0 for a directory.
pub record IsNew (c : Creation) (parent names depth : ℕ) (row : Node) : Type 0 where
  pub parent_of : row.parent ≡ parent
  pub name_off : row.name_off ≡ names % 2 ^ 32
  pub name_len : row.name_len ≡ min (length c.name) 65535
  pub flags : row.flags ≡ (if c.is_dir then 1 else 0)
  pub size : row.size ≡ (if c.is_dir then 0 else c.size)
  pub alloc : row.alloc ≡ (if c.is_dir then 0 else c.size)
  pub mtime : row.mtime ≡ c.mtime
  pub sequence : row.sequence ≡ c.sequence
  pub subtree_files : row.subtree_files ≡ 0
  pub depth_of : row.depth ≡ min (depth + 1) 65535

-- What a create returns, and what it leaves.
pub record Made (m : Measure) (c : Creation) (ix : Index) (parent : ℕ) (above : Node)
    (p : Applied × Index) : Type 0 where
  pub outcome : p.0 ≡ Applied.created (length ix.nodes)
  pub made :
      (row : Node) × (node_at p.1 (length ix.nodes) ≡ some row)
      × IsNew c parent (length ix.names) above.depth row
  pub balanced : Balanced m p.1

module _ (m : Measure) (c : Creation) (ix : Index) (parent n : ℕ) (above : Node)
    (valid : IsValid ix) (small : length ix.nodes < no_node) (bound : c.size ≤ 2 ^ 63 - 1)
    (p : parent < length ix.nodes) (chain : Chain m (limit m) no_node ix n parent)
    (enough : n ≤ 513) (bal : Balanced m ix) where
  abbrev placed : Index
  placed = set_record (append_node c ix parent above) c.volume c.rec (length ix.nodes)
