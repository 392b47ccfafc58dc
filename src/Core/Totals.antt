-- ===== src/Core/Totals.antt =====
-- crates/batuta-core/src/index.rs and watch.rs: what the totals of a directory stand for, said
-- independently of the code that keeps them up to date.
pub mod Sums
pub mod Propagation
pub mod Chains
pub mod Edits
pub mod Resizing
pub mod Deleting
pub mod Moving
pub mod Renaming
pub mod Renamed
pub mod Creating
pub mod Created
use batuta.Base.{
  ℕ, ◌+◌, ◌^◌, ◌≤◌, ◌-◌, ◌≡◌, ◌≢◌, Bool, true, not, ◌&&◌, ◌||◌, Option, none, some, List, [], ◌∷◌,
}
use batuta.Base.{◌==◌, if◌then◌else◌}
use batuta.Base.Int.{ℤ, pos_part, neg_part}
use batuta.Core.Index.{
  Index, Node, Delta, node_at, put_node, is_dir, is_excluded, is_deleted, clamp_i32,
}

-- The totals that a directory keeps: bytes, allocated bytes, and files.
pub data Measure : Type 0 where
  bytes allocated files : Measure

-- What a directory holds, what a file counts for, the part of a delta, and the largest total.
abbrev pub own : Measure → Node → ℕ
own Measure.bytes row = row.size
own Measure.allocated row = row.alloc
own Measure.files row = row.subtree_files

abbrev pub leaf : Measure → Node → ℕ
leaf Measure.bytes row = row.size
leaf Measure.allocated row = row.alloc
leaf Measure.files row = 1

abbrev pub part : Measure → Delta → ℤ
part Measure.bytes d = d.size
part Measure.allocated d = d.alloc
part Measure.files d = clamp_i32 d.files

abbrev pub top : Measure → ℕ
top Measure.bytes = 2 ^ 64 - 1
top Measure.allocated = 2 ^ 64 - 1
top Measure.files = 2 ^ 32 - 1

-- Totals up to here are added and subtracted as signed words without a wrap.
abbrev pub limit : Measure → ℕ
limit Measure.bytes = 2 ^ 63 - 1
limit Measure.allocated = 2 ^ 63 - 1
limit Measure.files = 2 ^ 31 - 1

abbrev pub is_gone : Node → Bool
is_gone row = is_deleted row || is_excluded row

-- A directory whose totals are kept.
abbrev pub is_kept_dir : Node → Bool
is_kept_dir row = is_dir row && not (is_gone row)

-- What a row counts for in its parent.
abbrev pub counts : Measure → Node → ℕ
counts m row = if is_gone row then 0 else if is_dir row then own m row else leaf m row

-- What row `i` counts for in the directory `dir`.
abbrev pub share : Measure → ℕ → ℕ → Node → ℕ
share m dir i row = if row.parent == dir && not (i == dir) then counts m row else 0

unfoldable pub sum_from : Measure → ℕ → ℕ → List Node → ℕ
sum_from m dir i [] = 0
sum_from m dir i (row ∷ rows) = share m dir i row + sum_from m dir (i + 1) rows

-- What the children of a directory come to.
abbrev pub total : Measure → Index → ℕ → ℕ
total m ix dir = sum_from m dir 0 ix.nodes

-- Every kept directory holds what its children come to.
pub record Balanced (m : Measure) (ix : Index) : Type 0 where
  pub exact :
      (i : ℕ) (row : Node)
      → node_at ix i ≡ some row
      → is_kept_dir row ≡ true
      → own m row ≡ total m ix i

-- As `Balanced`, except that `cur` still lacks `z`.
pub record Off (m : Measure) (ix : Index) (cur : ℕ) (z : ℤ) : Type 0 where
  pub others :
      (i : ℕ) (row : Node)
      → node_at ix i ≡ some row
      → is_kept_dir row ≡ true
      → i ≢ cur
      → own m row ≡ total m ix i
  pub lacks :
      (row : Node)
      → node_at ix cur ≡ some row
      → is_kept_dir row ≡ true
      → own m row + pos_part z ≡ total m ix cur + neg_part z

-- `n` kept directories lead from `cur` up to a root, none of them `g` and none above `bound`.
pub data Chain (m : Measure) (bound g : ℕ) (ix : Index) : ℕ → ℕ → Type 0 where
  at_root :
      (cur : ℕ) (row : Node)
      → node_at ix cur ≡ some row
      → is_kept_dir row ≡ true
      → own m row ≤ bound
      → cur ≢ g
      → row.parent ≡ cur
      → Chain m bound g ix 1 cur
  below_root :
      (n cur : ℕ) (row : Node)
      → node_at ix cur ≡ some row
      → is_kept_dir row ≡ true
      → own m row ≤ bound
      → cur ≢ g
      → row.parent ≢ cur
      → Chain m bound g ix n row.parent
      → Chain m bound g ix (n + 1) cur
