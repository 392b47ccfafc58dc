-- ===== src/Core/Watch.antt =====
-- crates/batuta-core/src/watch.rs: applying filesystem changes to a live index.
pub mod Steps
pub mod Safety
pub mod Applying
pub mod Changes
pub mod Batches
pub mod Visible
use batuta.Base.{ℕ, zero, suc, ◌+◌, ◌-◌, ◌%◌, ◌^◌, bit_and, bit_or, min}
use batuta.Base.{Bool, true, false, not, ◌&&◌, ◌||◌, Option, none, some, List, [], ◌∷◌, ◌++◌}
use batuta.Base.{length, get_elem?, ltb, leb, ◌==◌, if◌then◌else◌}
use batuta.Base.Int.{ℤ, pos, as_i64, wrap_i64, ◌-ℤ◌}
use batuta.Base.Fallible.{◌>>=◌, ◌>>◌}
use batuta.Ntfs.Boot.{bytes_eq}
use batuta.Core.Names
use batuta.Core.Index.{
  Index, Node, NameOverrides, Delta, no_node, directory, name_overridden, deleted as deleted_flag,
}
use batuta.Core.Index.{node_at, put_node, update_node, bump, is_dir, is_excluded, is_deleted, name}
use batuta.Core.Index.{node_of_record, propagate, weight, negative, tombstone, resolve_record}
use batuta.Core.Index.{clear_record, set_record}

pub record Creation : Type 0 where
  pub volume : ℕ
  pub rec : ℕ
  pub sequence : ℕ
  pub parent_record : ℕ
  pub name : List ℕ
  pub is_dir : Bool
  pub size : ℕ
  pub mtime : ℕ

pub data Change : Type 0 where
  created : Creation → Change
  deleted : (volume rec sequence : ℕ) → Change
  resized : (volume rec sequence size mtime : ℕ) → Change
  renamed : (volume rec sequence parent_record : ℕ) → List ℕ → Change

pub data Applied : Type 0 where
  created deleted resized moved renamed : ℕ → Applied
  unknown ignored : Applied

pub record WatchStats : Type 0 where
  pub created : ℕ
  pub deleted : ℕ
  pub resized : ℕ
  pub moved : ℕ
  pub renamed : ℕ
  pub unknown : ℕ
  pub ignored : ℕ

-- The counters are u64s.
unfoldable pub count_applied : WatchStats → Applied → WatchStats
count_applied s (Applied.created n) = record s { created = (s.created + 1) % 2 ^ 64 }
count_applied s (Applied.deleted n) = record s { deleted = (s.deleted + 1) % 2 ^ 64 }
count_applied s (Applied.resized n) = record s { resized = (s.resized + 1) % 2 ^ 64 }
count_applied s (Applied.moved n) = record s { moved = (s.moved + 1) % 2 ^ 64 }
count_applied s (Applied.renamed n) = record s { renamed = (s.renamed + 1) % 2 ^ 64 }
count_applied s Applied.unknown = record s { unknown = (s.unknown + 1) % 2 ^ 64 }
count_applied s Applied.ignored = record s { ignored = (s.ignored + 1) % 2 ^ 64 }

unfoldable pub total : WatchStats → ℕ
total s = (s.created + s.deleted + s.resized + s.moved + s.renamed) % 2 ^ 64

-- `NameOverrides::set`
unfoldable pub set_override : NameOverrides → ℕ → List ℕ → NameOverrides
set_override o node name = record {
  arena = o.arena ++ Names.kept name;
  by_node = (node, length o.arena % 2 ^ 32, length (Names.kept name) % 2 ^ 16) ∷ o.by_node;
}

abbrev pub Step : Type 0
Step = Option (Applied × Index)

abbrev pub resized_row : ℕ → ℕ → Node → Node
resized_row size mtime row = record row {
  size = size;
  alloc = size;
  mtime = if mtime == 0 then row.mtime else mtime;
}

abbrev pub size_delta : ℕ → ℕ → ℤ
size_delta size old = wrap_i64 (as_i64 size -ℤ as_i64 old)

abbrev pub is_zero_ℤ : ℤ → Bool
is_zero_ℤ (pos zero) = true
is_zero_ℤ _ = false

abbrev pub resize_found : Option ℕ → ℕ → ℕ → Index → Step
resize_found none size mtime ix = some (Applied.unknown, ix)
resize_found (some node) size mtime ix = do
  row ← node_at ix node
  let kept = update_node ix node (λ r. record r { size = size })
  let delta = size_delta size row.size
  let changed = update_node ix node (resized_row size mtime) >>= λ ix'.
      if is_zero_ℤ delta
      then some ix'
      else propagate ix' node (record { size = delta; alloc = delta; files = pos 0 })
  if is_deleted row || is_dir row
      then some (Applied.ignored, ix)
      else if is_excluded row
      then (kept >>= λ ix'. some (Applied.ignored, ix'))
      else (changed >>= λ ix'. some (Applied.resized node, ix'))

unfoldable pub apply_resize : Index → (volume rec sequence size mtime : ℕ) → Step
apply_resize ix volume rec sequence size mtime =
    resolve_record ix volume rec sequence >>= λ (found, ix'). resize_found found size mtime ix'

-- The row that a create appends.
abbrev pub fresh_row : Creation → Index → ℕ → Node → Node
fresh_row c ix parent above = record {
  parent = parent;
  name_off = (Names.push ix.names c.name).off;
  name_len = (Names.push ix.names c.name).len;
  flags = if c.is_dir then directory else 0;
  size = if c.is_dir then 0 else c.size;
  alloc = if c.is_dir then 0 else c.size;
  mtime = c.mtime;
  sequence = c.sequence;
  subtree_files = 0;
  depth = min (above.depth + 1) Names.u16_max;
}

unfoldable pub append_node : Creation → Index → ℕ → Node → Index
append_node c ix parent above = record ix {
  nodes = ix.nodes ++ (fresh_row c ix parent above ∷ []);
  names = (Names.push ix.names c.name).buf;
}

abbrev pub file_delta : ℕ → Delta
file_delta size = record { size = as_i64 size; alloc = as_i64 size; files = pos 1 }

abbrev pub create_under : Option ℕ → Creation → Index → Step
create_under none c ix = some (Applied.unknown, ix)
create_under (some parent) c ix = do
  above ← node_at ix parent
  let node = length ix.nodes % 2 ^ 32
  let placed = set_record (append_node c ix parent above) c.volume c.rec node
  let counted = (if c.is_dir then some placed else propagate placed node (file_delta c.size))
  let done = counted >>= λ ix'. some (Applied.created node, ix')
  if is_excluded above then some (Applied.ignored, ix) else done

unfoldable pub create_new : Creation → Index → Step
create_new c ix = create_under (node_of_record ix c.volume c.parent_record) c ix

-- A record that is held at the same sequence number is a replay, and treated as a resize.
abbrev pub create_found : Option ℕ → Creation → Index → Step
create_found none c ix = create_new c ix
create_found (some existing) c ix = do
  row ← node_at ix existing
  let replay = apply_resize ix c.volume c.rec c.sequence c.size c.mtime
  if is_deleted row then create_new c ix else replay

unfoldable pub apply_create : Index → Creation → Step
apply_create ix c =
    resolve_record ix c.volume c.rec c.sequence >>= λ (found, ix'). create_found found c ix'

abbrev pub mark_deleted : Node → Node
mark_deleted row = record row { flags = bit_or row.flags deleted_flag }

abbrev pub delete_found : Option ℕ → ℕ → ℕ → Index → Step
delete_found none volume rec ix = some (Applied.unknown, ix)
delete_found (some node) volume rec ix = do
  row ← node_at ix node
  let marked = update_node ix node mark_deleted >>= λ ix'. some (Applied.ignored, ix')
  let gone = propagate ix node (negative (weight row)) >>= λ ix'.
      update_node ix' node tombstone >>= λ ix''.
      some (Applied.deleted node, clear_record ix'' volume rec)
  if is_deleted row then some (Applied.ignored, ix) else if is_excluded row then marked else gone

unfoldable pub apply_delete : Index → (volume rec sequence : ℕ) → Step
apply_delete ix volume rec sequence =
    resolve_record ix volume rec sequence >>= λ (found, ix'). delete_found found volume rec ix'

-- The subtree's weight leaves one chain of ancestors and joins another.
unfoldable pub move_node : Index → ℕ → Node → ℕ → Option Index
move_node ix node row new_parent = do
  ix₁ ← propagate ix node (negative (weight row))
  above ← node_at ix₁ new_parent
  ix₂ ←
      update_node ix₁ node
        λ r. record r { parent = new_parent; depth = min (above.depth + 1) Names.u16_max }
  propagate ix₂ node (weight row)

-- `if self.live_name(node) != name`: the new name goes to the side table.
unfoldable pub rename_node : Index → ℕ → List ℕ → Bool → Step
unfolding set_override
rename_node ix node new_name has_moved = do
  live ← name ix node
  let overridden =
      update_node (record ix { overrides = set_override ix.overrides node new_name }) node
        λ r. record r { flags = bit_or r.flags name_overridden }
  let renamed = overridden >>= λ ix'. some (Applied.renamed node, ix')
  if bytes_eq live new_name
      then some (if has_moved then Applied.moved node else Applied.ignored, ix)
      else renamed

abbrev pub rename_under : Option ℕ → ℕ → Node → List ℕ → Index → Step
rename_under none node row new_name ix = some (Applied.unknown, ix)
rename_under (some new_parent) node row new_name ix =
    let has_moved = not (row.parent == new_parent) in
    let carried = (if has_moved then move_node ix node row new_parent else some ix) in
    carried >>= λ ix'. rename_node ix' node new_name has_moved

abbrev pub rename_found : Option ℕ → (volume parent_record : ℕ) → List ℕ → Index → Step
rename_found none volume parent_record new_name ix = some (Applied.unknown, ix)
rename_found (some node) volume parent_record new_name ix = do
  row ← node_at ix node
  let under = rename_under (node_of_record ix volume parent_record) node row new_name ix
  if is_deleted row then some (Applied.unknown, ix) else under

unfoldable pub apply_rename : Index → (volume rec sequence parent_record : ℕ) → List ℕ → Step
apply_rename ix volume rec sequence parent_record new_name =
    resolve_record ix volume rec sequence >>= λ (found, ix').
    rename_found found volume parent_record new_name ix'

unfoldable pub apply_change : Index → Change → Step
apply_change ix (Change.created c) = apply_create ix c
apply_change ix (Change.deleted volume rec sequence) = apply_delete ix volume rec sequence
apply_change ix (Change.resized volume rec sequence size mtime) =
    apply_resize ix volume rec sequence size mtime
apply_change ix (Change.renamed volume rec sequence parent_record new_name) =
    apply_rename ix volume rec sequence parent_record new_name

-- Every change bumps the generation first.
unfoldable pub apply : Index → Change → Step
apply ix change = apply_change (bump ix) change

unfoldable pub apply_all : Index → List Change → WatchStats → Option (WatchStats × Index)
apply_all ix [] stats = some (stats, ix)
apply_all ix (change ∷ changes) stats =
    apply ix change >>= λ (a, ix'). apply_all ix' changes (count_applied stats a)

unfoldable pub tombstones : List Node → ℕ
tombstones [] = 0
tombstones (row ∷ rows) = (if is_deleted row then 1 else 0) + tombstones rows
