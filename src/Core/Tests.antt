-- ===== src/Core/Tests.antt =====
-- A small volume, changes applied to it, and the theorems at those inputs.
use batuta.Base.{
  ℕ, zero, suc, ◌+◌, ◌≡◌, refl, arith, true, false, none, some, List, [], ◌∷◌, inl, inr, subst,
}
use batuta.Base.{length, Option, get_elem?, All, All_get}
use batuta.Base.Int.{pos}
use batuta.Base.Fallible.{Returns}
use batuta.Core.Index.{Index, Node, VolumeInfo, no_node, node_at, node_of_record, resolve_record}
use batuta.Core.Watch.{
  Creation, Change, Applied, WatchStats, apply, apply_all, apply_resize, apply_delete, apply_rename,
}
use batuta.Core.Names.{push, kept, get, is_utf8, utf8_run}
use batuta.Ntfs.Bytes.{file_ref_record}
use batuta.Core.Names.Laws.{Arena, push-Arena, push-get}
use batuta.Core.Builder.{
  Entry, IndexBuilder, enter_all, enter, entry_row, filetime_to_unix, link_all, linked_row,
  adopt_all, highest, capacity, new_table, add_volume,
}
use batuta.Core.Depths.{compute_depths, depths_from, depth_from, climb_chain, unwind, known_depths}
use batuta.Core.Depths.Total.{compute_depths-Returns}
use batuta.Core.Watch.Steps.{SlotsFit}
use batuta.Core.Builder.Fits.{BuilderFits}
use batuta.Core.Builder.Volume.{Added, add_volume-Added}
use batuta.Core.Index.{name, is_under}
use batuta.Core.Index.Ancestry.{Under, is_under-Under}
use batuta.Core.Watch.{rename_node}
use batuta.Core.Watch.Visible.{rename_node-name}
use batuta.Base.{◌↔◌, ◌≤◌}
use batuta.Core.Watch.Steps.{NodeFits, IsValid}
use batuta.Core.Watch.Applying.{Done, Room}
use batuta.Core.Watch.Batches.{Batch, apply-Done, apply_all-Batch}
use batuta.Core.Totals.{
  Measure, own, limit, total, sum_from, is_kept_dir, Balanced, Chain, at_root, below_root,
}
use batuta.Core.Totals.Resizing.{Holds, Exact, apply_resize-Exact}
use batuta.Core.Totals.Deleting.{Deleted, Retired, apply_delete-Deleted, resolve_record-Retired}
use batuta.Core.Totals.Renamed.{Placed, apply_rename-Placed}

-- The root, the directory `d` with the file `f` of 100 bytes in it, and the empty directory `e`.
abbrev root : Node
root = record {
  parent = 0;
  name_off = 0;
  name_len = 1;
  flags = 1;
  size = 100;
  alloc = 100;
  mtime = 7;
  sequence = 5;
  subtree_files = 1;
  depth = 0;
}

abbrev d : Node
d = record {
  parent = 0;
  name_off = 1;
  name_len = 1;
  flags = 1;
  size = 100;
  alloc = 100;
  mtime = 7;
  sequence = 1;
  subtree_files = 1;
  depth = 1;
}

abbrev f : Node
f = record {
  parent = 1;
  name_off = 2;
  name_len = 1;
  flags = 0;
  size = 100;
  alloc = 100;
  mtime = 7;
  sequence = 3;
  subtree_files = 0;
  depth = 2;
}

abbrev e : Node
e = record {
  parent = 0;
  name_off = 3;
  name_len = 1;
  flags = 1;
  size = 0;
  alloc = 0;
  mtime = 7;
  sequence = 1;
  subtree_files = 0;
  depth = 1;
}

abbrev volume_c : VolumeInfo
volume_c = record {
  drive = 67;
  serial = 1;
  root = 0;
  first_node = 0;
  node_count = 4;
  next_usn = pos 0;
}

abbrev sample : Index
sample = record {
  volumes = volume_c ∷ [];
  nodes = root ∷ d ∷ f ∷ e ∷ [];
  names = 46 ∷ 100 ∷ 102 ∷ 101 ∷ [];
  overrides = record { arena = []; by_node = [] };
  generation = 0;
  rec_to_node = (no_node ∷ 1 ∷ 2 ∷ 3 ∷ no_node ∷ 0 ∷ []) ∷ [];
}

IsValid-of :
    (ix : Index)
    → All (λ (row : Node). NodeFits (length ix.nodes) row.parent) ix.nodes
    → All (All (NodeFits (length ix.nodes))) ix.rec_to_node
    → IsValid ix
IsValid-of ix h k = record {
  parents =
      λ i row at. All_get (λ (r : Node). NodeFits (length ix.nodes) r.parent) ix.nodes i row h at;
  tables = λ v table at r n slot.
      All_get (NodeFits (length ix.nodes)) table r n
        (All_get (All (NodeFits (length ix.nodes))) ix.rec_to_node v table k at) slot;
}

sample-IsValid : IsValid sample
sample-IsValid =
    IsValid-of sample
      (inl (omega arith), (inl (omega arith), (inl (omega arith), (inl (omega arith), tt))))
      (
        (
          inr refl,
          (
            inl (omega arith),
            (inl (omega arith), (inl (omega arith), (inr refl, (inl (omega arith), tt)))),
          ),
        ),
        tt,
      )

sample-Room : Room 2 sample
sample-Room = record { nodes = omega arith; names = omega arith }

one-Room : Room 1 sample
one-Room = record { nodes = omega arith; names = omega arith }

abbrev new_file : Creation
new_file = record {
  volume = 0;
  rec = 9;
  sequence = 1;
  parent_record = 3;
  name = 103 ∷ [];
  is_dir = false;
  size = 40;
  mtime = 9;
}

abbrev no_stats : WatchStats
no_stats = record {
  created = 0;
  deleted = 0;
  resized = 0;
  moved = 0;
  renamed = 0;
  unknown = 0;
  ignored = 0;
}

abbrev changes : List Change
changes = Change.created new_file ∷ Change.deleted 0 2 3 ∷ []

-- One row after the other.
abbrev Exacts : Measure → Index → ℕ → List Node → Type 0
Exacts m ix i [] = Unit
Exacts m ix i (row ∷ rows) =
    (is_kept_dir row ≡ true → own m row ≡ total m ix i) × Exacts m ix (i + 1) rows

Balanced-of : (m : Measure) (ix : Index) → Exacts m ix 0 ix.nodes → Balanced m ix
unfolding node_at
Balanced-of m ix h = record { exact = λ i row at k. row_at ix.nodes 0 i i row (omega arith) h at k }
  where
    row_at :
        (rows : List Node) (o i j : ℕ) (row : Node)
        → j ≡ o + i
        → Exacts m ix o rows
        → get_elem? rows i ≡ some row
        → is_kept_dir row ≡ true
        → own m row ≡ total m ix j
    row_at [] o i j row q h at k = cc
    row_at (x ∷ rows) o zero j row q h at k =
        let here : j ≡ o = omega arith in
        let same : row ≡ x = cc in
        rw (here, same) (h.0 (subst (λ (r : Node). is_kept_dir r ≡ true) same k))
    row_at (x ∷ rows) o (suc i) j row q h at k = row_at rows (o + 1) i j row (omega arith) h.1 at k

sample-Balanced : Balanced Measure.bytes sample
unfolding sum_from
sample-Balanced =
    Balanced-of Measure.bytes sample (λ _. refl, (λ _. refl, (λ h. absurd (cc h), (λ _. refl, tt))))

d-Chain : Chain Measure.bytes (limit Measure.bytes) 2 sample 2 1
unfolding node_at
d-Chain =
    below_root 1 1 d refl refl (omega arith) (λ h. absurd (omega (arith, h)))
      (λ h. absurd (omega (arith, h)))
      (at_root 0 root refl refl (omega arith) (λ h. absurd (omega (arith, h))) refl)

e-Chain : Chain Measure.bytes (limit Measure.bytes) 2 sample 2 3
unfolding node_at
e-Chain =
    below_root 1 3 e refl refl (omega arith) (λ h. absurd (omega (arith, h)))
      (λ h. absurd (omega (arith, h)))
      (at_root 0 root refl refl (omega arith) (λ h. absurd (omega (arith, h))) refl)

f-Holds : Holds sample 0 2 3 2 f
unfolding node_of_record node_at
f-Holds = record { slot = refl; at = refl; sequence = refl; live = refl }

held_three : node_of_record sample 0 3 ≡ some 3
unfolding node_of_record
held_three = refl

apply-Done_example : Returns (Done sample) (apply sample (Change.created new_file))
apply-Done_example = apply-Done sample (Change.created new_file) sample-IsValid one-Room

apply_all-Batch_example : Returns (Batch sample 2 no_stats) (apply_all sample changes no_stats)
apply_all-Batch_example =
    apply_all-Batch sample changes no_stats sample-IsValid sample-Room (omega arith)

apply_resize-Exact_example :
    Returns (Exact Measure.bytes (Applied.resized 2)) (apply_resize sample 0 2 3 250 9)
apply_resize-Exact_example =
    apply_resize-Exact Measure.bytes sample 0 2 3 250 9 2 2 f f-Holds refl (omega arith)
      (omega arith) tt (omega arith) d-Chain (omega arith) sample-Balanced

apply_delete-Deleted_example : Returns (Deleted Measure.bytes 0 2 2 f) (apply_delete sample 0 2 3)
apply_delete-Deleted_example =
    apply_delete-Deleted Measure.bytes sample 0 2 3 2 2 f f-Holds (omega arith) (omega arith)
      d-Chain (omega arith) sample-Balanced

resolve_record-Retired_example :
    Returns (Retired Measure.bytes 0 2 2 f) (resolve_record sample 0 2 4)
resolve_record-Retired_example =
    resolve_record-Retired Measure.bytes sample 0 2 4 2 2 f f-Holds (λ h. absurd (omega (arith, h)))
      (omega arith) (omega arith) d-Chain (omega arith) sample-Balanced

apply_rename-Placed_example :
    Returns (λ p. Placed Measure.bytes 2 3 p.1) (apply_rename sample 0 2 3 3 (104 ∷ []))
apply_rename-Placed_example =
    apply_rename-Placed Measure.bytes sample 0 2 3 3 2 3 2 2 (104 ∷ []) f f-Holds held_three
      (omega arith) (omega arith) d-Chain (omega arith) e-Chain (omega arith) sample-Balanced

-- `é`, in two bytes.
abbrev e_acute : List ℕ
e_acute = 0xC3 ∷ 0xA9 ∷ []

e_acute_valid : is_utf8 e_acute ≡ true
unfolding is_utf8 utf8_run
e_acute_valid = refl

push-Arena_example : Arena (46 ∷ []) e_acute (push (46 ∷ []) e_acute)
push-Arena_example = push-Arena (46 ∷ []) e_acute (omega arith)

push-get_example :
    get (push (46 ∷ []) e_acute).buf (push (46 ∷ []) e_acute).off (push (46 ∷ []) e_acute).len
    ≡ e_acute
push-get_example = push-get (46 ∷ []) e_acute (omega arith) (omega arith) e_acute_valid

-- The root in record 5, the directory `d` in record 6 and a file whose parent record is missing.
abbrev parsed : List Entry
parsed =
    record {
      record_no = 5;
      sequence = 5;
      parent = 5;
      name = 46 ∷ [];
      size = 0;
      allocated = 0;
      mtime = pos 0;
      flags = 1;
    }
    ∷ record {
      record_no = 6;
      sequence = 1;
      parent = 5;
      name = 100 ∷ [];
      size = 0;
      allocated = 0;
      mtime = pos 0;
      flags = 1;
    }
    ∷ record {
      record_no = 7;
      sequence = 1;
      parent = 99;
      name = 102 ∷ [];
      size = 9;
      allocated = 16;
      mtime = pos 0;
      flags = 0;
    }
    ∷ []

abbrev empty : IndexBuilder
empty = record { volumes = []; nodes = []; names = []; rec_to_node = [] }

abbrev parents_of : Option IndexBuilder → List ℕ
parents_of none = []
parents_of (some b) = go b.nodes
  where
    go : List Node → List ℕ
    go [] = []
    go (row ∷ rows) = row.parent ∷ go rows

-- The orphan has been attached to the root.
adopted_orphan : parents_of (add_volume empty 67 1 (pos 0) parsed 0) ≡ 0 ∷ 0 ∷ 0 ∷ []
unfolding add_volume enter_all enter entry_row filetime_to_unix link_all linked_row adopt_all
    highest capacity new_table push kept file_ref_record
adopted_orphan = refl

-- A record number near 2^62 asks for more than can be allocated.
huge_record :
    add_volume empty 67 1
      (pos 0)
      (record {
        record_no = 0x4000_0000_0000_0000;
        sequence = 1;
        parent = 5;
        name = [];
        size = 0;
        allocated = 0;
        mtime = pos 0;
        flags = 0;
      }
        ∷ [])
      0
    ≡ none
unfolding add_volume highest capacity new_table
huge_record = refl

empty-BuilderFits : BuilderFits empty
empty-BuilderFits = record {
  rows = record { count = refl; parents = λ i row at. cc; tiled = refl };
  tables = λ v table at r k slot. cc;
}

add_volume-Added_example : Returns (Added 3 empty) (add_volume empty 67 1 (pos 0) parsed 0)
add_volume-Added_example =
    add_volume-Added empty 67 1 (pos 0) parsed 0 empty-BuilderFits (omega arith) (omega arith)
      (omega arith, (omega arith, (omega arith, tt))) (omega arith)

f_at : node_at sample 2 ≡ some f
unfolding node_at
f_at = refl

rename_node-name_example :
    Returns (λ p. name p.1 2 ≡ some e_acute) (rename_node sample 2 e_acute false)
rename_node-name_example =
    rename_node-name sample 2 f e_acute false f_at (omega arith) (omega arith) e_acute_valid

is_under-Under_example :
    (is_under sample 2 0 ≡ some true) ↔ ((n : ℕ) × (n ≤ 512) × Under sample 0 n 2)
is_under-Under_example = is_under-Under sample 2 0

-- The root, a directory in it, a file in the directory, and another one in the root.
depths : compute_depths (0 ∷ 0 ∷ 1 ∷ 0 ∷ []) ≡ some (0 ∷ 1 ∷ 2 ∷ 1 ∷ [])
unfolding compute_depths depths_from depth_from climb_chain unwind known_depths
depths = refl

-- Two nodes that are each other's parent.
cycle-SlotsFit : SlotsFit 2 (1 ∷ 0 ∷ [])
cycle-SlotsFit i k at =
    All_get (NodeFits 2) (1 ∷ 0 ∷ []) i k (inl (omega arith), (inl (omega arith), tt)) at

compute_depths-Returns_example : Returns (λ ds. length ds ≡ 2) (compute_depths (1 ∷ 0 ∷ []))
compute_depths-Returns_example = compute_depths-Returns (1 ∷ 0 ∷ []) cycle-SlotsFit
