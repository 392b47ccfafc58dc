-- ===== src/Core/Watch/Batches.antt =====
-- Renames and whole batches of changes: no panic, and the index stays well formed.
use batuta.Base.{ℕ, suc, ◌+◌, ◌^◌, ◌≤◌, ◌<◌, ◌≡◌, refl, arith, min}
use batuta.Base.{Bool, true, false, Option, none, some, List, [], ◌∷◌, not, ◌==◌, bit_or, inr}
use batuta.Base.{length, if◌then◌else◌}
use batuta.Base.Fallible.{Returns, returns, Returns-bind, Returns-if, Returns-weaken}
use batuta.Ntfs.Boot.{bytes_eq}
use batuta.Core.Names
use batuta.Core.Index.{Index, Node, node_at, update_node, propagate, negative, weight, bump, name}
use batuta.Core.Index.{NameOverrides, name_overridden, is_deleted}
use batuta.Core.Watch.{Change, Applied}
use batuta.Core.Watch.{move_node, rename_node, rename_under, rename_found, apply_rename}
use batuta.Core.Watch.{apply_change, apply}
use batuta.Core.Watch.Steps.{IsValid, aside, here, then_step, Reach-IsValid}
use batuta.Core.Watch.Safety.{
  Kept, Kept-refl, Kept-trans, Kept-IsValid, Kept-put, Kept-lt, Returns-node_at, KeepsName,
}
use batuta.Core.Watch.Safety.{propagate-Kept, update_node-Kept}
use batuta.Core.Watch.Safety.{FoundFits, node_of_record-FoundFits}
use batuta.Core.Watch.Applying.{
  added, Done, Room, Done-kept, Kept-Done, resolved-Done, apply_resize-Done,
}
use batuta.Core.Watch.{WatchStats, count_applied, apply_all}
use batuta.Core.Watch.Steps.{IsTiled, Reach-IsTiled}
use batuta.Core.Watch.Changes.{apply_delete-Done, apply_create-Done, Room-Kept}

reparented-Kept :
    (ix : Index) (node new_parent : ℕ) (above : Node)
    → node < length ix.nodes
    → new_parent < length ix.nodes
    → Returns (Kept ix) (
        update_node ix node
          λ r. record r { parent = new_parent; depth = min (above.depth + 1) Names.u16_max })
unfolding update_node
reparented-Kept ix node new_parent above h p =
    Returns-bind (node_at ix node) _ (Returns-node_at ix node h)
      λ r e. returns _ (Kept-put ix node r _ e refl refl (inr p))

move_node-Kept :
    (ix : Index) (node : ℕ) (row : Node) (new_parent : ℕ)
    → IsValid ix
    → node < length ix.nodes
    → new_parent < length ix.nodes
    → Returns (Kept ix) (move_node ix node row new_parent)
unfolding move_node
move_node-Kept ix node row new_parent v h p =
    Returns-bind (propagate ix node (negative (weight row))) _ (propagate-Kept ix node _ v h)
      λ ix₁ k.
        Returns-bind (node_at ix₁ new_parent) _
          (Returns-node_at ix₁ new_parent (Kept-lt new_parent k p))
          λ above e.
            Returns-bind _ _
              (reparented-Kept ix₁ node new_parent above (Kept-lt node k h)
                (Kept-lt new_parent k p))
              λ ix₂ k₂.
                Returns-weaken _ (λ ix₃ k₃. Kept-trans (Kept-trans k k₂) k₃)
                  (propagate-Kept ix₂ node (weight row) (Kept-IsValid k₂ (Kept-IsValid k v))
                    (Kept-lt node k₂ (Kept-lt node k h)))

Returns-name : (ix : Index) (node : ℕ) → node < length ix.nodes → Returns (λ _. Unit) (name ix node)
unfolding name
Returns-name ix node h =
    Returns-bind (node_at ix node) _ (Returns-node_at ix node h) λ row e. returns _ tt

overridden-KeepsName : KeepsName (λ r. record r { flags = bit_or r.flags name_overridden })
overridden-KeepsName = record { off = λ r. refl; len = λ r. refl; parent = λ r. refl }

-- Changing the side table leaves the rest alone.
aside-Kept : (ix : Index) (o : NameOverrides) → Kept ix (record ix { overrides = o })
aside-Kept ix o = record {
  reach = then_step here (aside ix o ix.generation);
  count = refl;
  names = refl;
}

rename_node-Done :
    (ix : Index) (node : ℕ) (new_name : List ℕ) (has_moved : Bool)
    → IsValid ix
    → node < length ix.nodes
    → Returns (Done ix) (rename_node ix node new_name has_moved)
unfolding rename_node
rename_node-Done ix node new_name has_moved v h =
    Returns-bind (name ix node) _ (Returns-name ix node h) λ live _.
      Returns-if (bytes_eq live new_name) _ _ (λ _. same has_moved)
        λ _. Returns-bind _ _ (update_node-Kept _ node _ overridden-KeepsName h) λ ix' k.
          let whole = Kept-trans (aside-Kept ix _) k in
          returns _ (Done-kept (Applied.renamed node) whole refl (Kept-lt node whole h))
  where
    same :
        (b : Bool)
        → Returns (Done ix) (some (if b then Applied.moved node else Applied.ignored, ix))
    same true = returns _ (Done-kept (Applied.moved node) (Kept-refl ix) refl h)
    same false = returns _ (Done-kept Applied.ignored (Kept-refl ix) refl tt)

carried_to :
    (b : Bool) (ix : Index) (node : ℕ) (row : Node) (new_parent : ℕ)
    → IsValid ix
    → node < length ix.nodes
    → new_parent < length ix.nodes
    → Returns (Kept ix) (if b then move_node ix node row new_parent else some ix)
carried_to b ix node row new_parent v h p =
    Returns-if b _ _ (λ _. move_node-Kept ix node row new_parent v h p)
      λ _. returns ix (Kept-refl ix)

rename_under-Done :
    (o : Option ℕ) (node : ℕ) (row : Node) (new_name : List ℕ) (ix : Index)
    → IsValid ix
    → node < length ix.nodes
    → FoundFits (length ix.nodes) o
    → Returns (Done ix) (rename_under o node row new_name ix)
rename_under-Done none node row new_name ix v h f =
    returns _ (Done-kept Applied.unknown (Kept-refl ix) refl tt)
rename_under-Done (some new_parent) node row new_name ix v h f =
    Returns-bind _ _ (carried_to (not (row.parent == new_parent)) ix node row new_parent v h f)
      λ ix' k.
        Returns-weaken _ (λ q d. Kept-Done q k d)
          (rename_node-Done ix' node new_name _ (Kept-IsValid k v) (Kept-lt node k h))

rename_found-Done :
    (o : Option ℕ) (volume parent_record : ℕ) (new_name : List ℕ) (ix : Index)
    → IsValid ix
    → FoundFits (length ix.nodes) o
    → Returns (Done ix) (rename_found o volume parent_record new_name ix)
rename_found-Done none volume parent_record new_name ix v f =
    returns _ (Done-kept Applied.unknown (Kept-refl ix) refl tt)
rename_found-Done (some node) volume parent_record new_name ix v f =
    Returns-bind (node_at ix node) _ (Returns-node_at ix node f) λ row e.
      Returns-if (is_deleted row) _ _
        (λ _. returns _ (Done-kept Applied.unknown (Kept-refl ix) refl tt))
        λ _.
          rename_under-Done _ node row new_name ix v f
            (node_of_record-FoundFits ix volume parent_record v)

apply_rename-Done :
    (ix : Index) (volume rec sequence parent_record : ℕ) (new_name : List ℕ)
    → IsValid ix
    → Returns (Done ix) (apply_rename ix volume rec sequence parent_record new_name)
unfolding apply_rename
apply_rename-Done ix volume rec sequence parent_record new_name v =
    resolved-Done ix volume rec sequence _ v
      λ p k v' f. rename_found-Done p.0 volume parent_record new_name p.1 v' f

bump-Kept : (ix : Index) → Kept ix (bump ix)
unfolding bump
bump-Kept ix = record {
  reach = then_step here (aside ix ix.overrides _);
  count = refl;
  names = refl;
}

apply_change-Done :
    (ix : Index) (change : Change)
    → IsValid ix
    → Room 1 ix
    → Returns (Done ix) (apply_change ix change)
unfolding apply_change
apply_change-Done ix (Change.created c) v room = apply_create-Done ix c v room
apply_change-Done ix (Change.deleted volume rec sequence) v room =
    apply_delete-Done ix volume rec sequence v
apply_change-Done ix (Change.resized volume rec sequence size mtime) v room =
    apply_resize-Done ix volume rec sequence size mtime v
apply_change-Done ix (Change.renamed volume rec sequence parent_record new_name) v room =
    apply_rename-Done ix volume rec sequence parent_record new_name v

-- On a valid index with room for one more node, every change is applied without a panic, by
-- elementary steps; a node is added exactly when the outcome says so, and the node that the
-- outcome names is one of the index.
pub apply-Done :
    (ix : Index) (change : Change) → IsValid ix → Room 1 ix → Returns (Done ix) (apply ix change)
unfolding apply
apply-Done ix change v room =
    Returns-weaken _ (λ q d. Kept-Done q (bump-Kept ix) d)
      (apply_change-Done (bump ix) change (Kept-IsValid (bump-Kept ix) v)
        (Room-Kept 1 (bump-Kept ix) room))

-- The changes that counters have counted.
abbrev pub tally : WatchStats → ℕ
tally s = s.created + s.deleted + s.resized + s.moved + s.renamed + s.unknown + s.ignored

counted_one :
    (s : WatchStats) (x : Applied)
    → tally s + 1 < 2 ^ 64
    → (tally (count_applied s x) ≡ tally s + 1)
      × ((count_applied s x).created ≡ s.created + added x)
unfolding count_applied
counted_one s (Applied.created n) h = (omega arith, omega arith)
counted_one s (Applied.deleted n) h = (omega arith, omega arith)
counted_one s (Applied.resized n) h = (omega arith, omega arith)
counted_one s (Applied.moved n) h = (omega arith, omega arith)
counted_one s (Applied.renamed n) h = (omega arith, omega arith)
counted_one s Applied.unknown h = (omega arith, omega arith)
counted_one s Applied.ignored h = (omega arith, omega arith)

-- What a batch of `n` changes gives, from the counters `s`.
pub record Batch (ix : Index) (n : ℕ) (s : WatchStats) (p : WatchStats × Index) : Type 0 where
  pub valid : IsValid p.1
  pub tiled : IsTiled ix → IsTiled p.1
  pub count : length p.1.nodes + s.created ≡ length ix.nodes + p.0.created
  pub counted : tally p.0 ≡ tally s + n

added_le : (x : Applied) → added x ≤ 1
added_le (Applied.created n) = omega arith
added_le (Applied.deleted n) = omega arith
added_le (Applied.resized n) = omega arith
added_le (Applied.moved n) = omega arith
added_le (Applied.renamed n) = omega arith
added_le Applied.unknown = omega arith
added_le Applied.ignored = omega arith

left_over : (ix : Index) (n : ℕ) (q : Applied × Index) → Room (suc n) ix → Done ix q → Room n q.1
left_over ix n q room d = record {
  nodes = omega (arith, room.nodes, d.count, added_le q.0);
  names = omega (arith, room.names, d.names, added_le q.0);
}

batched :
    (ix : Index) (n : ℕ) (s : WatchStats) (q : Applied × Index)
    → tally s + 1 < 2 ^ 64
    → Done ix q
    → (p : WatchStats × Index) → Batch q.1 n (count_applied s q.0) p
    → Batch ix (suc n) s p
batched ix n s q h d p b = record {
  valid = b.valid;
  tiled = λ t. b.tiled (Reach-IsTiled d.reach t);
  count = omega (arith, b.count, d.count, (counted_one s q.0 h).1);
  counted = omega (arith, b.counted, (counted_one s q.0 h).0);
}

-- A batch of changes on a valid index, with room for as many nodes and with counters that stay
-- below 2^64, is applied to the end without a panic. The index is valid afterwards, its names
-- tile the arena in node order if they did before, it has as many more nodes as the counter of
-- creations says, and the counters together have counted every change.
pub apply_all-Batch :
    (ix : Index) (changes : List Change) (s : WatchStats)
    → IsValid ix
    → Room (length changes) ix
    → tally s + length changes < 2 ^ 64
    → Returns (Batch ix (length changes) s) (apply_all ix changes s)
unfolding apply_all
apply_all-Batch ix [] s v room h =
    returns _ (record { valid = v; tiled = λ t. t; count = refl; counted = omega arith })
apply_all-Batch ix (change ∷ changes) s v room h =
    Returns-bind (apply ix change) _ (apply-Done ix change v (first_of room)) λ q d.
      Returns-weaken _ (λ p b. batched ix (length changes) s q (omega arith) d p b)
        (apply_all-Batch q.1 changes (count_applied s q.0) (Reach-IsValid d.reach v)
          (left_over ix (length changes) q room d)
          (omega (arith, (counted_one s q.0 (omega arith)).0)))
  where
    first_of : Room (suc (length changes)) ix → Room 1 ix
    first_of r = record { nodes = omega (arith, r.nodes); names = omega (arith, r.names) }
