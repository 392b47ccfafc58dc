-- ===== src/Core/Watch/Changes.antt =====
-- Deletes, creates, renames and whole batches: each is applied without a panic, by elementary steps.
use batuta.Base.{ℕ, ◌+◌, ◌^◌, ◌≤◌, ◌<◌, ◌≡◌, refl, arith, min}
use batuta.Base.{Option, none, some, List, [], ◌∷◌, ◌%◌}
use batuta.Base.{length, length-append, length-take, if◌then◌else◌}
use batuta.Base.Fallible.{Returns, returns, Returns-bind, Returns-if, ◌>>=◌}
use batuta.Core.Names
use batuta.Core.Index.{
  Index, Node, node_at, update_node, propagate, negative, weight, name, set_record,
}
use batuta.Core.Index.{is_deleted, is_excluded, tombstone}
use batuta.Core.Watch.{Creation, Applied, mark_deleted, delete_found}
use batuta.Core.Watch.{apply_delete}
use batuta.Core.Watch.{
  append_node, fresh_row, file_delta, create_under, create_new, create_found, apply_create,
}
use batuta.Core.Watch.Steps.{IsValid, Step, create, here, then_step, Reach-trans, Reach-IsValid}
use batuta.Core.Watch.Safety.{
  Kept, Kept-refl, Kept-trans, Kept-IsValid, Kept-lt, Returns-node_at, KeepsName,
}
use batuta.Core.Watch.Safety.{
  propagate-Kept, update_node-Kept, tombstone-KeepsName, clear_record-Kept, set_record-Kept,
}
use batuta.Core.Watch.Safety.{FoundFits, node_of_record-FoundFits}
use batuta.Core.Watch.Applying.{Done, Room, Done-kept, resolved-Done, apply_resize-Done}

marked-KeepsName : KeepsName mark_deleted
marked-KeepsName = record { off = λ r. refl; len = λ r. refl; parent = λ r. refl }

delete_found-Done :
    (o : Option ℕ) (volume rec : ℕ) (ix : Index)
    → IsValid ix
    → FoundFits (length ix.nodes) o
    → Returns (Done ix) (delete_found o volume rec ix)
delete_found-Done none volume rec ix v f =
    returns _ (Done-kept Applied.unknown (Kept-refl ix) refl tt)
delete_found-Done (some node) volume rec ix v f =
    Returns-bind (node_at ix node) _ (Returns-node_at ix node f) λ row e.
      Returns-if (is_deleted row) _ _
        (λ _. returns _ (Done-kept Applied.ignored (Kept-refl ix) refl tt))
        λ _.
          Returns-if (is_excluded row) _ _
            (λ _.
              Returns-bind (update_node ix node mark_deleted) _
                (update_node-Kept ix node mark_deleted marked-KeepsName f)
                λ ix' k. returns _ (Done-kept Applied.ignored k refl tt))
            λ _.
              Returns-bind (propagate ix node (negative (weight row))) _
                (propagate-Kept ix node (negative (weight row)) v f)
                λ ix' k.
                  Returns-bind (update_node ix' node tombstone) _
                    (update_node-Kept ix' node tombstone tombstone-KeepsName (Kept-lt node k f))
                    λ ix'' k'.
                      let whole =
                        Kept-trans (Kept-trans k k') (
                          clear_record-Kept ix'' volume rec (Kept-IsValid k' (Kept-IsValid k v))) in
                      returns _ (Done-kept (Applied.deleted node) whole refl (Kept-lt node whole f))

pub apply_delete-Done :
    (ix : Index) (volume rec sequence : ℕ)
    → IsValid ix
    → Returns (Done ix) (apply_delete ix volume rec sequence)
unfolding apply_delete
apply_delete-Done ix volume rec sequence v =
    resolved-Done ix volume rec sequence _ v λ p k v' f. delete_found-Done p.0 volume rec p.1 v' f

pub kept_le : (name : List ℕ) → length (Names.kept name) ≤ 65535
unfolding Names.kept
kept_le name = omega (arith, length-take (min (length name) Names.u16_max) name)

pub push_len : (buf name : List ℕ) → (Names.push buf name).len ≡ length (Names.kept name)
unfolding Names.push
push_len buf name = omega (arith, length-take (min (length name) Names.u16_max) name)

-- The row and the bytes that a create appends.
append_node-Step :
    (c : Creation) (ix : Index) (parent : ℕ) (above : Node)
    → parent < length ix.nodes
    → length ix.names < 2 ^ 32
    → Step ix (append_node c ix parent above)
unfolding append_node Names.push
append_node-Step c ix parent above h room =
    create ix (fresh_row c ix parent above) (Names.kept c.name) (omega arith)
      (push_len ix.names c.name) h

placed_under :
    (c : Creation) (ix : Index) (parent : ℕ) (above : Node)
    → IsValid ix
    → Room 1 ix
    → parent < length ix.nodes
    → Returns (Done ix) (
        let placed =
          set_record (append_node c ix parent above) c.volume c.rec (length ix.nodes % 2 ^ 32) in
        (if c.is_dir
          then some placed
          else propagate placed (length ix.nodes % 2 ^ 32) (file_delta c.size))
        >>= λ ix'. some (Applied.created (length ix.nodes % 2 ^ 32), ix'))
placed_under c ix parent above v room h =
    Returns-bind (if c.is_dir then some placed else propagate placed node (file_delta c.size)) _
      (Returns-if c.is_dir _ _ (λ _. returns _ (Kept-refl placed))
        λ _.
          propagate-Kept placed node (file_delta c.size) (Kept-IsValid k v')
            (Kept-lt node k node_in))
      λ ix' k'. returns _ (record {
        reach = Reach-trans (then_step here step) (Reach-trans k.reach k'.reach);
        count = omega (arith, k.count, k'.count, more);
        names = omega (arith, k.names, k'.names, longer, kept_le c.name);
        fits = Kept-lt node k' (Kept-lt node k node_in);
      })
  where
    node : ℕ
    node = length ix.nodes % 2 ^ 32

    step : Step ix (append_node c ix parent above)
    step = append_node-Step c ix parent above h (omega (arith, room.names))

    more : length (append_node c ix parent above).nodes ≡ length ix.nodes + 1
    more = unfold append_node in length-append ix.nodes (fresh_row c ix parent above ∷ [])

    longer :
        length (append_node c ix parent above).names ≡ length ix.names + length (Names.kept c.name)
    longer = unfold append_node Names.push in length-append ix.names (Names.kept c.name)

    v' : IsValid (append_node c ix parent above)
    v' = Reach-IsValid (then_step here step) v

    node_in : node < length (append_node c ix parent above).nodes
    node_in = omega (arith, more, room.nodes)

    placed : Index
    placed = set_record (append_node c ix parent above) c.volume c.rec node

    k : Kept (append_node c ix parent above) placed
    k = set_record-Kept (append_node c ix parent above) c.volume c.rec node v' node_in

create_under-Done :
    (o : Option ℕ) (c : Creation) (ix : Index)
    → IsValid ix
    → Room 1 ix
    → FoundFits (length ix.nodes) o
    → Returns (Done ix) (create_under o c ix)
create_under-Done none c ix v room f = returns _ (Done-kept Applied.unknown (Kept-refl ix) refl tt)
create_under-Done (some parent) c ix v room f =
    Returns-bind (node_at ix parent) _ (Returns-node_at ix parent f) λ above e.
      Returns-if (is_excluded above) _ _
        (λ _. returns _ (Done-kept Applied.ignored (Kept-refl ix) refl tt))
        λ _. placed_under c ix parent above v room f

create_new-Done :
    (c : Creation) (ix : Index) → IsValid ix → Room 1 ix → Returns (Done ix) (create_new c ix)
unfolding create_new
create_new-Done c ix v room =
    create_under-Done _ c ix v room (node_of_record-FoundFits ix c.volume c.parent_record v)

create_found-Done :
    (o : Option ℕ) (c : Creation) (ix : Index)
    → IsValid ix
    → Room 1 ix
    → FoundFits (length ix.nodes) o
    → Returns (Done ix) (create_found o c ix)
create_found-Done none c ix v room f = create_new-Done c ix v room
create_found-Done (some existing) c ix v room f =
    Returns-bind (node_at ix existing) _ (Returns-node_at ix existing f) λ row e.
      Returns-if (is_deleted row) _ _ (λ _. create_new-Done c ix v room)
        λ _. apply_resize-Done ix c.volume c.rec c.sequence c.size c.mtime v

pub Room-Kept : {a b : Index} (n : ℕ) → Kept a b → Room n a → Room n b
Room-Kept n k room = record {
  nodes = omega (arith, k.count, room.nodes);
  names = omega (arith, k.names, room.names);
}

pub apply_create-Done :
    (ix : Index) (c : Creation) → IsValid ix → Room 1 ix → Returns (Done ix) (apply_create ix c)
unfolding apply_create
apply_create-Done ix c v room =
    resolved-Done ix c.volume c.rec c.sequence _ v
      λ p k v' f. create_found-Done p.0 c p.1 v' (Room-Kept 1 k room) f
