-- ===== src/Core/Totals/Renamed.antt =====
-- What a rename returns, with the totals exact.
use batuta.Base.{ℕ, ◌^◌, ◌≤◌, ◌≡◌, refl, sym, ap, ◌∙◌, arith}
use batuta.Base.{Bool, true, false, not, ◌&&◌, ◌||◌, some, List, length}
use batuta.Base.{◌==◌, if◌then◌else◌}
use batuta.Base.Fallible.{Returns, returns, Returns-bind, Returns-if, Returns-weaken}
use batuta.Core.Index.{Index, Node, no_node, node_at, update_node, is_dir}
use batuta.Core.Totals.{Measure, own, limit, is_gone, is_kept_dir, counts, share, Balanced, Chain}
use batuta.Core.Totals.Sums.{node_at-put_self}
use batuta.Core.Totals.Chains.{}
use batuta.Core.Totals.Edits.{SameOwn}
use batuta.Core.Totals.Resizing.{update_node-at}
use batuta.Base.{bit_and, bit_or, ◌*◌}
use batuta.Base.Bits.{bit, bit-bit_or, bit_and-pow}
use batuta.Ntfs.Boot.{bytes_eq}
use batuta.Core.Index.{has, name, name_overridden, is_deleted, is_excluded, node_of_record}
use batuta.Core.Watch.{move_node, set_override, rename_node, apply_rename}
use batuta.Core.Totals.Edits.{write_even}
use batuta.Core.Totals.Resizing.{Holds, resolve_record-Holds, neither, not_both}
use batuta.Core.Totals.Deleting.{Balanced-rows}
use batuta.Core.Totals.Renaming.{move_node-Settles}

-- Another bit of the flags.
other_bit :
    (k f : ℕ) → bit k name_overridden ≡ 0 → has (bit_or f name_overridden) (2 ^ k) ≡ has f (2 ^ k)
other_bit k f h =
    let same : bit_and (bit_or f name_overridden) (2 ^ k) ≡ bit_and f (2 ^ k) =
      bit_and-pow k (bit_or f name_overridden)
      ∙ ap (λ (b : ℕ). b * 2 ^ k) (omega (arith, bit-bit_or k f name_overridden, h))
      ∙ sym (bit_and-pow k f) in
    ap (λ (x : ℕ). not (x == 0)) same

abbrev overridden : Node → Node
overridden row = record row { flags = bit_or row.flags name_overridden }

overridden_dir : (row : Node) → is_dir (overridden row) ≡ is_dir row
overridden_dir row = other_bit 0 row.flags refl

overridden_gone : (row : Node) → is_gone (overridden row) ≡ is_gone row
overridden_gone row = both _ _ _ _ (other_bit 13 row.flags refl) (other_bit 11 row.flags refl)
  where
    both : (a b c d : Bool) → a ≡ b → c ≡ d → (a || c) ≡ (b || d)
    both a b c d e f = cc (e, f)

counts-overridden : (m : Measure) (row : Node) → counts m (overridden row) ≡ counts m row
counts-overridden Measure.bytes row = rw (overridden_gone row, overridden_dir row) refl
counts-overridden Measure.allocated row = rw (overridden_gone row, overridden_dir row) refl
counts-overridden Measure.files row = rw (overridden_gone row, overridden_dir row) refl

overridden-SameOwn : (m : Measure) (row : Node) → SameOwn m row (overridden row)
overridden-SameOwn m row = record { kept = λ e. sym same ∙ e; own = λ _. own_same m }
  where
    same : is_kept_dir (overridden row) ≡ is_kept_dir row
    same = rw (overridden_gone row, overridden_dir row) refl

    own_same : (k : Measure) → own k (overridden row) ≡ own k row
    own_same Measure.bytes = refl
    own_same Measure.allocated = refl
    own_same Measure.files = refl

-- The totals are exact and the node stands under `to`.
pub record Placed (m : Measure) (node to : ℕ) (ix : Index) : Type 0 where
  pub balanced : Balanced m ix
  pub row : Node
  pub at : node_at ix node ≡ some row
  pub parent : row.parent ≡ to

-- A new flag and a new name leave the totals alone.
Placed-overridden :
    {m : Measure} {node to : ℕ} (ix : Index)
    → Placed m node to ix
    → Returns
        (Placed m node to)
        (update_node ix node (λ r. record r { flags = bit_or r.flags name_overridden }))
Placed-overridden {m} {node} {to} ix p = rw (update_node-at ix node overridden p.row p.at) (
    returns _ (record {
      balanced =
          write_even m ix node p.row (overridden p.row) p.at (overridden-SameOwn m p.row) p.balanced
            (λ i. shares i);
      row = overridden p.row;
      at = node_at-put_self ix node p.row (overridden p.row) p.at;
      parent = p.parent;
    }))
  where
    shares : (i : ℕ) → share m i node (overridden p.row) ≡ share m i node p.row
    shares i =
        ap (λ (x : ℕ). if p.row.parent == i && not (node == i) then x else 0)
          (counts-overridden m p.row)

Placed-renamed :
    {m : Measure} {node to : ℕ} (ix : Index) (new_name : List ℕ) (has_moved : Bool)
    → Placed m node to ix
    → Returns (λ q. Placed m node to q.1) (rename_node ix node new_name has_moved)
unfolding rename_node name
Placed-renamed {m} {node} {to} ix new_name has_moved p =
    rw (p.at, rename_node, name)
      (Returns-if (bytes_eq _ new_name) _ _ (λ _. returns _ p)
        λ _.
          Returns-bind _ _
            (Placed-overridden (record ix { overrides = set_override ix.overrides node new_name })
              beside)
            λ ix' q. returns _ q)
  where
    beside : Placed m node to (record ix { overrides = set_override ix.overrides node new_name })
    beside = record {
      balanced = Balanced-rows refl p.balanced;
      row = p.row;
      at = unfold node_at in p.at;
      parent = p.parent;
    }

-- In an index of fewer than 2^32 nodes whose totals are exact, renaming a live node whose own
-- weight is at most `limit` into the directory of another record, where kept directories whose
-- totals are at most `limit` lead both from its old parent and from its new one, without meeting
-- it, to a root within the 513 rounds of the loop, returns; the node stands under the new
-- directory, and every directory's totals are exact again on both sides of the move.
pub apply_rename-Placed :
    (m : Measure) (ix : Index) (volume rec sequence parent_record node to n k : ℕ)
    (new_name : List ℕ) (row : Node)
    → Holds ix volume rec sequence node row
    → node_of_record ix volume parent_record ≡ some to
    → counts m row ≤ limit m
    → length ix.nodes ≤ no_node
    → Chain m (limit m) node ix n row.parent
    → n ≤ 513
    → Chain m (limit m) node ix k to
    → k ≤ 513
    → Balanced m ix
    → Returns
        (λ p. Placed m node to p.1)
        (apply_rename ix volume rec sequence parent_record new_name)
unfolding apply_rename
apply_rename-Placed m ix volume rec sequence parent_record node to n k new_name row held under light
      small c enough c' enough' bal =
    let (kept, counted) = neither (is_deleted row) (is_excluded row) held.live in
    rw (resolve_record-Holds volume rec sequence held, held.at, under, apply_rename)
      (Returns-if (is_deleted row) _ _ (λ e. absurd (not_both _ e kept))
        λ _.
          Returns-bind _ _ (carried (row.parent == to) refl)
            λ ix' p. Placed-renamed ix' new_name _ p)
  where
    carried :
        (b : Bool)
        → b ≡ (row.parent == to)
        → Returns (Placed m node to) (if not b then move_node ix node row to else some ix)
    carried true e =
        returns ix (record { balanced = bal; row = row; at = held.at; parent = ground arith })
    carried false e =
        Returns-weaken _
          (λ ix' s. record { balanced = s.balanced; row = _; at = s.moved; parent = refl })
          (move_node-Settles m node to row held.live light ix n k held.at small c enough c' enough'
            bal)
