-- ===== src/Core/Totals/Deleting.antt =====
-- A delete, and the retirement of a recycled record, keep every directory's totals exact.
use batuta.Base.{ℕ, zero, suc, ◌+◌, ◌-◌, ◌^◌, ◌≤◌, ◌<◌, ◌≡◌, ◌≢◌, refl, sym, ap, subst, ◌∙◌, arith}
use batuta.Base.{
  bit_or, Bool, true, false, not, ◌&&◌, ◌||◌, Option, none, some, List, ◌⊎◌, inl, inr, length,
  get_elem?, set, lt_of_get,
}
use batuta.Base.{
  Bool-cases, Option-cases, ◌==◌, if◌then◌else◌, length-set, get_elem?-set_self, get_elem?-set_ne,
  get_elem?_in, get_elem?_out,
}
use batuta.Base.Fallible.{Returns, returns, Returns-bind, Returns-if}
use batuta.Base.Int.{pos_part}
use batuta.Core.Index.{
  Index, Node, no_node, node_at, put_node, is_dir, is_deleted, is_excluded, propagate,
  node_of_record,
}
use batuta.Core.Index.{tombstone, negative, weight, clear_record, retire, resolve_record}
use batuta.Core.Watch.{Applied, apply_delete}
use batuta.Core.Totals.{
  Measure, own, part, top, limit, is_gone, is_kept_dir, counts, share, total, Balanced, Off, Chain,
}
use batuta.Core.Totals.Propagation.{share-counts, share_zero}
use batuta.Core.Totals.Sums.{node_at-put_self}
use batuta.Core.Totals.Chains.{Settled, propagate-Settled, Chain-aside}
use batuta.Core.Totals.Edits.{write-Off, tombstone_gone, share_gone, part-negative}
use batuta.Core.Totals.Resizing.{Holds, resolve_record-Holds, update_node-at, neither, not_both}

-- Two indexes with the same rows have the same totals.
pub Balanced-rows : {m : Measure} {a b : Index} → b.nodes ≡ a.nodes → Balanced m a → Balanced m b
unfolding node_at
Balanced-rows {m} {a} {b} e bal = record {
  exact = λ i r at k.
      bal.exact i r (ap (λ (rows : List Node). get_elem? rows i) (sym e) ∙ at) k
      ∙ ap (λ (rows : List Node). batuta.Core.Totals.sum_from m i 0 rows) (sym e);
}

pub clear_record-nodes :
    (ix : Index) (volume rec : ℕ) → (clear_record ix volume rec).nodes ≡ ix.nodes
unfolding clear_record
clear_record-nodes ix volume rec = elim (Option-cases (get_elem? ix.rec_to_node volume)) [
  | inl e ↦ rw (e, clear_record) refl
  | inr (table, e) ↦ rw (e, clear_record) refl
]

cleared_slot :
    (table : List ℕ) (rec : ℕ)
    → (get_elem? (set table rec no_node) rec ≡ none)
      ⊎ (get_elem? (set table rec no_node) rec ≡ some no_node)
cleared_slot table rec = elim (Option-cases (get_elem? table rec)) [
  | inl e ↦ inl (stays_out table rec e)
  | inr (k, e) ↦ inr (get_elem?-set_self table rec no_node (lt_of_get table rec k e))
]
  where
    stays_out : (t : List ℕ) (r : ℕ) → get_elem? t r ≡ none → get_elem? (set t r no_node) r ≡ none
    stays_out t r e = elim (Bool-cases (batuta.Base.ltb r (length t))) [
      | inl inside ↦ let (k, f) = get_elem?_in t r (ground arith) in absurd (cc (e, f))
      | inr outside ↦
          get_elem?_out (set t r no_node) r (omega (arith, length-set t r no_node, le outside))
    ]
      where
        le : batuta.Base.ltb r (length t) ≡ false → length t ≤ r
        le h = ground arith

-- A record that has been cleared holds no node.
pub node_of_record-clear :
    (ix : Index) (volume rec : ℕ) → node_of_record (clear_record ix volume rec) volume rec ≡ none
unfolding node_of_record clear_record
node_of_record-clear ix volume rec = elim (Option-cases (get_elem? ix.rec_to_node volume)) [
  | inl e ↦ rw (e, clear_record, e) refl
  | inr (table, e) ↦
      let there : get_elem? (set ix.rec_to_node volume (set table rec no_node)) volume
          ≡ some (set table rec no_node) =
        get_elem?-set_self ix.rec_to_node volume _ (lt_of_get ix.rec_to_node volume table e) in
      elim (cleared_slot table rec) [
        | inl f ↦ rw (e, clear_record, there, f) refl
        | inr f ↦ rw (e, clear_record, there, f) refl
      ]
]

module _ (m : Measure) (ix : Index) (node n : ℕ) (row : Node) (at : node_at ix node ≡ some row)
    (live : is_gone row ≡ false) (light : counts m row ≤ limit m)
    (small : length ix.nodes ≤ no_node) (c : Chain m (limit m) node ix n row.parent)
    (enough : n ≤ 513) (bal : Balanced m ix) where
  not_kept_tombstone : is_kept_dir (tombstone row) ≡ false
  not_kept_tombstone = second (is_dir (tombstone row)) _ (tombstone_gone row)
    where
      second : (a b : Bool) → b ≡ true → (a && not b) ≡ false
      second true true e = refl
      second false b e = refl
      second true false e = cc

  buried-Off : Off m (put_node ix node (tombstone row)) row.parent (part m (negative (weight row)))
  buried-Off =
      write-Off m ix node row (tombstone row) at
        (record {
          kept = λ e. absurd (not_both _ e not_kept_tombstone);
          own = λ e. absurd (not_both _ e not_kept_tombstone);
        })
        bal row.parent _ apart
        (λ i ne.
          share_gone m i node (tombstone row) (tombstone_gone row)
          ∙ sym (share_zero m i node row (inl (λ e. ne (sym e)))))
        (omega (
          arith,
          share_gone m row.parent node (tombstone row) (tombstone_gone row),
          share-counts m row.parent node row refl apart,
          (part-negative m row live light).0,
          (part-negative m row live light).1,
        ))
    where
      apart : node ≢ row.parent
      apart e = Chain-aside c (sym e)

  limit_fits : limit m + pos_part (part m (negative (weight row))) ≤ top m
  limit_fits = below m (part-negative m row live light).0
    where
      below : (m : Measure) {k : ℕ} → k ≡ 0 → limit m + k ≤ top m
      below Measure.bytes e = omega (arith, e)
      below Measure.allocated e = omega (arith, e)
      below Measure.files e = omega (arith, e)

  pub buried_Settled :
      Returns
        (Settled m node (tombstone row) (some row))
        (propagate ix node (negative (weight row)))
  buried_Settled =
      propagate-Settled m (limit m) node (tombstone row) n _ ix row at small c enough buried-Off
        limit_fits

-- A row that is marked as deleted and weighs nothing, and is otherwise as it was.
pub record IsTombstone (old row : Node) : Type 0 where
  pub flags : row.flags ≡ bit_or old.flags (2 ^ 13)
  pub size : row.size ≡ 0
  pub alloc : row.alloc ≡ 0
  pub subtree_files : row.subtree_files ≡ 0
  pub parent : row.parent ≡ old.parent
  pub name_off : row.name_off ≡ old.name_off
  pub name_len : row.name_len ≡ old.name_len
  pub mtime : row.mtime ≡ old.mtime
  pub sequence : row.sequence ≡ old.sequence
  pub depth : row.depth ≡ old.depth

tombstone-IsTombstone : (row : Node) → IsTombstone row (tombstone row)
tombstone-IsTombstone row = record {
  flags = refl;
  size = refl;
  alloc = refl;
  subtree_files = refl;
  parent = refl;
  name_off = refl;
  name_len = refl;
  mtime = refl;
  sequence = refl;
  depth = refl;
}

-- The node is a tombstone, its record is free, and the totals are exact.
pub record Buried (m : Measure) (volume rec node : ℕ) (row : Node) (ix : Index) : Type 0 where
  pub balanced : Balanced m ix
  pub buried : (left : Node) × (node_at ix node ≡ some left) × IsTombstone row left
  pub free : node_of_record ix volume rec ≡ none

-- What a delete returns, and what it leaves.
pub record Deleted (m : Measure) (volume rec node : ℕ) (row : Node) (p : Applied × Index)
    : Type 0 where
  pub outcome : p.0 ≡ Applied.deleted node
  pub rest : Buried m volume rec node row p.1

Buried-clear :
    {m : Measure} {node : ℕ} {row : Node} (ix : Index) (volume rec : ℕ)
    → Settled m node (tombstone row) (some row) ix
    → Buried m volume rec node row (clear_record (put_node ix node (tombstone row)) volume rec)
Buried-clear {m} {node} {row} ix volume rec s = record {
  balanced =
      Balanced-rows (clear_record-nodes (put_node ix node (tombstone row)) volume rec) s.balanced;
  buried = (
    tombstone row,
    rows_at _ _ (clear_record-nodes (put_node ix node (tombstone row)) volume rec)
        ∙ node_at-put_self ix node row (tombstone row) s.same,
    tombstone-IsTombstone row,
  );
  free = node_of_record-clear (put_node ix node (tombstone row)) volume rec;
}
  where
    rows_at : (a b : Index) → a.nodes ≡ b.nodes → node_at a node ≡ node_at b node
    rows_at a b e = unfold node_at in ap (λ (rows : List Node). get_elem? rows node) e

-- In an index of fewer than 2^32 nodes whose totals are exact, deleting a live node whose own
-- weight is at most `limit`, where kept directories whose totals are at most `limit` lead from
-- its parent, without meeting it, to a root within the 513 rounds of the loop, returns that the
-- node was deleted: its row is flagged as deleted with its size, its allocation and its count of files
-- at 0 and is otherwise as it was, its record is free, and the bytes, the allocated bytes and the files of
-- every remaining directory are exact again.
pub apply_delete-Deleted :
    (m : Measure) (ix : Index) (volume rec sequence node n : ℕ) (row : Node)
    → Holds ix volume rec sequence node row
    → counts m row ≤ limit m
    → length ix.nodes ≤ no_node
    → Chain m (limit m) node ix n row.parent
    → n ≤ 513
    → Balanced m ix
    → Returns (Deleted m volume rec node row) (apply_delete ix volume rec sequence)
unfolding apply_delete
apply_delete-Deleted m ix volume rec sequence node n row held light small c enough bal =
    let (kept, counted) = neither (is_deleted row) (is_excluded row) held.live in
    rw (resolve_record-Holds volume rec sequence held, held.at, apply_delete)
      (Returns-if (is_deleted row) _ _ (λ e. absurd (not_both _ e kept))
        λ _.
          Returns-if (is_excluded row) _ _ (λ e. absurd (not_both _ e counted))
            λ _.
              Returns-bind (propagate ix node (negative (weight row))) _
                (buried_Settled m ix node n row held.at held.live light small c enough bal)
                λ ix' s.
                  rw (update_node-at ix' node tombstone row s.same)
                    (returns _ (record { outcome = refl; rest = Buried-clear ix' volume rec s })))

-- A record that NTFS has recycled.
pub record Retired (m : Measure) (volume rec node : ℕ) (row : Node) (p : Option ℕ × Index)
    : Type 0 where
  pub found : p.0 ≡ none
  pub rest : Buried m volume rec node row p.1

-- In an index of fewer than 2^32 nodes whose totals are exact, resolving a record at another
-- sequence number than that of the live node that holds it finds nothing, if the node's own
-- weight is at most `limit` and kept directories whose totals are at most `limit` lead from its
-- parent, without meeting it, to a root within the 513 rounds of the loop. The node is retired
-- as a delete would retire it: its row is flagged as deleted with its size, its allocation and its count
-- of files at 0 and is otherwise as it was, the record is free, and the bytes, the allocated bytes and the
-- files of every remaining directory are exact again.
pub resolve_record-Retired :
    (m : Measure) (ix : Index) (volume rec sequence node n : ℕ) (row : Node)
    → Holds ix volume rec row.sequence node row
    → row.sequence ≢ sequence
    → counts m row ≤ limit m
    → length ix.nodes ≤ no_node
    → Chain m (limit m) node ix n row.parent
    → n ≤ 513
    → Balanced m ix
    → Returns (Retired m volume rec node row) (resolve_record ix volume rec sequence)
unfolding resolve_record
resolve_record-Retired m ix volume rec sequence node n row held recycled light small c enough bal =
    let (kept, counted) = neither (is_deleted row) (is_excluded row) held.live in
    rw (held.slot, held.at, resolve_record)
      (Returns-if (row.sequence == sequence) _ _ (λ e. absurd (recycled (ground arith)))
        λ _. Returns-bind (retire ix node) _ (retired kept counted) λ ix' s. returns _ s)
  where
    retired :
        is_deleted row ≡ false
        → is_excluded row ≡ false
        → Returns
            (λ ix'. Retired m volume rec node row (none, clear_record ix' volume rec))
            (retire ix node)
    retired kept counted =
        unfold retire in
        rw (held.at, retire)
          (Returns-if (is_deleted row) _ _ (λ e. absurd (not_both _ e kept))
            λ _.
              Returns-bind
                (if is_excluded row then some ix else propagate ix node (negative (weight row))) _
                (Returns-if (is_excluded row) _ _ (λ e. absurd (not_both _ e counted))
                  λ _. buried_Settled m ix node n row held.at held.live light small c enough bal)
                λ ix' s.
                  rw (update_node-at ix' node tombstone row s.same)
                    (returns _ (record { found = refl; rest = Buried-clear ix' volume rec s })))
