-- ===== src/Core/Totals/Renaming.antt =====
-- A rename, with or without a move, keeps every directory's totals exact.
use batuta.Base.{ℕ, zero, suc, ◌+◌, ◌≤◌, ◌≡◌, ◌≢◌, refl, sym, ap, subst, ◌∙◌, arith, min}
use batuta.Base.{false, some, List, [], ◌∷◌, inl, inr, length, set}
use batuta.Base.{Bool-cases, ◌==◌}
use batuta.Base.Fallible.{Returns, Returns-bind, Returns-weaken}
use batuta.Core.Names
use batuta.Core.Index.{Index, Node, no_node, node_at, put_node, propagate, negative, weight}
use batuta.Core.Totals.{
  Measure, own, part, top, limit, is_gone, counts, share, Balanced, Off, Chain,
}
use batuta.Core.Totals.Sums.{node_at-put_self, put-get}
use batuta.Core.Totals.Propagation.{share-counts, share_zero}
use batuta.Core.Totals.Chains.{
  propagate-Settled, Chain-aside, Chain-at, Chain-put_aside, length-put,
}
use batuta.Core.Totals.Edits.{SameOwn, write-Off, part-negative, part-weight}
use batuta.Core.Totals.Resizing.{update_node-at}
use batuta.Core.Index.{}
use batuta.Core.Watch.{move_node}
use batuta.Core.Totals.Moving.{Returns-Partly, propagate-Still}

-- A row in its new place.
abbrev moved_row : ℕ → ℕ → Node → Node
moved_row new_parent depth row = record row { parent = new_parent; depth = depth }

own-moved : (m : Measure) (p k : ℕ) (row : Node) → own m (moved_row p k row) ≡ own m row
own-moved Measure.bytes p k row = refl
own-moved Measure.allocated p k row = refl
own-moved Measure.files p k row = refl

counts-moved : (m : Measure) (p k : ℕ) (row : Node) → counts m (moved_row p k row) ≡ counts m row
counts-moved Measure.bytes p k row = refl
counts-moved Measure.allocated p k row = refl
counts-moved Measure.files p k row = refl

moved-SameOwn :
    (m : Measure) (p k q l : ℕ) (row : Node) → SameOwn m (moved_row p k row) (moved_row q l row)
moved-SameOwn m p k q l row = record {
  kept = λ e. e;
  own = λ e. own-moved m q l row ∙ sym (own-moved m p k row);
}

-- A row that is its own parent counts for nothing.
share_self : (m : Measure) (dir i : ℕ) (row : Node) → row.parent ≡ i → share m dir i row ≡ 0
share_self m dir i row e = elim (Bool-cases (i == dir)) [
  | inl same ↦ share_zero m dir i row (inr (ground arith))
  | inr other ↦ share_zero m dir i row (inl (ground arith))
]

set-set_same {ℓ} : {A : Type ℓ} (xs : List A) (i : ℕ) (v w : A) → set (set xs i v) i w ≡ set xs i w
set-set_same [] i v w = refl
set-set_same (x ∷ xs) zero v w = refl
set-set_same (x ∷ xs) (suc i) v w = ap (◌∷◌ x) (set-set_same xs i v w)

put-put_same : (ix : Index) (i : ℕ) (v w : Node) → put_node (put_node ix i v) i w ≡ put_node ix i w
unfolding put_node
put-put_same ix i v w =
    ap (λ (rows : List Node). record ix { nodes = rows }) (set-set_same ix.nodes i v w)

-- What a move leaves: exact totals, and the row under its new parent.
pub record Settles (m : Measure) (node to : ℕ) (row : Node) (ix : Index) : Type 0 where
  pub balanced : Balanced m ix
  pub depth : ℕ
  pub moved : node_at ix node ≡ some (moved_row to depth row)

fits_limit : (m : Measure) (k c : ℕ) → k ≡ c → c ≤ limit m → limit m + k ≤ top m
fits_limit Measure.bytes k c e h = omega (arith, e, h)
fits_limit Measure.allocated k c e h = omega (arith, e, h)
fits_limit Measure.files k c e h = omega (arith, e, h)

module _ (m : Measure) (node to : ℕ) (row : Node) (live : is_gone row ≡ false)
    (light : counts m row ≤ limit m) where
  abbrev lifted : Node
  lifted = moved_row node row.depth row

  lifted-Off :
      (ix : Index) (n : ℕ)
      → node_at ix node ≡ some row
      → Chain m (limit m) node ix n row.parent
      → Balanced m ix
      → Off m (put_node ix node lifted) row.parent (part m (negative (weight row)))
  lifted-Off ix n at c bal =
      let apart : node ≢ row.parent = λ e. Chain-aside c (sym e) in
      write-Off m ix node row lifted at (moved-SameOwn m row.parent row.depth node row.depth row)
        bal row.parent _ apart
        (λ i ne.
          share_self m i node lifted refl ∙ sym (share_zero m i node row (inl (λ e. ne (sym e)))))
        (omega (
          arith,
          share_self m row.parent node lifted refl,
          share-counts m row.parent node row refl apart,
          (part-negative m row live light).0,
          (part-negative m row live light).1,
        ))

  -- The node, taken out of its directory, is put down in another.
  landed-Off :
      (ix : Index) (n k : ℕ)
      → node_at ix node ≡ some row
      → Chain m (limit m) node ix n to
      → Balanced m (put_node ix node lifted)
      → Off m (put_node ix node (moved_row to k row)) to (part m (weight row))
  landed-Off ix n k at c bal =
      let apart : node ≢ to = λ e. Chain-aside c (sym e) in
      subst (λ (J : Index). Off m J to (part m (weight row)))
        (put-put_same ix node lifted (moved_row to k row))
        (write-Off m (put_node ix node lifted) node lifted (moved_row to k row)
          (node_at-put_self ix node row lifted at) (moved-SameOwn m node row.depth to k row) bal to
          _ apart
          (λ i ne.
            share_zero m i node (moved_row to k row) (inl (λ e. ne (sym e)))
            ∙ sym (share_self m i node lifted refl))
          (omega (
            arith,
            share_self m to node lifted refl,
            share-counts m to node (moved_row to k row) refl apart,
            counts-moved m to k row,
            (part-weight m row live light).0,
            (part-weight m row live light).1,
          )))

  landed :
      (ix : Index) (n k : ℕ)
      → node_at ix node ≡ some row
      → length ix.nodes ≤ no_node
      → Chain m (limit m) node ix n to
      → n ≤ 513
      → Balanced m (put_node ix node lifted)
      → Returns
          (Settles m node to row)
          (propagate (put_node ix node (moved_row to k row)) node (weight row))
  landed ix n k at small c enough bal =
      let new_at = node_at-put_self ix node row (moved_row to k row) at in
      Returns-weaken _
        (λ ix' s. record {
          balanced = subst (Balanced m) (put-get ix' node (moved_row to k row) s.same) s.balanced;
          depth = k;
          moved = s.same;
        })
        (propagate-Settled m (limit m) node (moved_row to k row) n (weight row) _
          (moved_row to k row) new_at (rw (length-put ix node (moved_row to k row)) small)
          (Chain-put_aside _ c) enough
          (subst (λ (J : Index). Off m J to (part m (weight row)))
            (sym (put-get _ node (moved_row to k row) new_at)) (landed-Off ix n k at c bal))
          (fits_limit m _ (counts m row) (part-weight m row live light).0 light))

  pub move_node-Settles :
      (ix : Index) (n k : ℕ)
      → node_at ix node ≡ some row
      → length ix.nodes ≤ no_node
      → Chain m (limit m) node ix n row.parent
      → n ≤ 513
      → Chain m (limit m) node ix k to
      → k ≤ 513
      → Balanced m ix
      → Returns (Settles m node to row) (move_node ix node row to)
  unfolding move_node
  move_node-Settles ix n k at small c enough c' enough' bal =
      Returns-bind (propagate ix node (negative (weight row))) _
        (Returns-Partly _
          (propagate-Settled m (limit m) node lifted n (negative (weight row)) ix row at small c
            enough (lifted-Off ix n at c bal)
            (fits_limit m _ 0 (part-negative m row live light).0 (omega arith)))
          (propagate-Still m (limit m) node k to node (negative (weight row)) ix
            (part-negative m row live light).0 c'))
        λ ix₁ (s, t). Returns-bind (node_at ix₁ to) _ (Chain-at t.chain) λ above _.
          rw
            (update_node-at ix₁ node
              (λ r. record r { parent = to; depth = min (above.depth + 1) Names.u16_max }) row
              s.same)
            (landed ix₁ k (min (above.depth + 1) Names.u16_max) s.same (rw t.count small) t.chain
              enough' s.balanced)
