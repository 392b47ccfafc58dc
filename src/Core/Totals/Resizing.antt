-- ===== src/Core/Totals/Resizing.antt =====
-- A resize and a delete keep every directory's totals exact.
use batuta.Base.{ℕ, zero, suc, ◌+◌, ◌-◌, ◌^◌, ◌≤◌, ◌≡◌, ◌≢◌, refl, sym, ap, subst, ◌∙◌, arith}
use batuta.Base.{Bool, true, false, not, ◌&&◌, ◌||◌, some, inl, inr, length}
use batuta.Base.{Bool-cases, ◌==◌, if◌then◌else◌}
use batuta.Base.Fallible.{Returns, returns, Returns-bind, Returns-if, Returns-weaken, ◌>>=◌}
use batuta.Base.Int.{ℤ, pos, negsuc, pos_part, neg_part, as_i64, wrap_i64, ◌-ℤ◌}
use batuta.Core.Index.{
  Index, Node, Delta, no_node, node_at, put_node, is_dir, is_deleted, is_excluded, update_node,
  propagate, node_of_record, resolve_record,
}
use batuta.Core.Watch.{Applied, resized_row, size_delta, is_zero_ℤ, apply_resize}
use batuta.Core.Totals.{
  Measure, own, leaf, part, top, limit, is_gone, is_kept_dir, counts, total, Balanced, Off, Chain,
}
use batuta.Core.Totals.Propagation.{share-counts, share_zero}
use batuta.Core.Totals.Sums.{node_at-put_self, put-get}
use batuta.Core.Totals.Chains.{propagate-Settled, Chain-aside, Chain-put_aside, length-put}
use batuta.Core.Totals.Edits.{write-Off}

-- The record is held, at the sequence number that a change names, by a live row.
pub record Holds (ix : Index) (volume rec seq node : ℕ) (row : Node) : Type 0 where
  pub slot : node_of_record ix volume rec ≡ some node
  pub at : node_at ix node ≡ some row
  pub sequence : row.sequence ≡ seq
  pub live : is_gone row ≡ false

-- The outcome, and totals that are exact.
pub record Exact (m : Measure) (o : Applied) (p : Applied × Index) : Type 0 where
  pub outcome : p.0 ≡ o
  pub balanced : Balanced m p.1

pub resolve_record-Holds :
    {ix : Index} {node : ℕ} {row : Node} (volume rec sequence : ℕ)
    → Holds ix volume rec sequence node row
    → resolve_record ix volume rec sequence ≡ some (some node, ix)
unfolding resolve_record
resolve_record-Holds {row = row} volume rec sequence h =
    let same : (row.sequence == sequence) ≡ true = ground (arith, h.sequence) in
    rw (h.slot, h.at, same, resolve_record) refl

size_delta_exact :
    (size old : ℕ)
    → size ≤ 2 ^ 63 - 1
    → old ≤ 2 ^ 63 - 1
    → (size + neg_part (size_delta size old) ≡ old + pos_part (size_delta size old))
      × (pos_part (size_delta size old) ≤ size)
unfolding as_i64 wrap_i64 ◌-ℤ◌
size_delta_exact size old h k = ground arith

-- A resize takes a file's allocation to be its size, so allocated bytes are exact only if they are.
abbrev pub IsFilled : Measure → Node → Type 0
IsFilled Measure.bytes row = Unit
IsFilled Measure.allocated row = row.alloc ≡ row.size
IsFilled Measure.files row = Unit

-- The delta of a resize, in all measures.
abbrev resize_delta : ℕ → ℕ → Delta
resize_delta size old = record {
  size = size_delta size old;
  alloc = size_delta size old;
  files = pos 0;
}

resized_counts :
    (m : Measure) (size mtime : ℕ) (row : Node)
    → is_gone row ≡ false
    → is_dir row ≡ false
    → size ≤ 2 ^ 63 - 1
    → row.size ≤ 2 ^ 63 - 1
    → IsFilled m row
    → counts m (resized_row size mtime row) + neg_part (part m (resize_delta size row.size))
      ≡ counts m row + pos_part (part m (resize_delta size row.size))
resized_counts m size mtime row g d h k filled = file m filled (is_gone row) (is_dir row) g d
  where
    file :
        (m : Measure)
        → IsFilled m row
        → (a b : Bool) → a ≡ false
        → b ≡ false
        → (if a
              then 0
              else if b
              then own m (resized_row size mtime row)
              else leaf m (resized_row size mtime row))
            + neg_part (part m (resize_delta size row.size))
          ≡ (if a then 0 else if b then own m row else leaf m row)
            + pos_part (part m (resize_delta size row.size))
    file Measure.bytes _ false false _ _ = (size_delta_exact size row.size h k).0
    file Measure.allocated same false false _ _ =
        omega (arith, same, (size_delta_exact size row.size h k).0)
    file Measure.files _ false false _ _ = refl
    file m _ true b e _ = cc
    file m _ false true _ e = cc

resize_fits :
    (m : Measure) (size old : ℕ)
    → size ≤ 2 ^ 63 - 1
    → old ≤ 2 ^ 63 - 1
    → limit m + pos_part (part m (resize_delta size old)) ≤ top m
resize_fits Measure.bytes size old h k = omega (arith, (size_delta_exact size old h k).1)
resize_fits Measure.allocated size old h k = omega (arith, (size_delta_exact size old h k).1)
resize_fits Measure.files size old h k = omega arith

zero_int : (z : ℤ) → is_zero_ℤ z ≡ true → (pos_part z ≡ 0) × (neg_part z ≡ 0)
zero_int (pos zero) e = (refl, refl)
zero_int (pos (suc n)) e = cc
zero_int (negsuc n) e = cc

zero_part :
    (m : Measure) (size old : ℕ)
    → is_zero_ℤ (size_delta size old) ≡ true
    → (pos_part (part m (resize_delta size old)) ≡ 0)
      × (neg_part (part m (resize_delta size old)) ≡ 0)
zero_part Measure.bytes size old h = zero_int (size_delta size old) h
zero_part Measure.allocated size old h = zero_int (size_delta size old) h
zero_part Measure.files size old h = (refl, refl)

-- Nothing is lacking.
pub Off-Balanced :
    {m : Measure} {ix : Index} (p : ℕ) (z : ℤ)
    → pos_part z ≡ neg_part z
    → Off m ix p z
    → Balanced m ix
Off-Balanced {m} {ix} p z e off = record {
  exact = λ i r at k. elim (Bool-cases (i == p)) [
    | inl same ↦
        let here : p ≡ i = ground arith in
        let there : own m r + pos_part z ≡ total m ix p + neg_part z =
          off.lacks r (subst (λ (x : ℕ). node_at ix x ≡ some r) (sym here) at) k in
        omega (arith, e, there, ap (total m ix) here)
    | inr other ↦ off.others i r at k (ground arith)
  ];
}

pub update_node-at :
    (ix : Index) (node : ℕ) (f : Node → Node) (row : Node)
    → node_at ix node ≡ some row
    → update_node ix node f ≡ some (put_node ix node (f row))
unfolding update_node
update_node-at ix node f row e = rw (e, update_node) refl

not_kept_file : (row : Node) → is_dir row ≡ false → is_kept_dir row ≡ false
not_kept_file row h = first (is_dir row) h
  where
    first : (a : Bool) → a ≡ false → (a && not (is_gone row)) ≡ false
    first false e = refl
    first true e = cc

pub neither : (a b : Bool) → (a || b) ≡ false → (a ≡ false) × (b ≡ false)
neither false false e = (refl, refl)
neither true b e = cc
neither false true e = cc

pub either_false : (a b : Bool) → a ≡ false → b ≡ false → (a || b) ≡ false
either_false false false e f = refl
either_false true b e f = cc
either_false false true e f = cc

pub not_both : (b : Bool) → b ≡ true → b ≡ false → ⊥
not_both b e f = cc (e, f)

module _ (m : Measure) (ix : Index) (node size mtime n : ℕ) (row : Node)
    (at : node_at ix node ≡ some row) (file : is_dir row ≡ false) (live : is_gone row ≡ false)
    (h : size ≤ 2 ^ 63 - 1) (k : row.size ≤ 2 ^ 63 - 1) (filled : IsFilled m row)
    (bal : Balanced m ix) (small : length ix.nodes ≤ no_node)
    (c : Chain m (limit m) node ix n row.parent) (enough : n ≤ 513) where
  resized-Off :
      Off m
        (put_node ix node (resized_row size mtime row))
        row.parent
        (part m (resize_delta size row.size))
  resized-Off =
      write-Off m ix node row (resized_row size mtime row) at
        (record { kept = λ e. e; own = λ e. absurd (cc (e, not_kept_file row file)) }) bal
        row.parent _ apart
        (λ i ne.
          share_zero m i node (resized_row size mtime row) (inl (λ e. ne (sym e)))
          ∙ sym (share_zero m i node row (inl (λ e. ne (sym e)))))
        (omega (
          arith,
          share-counts m row.parent node row refl apart,
          share-counts m row.parent node (resized_row size mtime row) refl apart,
          resized_counts m size mtime row live file h k filled,
        ))
    where
      apart : node ≢ row.parent
      apart e = Chain-aside c (sym e)

  resized_Balanced : Returns (Balanced m) (
      update_node ix node (resized_row size mtime) >>= λ ix'.
      if is_zero_ℤ (size_delta size row.size)
      then some ix'
      else propagate ix' node (resize_delta size row.size))
  resized_Balanced = rw (update_node-at ix node (resized_row size mtime) row at) (
      Returns-if (is_zero_ℤ (size_delta size row.size)) _ _
        (λ e.
          let (p, q) = zero_part m size row.size e in
          returns _ (Off-Balanced row.parent _ (p ∙ sym q) resized-Off))
        λ _.
          Returns-weaken _
            (λ ix' s.
              subst (Balanced m) (put-get ix' node (resized_row size mtime row) s.same) s.balanced)
            (propagate-Settled m (limit m) node (resized_row size mtime row) n
              (resize_delta size row.size) _ (resized_row size mtime row) new_at
              (rw (length-put ix node (resized_row size mtime row)) small) (Chain-put_aside _ c)
              enough
              (subst (λ (J : Index). Off m J row.parent (part m (resize_delta size row.size)))
                (sym (put-get _ node (resized_row size mtime row) new_at)) resized-Off)
              (resize_fits m size row.size h k)))
    where
      new_at :
          node_at (put_node ix node (resized_row size mtime row)) node
          ≡ some (resized_row size mtime row)
      new_at = node_at-put_self ix node row (resized_row size mtime row) at

-- In an index of fewer than 2^32 nodes whose totals are exact, resizing a live file of less than
-- 2^63 bytes to a size below 2^63, where kept directories whose totals are at most `limit` lead
-- from its parent, without meeting it, to a root within the 513 rounds of the loop, returns that
-- the file was resized, and the bytes and the files of every directory are exact again; so are the
-- allocated bytes if the file's allocation was its size.
pub apply_resize-Exact :
    (m : Measure) (ix : Index) (volume rec sequence size mtime node n : ℕ) (row : Node)
    → Holds ix volume rec sequence node row
    → is_dir row ≡ false
    → size ≤ 2 ^ 63 - 1
    → row.size ≤ 2 ^ 63 - 1
    → IsFilled m row
    → length ix.nodes ≤ no_node
    → Chain m (limit m) node ix n row.parent
    → n ≤ 513
    → Balanced m ix
    → Returns (Exact m (Applied.resized node)) (apply_resize ix volume rec sequence size mtime)
unfolding apply_resize
apply_resize-Exact m ix volume rec sequence size mtime node n row held file h k filled small c
      enough bal =
    let (kept, counted) = neither (is_deleted row) (is_excluded row) held.live in
    rw (resolve_record-Holds volume rec sequence held, held.at, apply_resize)
      (Returns-if (is_deleted row || is_dir row) _ _
        (λ e. absurd (not_both _ e (either_false _ _ kept file)))
        λ _.
          Returns-if (is_excluded row) _ _ (λ e. absurd (not_both _ e counted))
            λ _.
              Returns-bind _ _
                (resized_Balanced m ix node size mtime n row held.at file held.live h k filled bal
                  small c enough)
                λ ix' b. returns _ (record { outcome = refl; balanced = b }))
