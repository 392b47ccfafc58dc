-- ===== src/Core/Totals/Propagation.antt =====
-- Propagating a delta up a chain of kept directories settles what the first of them lacks.
use batuta.Base.{ℕ, ◌+◌, ◌≤◌, ◌≡◌, ◌≢◌, refl, sym, ap, ◌∙◌, arith}
use batuta.Base.{Bool, true, false, not, ◌&&◌, some, ◌⊎◌, inl, inr}
use batuta.Base.{Bool-cases, ◌==◌, if◌then◌else◌}
use batuta.Base.Int.{pos_part, neg_part}
use batuta.Core.Index.{Index, Node, Delta, node_at, put_node, add_delta, is_dir}
use batuta.Core.Totals.{
  Measure, own, leaf, part, top, is_gone, is_kept_dir, counts, share, total, Balanced, Off,
}
use batuta.Core.Totals.Sums.{
  some_injective, node_at-put_self, node_at-put_ne, total-put, own-add_delta,
}

kept_count :
    (a b : Bool) (x y : ℕ) → (a && not b) ≡ true → (if b then 0 else if a then x else y) ≡ x
kept_count true false x y h = refl
kept_count true true x y h = cc
kept_count false b x y h = cc

pub counts-kept : (m : Measure) (row : Node) → is_kept_dir row ≡ true → counts m row ≡ own m row
counts-kept m row h = kept_count (is_dir row) (is_gone row) (own m row) (leaf m row) h

pub share-counts :
    (m : Measure) (dir i : ℕ) (row : Node)
    → row.parent ≡ dir
    → i ≢ dir
    → share m dir i row ≡ counts m row
share-counts m dir i row p h = chosen (row.parent == dir) (i == dir) (ground arith) (ground arith)
  where
    chosen :
        (a b : Bool)
        → a ≡ true
        → b ≡ false
        → (if a && not b then counts m row else 0) ≡ counts m row
    chosen true false e f = refl
    chosen true true e f = cc
    chosen false b e f = cc

pub share_zero :
    (m : Measure) (dir i : ℕ) (row : Node) → (row.parent ≢ dir) ⊎ (i ≡ dir) → share m dir i row ≡ 0
share_zero m dir i row (inl h) = left_out (row.parent == dir) (i == dir) (ground arith)
  where
    left_out : (a b : Bool) → a ≡ false → (if a && not b then counts m row else 0) ≡ 0
    left_out false b e = refl
    left_out true b e = cc
share_zero m dir i row (inr h) = left_out (row.parent == dir) (i == dir) (ground arith)
  where
    left_out : (a b : Bool) → b ≡ true → (if a && not b then counts m row else 0) ≡ 0
    left_out true true e = refl
    left_out false true e = refl
    left_out a false e = cc

module _ (m : Measure) (ix : Index) (cur : ℕ) (row : Node) (d : Delta)
    (at : node_at ix cur ≡ some row) (kept : is_kept_dir row ≡ true) (off : Off m ix cur (part m d))
    (fits : own m row + pos_part (part m d) ≤ top m) where
  added_up : Node
  added_up = add_delta d row

  added_index : Index
  added_index = put_node ix cur (add_delta d row)

  own_added : own m (add_delta d row) ≡ total m ix cur
  own_added = own-add_delta m d row (total m ix cur) (off.lacks row at kept) fits

  kept_added : is_kept_dir (add_delta d row) ≡ true
  unfolding add_delta
  kept_added = kept

  parent_added : (add_delta d row).parent ≡ row.parent
  unfolding add_delta
  parent_added = refl

  total_elsewhere :
      (i : ℕ)
      → (row.parent ≢ i) ⊎ (cur ≡ i)
      → total m (put_node ix cur (add_delta d row)) i ≡ total m ix i
  total_elsewhere i h = omega (
    arith,
    total-put m i cur ix row (add_delta d row) at,
    share_zero m i cur row h,
    share_zero m i cur (add_delta d row) (rw parent_added h),
  )

  total_above :
      cur ≢ row.parent
      → total m (put_node ix cur (add_delta d row)) row.parent + neg_part (part m d)
        ≡ total m ix row.parent + pos_part (part m d)
  total_above h = omega (
    arith,
    total-put m row.parent cur ix row (add_delta d row) at,
    share-counts m row.parent cur row refl h,
    counts-kept m row kept,
    share-counts m row.parent cur (add_delta d row) parent_added h,
    counts-kept m (add_delta d row) kept_added,
    own_added,
    off.lacks row at kept,
  )

  -- A row of the index after the addition.
  settled_row :
      (i : ℕ) (r : Node)
      → node_at (put_node ix cur (add_delta d row)) i ≡ some r
      → is_kept_dir r ≡ true
      → (row.parent ≢ i) ⊎ (cur ≡ i)
      → own m r ≡ total m (put_node ix cur (add_delta d row)) i
  settled_row i r e k h = elim (Bool-cases (cur == i)) [
    | inl same ↦
        let here : cur ≡ i = ground arith in
        let new : add_delta d row ≡ r = some_injective _ _ (
          sym (node_at-put_self ix cur row (add_delta d row) at)
          ∙ ap (node_at (put_node ix cur (add_delta d row))) here
          ∙ e) in
        ap (own m) (sym new) ∙ own_added ∙ ap (total m ix) here ∙ sym (total_elsewhere i h)
    | inr other ↦
        let apart : cur ≢ i = ground arith in
        off.others i r (sym (node_at-put_ne ix cur i (add_delta d row) apart) ∙ e) k (ground arith)
        ∙ sym (total_elsewhere i h)
  ]

  pub settled_at_root : row.parent ≡ cur → Balanced m (put_node ix cur (add_delta d row))
  settled_at_root p = record { exact = λ i r e k. settled_row i r e k (root_case i) }
    where
      root_case : (i : ℕ) → (row.parent ≢ i) ⊎ (cur ≡ i)
      root_case i = elim (Bool-cases (cur == i)) [
        | inl same ↦ inr (ground arith)
        | inr other ↦ inl (ground arith)
      ]

  pub settled_below :
      row.parent ≢ cur → Off m (put_node ix cur (add_delta d row)) row.parent (part m d)
  settled_below p = record {
    others = λ i r e k h. settled_row i r e k (inl (ground arith));
    lacks = λ r e k.
        let old : node_at ix row.parent ≡ some r =
          sym (node_at-put_ne ix cur row.parent (add_delta d row) (ground arith)) ∙ e in
        omega (arith, off.others row.parent r old k p, total_above (ground arith));
  }
