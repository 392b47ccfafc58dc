-- ===== src/Core/Totals/Creating.antt =====
-- A create keeps every directory's totals exact.
use batuta.Base.{ℕ, zero, suc, ◌+◌, ◌<◌, ◌≡◌, ◌≢◌, refl, sym, ap, ◌∙◌, arith}
use batuta.Base.{
  Bool, true, false, ◌&&◌, some, List, [], ◌∷◌, ◌++◌, ◌⊎◌, inl, inr, length, get_elem?, lt_of_get,
}
use batuta.Base.{Option-cases, if◌then◌else◌, get_elem?-append_left, get_elem?-append_length}
use batuta.Base.Int.{ℤ, pos_part, neg_part}
use batuta.Core.Index.{Index, Node, no_node, node_at, is_dir}
use batuta.Core.Index.{set_record}
use batuta.Core.Watch.{Creation, fresh_row}
use batuta.Core.Watch.Steps.{IsValid}
use batuta.Core.Totals.{
  Measure, own, is_gone, is_kept_dir, counts, share, sum_from, total, Balanced, Off,
}
use batuta.Core.Totals.Sums.{some_injective}
use batuta.Core.Totals.Propagation.{share-counts, share_zero, counts-kept}

pub sum_from-append :
    (m : Measure) (dir k : ℕ) (rows : List Node) (j : ℕ) (r : Node)
    → j ≡ k + length rows
    → sum_from m dir k (rows ++ (r ∷ [])) ≡ sum_from m dir k rows + share m dir j r
unfolding sum_from
sum_from-append m dir k [] j r e = let here : j ≡ k = omega arith in rw here (omega arith)
sum_from-append m dir k (x ∷ rows) j r e =
    omega (arith, sum_from-append m dir (k + 1) rows j r (omega arith))

-- A directory that no row names as its parent holds nothing.
pub sum_from-absent :
    (m : Measure) (dir k : ℕ) (rows : List Node)
    → ((i : ℕ) (row : Node) → get_elem? rows i ≡ some row → row.parent ≢ dir)
    → sum_from m dir k rows ≡ 0
unfolding sum_from
sum_from-absent m dir k [] h = refl
sum_from-absent m dir k (x ∷ rows) h = omega (
  arith,
  share_zero m dir k x (inl (h 0 x refl)),
  sum_from-absent m dir (k + 1) rows (λ i row e. h (suc i) row e),
)

pub set_record-nodes :
    (ix : Index) (volume rec node : ℕ) → (set_record ix volume rec node).nodes ≡ ix.nodes
unfolding set_record
set_record-nodes ix volume rec node = elim (Option-cases (get_elem? ix.rec_to_node volume)) [
  | inl e ↦ rw (e, set_record) refl
  | inr (table, e) ↦ rw (e, set_record) refl
]

-- What a new row counts for.
abbrev pub gain : Measure → Bool → ℕ → ℕ
gain m true size = 0
gain Measure.bytes false size = size
gain Measure.allocated false size = size
gain Measure.files false size = 1

-- A row with the flags and the totals of a new one.
pub live_row :
    (m : Measure) (b : Bool) (size : ℕ) (row : Node)
    → row.flags ≡ (if b then 1 else 0)
    → row.size ≡ (if b then 0 else size)
    → row.alloc ≡ (if b then 0 else size)
    → row.subtree_files ≡ 0
    → (is_gone row ≡ false) × (is_dir row ≡ b) × (counts m row ≡ gain m b size)
live_row Measure.bytes true size row f e u t = rw (f, e) (refl, refl, refl)
live_row Measure.bytes false size row f e u t = rw (f, e) (refl, refl, refl)
live_row Measure.allocated true size row f e u t = rw (f, u) (refl, refl, refl)
live_row Measure.allocated false size row f e u t = rw (f, u) (refl, refl, refl)
live_row Measure.files true size row f e u t = rw (f, t) (refl, refl, refl)
live_row Measure.files false size row f e u t = rw f (refl, refl, refl)

node_at-rows : (a b : Index) (i : ℕ) → a.nodes ≡ b.nodes → node_at a i ≡ node_at b i
unfolding node_at
node_at-rows a b i e = ap (λ (rows : List Node). get_elem? rows i) e

module _ (m : Measure) (c : Creation) (ix K : Index) (parent : ℕ) (above : Node)
    (valid : IsValid ix) (small : length ix.nodes < no_node)
    (rows : K.nodes ≡ ix.nodes ++ (fresh_row c ix parent above ∷ [])) (p : parent < length ix.nodes)
    (bal : Balanced m ix) where
  new_row : Node
  new_row = fresh_row c ix parent above

  fresh_live :
      (is_gone (fresh_row c ix parent above) ≡ false)
      × (is_dir (fresh_row c ix parent above) ≡ c.is_dir)
      × (counts m (fresh_row c ix parent above) ≡ gain m c.is_dir c.size)
  fresh_live = live_row m c.is_dir c.size (fresh_row c ix parent above) refl refl refl refl

  pub fresh_at : node_at K (length ix.nodes) ≡ some (fresh_row c ix parent above)
  unfolding node_at
  fresh_at = rw rows (get_elem?-append_length ix.nodes (fresh_row c ix parent above) [])

  pub old_at : (i : ℕ) (r : Node) → node_at ix i ≡ some r → node_at K i ≡ some r
  unfolding node_at
  old_at i r e = rw rows (get_elem?-append_left ix.nodes _ i (lt_of_get ix.nodes i r e) ∙ e)

  row_cases :
      (i : ℕ) (r : Node)
      → node_at K i ≡ some r
      → ((i ≡ length ix.nodes) × (r ≡ fresh_row c ix parent above)) ⊎ (node_at ix i ≡ some r)
  unfolding node_at
  row_cases i r e = last_or_old ix.nodes i (ap (λ (rs : List Node). get_elem? rs i) (sym rows) ∙ e)
    where
      last_or_old :
          (xs : List Node) (j : ℕ)
          → get_elem? (xs ++ (fresh_row c ix parent above ∷ [])) j ≡ some r
          → ((j ≡ length xs) × (r ≡ fresh_row c ix parent above)) ⊎ (get_elem? xs j ≡ some r)
      last_or_old [] zero h = inl (refl, some_injective _ _ (sym h))
      last_or_old [] (suc j) h = cc
      last_or_old (x ∷ xs) zero h = inr h
      last_or_old (x ∷ xs) (suc j) h = elim (last_or_old xs j h) [
        | inl (q, s) ↦ inl (ap suc q, s)
        | inr o ↦ inr o
      ]

  total_grown :
      (i : ℕ)
      → total m K i ≡ total m ix i + share m i (length ix.nodes) (fresh_row c ix parent above)
  total_grown i =
      ap (sum_from m i 0) rows
      ∙ sum_from-append m i 0 ix.nodes (length ix.nodes) (fresh_row c ix parent above) (omega arith)

  total_new : total m ix (length ix.nodes) ≡ 0
  total_new = sum_from-absent m (length ix.nodes) 0 ix.nodes λ i row e q.
      elim (valid.parents i row e) [
        | inl lt ↦ absurd (omega (arith, lt, q))
        | inr none_there ↦ absurd (omega (arith, none_there, q, small))
      ]

  -- A new directory holds nothing yet.
  new_exact :
      is_kept_dir (fresh_row c ix parent above) ≡ true
      → own m (fresh_row c ix parent above) ≡ total m K (length ix.nodes)
  new_exact k =
      let empty : own m (fresh_row c ix parent above) ≡ 0 =
        sym (counts-kept m (fresh_row c ix parent above) k)
        ∙ fresh_live.2
        ∙ nothing c.is_dir (both_sides _ _ (sym fresh_live.1) k) in
      omega (
        arith,
        empty,
        total_grown (length ix.nodes),
        total_new,
        share_zero m (length ix.nodes) (length ix.nodes) (fresh_row c ix parent above) (inr refl),
      )
    where
      nothing : (b : Bool) → b ≡ true → gain m b c.size ≡ 0
      nothing true e = refl
      nothing false e = cc

      both_sides : (a b : Bool) → c.is_dir ≡ a → (a && b) ≡ true → c.is_dir ≡ true
      both_sides true b e h = e
      both_sides false b e h = cc

  pub grown-Off : (z : ℤ) → pos_part z ≡ gain m c.is_dir c.size + neg_part z → Off m K parent z
  grown-Off z h = record {
    others = λ i r e k ne. elim (row_cases i r e) [
      | inl (q, s) ↦ sym_own i r q s k
      | inr old ↦ omega (
        arith,
        bal.exact i r old k,
        total_grown i,
        share_zero m i (length ix.nodes) (fresh_row c ix parent above) (inl (λ e'. ne (sym e'))),
      )
    ];
    lacks = λ r e k. elim (row_cases parent r e) [
      | inl (q, s) ↦ absurd (omega (arith, q, p))
      | inr old ↦ omega (
        arith,
        bal.exact parent r old k,
        total_grown parent,
        h,
        fresh_live.2,
        share-counts m parent (length ix.nodes) (fresh_row c ix parent above) refl
            (λ q. absurd (omega (arith, q, p))),
      )
    ];
  }
    where
      sym_own :
          (i : ℕ) (r : Node)
          → i ≡ length ix.nodes
          → r ≡ fresh_row c ix parent above
          → is_kept_dir r ≡ true
          → own m r ≡ total m K i
      sym_own i r q s k =
          ap (own m) s ∙ new_exact (ap is_kept_dir (sym s) ∙ k) ∙ ap (total m K) (sym q)
