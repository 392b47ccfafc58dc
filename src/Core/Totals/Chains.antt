-- ===== src/Core/Totals/Chains.antt =====
-- Chains of kept directories, and the whole loop that walks one.
use batuta.Base.{ℕ, zero, suc, ◌+◌, ◌-◌, ◌≤◌, ◌<◌, ◌≡◌, ◌≢◌, refl, sym, ap, subst, ◌∙◌, arith}
use batuta.Base.{true, false, Option, some, ◌⊎◌, inl, inr}
use batuta.Base.{length, length-set, ◌==◌, lt_of_get}
use batuta.Base.Fallible.{Returns, returns, Returns-bind, Returns-if, Returns-weaken, Returns-some}
use batuta.Base.Int.{pos_part}
use batuta.Core.Index.{
  Index, Node, Delta, no_node, node_at, put_node, add_delta, propagate_loop, propagate,
}
use batuta.Core.Totals.{
  Measure, own, part, top, is_kept_dir, Balanced, Off, Chain, at_root, below_root,
}
use batuta.Core.Totals.Sums.{some_injective, node_at-put_ne, put-put}
use batuta.Core.Totals.Propagation.{settled_at_root, settled_below}

pub Chain-length :
    {m : Measure} {b g : ℕ} {ix : Index} {n p cur : ℕ}
    → Chain m b g ix n cur
    → Chain m b g ix p cur
    → n ≡ p
Chain-length (at_root cur row e k l a r) (at_root _ row' e' k' l' a' r') = refl
Chain-length (at_root cur row e k l a r) (below_root p _ row' e' k' l' a' r' c') =
    let same : row ≡ row' = some_injective _ _ (sym e ∙ e') in
    absurd (r' (ap (λ (x : Node). x.parent) (sym same) ∙ r))
Chain-length (below_root n cur row e k l a r c) (at_root _ row' e' k' l' a' r') =
    let same : row' ≡ row = some_injective _ _ (sym e' ∙ e) in
    absurd (r (ap (λ (x : Node). x.parent) (sym same) ∙ r'))
Chain-length {m} {b} {g} {ix = ix} (below_root n cur row e k l a r c)
      (below_root p _ row' e' k' l' a' r' c') =
    let same : row' ≡ row = some_injective _ _ (sym e' ∙ e) in
    ap (λ (x : ℕ). x + 1) (Chain-length c (subst (λ (x : Node). Chain m b g ix p x.parent) same c'))

apart :
    {m : Measure} {b g n p : ℕ} {ix : Index} (j cur : ℕ)
    → Chain m b g ix p j
    → n < p
    → Chain m b g ix n cur
    → j ≢ cur
apart {m} {b} {g} {n} {p} {ix} j cur far lt c e =
    absurd (omega (arith, lt, Chain-length c (subst (λ (x : ℕ). Chain m b g ix p x) e far)))

-- A write to a row that the chain does not meet.
Chain-put :
    {m : Measure} {b g : ℕ} {ix : Index} (j : ℕ) (row : Node) {p : ℕ}
    → Chain m b g ix p j
    → {n cur : ℕ} → n < p
    → Chain m b g ix n cur
    → Chain m b g (put_node ix j row) n cur
Chain-put {m} {b} {g} {ix = ix} j new far lt (at_root cur row e k l a r) =
    at_root cur row
      (node_at-put_ne ix j cur new (apart j cur far lt (at_root cur row e k l a r)) ∙ e) k l a r
Chain-put j new far lt (below_root n cur row e k l a r c) =
    below_root n cur row
      (node_at-put_ne _ j cur new (apart j cur far lt (below_root n cur row e k l a r c)) ∙ e) k l a
      r (Chain-put j new far (omega arith) c)

-- What a delta leaves behind: balanced totals once the row `g` is written over by `ghost`, and
-- that row as it was.
pub record Settled (m : Measure) (g : ℕ) (ghost : Node) (o : Option Node) (ix : Index)
    : Type 0 where
  pub balanced : Balanced m (put_node ix g ghost)
  pub same : node_at ix g ≡ o

-- The row at the start of a chain, and the chain above it.
record Link (m : Measure) (b g : ℕ) (ix : Index) (n cur : ℕ) (row : Node) : Type 0 where
  kept : is_kept_dir row ≡ true
  fits : own m row ≤ b
  aside : cur ≢ g
  positive : 1 ≤ n
  above : (row.parent ≡ cur) ⊎ ((row.parent ≢ cur) × Chain m b g ix (n - 1) row.parent)

link :
    {m : Measure} {b g : ℕ} {ix : Index} {n cur : ℕ} (row : Node)
    → Chain m b g ix n cur
    → node_at ix cur ≡ some row
    → Link m b g ix n cur row
link {m} {b} {g} {ix} row (at_root cur r e k l a p) at =
    let same : r ≡ row = some_injective _ _ (sym e ∙ at) in
    subst (Link m b g ix 1 cur) same
      (record { kept = k; fits = l; aside = a; positive = omega arith; above = inl p })
link {m} {b} {g} {ix} row (below_root n cur r e k l a p c) at =
    let same : r ≡ row = some_injective _ _ (sym e ∙ at) in
    subst (Link m b g ix (n + 1) cur) same (record {
      kept = k;
      fits = l;
      aside = a;
      positive = omega arith;
      above = inr (p, subst (λ (q : ℕ). Chain m b g ix q r.parent) (omega arith) c);
    })

pub Chain-at :
    {m : Measure} {b g : ℕ} {ix : Index} {n cur : ℕ}
    → Chain m b g ix n cur
    → Returns (λ row. node_at ix cur ≡ some row) (node_at ix cur)
Chain-at (at_root cur r e k l a p) = rw e (returns r refl)
Chain-at (below_root n cur r e k l a p c) = rw e (returns r refl)

Chain-real :
    (ix : Index) (cur : ℕ) (row : Node)
    → node_at ix cur ≡ some row
    → length ix.nodes ≤ no_node
    → (cur == no_node) ≡ false
unfolding node_at
Chain-real ix cur row e h =
    let inside : cur < length ix.nodes = lt_of_get ix.nodes cur row e in ground arith

pub length-put :
    (ix : Index) (i : ℕ) (row : Node) → length (put_node ix i row).nodes ≡ length ix.nodes
unfolding put_node
length-put ix i row = length-set ix.nodes i row

module _ (m : Measure) (b g : ℕ) (ghost : Node) where
  pub propagate_loop-Settled :
      (left n cur : ℕ) (d : Delta) (ix : Index)
      → length ix.nodes ≤ no_node
      → Chain m b g ix n cur
      → Off m (put_node ix g ghost) cur (part m d)
      → n ≤ left
      → b + pos_part (part m d) ≤ top m
      → Returns (Settled m g ghost (node_at ix g)) (propagate_loop left cur d ix)
  unfolding propagate_loop
  propagate_loop-Settled zero n cur d ix small c off enough fits =
      let (row, e, at) = Returns-some _ (Chain-at c) in
      absurd (omega (arith, enough, (link row c at).positive))
  propagate_loop-Settled (suc left) n cur d ix small c off enough fits =
      Returns-if (cur == no_node) _ _ (λ gone. absurd (not_off_the_table gone))
        λ _. Returns-bind (node_at ix cur) _ (Chain-at c) λ row e.
          let l = link row c e in
          let at : node_at (put_node ix g ghost) cur ≡ some row =
            node_at-put_ne ix g cur ghost (λ h. l.aside (sym h)) ∙ e in
          let swap : put_node (put_node ix g ghost) cur (add_delta d row)
              ≡ put_node (put_node ix cur (add_delta d row)) g ghost =
            put-put ix g cur ghost (add_delta d row) (λ h. l.aside (sym h)) in
          let frame : node_at (put_node ix cur (add_delta d row)) g ≡ node_at ix g =
            node_at-put_ne ix cur g (add_delta d row) l.aside in
          let room : own m row + pos_part (part m d) ≤ top m = omega (arith, l.fits, fits) in
          Returns-if (row.parent == cur) _ _
            (λ p. returns _ (record {
              balanced = subst (Balanced m) swap (
                  settled_at_root m (put_node ix g ghost) cur row d at l.kept off room
                    (ground arith));
              same = frame;
            }))
            λ p. elim l.above [
              | inl q ↦ absurd (ground arith)
              | inr (q, c') ↦
                  Returns-weaken _
                    (λ ix' s. record { balanced = s.balanced; same = s.same ∙ frame })
                    (propagate_loop-Settled left (n - 1) row.parent d _
                      (rw (count_same cur row d) small)
                      (Chain-put cur (add_delta d row) c (omega (arith, l.positive)) c')
                      (subst (λ (J : Index). Off m J row.parent (part m d)) swap
                        (settled_below m (put_node ix g ghost) cur row d at l.kept off room q))
                      (omega (arith, enough, l.positive)) fits)
            ]
    where
      not_off_the_table : (cur == no_node) ≡ true → ⊥
      not_off_the_table h =
          let (row, e, at) = Returns-some _ (Chain-at c) in cc (h, Chain-real ix cur row at small)

      count_same :
          (i : ℕ) (row : Node) (d : Delta)
          → length (put_node ix i (add_delta d row)).nodes ≡ length ix.nodes
      count_same i row d = length-put ix i (add_delta d row)

  pub propagate-Settled :
      (n : ℕ) (d : Delta) (ix : Index) (row : Node)
      → node_at ix g ≡ some row
      → length ix.nodes ≤ no_node
      → Chain m b g ix n row.parent
      → n ≤ 513
      → Off m (put_node ix g ghost) row.parent (part m d)
      → b + pos_part (part m d) ≤ top m
      → Returns (Settled m g ghost (some row)) (propagate ix g d)
  unfolding propagate
  propagate-Settled n d ix row at small c enough off fits =
      rw (at, propagate)
        (subst
          (λ (o : Option Node). Returns (Settled m g ghost o) (propagate_loop 513 row.parent d ix))
          at (propagate_loop-Settled 513 n row.parent d ix small c off enough fits))

pub Chain-aside : {m : Measure} {b g : ℕ} {ix : Index} {n cur : ℕ} → Chain m b g ix n cur → cur ≢ g
Chain-aside (at_root cur row e k l a p) = a
Chain-aside (below_root n cur row e k l a p c) = a

-- A write to the row that the chain avoids.
pub Chain-put_aside :
    {m : Measure} {b g : ℕ} {ix : Index} (new : Node) {n cur : ℕ}
    → Chain m b g ix n cur
    → Chain m b g (put_node ix g new) n cur
Chain-put_aside new (at_root cur row e k l a p) =
    at_root cur row (node_at-put_ne _ _ cur new (λ h. a (sym h)) ∙ e) k l a p
Chain-put_aside new (below_root n cur row e k l a p c) =
    below_root n cur row (node_at-put_ne _ _ cur new (λ h. a (sym h)) ∙ e) k l a p
      (Chain-put_aside new c)
