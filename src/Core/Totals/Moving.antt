-- ===== src/Core/Totals/Moving.antt =====
-- Moving a node to another directory: its weight leaves one chain of ancestors and joins another.
use batuta.Base.{ℕ, zero, suc, ◌≤◌, ◌≡◌, refl, sym, ap, subst, ◌∙◌, arith}
use batuta.Base.{Bool, true, false, Option, none, some, inl, inr, length}
use batuta.Base.{Bool-cases, ◌==◌, if◌then◌else◌}
use batuta.Base.Fallible.{Returns, returns, ◌>>=◌}
use batuta.Base.Int.{ℤ, pos, negsuc, pos_part, saturating_add_signed}
use batuta.Core.Index.{
  Index, Node, Delta, no_node, node_at, put_node, add_delta, propagate_loop, propagate,
}
use batuta.Core.Totals.{Measure, own, part, is_kept_dir, Chain, at_root, below_root}
use batuta.Core.Totals.Sums.{some_injective, node_at-put_self, node_at-put_ne}
use batuta.Core.Totals.Chains.{length-put}

lowered : (z : ℤ) (a t : ℕ) → pos_part z ≡ 0 → saturating_add_signed t a z ≤ a
unfolding saturating_add_signed
lowered (pos n) a t e = ground arith
lowered (negsuc n) a t e = omega arith

own-add_le :
    (m : Measure) (d : Delta) (row : Node)
    → pos_part (part m d) ≡ 0
    → own m (add_delta d row) ≤ own m row
unfolding add_delta
own-add_le Measure.bytes d row h = lowered d.size row.size _ h
own-add_le Measure.allocated d row h = lowered d.alloc row.alloc _ h
own-add_le Measure.files d row h = lowered _ row.subtree_files _ h

-- The row at the start of a chain, after a delta that takes away.
lowered_row :
    (m : Measure) (b : ℕ) (ix : Index) (j cur : ℕ) (d : Delta) (r row : Node)
    → pos_part (part m d) ≡ 0
    → node_at ix j ≡ some r
    → node_at ix cur ≡ some row
    → is_kept_dir row ≡ true
    → own m row ≤ b
    → (row' : Node) × (node_at (put_node ix j (add_delta d r)) cur ≡ some row')
      × (is_kept_dir row' ≡ true)
      × (own m row' ≤ b)
      × (row'.parent ≡ row.parent)
unfolding add_delta
lowered_row m b ix j cur d r row neg at e k l = elim (Bool-cases (j == cur)) [
  | inl same ↦
      let here : j ≡ cur = ground arith in
      let eq : r ≡ row = some_injective _ _ (sym at ∙ ap (node_at ix) here ∙ e) in
      (
        add_delta d r,
        ap (node_at (put_node ix j (add_delta d r))) (sym here)
            ∙ node_at-put_self ix j r (add_delta d r) at,
        ap is_kept_dir eq ∙ k,
        omega (arith, own-add_le m d r neg, ap (own m) eq, l),
        ap (λ (x : Node). x.parent) eq,
      )
  | inr other ↦ (row, node_at-put_ne ix j cur (add_delta d r) (ground arith) ∙ e, k, l, refl)
]

Chain-lowered :
    {m : Measure} {b g : ℕ} {ix : Index} (j : ℕ) (d : Delta) (r : Node) {n cur : ℕ}
    → pos_part (part m d) ≡ 0
    → node_at ix j ≡ some r
    → Chain m b g ix n cur
    → Chain m b g (put_node ix j (add_delta d r)) n cur
Chain-lowered {m} {b} {g} {ix} j d r neg at (at_root cur row e k l a p) =
    let (row', e', k', l', q) = lowered_row m b ix j cur d r row neg at e k l in
    at_root cur row' e' k' l' a (q ∙ p)
Chain-lowered {m} {b} {g} {ix} j d r neg at (below_root n cur row e k l a p c) =
    let (row', e', k', l', q) = lowered_row m b ix j cur d r row neg at e k l in
    below_root n cur row' e' k' l' a (λ h. p (sym q ∙ h))
      (subst (λ (x : ℕ). Chain m b g (put_node ix j (add_delta d r)) n x) (sym q)
        (Chain-lowered j d r neg at c))

-- A chain that is still there, in a table of the same length.
pub record Still (m : Measure) (b g rows n cur : ℕ) (ix : Index) : Type 0 where
  pub chain : Chain m b g ix n cur
  pub count : length ix.nodes ≡ rows

-- A result that `P` holds of, or no result.
pub data Partly {ℓ} {A : Type ℓ} (P : A → Type 0) : Option A → Type ℓ where
  gave : (a : A) → P a → Partly P (some a)
  gone : Partly P none

Partly-if {ℓ} :
    {A : Type ℓ} {P : A → Type 0} (b : Bool) (m n : Option A)
    → Partly P m
    → Partly P n
    → Partly P (if b then m else n)
Partly-if true m n p q = p
Partly-if false m n p q = q

Partly-bind {ℓ} :
    {A B : Type ℓ} {Q : B → Type 0} (m : Option A) (f : A → Option B)
    → ((a : A) → m ≡ some a → Partly Q (f a))
    → Partly Q (m >>= f)
Partly-bind (some a) f k = k a refl
Partly-bind none f k = gone

Partly-weaken {ℓ} :
    {A : Type ℓ} {P Q : A → Type 0} (m : Option A) → ((a : A) → P a → Q a) → Partly P m → Partly Q m
Partly-weaken (some a) k (gave _ h) = gave a (k a h)
Partly-weaken none k h = gone

pub Returns-Partly {ℓ} :
    {A : Type ℓ} {P Q : A → Type 0} (m : Option A)
    → Returns P m
    → Partly Q m
    → Returns (λ a. P a × Q a) m
Returns-Partly (some a) (returns _ p) (gave _ q) = returns a (p, q)
Returns-Partly none p q = elim p [ ]

-- A loop that takes away leaves any chain in place.
propagate_loop-Still :
    (m : Measure) (b g n to left cur : ℕ) (d : Delta) (ix : Index)
    → pos_part (part m d) ≡ 0
    → Chain m b g ix n to
    → Partly (Still m b g (length ix.nodes) n to) (propagate_loop left cur d ix)
unfolding propagate_loop
propagate_loop-Still m b g n to zero cur d ix neg c = gave ix (record { chain = c; count = refl })
propagate_loop-Still m b g n to (suc left) cur d ix neg c =
    Partly-if (cur == no_node) _ _ (gave ix (record { chain = c; count = refl })) (
      Partly-bind (node_at ix cur) _ λ row e.
        let c' = Chain-lowered cur d row neg e c in
        Partly-if (row.parent == cur) _ _
          (gave _ (record { chain = c'; count = length-put ix cur (add_delta d row) }))
          (Partly-weaken _
            (λ ix' s. record {
              chain = s.chain;
              count = s.count ∙ length-put ix cur (add_delta d row);
            })
            (propagate_loop-Still m b g n to left row.parent d _ neg c')))

pub propagate-Still :
    (m : Measure) (b g n to node : ℕ) (d : Delta) (ix : Index)
    → pos_part (part m d) ≡ 0
    → Chain m b g ix n to
    → Partly (Still m b g (length ix.nodes) n to) (propagate ix node d)
unfolding propagate
propagate-Still m b g n to node d ix neg c =
    Partly-bind (node_at ix node) _
      λ row e. propagate_loop-Still m b g n to 513 row.parent d ix neg c
