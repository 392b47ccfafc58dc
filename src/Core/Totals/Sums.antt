-- ===== src/Core/Totals/Sums.antt =====
-- One write to a row, and what it does to the totals.
use batuta.Base.{ℕ, zero, suc, ◌+◌, ◌≤◌, ◌≡◌, ◌≢◌, refl, sym, ap, arith}
use batuta.Base.{some, List, [], ◌∷◌}
use batuta.Base.{get_elem?, set, get_elem?-set_self, get_elem?-set_ne, lt_of_get}
use batuta.Base.Int.{ℤ, pos, negsuc, pos_part, neg_part, saturating_add_signed}
use batuta.Core.Index.{Index, Node, Delta, node_at, put_node, add_delta}
use batuta.Core.Totals.{Measure, own, part, top, share, sum_from, total}

pub sum_from-set :
    (m : Measure) (dir k i j : ℕ) (rows : List Node) (row row' : Node)
    → j ≡ k + i
    → get_elem? rows i ≡ some row
    → sum_from m dir k (set rows i row') + share m dir j row
      ≡ sum_from m dir k rows + share m dir j row'
unfolding sum_from
sum_from-set m dir k i j [] row row' at e = cc
sum_from-set m dir k zero j (x ∷ rows) row row' at e =
    let same : row ≡ x = cc in let here : j ≡ k = omega arith in rw (same, here) (omega arith)
sum_from-set m dir k (suc i) j (x ∷ rows) row row' at e =
    omega (arith, sum_from-set m dir (k + 1) i j rows row row' (omega arith) e)

pub some_injective {ℓ} : {A : Type ℓ} (x y : A) → some x ≡ some y → x ≡ y
some_injective x y e = cc

pub node_at-put_self :
    (ix : Index) (g : ℕ) (row row' : Node)
    → node_at ix g ≡ some row
    → node_at (put_node ix g row') g ≡ some row'
unfolding node_at put_node
node_at-put_self ix g row row' e = get_elem?-set_self ix.nodes g row' (lt_of_get ix.nodes g row e)

pub node_at-put_ne :
    (ix : Index) (g i : ℕ) (row' : Node) → g ≢ i → node_at (put_node ix g row') i ≡ node_at ix i
unfolding node_at put_node
node_at-put_ne ix g i row' h = get_elem?-set_ne ix.nodes g i row' h

set-set {ℓ} :
    {A : Type ℓ} (xs : List A) (i j : ℕ) (v w : A)
    → i ≢ j
    → set (set xs i v) j w ≡ set (set xs j w) i v
set-set [] i j v w h = refl
set-set (x ∷ xs) zero zero v w h = absurd (h refl)
set-set (x ∷ xs) zero (suc j) v w h = refl
set-set (x ∷ xs) (suc i) zero v w h = refl
set-set (x ∷ xs) (suc i) (suc j) v w h = ap (◌∷◌ x) (set-set xs i j v w (λ e. h (ap suc e)))

set-get {ℓ} : {A : Type ℓ} (xs : List A) (i : ℕ) (v : A) → get_elem? xs i ≡ some v → set xs i v ≡ xs
set-get [] i v e = refl
set-get (x ∷ xs) zero v e = ap (λ y. y ∷ xs) (some_injective v x (sym e))
set-get (x ∷ xs) (suc i) v e = ap (◌∷◌ x) (set-get xs i v e)

pub put-put :
    (ix : Index) (i j : ℕ) (v w : Node)
    → i ≢ j
    → put_node (put_node ix i v) j w ≡ put_node (put_node ix j w) i v
unfolding put_node
put-put ix i j v w h =
    ap (λ (rows : List Node). record ix { nodes = rows }) (set-set ix.nodes i j v w h)

pub put-get : (ix : Index) (i : ℕ) (v : Node) → node_at ix i ≡ some v → put_node ix i v ≡ ix
unfolding put_node node_at
put-get ix i v e = ap (λ (rows : List Node). record ix { nodes = rows }) (set-get ix.nodes i v e)

pub total-put :
    (m : Measure) (dir i : ℕ) (ix : Index) (row row' : Node)
    → node_at ix i ≡ some row
    → total m (put_node ix i row') dir + share m dir i row ≡ total m ix dir + share m dir i row'
unfolding put_node node_at
total-put m dir i ix row row' e = sum_from-set m dir 0 i i ix.nodes row row' (omega arith) e

added_exactly :
    (z : ℤ) (a t bound : ℕ)
    → a + pos_part z ≡ t + neg_part z
    → a + pos_part z ≤ bound
    → saturating_add_signed bound a z ≡ t
unfolding saturating_add_signed
added_exactly (pos n) a t bound e h = ground arith
added_exactly (negsuc n) a t bound e h = omega arith

-- A delta added to a kept directory, within the bounds.
pub own-add_delta :
    (m : Measure) (d : Delta) (row : Node) (t : ℕ)
    → own m row + pos_part (part m d) ≡ t + neg_part (part m d)
    → own m row + pos_part (part m d) ≤ top m
    → own m (add_delta d row) ≡ t
unfolding add_delta
own-add_delta Measure.bytes d row t e h = added_exactly d.size row.size t _ e h
own-add_delta Measure.allocated d row t e h = added_exactly d.alloc row.alloc t _ e h
own-add_delta Measure.files d row t e h = added_exactly _ row.subtree_files t _ e h
