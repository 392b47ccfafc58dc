-- ===== src/Core/Watch/Steps.antt =====
-- The elementary steps by which an index changes, and what every run of them keeps.
use batuta.Base.{ℕ, zero, suc, ◌+◌, ◌≤◌, ◌<◌, ◌≡◌, sym, ap, subst, ◌∙◌, arith}
use batuta.Base.{some, List, [], ◌∷◌, ◌++◌, ◌⊎◌, inl, inr}
use batuta.Base.{length, get_elem?, set, length-append, length-set}
use batuta.Core.Index.{Index, Node, NameOverrides, no_node, node_at, put_node}

-- A reference to a node of a table of `count` rows, or none.
abbrev pub NodeFits : ℕ → ℕ → Type 0
NodeFits count p = (p < count) ⊎ (p ≡ no_node)

abbrev pub ParentsFit : ℕ → List Node → Type 0
ParentsFit count rows =
    (i : ℕ) (row : Node) → get_elem? rows i ≡ some row → NodeFits count row.parent

abbrev pub SlotsFit : ℕ → List ℕ → Type 0
SlotsFit count table = (r k : ℕ) → get_elem? table r ≡ some k → NodeFits count k

abbrev pub TablesFit : ℕ → List (List ℕ) → Type 0
TablesFit count tables =
    (v : ℕ) (table : List ℕ) → get_elem? tables v ≡ some table → SlotsFit count table

-- Every parent and every slot of a record table is a node of the index, or none.
pub record IsValid (ix : Index) : Type 0 where
  pub parents : ParentsFit (length ix.nodes) ix.nodes
  pub tables : TablesFit (length ix.nodes) ix.rec_to_node

-- The rows' names stand in the arena one behind the other, in node order, from `a` to `b`.
abbrev pub Tiles : ℕ → List Node → ℕ → Type 0
Tiles a [] b = a ≡ b
Tiles a (row ∷ rows) b = (row.name_off ≡ a) × Tiles (a + row.name_len) rows b

pub data Step : Index → Index → Type 0 where
  touch :
      (ix : Index) (i : ℕ) (row row' : Node)
      → node_at ix i ≡ some row
      → row'.name_off ≡ row.name_off
      → row'.name_len ≡ row.name_len
      → (row'.parent ≡ row.parent) ⊎ (row'.parent < length ix.nodes)
      → Step ix (put_node ix i row')
  create :
      (ix : Index) (row : Node) (kept : List ℕ)
      → row.name_off ≡ length ix.names
      → row.name_len ≡ length kept
      → row.parent < length ix.nodes
      → Step ix (record ix { nodes = ix.nodes ++ (row ∷ []); names = ix.names ++ kept })
  tables :
      (ix : Index) (rec_to_node : List (List ℕ))
      → TablesFit (length ix.nodes) rec_to_node
      → Step ix (record ix { rec_to_node = rec_to_node })
  aside :
      (ix : Index) (overrides : NameOverrides) (generation : ℕ)
      → Step ix (record ix { overrides = overrides; generation = generation })

pub data Reach (ix : Index) : Index → Type 0 where
  here : Reach ix ix
  then_step : {ix' ix'' : Index} → Reach ix ix' → Step ix' ix'' → Reach ix ix''

pub Reach-trans : {a b c : Index} → Reach a b → Reach b c → Reach a c
Reach-trans r here = r
Reach-trans r (then_step s st) = then_step (Reach-trans r s) st

pub NodeFits-le : (m n p : ℕ) → m ≤ n → NodeFits m p → NodeFits n p
NodeFits-le m n p h (inl lt) = inl (omega arith)
NodeFits-le m n p h (inr e) = inr e

-- A row of a table after a write is the written one or an old one.
pub get-set_cases {ℓ} :
    {A : Type ℓ} (xs : List A) (i j : ℕ) (v w : A)
    → get_elem? (set xs i v) j ≡ some w
    → (w ≡ v) ⊎ (get_elem? xs j ≡ some w)
get-set_cases [] i j v w h = inr h
get-set_cases (x ∷ xs) zero zero v w h = inl (cc)
get-set_cases (x ∷ xs) zero (suc j) v w h = inr h
get-set_cases (x ∷ xs) (suc i) zero v w h = inr h
get-set_cases (x ∷ xs) (suc i) (suc j) v w h = get-set_cases xs i j v w h

pub get-append_cases {ℓ} :
    {A : Type ℓ} (xs : List A) (j : ℕ) (v w : A)
    → get_elem? (xs ++ (v ∷ [])) j ≡ some w
    → (w ≡ v) ⊎ (get_elem? xs j ≡ some w)
get-append_cases [] zero v w h = inl (cc)
get-append_cases [] (suc j) v w h = cc
get-append_cases (x ∷ xs) zero v w h = inr h
get-append_cases (x ∷ xs) (suc j) v w h = get-append_cases xs j v w h

touched_parent :
    (count : ℕ) (row row' : Node)
    → (row'.parent ≡ row.parent) ⊎ (row'.parent < count)
    → NodeFits count row.parent
    → NodeFits count row'.parent
touched_parent count row row' (inl e) h = rw e h
touched_parent count row row' (inr lt) h = inl lt

pub Step-IsValid : {a b : Index} → Step a b → IsValid a → IsValid b
unfolding put_node node_at
Step-IsValid (touch ix i row row' e o l p) v = record {
  parents = λ j w at. rw (length-set ix.nodes i row') (row_fits j w at);
  tables = rw (length-set ix.nodes i row') v.tables;
}
  where
    new_fits : NodeFits (length ix.nodes) row'.parent
    new_fits = touched_parent (length ix.nodes) row row' p (v.parents i row e)

    row_fits :
        (j : ℕ) (w : Node)
        → get_elem? (set ix.nodes i row') j ≡ some w
        → NodeFits (length ix.nodes) w.parent
    row_fits j w at = elim (get-set_cases ix.nodes i j row' w at) [
      | inl same ↦ rw same new_fits
      | inr old ↦ v.parents j w old
    ]
Step-IsValid (create ix row kept o l p) v = record {
  parents = λ j w at. elim (get-append_cases ix.nodes j row w at) [
    | inl same ↦ rw same (inl (omega (arith, more)))
    | inr old ↦ NodeFits-le _ _ w.parent (omega (arith, more)) (v.parents j w old)
  ];
  tables =
      λ t table at r k slot. NodeFits-le _ _ k (omega (arith, more)) (v.tables t table at r k slot);
}
  where
    more : length (ix.nodes ++ (row ∷ [])) ≡ length ix.nodes + 1
    more = length-append ix.nodes (row ∷ [])
Step-IsValid (tables ix t fits) v = record { parents = v.parents; tables = fits }
Step-IsValid (aside ix o g) v = record { parents = v.parents; tables = v.tables }

pub Reach-IsValid : {a b : Index} → Reach a b → IsValid a → IsValid b
Reach-IsValid here v = v
Reach-IsValid (then_step r st) v = Step-IsValid st (Reach-IsValid r v)

pub Tiles-set :
    (rows : List Node) (i a b : ℕ) (row row' : Node)
    → get_elem? rows i ≡ some row
    → row'.name_off ≡ row.name_off
    → row'.name_len ≡ row.name_len
    → Tiles a rows b
    → Tiles a (set rows i row') b
Tiles-set [] i a b row row' e o l t = t
Tiles-set (x ∷ rows) zero a b row row' e o l (at, t) =
    (o ∙ ap (λ (n : Node). n.name_off) same ∙ at, subst (λ (k : ℕ). Tiles (a + k) rows b) len t)
  where
    same : row ≡ x
    same = cc

    len : x.name_len ≡ row'.name_len
    len = cc (same, l)
Tiles-set (x ∷ rows) (suc i) a b row row' e o l (at, t) =
    (at, Tiles-set rows i (a + x.name_len) b row row' e o l t)

pub Tiles-append :
    (rows : List Node) (a b : ℕ) (row : Node)
    → Tiles a rows b
    → row.name_off ≡ b
    → Tiles a (rows ++ (row ∷ [])) (b + row.name_len)
Tiles-append [] a b row t o = (o ∙ sym t, omega (arith, t))
Tiles-append (x ∷ rows) a b row (at, t) o = (at, Tiles-append rows (a + x.name_len) b row t o)

-- The names of the rows tile the arena.
abbrev pub IsTiled : Index → Type 0
IsTiled ix = Tiles 0 ix.nodes (length ix.names)

pub Step-IsTiled : {a b : Index} → Step a b → IsTiled a → IsTiled b
unfolding put_node node_at
Step-IsTiled (touch ix i row row' e o l p) t = Tiles-set ix.nodes i 0 _ row row' e o l t
Step-IsTiled (create ix row kept o l p) t =
    subst (Tiles 0 (ix.nodes ++ (row ∷ []))) (omega (arith, l, length-append ix.names kept))
      (Tiles-append ix.nodes 0 (length ix.names) row t o)
Step-IsTiled (tables ix rec_to_node fits) t = t
Step-IsTiled (aside ix o g) t = t

pub Reach-IsTiled : {a b : Index} → Reach a b → IsTiled a → IsTiled b
Reach-IsTiled here t = t
Reach-IsTiled (then_step r st) t = Step-IsTiled st (Reach-IsTiled r t)

pub Step-count : {a b : Index} → Step a b → length a.nodes ≤ length b.nodes
unfolding put_node
Step-count (touch ix i row row' e o l p) = omega (arith, length-set ix.nodes i row')
Step-count (create ix row kept o l p) = omega (arith, length-append ix.nodes (row ∷ []))
Step-count (tables ix rec_to_node fits) = omega arith
Step-count (aside ix o g) = omega arith

pub Reach-count : {a b : Index} → Reach a b → length a.nodes ≤ length b.nodes
Reach-count here = omega arith
Reach-count (then_step r st) = omega (arith, Reach-count r, Step-count st)
