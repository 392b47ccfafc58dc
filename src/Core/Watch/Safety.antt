-- ===== src/Core/Watch/Safety.antt =====
-- The operations on an index, as runs of elementary steps: none indexes out of range.
use batuta.Base.{ℕ, zero, suc, ◌+◌, ◌<◌, ◌≡◌, refl, sym, subst, ◌∙◌, arith}
use batuta.Base.{Bool, false, Option, none, some, List, [], ◌∷◌, ◌++◌, ◌⊎◌, inl, inr}
use batuta.Base.{
  length, get_elem?, set, replicate, ltb, leb, length-set, get_elem?_in, Bool-cases, Option-cases,
  ◌==◌, if◌then◌else◌,
}
use batuta.Base.Fallible.{Returns, returns, Returns-bind, Returns-if, Returns-weaken}
use batuta.Core.Index.{Index, Node, Delta, no_node, node_at, put_node, update_node, add_delta}
use batuta.Core.Index.{
  propagate_loop, propagate, negative, weight, tombstone, is_deleted, is_excluded,
}
use batuta.Core.Index.{
  retire, node_of_record, clear_record, set_slot, set_record, resize, resolve_found, resolve_record,
}
use batuta.Core.Watch.Steps.{NodeFits, SlotsFit, TablesFit, IsValid, touch, tables}
use batuta.Core.Watch.Steps.{Reach, here, then_step, Reach-trans, Reach-IsValid, get-set_cases}

-- Steps that leave the number of nodes alone.
pub record Kept (a b : Index) : Type 0 where
  pub reach : Reach a b
  pub count : length b.nodes ≡ length a.nodes
  pub names : length b.names ≡ length a.names

pub Kept-refl : (a : Index) → Kept a a
Kept-refl a = record { reach = here; count = refl; names = refl }

pub Kept-trans : {a b c : Index} → Kept a b → Kept b c → Kept a c
Kept-trans k l = record {
  reach = Reach-trans k.reach l.reach;
  count = l.count ∙ k.count;
  names = l.names ∙ k.names;
}

pub Kept-IsValid : {a b : Index} → Kept a b → IsValid a → IsValid b
Kept-IsValid k v = Reach-IsValid k.reach v

-- A write to a row that keeps its name and its parent.
pub Kept-put :
    (ix : Index) (i : ℕ) (row row' : Node)
    → node_at ix i ≡ some row
    → row'.name_off ≡ row.name_off
    → row'.name_len ≡ row.name_len
    → (row'.parent ≡ row.parent) ⊎ (row'.parent < length ix.nodes)
    → Kept ix (put_node ix i row')
unfolding put_node
Kept-put ix i row row' e o l p = record {
  reach = then_step here (touch ix i row row' e o l p);
  count = length-set ix.nodes i row';
  names = refl;
}

pub node_at_in :
    (ix : Index) (i : ℕ) → i < length ix.nodes → (row : Node) × (node_at ix i ≡ some row)
unfolding node_at
node_at_in ix i h = get_elem?_in ix.nodes i h

pub Returns-node_at :
    (ix : Index) (i : ℕ)
    → i < length ix.nodes
    → Returns (λ row. node_at ix i ≡ some row) (node_at ix i)
Returns-node_at ix i h = let (row, e) = node_at_in ix i h in rw e (returns row refl)

pub below : (count p : ℕ) → NodeFits count p → (p == no_node) ≡ false → p < count
below count p (inl lt) h = lt
below count p (inr e) h = absurd (ground arith)

parent_fits :
    (ix : Index) (i : ℕ) (row : Node)
    → IsValid ix
    → node_at ix i ≡ some row
    → NodeFits (length ix.nodes) row.parent
unfolding node_at
parent_fits ix i row v e = v.parents i row e

propagate_loop-Kept :
    (left cur : ℕ) (d : Delta) (ix : Index)
    → IsValid ix
    → NodeFits (length ix.nodes) cur
    → Returns (Kept ix) (propagate_loop left cur d ix)
unfolding propagate_loop
propagate_loop-Kept zero cur d ix v f = returns ix (Kept-refl ix)
propagate_loop-Kept (suc left) cur d ix v f =
    Returns-if (cur == no_node) _ _ (λ _. returns ix (Kept-refl ix))
      λ real. Returns-bind (node_at ix cur) _ (Returns-node_at ix cur (below _ cur f real)) λ row e.
        let k : Kept ix (put_node ix cur (add_delta d row)) =
          Kept-put ix cur row (add_delta d row) e (unfold add_delta in refl)
            (unfold add_delta in refl) (inl (unfold add_delta in refl)) in
        Returns-if (row.parent == cur) _ _ (λ _. returns _ k)
          λ _.
            Returns-weaken _ (λ ix' k'. Kept-trans k k')
              (propagate_loop-Kept left row.parent d _ (Kept-IsValid k v) (
                subst (λ (n : ℕ). NodeFits n row.parent) (sym k.count)
                  (parent_fits ix cur row v e)))

pub propagate-Kept :
    (ix : Index) (node : ℕ) (d : Delta)
    → IsValid ix
    → node < length ix.nodes
    → Returns (Kept ix) (propagate ix node d)
unfolding propagate
propagate-Kept ix node d v h =
    Returns-bind (node_at ix node) _ (Returns-node_at ix node h)
      λ row e. propagate_loop-Kept 513 row.parent d ix v (parent_fits ix node row v e)

-- `f` leaves the name and the parent of a row alone.
pub record KeepsName (f : Node → Node) : Type 0 where
  pub off : (r : Node) → (f r).name_off ≡ r.name_off
  pub len : (r : Node) → (f r).name_len ≡ r.name_len
  pub parent : (r : Node) → (f r).parent ≡ r.parent

pub update_node-Kept :
    (ix : Index) (node : ℕ) (f : Node → Node)
    → KeepsName f
    → node < length ix.nodes
    → Returns (Kept ix) (update_node ix node f)
unfolding update_node
update_node-Kept ix node f k h =
    Returns-bind (node_at ix node) _ (Returns-node_at ix node h) λ row e.
      returns _ (Kept-put ix node row (f row) e (k.off row) (k.len row) (inl (k.parent row)))

pub tombstone-KeepsName : KeepsName tombstone
tombstone-KeepsName = record { off = λ r. refl; len = λ r. refl; parent = λ r. refl }

pub weighed_out :
    (b : Bool) (ix : Index) (node : ℕ) (d : Delta)
    → IsValid ix
    → node < length ix.nodes
    → Returns (Kept ix) (if b then some ix else propagate ix node d)
weighed_out b ix node d v h =
    Returns-if b _ _ (λ _. returns ix (Kept-refl ix)) (λ _. propagate-Kept ix node d v h)

pub Kept-lt : {a b : Index} (node : ℕ) → Kept a b → node < length a.nodes → node < length b.nodes
Kept-lt node k h = omega (arith, k.count)

retire-Kept :
    (ix : Index) (node : ℕ)
    → IsValid ix
    → node < length ix.nodes
    → Returns (Kept ix) (retire ix node)
unfolding retire
retire-Kept ix node v h = Returns-bind (node_at ix node) _ (Returns-node_at ix node h) λ row e.
    Returns-if (is_deleted row) _ _ (λ _. returns ix (Kept-refl ix))
      λ _.
        Returns-bind
          (if is_excluded row then some ix else propagate ix node (negative (weight row))) _
          (weighed_out (is_excluded row) ix node (negative (weight row)) v h)
          λ ix' k.
            Returns-weaken _ (λ ix'' k'. Kept-trans k k')
              (update_node-Kept ix' node tombstone tombstone-KeepsName (Kept-lt node k h))

-- A write to one table of a list of tables, and to one slot of a table.
pub TablesFit-set :
    (count : ℕ) (ts : List (List ℕ)) (v : ℕ) (table : List ℕ)
    → TablesFit count ts
    → SlotsFit count table
    → TablesFit count (set ts v table)
TablesFit-set count ts v table fits new w t at r k slot = elim (get-set_cases ts v w table t at) [
  | inl same ↦ new r k (subst (λ (u : List ℕ). get_elem? u r ≡ some k) same slot)
  | inr old ↦ fits w t old r k slot
]

pub SlotsFit-set :
    (count : ℕ) (table : List ℕ) (rec node : ℕ)
    → SlotsFit count table
    → NodeFits count node
    → SlotsFit count (set table rec node)
SlotsFit-set count table rec node fits new r k slot = elim (get-set_cases table rec r node k slot) [
  | inl same ↦ rw same new
  | inr old ↦ fits r k old
]

pub clear_record-Kept :
    (ix : Index) (volume rec : ℕ) → IsValid ix → Kept ix (clear_record ix volume rec)
unfolding clear_record
clear_record-Kept ix volume rec v = elim (Option-cases (get_elem? ix.rec_to_node volume)) [
  | inl e ↦ rw (e, clear_record) (Kept-refl ix)
  | inr (table, e) ↦
      rw (e, clear_record)
        (record {
          reach = then_step here (
              tables ix _ (
                TablesFit-set _ ix.rec_to_node volume _ v.tables
                  (SlotsFit-set _ table rec no_node (v.tables volume table e) (inr refl))));
          count = refl;
          names = refl;
        })
]

get-filled_cases :
    (xs : List ℕ) (n r k : ℕ)
    → get_elem? (xs ++ replicate n no_node) r ≡ some k
    → (k ≡ no_node) ⊎ (get_elem? xs r ≡ some k)
get-filled_cases [] zero r k h = cc
get-filled_cases [] (suc n) zero k h = inl (cc)
get-filled_cases [] (suc n) (suc r) k h = get-filled_cases [] n r k h
get-filled_cases (x ∷ xs) n zero k h = inr h
get-filled_cases (x ∷ xs) n (suc r) k h = get-filled_cases xs n r k h

set_slot-SlotsFit :
    (count : ℕ) (table : List ℕ) (rec node : ℕ)
    → SlotsFit count table
    → NodeFits count node
    → SlotsFit count (set_slot table rec node)
unfolding set_slot
set_slot-SlotsFit count table rec node fits new = elim (Bool-cases (leb (length table) rec)) [
  | inr small ↦ rw (small, set_slot) (SlotsFit-set count table rec node fits new)
  | inl big ↦ elim (Bool-cases (ltb (length table + 8_000_000) rec)) [
    | inl far ↦ rw (big, far, set_slot) fits
    | inr near ↦
        rw (big, near, set_slot)
          (SlotsFit-set count (resize table (rec + 1)) rec node
            (λ r k at. elim (get-filled_cases table _ r k at) [
              | inl e ↦ inr e
              | inr old ↦ fits r k old
            ])
            new)
  ]
]

pub set_record-Kept :
    (ix : Index) (volume rec node : ℕ)
    → IsValid ix
    → node < length ix.nodes
    → Kept ix (set_record ix volume rec node)
unfolding set_record
set_record-Kept ix volume rec node v h = elim (Option-cases (get_elem? ix.rec_to_node volume)) [
  | inl e ↦ rw (e, set_record) (Kept-refl ix)
  | inr (table, e) ↦
      rw (e, set_record)
        (record {
          reach = then_step here (
              tables ix _ (
                TablesFit-set _ ix.rec_to_node volume _ v.tables
                  (set_slot-SlotsFit _ table rec node (v.tables volume table e) (inl h))));
          count = refl;
          names = refl;
        })
]

-- A node that was found in a record table.
abbrev pub FoundFits : ℕ → Option ℕ → Type 0
FoundFits count none = Unit
FoundFits count (some node) = node < count

pub node_of_record-FoundFits :
    (ix : Index) (volume rec : ℕ)
    → IsValid ix
    → FoundFits (length ix.nodes) (node_of_record ix volume rec)
unfolding node_of_record
node_of_record-FoundFits ix volume rec v = elim (Option-cases (get_elem? ix.rec_to_node volume)) [
  | inl e ↦ rw e tt
  | inr (table, e) ↦ elim (Option-cases (get_elem? table rec)) [
    | inl f ↦ rw (e, f) tt
    | inr (n, f) ↦ elim (Bool-cases (n == no_node)) [
      | inl g ↦ rw (e, f, g) tt
      | inr g ↦ rw (e, f, g) (below _ n (v.tables volume table e rec n f) g)
    ]
  ]
]

-- What resolving a record gives: an index with the same nodes, and a node of it or none.
pub record Resolved (ix : Index) (p : Option ℕ × Index) : Type 0 where
  pub kept : Kept ix p.1
  pub found : FoundFits (length ix.nodes) p.0

resolve_found-Resolved :
    (o : Option ℕ) (ix : Index) (volume rec sequence : ℕ)
    → IsValid ix
    → FoundFits (length ix.nodes) o
    → Returns (Resolved ix) (resolve_found o ix volume rec sequence)
resolve_found-Resolved none ix volume rec sequence v f =
    returns _ (record { kept = Kept-refl ix; found = tt })
resolve_found-Resolved (some node) ix volume rec sequence v f =
    Returns-bind (node_at ix node) _ (Returns-node_at ix node f) λ row e.
      Returns-if (row.sequence == sequence) _ _
        (λ _. returns _ (record { kept = Kept-refl ix; found = f }))
        λ _. Returns-bind (retire ix node) _ (retire-Kept ix node v f) λ ix' k. returns _ (record {
          kept = Kept-trans k (clear_record-Kept ix' volume rec (Kept-IsValid k v));
          found = tt;
        })

pub resolve_record-Resolved :
    (ix : Index) (volume rec sequence : ℕ)
    → IsValid ix
    → Returns (Resolved ix) (resolve_record ix volume rec sequence)
unfolding resolve_record
resolve_record-Resolved ix volume rec sequence v =
    resolve_found-Resolved (node_of_record ix volume rec) ix volume rec sequence v
      (node_of_record-FoundFits ix volume rec v)
