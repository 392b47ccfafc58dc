-- ===== src/Core/Builder/Fits.antt =====
-- Adding a volume never panics, and gives rows, names and record tables that fit one another.
use batuta.Base.{
  ℕ, zero, suc, ◌+◌, ◌*◌, ◌%◌, ◌^◌, ◌≤◌, ◌<◌, ◌≡◌, refl, sym, ap, subst, ◌∙◌, arith, Bool, true,
  false, Option, none, some, List, [], ◌∷◌, ◌++◌, inl, inr, length, get_elem?, ◌==◌, if◌then◌else◌,
  length-append, length-set, get_elem?_in,
}
use batuta.Base.Fallible.{Returns, returns, Returns-bind}
use batuta.Ntfs.Bytes.{file_ref_record}
use batuta.Core.Names
use batuta.Core.Index.{Node, no_node}
use batuta.Core.Watch.Steps.{
  NodeFits, NodeFits-le, ParentsFit, SlotsFit, TablesFit, Tiles, Tiles-set, Tiles-append,
  get-set_cases, get-append_cases,
}
use batuta.Core.Watch.Changes.{kept_le, push_len}
use batuta.Core.Builder.{
  Entry, IndexBuilder, Pass, entry_row, enter, enter_all, orphaned, linked_row, update, link_all,
  adopted, adopt_all,
}

-- `size` rows whose parents are among them or none, and whose names tile the arena up to `top`.
pub record RowsFit (size top : ℕ) (rows : List Node) : Type 0 where
  pub count : length rows ≡ size
  pub parents : ParentsFit size rows
  pub tiled : Tiles 0 rows top

-- A builder whose rows and tables fit.
pub record BuilderFits (b : IndexBuilder) : Type 0 where
  pub rows : RowsFit (length b.nodes) (length b.names) b.nodes
  pub tables : TablesFit (length b.nodes) b.rec_to_node

pub record PassFits (p : Pass) : Type 0 where
  pub rows : RowsFit (length p.nodes) (length p.names) p.nodes
  pub table : SlotsFit (length p.nodes) p.table

-- Nothing of an entry but its name decides whether it fits.
enter-PassFits :
    (e : Entry) (p : Pass)
    → PassFits p
    → length p.nodes < 2 ^ 32
    → length p.names < 2 ^ 32
    → PassFits (enter e p)
unfolding enter entry_row Names.push
enter-PassFits e p f h k = record {
  rows = record {
    count = refl;
    parents = λ i row at. elim (get-append_cases p.nodes i _ row at) [
      | inl same ↦ inr (ap (λ (r : Node). r.parent) same)
      | inr old ↦ NodeFits-le _ _ row.parent (omega (arith, more)) (f.rows.parents i row old)
    ];
    tiled =
        subst (Tiles 0 (p.nodes ++ (entry_row e p.names ∷ [])))
          (omega (arith, push_len p.names e.name, length-append p.names (Names.kept e.name)))
          (Tiles-append p.nodes 0 (length p.names) (entry_row e p.names) f.rows.tiled
            (omega arith));
  };
  table = λ r n slot. elim (get-set_cases p.table e.record_no r _ n slot) [
    | inl same ↦ inl (omega (arith, same, more, h))
    | inr old ↦ NodeFits-le _ _ n (omega (arith, more)) (f.table r n old)
  ];
}
  where
    more : length (p.nodes ++ (entry_row e p.names ∷ [])) ≡ length p.nodes + 1
    more = length-append p.nodes (entry_row e p.names ∷ [])

-- What the first pass leaves.
pub record Entered (n : ℕ) (p q : Pass) : Type 0 where
  pub fits : PassFits q
  pub count : length q.nodes ≡ length p.nodes + n
  pub names : length q.names ≤ length p.names + 65535 * n

entered_length :
    (e : Entry) (p : Pass)
    → (length (enter e p).nodes ≡ length p.nodes + 1)
      × (length (enter e p).names ≤ length p.names + 65535)
unfolding enter Names.push
entered_length e p = (
  length-append p.nodes (entry_row e p.names ∷ []),
  omega (arith, length-append p.names (Names.kept e.name), kept_le e.name),
)

pub enter_all-Entered :
    (es : List Entry) (p : Pass)
    → PassFits p
    → length p.nodes + length es < 2 ^ 32
    → length p.names + 65535 * length es < 2 ^ 32
    → Entered (length es) p (enter_all es p)
unfolding enter_all
enter_all-Entered [] p f h k = record { fits = f; count = omega arith; names = omega arith }
enter_all-Entered (e ∷ es) p f h k =
    let (grown, longer) = entered_length e p in
    let rest =
      enter_all-Entered es (enter e p) (enter-PassFits e p f (omega (arith, h)) (omega (arith, k)))
        (omega (arith, h, grown)) (omega (arith, k, longer)) in
    record {
      fits = rest.fits;
      count = omega (arith, rest.count, grown);
      names = omega (arith, rest.names, longer);
    }

-- A change of one row that keeps its name and gives it a parent that fits.
record Relinks (size : ℕ) (f : Node → Node) : Type 0 where
  off : (r : Node) → (f r).name_off ≡ r.name_off
  len : (r : Node) → (f r).name_len ≡ r.name_len
  parent : (r : Node) → NodeFits size r.parent → NodeFits size (f r).parent

update-RowsFit :
    (size top i : ℕ) (f : Node → Node) (rows : List Node)
    → Relinks size f
    → RowsFit size top rows
    → i < size
    → Returns (RowsFit size top) (update rows i f)
update-RowsFit size top i f rows link fit h =
    let (row, at) = get_elem?_in rows i (omega (arith, fit.count, h)) in
    rw at (
      returns _ (record {
        count = length-set rows i (f row) ∙ fit.count;
        parents = λ j r e. elim (get-set_cases rows i j (f row) r e) [
          | inl same ↦
              subst (λ (x : Node). NodeFits size x.parent) (sym same)
                (link.parent row (fit.parents i row at))
          | inr old ↦ fit.parents j r old
        ];
        tiled = Tiles-set rows i 0 top row (f row) at (link.off row) (link.len row) fit.tiled;
      }))

Relinks-if :
    {size : ℕ} (b : Bool) (f g : Node → Node)
    → Relinks size f
    → Relinks size g
    → Relinks size (λ r. if b then f r else g r)
Relinks-if true f g hf hg = hf
Relinks-if false f g hf hg = hg

Relinks-found :
    {size : ℕ} (o : Option ℕ) (f : Node → Node) (g : ℕ → Node → Node)
    → Relinks size f
    → ((k : ℕ) → o ≡ some k → Relinks size (g k))
    → Relinks size (λ r. elim o [ none ↦ f r | some k ↦ g k r ])
Relinks-found none f g hf hg = hf
Relinks-found (some k) f g hf hg = hg k refl

Relinks-parent : (size p : ℕ) → NodeFits size p → Relinks size (λ r. record r { parent = p })
Relinks-parent size p h = record { off = λ r. refl; len = λ r. refl; parent = λ r _. h }

orphaned-Relinks : (size : ℕ) → Relinks size orphaned
orphaned-Relinks size = record { off = λ r. refl; len = λ r. refl; parent = λ r _. inr refl }

linked-Relinks :
    (size : ℕ) (table : List ℕ) (node : ℕ) (e : Entry)
    → SlotsFit size table
    → node < size
    → Relinks size (linked_row table node e)
unfolding linked_row
linked-Relinks size table node e fit h =
    Relinks-if (e.record_no == 5) _ _ (Relinks-parent size node (inl h)) (
      Relinks-found (get_elem? table (file_ref_record e.parent)) orphaned
        (λ p row. if p == no_node then orphaned row else record row { parent = p })
        (orphaned-Relinks size)
        λ p at.
          Relinks-if (p == no_node) orphaned _ (orphaned-Relinks size)
            (Relinks-parent size p (fit (file_ref_record e.parent) p at)))

adopted-Relinks : (size root : ℕ) → root < size → Relinks size (adopted root)
adopted-Relinks size root h = record {
  off = λ r. same_off (r.parent == no_node) r;
  len = λ r. same_len (r.parent == no_node) r;
  parent = λ r k. fits (r.parent == no_node) r k;
}
  where
    same_off :
        (b : Bool) (r : Node) → (if b then record r { parent = root } else r).name_off ≡ r.name_off
    same_off true r = refl
    same_off false r = refl

    same_len :
        (b : Bool) (r : Node) → (if b then record r { parent = root } else r).name_len ≡ r.name_len
    same_len true r = refl
    same_len false r = refl

    fits :
        (b : Bool) (r : Node)
        → NodeFits size r.parent
        → NodeFits size (if b then record r { parent = root } else r).parent
    fits true r k = inl h
    fits false r k = k

-- The rows after the second pass, and a root that is one of them or none.
pub record Linked (size top : ℕ) (p : List Node × ℕ) : Type 0 where
  pub rows : RowsFit size top p.0
  pub root : NodeFits size p.1

root-NodeFits :
    (size : ℕ) (b : Bool) (node root : ℕ)
    → node < size
    → NodeFits size root
    → NodeFits size (if b then node else root)
root-NodeFits size true node root h k = inl h
root-NodeFits size false node root h k = k

pub link_all-Linked :
    (size top : ℕ) (table : List ℕ) (i : ℕ) (es : List Entry) (rows : List Node) (root : ℕ)
    → SlotsFit size table
    → i + length es ≤ size
    → size < 2 ^ 32
    → RowsFit size top rows
    → NodeFits size root
    → Returns (Linked size top) (link_all table i es rows root)
unfolding link_all
link_all-Linked size top table i [] rows root slots h small fit r =
    returns _ (record { rows = fit; root = r })
link_all-Linked size top table i (e ∷ es) rows root slots h small fit r =
    let inside : i % 2 ^ 32 < size = omega (arith, h, small) in
    Returns-bind (update rows (i % 2 ^ 32) (linked_row table (i % 2 ^ 32) e)) _
      (update-RowsFit size top (i % 2 ^ 32) _ rows
        (linked-Relinks size table (i % 2 ^ 32) e slots inside) fit inside)
      λ rows' fit'.
        link_all-Linked size top table (i + 1) es rows' _ slots (omega (arith, h)) small fit'
          (root-NodeFits size (e.record_no == 5) (i % 2 ^ 32) root inside r)

pub adopt_all-RowsFit :
    (size top root i left : ℕ) (rows : List Node)
    → root < size
    → i + left ≤ size
    → size < 2 ^ 32
    → RowsFit size top rows
    → Returns (RowsFit size top) (adopt_all root i left rows)
unfolding adopt_all
adopt_all-RowsFit size top root i zero rows r h small fit = returns _ fit
adopt_all-RowsFit size top root i (suc left) rows r h small fit =
    let inside : i % 2 ^ 32 < size = omega (arith, h, small) in
    Returns-bind (update rows (i % 2 ^ 32) (adopted root)) _
      (update-RowsFit size top (i % 2 ^ 32) _ rows (adopted-Relinks size root r) fit inside)
      λ rows' fit'.
        adopt_all-RowsFit size top root (i + 1) left rows' r (omega (arith, h)) small fit'
