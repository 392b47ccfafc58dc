-- ===== src/Core/Snapshot/Compacting.antt =====
-- A snapshot shows every node under its current name.
use batuta.Base.{
  ℕ, zero, suc, ◌+◌, ◌-◌, ◌^◌, ◌%◌, ◌≤◌, ◌<◌, ◌≡◌, refl, sym, ap, ◌∙◌, subst, arith, min, bit_and,
  false, Option, none, some, List, [], ◌∷◌, ◌++◌,
}
use batuta.Base.{
  length, get_elem?, take, drop, length-append, length-take, take-append_length, drop-append_length,
}
use native.Mathlib.Nat.{add-zero, add-suc, suc-add}
use mathlib.Core.List.{append_assoc, append-nil}
use batuta.Core.Names.{kept}
use batuta.Base.Bits.{bit, bit-bit_and, bit_and-pow}
use batuta.Core.Index.{has, Index, Node, name, name_overridden}
use batuta.Core.Watch.Steps.{Tiles}
use batuta.Core.Snapshot.{renamed_row, compact_rows, compact_names}

-- How many bytes the names of the rows take, from the node `i` on.
unfoldable pub names_size : Index → ℕ → List Node → ℕ
names_size ix i [] = 0
names_size ix i (row ∷ rows) =
    elim (name ix i) [ none ↦ 0 | some s ↦ length (kept s) ] + names_size ix (suc i) rows

-- The row shows the name: at its place in the arena, up to 65535 bytes of it, and not as overridden.
pub record Shows (row : Node) (arena s : List ℕ) : Type 0 where
  pub reads : take row.name_len (drop row.name_off arena) ≡ kept s
  pub inside : row.name_off + row.name_len ≤ length arena
  pub unflagged : has row.flags name_overridden ≡ false

pub record Compacted (ix : Index) (i : ℕ) (rows : List Node) (before : List ℕ) (done : List Node)
    (arena : List ℕ) : Type 0 where
  pub made : compact_rows ix i rows before ≡ some (done, arena)
  pub count : length done ≡ length rows
  pub tiled : Tiles (length before) done (length arena)
  pub extends : (back : List ℕ) × (arena ≡ before ++ back)
  pub shows :
      (j : ℕ) (row : Node) (s : List ℕ)
      → get_elem? done j ≡ some row
      → name ix (i + j) ≡ some s
      → Shows row arena s

-- Every row from the node `i` on has a name.
unfoldable pub HaveNames : Index → ℕ → List Node → Type 0
HaveNames ix i [] = Unit {0}
HaveNames ix i (row ∷ rows) = ((s : List ℕ) × (name ix i ≡ some s)) × HaveNames ix (suc i) rows

length-kept : (s : List ℕ) → length (kept s) % 2 ^ 16 ≡ length (kept s)
unfolding kept
length-kept s = omega (arith, length-take (min (length s) 65535) s)

some_eq {ℓ} : {A : Type ℓ} (a b : A) → some a ≡ some b → a ≡ b
some_eq a b h = cc

cleared : (f : ℕ) → has (bit_and f (65535 - name_overridden)) name_overridden ≡ false
cleared f =
    let digit : bit 14 (bit_and f 49151) ≡ 0 = omega (arith, bit-bit_and 14 f 49151) in
    let masked : bit_and (bit_and f 49151) (2 ^ 14) ≡ 0 =
      omega (arith, bit_and-pow 14 (bit_and f 49151), digit) in
    rw masked refl

-- The row that is made first shows its name in any arena that goes on from there.
first-Shows :
    (row : Node) (before s back : List ℕ)
    → length before < 2 ^ 32
    → Shows (renamed_row row before s) ((before ++ kept s) ++ back) s
unfolding renamed_row
first-Shows row before s back small =
    let off : length before % 2 ^ 32 ≡ length before = omega (arith, small) in
    record {
      reads =
          rw (off, length-kept s)
            (ap (λ whole. take (length (kept s)) (drop (length before) whole))
                (append_assoc before (kept s) back)
              ∙ ap (take (length (kept s))) (drop-append_length before (kept s ++ back))
              ∙ take-append_length (kept s) back);
      inside = omega (
        arith,
        off,
        length-kept s,
        length-append (before ++ kept s) back,
        length-append before (kept s),
      );
      unflagged = cleared row.flags;
    }

names_size_first :
    (ix : Index) (i : ℕ) (row : Node) (rows : List Node) (s : List ℕ)
    → name ix i ≡ some s
    → names_size ix i (row ∷ rows) ≡ length (kept s) + names_size ix (suc i) rows
unfolding names_size
names_size_first ix i row rows s e =
    ap
      (λ (o : Option (List ℕ)).
        elim o as (λ _. ℕ) [ none ↦ 0 | some s ↦ length (kept s) ] + names_size ix (suc i) rows)
      e

-- One row more at the front.
Compacted-extend :
    (ix : Index) (i : ℕ) (row : Node) (rows done : List Node) (before s arena : List ℕ)
    → name ix i ≡ some s
    → length before < 2 ^ 32
    → Compacted ix (suc i) rows (before ++ kept s) done arena
    → Compacted ix i (row ∷ rows) before (renamed_row row before s ∷ done) arena
unfolding compact_rows
Compacted-extend ix i row rows done before s arena e small rest =
    let (back, whole) = rest.extends in
    record {
      made = rw e (rw (rest.made) refl);
      count = ap suc rest.count;
      tiled = (first_off, subst (λ (n : ℕ). Tiles n done (length arena)) first_len rest.tiled);
      extends = (kept s ++ back, whole ∙ append_assoc before (kept s) back);
      shows = showing;
    }
  where
    first_off : (renamed_row row before s).name_off ≡ length before
    first_off = unfold renamed_row in omega (arith, small)

    first_len : length (before ++ kept s) ≡ length before + (renamed_row row before s).name_len
    first_len = unfold renamed_row in omega (arith, length-append before (kept s), length-kept s)

    showing :
        (j : ℕ) (row' : Node) (s' : List ℕ)
        → get_elem? (renamed_row row before s ∷ done) j ≡ some row'
        → name ix (i + j) ≡ some s'
        → Shows row' arena s'
    showing zero row' s' at named =
        let same_name : s ≡ s' = some_eq s s' (sym e ∙ ap (name ix) (sym (add-zero i)) ∙ named) in
        let (back, whole) = rest.extends in
        let shown : Shows (renamed_row row before s) arena s =
          subst (λ (a : List ℕ). Shows (renamed_row row before s) a s) (sym whole)
            (first-Shows row before s back small) in
        rw (some_eq (renamed_row row before s) row' at, same_name) at shown
    showing (suc j) row' s' at named =
        rest.shows j row' s' at (ap (name ix) (suc-add i j ∙ sym (add-suc i j)) ∙ named)

pub compact_rows-Compacted :
    (ix : Index) (i : ℕ) (rows : List Node) (before : List ℕ)
    → HaveNames ix i rows
    → length before + names_size ix i rows < 2 ^ 32
    → (done : List Node) × (arena : List ℕ) × Compacted ix i rows before done arena
unfolding compact_rows HaveNames names_size
compact_rows-Compacted ix i [] before named small = (
  [],
  before,
  record {
    made = refl;
    count = refl;
    tiled = refl;
    extends = ([], sym (append-nil before));
    shows = λ j row s at e. cc;
  },
)
compact_rows-Compacted ix i (row ∷ rows) before ((s, e), named) small =
    let counted = names_size_first ix i row rows s e in
    let size : length (before ++ kept s) + names_size ix (suc i) rows < 2 ^ 32 =
      omega (arith, counted, small, length-append before (kept s)) in
    let (done, arena, rest) =
      compact_rows-Compacted ix (suc i) rows (before ++ kept s) named size in
    (
      renamed_row row before s ∷ done,
      arena,
      Compacted-extend ix i row rows done before s arena e (omega (arith, counted, small)) rest,
    )

rebuilt :
    (ix : Index) (k off len : ℕ) (others : List (ℕ × ℕ × ℕ))
    → ix.overrides.by_node ≡ (k, off, len) ∷ others
    → compact_names ix ≡ compact_rows ix 0 ix.nodes []
unfolding compact_names
rebuilt ix k off len others renamed =
    ap
      (λ (entries : List (ℕ × ℕ × ℕ)). elim entries as (λ _. Option (List Node × List ℕ)) [
        | [] ↦ some (ix.nodes, ix.names)
        | _ ∷ _ ↦ compact_rows ix 0 ix.nodes []
      ])
      renamed

-- While the current names take less than 2^32 bytes, and some node is renamed and every node has a name,
-- the rows and the arena that a snapshot is written with are made without a panic, as many rows as there
-- are nodes, whose names tile the new arena in node order, each the current name of its node, an override
-- included, up to 65535 bytes of it, and not flagged as overridden.
pub compact_names-Compacted :
    (ix : Index) (k off len : ℕ) (others : List (ℕ × ℕ × ℕ))
    → ix.overrides.by_node ≡ (k, off, len) ∷ others
    → HaveNames ix 0 ix.nodes
    → names_size ix 0 ix.nodes < 2 ^ 32
    → (done : List Node) × (arena : List ℕ) × (compact_names ix ≡ some (done, arena))
      × Compacted ix 0 ix.nodes [] done arena
compact_names-Compacted ix k off len others renamed named small =
    let (done, arena, all) = compact_rows-Compacted ix 0 ix.nodes [] named (omega (arith, small)) in
    (done, arena, rebuilt ix k off len others renamed ∙ all.made, all)
