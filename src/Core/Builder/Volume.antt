-- ===== src/Core/Builder/Volume.antt =====
-- `add_volume` as a whole.
use batuta.Base.{
  ℕ, zero, suc, ◌+◌, ◌*◌, ◌-◌, ◌%◌, ◌^◌, ◌≤◌, ◌<◌, ◌≡◌, refl, sym, subst, arith, false, some, List,
  [], ◌∷◌, inl, inr, length, get_elem?, length-append, replicate, All, leb, ◌==◌, if◌then◌else◌,
}
use batuta.Base.Fallible.{Returns, returns, Returns-bind, Returns-if}
use batuta.Base.Int.{ℤ}
use batuta.Core.Index.{Node, no_node}
use batuta.Core.Watch.Steps.{NodeFits, NodeFits-le, get-append_cases}
use batuta.Core.Watch.Safety.{below}
use batuta.Core.Builder.{
  Entry, IndexBuilder, Pass, enter_all, link_all, adopt_all, highest, capacity, new_table,
  add_volume,
}
use batuta.Core.Builder.Fits.{
  RowsFit, BuilderFits, PassFits, Entered, enter_all-Entered, Linked, link_all-Linked,
  adopt_all-RowsFit,
}

replicate-slots : (n r k : ℕ) → get_elem? (replicate n no_node) r ≡ some k → k ≡ no_node
replicate-slots zero r k h = cc
replicate-slots (suc n) zero k h = cc
replicate-slots (suc n) (suc r) k h = replicate-slots n r k h

-- The builder before the first pass.
start-PassFits :
    (b : IndexBuilder) (n : ℕ)
    → BuilderFits b
    → PassFits (record { nodes = b.nodes; names = b.names; table = replicate n no_node })
start-PassFits b n f = record {
  rows = f.rows;
  table = λ r k slot. inr (replicate-slots n r k slot);
}

-- A builder that has grown by `n` nodes.
pub record Added (n : ℕ) (b b' : IndexBuilder) : Type 0 where
  pub fits : BuilderFits b'
  pub count : length b'.nodes ≡ length b.nodes + n
  pub tables : length b'.rec_to_node ≡ length b.rec_to_node + 1

rows_sized : {n m top : ℕ} {rows : List Node} → n ≡ m → RowsFit n top rows → RowsFit m top rows
rows_sized {top = top} {rows} e f = subst (λ (k : ℕ). RowsFit k top rows) e f

highest_le :
    (es : List Entry) (bound : ℕ) → All (λ (e : Entry). e.record_no ≤ bound) es → highest es ≤ bound
unfolding highest
highest_le [] bound h = omega arith
highest_le (e ∷ es) bound (here, h) = omega (arith, here, highest_le es bound h)

capacity_lt :
    (batch : List Entry) (max_records : ℕ)
    → All (λ (e : Entry). e.record_no ≤ 2 ^ 61 - 2) batch
    → max_records < 2 ^ 61
    → capacity batch max_records < 2 ^ 61
unfolding capacity
capacity_lt [] max_records low few = omega (arith, few)
capacity_lt (e ∷ es) max_records low few = omega (arith, few, highest_le (e ∷ es) (2 ^ 61 - 2) low)

-- Low record numbers ask for a table that can be allocated.
new_table-capacity :
    (batch : List Entry) (max_records : ℕ)
    → All (λ (e : Entry). e.record_no ≤ 2 ^ 61 - 2) batch
    → max_records < 2 ^ 61
    → new_table (capacity batch max_records) ≡ some (replicate (capacity batch max_records) no_node)
unfolding new_table
new_table-capacity batch max_records low few =
    let modest : leb (2 ^ 63) (capacity batch max_records * 4) ≡ false =
      ground (arith, capacity_lt batch max_records low few) in
    rw modest refl

-- Adding a parsed volume to a builder whose parents, record tables and names fit, while there is
-- room for its entries below 2^32 nodes and 2^32 bytes of names, and its record numbers are at most
-- 2^61 - 2 and its record capacity is below 2^61, so that the record table can be allocated, never
-- panics, whatever the parent references say: it adds one row for each entry and one table, every
-- parent and every slot is a node or none, and the names tile the arena in node order.
pub add_volume-Added :
    (b : IndexBuilder) (drive serial : ℕ) (next_usn : ℤ) (batch : List Entry) (max_records : ℕ)
    → BuilderFits b
    → length b.nodes + length batch < 2 ^ 32
    → length b.names + 65535 * length batch < 2 ^ 32
    → All (λ (e : Entry). e.record_no ≤ 2 ^ 61 - 2) batch
    → max_records < 2 ^ 61
    → Returns (Added (length batch) b) (add_volume b drive serial next_usn batch max_records)
unfolding add_volume
add_volume-Added b drive serial next_usn batch max_records f room names low few =
    rw (new_table-capacity batch max_records low few, add_volume)
      (Returns-bind (link_all p.table first batch p.nodes no_node) _
        (link_all-Linked (length p.nodes) (length p.names) p.table first batch p.nodes no_node
          entered.fits.table (omega (arith, entered.count)) (omega (arith, entered.count, room))
          entered.fits.rows (inr refl))
        λ q linked. Returns-bind _ _ (settled q linked) λ rows fit. returns _ (record {
          fits = record {
            rows = rows_sized (sym fit.count) fit;
            tables = λ v table at r k slot.
                elim (get-append_cases b.rec_to_node v p.table table at) [
                  | inl same ↦
                      subst (λ (n : ℕ). NodeFits n k) (sym fit.count)
                        (entered.fits.table r k
                          (subst (λ (t : List ℕ). get_elem? t r ≡ some k) same slot))
                  | inr old ↦
                      NodeFits-le _ _ k (omega (arith, fit.count, entered.count))
                        (f.tables v table old r k slot)
                ];
          };
          count = omega (arith, fit.count, entered.count);
          tables = length-append b.rec_to_node (p.table ∷ []);
        }))
  where
    p : Pass
    p = enter_all batch (record {
      nodes = b.nodes;
      names = b.names;
      table = replicate (capacity batch max_records) no_node;
    })

    first : ℕ
    first = length b.nodes % 2 ^ 32

    entered :
        Entered
          (length batch)
          (record {
            nodes = b.nodes;
            names = b.names;
            table = replicate (capacity batch max_records) no_node;
          })
          p
    entered =
        enter_all-Entered batch
          (record {
            nodes = b.nodes;
            names = b.names;
            table = replicate (capacity batch max_records) no_node;
          })
          (start-PassFits b (capacity batch max_records) f) room names

    settled :
        (q : List Node × ℕ)
        → Linked (length p.nodes) (length p.names) q
        → Returns
            (RowsFit (length p.nodes) (length p.names))
            (if q.1 == no_node then some q.0 else adopt_all q.1 first (length batch) q.0)
    settled q linked =
        Returns-if (q.1 == no_node) _ _ (λ _. returns _ linked.rows)
          λ real.
            adopt_all-RowsFit (length p.nodes) (length p.names) q.1 first (length batch) q.0
              (below _ q.1 linked.root real) (omega (arith, entered.count))
              (omega (arith, entered.count, room)) linked.rows
