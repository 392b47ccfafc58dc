-- ===== src/Core/Snapshot/Checks.antt =====
-- `validate` accepts exactly the snapshots that are fit to be used.
use batuta.Base.{
  ℕ, ◌+◌, ◌≤◌, ◌<◌, ◌≡◌, refl, arith, false, not, ◌&&◌, ◌||◌, ◌⊎◌, ◌↔◌, inl, inr, List, [], ◌∷◌,
  All, Bool-cases,
}
use batuta.Base.{==_iff, length, ltb, ◌==◌, if◌then◌else◌}
use batuta.Core.Index.{Index, Node, VolumeInfo, no_node}
use batuta.Core.Snapshot.{
  Result, ok, err, corrupt, check_rows, has_descent, check_volumes, and_then, validate,
}

-- The parent is a row or none, and the name lies in the arena.
pub record RowFits (n names_len : ℕ) (row : Node) : Type 0 where
  pub parent_fits : (row.parent ≡ no_node) ⊎ (row.parent < n)
  pub name_fits : row.name_off + row.name_len ≤ names_len

-- The offsets do not descend.
pub Ascending : List Node → Type 0
Ascending [] = Unit {0}
Ascending (x ∷ []) = Unit {0}
Ascending (x ∷ y ∷ rows) = (x.name_off ≤ y.name_off) × Ascending (y ∷ rows)

pub record VolumeFits (n : ℕ) (v : VolumeInfo) : Type 0 where
  pub root_fits : v.root < n
  pub range_fits : v.first_node + v.node_count ≤ n

pub record Usable (ix : Index) : Type 0 where
  pub some_node : 0 < length ix.nodes
  pub rows_fit : All (RowFits (length ix.nodes) (length ix.names)) ix.nodes
  pub ascending : Ascending ix.nodes
  pub volumes_fit : All (VolumeFits (length ix.nodes)) ix.volumes

check_rows-RowFits :
    (n names_len : ℕ) (rows : List Node)
    → check_rows n names_len rows ≡ ok
    → All (RowFits n names_len) rows
unfolding check_rows
check_rows-RowFits n names_len [] h = tt
check_rows-RowFits n names_len (row ∷ rows) h =
    elim (Bool-cases (not (row.parent == no_node) && not (ltb row.parent n))) [
      | inl out ↦ cc (rw out at h)
      | inr in_table ↦ elim (Bool-cases (ltb names_len (row.name_off + row.name_len))) [
        | inl past ↦ cc (rw past at (rw in_table at h))
        | inr inside ↦ (
          record {
            parent_fits = parent_of row.parent n in_table;
            name_fits = ground (arith, inside);
          },
          check_rows-RowFits n names_len rows (rw inside at (rw in_table at h)),
        )
      ]
    ]
  where
    parent_of : (p n : ℕ) → (not (p == no_node) && not (ltb p n)) ≡ false → (p ≡ no_node) ⊎ (p < n)
    parent_of p n h = elim (Bool-cases (p == no_node)) [
      | inl same ↦ inl ((==_iff p no_node).0 same)
      | inr other ↦ inr (ground (arith, h, other))
    ]

RowFits-check_rows :
    (n names_len : ℕ) (rows : List Node)
    → All (RowFits n names_len) rows
    → check_rows n names_len rows ≡ ok
unfolding check_rows
RowFits-check_rows n names_len [] h = refl
RowFits-check_rows n names_len (row ∷ rows) (here, h) = elim here.parent_fits [
  | inl same ↦ ground (arith, same, here.name_fits, RowFits-check_rows n names_len rows h)
  | inr less ↦ ground (arith, less, here.name_fits, RowFits-check_rows n names_len rows h)
]

has_descent-Ascending : (rows : List Node) → has_descent rows ≡ false → Ascending rows
unfolding has_descent Ascending
has_descent-Ascending [] h = tt
has_descent-Ascending (x ∷ []) h = tt
has_descent-Ascending (x ∷ y ∷ rows) h =
    (ground (arith, h), has_descent-Ascending (y ∷ rows) (ground (arith, h)))

Ascending-has_descent : (rows : List Node) → Ascending rows → has_descent rows ≡ false
unfolding has_descent Ascending
Ascending-has_descent [] h = refl
Ascending-has_descent (x ∷ []) h = refl
Ascending-has_descent (x ∷ y ∷ rows) (le, h) =
    ground (arith, le, Ascending-has_descent (y ∷ rows) h)

check_volumes-VolumeFits :
    (n : ℕ) (volumes : List VolumeInfo) → check_volumes n volumes ≡ ok → All (VolumeFits n) volumes
unfolding check_volumes
check_volumes-VolumeFits n [] h = tt
check_volumes-VolumeFits n (v ∷ volumes) h = elim (Bool-cases (not (ltb v.root n))) [
  | inl out ↦ cc (rw out at h)
  | inr root ↦ elim (Bool-cases (ltb n v.first_node || ltb n (v.first_node + v.node_count))) [
    | inl past ↦ cc (rw past at (rw root at h))
    | inr inside ↦ (
      record { root_fits = ground (arith, root); range_fits = ground (arith, inside) },
      check_volumes-VolumeFits n volumes (rw inside at (rw root at h)),
    )
  ]
]

VolumeFits-check_volumes :
    (n : ℕ) (volumes : List VolumeInfo) → All (VolumeFits n) volumes → check_volumes n volumes ≡ ok
unfolding check_volumes
VolumeFits-check_volumes n [] h = refl
VolumeFits-check_volumes n (v ∷ volumes) (here, h) =
    ground (arith, here.root_fits, here.range_fits, VolumeFits-check_volumes n volumes h)

and_then-ok : (a b : Result) → and_then a b ≡ ok → (a ≡ ok) × (b ≡ ok)
and_then-ok ok b h = (refl, h)
and_then-ok (err e) b h = cc

-- A snapshot is accepted if and only if it holds a node, every parent is none or a row, every name lies
-- in the arena, the offsets of the names do not descend, and the root and the nodes of every volume are
-- rows.
pub validate-Usable : (ix : Index) → (validate ix ≡ ok) ↔ Usable ix
validate-Usable ix = (accepted, fit)
  where
    accepted : validate ix ≡ ok → Usable ix
    accepted =
        unfold validate in
        λ h. elim (Bool-cases (length ix.nodes == 0)) [
          | inl none_here ↦ cc (rw none_here at h)
          | inr some_here ↦
              let (rows, rest) =
                and_then-ok (check_rows (length ix.nodes) (length ix.names) ix.nodes)
                  (if has_descent ix.nodes
                    then err (corrupt "name offsets are not sorted")
                    else check_volumes (length ix.nodes) ix.volumes)
                  (rw some_here at h) in
              elim (Bool-cases (has_descent ix.nodes)) [
                | inl falls ↦ cc (rw falls at rest)
                | inr rises ↦ record {
                  some_node = ground (arith, some_here);
                  rows_fit = check_rows-RowFits (length ix.nodes) (length ix.names) ix.nodes rows;
                  ascending = has_descent-Ascending ix.nodes rises;
                  volumes_fit =
                      check_volumes-VolumeFits (length ix.nodes) ix.volumes (rw rises at rest);
                }
              ]
        ]

    fit : Usable ix → validate ix ≡ ok
    fit =
        unfold validate in
        λ u.
          let some_here : (length ix.nodes == 0) ≡ false = ground (arith, u.some_node) in
          let rows = RowFits-check_rows (length ix.nodes) (length ix.names) ix.nodes u.rows_fit in
          let rises = Ascending-has_descent ix.nodes u.ascending in
          rw some_here
            (rw (rows, rises) (VolumeFits-check_volumes (length ix.nodes) ix.volumes u.volumes_fit))
