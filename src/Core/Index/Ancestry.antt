-- ===== src/Core/Index/Ancestry.antt =====
-- `is_under` against the relation that it decides.
use batuta.Base.{ℕ, zero, suc, ◌+◌, ◌<◌, ◌≤◌, ◌≡◌, ◌≢◌, ◌↔◌, inl, inr, refl, arith}
use batuta.Base.{true, false, ◌||◌, some, ◌==◌, Bool-cases, Option-cases}
use batuta.Core.Index.{Index, Node, no_node, node_at, climb, is_under}

-- `n` steps up from `cur` to `ancestor`, none of them from a root.
pub data Under (ix : Index) (ancestor : ℕ) : ℕ → ℕ → Type 0 where
  reached : (cur : ℕ) → cur ≡ ancestor → Under ix ancestor 0 cur
  above :
      (n cur : ℕ) (row : Node)
      → node_at ix cur ≡ some row
      → row.parent ≢ cur
      → row.parent ≢ no_node
      → Under ix ancestor n row.parent
      → Under ix ancestor (n + 1) cur

climb-Under :
    (left : ℕ) (ix : Index) (cur ancestor : ℕ)
    → climb left ix cur ancestor ≡ some true
    → (n : ℕ) × (n < left) × Under ix ancestor n cur
unfolding climb
climb-Under zero ix cur ancestor h = cc
climb-Under (suc left) ix cur ancestor h = elim (Bool-cases (cur == ancestor)) [
  | inl same ↦ (0, omega arith, reached cur (ground arith))
  | inr other ↦ elim (Option-cases (node_at ix cur)) [
    | inl none_there ↦ absurd (cc (rw (other, none_there) at h))
    | inr (row, e) ↦ elim (Bool-cases (row.parent == cur || row.parent == no_node)) [
      | inl stop ↦ absurd (cc (rw (other, e, stop) at h))
      | inr go ↦
          let (n, lt, u) = climb-Under left ix row.parent ancestor (rw (other, e, go) at h) in
          (n + 1, omega (arith, lt), above n cur row e (ground arith) (ground arith) u)
    ]
  ]
]

Under-climb :
    (left n : ℕ) (ix : Index) (cur ancestor : ℕ)
    → Under ix ancestor n cur
    → n < left
    → climb left ix cur ancestor ≡ some true
unfolding climb
Under-climb zero n ix cur ancestor u h = absurd (omega arith)
Under-climb (suc left) n ix cur ancestor (reached _ e) h =
    let same : (cur == ancestor) ≡ true = ground arith in rw (same, climb) refl
Under-climb (suc left) n ix cur ancestor (above k _ row e p q u) h =
    elim (Bool-cases (cur == ancestor)) [
      | inl same ↦ rw (same, climb) refl
      | inr other ↦
          let go : (row.parent == cur || row.parent == no_node) ≡ false = ground arith in
          rw (other, e, go, climb) (Under-climb left k ix row.parent ancestor u (omega arith))
    ]

-- `is_under` answers yes exactly if the ancestor is the node itself or at most 512 parents above
-- it, with no root passed on the way.
pub is_under-Under :
    (ix : Index) (node ancestor : ℕ)
    → (is_under ix node ancestor ≡ some true) ↔ ((n : ℕ) × (n ≤ 512) × Under ix ancestor n node)
unfolding is_under
is_under-Under ix node ancestor = (
  λ h. let (n, lt, u) = climb-Under 513 ix node ancestor h in (n, omega (arith, lt), u),
  λ (n, le, u). Under-climb 513 n ix node ancestor u (omega (arith, le)),
)
