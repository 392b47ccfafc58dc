-- ===== src/Core/NameScan/Owners.antt =====
-- `node_containing` finds the one name that holds a match.
use batuta.Base.{
  ℕ, zero, suc, ◌+◌, ◌-◌, ◌^◌, ◌%◌, ◌≡◌, ◌<◌, ◌≤◌, refl, sym, ap, ◌∙◌, Bool, true, false, ◌&&◌,
}
use batuta.Base.{Option, none, some, List, [], ◌∷◌, arith, All, Bool-cases, inl, inr}
use batuta.Base.{length, get_elem?, leb, ◌==◌, if◌then◌else◌}
use batuta.Core.Index.{Index, Node, node_at}
use batuta.Core.Watch.Steps.{Tiles}
use batuta.Core.NameScan.{lower_bound, owner_at, owner_near, node_containing}

-- The match lies in the name of the row.
pub record Holds (row : Node) (pos n : ℕ) : Type 0 where
  pub from : row.name_off ≤ pos
  pub to : pos + n ≤ row.name_off + row.name_len

-- No name is empty.
unfoldable pub Named : List Node → Type 0
Named = All (λ (row : Node). 0 < row.name_len)

some_injective : (a b : Node) → some a ≡ some b → a ≡ b
some_injective a b h = cc

Tiles-le : (rows : List Node) (a b : ℕ) → Tiles a rows b → a ≤ b
Tiles-le [] a b t = omega (arith, t)
Tiles-le (x ∷ xs) a b t = omega (arith, Tiles-le xs (a + x.name_len) b t.1)

-- Rows that tile an arena from `a` to `b` lie between `a` and `b`.
pub Tiles-between :
    (rows : List Node) (a b k : ℕ) (row : Node)
    → Tiles a rows b
    → get_elem? rows k ≡ some row
    → (a ≤ row.name_off) × (row.name_off + row.name_len ≤ b)
Tiles-between [] a b k row t at = cc
Tiles-between (x ∷ xs) a b zero row t at =
    let same : x ≡ row = some_injective x row at in
    let end = Tiles-le xs (a + x.name_len) b t.1 in
    let here : (a ≤ x.name_off) × (x.name_off + x.name_len ≤ b) =
      (omega (arith, t.0), omega (arith, t.0, end)) in
    rw same at here
Tiles-between (x ∷ xs) a b (suc k) row t at =
    let (from, to) = Tiles-between xs (a + x.name_len) b k row t.1 at in (omega (arith, from), to)

lower_bound-above :
    (rows : List Node) (a b pos : ℕ) → Tiles a rows b → pos ≤ a → lower_bound rows pos ≡ 0
unfolding lower_bound
lower_bound-above [] a b pos t h = refl
lower_bound-above (x ∷ xs) a b pos t h = ground (arith, t.0, h)

lower_bound-row :
    (rows : List Node) (a b k pos : ℕ) (row : Node)
    → Tiles a rows b
    → Named rows
    → get_elem? rows k ≡ some row
    → row.name_off ≤ pos
    → pos < row.name_off + row.name_len
    → lower_bound rows pos ≡ (if row.name_off == pos then k else suc k)
unfolding lower_bound Named
lower_bound-row [] a b k pos row t named at from to = cc
lower_bound-row (x ∷ xs) a b zero pos row t named at from to =
    let same : x ≡ row = some_injective x row at in
    let off : row.name_off ≡ a = ap (λ (r : Node). r.name_off) (sym same) ∙ t.0 in
    let len : x.name_len ≡ row.name_len = ap (λ (r : Node). r.name_len) same in
    let rest = lower_bound-above xs (a + x.name_len) b pos t.1 (omega (arith, off, len, to)) in
    ground (arith, rest, off, t.0, from)
lower_bound-row (x ∷ xs) a b (suc k) pos row t named at from to =
    let after = (Tiles-between xs (a + x.name_len) b k row t.1 at).0 in
    let rest = lower_bound-row xs (a + x.name_len) b k pos row t.1 named.1 at from to in
    ground (arith, rest, after, named.0, t.0, from)

Tiles-next :
    (rows : List Node) (a b k : ℕ) (row after : Node)
    → Tiles a rows b
    → get_elem? rows k ≡ some row
    → get_elem? rows (suc k) ≡ some after
    → after.name_off ≡ row.name_off + row.name_len
Tiles-next [] a b k row after t at next = cc
Tiles-next (x ∷ []) a b k row after t at next = cc
Tiles-next (x ∷ y ∷ xs) a b zero row after t at next =
    let here : y.name_off ≡ x.name_off + x.name_len = omega (arith, t.0, t.1.0) in
    rw (some_injective x row at, some_injective y after next) at here
Tiles-next (x ∷ y ∷ xs) a b (suc k) row after t at next =
    Tiles-next (y ∷ xs) (a + x.name_len) b k row after t.1 at next

owner_at-row :
    (ix : Index) (k pos n : ℕ) (row : Node)
    → k < 2 ^ 32
    → node_at ix k ≡ some row
    → Holds row pos n
    → owner_at ix pos n k ≡ some k
unfolding owner_at
owner_at-row ix k pos n row few at h =
    let from : leb row.name_off pos ≡ true = ground (arith, h.from) in
    let to : leb (pos + n) (row.name_off + row.name_len) ≡ true = ground (arith, h.to) in
    let same : k % 2 ^ 32 ≡ k = omega (arith, few) in
    rw (at, owner_at) (rw (from, to) (ap some same))

-- No row but the owner starts at the match.
not_next :
    (o : Option Node) (row : Node) (pos : ℕ)
    → ((after : Node) → o ≡ some after → after.name_off ≡ row.name_off + row.name_len)
    → pos < row.name_off + row.name_len
    → elim o [ none ↦ false | some after ↦ after.name_off == pos ] ≡ false
not_next none row pos next h = refl
not_next (some after) row pos next h = ground (arith, next after refl, h)

owner_near-row :
    (ix : Index) (k pos n : ℕ) (row : Node)
    → Tiles 0 ix.nodes (length ix.names)
    → k < 2 ^ 32
    → 0 < n
    → node_at ix k ≡ some row
    → Holds row pos n
    → owner_near ix pos n pos (if row.name_off == pos then k else suc k) ≡ some k
unfolding owner_near node_at
owner_near-row ix k pos n row t few some_n at h = elim (Bool-cases (row.name_off == pos)) [
  | inl starts ↦ rw starts (rw at (rw starts (owner_at-row ix k pos n row few at h)))
  | inr inner ↦
      let alone =
        not_next (get_elem? ix.nodes (suc k)) row pos
          (λ after e. Tiles-next ix.nodes 0 (length ix.names) k row after t at e)
          (omega (arith, h.to, some_n)) in
      let back : suc k - 1 ≡ k = omega arith in
      let later : (suc k == 0) ≡ false = ground arith in
      rw inner (rw alone (rw back (rw later (owner_at-row ix k pos n row few at h))))
]

-- The row is found from any match in its name.
pub node_containing-owner :
    (ix : Index) (k pos n : ℕ) (row : Node)
    → Tiles 0 ix.nodes (length ix.names)
    → Named ix.nodes
    → length ix.names < 2 ^ 32
    → k < 2 ^ 32
    → 0 < n
    → node_at ix k ≡ some row
    → Holds row pos n
    → node_containing ix pos n ≡ some k
unfolding node_containing node_at
node_containing-owner ix k pos n row t named small few some_n at h =
    let inside : row.name_off + row.name_len ≤ length ix.names =
      (Tiles-between ix.nodes 0 _ k row t at).1 in
    let whole : pos % 2 ^ 32 ≡ pos = omega (arith, h.to, inside, small, some_n) in
    ap (λ target. owner_near ix pos n target (lower_bound ix.nodes target)) whole
    ∙ ap (owner_near ix pos n pos) (
        lower_bound-row ix.nodes 0 (length ix.names) k pos row t named at h.from
          (omega (arith, h.to, some_n)))
    ∙ owner_near-row ix k pos n row t few some_n at h

number_injective : (a b : ℕ) → some a ≡ some b → a ≡ b
number_injective a b h = cc

-- A row that is found holds the match.
owner_of :
    (ix : Index) (i pos n k : ℕ) (o : Option Node)
    → node_at ix i ≡ o
    → i < 2 ^ 32
    → elim o [
      | none ↦ none
      | some row ↦
          if leb row.name_off pos && leb (pos + n) (row.name_off + row.name_len)
          then some (i % 2 ^ 32)
          else none
    ]
      ≡ some k
    → (row : Node) × (node_at ix k ≡ some row) × Holds row pos n
owner_of ix i pos n k none at small h = cc
owner_of ix i pos n k (some row) at small h =
    elim (Bool-cases (leb row.name_off pos && leb (pos + n) (row.name_off + row.name_len))) [
      | inl within ↦
          let same : i ≡ k = omega (arith, small, number_injective _ _ (rw within at h)) in
          (
            row,
            ap (node_at ix) (sym same) ∙ at,
            record { from = ground (arith, within); to = ground (arith, within) },
          )
      | inr out ↦ cc (rw out at h)
    ]

owner_at-Holds :
    (ix : Index) (i pos n k : ℕ)
    → i < 2 ^ 32
    → owner_at ix pos n i ≡ some k
    → (row : Node) × (node_at ix k ≡ some row) × Holds row pos n
unfolding owner_at
owner_at-Holds ix i pos n k small h = owner_of ix i pos n k (node_at ix i) refl small h

near-Holds :
    (ix : Index) (i pos n k : ℕ) (b : Bool)
    → i < 2 ^ 32
    → (if b then owner_at ix pos n i else if i == 0 then none else owner_at ix pos n (i - 1))
      ≡ some k
    → (row : Node) × (node_at ix k ≡ some row) × Holds row pos n
near-Holds ix i pos n k true small h = owner_at-Holds ix i pos n k small h
near-Holds ix i pos n k false small h = elim (Bool-cases (i == 0)) [
  | inl start ↦ cc (rw start at h)
  | inr after ↦ owner_at-Holds ix (i - 1) pos n k (omega (arith, small)) (rw after at h)
]

lower_bound-le : (rows : List Node) (pos : ℕ) → lower_bound rows pos ≤ length rows
unfolding lower_bound
lower_bound-le [] pos = omega arith
lower_bound-le (x ∷ xs) pos = ground (arith, lower_bound-le xs pos)

pub node_containing-Holds :
    (ix : Index) (pos n k : ℕ)
    → length ix.nodes < 2 ^ 32
    → node_containing ix pos n ≡ some k
    → (row : Node) × (node_at ix k ≡ some row) × Holds row pos n
unfolding node_containing owner_near
node_containing-Holds ix pos n k small h =
    near-Holds ix (lower_bound ix.nodes (pos % 2 ^ 32)) pos n k _
      (omega (arith, small, lower_bound-le ix.nodes (pos % 2 ^ 32))) h
