-- ===== src/Core/NameScan.antt =====
-- crates/batuta-core/src/search.rs, the scan for names: which node's name holds a match, and the nodes
-- whose current name contains a needle. `none` is a panic.
pub mod Owners
pub mod Kept
pub mod Exact
mod Tests
use batuta.Base.{ℕ, zero, suc, ◌+◌, ◌-◌, ◌^◌, ◌%◌, Bool, true, false, not, ◌&&◌, ◌||◌}
use batuta.Base.{Option, none, some, List, [], ◌∷◌, ◌++◌}
use batuta.Base.{length, get_elem?, ltb, leb, ◌==◌, if◌then◌else◌}
use batuta.Base.Fallible.{◌>>=◌}
use batuta.Core.Names
use batuta.Core.Index.{Index, Node, node_at, has, name_overridden, override_of}
use batuta.Core.Scan.{Memchr, contains_ascii_ci, is_empty, scan_positions, chunk_of}

-- `binary_search` on the sorted offsets: how many are below `pos`.
unfoldable pub lower_bound : List Node → ℕ → ℕ
lower_bound [] pos = 0
lower_bound (x ∷ xs) pos = if ltb x.name_off pos then suc (lower_bound xs pos) else 0

-- The row at `i`, if the match lies in its name.
unfoldable pub owner_at : Index → ℕ → ℕ → ℕ → Option ℕ
unfolding node_at
owner_at ix pos needle_len i = elim (node_at ix i) [
  | none ↦ none
  | some row ↦
      if leb row.name_off pos && leb (pos + needle_len) (row.name_off + row.name_len)
      then some (i % 2 ^ 32)
      else none
]

-- Where the binary search for `target` ended: at a row with that offset (`Ok`), or between rows (`Err`).
unfoldable pub owner_near : Index → ℕ → ℕ → ℕ → ℕ → Option ℕ
unfolding node_at owner_at
owner_near ix pos needle_len target i =
    if elim (node_at ix i) [ none ↦ false | some row ↦ row.name_off == target ]
    then owner_at ix pos needle_len i
    else if i == 0
    then none
    else owner_at ix pos needle_len (i - 1)

unfoldable pub node_containing : Index → ℕ → ℕ → Option ℕ
unfolding lower_bound owner_near
node_containing ix pos needle_len =
    owner_near ix pos needle_len (pos % 2 ^ 32) (lower_bound ix.nodes (pos % 2 ^ 32))

-- `name_bytes`
unfoldable pub bytes_of : Index → ℕ → Node → List ℕ
unfolding override_of
bytes_of ix n row =
    let raw = Names.bytes ix.names row.name_off row.name_len in
    if has row.flags name_overridden
    then elim (override_of ix.overrides n) [ some s ↦ s | none ↦ raw ]
    else raw

-- `filter_map`
abbrev pub pick : (ℕ → Option ℕ) → List ℕ → List ℕ
pick f [] = []
pick f (x ∷ xs) = elim (f x) [ none ↦ pick f xs | some y ↦ y ∷ pick f xs ]

-- `retain` and `filter`, with a test that may panic.
abbrev pub retain : (ℕ → Option Bool) → List ℕ → Option (List ℕ)
retain test [] = some []
retain test (x ∷ xs) = do b ← test x; kept ← retain test xs; some (if b then x ∷ kept else kept)

-- `overrides().nodes()`
abbrev pub keys : List (ℕ × ℕ × ℕ) → List ℕ
keys [] = []
keys ((k, off, len) ∷ rest) = k ∷ keys rest

abbrev pub insert : ℕ → List ℕ → List ℕ
insert x [] = x ∷ []
insert x (y ∷ ys) = if leb x y then x ∷ y ∷ ys else y ∷ insert x ys

-- `sort_unstable` on numbers, which no two sorts order differently.
abbrev pub sort_unstable : List ℕ → List ℕ
sort_unstable [] = []
sort_unstable (x ∷ xs) = insert x (sort_unstable xs)

-- `dedup`: of equal neighbours, one.
abbrev pub dedup : List ℕ → List ℕ
dedup [] = []
dedup (x ∷ xs) = elim (dedup xs) [ [] ↦ x ∷ [] | y ∷ ys ↦ if x == y then y ∷ ys else x ∷ y ∷ ys ]

unfoldable pub has_arena_name : Index → ℕ → Option Bool
unfolding node_at
has_arena_name ix n = do row ← node_at ix n; some (not (has row.flags name_overridden))

-- `name_contains`
abbrev pub name_contains : Memchr → List ℕ → List ℕ → Bool → Bool
name_contains m name needle true = not (is_empty (m.find_iter name needle))
name_contains m name needle false = contains_ascii_ci m name needle

unfoldable pub is_named_like : Memchr → Index → List ℕ → Bool → ℕ → Option Bool
unfolding node_at bytes_of contains_ascii_ci
is_named_like m ix needle case_sensitive n = do
  row ← node_at ix n
  some (name_contains m (bytes_of ix n row) needle case_sensitive)

-- `scan_names` on a pool of `threads` threads.
unfoldable pub scan_names : Memchr → ℕ → Index → List ℕ → Bool → Option (List ℕ)
unfolding scan_positions chunk_of node_containing has_arena_name is_named_like
scan_names m threads ix [] case_sensitive = some []
scan_names m threads ix (first ∷ rest) case_sensitive =
    if is_empty ix.names || ltb (length ix.names) (length (first ∷ rest)) then some [] else (do
      let found =
          scan_positions m case_sensitive ix.names first rest (chunk_of (length ix.names) threads)
      let nodes = pick (λ p. node_containing ix p (length (first ∷ rest))) found
      arena ← retain (has_arena_name ix) nodes
      renamed ←
          retain (is_named_like m ix (first ∷ rest) case_sensitive) (keys ix.overrides.by_node)
      some (dedup (sort_unstable (arena ++ renamed))))
