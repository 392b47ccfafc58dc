-- ===== src/Core/NameScan/Exact.antt =====
-- The scan for names finds exactly the nodes whose current name contains the needle.
use batuta.Base.{
  ℕ, zero, suc, ◌+◌, ◌-◌, ◌^◌, ◌≡◌, ◌<◌, ◌≤◌, refl, sym, ap, ◌∙◌, Bool, true, false, not, ◌||◌, ◌⊎◌,
}
use batuta.Base.{Option, some, List, [], ◌∷◌, ◌++◌, arith, Bool-cases, inl, inr}
use batuta.Base.{get_elem?, length, take, drop, ltb}
use batuta.Core.Names.{bytes, or_empty}
use batuta.Core.Names.Laws.{range_in}
use batuta.Core.Index.{Index, Node, node_at, has, name_overridden}
use batuta.Core.Watch.Steps.{IsTiled}
use batuta.Core.Scan.{Memchr, is_empty, contains_ascii_ci, scan_positions, chunk_of}
use batuta.Core.Scan.Finding.{MemchrLaws, occurs, in_list}
use batuta.Core.Scan.Containing.{Contains, occurs-Contains, Contains-occurs}
use batuta.Core.Scan.Chunks.{in_window, scan_positions-occurs}
use batuta.Core.NameScan.{
  bytes_of, pick, keys, sort_unstable, dedup, node_containing, has_arena_name, is_named_like,
  scan_names,
}
use batuta.Core.NameScan.Owners.{
  Holds, Named, Tiles-between, node_containing-owner, node_containing-Holds,
}
use batuta.Core.NameScan.Kept.{
  in_list-arranged, in_list-append, picked, picked-from, Kept, retain-Kept, contains-occurs,
  occurs-contains,
}

-- An index that a scan can rely on: the names tile the arena, none is empty, offsets and node ids fit
-- in 32 bits, and exactly the nodes that are flagged as renamed have another name.
pub record Searchable (ix : Index) : Type 0 where
  pub tiled : IsTiled ix
  pub named : Named ix.nodes
  pub small : length ix.names < 2 ^ 32
  pub few : length ix.nodes < 2 ^ 32
  pub flagged :
      (k : ℕ) (row : Node)
      → node_at ix k ≡ some row
      → has row.flags name_overridden ≡ in_list k (keys ix.overrides.by_node)
  pub rows :
      (k : ℕ)
      → in_list k (keys ix.overrides.by_node) ≡ true
      → (row : Node) × (node_at ix k ≡ some row)

not-true : (b : Bool) → some (not b) ≡ some true → b ≡ false
not-true true h = cc
not-true false h = refl

some-true : (b : Bool) → some b ≡ some true → b ≡ true
some-true true h = refl
some-true false h = cc

or_cases : (a b : Bool) → (a || b) ≡ true → (a ≡ true) ⊎ (b ≡ true)
or_cases true b h = inl refl
or_cases false b h = inr h

no_exit :
    (names : List ℕ) (n : ℕ)
    → 0 < n
    → n ≤ length names
    → (is_empty names || ltb (length names) n) ≡ false
no_exit [] n some_n fits = absurd (omega arith)
no_exit (x ∷ names) n some_n fits = ground (arith, fits)

or_left : (a b : Bool) → a ≡ true → (a || b) ≡ true
or_left a b h = ground arith

or_right : (a b : Bool) → b ≡ true → (a || b) ≡ true
or_right a b h = ground arith

get_elem?-lt :
    (rows : List Node) (k : ℕ) (row : Node) → get_elem? rows k ≡ some row → k < length rows
get_elem?-lt [] k row h = cc
get_elem?-lt (x ∷ xs) zero row h = omega arith
get_elem?-lt (x ∷ xs) (suc k) row h = omega (arith, get_elem?-lt xs k row h)

-- The node's current name contains the needle, in any case.
pub record NamedLike (ix : Index) (needle : List ℕ) (k : ℕ) : Type 0 where
  pub row : Node
  pub at : node_at ix k ≡ some row
  pub contains : Contains (bytes_of ix k row) needle

module _ (m : Memchr) (laws : MemchrLaws m) (ix : Index) (first : ℕ) (rest : List ℕ) where
  -- The search finds the needle in the node's current name.
  record Hit (k : ℕ) : Type 0 where
    row : Node
    at : node_at ix k ≡ some row
    contains : contains_ascii_ci m (bytes_of ix k row) (first ∷ rest) ≡ true

  row_id : (k : ℕ) (row : Node) → Searchable ix → node_at ix k ≡ some row → k < 2 ^ 32
  unfolding node_at
  row_id k row s at = omega (arith, s.few, get_elem?-lt ix.nodes k row at)

  arena_name :
      (k : ℕ) (row : Node)
      → Searchable ix
      → node_at ix k ≡ some row
      → has row.flags name_overridden ≡ false
      → bytes_of ix k row ≡ take row.name_len (drop row.name_off ix.names)
  unfolding bytes_of bytes node_at
  arena_name k row s at plain = rw plain (
      ap or_empty (
        range_in ix.names row.name_off row.name_len
          (Tiles-between ix.nodes 0 _ k row s.tiled at).1))

  -- A match that lies in a name is one of the name's own.
  within :
      (k p : ℕ) (row : Node)
      → Searchable ix
      → node_at ix k ≡ some row
      → Holds row p (length (first ∷ rest))
      → occurs ix.names (first ∷ rest) p ≡ true
      → contains_ascii_ci m (take row.name_len (drop row.name_off ix.names)) (first ∷ rest) ≡ true
  unfolding node_at
  within k p row s at h stands =
      occurs-contains m laws (take row.name_len (drop row.name_off ix.names)) first rest
        (p - row.name_off)
        (in_window m laws ix.names first rest 0 row.name_off row.name_len p h.from
            (Tiles-between ix.nodes 0 _ k row s.tiled at).1
          ∙ ground (arith, h.to, stands))

  -- A match of a name is one of the arena, and lies in the name.
  without :
      (k : ℕ) (row : Node)
      → Searchable ix
      → node_at ix k ≡ some row
      → contains_ascii_ci m (take row.name_len (drop row.name_off ix.names)) (first ∷ rest) ≡ true
      → (p : ℕ) × (occurs ix.names (first ∷ rest) p ≡ true) × Holds row p (length (first ∷ rest))
  unfolding node_at
  without k row s at h =
      let (q, stands) =
        contains-occurs m laws (take row.name_len (drop row.name_off ix.names)) first rest h in
      let p : ℕ = row.name_off + q in
      let back : p - row.name_off ≡ q = omega arith in
      let shown =
        sym (
          in_window m laws ix.names first rest 0 row.name_off row.name_len p (omega arith)
            (Tiles-between ix.nodes 0 _ k row s.tiled at).1)
        ∙ ap (occurs (take row.name_len (drop row.name_off ix.names)) (first ∷ rest)) back
        ∙ stands in
      (p, ground (arith, shown), record { from = omega arith; to = ground (arith, shown) })

  flag_of :
      (k : ℕ) (row : Node)
      → node_at ix k ≡ some row
      → has_arena_name ix k ≡ some (not (has row.flags name_overridden))
  unfolding has_arena_name
  flag_of k row at = rw at refl

  like_of :
      (k : ℕ) (row : Node)
      → node_at ix k ≡ some row
      → is_named_like m ix (first ∷ rest) false k
        ≡ some (contains_ascii_ci m (bytes_of ix k row) (first ∷ rest))
  unfolding is_named_like
  like_of k row at = rw at refl

  abbrev owner : ℕ → Option ℕ
  owner p = node_containing ix p (length (first ∷ rest))

  abbrev positions : ℕ → List ℕ
  positions threads =
      scan_positions m false ix.names first rest (chunk_of (length ix.names) threads)

  at_position : (threads p : ℕ) → in_list p (positions threads) ≡ occurs ix.names (first ∷ rest) p
  at_position threads p =
      scan_positions-occurs m laws ix.names first rest (chunk_of (length ix.names) threads)
        some_chunk p
    where
      some_chunk : 0 < chunk_of (length ix.names) threads
      some_chunk = unfold chunk_of in omega arith

  -- The nodes with a match in their name in the arena.
  in_arena :
      (threads : ℕ)
      → Searchable ix
      → (out : List ℕ) × Kept (has_arena_name ix) (pick owner (positions threads)) out
  in_arena threads s = retain-Kept _ _ λ k h.
      let (p, listed, found) = picked-from owner k (positions threads) h in
      let (row, at, holds) = node_containing-Holds ix p (length (first ∷ rest)) k s.few found in
      (not (has row.flags name_overridden), flag_of k row at)

  in_overrides :
      Searchable ix
      → (out : List ℕ) × Kept
          (is_named_like m ix (first ∷ rest) false)
          (keys ix.overrides.by_node)
          out
  in_overrides s = retain-Kept _ _ λ k h.
      let (row, at) = s.rows k h in
      (contains_ascii_ci m (bytes_of ix k row) (first ∷ rest), like_of k row at)

  module _ (threads : ℕ) (s : Searchable ix) (arena renamed : List ℕ) where
    sound_arena :
        Kept (has_arena_name ix) (pick owner (positions threads)) arena
        → (k : ℕ) → in_list k arena ≡ true
        → Hit k
    sound_arena kept k h =
        let (listed, plain) = kept.kept_from k h in
        let (p, seen, found) = picked-from owner k (positions threads) listed in
        let (row, at, holds) = node_containing-Holds ix p (length (first ∷ rest)) k s.few found in
        let unflagged : has row.flags name_overridden ≡ false =
          not-true _ (sym (flag_of k row at) ∙ plain) in
        record {
          row = row;
          at = at;
          contains =
              ap (λ name. contains_ascii_ci m name (first ∷ rest)) (arena_name k row s at unflagged)
              ∙ within k p row s at holds (sym (at_position threads p) ∙ seen);
        }

    sound_renamed :
        Kept (is_named_like m ix (first ∷ rest) false) (keys ix.overrides.by_node) renamed
        → (k : ℕ) → in_list k renamed ≡ true
        → Hit k
    sound_renamed kept k h =
        let (listed, like) = kept.kept_from k h in
        let (row, at) = s.rows k listed in
        record { row = row; at = at; contains = some-true _ (sym (like_of k row at) ∙ like) }

    complete :
        Kept (has_arena_name ix) (pick owner (positions threads)) arena
        → Kept (is_named_like m ix (first ∷ rest) false) (keys ix.overrides.by_node) renamed
        → (k : ℕ) → Hit k
        → (in_list k arena || in_list k renamed) ≡ true
    complete kept_arena kept_renamed k h = elim (Bool-cases (has h.row.flags name_overridden)) [
      | inl flagged ↦
          let listed = sym (s.flagged k h.row h.at) ∙ flagged in
          let there = kept_renamed.keeps k listed (like_of k h.row h.at ∙ ap some h.contains) in
          or_right (in_list k arena) (in_list k renamed) there
      | inr plain ↦
          let own =
            sym (
              ap (λ name. contains_ascii_ci m name (first ∷ rest))
                (arena_name k h.row s h.at plain))
            ∙ h.contains in
          let (p, stands, holds) = without k h.row s h.at own in
          let found =
            node_containing-owner ix k p (length (first ∷ rest)) h.row s.tiled s.named s.small
              (row_id k h.row s h.at) (omega arith) h.at holds in
          let listed =
            picked owner p k (positions threads) (at_position threads p ∙ stands) found in
          let there =
            kept_arena.keeps k listed (flag_of k h.row h.at ∙ ap (λ b. some (not b)) plain) in
          or_left (in_list k arena) (in_list k renamed) there
    ]

  Hit-NamedLike : (k : ℕ) → Hit k → NamedLike ix (first ∷ rest) k
  Hit-NamedLike k h =
      let (p, stands) = contains-occurs m laws (bytes_of ix k h.row) first rest h.contains in
      record {
        row = h.row;
        at = h.at;
        contains = occurs-Contains (bytes_of ix k h.row) (first ∷ rest) p stands;
      }

  NamedLike-Hit : (k : ℕ) → NamedLike ix (first ∷ rest) k → Hit k
  NamedLike-Hit k h =
      let (p, stands) = Contains-occurs (bytes_of ix k h.row) (first ∷ rest) h.contains in
      record {
        row = h.row;
        at = h.at;
        contains = occurs-contains m laws (bytes_of ix k h.row) first rest p stands;
      }

  -- What the scan gives back.
  pub record Scanned (threads : ℕ) : Type 0 where
    pub nodes : List ℕ
    pub done : scan_names m threads ix (first ∷ rest) false ≡ some nodes
    pub sound : (k : ℕ) → in_list k nodes ≡ true → NamedLike ix (first ∷ rest) k
    pub complete : (k : ℕ) → NamedLike ix (first ∷ rest) k → in_list k nodes ≡ true

  -- On an index that can be scanned, where the byte search of the crate memchr keeps to its documentation
  -- and a needle of one byte or more is no longer than the arena, a scan for names without regard to ASCII
  -- case never panics, and the nodes it gives are exactly those in whose current name, an override included,
  -- the letters of the needle stand one after the other, each in either case, on any number of threads.
  pub scan_names-Scanned :
      (threads : ℕ) → Searchable ix → length (first ∷ rest) ≤ length ix.names → Scanned threads
  unfolding scan_names
  scan_names-Scanned threads s fits =
      let (arena, kept_arena) = in_arena threads s in
      let (renamed, kept_renamed) = in_overrides s in
      let out : List ℕ = dedup (sort_unstable (arena ++ renamed)) in
      let listed : (k : ℕ) → in_list k out ≡ (in_list k arena || in_list k renamed) =
        λ k. in_list-arranged k (arena ++ renamed) ∙ in_list-append k arena renamed in
      record {
        nodes = out;
        done = rw (guard fits) (rw (kept_arena.done, kept_renamed.done) refl);
        sound = λ k h. elim (or_cases _ _ (sym (listed k) ∙ h)) [
          | inl there ↦ Hit-NamedLike k (sound_arena threads s arena renamed kept_arena k there)
          | inr there ↦ Hit-NamedLike k (sound_renamed threads s arena renamed kept_renamed k there)
        ];
        complete = λ k h.
            listed k
            ∙ complete threads s arena renamed kept_arena kept_renamed k (NamedLike-Hit k h);
      }
    where
      guard :
          length (first ∷ rest) ≤ length ix.names
          → (is_empty ix.names || ltb (length ix.names) (length (first ∷ rest))) ≡ false
      guard fits = no_exit ix.names (length (first ∷ rest)) (omega arith) fits
