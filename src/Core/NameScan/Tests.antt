-- ===== src/Core/NameScan/Tests.antt =====
-- Runs of the globs and of the scan for names, a byte search as memchr documents it, and the theorems
-- at a small volume.
use batuta.Base.{
  ℕ, zero, suc, ◌^◌, ◌<◌, subst, ◌≡◌, refl, arith, Bool, true, false, ◌||◌, Option, none, some,
  List, [], ◌∷◌, Bool-cases, inl, inr,
}
use batuta.Base.{◌+◌, ◌-◌, ◌&&◌, length, get_elem?, ◌==◌, if◌then◌else◌}
use batuta.Base.{ap}
use batuta.Core.Names.{range, is_utf8}
use batuta.Core.Index.{has, name_overridden, Index, Node, node_at}
use batuta.Core.Matching.{glob_match, same_byte}
use batuta.Core.Matching.Globs.{matches}
use batuta.Core.Matching.Loop.{glob_match-matches}
use batuta.Core.Scan.{Memchr}
use batuta.Core.Scan.Finding.{IsFirst, absent, found, MemchrLaws, in_list}
use batuta.Core.NameScan.{scan_names}
use batuta.Core.NameScan.Owners.{Named}
use batuta.Core.NameScan.Exact.{Searchable, Scanned, scan_names-Scanned}

-- "*.rs"
abbrev rust_files : List ℕ
rust_files = b'*' ∷ b'.' ∷ b'r' ∷ b's' ∷ []

-- "a.rs.RS"
abbrev twice : List ℕ
twice = b'a' ∷ b'.' ∷ b'r' ∷ b's' ∷ b'.' ∷ b'R' ∷ b'S' ∷ []

glob_twice : glob_match rust_files twice true ≡ some true
unfolding glob_match
glob_twice = refl

glob_case : glob_match rust_files twice false ≡ some false
unfolding glob_match
glob_case = refl

-- A literal star in a name is taken for the pattern's own.
glob_star_name : glob_match (b'*' ∷ []) (b'*' ∷ b'a' ∷ []) true ≡ some false
unfolding glob_match
glob_star_name = refl

glob_match-matches_example :
    glob_match rust_files twice true ≡ some (matches (same_byte true) rust_files twice)
glob_match-matches_example =
    glob_match-matches rust_files twice true
      (refl, (refl, (refl, (refl, (refl, (refl, (refl, tt)))))))

abbrev first_at : (ℕ → Bool) → List ℕ → Option ℕ
first_at test [] = none
first_at test (x ∷ xs) =
    if test x then some 0 else elim (first_at test xs) [ none ↦ none | some i ↦ some (suc i) ]

module _ (test : ℕ → Bool) where
  some_eq : (a b : ℕ) → some a ≡ some b → a ≡ b
  some_eq a b h = cc

  one_further :
      (x : ℕ) (xs : List ℕ) (o : Option ℕ)
      → test x ≡ false
      → IsFirst test xs o
      → IsFirst test (x ∷ xs) (elim o [ none ↦ none | some i ↦ some (suc i) ])
  one_further x xs none miss (absent nowhere) = absent further
    where
      further : (i b : ℕ) → get_elem? (x ∷ xs) i ≡ some b → test b ≡ false
      further zero b at = rw (some_eq x b at) at miss
      further (suc i) b at = nowhere i b at
  one_further x xs (some i) miss (found _ before) = found (suc i) further
    where
      further : (j b : ℕ) → j < suc i → get_elem? (x ∷ xs) j ≡ some b → test b ≡ false
      further zero b lt at = rw (some_eq x b at) at miss
      further (suc j) b lt at = before j b (omega arith) at

  first_at-IsFirst : (hay : List ℕ) → IsFirst test hay (first_at test hay)
  first_at-IsFirst [] = absent λ i b at. cc
  first_at-IsFirst (x ∷ xs) = elim (Bool-cases (test x)) [
    | inl hit ↦ rw hit (found 0 λ j b lt at. absurd (omega arith))
    | inr miss ↦ rw miss (one_further x xs (first_at test xs) miss (first_at-IsFirst xs))
  ]

abbrev starts_with : List ℕ → List ℕ → Bool
starts_with hay [] = true
starts_with [] (y ∷ ys) = false
starts_with (x ∷ xs) (y ∷ ys) = x == y && starts_with xs ys

-- Matches that do not overlap: after one, the next starts `skip` bytes on.
abbrev apart_from : List ℕ → ℕ → ℕ → List ℕ → List ℕ
apart_from needle p skip [] = []
apart_from needle p (suc skip) (x ∷ xs) = apart_from needle (p + 1) skip xs
apart_from needle p zero (x ∷ xs) =
    let hit = starts_with (x ∷ xs) needle in
    let skip = (if hit then length needle - 1 else 0) in
    let later = apart_from needle (p + 1) skip xs in if hit then p ∷ later else later

abbrev bytewise : Memchr
bytewise = record {
  memchr = λ a hay. first_at (λ b. b == a) hay;
  memchr2 = λ a c hay. first_at (λ b. b == a || b == c) hay;
  find_iter = λ hay needle. apart_from needle 0 0 hay;
}

bytewise-MemchrLaws : MemchrLaws bytewise
bytewise-MemchrLaws = record {
  first_of = λ a hay. first_at-IsFirst (λ b. b == a) hay;
  first_of_two = λ a c hay. first_at-IsFirst (λ b. b == a || b == c) hay;
}

abbrev row_of : ℕ → ℕ → ℕ → Node
row_of off len flags = record {
  parent = 0;
  name_off = off;
  name_len = len;
  flags = flags;
  size = 0;
  alloc = 0;
  mtime = 0;
  sequence = 0;
  subtree_files = 0;
  depth = 0;
}

-- The names ".", "ab" and "ba"; the last is renamed to "Ba.".
abbrev three : Index
three = record {
  volumes = [];
  nodes = row_of 0 1 1 ∷ row_of 1 2 0 ∷ row_of 3 2 (2 ^ 14) ∷ [];
  names = b'.' ∷ b'a' ∷ b'b' ∷ b'b' ∷ b'a' ∷ [];
  overrides = record { arena = b'B' ∷ b'a' ∷ b'.' ∷ []; by_node = (2, 0, 3) ∷ [] };
  generation = 0;
  rec_to_node = [];
}

-- "bb" stands only across two names.
scan_across : scan_names bytewise 4 three (b'b' ∷ b'b' ∷ []) false ≡ some []
unfolding scan_names range is_utf8
scan_across = refl

scan_dot : scan_names bytewise 4 three (b'.' ∷ []) false ≡ some (0 ∷ 2 ∷ [])
unfolding scan_names range is_utf8
scan_dot = refl

-- The names "a" and "aa".
abbrev neighbours : Index
neighbours = record three {
  nodes = row_of 0 1 0 ∷ row_of 1 2 0 ∷ [];
  names = b'a' ∷ b'a' ∷ b'a' ∷ [];
  overrides = record { arena = []; by_node = [] };
}

-- With regard to case the second name is missed, since a match across the names hides its own.
scan_hidden : scan_names bytewise 4 neighbours (b'a' ∷ b'a' ∷ []) true ≡ some []
unfolding scan_names range is_utf8
scan_hidden = refl

scan_shown : scan_names bytewise 4 neighbours (b'a' ∷ b'a' ∷ []) false ≡ some (1 ∷ [])
unfolding scan_names range is_utf8
scan_shown = refl

node_eq : (a b : Node) → some a ≡ some b → a ≡ b
node_eq a b h = cc

abbrev IsFlagged : ℕ → Node → Type 0
IsFlagged k row = has row.flags name_overridden ≡ in_list k (2 ∷ [])

three_flags : (k : ℕ) (row : Node) → node_at three k ≡ some row → IsFlagged k row
unfolding node_at
three_flags zero row at = subst (IsFlagged 0) (node_eq (row_of 0 1 1) row at) refl
three_flags (suc zero) row at = subst (IsFlagged 1) (node_eq (row_of 1 2 0) row at) refl
three_flags (suc (suc zero)) row at =
    subst (IsFlagged 2) (node_eq (row_of 3 2 (2 ^ 14)) row at) refl
three_flags (suc (suc (suc k))) row at = cc

three_rows : (k : ℕ) → in_list k (2 ∷ []) ≡ true → (row : Node) × (node_at three k ≡ some row)
unfolding node_at
three_rows k h = (row_of 3 2 (2 ^ 14), ap (get_elem? three.nodes) two)
  where
    two : k ≡ 2
    two = ground (arith, h)

three-Searchable : Searchable three
unfolding Named
three-Searchable = record {
  tiled = (refl, (refl, (refl, refl)));
  named = (omega arith, (omega arith, (omega arith, tt)));
  small = omega arith;
  few = omega arith;
  flagged = three_flags;
  rows = three_rows;
}

scan_names-Scanned_example : Scanned bytewise bytewise-MemchrLaws three b'B' [] 4
scan_names-Scanned_example =
    scan_names-Scanned bytewise bytewise-MemchrLaws three b'B' [] 4 three-Searchable (omega arith)
