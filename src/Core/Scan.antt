-- ===== src/Core/Scan.antt =====
-- crates/batuta-core/src/search.rs, its scan of the name arena: where a needle occurs, chunk by chunk. The
-- byte search of the crate memchr is a parameter.
pub mod Finding
pub mod Chunks
pub mod Containing
use batuta.Base.{
  ℕ, zero, suc, ◌+◌, ◌-◌, ◌/◌, ◌^◌, ◌%◌, ◌≡◌, ◌<◌, ◌≤◌, min, max, Bool, true, false, not, ◌&&◌,
  ◌||◌,
}
use batuta.Base.{Option, none, some, List, [], ◌∷◌, ◌++◌}
use batuta.Base.{length, get_elem?, take, drop, ltb, leb, ◌==◌, if◌then◌else◌}
use batuta.Core.Matching.{to_ascii_lowercase, eq_ignore_case}

-- `memchr::memchr`, `memchr::memchr2` and `memmem::find_iter`, whose first item `memmem::find` gives
pub record Memchr : Type 0 where
  pub memchr : ℕ → List ℕ → Option ℕ
  pub memchr2 : ℕ → ℕ → List ℕ → Option ℕ
  pub find_iter : List ℕ → List ℕ → List ℕ

-- `u8::to_ascii_uppercase`
unfoldable pub to_ascii_uppercase : ℕ → ℕ
to_ascii_uppercase b = if leb b'a' b && leb b b'z' then b - 32 else b

-- `<[u8]>::eq_ignore_ascii_case`
unfoldable pub eq_bytes : List ℕ → List ℕ → Bool
unfolding eq_ignore_case
eq_bytes [] [] = true
eq_bytes [] (y ∷ ys) = false
eq_bytes (x ∷ xs) [] = false
eq_bytes (x ∷ xs) (y ∷ ys) = eq_ignore_case x y && eq_bytes xs ys

-- The prefilter on the first byte of the needle.
unfoldable pub seek : Memchr → ℕ → List ℕ → Option ℕ
unfolding to_ascii_lowercase to_ascii_uppercase
seek m first hay =
    let lo = to_ascii_lowercase first in
    let up = to_ascii_uppercase first in if lo == up then m.memchr lo hay else m.memchr2 lo up hay

-- The items of the iterator from `pos` on, for the needle `first ∷ rest`.
unfoldable pub find_from : ℕ → Memchr → List ℕ → ℕ → List ℕ → ℕ → List ℕ
unfolding seek eq_bytes
find_from zero m hay first rest pos = []
find_from (suc rounds) m hay first rest pos =
    let n = length (first ∷ rest) in
    if ltb (length hay) (pos + n) then [] else elim (seek m first (drop pos hay)) [
      | none ↦ []
      | some rel ↦
          let cand = pos + rel in
          let later = find_from rounds m hay first rest (cand + 1) in
          if ltb (length hay) (cand + n)
          then []
          else if eq_bytes (take n (drop cand hay)) (first ∷ rest)
          then cand ∷ later
          else later
    ]

unfoldable pub find_iter_ascii_ci : Memchr → List ℕ → ℕ → List ℕ → List ℕ
unfolding find_from
find_iter_ascii_ci m hay first rest = find_from (length hay + 1) m hay first rest 0

abbrev pub is_empty : List ℕ → Bool
is_empty [] = true
is_empty (x ∷ xs) = false

unfoldable pub contains_ascii_ci : Memchr → List ℕ → List ℕ → Bool
unfolding find_iter_ascii_ci
contains_ascii_ci m hay [] = true
contains_ascii_ci m hay (first ∷ rest) =
    if ltb (length hay) (length (first ∷ rest))
    then false
    else not (is_empty (find_iter_ascii_ci m hay first rest))

abbrev pub keep : (ℕ → Bool) → List ℕ → List ℕ
keep test [] = []
keep test (x ∷ xs) = if test x then x ∷ keep test xs else keep test xs

abbrev pub shift : ℕ → List ℕ → List ℕ
shift start [] = []
shift start (x ∷ xs) = (start + x) ∷ shift start xs

-- `(0..len).step_by(chunk)` from `start` on.
unfoldable pub starts : ℕ → ℕ → ℕ → ℕ → List ℕ
starts zero chunk len start = []
starts (suc rounds) chunk len start =
    if ltb start len then start ∷ starts rounds chunk len (start + chunk) else []

-- The matches in a window, with or without regard to case.
abbrev pub matches_in : Memchr → Bool → List ℕ → ℕ → List ℕ → List ℕ
matches_in m true window first rest = m.find_iter window (first ∷ rest)
matches_in m false window first rest = find_iter_ascii_ci m window first rest

-- The matches that start in one chunk.
unfoldable pub chunk_positions : Memchr → Bool → List ℕ → ℕ → List ℕ → ℕ → ℕ → List ℕ
unfolding find_iter_ascii_ci
chunk_positions m case_sensitive hay first rest chunk start =
    let end = min (start + chunk) (length hay) in
    let scan_end = min (end + length rest) (length hay) in
    let window = take (scan_end - start) (drop start hay) in
    keep (λ p. leb start p && ltb p end)
      (shift start (matches_in m case_sensitive window first rest))

abbrev pub gather : (ℕ → List ℕ) → List ℕ → List ℕ
gather f [] = []
gather f (x ∷ xs) = f x ++ gather f xs

-- The matches of all chunks, in order.
unfoldable pub scan_positions : Memchr → Bool → List ℕ → ℕ → List ℕ → ℕ → List ℕ
unfolding chunk_positions starts
scan_positions m case_sensitive hay first rest chunk =
    gather (chunk_positions m case_sensitive hay first rest chunk)
      (starts (length hay) chunk (length hay) 0)

-- `(hay.len() / threads).max(1 << 20)`
unfoldable pub chunk_of : ℕ → ℕ → ℕ
chunk_of len threads = max (len / max threads 1) (2 ^ 20)
