-- ===== src/Core/Scan/Containing.antt =====
-- What it means for a name to contain a needle without regard to ASCII case, said without a search.
use batuta.Base.{ℕ, zero, suc, ◌+◌, ◌≡◌, refl, sym, ap, ◌∙◌, true, ◌&&◌}
use batuta.Base.{List, [], ◌∷◌, ◌++◌, arith}
use batuta.Base.{
  length, take, drop, leb, if◌then◌else◌, length-append, take-append_length, drop-append_length,
}
use batuta.Core.Matching.{to_ascii_lowercase, eq_ignore_case}
use batuta.Core.Scan.{eq_bytes}
use batuta.Core.Scan.Finding.{occurs}

-- A to Z as a to z, and any other byte as it is.
abbrev pub small_letter : ℕ → ℕ
small_letter b = if leb 65 b && leb b 90 then b + 32 else b

-- The same letters, in either case.
abbrev pub Alike : List ℕ → List ℕ → Type 0
Alike [] [] = Unit {0}
Alike [] (y ∷ ys) = ⊥
Alike (x ∷ xs) [] = ⊥
Alike (x ∷ xs) (y ∷ ys) = (small_letter x ≡ small_letter y) × Alike xs ys

-- Somewhere in the name stand the letters of the needle.
pub record Contains (name needle : List ℕ) : Type 0 where
  pub front : List ℕ
  pub spelled : List ℕ
  pub back : List ℕ
  pub parts : name ≡ front ++ (spelled ++ back)
  pub alike : Alike spelled needle

eq_bytes-Alike : (xs ys : List ℕ) → eq_bytes xs ys ≡ true → Alike xs ys
unfolding eq_bytes eq_ignore_case to_ascii_lowercase
eq_bytes-Alike [] [] h = tt
eq_bytes-Alike [] (y ∷ ys) h = cc
eq_bytes-Alike (x ∷ xs) [] h = cc
eq_bytes-Alike (x ∷ xs) (y ∷ ys) h = (ground arith, eq_bytes-Alike xs ys (ground arith))

Alike-eq_bytes : (xs ys : List ℕ) → Alike xs ys → eq_bytes xs ys ≡ true
unfolding eq_bytes eq_ignore_case to_ascii_lowercase
Alike-eq_bytes [] [] h = refl
Alike-eq_bytes [] (y ∷ ys) h = elim h [ ]
Alike-eq_bytes (x ∷ xs) [] h = elim h [ ]
Alike-eq_bytes (x ∷ xs) (y ∷ ys) (here, h) = ground (arith, here, Alike-eq_bytes xs ys h)

length-Alike : (xs ys : List ℕ) → Alike xs ys → length xs ≡ length ys
length-Alike [] [] h = refl
length-Alike [] (y ∷ ys) h = elim h [ ]
length-Alike (x ∷ xs) [] h = elim h [ ]
length-Alike (x ∷ xs) (y ∷ ys) (here, h) = ap suc (length-Alike xs ys h)

take-drop_whole : (n : ℕ) (xs : List ℕ) → xs ≡ take n xs ++ drop n xs
take-drop_whole zero xs = refl
take-drop_whole (suc n) [] = refl
take-drop_whole (suc n) (x ∷ xs) = ap (◌∷◌ x) (take-drop_whole n xs)

pub occurs-Contains :
    (hay needle : List ℕ) (p : ℕ) → occurs hay needle p ≡ true → Contains hay needle
unfolding occurs
occurs-Contains hay needle p h = record {
  front = take p hay;
  spelled = take (length needle) (drop p hay);
  back = drop (length needle) (drop p hay);
  parts =
      take-drop_whole p hay
      ∙ ap (λ (rest : List ℕ). take p hay ++ rest) (take-drop_whole (length needle) (drop p hay));
  alike = eq_bytes-Alike _ needle (ground arith);
}

pub Contains-occurs :
    (hay needle : List ℕ) → Contains hay needle → (p : ℕ) × (occurs hay needle p ≡ true)
unfolding occurs
Contains-occurs hay needle c =
    let same : length c.spelled ≡ length needle = length-Alike c.spelled needle c.alike in
    let from : drop (length c.front) hay ≡ c.spelled ++ c.back =
      ap (drop (length c.front)) c.parts ∙ drop-append_length c.front (c.spelled ++ c.back) in
    let there : take (length needle) (drop (length c.front) hay) ≡ c.spelled =
      ap (take (length needle)) from
      ∙ ap (λ (n : ℕ). take n (c.spelled ++ c.back)) (sym same)
      ∙ take-append_length c.spelled c.back in
    let fits : leb (length c.front + length needle) (length hay) ≡ true = ground (
      arith,
      same,
      ap length c.parts,
      length-append c.front (c.spelled ++ c.back),
      length-append c.spelled c.back,
    ) in
    (length c.front, rw (fits, there) (Alike-eq_bytes c.spelled needle c.alike))
