-- ===== src/Core/Scan/Finding.antt =====
-- The iterator finds every occurrence, and nothing else.
use batuta.Base.{
  ℕ, zero, suc, ◌+◌, ◌-◌, ◌≡◌, ◌<◌, ◌≤◌, refl, sym, ap, ◌∙◌, Bool, true, false, ◌&&◌, ◌||◌,
}
use batuta.Base.{Option, none, some, List, [], ◌∷◌, inl, inr, arith, Bool-cases}
use batuta.Base.{length, get_elem?, take, drop, ltb, leb, ◌==◌, if◌then◌else◌, leb→le, ltb→lt}
use mathlib.Core.Path.{fun_ext, subst}
use native.Mathlib.Nat.{zero-add, suc-add}
use batuta.Core.Matching.{to_ascii_lowercase, eq_ignore_case}
use batuta.Core.Scan.{Memchr, to_ascii_uppercase, eq_bytes, seek, find_from, find_iter_ascii_ci}

-- The first position of a byte that passes the test, if there is one.
pub data IsFirst (test : ℕ → Bool) (hay : List ℕ) : Option ℕ → Type 0 where
  absent : ((i b : ℕ) → get_elem? hay i ≡ some b → test b ≡ false) → IsFirst test hay none
  found :
      (i : ℕ)
      → ((j b : ℕ) → j < i → get_elem? hay j ≡ some b → test b ≡ false)
      → IsFirst test hay (some i)

-- What the crate documents.
pub record MemchrLaws (m : Memchr) : Type 0 where
  pub first_of : (a : ℕ) (hay : List ℕ) → IsFirst (λ b. b == a) hay (m.memchr a hay)
  pub first_of_two :
      (a c : ℕ) (hay : List ℕ) → IsFirst (λ b. b == a || b == c) hay (m.memchr2 a c hay)

-- The needle stands at `p`.
unfoldable pub occurs : List ℕ → List ℕ → ℕ → Bool
unfolding eq_bytes
occurs hay needle p =
    leb (p + length needle) (length hay) && eq_bytes (take (length needle) (drop p hay)) needle

abbrev pub in_list : ℕ → List ℕ → Bool
in_list p [] = false
in_list p (x ∷ xs) = p == x || in_list p xs

get_elem?-drop : (n i : ℕ) (xs : List ℕ) → get_elem? (drop n xs) i ≡ get_elem? xs (n + i)
get_elem?-drop zero i xs = ap (get_elem? xs) (sym (zero-add i))
get_elem?-drop (suc n) i [] = refl
get_elem?-drop (suc n) i (x ∷ xs) =
    get_elem?-drop n i xs ∙ ap (get_elem? (x ∷ xs)) (sym (suc-add n i))

-- An occurrence starts with the first byte of the needle, in either case.
eq_bytes-head :
    (xs : List ℕ) (first : ℕ) (rest : List ℕ)
    → eq_bytes xs (first ∷ rest) ≡ true
    → (b : ℕ) × (get_elem? xs 0 ≡ some b) × (eq_ignore_case b first ≡ true)
unfolding eq_bytes
eq_bytes-head [] first rest h = cc
eq_bytes-head (b ∷ xs) first rest h = (b, refl, ground arith)

get_elem?-take_head : (n : ℕ) (xs : List ℕ) → get_elem? (take (suc n) xs) 0 ≡ get_elem? xs 0
get_elem?-take_head n [] = refl
get_elem?-take_head n (x ∷ xs) = refl

occurs-head :
    (hay : List ℕ) (first : ℕ) (rest : List ℕ) (p : ℕ)
    → occurs hay (first ∷ rest) p ≡ true
    → (b : ℕ) × (get_elem? hay p ≡ some b) × (eq_ignore_case b first ≡ true)
unfolding occurs
occurs-head hay first rest p h =
    let (b, at, same) =
      eq_bytes-head (take (suc (length rest)) (drop p hay)) first rest (ground arith) in
    let same_place : p + 0 ≡ p = omega arith in
    (
      b,
      ap (get_elem? hay) (sym same_place)
          ∙ sym (get_elem?-drop p 0 hay)
          ∙ sym (get_elem?-take_head (length rest) (drop p hay))
          ∙ at,
      same,
    )

one_case :
    (first b : ℕ)
    → (to_ascii_lowercase first == to_ascii_uppercase first) ≡ true
    → (b == to_ascii_lowercase first) ≡ eq_ignore_case b first
unfolding to_ascii_lowercase to_ascii_uppercase eq_ignore_case
one_case first b h = ground arith

two_cases :
    (first b : ℕ)
    → (b == to_ascii_lowercase first || b == to_ascii_uppercase first) ≡ eq_ignore_case b first
unfolding to_ascii_lowercase to_ascii_uppercase eq_ignore_case
two_cases first b = ground arith

-- The prefilter passes over no occurrence.
seek-IsFirst :
    (m : Memchr)
    → MemchrLaws m
    → (first : ℕ) (hay : List ℕ) → IsFirst (λ b. eq_ignore_case b first) hay (seek m first hay)
unfolding seek
seek-IsFirst m laws first hay =
    elim (Bool-cases (to_ascii_lowercase first == to_ascii_uppercase first)) [
      | inl one ↦ rw one (
          subst (λ test. IsFirst test hay (m.memchr (to_ascii_lowercase first) hay))
            (fun_ext λ b. one_case first b one) (laws.first_of (to_ascii_lowercase first) hay))
      | inr two ↦ rw two (
          subst
            (λ test.
              IsFirst test hay
                (m.memchr2 (to_ascii_lowercase first) (to_ascii_uppercase first) hay))
            (fun_ext λ b. two_cases first b)
            (laws.first_of_two (to_ascii_lowercase first) (to_ascii_uppercase first) hay))
    ]

-- How what stands at `p` shows in a search from `pos` whose first candidate is `cand`.
nothing :
    (pos cand p : ℕ) (s : Bool)
    → (pos ≤ p → p < cand → s ≡ false)
    → (cand ≤ p → s ≡ false)
    → (leb pos p && s) ≡ false
nothing pos cand p s before after = grind arith

with_here :
    (pos cand p : ℕ) (s : Bool)
    → pos ≤ cand
    → (pos ≤ p → p < cand → s ≡ false)
    → (p ≡ cand → s ≡ true)
    → (p == cand || (leb (cand + 1) p && s)) ≡ (leb pos p && s)
with_here pos cand p s le before at = grind arith

without_here :
    (pos cand p : ℕ) (s : Bool)
    → pos ≤ cand
    → (pos ≤ p → p < cand → s ≡ false)
    → (p ≡ cand → s ≡ false)
    → (leb (cand + 1) p && s) ≡ (leb pos p && s)
without_here pos cand p s le before at = grind arith

module _ (m : Memchr) (laws : MemchrLaws m) (hay : List ℕ) (first : ℕ) (rest : List ℕ) where
  abbrev stands : ℕ → Bool
  stands p = occurs hay (first ∷ rest) p

  -- Where the bytes do not pass the prefilter, nothing stands.
  passed_over :
      (pos p : ℕ)
      → pos ≤ p
      → ((b : ℕ) → get_elem? (drop pos hay) (p - pos) ≡ some b → eq_ignore_case b first ≡ false)
      → stands p ≡ false
  passed_over pos p le none_here = elim (Bool-cases (stands p)) [
    | inr no_match ↦ no_match
    | inl h ↦
        let (b, at, same) = occurs-head hay first rest p h in
        let here : pos + (p - pos) ≡ p = omega arith in
        cc (none_here b (get_elem?-drop pos (p - pos) hay ∙ ap (get_elem? hay) here ∙ at), same)
  ]

  too_short :
      (pos p : ℕ) → length hay < pos + length (first ∷ rest) → (leb pos p && stands p) ≡ false
  unfolding occurs
  too_short pos p h = ground arith

  -- One candidate, given what the search from the next place on finds.
  candidate :
      (pos rel p : ℕ) (later : List ℕ)
      → ((q : ℕ) → pos ≤ q → q < pos + rel → stands q ≡ false)
      → in_list p later ≡ (leb (pos + rel + 1) p && stands p)
      → in_list p (
          if ltb (length hay) (pos + rel + length (first ∷ rest))
          then []
          else if eq_bytes (take (length (first ∷ rest)) (drop (pos + rel) hay)) (first ∷ rest)
          then (pos + rel) ∷ later
          else later)
        ≡ (leb pos p && stands p)
  unfolding occurs
  candidate pos rel p later none_before ih =
      elim (Bool-cases (ltb (length hay) (pos + rel + length (first ∷ rest)))) [
        | inl short ↦ rw short (
            sym (
              nothing pos (pos + rel) p (stands p) (none_before p)
                λ le. ground (arith, too_short (pos + rel) p (ltb→lt _ _ short))))
        | inr fits ↦
            elim (Bool-cases
              (eq_bytes (take (length (first ∷ rest)) (drop (pos + rel) hay)) (first ∷ rest))) [
                | inl same ↦ rw fits (
                    rw same (
                      ap (λ l. p == pos + rel || l) ih
                      ∙ with_here pos (pos + rel) p (stands p) (omega arith) (none_before p)
                          λ at. ap stands at ∙ ground (arith, fits, same)))
                | inr differs ↦ rw fits (
                    rw differs (
                      ih
                      ∙ without_here pos (pos + rel) p (stands p) (omega arith) (none_before p)
                          λ at. ap stands at ∙ ground (arith, fits, differs)))
              ]
      ]

  sought :
      (rounds pos p : ℕ) (o : Option ℕ)
      → IsFirst (λ b. eq_ignore_case b first) (drop pos hay) o
      → ((cand : ℕ)
          → pos ≤ cand
          → in_list p (find_from rounds m hay first rest (cand + 1))
            ≡ (leb (cand + 1) p && stands p))
      → in_list p (elim o [
        | none ↦ []
        | some rel ↦
            let cand = pos + rel in
            let later = find_from rounds m hay first rest (cand + 1) in
            if ltb (length hay) (cand + length (first ∷ rest))
            then []
            else if eq_bytes (take (length (first ∷ rest)) (drop cand hay)) (first ∷ rest)
            then cand ∷ later
            else later
      ])
        ≡ (leb pos p && stands p)
  sought rounds pos p none (absent nowhere) ih = sym (elim (Bool-cases (leb pos p)) [
    | inl le ↦ ground (arith, passed_over pos p (leb→le pos p le) (nowhere (p - pos)))
    | inr lt ↦ ground (arith, lt)
  ])
  sought rounds pos p (some rel) (found _ before) ih =
      candidate pos rel p (find_from rounds m hay first rest (pos + rel + 1))
        (λ q le lt. passed_over pos q le λ b at. before (q - pos) b (omega arith) at)
        (ih (pos + rel) (omega arith))

  find_from-stands :
      (rounds pos p : ℕ)
      → length hay < pos + rounds
      → in_list p (find_from rounds m hay first rest pos) ≡ (leb pos p && stands p)
  unfolding find_from
  find_from-stands zero pos p h = sym (too_short pos p (omega arith))
  find_from-stands (suc rounds) pos p h =
      elim (Bool-cases (ltb (length hay) (pos + length (first ∷ rest)))) [
        | inl short ↦ rw (short, find_from) (sym (too_short pos p (ltb→lt _ _ short)))
        | inr fits ↦
            rw (fits, find_from)
              (sought rounds pos p (seek m first (drop pos hay))
                (seek-IsFirst m laws first (drop pos hay))
                λ cand le. find_from-stands rounds (cand + 1) p (omega arith))
      ]

  -- The iterator yields exactly the positions at which the needle stands.
  pub find_iter-occurs :
      (p : ℕ) → in_list p (find_iter_ascii_ci m hay first rest) ≡ occurs hay (first ∷ rest) p
  unfolding find_iter_ascii_ci
  find_iter-occurs p = find_from-stands (length hay + 1) 0 p (omega arith) ∙ ground arith
