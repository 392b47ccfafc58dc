-- ===== src/Core/Matching/Globs.antt =====
-- `glob_match` decides what a glob means, on every name without a literal star.
use batuta.Base.{ℕ, zero, suc, ◌≡◌, ◌≤◌, refl, sym, ap, ◌∙◌, Bool, true, false, ◌&&◌, ◌||◌}
use batuta.Base.{List, [], ◌∷◌, ◌++◌, inl, inr, arith, All, Bool-cases}
use batuta.Base.{length-drop, drop_comm, length, drop, ◌==◌, if◌then◌else◌}
use batuta.Core.Matching.{tail, star, all_stars}

-- Some end of `t` is matched.
unfoldable pub any_end : (List ℕ → Bool) → List ℕ → Bool
any_end m [] = m []
any_end m (d ∷ t) = m (d ∷ t) || any_end m t

-- What a glob means: `*` is any bytes, `?` any one byte, and any other byte one that is the same.
unfoldable pub matches : (ℕ → ℕ → Bool) → List ℕ → List ℕ → Bool
unfolding any_end
matches same [] [] = true
matches same [] (d ∷ t) = false
matches same (c ∷ p) [] = if c == star then matches same p [] else false
matches same (c ∷ p) (d ∷ t) =
    if c == star
    then any_end (matches same p) (d ∷ t)
    else (c == b'?' || same c d) && matches same p t

pub all_stars-matches : (same : ℕ → ℕ → Bool) (p : List ℕ) → all_stars p ≡ matches same p []
unfolding all_stars matches
all_stars-matches same [] = refl
all_stars-matches same (c ∷ p) = elim (Bool-cases (c == star)) [
  | inl eq ↦ rw eq (all_stars-matches same p)
  | inr ne ↦ rw ne refl
]

-- A star at the head.
pub matches-star :
    (same : ℕ → ℕ → Bool) (c : ℕ) (p t : List ℕ)
    → (c == star) ≡ true
    → matches same (c ∷ p) t ≡ any_end (matches same p) t
unfolding matches any_end
matches-star same c p [] h = rw h refl
matches-star same c p (d ∷ t) h = rw h refl

any_end-tail : (m : List ℕ → Bool) (t : List ℕ) → any_end m (tail t) ≡ true → any_end m t ≡ true
unfolding any_end
any_end-tail m [] h = h
any_end-tail m (d ∷ t) h = ground arith

any_end-drop :
    (m : List ℕ → Bool) (n : ℕ) (t : List ℕ) → any_end m (drop n t) ≡ true → any_end m t ≡ true
any_end-drop m zero t h = h
any_end-drop m (suc n) [] h = h
any_end-drop m (suc n) (d ∷ t) h = any_end-tail m (d ∷ t) (any_end-drop m n t h)

any_end-found :
    (m : List ℕ → Bool) (t : List ℕ) → any_end m t ≡ true → (n : ℕ) × (m (drop n t) ≡ true)
unfolding any_end
any_end-found m [] h = (0, h)
any_end-found m (d ∷ t) h = elim (Bool-cases (m (d ∷ t))) [
  | inl eq ↦ (0, eq)
  | inr ne ↦ let (n, found) = any_end-found m t (rw ne at h) in (suc n, found)
]

-- No star.
abbrev pub Plain : List ℕ → Type 0
Plain = All (λ c. (c == star) ≡ false)

and_right : (a b : Bool) → (a && b) ≡ true → b ≡ true
and_right a b h = ground arith

matches-prefix :
    (same : ℕ → ℕ → Bool) (seg p t : List ℕ)
    → Plain seg
    → matches same (seg ++ p) t ≡ true
    → (length seg ≤ length t) × (matches same p (drop (length seg) t) ≡ true)
unfolding matches
matches-prefix same [] p t plain h = (omega arith, h)
matches-prefix same (c ∷ seg) p [] plain h = cc (rw (plain.0) at h)
matches-prefix same (c ∷ seg) p (d ∷ t) plain h =
    let (le, rest) = matches-prefix same seg p t plain.1 (and_right _ _ (rw (plain.0) at h)) in
    (omega (arith, le), rest)

-- Dropping one more.
drop-tail : (n : ℕ) (t : List ℕ) → drop n (tail t) ≡ drop (suc n) t
drop-tail zero [] = refl
drop-tail (suc n) [] = refl
drop-tail n (d ∷ t) = refl

-- The greedy step: what matches from a later mark matches from the next star on.
pub later-star :
    (same : ℕ → ℕ → Bool) (seg : List ℕ) (c : ℕ) (p mark t : List ℕ)
    → Plain seg
    → (c == star) ≡ true
    → t ≡ drop (length seg) mark
    → any_end (matches same (seg ++ c ∷ p)) (tail mark) ≡ true
    → any_end (matches same p) t ≡ true
later-star same seg c p mark t plain is_star at h =
    let (n, found) = any_end-found _ (tail mark) h in
    let (le, rest) = matches-prefix same seg (c ∷ p) (drop n (tail mark)) plain found in
    let ended : any_end (matches same p) (drop (length seg) (drop n (tail mark))) ≡ true =
      sym (matches-star same c p _ is_star) ∙ rest in
    let onward : drop (length seg) (drop n (tail mark)) ≡ drop (suc n) t =
      ap (drop (length seg)) (drop-tail n mark)
      ∙ drop_comm (length seg) (suc n) mark
      ∙ ap (drop (suc n)) (sym at) in
    any_end-drop (matches same p) (suc n) t (rw onward at ended)

-- No later mark helps when the text is used up.
pub later-end :
    (same : ℕ → ℕ → Bool) (seg p mark : List ℕ)
    → Plain seg
    → length seg ≡ suc (length mark)
    → any_end (matches same (seg ++ p)) mark ≡ false
later-end same seg p mark plain whole = elim (Bool-cases (any_end (matches same (seg ++ p)) mark)) [
  | inl h ↦
      let (n, found) = any_end-found _ mark h in
      let (le, rest) = matches-prefix same seg p (drop n mark) plain found in
      absurd (omega (arith, le, whole, length-drop n mark))
  | inr h ↦ h
]
