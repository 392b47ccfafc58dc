-- ===== src/Core/Scan/Chunks.antt =====
-- Scanning chunk by chunk, with an overlap, finds what scanning the whole finds.
use batuta.Base.{
  ℕ, zero, suc, ◌+◌, ◌-◌, ◌≡◌, ◌<◌, ◌≤◌, refl, sym, ap, ◌∙◌, min, Bool, true, false, ◌&&◌, ◌||◌,
}
use batuta.Base.{List, [], ◌∷◌, ◌++◌, inl, inr, arith, Bool-cases}
use batuta.Base.{length, take, drop, ltb, leb, length-drop, length-take, drop-sum, leb→le, ltb→lt}
use batuta.Core.Scan.{
  Memchr, eq_bytes, find_iter_ascii_ci, keep, shift, starts, chunk_positions, gather,
  scan_positions,
}
use batuta.Core.Scan.Finding.{MemchrLaws, occurs, in_list, find_iter-occurs}

in_list-keep :
    (test : ℕ → Bool) (p : ℕ) (xs : List ℕ) → in_list p (keep test xs) ≡ (in_list p xs && test p)
in_list-keep test p [] = refl
in_list-keep test p (x ∷ xs) = elim (Bool-cases (test x)) [
  | inl kept ↦ rw kept (grind (arith, in_list-keep test p xs, passes true kept))
  | inr dropped ↦ rw dropped (grind (arith, in_list-keep test p xs, passes false dropped))
]
  where
    passes : (b : Bool) → test x ≡ b → p ≡ x → test p ≡ b
    passes b e at = ap test at ∙ e

in_list-shift :
    (start p : ℕ) (xs : List ℕ)
    → in_list p (shift start xs) ≡ (leb start p && in_list (p - start) xs)
in_list-shift start p [] = ground arith
in_list-shift start p (x ∷ xs) = grind (arith, in_list-shift start p xs)

in_list-append : (p : ℕ) (xs ys : List ℕ) → in_list p (xs ++ ys) ≡ (in_list p xs || in_list p ys)
in_list-append p [] ys = refl
in_list-append p (x ∷ xs) ys = ground (arith, in_list-append p xs ys)

take-drop-take :
    (n k w : ℕ) (xs : List ℕ) → k + n ≤ w → take n (drop k (take w xs)) ≡ take n (drop k xs)
take-drop-take zero k w xs h = refl
take-drop-take (suc n) k zero xs h = absurd (omega arith)
take-drop-take (suc n) k (suc w) [] h = refl
take-drop-take (suc n) zero (suc w) (x ∷ xs) h = ap (◌∷◌ x) (take-drop-take n 0 w xs (omega arith))
take-drop-take (suc n) (suc k) (suc w) (x ∷ xs) h = take-drop-take (suc n) k w xs (omega arith)

module _ (m : Memchr) (laws : MemchrLaws m) (hay : List ℕ) (first : ℕ) (rest : List ℕ)
    (chunk : ℕ) where
  abbrev stands : ℕ → Bool
  stands p = occurs hay (first ∷ rest) p

  -- A window of `w` bytes from `start` on shows what stands in it.
  pub in_window :
      (start w p : ℕ)
      → start ≤ p
      → start + w ≤ length hay
      → occurs (take w (drop start hay)) (first ∷ rest) (p - start)
        ≡ (leb (p + length (first ∷ rest)) (start + w) && stands p)
  unfolding occurs
  in_window start w p le inside =
      let n : ℕ = length (first ∷ rest) in
      let here : start + (p - start) ≡ p = omega arith in
      let wide : length (take w (drop start hay)) ≡ w =
        omega (arith, inside, length-take w (drop start hay), length-drop start hay) in
      elim (Bool-cases (leb (p + n) (start + w))) [
        | inl fits ↦
            let same : take n (drop (p - start) (take w (drop start hay))) ≡ take n (drop p hay) =
              take-drop-take n (p - start) w (drop start hay) (omega (arith, leb→le _ _ fits, le))
              ∙ ap (take n) (sym (drop-sum start (p - start) hay) ∙ ap (λ i. drop i hay) here) in
            ap
              (λ bytes.
                leb (p - start + n) (length (take w (drop start hay)))
                && eq_bytes bytes (first ∷ rest))
              same
            ∙ ground (arith, wide, fits)
        | inr short ↦ ground (arith, wide, short)
      ]

  -- Nothing stands past the end.
  pub stands-inside : (p : ℕ) → stands p ≡ true → p + length (first ∷ rest) ≤ length hay
  unfolding occurs
  stands-inside p h = ground arith

  in_chunk :
      (start w p : ℕ) (seen : Bool)
      → start ≤ length hay
      → start + w ≡ min (min (start + chunk) (length hay) + length rest) (length hay)
      → (start ≤ p → seen ≡ (leb (p + length (first ∷ rest)) (start + w) && stands p))
      → ((leb start p && seen) && (leb start p && ltb p (min (start + chunk) (length hay))))
        ≡ (leb start p && (ltb p (start + chunk) && stands p))
  in_chunk start w p seen le width h = grind (arith, stands-inside p)

  chunk-stands :
      (start p : ℕ)
      → start ≤ length hay
      → in_list p (chunk_positions m false hay first rest chunk start)
        ≡ (leb start p && (ltb p (start + chunk) && stands p))
  unfolding chunk_positions
  chunk-stands start p le =
      let end : ℕ = min (start + chunk) (length hay) in
      let scan_end : ℕ = min (end + length rest) (length hay) in
      let window : List ℕ = take (scan_end - start) (drop start hay) in
      in_list-keep (λ q. leb start q && ltb q end) p
        (shift start (find_iter_ascii_ci m window first rest))
      ∙ ap (λ b. b && (leb start p && ltb p end))
          (in_list-shift start p (find_iter_ascii_ci m window first rest))
      ∙ ap (λ b. (leb start p && b) && (leb start p && ltb p end))
          (find_iter-occurs m laws window first rest (p - start))
      ∙ in_chunk start (scan_end - start) p (occurs window (first ∷ rest) (p - start)) le
          (omega (arith, le)) λ from. in_window start (scan_end - start) p from (omega (arith, le))

  past : (start p : ℕ) → length hay ≤ start → (leb start p && stands p) ≡ false
  past start p h = grind (arith, stands-inside p)

  gather-stands :
      (rounds start p : ℕ)
      → 0 < chunk
      → length hay ≤ start + rounds
      → in_list p (
          gather
            (chunk_positions m false hay first rest chunk)
            (starts rounds chunk (length hay) start))
        ≡ (leb start p && stands p)
  unfolding starts
  gather-stands zero start p some_chunk h = sym (past start p (omega (arith, h)))
  gather-stands (suc rounds) start p some_chunk h = elim (Bool-cases (ltb start (length hay))) [
    | inl inside ↦ rw inside (
        in_list-append p (chunk_positions m false hay first rest chunk start) _
        ∙ ap
            (λ b.
              b
              || in_list p (
                  gather (chunk_positions m false hay first rest chunk)
                    (starts rounds chunk (length hay) (start + chunk))))
            (chunk-stands start p (omega (arith, ltb→lt _ _ inside)))
        ∙ ap (λ b. (leb start p && (ltb p (start + chunk) && stands p)) || b)
            (gather-stands rounds (start + chunk) p some_chunk (omega (arith, h, some_chunk)))
        ∙ ground arith)
    | inr outside ↦ rw outside (sym (past start p (ground (arith, outside))))
  ]

  -- The chunks together yield exactly the positions at which the needle stands.
  pub scan_positions-occurs :
      0 < chunk → (p : ℕ) → in_list p (scan_positions m false hay first rest chunk) ≡ stands p
  unfolding scan_positions
  scan_positions-occurs some_chunk p =
      gather-stands (length hay) 0 p some_chunk (omega arith) ∙ ground arith
