-- ===== src/Core/Depths/Total.antt =====
-- Depths are computed on any parents, cycles included.
use batuta.Base.{
  ℕ, zero, suc, ◌+◌, ◌≤◌, ◌<◌, ◌≡◌, refl, ap, ◌∙◌, arith, min, not, ◌||◌, some, List, [], ◌∷◌,
  length, get_elem?, set, replicate, length-set, length-replicate, get_elem?_in, leb, ◌==◌,
}
use batuta.Base.Fallible.{Returns, returns, Returns-bind, Returns-if}
use batuta.Core.Names.{u16_max}
use batuta.Core.Index.{no_node, max_depth}
use batuta.Core.Watch.Steps.{SlotsFit}
use batuta.Core.Watch.Safety.{below}
use batuta.Core.Depths.{climb_chain, unwind, depth_from, depths_from, known_depths, compute_depths}

Returns-get :
    (xs : List ℕ) (i : ℕ) → i < length xs → Returns (λ x. get_elem? xs i ≡ some x) (get_elem? xs i)
Returns-get xs i h = let (x, e) = get_elem?_in xs i h in rw e (returns x refl)

climb_chain-Returns :
    (fuel : ℕ) (parents depths chain : List ℕ) (cur : ℕ)
    → SlotsFit (length parents) parents
    → length depths ≡ length parents
    → cur < length parents
    → max_depth < length chain + fuel
    → length chain ≤ max_depth
    → Returns (λ _. Unit) (climb_chain fuel parents depths chain cur)
unfolding climb_chain
climb_chain-Returns zero parents depths chain cur fit same h enough room = absurd (omega arith)
climb_chain-Returns (suc fuel) parents depths chain cur fit same h enough room =
    Returns-bind (get_elem? parents cur) _ (Returns-get parents cur h) λ p at.
      Returns-bind (get_elem? depths cur) _ (Returns-get depths cur (omega (arith, same, h))) λ d _.
        Returns-if (p == cur || p == no_node) _ _ (λ _. returns _ tt)
          λ real.
            Returns-if (not (d == u16_max)) _ _ (λ _. returns _ tt)
              λ _.
                Returns-if (leb max_depth (length chain)) _ _ (λ _. returns _ tt)
                  λ more.
                    climb_chain-Returns fuel parents depths (cur ∷ chain) p fit same
                      (below _ p (fit cur p at) (ground arith)) (omega (arith, enough))
                      (ground arith)

length-unwind :
    (chain : List ℕ) (d : ℕ) (depths : List ℕ) → length (unwind chain d depths) ≡ length depths
unfolding unwind
length-unwind [] d depths = refl
length-unwind (node ∷ chain) d depths =
    length-unwind chain (min (d + 1) u16_max) (set depths node (min (d + 1) u16_max))
    ∙ length-set depths node (min (d + 1) u16_max)

depth_from-Returns :
    (parents depths : List ℕ) (start : ℕ)
    → SlotsFit (length parents) parents
    → length depths ≡ length parents
    → start < length parents
    → Returns (λ ds. length ds ≡ length parents) (depth_from parents depths start)
unfolding depth_from
depth_from-Returns parents depths start fit same h =
    Returns-bind (get_elem? depths start) _ (Returns-get depths start (omega (arith, same, h)))
      λ d _.
        Returns-if (not (d == u16_max)) _ _ (λ _. returns _ same)
          λ _.
            Returns-bind (climb_chain (max_depth + 1) parents depths [] start) _
              (climb_chain-Returns (max_depth + 1) parents depths [] start fit same h (omega arith)
                (omega arith))
              λ c _. returns _ (
                length-unwind c.chain c.known (set depths c.cur c.known)
                ∙ length-set depths c.cur c.known
                ∙ same)

depths_from-Returns :
    (parents : List ℕ) (start left : ℕ) (depths : List ℕ)
    → SlotsFit (length parents) parents
    → length depths ≡ length parents
    → start + left ≤ length parents
    → Returns (λ ds. length ds ≡ length parents) (depths_from parents start left depths)
unfolding depths_from
depths_from-Returns parents start zero depths fit same h = returns _ same
depths_from-Returns parents start (suc left) depths fit same h =
    Returns-bind (depth_from parents depths start) _
      (depth_from-Returns parents depths start fit same (omega (arith, h)))
      λ ds same'. depths_from-Returns parents (start + 1) left ds fit same' (omega (arith, h))

length-known_depths : (ds : List ℕ) → length (known_depths ds) ≡ length ds
unfolding known_depths
length-known_depths [] = refl
length-known_depths (d ∷ ds) = ap suc (length-known_depths ds)

-- On parents that are nodes or none, the depths are computed without a panic and without running
-- out of rounds, however the parents loop, and there is one for each node.
pub compute_depths-Returns :
    (parents : List ℕ)
    → SlotsFit (length parents) parents
    → Returns (λ ds. length ds ≡ length parents) (compute_depths parents)
unfolding compute_depths
compute_depths-Returns parents fit =
    Returns-bind (depths_from parents 0 (length parents) (replicate (length parents) u16_max)) _
      (depths_from-Returns parents 0 (length parents) _ fit
        (length-replicate (length parents) u16_max) (omega arith))
      λ ds same. returns _ (length-known_depths ds ∙ same)
