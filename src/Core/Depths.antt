-- ===== src/Core/Depths.antt =====
-- crates/batuta-core/src/index.rs: `compute_depths`, over the columns of parents and of depths.
pub mod Total
use batuta.Base.{
  ℕ, zero, suc, ◌+◌, min, Bool, true, false, not, ◌||◌, Option, none, some, List, [], ◌∷◌, length,
  get_elem?, set, replicate, leb, ◌==◌, if◌then◌else◌,
}
use batuta.Base.Fallible.{◌>>=◌, ◌>>◌}
use batuta.Core.Names.{u16_max}
use batuta.Core.Index.{no_node, max_depth}

-- Where a climb stopped, the depth that is known there, and the nodes below, the nearest first.
pub record Climb : Type 0 where
  pub cur : ℕ
  pub known : ℕ
  pub chain : List ℕ

-- The inner loop: up to a root, to a node whose depth is known, or 512 nodes up.
unfoldable pub climb_chain : ℕ → List ℕ → List ℕ → List ℕ → ℕ → Option Climb
climb_chain zero parents depths chain cur = none
climb_chain (suc fuel) parents depths chain cur = do
  p ← get_elem? parents cur
  d ← get_elem? depths cur
  let rest = climb_chain fuel parents depths (cur ∷ chain) p
  if p == cur || p == no_node
      then some (record { cur = cur; known = 0; chain = chain })
      else if not (d == u16_max)
      then some (record { cur = cur; known = d; chain = chain })
      else if leb max_depth (length chain)
      then some (record { cur = cur; known = 0; chain = chain })
      else rest

-- Depths increase back down the chain.
unfoldable pub unwind : List ℕ → ℕ → List ℕ → List ℕ
unwind [] d depths = depths
unwind (node ∷ chain) d depths =
    unwind chain (min (d + 1) u16_max) (set depths node (min (d + 1) u16_max))

-- One start: 513 rounds are enough, since the chain grows in each.
unfoldable pub depth_from : List ℕ → List ℕ → ℕ → Option (List ℕ)
depth_from parents depths start = do
  d ← get_elem? depths start
  let climbed = climb_chain (max_depth + 1) parents depths [] start >>= λ c.
      some (unwind c.chain c.known (set depths c.cur c.known))
  if not (d == u16_max) then some depths else climbed

unfoldable pub depths_from : List ℕ → ℕ → ℕ → List ℕ → Option (List ℕ)
depths_from parents start zero depths = some depths
depths_from parents start (suc left) depths =
    depth_from parents depths start >>= λ depths'. depths_from parents (start + 1) left depths'

unfoldable pub known_depths : List ℕ → List ℕ
known_depths [] = []
known_depths (d ∷ ds) = (if d == u16_max then 0 else d) ∷ known_depths ds

unfoldable pub compute_depths : List ℕ → Option (List ℕ)
compute_depths parents = do
  depths ← depths_from parents 0 (length parents) (replicate (length parents) u16_max)
  some (known_depths depths)
