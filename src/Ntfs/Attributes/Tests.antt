-- ===== src/Ntfs/Attributes/Tests.antt =====
-- One resident attribute, and the theorems at it.
use batuta.Base.{ℕ, ◌≡◌, ◌⊎◌, arith, false, none, List, [], ◌∷◌}
use batuta.Ntfs.Attributes.{AttrIter, next}
use batuta.Ntfs.Attributes.Iteration.{Ends, Fails, Yields, next_outcome, advance, next-advance}

-- $DATA, 32 bytes long, with the three value bytes 1, 2, 3 at offset 24, and the end mark.
abbrev one_attribute : List ℕ
one_attribute =
    0x80 ∷ 0 ∷ 0 ∷ 0 ∷ 32 ∷ 0 ∷ 0 ∷ 0 ∷ 0 ∷ 0 ∷ 0 ∷ 0 ∷ 0 ∷ 0 ∷ 0 ∷ 0 ∷ 3 ∷ 0 ∷ 0 ∷ 0 ∷ 24 ∷ 0 ∷ 0
    ∷ 0 ∷ 1 ∷ 2 ∷ 3 ∷ 0 ∷ 0 ∷ 0 ∷ 0 ∷ 0 ∷ 0xFF ∷ 0xFF ∷ 0xFF ∷ 0xFF ∷ 0 ∷ 0 ∷ 0 ∷ 0 ∷ []

abbrev start : AttrIter
start = record { buf = one_attribute; pos = 0; limit = 40; done = false }

next_outcome_example : Ends start ⊎ Fails start ⊎ Yields start
next_outcome_example = next_outcome start (omega arith)

next-advance_example : (next (advance 3 start)).0 ≡ none
next-advance_example = next-advance 3 start (omega arith) (omega arith)
