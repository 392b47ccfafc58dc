-- ===== src/Core/Matching.antt =====
-- crates/batuta-core/src/search.rs, its matching of bytes: globs, case-insensitive search, prefixes.
pub mod Globs
pub mod Loop
use batuta.Base.{ℕ, zero, suc, ◌+◌, ◌*◌, ◌≡◌, Bool, true, false, not, ◌&&◌, ◌||◌}
use batuta.Base.{Option, none, some, List, [], ◌∷◌, ◌⊎◌, inl, inr}
use batuta.Base.{length, ltb, leb, ◌==◌, if◌then◌else◌}

-- `u8::to_ascii_lowercase`
unfoldable pub to_ascii_lowercase : ℕ → ℕ
to_ascii_lowercase b = if leb b'A' b && leb b b'Z' then b + 32 else b

-- `u8::eq_ignore_ascii_case`
unfoldable pub eq_ignore_case : ℕ → ℕ → Bool
unfolding to_ascii_lowercase
eq_ignore_case a b = to_ascii_lowercase a == to_ascii_lowercase b

-- The closure `eq` of `glob_match`.
unfoldable pub same_byte : Bool → ℕ → ℕ → Bool
unfolding eq_ignore_case
same_byte ci a b = if ci then eq_ignore_case a b else a == b

-- Where the loop stands: `pattern[p..]`, `text[t..]`, and, when `star` is set, `pattern[star + 1..]`
-- and `text[mark..]`.
pub record Glob : Type 0 where
  pub pattern : List ℕ
  pub text : List ℕ
  pub back : Option (List ℕ × List ℕ)

abbrev pub tail : List ℕ → List ℕ
tail [] = []
tail (x ∷ xs) = xs

-- `p < pattern.len() && test(pattern[p])`
abbrev pub at_head : (ℕ → Bool) → List ℕ → Bool
at_head test [] = false
at_head test (c ∷ p) = test c

abbrev pub star : ℕ
star = b'*'

-- `while p < pattern.len() && pattern[p] == b'*' { p += 1 }` and `p == pattern.len()`
unfoldable pub all_stars : List ℕ → Bool
all_stars [] = true
all_stars (c ∷ p) = if c == star then all_stars p else false

-- One round of the loop: an answer, or where the loop goes on.
unfoldable pub glob_step : (ℕ → ℕ → Bool) → Glob → Bool ⊎ Glob
unfolding all_stars
glob_step same g = elim g.text [
  | [] ↦ inl (all_stars g.pattern)
  | d ∷ t ↦
      if at_head (λ c. c == b'?' || same c d) g.pattern
      then inr (record { pattern = tail g.pattern; text = t; back = g.back })
      else if at_head (λ c. c == star) g.pattern
      then inr
          (record { pattern = tail g.pattern; text = d ∷ t; back = some (tail g.pattern, d ∷ t) })
      else elim g.back [
        | none ↦ inl false
        | some (after, mark) ↦
            inr (record { pattern = after; text = tail mark; back = some (after, tail mark) })
      ]
]

-- `none` when the rounds run out.
unfoldable pub glob_loop : ℕ → (ℕ → ℕ → Bool) → Glob → Option Bool
unfolding glob_step
glob_loop zero same g = none
glob_loop (suc rounds) same g = elim (glob_step same g) [
  | inl answer ↦ some answer
  | inr g' ↦ glob_loop rounds same g'
]

unfoldable pub glob_match : List ℕ → List ℕ → Bool → Option Bool
unfolding glob_loop same_byte
glob_match pattern text ci =
    let m = length pattern in
    let n = length text in
    glob_loop (suc ((n + 1) * (n + m + 2) + n + m)) (same_byte ci)
      (record { pattern = pattern; text = text; back = none })
