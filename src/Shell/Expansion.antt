-- ===== src/Shell/Expansion.antt =====
-- Expansion ends: every round takes a character, and more rounds change nothing.
use batuta.Base.{
  ℕ, zero, suc, ◌+◌, ◌≤◌, ◌≡◌, refl, ap, arith, ◌&&◌, Option, none, some, [], ◌∷◌, ◌++◌, Bool-cases,
  inl, inr,
}
use batuta.Base.{length, take, drop, ltb, ◌==◌, if◌then◌else◌, length-drop}
use batuta.Shell.{
  Str, Env, dollar, percent, position, all_chars, is_empty, or_default, is_name_char, name_end,
  variable, expand_dollar, expand_percent, expand_step, expand_loop,
}

length-drop_le : (n : ℕ) (xs : Str) → length (drop n xs) ≤ length xs
length-drop_le n xs = omega (arith, length-drop n xs)

variable-le :
    (env : Env) (sign : ℕ) (name next rest : Str)
    → length next ≤ length rest
    → length (variable env sign name next rest).1 ≤ length rest
unfolding variable
variable-le env sign name next rest h = elim (Bool-cases (is_empty name)) [
  | inl e ↦ rw e (omega arith)
  | inr e ↦ rw e h
]

expand_percent-le : (env : Env) (rest : Str) → length (expand_percent env rest).1 ≤ length rest
unfolding expand_percent
expand_percent-le env rest = at_close (position (λ c. c == percent) rest)
  where
    at_close :
        (o : Option ℕ)
        → length
            (elim o as (λ _. Str × Str) [
              | none ↦ (percent ∷ [], rest)
              | some rel ↦
                  if ltb 0 rel && all_chars (is_name_char env) (take rel rest)
                  then (or_default (env.lookup (take rel rest)), drop (rel + 1) rest)
                  else (percent ∷ [], rest)
            ]).1
          ≤ length rest
    at_close none = omega arith
    at_close (some rel) =
        elim (Bool-cases (ltb 0 rel && all_chars (is_name_char env) (take rel rest))) [
          | inl named ↦ rw named (length-drop_le (rel + 1) rest)
          | inr plain ↦ rw plain (omega arith)
        ]

expand_dollar-le :
    (env : Env) (d : ℕ) (after : Str) → length (expand_dollar env d after).1 ≤ length (d ∷ after)
unfolding expand_dollar
expand_dollar-le env d after = elim (Bool-cases (d == b'{')) [
  | inl brace ↦ rw brace (at_close (position (λ c. c == b'}') after))
  | inr bare ↦ rw bare (
      variable-le env dollar (take (name_end env (d ∷ after)) (d ∷ after))
        (drop (name_end env (d ∷ after)) (d ∷ after)) (d ∷ after)
        (length-drop_le (name_end env (d ∷ after)) (d ∷ after)))
]
  where
    at_close :
        (o : Option ℕ)
        → length
            (elim o as (λ _. Str × Str) [
              | some rel ↦ variable env dollar (take rel after) (drop (rel + 1) after) (d ∷ after)
              | none ↦ (dollar ∷ [], d ∷ after)
            ]).1
          ≤ length (d ∷ after)
    at_close none = omega arith
    at_close (some rel) =
        variable-le env dollar (take rel after) (drop (rel + 1) after) (d ∷ after)
          (omega (arith, length-drop_le (rel + 1) after))

expand_step-le : (env : Env) (c : ℕ) (rest : Str) → length (expand_step env c rest).1 ≤ length rest
unfolding expand_step
expand_step-le env c [] = elim (Bool-cases (c == percent)) [
  | inl e ↦ rw e (expand_percent-le env [])
  | inr e ↦ rw e (omega arith)
]
expand_step-le env c (d ∷ after) = elim (Bool-cases (c == dollar)) [
  | inl e ↦ rw e (expand_dollar-le env d after)
  | inr e ↦ elim (Bool-cases (c == percent)) [
    | inl e' ↦ rw e (rw e' (expand_percent-le env (d ∷ after)))
    | inr e' ↦ rw e (rw e' (omega arith))
  ]
]

-- Once there are as many rounds as characters, more of them change nothing.
pub expand_loop-enough :
    (env : Env) (m n : ℕ) (chars : Str)
    → length chars ≤ m
    → length chars ≤ n
    → expand_loop m env chars ≡ expand_loop n env chars
unfolding expand_loop
expand_loop-enough env zero zero chars h k = refl
expand_loop-enough env zero (suc n) [] h k = refl
expand_loop-enough env (suc m) zero [] h k = refl
expand_loop-enough env (suc m) (suc n) [] h k = refl
expand_loop-enough env zero (suc n) (c ∷ rest) h k = absurd (omega arith)
expand_loop-enough env (suc m) zero (c ∷ rest) h k = absurd (omega arith)
expand_loop-enough env (suc m) (suc n) (c ∷ rest) h k =
    let less = expand_step-le env c rest in
    ap (λ more. (expand_step env c rest).0 ++ more)
      (expand_loop-enough env m n (expand_step env c rest).1 (omega (arith, less))
        (omega (arith, less)))
