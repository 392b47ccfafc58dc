-- ===== src/Shell.antt =====
-- The line parser of the built-in shell, crates/batuta-app/src/shell/parse.rs: expansion, quoting,
-- pipes and redirections. A string is the list of its characters.
pub mod Expansion
pub mod Parse
mod Tests
use batuta.Base.{
  ℕ, zero, suc, ◌+◌, Bool, true, false, not, ◌&&◌, ◌||◌, Option, none, some, List, [], ◌∷◌, ◌++◌,
}
use batuta.Base.{length, take, drop, ltb, ◌==◌, if◌then◌else◌}

abbrev pub Str : Type 0
Str = List ℕ

-- Where variables come from, and `char::is_alphanumeric`, which goes by the tables of Unicode.
pub record Env : Type 0 where
  pub lookup : Str → Option Str
  pub is_alphanumeric : ℕ → Bool

abbrev pub dollar : ℕ
dollar = b'$'

abbrev pub percent : ℕ
percent = b'%'

abbrev pub single_quote : ℕ
single_quote = 39

abbrev pub double_quote : ℕ
double_quote = 34

-- `iter().position(..)`
abbrev pub position : (ℕ → Bool) → Str → Option ℕ
position test [] = none
position test (c ∷ cs) =
    if test c then some 0 else elim (position test cs) [ none ↦ none | some i ↦ some (suc i) ]

abbrev pub all_chars : (ℕ → Bool) → Str → Bool
all_chars test [] = true
all_chars test (c ∷ cs) = test c && all_chars test cs

abbrev pub is_empty : Str → Bool
is_empty [] = true
is_empty (c ∷ cs) = false

-- `unwrap_or_default`
abbrev pub or_default : Option Str → Str
or_default none = []
or_default (some s) = s

abbrev pub is_name_char : Env → ℕ → Bool
is_name_char env c = env.is_alphanumeric c || c == b'_'

-- A variable, or the sign as text when the name is empty. What is pushed, and the characters left.
unfoldable pub variable : Env → ℕ → Str → Str → Str → Str × Str
variable env sign name next rest =
    if is_empty name then (sign ∷ [], rest) else (or_default (env.lookup name), next)

-- Where a name without braces ends.
unfoldable pub name_end : Env → Str → ℕ
name_end env rest = elim (position (λ c. not (is_name_char env c)) rest) [
  | some rel ↦ rel
  | none ↦ length rest
]

-- After a dollar sign that is not the last character.
unfoldable pub expand_dollar : Env → ℕ → Str → Str × Str
unfolding variable name_end
expand_dollar env d after =
    if d == b'{'
    then elim (position (λ c. c == b'}') after) [
      | some rel ↦ variable env dollar (take rel after) (drop (rel + 1) after) (d ∷ after)
      | none ↦ (dollar ∷ [], d ∷ after)
    ]
    else (let end = name_end env (d ∷ after) in
        variable env dollar (take end (d ∷ after)) (drop end (d ∷ after)) (d ∷ after))

unfoldable pub expand_percent : Env → Str → Str × Str
expand_percent env rest = elim (position (λ c. c == percent) rest) [
  | none ↦ (percent ∷ [], rest)
  | some rel ↦
      if ltb 0 rel && all_chars (is_name_char env) (take rel rest)
      then (or_default (env.lookup (take rel rest)), drop (rel + 1) rest)
      else (percent ∷ [], rest)
]

-- One round of the loop: what is pushed, and the characters left.
unfoldable pub expand_step : Env → ℕ → Str → Str × Str
unfolding expand_dollar expand_percent
expand_step env c [] = if c == percent then expand_percent env [] else (c ∷ [], [])
expand_step env c (d ∷ after) =
    if c == dollar
    then expand_dollar env d after
    else if c == percent
    then expand_percent env (d ∷ after)
    else (c ∷ [], d ∷ after)

unfoldable pub expand_loop : ℕ → Env → Str → Str
unfolding expand_step
expand_loop zero env chars = []
expand_loop (suc rounds) env [] = []
expand_loop (suc rounds) env (c ∷ rest) =
    let (pushed, left) = expand_step env c rest in pushed ++ expand_loop rounds env left

unfoldable pub expand : Str → Env → Str
unfolding expand_loop
expand text env = expand_loop (length text) env text

abbrev pub starts_at : ℕ → Str → Bool
starts_at c [] = false
starts_at c (d ∷ ds) = d == c

-- `word == "~" || word.starts_with("~\\") || word.starts_with("~/")`
unfoldable pub is_home : Str → Bool
is_home [] = false
is_home (c ∷ rest) = c == b'~' && (is_empty rest || starts_at 92 rest || starts_at b'/' rest)

-- "USERPROFILE" and "HOME"
abbrev pub userprofile : Str
userprofile = b'U' ∷ b'S' ∷ b'E' ∷ b'R' ∷ b'P' ∷ b'R' ∷ b'O' ∷ b'F' ∷ b'I' ∷ b'L' ∷ b'E' ∷ []

abbrev pub home_name : Str
home_name = b'H' ∷ b'O' ∷ b'M' ∷ b'E' ∷ []

abbrev pub or_else : Option Str → Option Str → Option Str
or_else (some a) b = some a
or_else none b = b

unfoldable pub expand_home : Str → Env → Str
unfolding is_home
expand_home word env =
    if is_home word
    then elim (or_else (env.lookup userprofile) (env.lookup home_name)) [
      | some home ↦ home ++ drop 1 word
      | none ↦ word
    ]
    else word
