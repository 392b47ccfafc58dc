-- ===== src/Shell/Parse/Stages.antt =====
-- Parsing ends, and every stage of a pipeline that is accepted has a command.
use batuta.Base.{
  ℕ, zero, suc, ◌+◌, ◌≤◌, ◌≡◌, arith, Bool, true, false, not, ◌&&◌, ◌||◌, Option, none, some, List,
  [], ◌∷◌, ◌++◌, Bool-cases, inl, inr, All, All-append,
}
use batuta.Base.{length, take, drop, ◌==◌, if◌then◌else◌, length-drop}
use batuta.Shell.{Str, Env, single_quote, double_quote, position, is_empty, starts_at, expand}
use batuta.Shell.Parse.{
  Command, Pipeline, ParseError, unterminated_quote, empty_stage, missing_target, Result, ok, err,
  stuck, Token, word, pipe, op, err_to_out_token, new_lexer, Lexer, take_raw, at, quote,
  redirect_err, tokenize_step, tokenize_loop, tokenize, redirect_of, err_to_out, has_none,
  close_line, no_command, parse_tokens, parse,
}

-- A stage with a program to run.
pub IsStage : Command → Type 0
IsStage c = has_none c.words ≡ false

-- An answer, with what `P` says of a value.
pub data Answers {A : Type 0} (P : A → Type 0) : Result A → Type 0 where
  value : (a : A) → P a → Answers P (ok a)
  error : (e : ParseError) → Answers P (err e)

Answers-if :
    {A : Type 0} {P : A → Type 0} (b : Bool) (m n : Result A)
    → Answers P m
    → Answers P n
    → Answers P (if b then m else n)
Answers-if true m n hm hn = hm
Answers-if false m n hm hn = hn

close_line-Answers :
    (commands : List Command) (current : Command) (saw : Bool)
    → All IsStage commands
    → Answers (λ p. All IsStage p.commands) (close_line commands current saw)
unfolding close_line IsStage
close_line-Answers commands current saw h = elim (Bool-cases (has_none current.words)) [
  | inl bare ↦ elim (Bool-cases (saw || not (has_none commands))) [
    | inl refused ↦ rw bare (rw refused (error empty_stage))
    | inr quiet ↦ rw bare (rw quiet (value _ h))
  ]
  | inr full ↦ rw full (
      value _ (
        All-append (λ (c : Command). has_none c.words ≡ false) commands (current ∷ []) h
          (full, tt)))
]

parse_tokens-Answers :
    (tokens : List Token) (commands : List Command) (current : Command) (saw : Bool)
    → All IsStage commands
    → Answers (λ p. All IsStage p.commands) (parse_tokens tokens commands current saw)
unfolding parse_tokens
parse_tokens-Answers [] commands current saw h = close_line-Answers commands current saw h
parse_tokens-Answers (word w ∷ rest) commands current saw h =
    parse_tokens-Answers rest commands (record current { words = current.words ++ w ∷ [] }) true h
parse_tokens-Answers (err_to_out_token ∷ rest) commands current saw h =
    parse_tokens-Answers rest commands
      (record current { redirects = current.redirects ++ err_to_out ∷ [] }) true h
parse_tokens-Answers (pipe ∷ rest) commands current saw h =
    elim (Bool-cases (has_none current.words)) [
      | inl bare ↦ rw (bare, parse_tokens) (error empty_stage)
      | inr full ↦
          rw (full, parse_tokens)
            (parse_tokens-Answers rest (commands ++ current ∷ []) no_command false
              (All-append IsStage commands (current ∷ []) h ((unfold IsStage in full), tt)))
    ]
parse_tokens-Answers (op o ∷ word w ∷ rest) commands current saw h =
    parse_tokens-Answers rest commands
      (record current { redirects = current.redirects ++ redirect_of o w ∷ [] }) true h
parse_tokens-Answers (op o ∷ []) commands current saw h = error (missing_target o)
parse_tokens-Answers (op o ∷ pipe ∷ rest) commands current saw h = error (missing_target o)
parse_tokens-Answers (op o ∷ op o' ∷ rest) commands current saw h = error (missing_target o)
parse_tokens-Answers (op o ∷ err_to_out_token ∷ rest) commands current saw h =
    error (missing_target o)

-- What is left is no longer than what was there.
abbrev Shorter : Str → Lexer × Str → Type 0
Shorter rest (l, left) = length left ≤ length rest

quote-Answers :
    (q : ℕ) (text_of : Str → Str) (env : Env) (l : Lexer) (rest : Str)
    → Answers (Shorter rest) (quote q text_of env l rest)
unfolding quote
quote-Answers q text_of env l rest = at_close (position (λ c. c == q) rest)
  where
    at_close :
        (o : Option ℕ)
        → Answers (Shorter rest) (elim o as (λ _. Result (Lexer × Str)) [
          | none ↦ err (unterminated_quote q)
          | some close ↦
              let l' = take_raw env l in
              ok (
                record l' {
                  text = l'.text ++ text_of (take close rest);
                  had_word = true;
                  quoted = true;
                },
                drop (close + 1) rest,
              )
        ])
    at_close none = error (unterminated_quote q)
    at_close (some close) = value _ (omega (arith, length-drop (close + 1) rest))

length-drop_if :
    (b c : Bool) (rest : Str) (x y z : Lexer)
    → Shorter rest
        (if b then (x, drop 3 rest) else if c then (y, drop 2 rest) else (z, drop 1 rest))
length-drop_if true c rest x y z = omega (arith, length-drop 3 rest)
length-drop_if false true rest x y z = omega (arith, length-drop 2 rest)
length-drop_if false false rest x y z = omega (arith, length-drop 1 rest)

redirect_err-Shorter : (l : Lexer) (rest : Str) → Shorter rest (redirect_err l rest)
unfolding redirect_err
redirect_err-Shorter l rest =
    length-drop_if (at 1 b'&' rest && at 2 b'1' rest) (at 1 b'>' rest) rest _ _ _

tokenize_step-Answers :
    (env : Env) (l : Lexer) (c : ℕ) (rest : Str)
    → Answers (Shorter rest) (tokenize_step env l c rest)
unfolding tokenize_step
tokenize_step-Answers env l c rest = Answers-if (c == b' ' || c == 9) _ _ (value _ (omega arith)) (
    Answers-if (c == b'|') _ _ (value _ (omega arith)) (
      Answers-if (c == single_quote) _ _ (quote-Answers single_quote (λ s. s) env l rest) (
        Answers-if (c == double_quote) _ _
          (quote-Answers double_quote (λ s. expand s env) env l rest)
          (Answers-if (c == b'<') _ _ (value _ (omega arith)) (
            Answers-if (c == b'>') _ _
              (Answers-if (starts_at b'>' rest) _ _ (value _ (omega (arith, length-drop 1 rest)))
                (value _ (omega arith)))
              (Answers-if (c == b'2' && (not l.had_word && (is_empty l.raw && starts_at b'>' rest)))
                _ _ (value _ (redirect_err-Shorter l rest)) (value _ (omega arith))))))))

next-Answers :
    (go_on : Lexer → Str → Result (List Token)) (rest : Str) (r : Result (Lexer × Str))
    → Answers (Shorter rest) r
    → ((l : Lexer) (left : Str)
        → length left ≤ length rest
        → Answers (λ tokens. Unit {0}) (go_on l left))
    → Answers
        (λ tokens. Unit {0})
        (elim r as (λ _. Result (List Token)) [
          | ok (l', left) ↦ go_on l' left
          | err e ↦ err e
          | stuck ↦ stuck
        ])
next-Answers go_on rest (ok (l', left)) (value _ less) h = h l' left less
next-Answers go_on rest (err e) (error _) h = error e
next-Answers go_on rest stuck r h = elim r [ ]

tokenize_loop-Answers :
    (rounds : ℕ) (env : Env) (l : Lexer) (chars : Str)
    → length chars ≤ rounds
    → Answers (λ tokens. Unit {0}) (tokenize_loop rounds env l chars)
unfolding tokenize_loop
tokenize_loop-Answers rounds env l [] h = value _ tt
tokenize_loop-Answers zero env l (c ∷ rest) h = absurd (omega arith)
tokenize_loop-Answers (suc rounds) env l (c ∷ rest) h =
    next-Answers (tokenize_loop rounds env) rest (tokenize_step env l c rest)
      (tokenize_step-Answers env l c rest)
      λ l' left less. tokenize_loop-Answers rounds env l' left (omega (arith, less, h))

-- On any line and in any environment, parsing ends: with an error of its own, or with a pipeline each of
-- whose stages has a program to run.
pub parse-IsStage :
    (line : Str) (env : Env) → Answers (λ p. All IsStage p.commands) (parse line env)
unfolding parse tokenize
parse-IsStage line env =
    staged (tokenize_loop (length line) env new_lexer line)
      (tokenize_loop-Answers (length line) env new_lexer line (omega arith))
  where
    staged :
        (r : Result (List Token))
        → Answers (λ tokens. Unit {0}) r
        → Answers
            (λ p. All IsStage p.commands)
            (elim r as (λ _. Result Pipeline) [
              | err e ↦ err e
              | stuck ↦ stuck
              | ok tokens ↦
                  if has_none tokens
                  then ok (record { commands = [] })
                  else parse_tokens tokens [] no_command false
            ])
    staged (ok tokens) h =
        Answers-if (has_none tokens) _ _ (value _ tt)
          (parse_tokens-Answers tokens [] no_command false tt)
    staged (err e) h = error e
    staged stuck h = elim h [ ]
