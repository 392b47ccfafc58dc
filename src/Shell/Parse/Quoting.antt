-- ===== src/Shell/Parse/Quoting.antt =====
-- Single quotes keep a word as it is.
use batuta.Base.{
  ℕ, zero, suc, ◌+◌, ◌≤◌, ◌≡◌, refl, sym, ap, ◌∙◌, arith, true, false, Option, none, some, List, [],
  ◌∷◌, ◌++◌, All,
}
use batuta.Base.{
  length, take, drop, ◌==◌, if◌then◌else◌, length-append, take-append_length, drop-append_length,
  drop-sum,
}
use mathlib.Core.List.{append_assoc, append-nil}
use batuta.Shell.{Str, Env, single_quote, position}
use batuta.Shell.Parse.{
  unterminated_quote, Pipeline, Result, ok, err, stuck, Token, word, Lexer, take_raw, finish_word,
  flush, quote, tokenize_step, tokenize_loop, tokenize, has_none, close_line, no_command,
  parse_tokens, parse,
}

-- A word without a single quote.
abbrev pub Quotable : Str → Type 0
Quotable = All (λ c. (c == single_quote) ≡ false)

-- Each word in single quotes, and a space after it.
pub quote_line : List Str → Str
quote_line [] = []
quote_line (w ∷ ws) = single_quote ∷ (w ++ (single_quote ∷ b' ' ∷ quote_line ws))

word_tokens : List Str → List Token
word_tokens [] = []
word_tokens (w ∷ ws) = word w ∷ word_tokens ws

position_quote :
    (w rest : Str)
    → Quotable w
    → position (λ c. c == single_quote) (w ++ single_quote ∷ rest) ≡ some (length w)
position_quote [] rest h = refl
position_quote (c ∷ w) rest h = rw (h.0) (rw (position_quote w rest h.1) refl)

-- Between words.
abbrev idle : List Token → Lexer
idle tokens = record { tokens = tokens; text = []; raw = []; had_word = false; quoted = false }

abbrev quoted_word : List Token → Str → Lexer
quoted_word tokens w = record {
  tokens = tokens;
  text = w;
  raw = [];
  had_word = true;
  quoted = true;
}

quote_at :
    (q close : ℕ) (text_of : Str → Str) (env : Env) (l : Lexer) (rest : Str)
    → position (λ c. c == q) rest ≡ some close
    → quote q text_of env l rest
      ≡ ok (
        record (take_raw env l) {
          text = (take_raw env l).text ++ text_of (take close rest);
          had_word = true;
          quoted = true;
        },
        drop (close + 1) rest,
      )
unfolding quote
quote_at q close text_of env l rest e =
    ap
      (λ (o : Option ℕ). elim o as (λ _. Result (Lexer × Str)) [
        | none ↦ err (unterminated_quote q)
        | some close ↦ ok (
          record (take_raw env l) {
            text = (take_raw env l).text ++ text_of (take close rest);
            had_word = true;
            quoted = true;
          },
          drop (close + 1) rest,
        )
      ])
      e

quote_step :
    (env : Env) (tokens : List Token) (w rest : Str)
    → Quotable w
    → tokenize_step env (idle tokens) single_quote (w ++ single_quote ∷ rest)
      ≡ ok (quoted_word tokens w, rest)
unfolding tokenize_step take_raw
quote_step env tokens w rest h =
    quote_at single_quote (length w) (λ s. s) env (idle tokens) (w ++ single_quote ∷ rest)
      (position_quote w rest h)
    ∙ ap (λ (p : Str × Str). ok (quoted_word tokens p.0, p.1))
        (cc (take-append_length w (single_quote ∷ rest), past))
  where
    past : drop (length w + 1) (w ++ single_quote ∷ rest) ≡ rest
    past =
        drop-sum (length w) 1 (w ++ single_quote ∷ rest)
        ∙ ap (drop 1) (drop-append_length w (single_quote ∷ rest))

flush_step :
    (env : Env) (tokens : List Token) (w rest : Str)
    → tokenize_step env (quoted_word tokens w) b' ' rest ≡ ok (idle (tokens ++ word w ∷ []), rest)
unfolding tokenize_step flush take_raw finish_word
flush_step env tokens w rest = refl

one_round :
    (rounds : ℕ) (env : Env) (l l' : Lexer) (c : ℕ) (rest left : Str)
    → tokenize_step env l c rest ≡ ok (l', left)
    → tokenize_loop (suc rounds) env l (c ∷ rest) ≡ tokenize_loop rounds env l' left
unfolding tokenize_loop
one_round rounds env l l' c rest left e =
    ap
      (λ (r : Result (Lexer × Str)). elim r as (λ _. Result (List Token)) [
        | ok (l', left) ↦ tokenize_loop rounds env l' left
        | err e ↦ err e
        | stuck ↦ stuck
      ])
      e

tokenize_loop-quote_line :
    (ws : List Str) (rounds : ℕ) (env : Env) (tokens : List Token)
    → All Quotable ws
    → length (quote_line ws) ≤ rounds
    → tokenize_loop rounds env (idle tokens) (quote_line ws) ≡ ok (tokens ++ word_tokens ws)
unfolding tokenize_loop quote_line word_tokens flush take_raw finish_word
tokenize_loop-quote_line [] rounds env tokens h k = ap ok (sym (append-nil tokens))
tokenize_loop-quote_line (w ∷ ws) zero env tokens h k = absurd (omega arith)
tokenize_loop-quote_line (w ∷ ws) (suc zero) env tokens h k =
    absurd (omega (arith, k, length-append w (single_quote ∷ b' ' ∷ quote_line ws)))
tokenize_loop-quote_line (w ∷ ws) (suc (suc rounds)) env tokens h k =
    one_round (suc rounds) env (idle tokens) (quoted_word tokens w) single_quote
      (w ++ single_quote ∷ b' ' ∷ quote_line ws) (b' ' ∷ quote_line ws)
      (quote_step env tokens w (b' ' ∷ quote_line ws) h.0)
    ∙ one_round rounds env (quoted_word tokens w) (idle (tokens ++ word w ∷ [])) b' '
        (quote_line ws) (quote_line ws) (flush_step env tokens w (quote_line ws))
    ∙ tokenize_loop-quote_line ws rounds env (tokens ++ word w ∷ []) h.1
        (omega (arith, k, length-append w (single_quote ∷ b' ' ∷ quote_line ws)))
    ∙ ap ok (append_assoc tokens (word w ∷ []) (word_tokens ws))

-- The words are taken into the current command.
parse_tokens-words :
    (ws taken : List Str)
    → parse_tokens (word_tokens ws) [] (record { words = taken; redirects = [] }) true
      ≡ close_line [] (record { words = taken ++ ws; redirects = [] }) true
unfolding parse_tokens word_tokens
parse_tokens-words [] taken =
    ap (λ (words : List Str). close_line [] (record { words = words; redirects = [] }) true)
      (sym (append-nil taken))
parse_tokens-words (w ∷ ws) taken =
    parse_tokens-words ws (taken ++ w ∷ [])
    ∙ ap (λ (words : List Str). close_line [] (record { words = words; redirects = [] }) true)
        (append_assoc taken (w ∷ []) ws)

-- Words without a single quote, each put in single quotes, are parsed to one command of exactly those
-- words and no redirection, in any environment: nothing in them is expanded, split or taken for an
-- operator, and an empty one is kept. There is one word at least.
pub parse-quote_line :
    (env : Env) (w : Str) (ws : List Str)
    → All Quotable (w ∷ ws)
    → parse (quote_line (w ∷ ws)) env
      ≡ ok (record { commands = record { words = w ∷ ws; redirects = [] } ∷ [] })
unfolding parse tokenize parse_tokens word_tokens close_line
parse-quote_line env w ws h =
    ap
      (λ (r : Result (List Token)). elim r as (λ _. Result Pipeline) [
        | err e ↦ err e
        | stuck ↦ stuck
        | ok tokens ↦
            if has_none tokens
            then ok (record { commands = [] })
            else parse_tokens tokens [] no_command false
      ])
      (tokenize_loop-quote_line (w ∷ ws) (length (quote_line (w ∷ ws))) env [] h (omega arith))
    ∙ parse_tokens-words ws (w ∷ [])
