-- ===== src/Shell/Parse.antt =====
-- crates/batuta-app/src/shell/parse.rs: `tokenize` and `parse`.
pub mod Stages
pub mod Quoting
use batuta.Base.{
  ℕ, zero, suc, ◌+◌, Bool, true, false, not, ◌&&◌, ◌||◌, Option, none, some, List, [], ◌∷◌, ◌++◌,
}
use batuta.Base.{length, get_elem?, take, drop, ◌==◌, if◌then◌else◌}
use batuta.Ntfs.Boot.{bytes_eq}
use batuta.Shell.{
  Str, Env, single_quote, double_quote, position, is_empty, starts_at, expand, expand_home,
}

pub data Redirect : Type 0 where
  out : (path : Str) (append : Bool) → Redirect
  err_file : (path : Str) (append : Bool) → Redirect
  in_file : (path : Str) → Redirect
  err_to_out : Redirect

pub record Command : Type 0 where
  pub words : List Str
  pub redirects : List Redirect

-- `Command::program` and `Command::args`
unfoldable program : Command → Option Str
program c = get_elem? c.words 0

unfoldable args : Command → List Str
args c = drop 1 c.words

pub record Pipeline : Type 0 where
  pub commands : List Command

pub data ParseError : Type 0 where
  unterminated_quote : ℕ → ParseError
  empty_stage : ParseError
  missing_target : Str → ParseError

-- `stuck` is a loop of the model that ran out of rounds.
pub data Result (A : Type 0) : Type 0 where
  ok : A → Result A
  err : ParseError → Result A
  stuck : Result A

pub data Token : Type 0 where
  word : Str → Token
  pipe : Token
  op : Str → Token
  err_to_out_token : Token

-- The state of `tokenize`: the tokens so far, the word being built, and the unquoted run that is not
-- yet expanded into it.
pub record Lexer : Type 0 where
  pub tokens : List Token
  pub text : Str
  pub raw : Str
  pub had_word : Bool
  pub quoted : Bool

abbrev pub new_lexer : Lexer
new_lexer = record { tokens = []; text = []; raw = []; had_word = false; quoted = false }

abbrev pub push_token : Token → Lexer → Lexer
push_token t l = record l { tokens = l.tokens ++ t ∷ [] }

-- `take_raw!`
unfoldable pub take_raw : Env → Lexer → Lexer
unfolding expand
take_raw env l =
    if is_empty l.raw then l else record l { text = l.text ++ expand l.raw env; raw = [] }

-- `flush!` after `take_raw!`
unfoldable pub finish_word : Env → Lexer → Lexer
unfolding expand_home
finish_word env l =
    if l.had_word
    then record {
      tokens = l.tokens ++ word (if l.quoted then l.text else expand_home l.text env) ∷ [];
      text = [];
      raw = l.raw;
      had_word = false;
      quoted = false;
    }
    else l

unfoldable pub flush : Env → Lexer → Lexer
unfolding take_raw finish_word
flush env l = finish_word env (take_raw env l)

abbrev pub at : ℕ → ℕ → Str → Bool
at i c s = starts_at c (drop i s)

-- A quoted run: what stands up to the closing quote, through `text_of`.
unfoldable pub quote : ℕ → (Str → Str) → Env → Lexer → Str → Result (Lexer × Str)
unfolding take_raw
quote q text_of env l rest = elim (position (λ c. c == q) rest) [
  | none ↦ err (unterminated_quote q)
  | some close ↦
      let l' = take_raw env l in
      ok (
        record l' { text = l'.text ++ text_of (take close rest); had_word = true; quoted = true },
        drop (close + 1) rest,
      )
]

-- The operators that begin with a `2`, where `rest` begins with `>`.
unfoldable pub redirect_err : Lexer → Str → Lexer × Str
redirect_err l rest =
    if at 1 b'&' rest && at 2 b'1' rest
    then (push_token err_to_out_token l, drop 3 rest)
    else if at 1 b'>' rest
    then (push_token (op (b'2' ∷ b'>' ∷ b'>' ∷ [])) l, drop 2 rest)
    else (push_token (op (b'2' ∷ b'>' ∷ [])) l, drop 1 rest)

-- One round of the loop, on the character `c` before `rest`.
unfoldable pub tokenize_step : Env → Lexer → ℕ → Str → Result (Lexer × Str)
unfolding flush quote redirect_err expand
tokenize_step env l c rest =
    if c == b' ' || c == 9
    then ok (flush env l, rest)
    else if c == b'|'
    then ok (push_token pipe (flush env l), rest)
    else if c == single_quote
    then quote single_quote (λ s. s) env l rest
    else if c == double_quote
    then quote double_quote (λ s. expand s env) env l rest
    else if c == b'<'
    then ok (push_token (op (b'<' ∷ [])) (flush env l), rest)
    else if c == b'>'
    then (if starts_at b'>' rest
        then ok (push_token (op (b'>' ∷ b'>' ∷ [])) (flush env l), drop 1 rest)
        else ok (push_token (op (b'>' ∷ [])) (flush env l), rest))
    else if c == b'2' && (not l.had_word && (is_empty l.raw && starts_at b'>' rest))
    then ok (redirect_err l rest)
    else ok (record l { raw = l.raw ++ c ∷ []; had_word = true }, rest)

unfoldable pub tokenize_loop : ℕ → Env → Lexer → Str → Result (List Token)
unfolding tokenize_step flush
tokenize_loop rounds env l [] = ok (flush env l).tokens
tokenize_loop zero env l (c ∷ rest) = stuck
tokenize_loop (suc rounds) env l (c ∷ rest) = elim (tokenize_step env l c rest) [
  | ok (l', left) ↦ tokenize_loop rounds env l' left
  | err e ↦ err e
  | stuck ↦ stuck
]

unfoldable pub tokenize : Str → Env → Result (List Token)
unfolding tokenize_loop
tokenize line env = tokenize_loop (length line) env new_lexer line

unfoldable pub redirect_of : Str → Str → Redirect
unfolding bytes_eq
redirect_of operator target =
    if bytes_eq operator (b'>' ∷ [])
    then out target false
    else if bytes_eq operator (b'>' ∷ b'>' ∷ [])
    then out target true
    else if bytes_eq operator (b'2' ∷ b'>' ∷ [])
    then err_file target false
    else if bytes_eq operator (b'2' ∷ b'>' ∷ b'>' ∷ [])
    then err_file target true
    else in_file target

abbrev pub has_none {ℓ} : {A : Type ℓ} → List A → Bool
has_none [] = true
has_none (x ∷ xs) = false

-- After the loop: a trailing pipe, or a line that was only a redirection, is refused.
unfoldable pub close_line : List Command → Command → Bool → Result Pipeline
close_line commands current saw_anything =
    if has_none current.words
    then (if saw_anything || not (has_none commands)
        then err empty_stage
        else ok (record { commands = commands }))
    else ok (record { commands = commands ++ current ∷ [] })

abbrev pub no_command : Command
no_command = record { words = []; redirects = [] }

-- The loop over the tokens.
unfoldable pub parse_tokens : List Token → List Command → Command → Bool → Result Pipeline
unfolding close_line redirect_of
parse_tokens [] commands current saw_anything = close_line commands current saw_anything
parse_tokens (word w ∷ rest) commands current saw_anything =
    parse_tokens rest commands (record current { words = current.words ++ w ∷ [] }) true
parse_tokens (err_to_out_token ∷ rest) commands current saw_anything =
    parse_tokens rest commands (record current { redirects = current.redirects ++ err_to_out ∷ [] })
      true
parse_tokens (pipe ∷ rest) commands current saw_anything = elim (has_none current.words) [
  | true ↦ err empty_stage
  | false ↦ parse_tokens rest (commands ++ current ∷ []) no_command false
]
parse_tokens (op o ∷ word w ∷ rest) commands current saw_anything =
    parse_tokens rest commands
      (record current { redirects = current.redirects ++ redirect_of o w ∷ [] }) true
parse_tokens (op o ∷ _) commands current saw_anything = err (missing_target o)

unfoldable pub parse : Str → Env → Result Pipeline
unfolding tokenize parse_tokens
parse line env = elim (tokenize line env) [
  | err e ↦ err e
  | stuck ↦ stuck
  | ok tokens ↦
      if has_none tokens
      then ok (record { commands = [] })
      else parse_tokens tokens [] no_command false
]
