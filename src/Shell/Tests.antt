-- ===== src/Shell/Tests.antt =====
-- Lines that are parsed, and the theorems at them.
use batuta.Base.{◌≡◌, refl, ◌&&◌, none, some, [], ◌∷◌, leb, if◌then◌else◌, All}
use batuta.Ntfs.Boot.{bytes_eq}
use batuta.Shell.{Env, expand}
use batuta.Shell.Parse.{ok, err, missing_target, unterminated_quote, empty_stage, parse}
use batuta.Shell.Parse.Stages.{Answers, IsStage, parse-IsStage}
use batuta.Shell.Parse.Quoting.{quote_line, parse-quote_line}

-- `X` is "ab", and nothing else is set.
abbrev small_env : Env
small_env = record {
  lookup = λ name. if bytes_eq name (b'X' ∷ []) then some (b'a' ∷ b'b' ∷ []) else none;
  is_alphanumeric = λ c. leb b'0' c && leb c b'z';
}

-- "$X.%X%"
expand_both :
    expand (b'$' ∷ b'X' ∷ b'.' ∷ b'%' ∷ b'X' ∷ b'%' ∷ []) small_env
    ≡ b'a' ∷ b'b' ∷ b'.' ∷ b'a' ∷ b'b' ∷ []
unfolding expand bytes_eq
expand_both = refl

-- "a>"
parse_no_target : parse (b'a' ∷ b'>' ∷ []) small_env ≡ err (missing_target (b'>' ∷ []))
unfolding parse
parse_no_target = refl

-- "a|"
parse_trailing_pipe : parse (b'a' ∷ b'|' ∷ []) small_env ≡ err empty_stage
unfolding parse
parse_trailing_pipe = refl

-- "a"b
parse_open_quote : parse (b'a' ∷ 34 ∷ b'b' ∷ []) small_env ≡ err (unterminated_quote 34)
unfolding parse
parse_open_quote = refl

parse-IsStage_example :
    Answers (λ p. All IsStage p.commands) (parse (b'a' ∷ b'|' ∷ b'b' ∷ []) small_env)
parse-IsStage_example = parse-IsStage (b'a' ∷ b'|' ∷ b'b' ∷ []) small_env

-- The words "$X" and "a b".
parse-quote_line_example :
    parse (quote_line ((b'$' ∷ b'X' ∷ []) ∷ (b'a' ∷ b' ' ∷ b'b' ∷ []) ∷ [])) small_env
    ≡ ok (record {
      commands =
          record { words = (b'$' ∷ b'X' ∷ []) ∷ (b'a' ∷ b' ' ∷ b'b' ∷ []) ∷ []; redirects = [] }
          ∷ [];
    })
parse-quote_line_example =
    parse-quote_line small_env (b'$' ∷ b'X' ∷ []) ((b'a' ∷ b' ' ∷ b'b' ∷ []) ∷ [])
      ((refl, (refl, tt)), ((refl, (refl, (refl, tt))), tt))
