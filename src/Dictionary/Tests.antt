-- ===== src/Dictionary/Tests.antt =====
-- Runs of the parser, and the witnesses.
use aflgo.Common.{ℕ, ◌≡◌, refl, arith, ◌⊎◌, List, [], ◌∷◌, ◌++◌}
use aflgo.Dictionary.{
  skipped, token, fatal, invalid_escape, unescape, parse_value, parse_level, parse_pair, parse_line,
  loads, load_extras_file,
}
use aflgo.Dictionary.Parse.{printed, parse_line-printed}
use aflgo.Dictionary.Load.{tokens, IsAccepted, IsStopped, load_extras_file-IsLoaded}

-- ` kw@1="a\x41" `, at two levels.
abbrev sample : List ℕ
sample =
    b' ' ∷ b'k' ∷ b'w' ∷ b'@' ∷ b'1' ∷ b'=' ∷ b'"' ∷ b'a' ∷ b'\\' ∷ b'x' ∷ b'4' ∷ b'1' ∷ b'"' ∷ b' '
    ∷ []

level_one : parse_line 1 sample ≡ token (97 ∷ 65 ∷ [])
unfolding parse_line parse_pair parse_level parse_value unescape
level_one = refl

level_zero : parse_line 0 sample ≡ skipped
unfolding parse_line parse_pair parse_level parse_value unescape
level_zero = refl

-- `"\q"`
bad_escape : parse_line 0 (b'"' ∷ b'\\' ∷ b'q' ∷ b'"' ∷ []) ≡ fatal invalid_escape
unfolding parse_line parse_pair parse_level parse_value unescape
bad_escape = refl

parse_line-printed_example :
    parse_line 0 (printed (b'k' ∷ []) (1 ∷ 34 ∷ 97 ∷ [])) ≡ token (1 ∷ 34 ∷ 97 ∷ [])
parse_line-printed_example =
    parse_line-printed 0 (b'k' ∷ []) (1 ∷ 34 ∷ 97 ∷ []) (refl, tt) (omega arith)

load_extras_file-IsLoaded_example :
    (IsAccepted 1 (sample ∷ [])
      × (load_extras_file 1 [] (sample ∷ []) ≡ loads ([] ++ tokens 1 (sample ∷ []))))
    ⊎ IsStopped 1 0 (sample ∷ []) (load_extras_file 1 [] (sample ∷ []))
load_extras_file-IsLoaded_example = load_extras_file-IsLoaded 1 [] (sample ∷ [])
